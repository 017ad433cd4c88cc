-- ===== src/Server.antt =====
-- router.go: the routes of the server and the gates in front of them. The matching of a request to a
-- route is that of the web framework.
pub mod Laws
use griya_maya.Base.{ℕ, Bool, true, false, List, [], ◌∷◌, ◌++◌, map}
use griya_maya.Text.{Str, str}
use griya_maya.Effect.{Result}
use griya_maya.Oidc.Gate.{Claims, Verdict, next, gate, taxonomy_gate}

-- `any` is every method
pub data Method : Type 0 where
  get post put delete any : Method

-- no gate, Middleware, MiddlewareScope of a scope, and MiddlewareTaxonomyWrite
pub data Guard : Type 0 where
  ungated required taxonomy : Guard
  scoped : Str → Guard

pub record Route : Type 0 where
  pub method : Method
  pub path : Str
  pub guard : Guard

abbrev pub route : Method → Str → Guard → Route
route method path guard = record { method = method; path = path; guard = guard }

-- Engine.Group: a method with the rest of the path, for each route of the group
abbrev pub group : Str → Guard → List (Method × Str) → List Route
group prefix guard [] = []
group prefix guard ((method, path) ∷ rs) =
    route method (prefix ++ path) guard ∷ group prefix guard rs

abbrev pub provider_paths : List Str
provider_paths =
    str "/.well-known/*action"
    ∷ str "/authorize"
    ∷ str "/authorize/callback"
    ∷ str "/oauth/*action"
    ∷ str "/userinfo"
    ∷ str "/keys"
    ∷ str "/revoke"
    ∷ str "/end_session"
    ∷ str "/device_authorization"
    ∷ str "/login/*action"
    ∷ str "/register"
    ∷ str "/logged-out"
    ∷ []

abbrev pub catalog_routes : List Route
catalog_routes = group (str "/v1") ungated (
    (get, str "/sources/:sourceId/popular")
    ∷ (get, str "/sources/:sourceId/latest")
    ∷ (get, str "/sources/:sourceId/search")
    ∷ (get, str "/sources/:sourceId/recommendations")
    ∷ (get, str "/sources/:sourceId/subtypes")
    ∷ (get, str "/subtypes")
    ∷ (get, str "/media/:id")
    ∷ (get, str "/media/:id/chapters")
    ∷ (get, str "/chapters/:id/adjacent")
    ∷ (get, str "/stream/*key")
    ∷ [])

abbrev pub reading_routes : List Route
reading_routes = group (str "/v1") (scoped (str "manga.read")) (
    (get, str "/chapters/:id/pages")
    ∷ (get, str "/image")
    ∷ (get, str "/taxonomies/:kind")
    ∷ (get, str "/sources")
    ∷ (get, str "/ads")
    ∷ [])

abbrev pub admin_read_routes : List Route
admin_read_routes = group (str "/v1/admin") (scoped (str "admin.read")) (
    (get, str "/sources")
    ∷ (get, str "/sources/:id")
    ∷ (get, str "/subtypes")
    ∷ (get, str "/chapters/:id/pages")
    ∷ (get, str "/ads")
    ∷ (get, str "/ads/:id")
    ∷ [])

abbrev pub admin_write_routes : List Route
admin_write_routes = group (str "/v1/admin") (scoped (str "admin.write")) (
    (post, str "/sources")
    ∷ (put, str "/sources/:id")
    ∷ (delete, str "/sources/:id")
    ∷ (post, str "/subtypes")
    ∷ (put, str "/subtypes/:slug")
    ∷ (delete, str "/subtypes/:slug")
    ∷ (delete, str "/chapters/:id/pages/:idx")
    ∷ (post, str "/ads")
    ∷ (put, str "/ads/:id")
    ∷ (delete, str "/ads/:id")
    ∷ (post, str "/ads/presign")
    ∷ [])

abbrev pub management_routes : List Route
management_routes = group (str "/v1") required (
    (post, str "/media")
    ∷ (put, str "/media/:id")
    ∷ (delete, str "/media/:id")
    ∷ (post, str "/media/:id/chapters")
    ∷ (put, str "/chapters/:id")
    ∷ (delete, str "/chapters/:id")
    ∷ (post, str "/chapters/delete")
    ∷ (post, str "/chapters/:id/pages")
    ∷ [])

abbrev pub taxonomy_routes : List Route
taxonomy_routes = group (str "/v1") taxonomy (
    (post, str "/taxonomies/:kind")
    ∷ (put, str "/taxonomies/:kind/:id")
    ∷ (delete, str "/taxonomies/:kind/:id")
    ∷ [])

abbrev pub connections_routes : List Route
connections_routes = group (str "/v1") (scoped (str "connections.write")) (
    (post, str "/connections")
    ∷ (get, str "/connections")
    ∷ (get, str "/connections/:id")
    ∷ (put, str "/connections/:id")
    ∷ (delete, str "/connections/:id")
    ∷ (post, str "/connections/:id/authorize")
    ∷ (post, str "/connections/callback")
    ∷ (post, str "/connections/:id/refresh")
    ∷ (get, str "/connections/:id/search")
    ∷ [])

abbrev pub users_read_routes : List Route
users_read_routes =
    group (str "/v1/users") (scoped (str "users.read")) ((get, []) ∷ (get, str "/:id") ∷ [])

abbrev pub users_write_routes : List Route
users_write_routes =
    group (str "/v1/users") (scoped (str "users.write"))
      ((post, []) ∷ (put, str "/:id") ∷ (delete, str "/:id") ∷ [])

abbrev pub invites_read_routes : List Route
invites_read_routes = group (str "/v1/invites") (scoped (str "users.read")) ((get, []) ∷ [])

abbrev pub invites_write_routes : List Route
invites_write_routes =
    group (str "/v1/invites") (scoped (str "users.write"))
      ((post, []) ∷ (delete, str "/:code") ∷ [])

abbrev pub convert_routes : List Route
convert_routes = group (str "/v1/convert") required ((post, str "/presign") ∷ [])

abbrev pub video_routes : List Route
video_routes =
    group (str "/v1/video") required
      ((post, str "/presign") ∷ (post, str "/upload") ∷ (post, []) ∷ [])

abbrev pub novel_routes : List Route
novel_routes = group (str "/v1/novel") required ((post, []) ∷ [])

abbrev pub webauthn_routes : List Route
webauthn_routes =
    group (str "/v1/webauthn") (scoped [])
      ((post, str "/register/begin") ∷ (post, str "/register/finish") ∷ [])

abbrev pub client_registration_routes : List Route
client_registration_routes =
    group (str "/connect/register") ungated
      ((post, []) ∷ (get, str "/:id") ∷ (put, str "/:id") ∷ (delete, str "/:id") ∷ [])

-- the routes that New registers, in its order by groups
abbrev pub routes : List Route
routes =
    route get (str "/healthz") ungated
      ∷ route get (str "/openapi.yaml") ungated
      ∷ route get (str "/docs") ungated
      ∷ route post (str "/v1/register") ungated
      ∷ map (λ path. route any path ungated) provider_paths
    ++ catalog_routes
    ++ reading_routes
    ++ admin_read_routes
    ++ admin_write_routes
    ++ management_routes
    ++ taxonomy_routes
    ++ connections_routes
    ++ users_read_routes
    ++ users_write_routes
    ++ invites_read_routes
    ++ invites_write_routes
    ++ convert_routes
    ++ video_routes
    ++ novel_routes
    ++ webauthn_routes
    ++ client_registration_routes

-- op.VerifyAccessToken, the scope of the configuration, and the parameter kind of the path
module _ (verify : Str → Result Claims) (required_scope kind : Str) where
  -- what the gate of a route answers; a route without one goes on with no claims
  unfoldable pub admit : Guard → Str → Verdict
  admit ungated header = next (record { subject = []; scopes = [] })
  admit required header = gate verify required_scope header
  admit taxonomy header = taxonomy_gate verify kind header
  admit (scoped scope) header = gate verify scope header

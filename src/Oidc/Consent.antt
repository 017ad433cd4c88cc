-- ===== src/Oidc/Consent.antt =====
-- consent.go: the scopes that a user has granted to a client.
pub mod Laws
use griya_maya.Base.{
  Bool, true, false, not, ◌&&◌, Option, none, some, List, [], ◌∷◌, ◌++◌, map, keep, any,
  if◌then◌else◌,
}
use griya_maya.Text.{Str, str_eq}
use griya_maya.Effect.{Exec, query, exec, ◌>>=◌, ◌>>◌}
use griya_maya.Repo.Reads.{first}
use griya_maya.Oidc.Scopes.{union_scopes}

-- a row of oidc_user_consent, whose primary key is the user with the client; its two times, which
-- nothing reads, are left out
pub record Consent : Type 0 where
  pub user_id : Str
  pub client_id : Str
  pub scopes : List Str

abbrev pub is_for : Str → Str → Consent → Bool
is_for user_id client_id c = str_eq c.user_id user_id && str_eq c.client_id client_id

abbrev pub scopes_or_none : Option Consent → List Str
scopes_or_none none = []
scopes_or_none (some c) = c.scopes

abbrev pub granted : Str → Str → List Consent → List Str
granted user_id client_id s = scopes_or_none (first (keep (is_for user_id client_id) s))

-- Storage.consentScopes
unfoldable pub consent_scopes : Str → Str → Exec (List Consent) (List Str)
unfolding query
consent_scopes user_id client_id = query (granted user_id client_id)

abbrev pub with_scopes : Str → Str → List Str → Consent → Consent
with_scopes user_id client_id scopes c =
    if is_for user_id client_id c then record c { scopes = scopes } else c

-- INSERT … ON CONFLICT(user_id, client_id) DO UPDATE
abbrev pub upsert : Str → Str → List Str → List Consent → List Consent
upsert user_id client_id scopes s =
    if any (is_for user_id client_id) s
    then map (with_scopes user_id client_id scopes) s
    else s ++ record { user_id = user_id; client_id = client_id; scopes = scopes } ∷ []

-- Storage.saveConsent
unfoldable pub save_consent : Str → Str → List Str → Exec (List Consent) (Unit {0})
unfolding consent_scopes exec
save_consent user_id client_id scopes = do
  existing ← consent_scopes user_id client_id
  exec (upsert user_id client_id (union_scopes existing scopes))

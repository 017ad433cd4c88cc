-- ===== src/Oidc/Clients.antt =====
-- client.go, seed.go and the client lookups of storage.go: the clients of the table oidc_client in
-- migrations/0002_oidc.sql.
pub mod Laws
use griya_maya.Base.{
  ℕ, Bool, true, false, not, ◌||◌, List, [], ◌∷◌, ◌++◌, map, keep, any, if◌then◌else◌, is_empty,
  Option, none, some,
}
use griya_maya.Text.{Str, str, str_eq, mem_str}
use griya_maya.Effect.{
  Exec, Result, ok, err, World, bad_credentials, not_found, query, exec_checked, pure, fail,
  attempt, ◌>>=◌, ◌>>◌,
}
use griya_maya.Repo.Reads.{first, or_not_found}
use griya_maya.Oidc.Store.{unix}
use griya_maya.Oidc.Users.{Passwords}
use griya_maya.Oidc.Gate.{taxonomy_write_kinds, scope_taxonomy_write}

-- op.ApplicationType and op.AccessTokenType, whose numbers the table keeps
pub data ApplicationType : Type 0 where
  web user_agent native : ApplicationType

pub data AccessTokenType : Type 0 where
  bearer jwt : AccessTokenType

-- a row of oidc_client, whose primary key is `id`; a column of JSON is the list that it holds
pub record ClientRow : Type 0 where
  pub id : Str
  pub secret_hash : Str
  pub application_type : ApplicationType
  pub auth_method : Str
  pub redirect_uris : List Str
  pub post_logout_redirect_uris : List Str
  pub grant_types : List Str
  pub response_types : List Str
  pub scopes : List Str
  pub access_token_type : AccessTokenType
  pub dev_mode : Bool
  pub client_name : Str
  pub registration_access_token : Str
  pub created_at : ℕ

-- the names that RFC 6749 and RFC 7591 give the methods, grants and response types
abbrev pub auth_method_none : Str
auth_method_none = str "none"

abbrev pub auth_method_basic : Str
auth_method_basic = str "client_secret_basic"

abbrev pub grant_type_code : Str
grant_type_code = str "authorization_code"

abbrev pub grant_type_refresh_token : Str
grant_type_refresh_token = str "refresh_token"

abbrev pub grant_type_client_credentials : Str
grant_type_client_credentials = str "client_credentials"

abbrev pub response_type_code : Str
response_type_code = str "code"

-- Client; the creation time, which nothing reads, is left out
pub record Client : Type 0 where
  pub id : Str
  pub secret_hash : Str
  pub redirect_uris : List Str
  pub post_logout : List Str
  pub application_type : ApplicationType
  pub auth_method : Str
  pub response_types : List Str
  pub grant_types : List Str
  pub access_token_type : AccessTokenType
  pub dev_mode : Bool
  pub client_name : Str
  pub reg_access_token : Str

-- strOr
abbrev pub str_or : Str → Str → Str
str_or s d = if is_empty s then d else s

-- toResponseTypes
abbrev pub to_response_types : List Str → List Str
to_response_types vals = if is_empty vals then response_type_code ∷ [] else vals

-- toGrantTypes
abbrev pub to_grant_types : List Str → List Str
to_grant_types vals = if is_empty vals then grant_type_code ∷ [] else vals

-- clientFromRow
abbrev pub client_from_row : ClientRow → Client
client_from_row row = record {
  id = row.id;
  secret_hash = row.secret_hash;
  redirect_uris = row.redirect_uris;
  post_logout = row.post_logout_redirect_uris;
  application_type = row.application_type;
  auth_method = str_or row.auth_method auth_method_none;
  response_types = to_response_types row.response_types;
  grant_types = to_grant_types row.grant_types;
  access_token_type = row.access_token_type;
  dev_mode = row.dev_mode;
  client_name = row.client_name;
  reg_access_token = row.registration_access_token;
}

abbrev custom_scopes : List Str
custom_scopes =
    str "manga.write"
    ∷ str "manga.read"
    ∷ str "connections.write"
    ∷ str "users.read"
    ∷ str "users.write"
    ∷ str "admin.read"
    ∷ str "admin.write"
    ∷ []

-- Client.IsScopeAllowed
unfoldable pub is_scope_allowed : Str → Bool
is_scope_allowed scope =
    mem_str scope custom_scopes || mem_str scope (map scope_taxonomy_write taxonomy_write_kinds)

abbrev pub client_with : Str → List ClientRow → Option ClientRow
client_with id s = first (keep (λ r. str_eq r.id id) s)

abbrev pub client_of : Option ClientRow → Option Client
client_of none = none
client_of (some row) = some (client_from_row row)

-- Storage.clientByID
unfoldable pub client_by_id : Str → Exec (List ClientRow) (Option Client)
unfolding query
client_by_id id = query (λ s. client_of (client_with id s))

-- Storage.GetClientByClientID
unfoldable pub get_client_by_client_id : Str → Exec (List ClientRow) Client
get_client_by_client_id id = do c ← client_by_id id; λ w. (or_not_found c, w)

-- hasGrantType
abbrev pub has_grant_type : List Str → Str → Bool
has_grant_type grants want = mem_str want grants

module _ (ps : Passwords) where
  abbrev pub right_secret : Str → Client → Bool
  right_secret secret c = if is_empty c.secret_hash then false else ps.verify secret c.secret_hash

  abbrev pub authorize_secret : Str → Option Client → Exec (List ClientRow) (Unit {0})
  authorize_secret secret none = fail not_found
  authorize_secret secret (some c) = if right_secret secret c then pure tt else fail bad_credentials

  -- Storage.AuthorizeClientIDSecret
  unfoldable pub authorize_client_id_secret : Str → Str → Exec (List ClientRow) (Unit {0})
  authorize_client_id_secret id secret = do c ← client_by_id id; authorize_secret secret c

  abbrev pub credentials_of : Str → Result (Option Client) → Exec (List ClientRow) Client
  credentials_of secret (err e) = fail bad_credentials
  credentials_of secret (ok none) = fail bad_credentials
  credentials_of secret (ok (some c)) =
      if has_grant_type c.grant_types grant_type_client_credentials
      then if right_secret secret c then pure c else fail bad_credentials
      else fail bad_credentials

  -- Storage.ClientCredentials, whose errors are told apart by their texts only
  unfoldable pub client_credentials : Str → Str → Exec (List ClientRow) Client
  client_credentials id secret w = let (c, w') = client_by_id id w in credentials_of secret c w'

-- oidc.JWTTokenRequest
pub record JwtTokenRequest : Type 0 where
  pub subject : Str
  pub audience : List Str
  pub scopes : List Str

-- Storage.ClientCredentialsTokenRequest
unfoldable pub client_credentials_token_request :
    Str → List Str → Exec (List ClientRow) JwtTokenRequest
client_credentials_token_request id scopes w = let (c, w') = client_by_id id w in request_for c w'
  where
    request_for : Result (Option Client) → Exec (List ClientRow) JwtTokenRequest
    request_for (err e) = fail bad_credentials
    request_for (ok none) = fail bad_credentials
    request_for (ok (some c)) = pure (record { subject = id; audience = id ∷ []; scopes = scopes })

abbrev pub add_client : ClientRow → List ClientRow → Option (List ClientRow)
add_client row s = if any (λ r. str_eq r.id row.id) s then none else some (s ++ row ∷ [])

abbrev pub static_client : Str → Str → List Str → List Str → ℕ → ClientRow
static_client id name redirects scopes now = record {
  id = id;
  secret_hash = [];
  application_type = web;
  auth_method = auth_method_none;
  redirect_uris = redirects;
  post_logout_redirect_uris = [];
  grant_types = grant_type_code ∷ grant_type_refresh_token ∷ [];
  response_types = response_type_code ∷ [];
  scopes = scopes;
  access_token_type = jwt;
  dev_mode = false;
  client_name = name;
  registration_access_token = [];
  created_at = unix now;
}

-- seedPublicClient, whose failures are logged
unfoldable pub seed_public_client :
    Str → Str → List Str → List Str → ℕ → Exec (List ClientRow) (Unit {0})
unfolding query exec_checked
seed_public_client id name redirects scopes now = attempt do
  there ← query (any (λ r. str_eq r.id id))
  if there then pure tt else exec_checked (add_client (static_client id name redirects scopes now))

abbrev pub redirects_or : List Str → Str → List Str
redirects_or redirects d = if is_empty redirects then d ∷ [] else redirects

-- seedAdminClient, with the configured redirects
unfoldable pub seed_admin_client : List Str → ℕ → Exec (List ClientRow) (Unit {0})
seed_admin_client redirects now =
    seed_public_client (str "admin-web") (str "Mihon Admin Web")
      (redirects_or redirects (str "http://localhost:3000/auth/callback"))
      (str "openid" ∷ str "profile" ∷ str "email" ∷ str "offline_access" ∷ custom_scopes
        ++ map scope_taxonomy_write taxonomy_write_kinds)
      now

-- seedIOSClient
unfoldable pub seed_ios_client : List Str → ℕ → Exec (List ClientRow) (Unit {0})
seed_ios_client redirects now =
    seed_public_client (str "mihon-ios") (str "Mihon iOS")
      (redirects_or redirects (str "mihon://auth/callback"))
      (str "openid" ∷ str "offline_access" ∷ str "manga.read" ∷ []) now

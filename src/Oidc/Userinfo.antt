-- ===== src/Oidc/Userinfo.antt =====
-- storage.go: what a token tells of its user.
pub mod Laws
use griya_maya.Base.{
  ℕ, Bool, true, false, not, List, [], ◌∷◌, keep, ltb, if◌then◌else◌, is_empty, Option, none, some,
}
use griya_maya.Text.{Str, str, str_eq, mem_str, join}
use griya_maya.Effect.{
  Exec, Result, ok, err, World, not_found, unknown_token, expired_token, invalid_client, pure, fail,
  ◌>>=◌, ◌>>◌,
}
use griya_maya.Oidc.Store.{Token}
use griya_maya.Oidc.Tokens.{get_token}
use griya_maya.Oidc.Users.{AdminUser, user_by_id}
use griya_maya.Oidc.Requests.{Provider, on_directory, on_tokens}

-- oidc.UserInfo, whose pointer EmailVerified is none where it is not set
pub record UserInfo : Type 0 where
  pub subject : Str
  pub email : Str
  pub email_verified : Option Bool
  pub name : Str
  pub preferred_username : Str

abbrev pub no_info : UserInfo
no_info = record {
  subject = [];
  email = [];
  email_verified = none;
  name = [];
  preferred_username = [];
}

abbrev pub add_scope : AdminUser → Str → UserInfo → UserInfo
add_scope user scope info =
    if str_eq scope (str "openid")
    then record info { subject = user.id }
    else if str_eq scope (str "email")
    then record info { email = user.email; email_verified = some user.email_verified }
    else if str_eq scope (str "profile")
    then record info { name = user.name; preferred_username = user.email }
    else info

-- the loop of setUserinfo
unfoldable pub add_scopes : AdminUser → List Str → UserInfo → UserInfo
add_scopes user [] info = info
add_scopes user (scope ∷ scopes) info = add_scopes user scopes (add_scope user scope info)

abbrev pub info_of : UserInfo → List Str → Option AdminUser → Exec Provider UserInfo
info_of info scopes none = fail not_found
info_of info scopes (some user) = pure (add_scopes user scopes info)

-- Storage.setUserinfo
unfoldable pub set_userinfo : UserInfo → Str → List Str → Exec Provider UserInfo
unfolding add_scopes
set_userinfo info user_id scopes = do
  user ← on_directory (user_by_id user_id)
  info_of info scopes user

abbrev pub valid_token :
    Result Token × World Provider
    → (Token → Exec Provider UserInfo)
    → ℕ
    → Result UserInfo × World Provider
valid_token (err e, w) rest now = (err unknown_token, w)
valid_token (ok t, w) rest now = if ltb t.expiration now then (err expired_token, w) else rest t w

-- Storage.SetUserinfoFromToken
unfoldable pub set_userinfo_from_token : UserInfo → Str → ℕ → Exec Provider UserInfo
unfolding set_userinfo
set_userinfo_from_token info token_id now w =
    valid_token (on_tokens (get_token token_id) w) (λ t. set_userinfo info t.subject t.scopes) now

-- the answer of an introspection
pub record Introspection : Type 0 where
  pub expiration : ℕ
  pub user : UserInfo
  pub scope : List Str
  pub client_id : Str

abbrev pub introspected : Str → Token → Exec Provider Introspection
introspected subject t = do
  user ← set_userinfo no_info subject t.scopes
  pure (record {
    expiration = t.expiration;
    user = user;
    scope = t.scopes;
    client_id = t.application_id;
  })

abbrev pub introspect : Str → Str → Token → Exec Provider Introspection
introspect subject client_id t =
    if mem_str client_id t.audience then introspected subject t else fail invalid_client

abbrev pub introspect_valid :
    Str → Str → ℕ → Result Token × World Provider → Result Introspection × World Provider
introspect_valid subject client_id now (err e, w) = (err unknown_token, w)
introspect_valid subject client_id now (ok t, w) =
    let answer = introspect subject client_id t w in
    if ltb t.expiration now then (err expired_token, w) else answer

-- Storage.SetIntrospectionFromToken, of which only the answer without error is used
unfoldable pub set_introspection_from_token : Str → Str → Str → ℕ → Exec Provider Introspection
unfolding set_userinfo
set_introspection_from_token token_id subject client_id now w =
    introspect_valid subject client_id now (on_tokens (get_token token_id) w)

-- Storage.GetPrivateClaimsFromScopes: the claim scope, if any
unfoldable pub get_private_claims_from_scopes : List Str → Option Str
get_private_claims_from_scopes scopes =
    if is_empty scopes then none else some (join (str " ") scopes)

-- Storage.ValidateJWTProfileScopes
unfoldable pub validate_jwt_profile_scopes : List Str → List Str
validate_jwt_profile_scopes scopes = keep (λ s. str_eq s (str "openid")) scopes

-- ===== src/Tests/Logins.antt =====
-- An authorization request, its sign-in, its consent and its tokens.
use griya_maya.Base.{◌*◌, ◌≡◌, ◌⊎◌, refl, true, false, [], ◌∷◌, none, some}
use griya_maya.Text.{Str, str, str_eq, mem_str}
use griya_maya.Effect.{ok, query, exec, call}
use griya_maya.Effect.Laws.{world}
use griya_maya.Oidc.Store.{Token, second}
use griya_maya.Oidc.Tokens.{get_token}
use griya_maya.Oidc.Users.{AdminUser, user_by_id}
use griya_maya.Oidc.Consent.{save_consent, consent_scopes}
use griya_maya.Oidc.Requests.{
  AuthRequest, ParsedRequest, Provider, request_with, auth_request_by_code, delete_auth_request,
  auth_request_to_internal, auth_request_by_id, put_request, finish_auth_request_amr,
  finish_auth_request,
}
use griya_maya.Oidc.Requests.Laws.{login_run, code_once}
use griya_maya.Oidc.Login.{under_review, wrong_credentials, callback, post_username, consent}
use griya_maya.Oidc.Login.Laws.{
  MaySignIn, post_username-MaySignIn, consent_anonymous, consent_remembered,
}
use griya_maya.Oidc.Userinfo.{
  Introspection, no_info, add_scopes, set_userinfo, set_introspection_from_token,
}
use griya_maya.Oidc.Userinfo.Laws.{
  Introspects, introspection_sound, user_with, disclosed, set_userinfo_discloses,
}
use griya_maya.Tests.Accounts.{plain, account}

abbrev asked : Str → Str → AuthRequest
asked id user_id = record {
  id = id;
  creation_date = 0;
  application_id = str "app";
  callback_uri = str "app:";
  transfer_state = [];
  prompt = [];
  login_hint = [];
  max_auth_age = none;
  user_id = user_id;
  scopes = str "openid" ∷ str "email" ∷ [];
  response_type = str "code";
  response_mode = [];
  nonce = [];
  code_challenge = none;
  is_done = false;
  auth_time = 0;
  auth_method = [];
}

abbrev parsed : ParsedRequest
parsed = record {
  client_id = str "app";
  redirect_uri = str "app:";
  state = [];
  prompt = [];
  login_hint = [];
  max_age = some 60;
  scopes = str "openid" ∷ [];
  response_type = str "code";
  response_mode = [];
  nonce = [];
  code_challenge = [];
  code_challenge_method = [];
}

abbrev token : Token
token = record {
  id = str "t";
  application_id = str "app";
  subject = str "1";
  refresh_token_id = [];
  audience = str "app" ∷ [];
  expiration = 50 * second;
  scopes = str "email" ∷ [];
}

abbrev provider : Provider
provider = record {
  directory = record { users = account (str "1") (str "ann@x") ∷ []; invites = [] };
  consents = [];
  clients = [];
  tokens = record { refresh = []; access = token ∷ [] };
  requests = asked (str "r") (str "1") ∷ asked (str "q") [] ∷ [];
  codes = [];
}

abbrev ann : AdminUser
ann = record {
  id = str "1";
  email = str "ann@x";
  password_hash = str "password";
  name = str "N";
  email_verified = true;
}

code_once_example :
    ((auth_request_by_code (str "C") (login_run parsed [] (str "p") (str "C") 7 provider).1).0
      ≡ ok (auth_request_to_internal parsed [] (str "p") 7))
    × (¬ (
        (auth_request_by_code (str "C") (
          world
            (delete_auth_request
              (str "p")
              (login_run parsed [] (str "p") (str "C") 7 provider).1).1.store
            [])).0
        ≡ ok (asked (str "p") [])))
code_once_example = code_once parsed [] (str "p") (str "C") 7 provider [] (asked (str "p") []) refl

post_username-MaySignIn_example :
    ((((post_username plain (str "r") (str "ann@x") (str "wrong") 7 (world provider [])).0
          ≡ wrong_credentials)
        ⊎ ((post_username plain (str "r") (str "ann@x") (str "wrong") 7 (world provider [])).0
            ≡ under_review))
      × ((post_username plain (str "r") (str "ann@x") (str "wrong") 7 (world provider [])).1.store
          ≡ provider))
    ⊎ ((uid : Str) × MaySignIn plain (str "ann@x") (str "wrong") provider.directory uid)
post_username-MaySignIn_example =
    post_username-MaySignIn plain (str "r") (str "ann@x") (str "wrong") 7 provider []

consent_anonymous_example :
    ((consent (str "q") (str "approve") 7 (world provider [])).0 ≡ callback (str "q"))
    × (request_with (str "q") (consent (str "q") (str "approve") 7 (world provider [])).1.store
        ≡ some (record (asked (str "q") []) {
          is_done = true;
          auth_time = 7;
          auth_method = str "pwd";
        }))
unfolding str_eq
consent_anonymous_example = consent_anonymous (str "q") 7 provider (asked (str "q") []) refl refl

may_sign_in : MaySignIn plain (str "ann@x") (str "password") provider.directory (str "1")
unfolding str_eq
may_sign_in = (ann, refl, refl, refl, refl)

consent_remembered_example :
    (post_username plain
      (str "q")
      (str "ann@x")
      (str "password")
      9
      (world (consent (str "r") (str "approve") 7 (world provider [])).1.store [])).0
    ≡ callback (str "q")
unfolding str_eq consent auth_request_by_id put_request finish_auth_request finish_auth_request_amr
    save_consent consent_scopes query exec call
consent_remembered_example =
    consent_remembered plain (str "r") (str "q") (str "ann@x") (str "password") 7 9 provider
      (asked (str "r") (str "1")) (asked (str "q") []) refl refl may_sign_in refl refl refl

abbrev known : Introspection
known = record {
  expiration = 50 * second;
  user = disclosed ann (str "email" ∷ []) no_info;
  scope = str "email" ∷ [];
  client_id = str "app";
}

introspection_sound_example :
    Introspects (str "t") (str "1") (str "app") (20 * second) provider known
unfolding set_introspection_from_token get_token set_userinfo user_by_id add_scopes mem_str query
    call str_eq
introspection_sound_example =
    introspection_sound (str "t") (str "1") (str "app") (20 * second) provider [] known refl

set_userinfo_discloses_example :
    (u : AdminUser) × (user_with (str "1") provider ≡ some u)
    × (disclosed ann (str "profile" ∷ []) no_info ≡ disclosed u (str "profile" ∷ []) no_info)
unfolding set_userinfo user_by_id add_scopes mem_str query call str_eq
set_userinfo_discloses_example =
    set_userinfo_discloses no_info (str "1") (str "profile" ∷ []) provider []
      (disclosed ann (str "profile" ∷ []) no_info) refl

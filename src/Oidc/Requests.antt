-- ===== src/Oidc/Requests.antt =====
-- models.go and storage.go: the authorization requests and codes that KV keeps as
-- oidc:authreq:{id} and oidc:code:{code}, and the state of the whole provider.
pub mod Laws
use griya_maya.Base.{
  ℕ, ◌*◌, Bool, true, false, not, ◌&&◌, ◌||◌, List, [], ◌∷◌, ◌++◌, keep, if◌then◌else◌, is_empty,
  Option, none, some,
}
use griya_maya.Text.{Str, str, str_eq, mem_str}
use griya_maya.Effect.{
  Exec, Result, ok, err, login_required, query, exec, pure, fail, zoom, ◌>>=◌, ◌>>◌,
}
use griya_maya.Repo.Reads.{first, or_not_found}
use griya_maya.Oidc.Store.{Tokens, second}
use griya_maya.Oidc.Users.{Directory}
use griya_maya.Oidc.Consent.{Consent}
use griya_maya.Oidc.Clients.{ClientRow}

-- OIDCCodeChallenge
pub record CodeChallenge : Type 0 where
  pub challenge : Str
  pub method : Str

-- AuthRequest; times are nanoseconds, and a time that is not set is 0
pub record AuthRequest : Type 0 where
  pub id : Str
  pub creation_date : ℕ
  pub application_id : Str
  pub callback_uri : Str
  pub transfer_state : Str
  pub prompt : List Str
  pub login_hint : Str
  pub max_auth_age : Option ℕ
  pub user_id : Str
  pub scopes : List Str
  pub response_type : Str
  pub response_mode : Str
  pub nonce : Str
  pub code_challenge : Option CodeChallenge
  pub is_done : Bool
  pub auth_time : ℕ
  pub auth_method : Str

-- oidc.AuthRequest, which the library parses, with its maximal age in seconds
pub record ParsedRequest : Type 0 where
  pub client_id : Str
  pub redirect_uri : Str
  pub state : Str
  pub prompt : List Str
  pub login_hint : Str
  pub max_age : Option ℕ
  pub scopes : List Str
  pub response_type : Str
  pub response_mode : Str
  pub nonce : Str
  pub code_challenge : Str
  pub code_challenge_method : Str

-- an entry oidc:code:{code}
pub record AuthCode : Type 0 where
  pub code : Str
  pub request_id : Str

-- what the provider keeps
pub record Provider : Type 0 where
  pub directory : Directory
  pub consents : List Consent
  pub clients : List ClientRow
  pub tokens : Tokens
  pub requests : List AuthRequest
  pub codes : List AuthCode

module _ {A : Type 0} where
  abbrev pub on_directory : Exec Directory A → Exec Provider A
  on_directory = zoom (λ s. s.directory) (λ d s. record s { directory = d })

  abbrev pub on_consents : Exec (List Consent) A → Exec Provider A
  on_consents = zoom (λ s. s.consents) (λ cs s. record s { consents = cs })

  abbrev pub on_clients : Exec (List ClientRow) A → Exec Provider A
  on_clients = zoom (λ s. s.clients) (λ cs s. record s { clients = cs })

  abbrev pub on_tokens : Exec Tokens A → Exec Provider A
  on_tokens = zoom (λ s. s.tokens) (λ t s. record s { tokens = t })

-- promptToInternal
abbrev pub prompt_to_internal : List Str → List Str
prompt_to_internal ps =
    keep (λ p. mem_str p (str "none" ∷ str "login" ∷ str "consent" ∷ str "select_account" ∷ [])) ps

abbrev pub challenge_of : ParsedRequest → Option CodeChallenge
challenge_of r =
    if is_empty r.code_challenge
    then none
    else some (record { challenge = r.code_challenge; method = r.code_challenge_method })

abbrev pub seconds_of : Option ℕ → Option ℕ
seconds_of none = none
seconds_of (some n) = some (n * second)

-- authRequestToInternal, and the identifier that CreateAuthRequest sets
abbrev pub auth_request_to_internal : ParsedRequest → Str → Str → ℕ → AuthRequest
auth_request_to_internal r user_id id now = record {
  id = id;
  creation_date = now;
  application_id = r.client_id;
  callback_uri = r.redirect_uri;
  transfer_state = r.state;
  prompt = prompt_to_internal r.prompt;
  login_hint = r.login_hint;
  max_auth_age = seconds_of r.max_age;
  user_id = user_id;
  scopes = r.scopes;
  response_type = r.response_type;
  response_mode = r.response_mode;
  nonce = r.nonce;
  code_challenge = challenge_of r;
  is_done = false;
  auth_time = 0;
  auth_method = [];
}

-- AuthRequest.GetAMR
unfoldable pub get_amr : AuthRequest → List Str
get_amr a =
    if not a.is_done
    then []
    else if is_empty a.auth_method
    then str "pwd" ∷ []
    else a.auth_method ∷ []

-- putJSON under the key of a request
unfoldable pub put_request : AuthRequest → Exec Provider (Unit {0})
unfolding exec
put_request a = exec λ s. record s { requests = a ∷ keep (λ r. not (str_eq r.id a.id)) s.requests }

abbrev pub request_with : Str → Provider → Option AuthRequest
request_with id s = first (keep (λ r. str_eq r.id id) s.requests)

-- Storage.AuthRequestByID, and getJSON of a request's key
unfoldable pub auth_request_by_id : Str → Exec Provider AuthRequest
unfolding query
auth_request_by_id id = do found ← query (request_with id); λ w. (or_not_found found, w)

abbrev pub only_none : List Str → Bool
only_none (p ∷ []) = str_eq p (str "none")
only_none _ = false

-- Storage.CreateAuthRequest, for the identifier and the time
unfoldable pub create_auth_request : ParsedRequest → Str → Str → ℕ → Exec Provider AuthRequest
unfolding put_request
create_auth_request r user_id id now = if only_none r.prompt then fail login_required else do
  put_request (auth_request_to_internal r user_id id now)
  pure (auth_request_to_internal r user_id id now)

abbrev pub code_with : Str → Provider → Option AuthCode
code_with code s = first (keep (λ c. str_eq c.code code) s.codes)

-- Storage.AuthRequestByCode
unfoldable pub auth_request_by_code : Str → Exec Provider AuthRequest
unfolding query auth_request_by_id
auth_request_by_code code = do
  found ← query (code_with code)
  c ← λ w. (or_not_found found, w)
  auth_request_by_id c.request_id

-- Storage.SaveAuthCode
unfoldable pub save_auth_code : Str → Str → Exec Provider (Unit {0})
unfolding exec
save_auth_code id code = exec λ s. record s {
  codes = record { code = code; request_id = id } ∷ keep (λ c. not (str_eq c.code code)) s.codes;
}

-- Storage.DeleteAuthRequest
unfoldable pub delete_auth_request : Str → Exec Provider (Unit {0})
unfolding exec
delete_auth_request id =
    exec λ s. record s { requests = keep (λ r. not (str_eq r.id id)) s.requests }

-- Storage.setAuthRequestUser
unfoldable pub set_auth_request_user : Str → Str → Exec Provider (Unit {0})
unfolding auth_request_by_id put_request
set_auth_request_user id user_id = do
  a ← auth_request_by_id id
  put_request (record a { user_id = user_id })

-- Storage.finishAuthRequestAMR
unfoldable pub finish_auth_request_amr : Str → Str → ℕ → Exec Provider (Unit {0})
unfolding auth_request_by_id put_request
finish_auth_request_amr id amr now = do
  a ← auth_request_by_id id
  put_request (record a { is_done = true; auth_time = now; auth_method = amr })

-- Storage.finishAuthRequest
unfoldable pub finish_auth_request : Str → ℕ → Exec Provider (Unit {0})
unfolding finish_auth_request_amr
finish_auth_request id now = finish_auth_request_amr id (str "pwd") now

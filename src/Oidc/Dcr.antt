-- ===== src/Oidc/Dcr.antt =====
-- dcr.go: dynamic client registration (RFC 7591) and its management (RFC 7592).
pub mod Laws
pub mod Documents
pub mod Changes
use griya_maya.Base.{
  ℕ, Bool, true, false, not, ◌&&◌, ◌||◌, List, [], ◌∷◌, ◌++◌, map, keep, any, if◌then◌else◌,
  is_empty, Option, none, some, ◌==◌,
}
use griya_maya.Base.Int.{ℤ, pos, negsuc}
use griya_maya.Text.{Str, str, str_eq, fields, join}
use griya_maya.Effect.{Exec, Result, ok, err, World, query, exec, exec_checked}
use griya_maya.Oidc.Store.{unix}
use griya_maya.Oidc.Gate.{bearer_token}
use griya_maya.Oidc.Reply.{
  Reply, respond_data, respond_err, no_content, Handler, respond, require, on, with_some,
}
use griya_maya.Oidc.Users.{Passwords}
use griya_maya.Oidc.Clients.{
  ClientRow, ApplicationType, web, user_agent, native, jwt, client_with, add_client, str_or,
  auth_method_none, auth_method_basic, grant_type_code, response_type_code,
}

-- clientMetadata; a field that the body leaves out is empty
pub record ClientMetadata : Type 0 where
  pub redirect_uris : List Str
  pub grant_types : List Str
  pub response_types : List Str
  pub token_endpoint_auth_method : Str
  pub application_type : Str
  pub client_name : Str
  pub scope : Str
  pub post_logout_redirect_uris : List Str

-- registrationResponse
pub record RegistrationResponse : Type 0 where
  pub client_id : Str
  pub client_secret : Str
  pub client_id_issued_at : ℤ
  pub client_secret_expires_at : ℤ
  pub registration_access_token : Str
  pub registration_client_uri : Str
  pub redirect_uris : List Str
  pub grant_types : List Str
  pub response_types : List Str
  pub token_endpoint_auth_method : Str
  pub application_type : Str
  pub client_name : Str
  pub scope : Str

-- splitScope
abbrev pub split_scope : Str → List Str
split_scope scope = fields scope

-- applicationTypeInt
unfoldable pub application_type_int : Str → ApplicationType
application_type_int t =
    if str_eq t (str "native")
    then native
    else if str_eq t (str "user_agent") || str_eq t (str "useragent")
    then user_agent
    else web

abbrev pub or_default : List Str → List Str → List Str
or_default xs d = if is_empty xs then d else xs

-- timeVal(v).Unix(): a column of 0 is the zero time, 62135596800 seconds before the epoch
abbrev pub issued_at : ℕ → ℤ
issued_at n = if n == 0 then negsuc 62135596799 else pos n

abbrev pub client_uri : Str → Str → Str
client_uri issuer id = issuer ++ str "/connect/register/" ++ id

-- What a registration draws: the identifier and the two tokens of randToken, the salt, the time.
pub record DcrDraw : Type 0 where
  pub client_id : Str
  pub reg_token : Str
  pub secret : Str
  pub salt : Option Str
  pub now : ℕ

abbrev pub unknown_client : {B : Type 0} → Reply B
unknown_client = respond_err 404 (str "invalid_client_id")

abbrev pub wrong_token : {B : Type 0} → Reply B
wrong_token = respond_err 401 (str "invalid_token")

abbrev pub bad_metadata : {B : Type 0} → Reply B
bad_metadata = respond_err 400 (str "invalid_client_metadata")

abbrev pub server_error : {B : Type 0} → Reply B
server_error = respond_err 500 (str "server_error")

-- the SET of Update
abbrev pub updated_row : ClientMetadata → ClientRow → ClientRow → ClientRow
updated_row meta row r = record r {
  application_type = application_type_int meta.application_type;
  auth_method = str_or meta.token_endpoint_auth_method row.auth_method;
  redirect_uris = meta.redirect_uris;
  post_logout_redirect_uris = meta.post_logout_redirect_uris;
  grant_types = or_default meta.grant_types row.grant_types;
  response_types = or_default meta.response_types row.response_types;
  scopes = or_default (split_scope meta.scope) row.scopes;
  client_name = meta.client_name;
}

abbrev pub set_client : ClientMetadata → ClientRow → List ClientRow → List ClientRow
set_client meta row s = map (λ r. if str_eq r.id row.id then updated_row meta row r else r) s

module _ (issuer : Str) where
  -- rowToResponse
  abbrev pub row_to_response : ClientRow → RegistrationResponse
  row_to_response row = record {
    client_id = row.id;
    client_secret = [];
    client_id_issued_at = issued_at row.created_at;
    client_secret_expires_at = pos 0;
    registration_access_token = row.registration_access_token;
    registration_client_uri = client_uri issuer row.id;
    redirect_uris = row.redirect_uris;
    grant_types = row.grant_types;
    response_types = row.response_types;
    token_endpoint_auth_method = row.auth_method;
    application_type = [];
    client_name = row.client_name;
    scope = join (str " ") row.scopes;
  }

  -- rowToResponse of a row that is nil, where every column reads as empty
  abbrev pub nil_response : RegistrationResponse
  nil_response = record {
    client_id = [];
    client_secret = [];
    client_id_issued_at = issued_at 0;
    client_secret_expires_at = pos 0;
    registration_access_token = [];
    registration_client_uri = client_uri issuer [];
    redirect_uris = [];
    grant_types = [];
    response_types = [];
    token_endpoint_auth_method = [];
    application_type = [];
    client_name = [];
    scope = [];
  }

  -- the row that clientRow answers, its error dropped
  abbrev pub response_of : Result (Option ClientRow) → RegistrationResponse
  response_of (err e) = nil_response
  response_of (ok none) = nil_response
  response_of (ok (some row)) = row_to_response row

  -- DCRHandler.clientRow
  unfoldable pub client_row : Str → Exec (List ClientRow) (Option ClientRow)
  unfolding query
  client_row id = query (client_with id)

  abbrev pub is_token : Str → ClientRow → Bool
  is_token header row =
      if is_empty (bearer_token header)
      then false
      else str_eq (bearer_token header) row.registration_access_token

  -- DCRHandler.authorize, for the header Authorization
  abbrev pub authorize :
      {B : Type 0}
      → Str
      → Str
      → (ClientRow → Handler (List ClientRow) B)
      → Handler (List ClientRow) B
  authorize id header rest = on (client_row id) unknown_client λ found.
      with_some found unknown_client λ row. require (is_token header row) wrong_token (rest row)

  -- DCRHandler.Read
  unfoldable pub read : Str → Str → Handler (List ClientRow) RegistrationResponse
  read id header = authorize id header λ row. respond (respond_data 200 (row_to_response row))

  -- DCRHandler.Delete
  unfoldable pub delete : Str → Str → Handler (List ClientRow) (Unit {0})
  unfolding exec
  delete id header =
      authorize id header
        λ row. on (exec (keep (λ r. not (str_eq r.id row.id)))) server_error λ _. respond no_content

  abbrev pub answer_updated : Str → Handler (List ClientRow) RegistrationResponse
  answer_updated id w =
      let (updated, w') = client_row id w in (respond_data 200 (response_of updated), w')

  -- DCRHandler.Update
  unfoldable pub update :
      Str → Str → Option ClientMetadata → Handler (List ClientRow) RegistrationResponse
  unfolding exec
  update id header body = authorize id header λ row.
      with_some body bad_metadata
        λ meta. on (exec (set_client meta row)) server_error λ _. answer_updated row.id

  module _ (ps : Passwords) where
    abbrev pub auth_method_of : ClientMetadata → Str
    auth_method_of meta = str_or meta.token_endpoint_auth_method auth_method_basic

    abbrev pub is_public : ClientMetadata → Bool
    is_public meta = str_eq (auth_method_of meta) auth_method_none

    -- the hash that is stored; none where the source of random bytes fails
    abbrev pub secret_hash_of : ClientMetadata → DcrDraw → Option Str
    secret_hash_of meta d =
        if is_public meta
        then some []
        else elim d.salt [ none ↦ none | some salt ↦ some (ps.hash d.secret salt) ]

    abbrev pub new_client : ClientMetadata → Str → DcrDraw → ClientRow
    new_client meta hash d = record {
      id = str "dcr-" ++ d.client_id;
      secret_hash = hash;
      application_type = application_type_int meta.application_type;
      auth_method = auth_method_of meta;
      redirect_uris = meta.redirect_uris;
      post_logout_redirect_uris = meta.post_logout_redirect_uris;
      grant_types = or_default meta.grant_types (grant_type_code ∷ []);
      response_types = or_default meta.response_types (response_type_code ∷ []);
      scopes = split_scope meta.scope;
      access_token_type = jwt;
      dev_mode = false;
      client_name = meta.client_name;
      registration_access_token = d.reg_token;
      created_at = unix d.now;
    }

    abbrev pub registered : ClientMetadata → DcrDraw → RegistrationResponse
    registered meta d = record {
      client_id = str "dcr-" ++ d.client_id;
      client_secret = if is_public meta then [] else d.secret;
      client_id_issued_at = pos (unix d.now);
      client_secret_expires_at = pos 0;
      registration_access_token = d.reg_token;
      registration_client_uri = client_uri issuer (str "dcr-" ++ d.client_id);
      redirect_uris = meta.redirect_uris;
      grant_types = or_default meta.grant_types (grant_type_code ∷ []);
      response_types = or_default meta.response_types (response_type_code ∷ []);
      token_endpoint_auth_method = auth_method_of meta;
      application_type = meta.application_type;
      client_name = meta.client_name;
      scope = join (str " ") (split_scope meta.scope);
    }

    -- DCRHandler.Register
    unfoldable pub register :
        Option ClientMetadata → DcrDraw → Handler (List ClientRow) RegistrationResponse
    unfolding exec_checked
    register body d = with_some body bad_metadata λ meta.
        with_some (secret_hash_of meta d) server_error λ hash.
          on (exec_checked (add_client (new_client meta hash d))) server_error
            λ _. respond (respond_data 201 (registered meta d))

-- ===== src/Connections/Flow.antt =====
-- connection_service.go, crypto.go and repository/oauth/client.go: the operations on connections.
use griya_maya.Base.{
  ℕ, ◌+◌, ◌%◌, ◌^◌, not, List, [], ◌∷◌, ◌++◌, ◌==◌, if◌then◌else◌, is_empty, Option, none, some,
}
use griya_maya.Text.{Str, str, trim_space, blank}
use griya_maya.Effect.{
  Result, ok, err, invalid_input, upstream, Exec, query, guard, lift, pure, ◌>>=◌, ◌>>◌,
}
use griya_maya.Connections.Url.{ProviderEndpoints, valid, endpoints, authorize_url}
use griya_maya.Connections.Table.{
  Connection, ConnectionWriteRequest, connection_disconnected, connection_connected, TokenResponse,
  AuthState, Links, insert, get, write, save_tokens, with_tokens, put_state, get_state,
}

-- AES-256-GCM with the key of the server, over base64: the text for a nonce and a plaintext, and the
-- plaintext of a text, if it opens.
pub record Cipher : Type 0 where
  pub seal : Str → Str → Str
  pub unseal : Str → Option Str

-- The answer of a token endpoint to the fields of a form: its status, and the tokens of its body, if
-- it is such a document.
pub record TokenAnswer : Type 0 where
  pub status : ℕ
  pub body : Option TokenResponse

abbrev pub TokenEndpoint : Type 0
TokenEndpoint = Str → List (Str × Str) → TokenAnswer

-- What the operations draw: nonces and texts, where the source of random bytes answers, an
-- identifier and the time in seconds.
pub record Fresh : Type 0 where
  pub nonce : Option Str
  pub second_nonce : Option Str
  pub verifier : Option Str
  pub state : Option Str
  pub id : Str
  pub now : ℕ

abbrev pub drawn : Option Str → Result Str
drawn none = err upstream
drawn (some s) = ok s

abbrev pub decoded : Option TokenResponse → Result TokenResponse
decoded none = err upstream
decoded (some t) = ok t

abbrev pub tokens_of : TokenAnswer → Result TokenResponse
tokens_of a = if a.status == 200 then decoded a.body else err upstream

abbrev pub credentials : Str → Str → List (Str × Str)
credentials client_id secret = (str "client_id", client_id) ∷ (str "client_secret", secret) ∷ []

abbrev pub exchange_form : Str → Str → Str → List (Str × Str)
exchange_form code verifier redirect =
    (str "grant_type", str "authorization_code")
    ∷ (str "code", code)
    ∷ (str "code_verifier", verifier)
    ∷ (str "redirect_uri", redirect)
    ∷ []

abbrev pub renewal_form : Str → List (Str × Str)
renewal_form token = (str "grant_type", str "refresh_token") ∷ (str "refresh_token", token) ∷ []

module _ (remote : TokenEndpoint) where
  abbrev pub post_to : Option ProviderEndpoints → List (Str × Str) → Exec Links TokenResponse
  post_to none form = lift (err invalid_input)
  post_to (some e) form = do answer ← query (λ _. remote e.token_url form); lift (tokens_of answer)

  -- Client.post
  unfoldable pub post : Str → Str → Str → List (Str × Str) → Exec Links TokenResponse
  unfolding endpoints query
  post p client_id secret form = post_to (endpoints p) (form ++ credentials client_id secret)

  -- Client.Exchange
  unfoldable pub exchange : Str → Str → Str → Str → Str → Str → Exec Links TokenResponse
  unfolding post
  exchange p client_id secret code verifier redirect =
      post p client_id secret (exchange_form code verifier redirect)

  -- Client.Refresh
  unfoldable pub renew : Str → Str → Str → Str → Exec Links TokenResponse
  unfolding post
  renew p client_id secret refresh_token = post p client_id secret (renewal_form refresh_token)

abbrev pub auth_state : Connection → Str → Str → AuthState
auth_state c verifier redirect = record {
  connection_id = c.id;
  code_verifier = verifier;
  redirect_uri = redirect;
  provider = c.provider;
}

-- ConnectionService.Authorize
unfoldable pub authorize : Str → Str → Fresh → Exec Links Str
unfolding get put_state authorize_url
authorize id redirect d = do
  guard (not (blank redirect)) invalid_input
  c ← get id
  verifier ← lift (drawn d.verifier)
  state ← lift (drawn d.state)
  put_state state (auth_state c verifier redirect)
  lift (authorize_url c.provider c.client_id verifier state redirect)

module _ (k : Cipher) where
  -- encrypt
  unfoldable pub encrypt : Option Str → Str → Result Str
  encrypt none p = err upstream
  encrypt (some nonce) p = ok (k.seal nonce p)

  -- decrypt
  unfoldable pub decrypt : Str → Result Str
  decrypt t = if is_empty t then ok [] else drawn (k.unseal t)

  abbrev pub new_connection : ConnectionWriteRequest → Str → Fresh → Connection
  new_connection req secret d = record {
    id = d.id;
    provider = req.provider;
    label = trim_space req.label;
    client_id = trim_space req.client_id;
    client_secret = secret;
    access_token = [];
    refresh_token = [];
    token_type = [];
    expires_at = 0;
    status = connection_disconnected;
    created_at = d.now;
    updated_at = d.now;
  }

  -- ConnectionService.Create
  unfoldable pub create : ConnectionWriteRequest → Fresh → Exec Links Connection
  unfolding insert encrypt
  create req d = do
    guard (valid req.provider) invalid_input
    guard (not (blank req.client_id)) invalid_input
    guard (not (blank req.client_secret)) invalid_input
    secret ← lift (encrypt d.nonce req.client_secret)
    insert (new_connection req secret d)
    pure (new_connection req secret d)

  abbrev pub new_secret : ConnectionWriteRequest → Connection → Fresh → Result Str
  new_secret req c d =
      if blank req.client_secret
      then ok c.client_secret
      else encrypt d.nonce (trim_space req.client_secret)

  abbrev pub changed : ConnectionWriteRequest → Str → Fresh → Connection → Connection
  changed req secret d c = record c {
    label = trim_space req.label;
    client_id = if blank req.client_id then c.client_id else trim_space req.client_id;
    client_secret = secret;
    updated_at = d.now;
  }

  -- ConnectionService.Update
  unfoldable pub update : Str → ConnectionWriteRequest → Fresh → Exec Links Connection
  unfolding get write
  update id req d = do
    c ← get id
    secret ← lift (new_secret req c d)
    write (changed req secret d c)
    pure (changed req secret d c)

  -- ConnectionService.persistTokens
  unfoldable pub persist_tokens : Connection → TokenResponse → Fresh → Exec Links Connection
  unfolding save_tokens
  persist_tokens c tok d = do
    access ← lift (encrypt d.nonce tok.access_token)
    refresh ← lift (encrypt d.second_nonce tok.refresh_token)
    save_tokens c.id access refresh tok.token_type ((d.now + tok.expires_in) % 2 ^ 64)
        connection_connected d.now
    pure (
        with_tokens access refresh tok.token_type ((d.now + tok.expires_in) % 2 ^ 64)
          connection_connected d.now c)

  module _ (remote : TokenEndpoint) where
    -- ConnectionService.Callback
    unfoldable pub callback : Str → Str → Fresh → Exec Links Connection
    unfolding get_state get exchange persist_tokens decrypt
    callback code state d = do
      guard (not (blank code)) invalid_input
      guard (not (blank state)) invalid_input
      pending ← get_state state
      c ← get pending.connection_id
      secret ← lift (decrypt c.client_secret)
      tok ←
          exchange remote c.provider c.client_id secret code pending.code_verifier
            pending.redirect_uri
      persist_tokens c tok d

    -- ConnectionService.Refresh
    unfoldable pub refresh : Str → Fresh → Exec Links Connection
    unfolding get renew persist_tokens decrypt
    refresh id d = do
      c ← get id
      secret ← lift (decrypt c.client_secret)
      token ← lift (decrypt c.refresh_token)
      guard (not (is_empty token)) invalid_input
      tok ← renew remote c.provider c.client_id secret token
      persist_tokens c tok d

-- ===== src/Connections/Renewal.antt =====
-- Renewals whose answer has no new refresh token, when no call fails.
use griya_maya.Base.{◌≡◌, refl, sym, ap, subst, false, [], ◌++◌, is_empty, some}
use griya_maya.Text.{Str}
use griya_maya.Effect.{World, Result, ok, err, invalid_input, query, exec, call}
use griya_maya.Effect.Laws.{world}
use griya_maya.Connections.Url.{ProviderEndpoints, endpoints}
use griya_maya.Connections.Table.{
  Connection, TokenResponse, Links, connection_with, set_where, get, save_tokens,
}
use griya_maya.Connections.Flow.{
  Cipher, TokenEndpoint, Fresh, credentials, renewal_form, post, renew, encrypt, decrypt,
  persist_tokens, refresh,
}
use griya_maya.Connections.Round.{Opens, connected, found-set}

-- the secret of a row and its refresh token open
module _ (k : Cipher) (opens : Opens k) where
  pub sealed_opens : (t nonce plain : Str) → t ≡ k.seal nonce plain → decrypt k t ≡ ok plain
  unfolding decrypt
  sealed_opens t nonce plain e = rw (e, opens.1 nonce plain, opens.0 nonce plain) refl

  module _ (remote : TokenEndpoint) (s : Links) (c : Connection)
      (here : connection_with c.id s ≡ some c) (e : ProviderEndpoints)
      (known : endpoints c.provider ≡ some e) (nonce secret : Str)
      (sealed : c.client_secret ≡ k.seal nonce secret) (m token : Str)
      (held : c.refresh_token ≡ k.seal m token) (renewable : is_empty token ≡ false)
      (tok : TokenResponse)
      (answers : remote e.token_url (renewal_form token ++ credentials c.client_id secret)
        ≡ record { status = 200; body = some tok })
      (d : Fresh) (n1 n2 : Str) (first_nonce : d.nonce ≡ some n1)
      (second_nonce : d.second_nonce ≡ some n2) where
    abbrev renewed : Result Connection × World Links
    renewed = refresh k remote c.id d (world s [])

    abbrev after : Connection
    after = connected tok (k.seal n1 tok.access_token) (k.seal n2 tok.refresh_token) d.now c

    abbrev left : Links
    left =
        set_where c.id
          (connected tok (k.seal n1 tok.access_token) (k.seal n2 tok.refresh_token) d.now) s

    pub renewed_by : renewed ≡ (ok after, world left [])
    unfolding refresh get query exec call renew post persist_tokens save_tokens encrypt
    renewed_by =
        rw
          (
            here,
            sealed_opens c.client_secret nonce secret sealed,
            sealed_opens c.refresh_token m token held,
            renewable,
            known,
            answers,
            first_nonce,
            second_nonce,
          )
          refl

    refused :
        (remote' : TokenEndpoint) (d' : Fresh)
        → tok.refresh_token ≡ []
        → (refresh k remote' c.id d' (world left [])).0 ≡ err invalid_input
    unfolding refresh get query call
    refused remote' d' empty =
        rw
          (
            found-set c.id
                (connected tok (k.seal n1 tok.access_token) (k.seal n2 tok.refresh_token) d.now)
                s.connections c (λ _. refl) here,
            sealed_opens c.client_secret nonce secret sealed,
            sealed_opens (k.seal n2 tok.refresh_token) n2 tok.refresh_token refl,
            empty,
          )
          refl

    -- For a stored connection of a known provider whose secret and refresh token are sealed, with a
    -- cipher that opens what it sealed and no failing call: when a renewal is answered with tokens of
    -- which the refresh token is empty, as where the provider leaves it out, it succeeds and leaves
    -- the connection connected, and the next renewal, whatever the token endpoint would answer, is
    -- refused as invalid; the refresh token that the connection had is gone.
    pub refresh_lost :
        (remote' : TokenEndpoint) (d' : Fresh)
        → tok.refresh_token ≡ []
        → (renewed.0 ≡ ok after)
          × (connection_with c.id renewed.1.store ≡ some after)
          × ((refresh k remote' c.id d' renewed.1).0 ≡ err invalid_input)
    refresh_lost remote' d' empty = (
      ap (λ r. r.0) renewed_by,
      rw (ap (λ r. r.1.store) renewed_by) (
          found-set c.id
            (connected tok (k.seal n1 tok.access_token) (k.seal n2 tok.refresh_token) d.now)
            s.connections c (λ _. refl) here),
      subst (λ r. (refresh k remote' c.id d' r.1).0 ≡ err invalid_input) (sym renewed_by)
          (refused remote' d' empty),
    )

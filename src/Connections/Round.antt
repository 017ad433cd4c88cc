-- ===== src/Connections/Round.antt =====
-- The way from the redirect to the tokens, when no call fails.
use griya_maya.Base.{
  ℕ, ◌+◌, ◌%◌, ◌^◌, ◌≡◌, refl, sym, ap, subst, true, false, not, List, [], ◌∷◌, ◌++◌, map, keep,
  if◌then◌else◌, is_empty, none, some, inl, inr, Bool-cases,
}
use griya_maya.Text.{Str, str_eq, blank}
use griya_maya.Text.Laws.{str_eq_iff, str_eq_refl}
use griya_maya.Effect.{World, Result, ok, err, not_found, query, exec, call}
use griya_maya.Effect.Laws.{world}
use griya_maya.Repo.Reads.{first}
use griya_maya.Connections.Url.{ProviderEndpoints, endpoints, authorize_url}
use griya_maya.Connections.Table.{
  Connection, connection_connected, TokenResponse, Links, Pending, connection_with, pending_with,
  with_state, without_state, set_where, with_tokens, get, save_tokens, put_state, get_state,
}
use griya_maya.Connections.Flow.{
  Cipher, TokenEndpoint, Fresh, auth_state, credentials, exchange_form, post, exchange, encrypt,
  decrypt, authorize, persist_tokens, callback,
}

-- what AES-GCM under one key promises
abbrev pub Opens : Cipher → Type 0
Opens k =
    ((nonce plain : Str) → k.unseal (k.seal nonce plain) ≡ some plain)
    × ((nonce plain : Str) → is_empty (k.seal nonce plain) ≡ false)

pub found-id :
    (id : Str) (cs : List Connection) (c : Connection)
    → first (keep (λ c. str_eq c.id id) cs) ≡ some c
    → c.id ≡ id
found-id id [] c = λ e. absurd cc
found-id id (b ∷ cs) c = elim (Bool-cases (str_eq b.id id)) [
  | inl y ↦
      rw y (λ e. let same : b ≡ c = cc in subst (λ x. x.id ≡ id) same ((str_eq_iff b.id id).0 y))
  | inr n ↦ rw n (found-id id cs c)
]

pub found-set :
    (id : Str) (change : Connection → Connection) (cs : List Connection) (c : Connection)
    → ((r : Connection) → (change r).id ≡ r.id)
    → first (keep (λ c. str_eq c.id id) cs) ≡ some c
    → first (keep (λ c. str_eq c.id id) (map (λ r. if str_eq r.id id then change r else r) cs))
      ≡ some (change c)
found-set id change [] c keeps = λ e. absurd cc
found-set id change (b ∷ cs) c keeps = elim (Bool-cases (str_eq b.id id)) [
  | inl y ↦
      let stays : str_eq (change b).id id ≡ true = rw (keeps b) y in
      rw y (λ e. rw stays (let same : b ≡ c = cc in ap (λ x. some (change x)) same))
  | inr n ↦ rw (n, n) (found-set id change cs c keeps)
]

pending_gone :
    (state : Str) (ps : List Pending)
    → first (keep (λ p. str_eq p.state state) (keep (λ p. not (str_eq p.state state)) ps)) ≡ none
pending_gone state [] = refl
pending_gone state (p ∷ ps) = elim (Bool-cases (str_eq p.state state)) [
  | inl e ↦ rw e (pending_gone state ps)
  | inr e ↦ rw (e, e) (pending_gone state ps)
]

-- the row that persist_tokens leaves
abbrev pub connected : TokenResponse → Str → Str → ℕ → Connection → Connection
connected tok access token now =
    with_tokens access token tok.token_type ((now + tok.expires_in) % 2 ^ 64) connection_connected
      now

-- A pending authorization of `c`, whose secret is sealed, meets a token endpoint that knows the code.
module _ (k : Cipher) (remote : TokenEndpoint) (opens : Opens k) (s : Links) (c : Connection)
    (here : connection_with c.id s ≡ some c) (e : ProviderEndpoints)
    (known : endpoints c.provider ≡ some e) (nonce secret : Str)
    (sealed : c.client_secret ≡ k.seal nonce secret) where
  opened : decrypt k c.client_secret ≡ ok secret
  unfolding decrypt
  opened = rw (sealed, opens.1 nonce secret, opens.0 nonce secret) refl

  module _ (redirect verifier state : Str) (d : Fresh) (to : blank redirect ≡ false)
      (draws_verifier : d.verifier ≡ some verifier) (draws_state : d.state ≡ some state) where
    abbrev redirected : Result Str × World Links
    redirected = authorize c.id redirect d (world s [])

    redirected_by : redirected ≡ (
      authorize_url c.provider c.client_id verifier state redirect,
      world (with_state state (auth_state c verifier redirect) s) [],
    )
    unfolding authorize get put_state query exec call
    redirected_by = rw (to, here, draws_verifier, draws_state) refl

    module _ (code : Str) (filled : blank code ≡ false) (named : blank state ≡ false)
        (tok : TokenResponse)
        (answers : remote e.token_url
            (exchange_form code verifier redirect ++ credentials c.client_id secret)
          ≡ record { status = 200; body = some tok })
        (d' : Fresh) (n1 n2 : Str) (first_nonce : d'.nonce ≡ some n1)
        (second_nonce : d'.second_nonce ≡ some n2) where
      abbrev after : Connection
      after = connected tok (k.seal n1 tok.access_token) (k.seal n2 tok.refresh_token) d'.now c

      abbrev returned : Result Connection × World Links
      returned = callback k remote code state d' redirected.1

      abbrev left : Links
      left =
          set_where c.id
            (connected tok (k.seal n1 tok.access_token) (k.seal n2 tok.refresh_token) d'.now)
            (without_state state (with_state state (auth_state c verifier redirect) s))

      returned_by : returned ≡ (ok after, world left [])
      unfolding callback get_state get query exec call exchange post persist_tokens save_tokens
          encrypt
      returned_by =
          rw
            (
              redirected_by,
              filled,
              named,
              str_eq_refl state,
              here,
              opened,
              known,
              answers,
              first_nonce,
              second_nonce,
              str_eq_refl state,
            )
            refl

      row_after : connection_with c.id left ≡ some after
      row_after =
          found-set c.id
            (connected tok (k.seal n1 tok.access_token) (k.seal n2 tok.refresh_token) d'.now)
            s.connections c (λ _. refl) here

      state_after : pending_with state left ≡ none
      state_after = pending_gone state (
          record { state = state; value = auth_state c verifier redirect }
          ∷ keep (λ p. not (str_eq p.state state)) s.pending)

      opened_tokens :
          (decrypt k after.access_token ≡ ok tok.access_token)
          × (decrypt k after.refresh_token ≡ ok tok.refresh_token)
      unfolding decrypt
      opened_tokens = (
        rw (opens.1 n1 tok.access_token, opens.0 n1 tok.access_token) refl,
        rw (opens.1 n2 tok.refresh_token, opens.0 n2 tok.refresh_token) refl,
      )

      replayed :
          (code' : Str) (d'' : Fresh)
          → blank code' ≡ false
          → (callback k remote code' state d'' (world left [])).0 ≡ err not_found
      unfolding callback get_state query call
      replayed code' d'' filled' = rw (filled', named, state_after) refl

      -- For a stored connection of a known provider whose secret is sealed, with a cipher that opens
      -- what it sealed, no failing call and no blank text among the redirect, the state and the codes:
      -- Authorize answers the address of the provider with the drawn verifier and state, and a
      -- Callback with the state and a code succeeds where the token endpoint answers tokens to a form
      -- of just that code, that verifier, that redirect and the client's identifier and secret. The
      -- row then is connected and its two tokens open to those of the answer, and a second Callback
      -- with the state, whatever its code, finds nothing.
      pub authorize-callback :
          (code' : Str) (d'' : Fresh)
          → blank code' ≡ false
          → (redirected.0 ≡ authorize_url c.provider c.client_id verifier state redirect)
            × (returned.0 ≡ ok after)
            × (connection_with c.id returned.1.store ≡ some after)
            × (decrypt k after.access_token ≡ ok tok.access_token)
            × (decrypt k after.refresh_token ≡ ok tok.refresh_token)
            × ((callback k remote code' state d'' returned.1).0 ≡ err not_found)
      authorize-callback code' d'' filled' = (
        ap (λ r. r.0) redirected_by,
        ap (λ r. r.0) returned_by,
        rw (ap (λ r. r.1.store) returned_by) row_after,
        opened_tokens.0,
        opened_tokens.1,
        subst (λ r. (callback k remote code' state d'' r.1).0 ≡ err not_found) (sym returned_by)
            (replayed code' d'' filled'),
      )

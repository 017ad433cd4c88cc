-- ===== src/Connections/Sealed/Operations.antt =====
-- The operations on connections keep the table sealed, whichever of their calls fail.
use griya_maya.Base.{
  is_empty, ◌+◌, ◌%◌, ◌^◌, refl, not, List, ◌++◌, Option, none, some, inl, inr, Bool-cases,
}
use griya_maya.Text.{Str, trim_space, blank}
use griya_maya.Effect.{invalid_input, World, query, guard, lift}
use griya_maya.Effect.Laws.{Post-query}
use griya_maya.Connections.Url.{ProviderEndpoints, valid, endpoints, authorize_url}
use griya_maya.Connections.Table.{
  Connection, connection_connected, ConnectionWriteRequest, TokenResponse, Links, insert, get,
  write, save_tokens, put_state, get_state,
}
use griya_maya.Connections.Flow.{
  Cipher, TokenEndpoint, Fresh, drawn, tokens_of, auth_state, credentials, exchange_form,
  renewal_form, post_to, post, exchange, renew, decrypt, encrypt, new_connection, new_secret,
  changed, create, update, authorize, persist_tokens, callback, refresh,
}
use griya_maya.Connections.Sealed.{
  Done, IsSealed, IsKept, Kept, Leaves, continue-Leaves, lift-Leaves, guard-Leaves, get-Leaves,
  insert-Leaves, write-Leaves, save_tokens-Leaves, put_state-Leaves, get_state-Leaves,
}

module _ (k : Cipher) where
  -- what an encryption answers is sealed
  encrypt-IsSealed :
      (nonce : Option Str) (plain : Str) (w : World Links)
      → Kept k w.store
      → Leaves k (IsSealed k) (lift (encrypt k nonce plain) w)
  unfolding encrypt
  encrypt-IsSealed none plain w h = h
  encrypt-IsSealed (some n) plain w h = ((n, plain, refl), h)

  pub create-Leaves :
      (req : ConnectionWriteRequest) (d : Fresh) (w : World Links)
      → Kept k w.store
      → Leaves k (IsKept k) (create k req d w)
  unfolding create
  create-Leaves req d w h =
      continue-Leaves k Done (IsKept k) (guard (valid req.provider) invalid_input w) _
        (guard-Leaves k _ _ w h)
        λ _ w _ h.
          continue-Leaves k Done (IsKept k) (guard (not (blank req.client_id)) invalid_input w) _
            (guard-Leaves k _ _ w h)
            λ _ w _ h.
              continue-Leaves k Done (IsKept k)
                (guard (not (blank req.client_secret)) invalid_input w) _ (guard-Leaves k _ _ w h)
                λ _ w _ h.
                  continue-Leaves k (IsSealed k) (IsKept k)
                    (lift (encrypt k d.nonce req.client_secret) w) _
                    (encrypt-IsSealed d.nonce req.client_secret w h)
                    λ secret w sealed h.
                      continue-Leaves k Done (IsKept k) (insert (new_connection k req secret d) w) _
                        (insert-Leaves k (new_connection k req secret d) w h (sealed, (refl, refl)))
                        λ _ w _ h. ((sealed, (refl, refl)), h)

  new_secret-IsSealed :
      (req : ConnectionWriteRequest) (c : Connection) (d : Fresh) (w : World Links)
      → Kept k w.store
      → (IsSealed k) c.client_secret
      → Leaves k (IsSealed k) (lift (new_secret k req c d) w)
  new_secret-IsSealed req c d w h sealed = elim (Bool-cases (blank req.client_secret)) [
    | inl e ↦ rw e (sealed, h)
    | inr e ↦ rw e (encrypt-IsSealed d.nonce (trim_space req.client_secret) w h)
  ]

  pub update-Leaves :
      (id : Str) (req : ConnectionWriteRequest) (d : Fresh) (w : World Links)
      → Kept k w.store
      → Leaves k (IsKept k) (update k id req d w)
  unfolding update
  update-Leaves id req d w h =
      continue-Leaves k (IsKept k) (IsKept k) (get id w) _ (get-Leaves k id w h) λ c w kept h.
        continue-Leaves k (IsSealed k) (IsKept k) (lift (new_secret k req c d) w) _
          (new_secret-IsSealed req c d w h kept.0)
          λ secret w sealed h.
            continue-Leaves k Done (IsKept k) (write (changed k req secret d c) w) _
              (write-Leaves k (changed k req secret d c) w h sealed)
              λ _ w _ h. ((sealed, kept.1), h)

  persist_tokens-Leaves :
      (c : Connection) (tok : TokenResponse) (d : Fresh) (w : World Links)
      → Kept k w.store
      → (IsKept k) c
      → Leaves k (IsKept k) (persist_tokens k c tok d w)
  unfolding persist_tokens
  persist_tokens-Leaves c tok d w h kept =
      continue-Leaves k (IsSealed k) (IsKept k) (lift (encrypt k d.nonce tok.access_token) w) _
        (encrypt-IsSealed d.nonce tok.access_token w h)
        λ access w a h.
          continue-Leaves k (IsSealed k) (IsKept k)
            (lift (encrypt k d.second_nonce tok.refresh_token) w) _
            (encrypt-IsSealed d.second_nonce tok.refresh_token w h)
            λ token w t h.
              let expires_at = (d.now + tok.expires_in) % 2 ^ 64 in
              continue-Leaves k Done (IsKept k)
                (save_tokens c.id access token tok.token_type expires_at connection_connected d.now
                  w)
                _ (save_tokens-Leaves k c.id access token tok.token_type expires_at d.now w h a t)
                λ _ w _ h. ((kept.0, (a, t)), h)

  pub authorize-Leaves :
      (id redirect : Str) (d : Fresh) (w : World Links)
      → Kept k w.store
      → Leaves k Done (authorize id redirect d w)
  unfolding authorize
  authorize-Leaves id redirect d w h =
      continue-Leaves k Done Done (guard (not (blank redirect)) invalid_input w) _
        (guard-Leaves k _ _ w h)
        λ _ w _ h. continue-Leaves k (IsKept k) Done (get id w) _ (get-Leaves k id w h) λ c w _ h.
          continue-Leaves k Done Done (lift (drawn d.verifier) w) _
            (lift-Leaves k Done (drawn d.verifier) w h (λ _ _. tt))
            λ verifier w _ h.
              continue-Leaves k Done Done (lift (drawn d.state) w) _
                (lift-Leaves k Done (drawn d.state) w h (λ _ _. tt))
                λ state w _ h.
                  continue-Leaves k Done Done (put_state state (auth_state c verifier redirect) w) _
                    (put_state-Leaves k state (auth_state c verifier redirect) w h)
                    λ _ w _ h.
                      lift-Leaves k Done
                        (authorize_url c.provider c.client_id verifier state redirect) w h
                        (λ _ _. tt)

  module _ (remote : TokenEndpoint) where
    post-Leaves :
        (p client_id secret : Str) (form : List (Str × Str)) (w : World Links)
        → Kept k w.store
        → Leaves k Done (post remote p client_id secret form w)
    unfolding post
    post-Leaves p client_id secret form w h = by_endpoints (endpoints p)
      where
        by_endpoints :
            (e : Option ProviderEndpoints)
            → Leaves k Done (post_to remote e (form ++ credentials client_id secret) w)
        by_endpoints none = h
        by_endpoints (some e) =
            let ask = λ (_ : Links). remote e.token_url (form ++ credentials client_id secret) in
            continue-Leaves k Done Done (query ask w) _
              (Post-query (λ _ v. Unit × Kept k v.store) (λ _ v. Kept k v.store) ask w
                (λ os. (tt, h)) (λ os. h))
              λ a w _ h. lift-Leaves k Done (tokens_of a) w h (λ _ _. tt)

    pub callback-Leaves :
        (code state : Str) (d : Fresh) (w : World Links)
        → Kept k w.store
        → Leaves k (IsKept k) (callback k remote code state d w)
    unfolding callback exchange
    callback-Leaves code state d w h =
        continue-Leaves k Done (IsKept k) (guard (not (blank code)) invalid_input w) _
          (guard-Leaves k _ _ w h)
          λ _ w _ h.
            continue-Leaves k Done (IsKept k) (guard (not (blank state)) invalid_input w) _
              (guard-Leaves k _ _ w h)
              λ _ w _ h.
                continue-Leaves k Done (IsKept k) (get_state state w) _
                  (get_state-Leaves k state w h)
                  λ p w _ h.
                    continue-Leaves k (IsKept k) (IsKept k) (get p.connection_id w) _
                      (get-Leaves k p.connection_id w h)
                      λ c w kept h.
                        continue-Leaves k Done (IsKept k) (lift (decrypt k c.client_secret) w) _
                          (lift-Leaves k Done (decrypt k c.client_secret) w h (λ _ _. tt))
                          λ secret w _ h.
                            let form = exchange_form code p.code_verifier p.redirect_uri in
                            continue-Leaves k Done (IsKept k)
                              (post remote c.provider c.client_id secret form w) _
                              (post-Leaves c.provider c.client_id secret form w h)
                              λ tok w _ h. persist_tokens-Leaves c tok d w h kept

    pub refresh-Leaves :
        (id : Str) (d : Fresh) (w : World Links)
        → Kept k w.store
        → Leaves k (IsKept k) (refresh k remote id d w)
    unfolding refresh renew
    refresh-Leaves id d w h =
        continue-Leaves k (IsKept k) (IsKept k) (get id w) _ (get-Leaves k id w h) λ c w kept h.
          continue-Leaves k Done (IsKept k) (lift (decrypt k c.client_secret) w) _
            (lift-Leaves k Done (decrypt k c.client_secret) w h (λ _ _. tt))
            λ secret w _ h.
              continue-Leaves k Done (IsKept k) (lift (decrypt k c.refresh_token) w) _
                (lift-Leaves k Done (decrypt k c.refresh_token) w h (λ _ _. tt))
                λ token w _ h.
                  continue-Leaves k Done (IsKept k) (guard (not (is_empty token)) invalid_input w) _
                    (guard-Leaves k _ _ w h)
                    λ _ w _ h.
                      let form = renewal_form token in
                      continue-Leaves k Done (IsKept k)
                        (post remote c.provider c.client_id secret form w) _
                        (post-Leaves c.provider c.client_id secret form w h)
                        λ tok w _ h. persist_tokens-Leaves c tok d w h kept

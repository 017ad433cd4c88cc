-- ===== src/Connections/Sealed.antt =====
-- What the table of connections holds, and what the statements on it keep.
pub mod Operations
pub mod Reach
use griya_maya.Base.{
  ℕ, is_empty, ◌+◌, ◌%◌, ◌^◌, ◌≡◌, refl, subst, Bool, true, false, not, any, List, [], ◌∷◌, ◌++◌,
  map, keep, if◌then◌else◌, Option, none, some, inl, inr, Bool-cases, All,
}
use griya_maya.Text.{Str, str_eq, trim_space, blank}
use griya_maya.Effect.{
  Error, invalid_input, Result, ok, err, Outcome, World, Exec, query, exec, guard, lift, continue,
}
use griya_maya.Effect.Laws.{Post, Post-query, Post-exec, Post-exec_checked, Post-seq, world}
use griya_maya.Repo.Reads.{first, or_not_found}
use griya_maya.Connections.Url.{ProviderEndpoints, valid, endpoints, authorize_url}
use griya_maya.Connections.Table.{
  Connection, ConnectionStatus, connection_disconnected, connection_connected, connection_error,
  ConnectionWriteRequest, TokenResponse, AuthState, Links, Pending, connection_with, pending_with,
  without_connection, with_state, without_state, set_where, credentials_of, with_tokens,
  add_connection, insert, get, write, delete, save_tokens, put_state, get_state,
}
use griya_maya.Connections.Flow.{
  Cipher, TokenEndpoint, Fresh, drawn, tokens_of, auth_state, credentials, exchange_form,
  renewal_form, post_to, post, exchange, renew, decrypt, encrypt, new_connection, new_secret,
  changed, create, update, authorize, persist_tokens, callback, refresh,
}

abbrev pub Done : {A : Type 0} → A → Type 0
Done _ = Unit

module _ (k : Cipher) where
  abbrev pub IsSealed : Str → Type 0
  IsSealed t = (nonce : Str) × (plain : Str) × (t ≡ k.seal nonce plain)

  abbrev pub HasTokens : ConnectionStatus → Str → Str → Type 0
  HasTokens connection_disconnected access token = (access ≡ []) × (token ≡ [])
  HasTokens connection_connected access token = IsSealed access × IsSealed token
  HasTokens connection_error access token = ⊥

  abbrev pub IsKept : Connection → Type 0
  IsKept c = IsSealed c.client_secret × HasTokens c.status c.access_token c.refresh_token

  abbrev pub Kept : Links → Type 0
  Kept s = All IsKept s.connections

  -- an answer with `Q`, and a table that is kept either way
  abbrev pub Leaves : {A : Type 0} → (A → Type 0) → Result A × World Links → Type 0
  Leaves Q r = Post (λ a v. Q a × Kept v.store) (λ _ v. Kept v.store) r

  pub store-Leaves :
      {A : Type 0} (Q : A → Type 0) (r : Result A × World Links) → Leaves Q r → Kept r.1.store
  store-Leaves Q (ok a, v) h = h.1
  store-Leaves Q (err e, v) h = h

  pub continue-Leaves :
      {A B : Type 0} (Q : A → Type 0) (R : B → Type 0) (r : Result A × World Links)
      (f : A → Exec Links B)
      → Leaves Q r
      → ((a : A) (w : World Links) → Q a → Kept w.store → Leaves R (f a w))
      → Leaves R (continue r f)
  continue-Leaves Q R r f h rest =
      Post-seq (λ a v. Q a × Kept v.store) (λ a v. R a × Kept v.store) (λ _ v. Kept v.store) r f h
        λ a w (q, kept). rest a w q kept

  pub lift-Leaves :
      {A : Type 0} (Q : A → Type 0) (r : Result A) (w : World Links)
      → Kept w.store
      → ((a : A) → r ≡ ok a → Q a)
      → Leaves Q (lift r w)
  lift-Leaves Q (ok a) w h q = (q a refl, h)
  lift-Leaves Q (err e) w h q = h

  pub guard-Leaves :
      (b : Bool) (e : Error) (w : World Links) → Kept w.store → Leaves Done (guard b e w)
  guard-Leaves true e w h = (tt, h)
  guard-Leaves false e w h = h

  abbrev IfKept : Option Connection → Type 0
  IfKept none = Unit
  IfKept (some c) = IsKept c

  first-IfKept :
      (p : Connection → Bool) (cs : List Connection) → All IsKept cs → IfKept (first (keep p cs))
  first-IfKept p [] h = tt
  first-IfKept p (c ∷ cs) (hc, h) = elim (Bool-cases (p c)) [
    | inl e ↦ rw e hc
    | inr e ↦ rw e (first-IfKept p cs h)
  ]

  found-IsKept :
      (o : Option Connection) (c : Connection) → IfKept o → or_not_found o ≡ ok c → IsKept c
  found-IsKept none c h e = absurd cc
  found-IsKept (some d) c h e = let same : d ≡ c = cc in subst (λ x. IsKept x) same h

  pub get-Leaves : (id : Str) (w : World Links) → Kept w.store → Leaves IsKept (get id w)
  unfolding get
  get-Leaves id w h =
      continue-Leaves IfKept IsKept (query (connection_with id) w) (λ o. lift (or_not_found o))
        (Post-query (λ o v. IfKept o × Kept v.store) (λ _ v. Kept v.store) (connection_with id) w
          (λ os. (first-IfKept (λ c. str_eq c.id id) w.store.connections h, h)) (λ os. h))
        λ o v kept h'. lift-Leaves IsKept (or_not_found o) v h' λ c e. found-IsKept o c kept e

  All-append :
      (cs : List Connection) (c : Connection) → All IsKept cs → IsKept c → All IsKept (cs ++ c ∷ [])
  All-append [] c h new = (new, tt)
  All-append (d ∷ cs) c (hd, h) new = (hd, All-append cs c h new)

  All-set :
      (id : Str) (change : Connection → Connection) (cs : List Connection)
      → ((c : Connection) → IsKept c → IsKept (change c))
      → All IsKept cs
      → All IsKept (map (λ r. if str_eq r.id id then change r else r) cs)
  All-set id change [] keeps h = tt
  All-set id change (c ∷ cs) keeps (hc, h) = elim (Bool-cases (str_eq c.id id)) [
    | inl e ↦ rw e (keeps c hc, All-set id change cs keeps h)
    | inr e ↦ rw e (hc, All-set id change cs keeps h)
  ]

  All-delete :
      (id : Str) (cs : List Connection)
      → All IsKept cs
      → All IsKept (keep (λ c. not (str_eq c.id id)) cs)
  All-delete id [] h = tt
  All-delete id (c ∷ cs) (hc, h) = elim (Bool-cases (str_eq c.id id)) [
    | inl e ↦ rw e (All-delete id cs h)
    | inr e ↦ rw e (hc, All-delete id cs h)
  ]

  pub exec-Leaves :
      (change : Links → Links) (w : World Links)
      → Kept w.store
      → Kept (change w.store)
      → Leaves Done (exec change w)
  exec-Leaves change w h h' =
      Post-exec (λ _ v. Unit × Kept v.store) (λ _ v. Kept v.store) change w (λ os. (tt, h'))
        (λ os. h) (λ os. h')

  add-Kept :
      (c : Connection) (s t : Links) → Kept s → IsKept c → add_connection c s ≡ some t → Kept t
  add-Kept c s t h new e = by_test (any (λ r. str_eq r.id c.id) s.connections) e
    where
      by_test :
          (b : Bool)
          → (if b then none else some (record s { connections = s.connections ++ c ∷ [] })) ≡ some t
          → Kept t
      by_test true e = absurd cc
      by_test false e =
          let same : record s { connections = s.connections ++ c ∷ [] } ≡ t = cc in
          subst (λ x. Kept x) same (All-append s.connections c h new)

  pub insert-Leaves :
      (c : Connection) (w : World Links) → Kept w.store → IsKept c → Leaves Done (insert c w)
  unfolding insert
  insert-Leaves c w h new =
      Post-exec_checked (λ _ v. Unit × Kept v.store) (λ _ v. Kept v.store) (add_connection c) w
        (λ s e os. (tt, add-Kept c w.store s h new e)) (λ s e os. add-Kept c w.store s h new e)
        (λ os. h)

  pub write-Leaves :
      (c : Connection) (w : World Links)
      → Kept w.store
      → IsSealed c.client_secret
      → Leaves Done (write c w)
  unfolding write
  write-Leaves c w h sealed =
      exec-Leaves (set_where c.id (credentials_of c)) w h
        (All-set c.id (credentials_of c) w.store.connections (λ r hr. (sealed, hr.1)) h)

  pub delete-Leaves : (id : Str) (w : World Links) → Kept w.store → Leaves Done (delete id w)
  unfolding delete
  delete-Leaves id w h =
      exec-Leaves (without_connection id) w h (All-delete id w.store.connections h)

  pub save_tokens-Leaves :
      (id access token token_type : Str) (expires_at now : ℕ) (w : World Links)
      → Kept w.store
      → IsSealed access
      → IsSealed token
      → Leaves Done (save_tokens id access token token_type expires_at connection_connected now w)
  unfolding save_tokens
  save_tokens-Leaves id access token token_type expires_at now w h a t =
      let change = with_tokens access token token_type expires_at connection_connected now in
      exec-Leaves (set_where id change) w h
        (All-set id change w.store.connections (λ r hr. (hr.0, (a, t))) h)

  pub put_state-Leaves :
      (state : Str) (v : AuthState) (w : World Links)
      → Kept w.store
      → Leaves Done (put_state state v w)
  unfolding put_state
  put_state-Leaves state v w h =
      Post-exec (λ _ v. Unit × Kept v.store) (λ _ v. Kept v.store) (with_state state v) w
        (λ os. (tt, h)) (λ os. h) (λ os. h)

  pub get_state-Leaves :
      (state : Str) (w : World Links) → Kept w.store → Leaves Done (get_state state w)
  unfolding get_state
  get_state-Leaves state w h =
      continue-Leaves Done Done (query (pending_with state) w) _
        (Post-query (λ _ v. Unit × Kept v.store) (λ _ v. Kept v.store) (pending_with state) w
          (λ os. (tt, h)) (λ os. h))
        λ o w _ h.
          continue-Leaves Done Done (lift (or_not_found o) w) _
            (lift-Leaves Done (or_not_found o) w h (λ _ _. tt))
            λ p w _ h. (tt, store-Leaves Done _ (exec-Leaves (without_state state) w h h))

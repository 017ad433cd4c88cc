-- ===== src/Oidc/Tokens/Refusals.antt =====
-- A revocation that is refused.
use griya_maya.Base.{◌≡◌, refl, ◌∙◌, Bool, Option, none, some, List, [], ◌∷◌, inl, inr, Bool-cases}
use griya_maya.Text.{Str, str_eq}
use griya_maya.Effect.{World, Outcome, answered, refused, lost, Error, Result, ok, err, query, call}
use griya_maya.Effect.Laws.{Post, Post-answers}
use griya_maya.Oidc.Store.{Token, RefreshToken, Tokens, refresh_token_by_value, with_value}
use griya_maya.Oidc.Tokens.{get_token, revoke_access, revoke_found, revoke_as, revoke_token}

abbrev pub token_client : Str → Token → Bool
token_client client_id t = str_eq t.application_id client_id

module _ (client_id value : Str) (w : World Tokens) where
  -- an error, from the store as it was
  abbrev Refused : Error → World Tokens → Type 0
  Refused e v = v.store ≡ w.store

  abbrev Unchanged : Result (Unit {0}) × World Tokens → Type 0
  Unchanged r = Post (λ _ _. Unit {0}) Refused r

  found-Unchanged :
      (r : Result (Option RefreshToken)) (v : World Tokens)
      → v.store ≡ w.store
      → Unchanged (revoke_found client_id r v)
  found-Unchanged (err e) v h = tt
  found-Unchanged (ok none) v h = tt
  found-Unchanged (ok (some rt)) v h = elim (Bool-cases (str_eq rt.application_id client_id)) [
    | inl own ↦ rw own tt
    | inr foreign ↦ rw foreign h
  ]

  access-Unchanged :
      (t : Token) (v : World Tokens) → v.store ≡ w.store → Unchanged (revoke_access client_id t v)
  access-Unchanged t v h = elim (Bool-cases (str_eq t.application_id client_id)) [
    | inl own ↦ rw own tt
    | inr foreign ↦ rw foreign h
  ]

  -- a read leaves the store alone, whatever its answer
  query-store : {A : Type 0} (f : Tokens → A) (v : World Tokens) → (query f v).1.store ≡ v.store
  unfolding query call
  query-store f v = of_outcome v.outcomes
    where
      of_outcome :
          (os : List Outcome)
          → (query f (record { store = v.store; outcomes = os })).1.store ≡ v.store
      of_outcome [] = refl
      of_outcome (answered ∷ os) = refl
      of_outcome (refused ∷ os) = refl
      of_outcome (lost ∷ os) = refl

  get_token-store : (get_token value w).1.store ≡ w.store
  unfolding get_token query call
  get_token-store = of_outcome w.outcomes
    where
      of_outcome :
          (os : List Outcome)
          → (get_token value (record { store = w.store; outcomes = os })).1.store ≡ w.store
      of_outcome [] = refl
      of_outcome (answered ∷ os) = refl
      of_outcome (refused ∷ os) = refl
      of_outcome (lost ∷ os) = refl

  as-Unchanged :
      (r : Result Token) (v : World Tokens)
      → v.store ≡ w.store
      → Unchanged (revoke_as client_id value r v)
  unfolding refresh_token_by_value
  as-Unchanged (ok t) v h = access-Unchanged t v h
  as-Unchanged (err e) v h =
      found-Unchanged (refresh_token_by_value value v).0 (refresh_token_by_value value v).1
        (query-store (with_value value) v ∙ h)

  -- Whatever the outcomes of the calls, a revocation that answers an error, as it does for the token
  -- of another client, deletes no token and changes nothing else.
  pub revoke_token_refused :
      (e : Error)
      → (revoke_token client_id value w).0 ≡ err e
      → (revoke_token client_id value w).1.store ≡ w.store
  unfolding revoke_token
  revoke_token_refused e answer =
      (Post-answers (λ _ _. Unit {0}) Refused (revoke_token client_id value w)
          (as-Unchanged (get_token value w).0 (get_token value w).1 get_token-store)).1
        e answer

-- ===== src/Oidc/Consent/Laws.antt =====
-- What a saved consent is read as.
use griya_maya.Base.{
  ◌≡◌, refl, ap, ◌∙◌, true, false, not, List, [], ◌∷◌, ◌++◌, map, keep, any, arith, inl, inr,
  Bool-cases,
}
use griya_maya.Text.{Str}
use griya_maya.Text.Laws.{str_eq_refl}
use griya_maya.Effect.{ok, query, exec, call}
use griya_maya.Effect.Laws.{world}
use griya_maya.Oidc.Scopes.{union_scopes, missing_scopes}
use griya_maya.Oidc.Scopes.Laws.{missing_scopes-union_scopes}
use griya_maya.Oidc.Consent.{
  Consent, is_for, granted, consent_scopes, with_scopes, upsert, save_consent,
}

module _ (user_id client_id : Str) (scopes : List Str) where
  granted-map :
      (s : List Consent)
      → any (is_for user_id client_id) s ≡ true
      → granted user_id client_id (map (with_scopes user_id client_id scopes) s) ≡ scopes
  granted-map [] h = absurd cc
  granted-map (c ∷ s) h = elim (Bool-cases (is_for user_id client_id c)) [
    | inl here ↦ rw (here, here) refl
    | inr other ↦ rw (other, other) (granted-map s (ground arith))
  ]

  granted-append :
      (s : List Consent)
      → any (is_for user_id client_id) s ≡ false
      → granted user_id client_id
          (s ++ record { user_id = user_id; client_id = client_id; scopes = scopes } ∷ [])
        ≡ scopes
  granted-append [] h = rw (str_eq_refl user_id, str_eq_refl client_id) refl
  granted-append (c ∷ s) h =
      let other : is_for user_id client_id c ≡ false = ground arith in
      rw other (granted-append s (ground arith))

  granted-upsert :
      (s : List Consent) → granted user_id client_id (upsert user_id client_id scopes s) ≡ scopes
  granted-upsert s = elim (Bool-cases (any (is_for user_id client_id) s)) [
    | inl there ↦ rw there (granted-map s there)
    | inr new ↦ rw new (granted-append s new)
  ]

  -- the rows of other pairs are as they were
  others-map :
      (s : List Consent)
      → keep (λ c. not (is_for user_id client_id c)) (map (with_scopes user_id client_id scopes) s)
        ≡ keep (λ c. not (is_for user_id client_id c)) s
  others-map [] = refl
  others-map (c ∷ s) = elim (Bool-cases (is_for user_id client_id c)) [
    | inl here ↦ rw (here, here) (others-map s)
    | inr other ↦ rw (other, other) (ap (λ xs. c ∷ xs) (others-map s))
  ]

  others-append :
      (s : List Consent)
      → keep
          (λ c. not (is_for user_id client_id c))
          (s ++ record { user_id = user_id; client_id = client_id; scopes = scopes } ∷ [])
        ≡ keep (λ c. not (is_for user_id client_id c)) s
  others-append [] = rw (str_eq_refl user_id, str_eq_refl client_id) refl
  others-append (c ∷ s) = elim (Bool-cases (is_for user_id client_id c)) [
    | inl here ↦ rw here (others-append s)
    | inr other ↦ rw other (ap (λ xs. c ∷ xs) (others-append s))
  ]

  others-upsert :
      (s : List Consent)
      → keep (λ c. not (is_for user_id client_id c)) (upsert user_id client_id scopes s)
        ≡ keep (λ c. not (is_for user_id client_id c)) s
  others-upsert s = elim (Bool-cases (any (is_for user_id client_id) s)) [
    | inl there ↦ rw there (others-map s)
    | inr new ↦ rw new (others-append s)
  ]

-- When no call fails, a consent that is saved is read back as what was granted before together with
-- what was approved, so that a request for the approved scopes lacks none of them; and the consents
-- of every other user or client stay as they were.
pub save_consent_lem :
    (user_id client_id : Str) (scopes : List Str) (s : List Consent)
    → ((save_consent user_id client_id scopes (world s [])).0 ≡ ok tt)
      × ((consent_scopes user_id client_id (save_consent user_id client_id scopes (world s [])).1).0
          ≡ ok (union_scopes (granted user_id client_id s) scopes))
      × (missing_scopes scopes
            (granted user_id client_id (save_consent user_id client_id scopes (world s [])).1.store)
          ≡ [])
      × (keep
            (λ c. not (is_for user_id client_id c))
            (save_consent user_id client_id scopes (world s [])).1.store
          ≡ keep (λ c. not (is_for user_id client_id c)) s)
unfolding save_consent consent_scopes query exec call
save_consent_lem user_id client_id scopes s =
    let all = union_scopes (granted user_id client_id s) scopes in
    let read : granted user_id client_id (upsert user_id client_id all s) ≡ all =
      granted-upsert user_id client_id all s in
    (
      refl,
      ap ok read,
      ap (missing_scopes scopes) read
          ∙ missing_scopes-union_scopes (granted user_id client_id s) scopes,
      others-upsert user_id client_id all s,
    )

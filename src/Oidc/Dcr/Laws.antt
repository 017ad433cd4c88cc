-- ===== src/Oidc/Dcr/Laws.antt =====
-- What the registration of clients grants and keeps.
use griya_maya.Base.{
  ℕ, ◌≡◌, refl, inl, inr, true, false, not, ◌||◌, List, [], ◌∷◌, is_empty, Option, some, Bool,
  if◌then◌else◌, arith, Bool-cases,
}
use griya_maya.Text.{Str, str, str_eq}
use griya_maya.Text.Laws.{str_eq_iff}
use griya_maya.Effect.{World, Outcome, answered, refused, lost, query, call}
use griya_maya.Effect.Laws.{world}
use griya_maya.Oidc.Gate.{bearer_token}
use griya_maya.Oidc.Reply.{Reply, Handler, respond_err, on_result, with_some, require}
use griya_maya.Oidc.Clients.{ClientRow, client_with}
use griya_maya.Oidc.Dcr.{ClientMetadata, client_row, is_token, authorize, read, update, delete}

-- what a client proves itself by, with its identifier
abbrev pub credentials : ClientRow → Str × Str × Str × ℕ
credentials r = (r.id, r.secret_hash, r.registration_access_token, r.created_at)

-- whether the next call fails
abbrev pub fails : List Outcome → Bool
fails [] = false
fails (answered ∷ os) = false
fails (refused ∷ os) = true
fails (lost ∷ os) = true

module _ (issuer : Str) (s : List ClientRow) (os : List Outcome) where
  -- nothing is changed, and the answer is 401, or 404 exactly if the lookup of the client fails
  unfoldable pub Rejected : {B : Type 0} → Reply B × World (List ClientRow) → Type 0
  Rejected r =
      (r.0 ≡ (
        if fails os
        then respond_err 404 (str "invalid_client_id")
        else respond_err 401 (str "invalid_token")))
      × (r.1.store ≡ s)

authorize-Rejected :
    {B : Type 0} (issuer id header : Str) (s : List ClientRow)
    (rest : ClientRow → Handler (List ClientRow) B) (row : ClientRow) (os : List Outcome)
    → client_with id s ≡ some row
    → is_token issuer header row ≡ false
    → Rejected issuer s os (authorize issuer id header rest (world s os))
unfolding Rejected client_row query call on_result with_some require
authorize-Rejected issuer id header s rest row [] here wrong = rw (here, wrong) (refl, refl)
authorize-Rejected issuer id header s rest row (answered ∷ os) here wrong =
    rw (here, wrong) (refl, refl)
authorize-Rejected issuer id header s rest row (refused ∷ os) here wrong = (refl, refl)
authorize-Rejected issuer id header s rest row (lost ∷ os) here wrong = (refl, refl)

wrong_for :
    (issuer header : Str) (row : ClientRow)
    → (is_empty row.registration_access_token
        || not (str_eq (bearer_token header) row.registration_access_token))
      ≡ true
    → is_token issuer header row ≡ false
wrong_for issuer header row h = elim (Bool-cases (is_empty (bearer_token header))) [
  | inl e ↦ rw e refl
  | inr e ↦ rw e (by_token (bearer_token header) row.registration_access_token e h)
]
  where
    by_token :
        (t token : Str)
        → is_empty t ≡ false
        → (is_empty token || not (str_eq t token)) ≡ true
        → str_eq t token ≡ false
    by_token t [] e h = elim (Bool-cases (str_eq t [])) [
      | inl same ↦ absurd (empty_clash t ((str_eq_iff t []).0 same) e)
      | inr other ↦ other
    ]
      where
        empty_clash : (t : Str) → t ≡ [] → is_empty t ≡ false → ⊥
        empty_clash [] same e = ground arith
        empty_clash (c ∷ t) same e = cc
    by_token t (c ∷ token) e h = ground arith

-- For a client whose registration access token is empty, as that of a seeded client is, or is not the
-- bearer token of the request, none of Read, Update and Delete changes a client, whatever the body
-- and the outcomes of its calls; each answers 404 if the call that looks the client up fails, and 401
-- otherwise.
pub manage-Rejected :
    (issuer id header : Str) (body : Option ClientMetadata) (s : List ClientRow) (row : ClientRow)
    (os : List Outcome)
    → client_with id s ≡ some row
    → (is_empty row.registration_access_token
        || not (str_eq (bearer_token header) row.registration_access_token))
      ≡ true
    → Rejected issuer s os (read issuer id header (world s os))
      × Rejected issuer s os (update issuer id header body (world s os))
      × Rejected issuer s os (delete issuer id header (world s os))
unfolding read update delete
manage-Rejected issuer id header body s row os found unfit =
    let wrong = wrong_for issuer header row unfit in
    (
      authorize-Rejected issuer id header s _ row os found wrong,
      authorize-Rejected issuer id header s _ row os found wrong,
      authorize-Rejected issuer id header s _ row os found wrong,
    )

-- ===== src/Oidc/Gate/Laws.antt =====
-- Who passes the gate.
use griya_maya.Base.{
  ◌≡◌, refl, sym, ap, ◌∙◌, Bool, true, false, ◌||◌, is_empty, arith, inl, inr, Bool-cases, ◌↔◌,
}
use griya_maya.Text.{Str}
use griya_maya.Effect.{Result, ok, err}
use griya_maya.Oidc.Scopes.{has_scope}
use griya_maya.Oidc.Gate.{
  Claims, Verdict, unauthorized, forbidden, next, bearer_token, with_claims, gate,
}

abbrev claims_or : Claims → Verdict → Claims
claims_or d unauthorized = d
claims_or d forbidden = d
claims_or d (next claims) = claims

abbrev passes : Verdict → Bool
passes unauthorized = false
passes forbidden = false
passes (next claims) = true

false-not-true : false ≡ true → ⊥
false-not-true h = cc

abbrev allowed_by : Str → Claims → Bool
allowed_by scope claims = is_empty scope || has_scope claims.scopes scope

with_claims-allowed :
    (scope : Str) (found : Claims)
    → allowed_by scope found ≡ true
    → with_claims scope (ok found) ≡ next found
with_claims-allowed scope found h = ground arith

with_claims-refused :
    (scope : Str) (found : Claims)
    → allowed_by scope found ≡ false
    → with_claims scope (ok found) ≡ forbidden
with_claims-refused scope found h = ground arith

with_claims-next :
    (scope : Str) (r : Result Claims) (claims : Claims)
    → with_claims scope r ≡ next claims
    → (r ≡ ok claims) × ((is_empty scope || has_scope claims.scopes scope) ≡ true)
with_claims-next scope (err e) claims h = absurd (false-not-true (ap passes h))
with_claims-next scope (ok found) claims h = elim (Bool-cases (allowed_by scope found)) [
  | inl allowed ↦
      let e : found ≡ claims =
        ap (claims_or found) (sym (with_claims-allowed scope found allowed) ∙ h) in
      (ap ok e, sym (ap (allowed_by scope) e) ∙ allowed)
  | inr refused ↦
      absurd (false-not-true (ap passes (sym (with_claims-refused scope found refused) ∙ h)))
]

-- A request passes the gate with some claims exactly if its header carries a bearer token, the token
-- is verified with those claims, and they hold the scope that the route asks for, if it asks for one.
pub gate_iff :
    (verify : Str → Result Claims) (scope header : Str) (claims : Claims)
    → (gate verify scope header ≡ next claims) ↔ (
        (is_empty (bearer_token header) ≡ false)
        × (verify (bearer_token header) ≡ ok claims)
        × ((is_empty scope || has_scope claims.scopes scope) ≡ true))
unfolding gate
gate_iff verify scope header claims = elim (Bool-cases (is_empty (bearer_token header))) [
  | inl missing ↦
      rw missing (
        (λ h. absurd (false-not-true (ap passes h))),
        (λ (h, _, _). absurd (false-not-true (sym h))),
      )
  | inr there ↦ rw there (
    (λ h.
        let (v, allowed) = with_claims-next scope (verify (bearer_token header)) claims h in
        (refl, v, allowed)),
    (λ (_, v, allowed). rw v (with_claims-allowed scope claims allowed)),
  )
]

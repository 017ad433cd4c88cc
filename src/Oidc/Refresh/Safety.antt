-- ===== src/Oidc/Refresh/Safety.antt =====
-- When a refresh token may be redeemed at all.
use griya_maya.Base.{
  ◌-◌, ◌≡◌, refl, sym, true, false, ◌||◌, Option, none, some, ltb, leb, is_empty, arith, inl, inr,
  Bool-cases,
}
use griya_maya.Text.{Str}
use griya_maya.Effect.{World, Error, Result, ok, err}
use griya_maya.Effect.Laws.{Post, Post-query, Post-seq, Post-answers}
use griya_maya.Oidc.Store.{RefreshToken, Tokens, refresh_token_by_value, with_value}
use griya_maya.Oidc.Refresh.{
  TokenRequest, Draw, Ttl, Pair, redeem, rotate_refresh_token, refresh_rotation_grace,
}

-- the row is there, not past its end, and active or superseded a short time ago
abbrev pub Redeemable : Draw → Option RefreshToken → Type 0
Redeemable d found =
    (rt : RefreshToken) × (found ≡ some rt)
    × (ltb rt.expiration d.checked ≡ false)
    × ((is_empty rt.superseded_by || leb (d.compared - rt.superseded_at) refresh_rotation_grace)
        ≡ true)

abbrev Anything : Error → World Tokens → Type 0
Anything e w = Unit {0}

Post-known : (P : Type 0) (r : Result Pair × World Tokens) → P → Post (λ _ _. P) Anything r
Post-known P (ok a, w) p = p
Post-known P (err e, w) p = tt

module _ (ttl : Ttl) (req : TokenRequest) (d : Draw) (current : Str) where
  redeem-Redeemable :
      (found : Option RefreshToken) (w : World Tokens)
      → Post (λ _ _. Redeemable d found) Anything (redeem ttl req d current found w)
  redeem-Redeemable none w = tt
  redeem-Redeemable (some rt) w = elim (Bool-cases (ltb rt.expiration d.checked)) [
    | inl late ↦ rw late tt
    | inr fresh ↦
        elim (Bool-cases (
          is_empty rt.superseded_by
          || leb (d.compared - rt.superseded_at) refresh_rotation_grace)) [
            | inl timely ↦
                Post-known (Redeemable d (some rt)) (redeem ttl req d current (some rt) w)
                  (rt, refl, fresh, timely)
            | inr stale ↦ refused rt w fresh stale
          ]
  ]
    where
      refused :
          (rt : RefreshToken) (w : World Tokens)
          → ltb rt.expiration d.checked ≡ false
          → (is_empty rt.superseded_by
              || leb (d.compared - rt.superseded_at) refresh_rotation_grace)
            ≡ false
          → Post (λ _ _. Redeemable d (some rt)) Anything (redeem ttl req d current (some rt) w)
      refused rt w fresh stale =
          let old : is_empty rt.superseded_by ≡ false = ground (arith, stale) in
          let far : leb (d.compared - rt.superseded_at) refresh_rotation_grace ≡ false =
            ground (arith, stale) in
          rw (fresh, old, far) tt

  -- Whatever the outcomes of the calls, a refresh token is answered with a pair only if at its first
  -- read a row holds it, not past its end, that is active or was superseded within the grace window.
  pub rotate-Redeemable :
      (w : World Tokens) (pair : Pair)
      → (rotate_refresh_token ttl req d current w).0 ≡ ok pair
      → Redeemable d (with_value current w.store)
  unfolding rotate_refresh_token refresh_token_by_value
  rotate-Redeemable w pair answer =
      (Post-answers (λ _ _. Redeemable d (with_value current w.store)) Anything
          (rotate_refresh_token ttl req d current w)
          (Post-seq (λ found _. found ≡ with_value current w.store)
            (λ _ _. Redeemable d (with_value current w.store)) Anything
            (refresh_token_by_value current w) (redeem ttl req d current)
            (Post-query (λ found _. found ≡ with_value current w.store) Anything
              (with_value current) w (λ os. refl) (λ os. tt))
            (λ found v e. rw (sym e) (redeem-Redeemable found v)))).0
        pair answer

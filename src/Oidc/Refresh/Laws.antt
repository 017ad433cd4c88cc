-- ===== src/Oidc/Refresh/Laws.antt =====
-- The branches of rotateRefreshToken when no call fails.
use griya_maya.Base.{
  ◌+◌, ◌-◌, ◌≡◌, refl, true, false, not, ◌||◌, some, [], ◌∷◌, keep, ltb, leb, is_empty, arith,
}
use griya_maya.Base.Keep.{keep-keep}
use griya_maya.Text.{Str, str_eq}
use griya_maya.Effect.{ok, err, reused_token, call, query, exec}
use griya_maya.Effect.Laws.{world}
use griya_maya.Oidc.Store.{
  RefreshToken, Tokens, put_token, delete_token, delete_refresh, refresh_token_by_value, with_value,
}
use griya_maya.Oidc.Refresh.{
  TokenRequest, Draw, Ttl, new_token, mint_for_successor, revoke_refresh_chain,
  rotate_refresh_token, redeem, refresh_rotation_grace,
}

module _ (ttl : Ttl) (req : TokenRequest) (d : Draw) (current : Str) (s : Tokens) where
  pub runs_to :
      rotate_refresh_token ttl req d current (world s [])
      ≡ redeem ttl req d current (with_value current s) (world s [])
  unfolding rotate_refresh_token refresh_token_by_value query call
  runs_to = refl

  -- Within the grace window a superseded token is answered with the successor that it was rotated
  -- to and with a fresh access token, and no row of the table changes.
  pub rotate-within_grace :
      (rt : RefreshToken)
      → with_value current s ≡ some rt
      → ltb rt.expiration d.checked ≡ false
      → is_empty rt.superseded_by ≡ false
      → leb (d.compared - rt.superseded_at) refresh_rotation_grace ≡ true
      → ((rotate_refresh_token ttl req d current (world s [])).0
          ≡ ok (record {
            access = d.access_id;
            refresh = rt.superseded_by;
            expiration = d.minted_at + ttl.access;
          }))
        × ((rotate_refresh_token ttl req d current (world s [])).1.store.refresh ≡ s.refresh)
        × ((rotate_refresh_token ttl req d current (world s [])).1.store.access
            ≡ new_token ttl req rt.superseded_by d
              ∷ keep (λ t. not (str_eq t.id d.access_id)) s.access)
  unfolding mint_for_successor put_token exec call
  rotate-within_grace rt found fresh old near =
      rw (runs_to, found, fresh, old, near) (refl, refl, refl)

  -- When no call fails, a superseded token that is not past its end is refused as reused after the
  -- grace window, and the rows that go are its own and that of its direct successor, and no other.
  pub rotate-reused :
      (rt : RefreshToken)
      → with_value current s ≡ some rt
      → ltb rt.expiration d.checked ≡ false
      → is_empty rt.superseded_by ≡ false
      → leb (d.compared - rt.superseded_at) refresh_rotation_grace ≡ false
      → ((rotate_refresh_token ttl req d current (world s [])).0 ≡ err reused_token)
        × ((rotate_refresh_token ttl req d current (world s [])).1.store.refresh
            ≡ keep (λ r. not (str_eq r.id rt.id || str_eq r.id rt.superseded_by)) s.refresh)
  unfolding revoke_refresh_chain delete_token delete_refresh exec call
  rotate-reused rt found fresh old far =
      rw (runs_to, found, fresh, old, far)
        (
          refl,
          keep-keep (λ r. not (str_eq r.id rt.id)) (λ r. not (str_eq r.id rt.superseded_by))
              (λ r. not (str_eq r.id rt.id || str_eq r.id rt.superseded_by)) s.refresh
              (λ r. ground arith),
        )

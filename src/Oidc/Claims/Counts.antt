-- ===== src/Oidc/Claims/Counts.antt =====
-- How the statements change the count of active rows.
use griya_maya.Base.{
  ℕ, ◌+◌, ◌≤◌, ◌≡◌, refl, Bool, true, false, List, [], ◌∷◌, ◌++◌, map, keep, any, is_empty, arith,
}
use griya_maya.Text.{Str}
use griya_maya.Oidc.Store.{RefreshRow, claimable, claimed}
use griya_maya.Oidc.Claims.{one_if, active}

pub active-cons :
    (id : Str) (r : RefreshRow) (rows : List RefreshRow)
    → active id (r ∷ rows) ≡ one_if (claimable id r) + active id rows
unfolding active
active-cons id r rows = ground arith

pub active-claimed :
    (id id' successor : Str) (now : ℕ) (rows : List RefreshRow)
    → active id (map (claimed id' successor now) rows) ≤ active id rows
unfolding active
active-claimed id id' successor now [] = omega arith
active-claimed id id' successor now (r ∷ rows) =
    ground (arith, active-claimed id id' successor now rows)

-- a claim that is won finds an active row and leaves none
pub active-any :
    (id : Str) (rows : List RefreshRow) → any (claimable id) rows ≡ true → 1 ≤ active id rows
unfolding active
active-any id [] h = absurd cc
active-any id (r ∷ rows) h = ground (arith, active-any id rows)

pub active-none :
    (id : Str) (rows : List RefreshRow) → any (claimable id) rows ≡ false → active id rows ≡ 0
unfolding active
active-none id [] h = refl
active-none id (r ∷ rows) h = ground (arith, active-none id rows)

pub active-own_claim :
    (id successor : Str) (now : ℕ) (rows : List RefreshRow)
    → is_empty successor ≡ false
    → active id (map (claimed id successor now) rows) ≡ 0
unfolding active
active-own_claim id successor now [] h = refl
active-own_claim id successor now (r ∷ rows) h =
    ground (arith, active-own_claim id successor now rows h)

pub active-append :
    (id : Str) (r : RefreshRow) (rows : List RefreshRow)
    → active id (rows ++ r ∷ []) ≡ active id rows + one_if (claimable id r)
unfolding active
active-append id r [] = ground arith
active-append id r (q ∷ rows) = ground (arith, active-append id r rows)

pub active-keep :
    (id : Str) (p : RefreshRow → Bool) (rows : List RefreshRow)
    → active id (keep p rows) ≤ active id rows
unfolding active
active-keep id p [] = omega arith
active-keep id p (r ∷ rows) = ground (arith, active-keep id p rows)

-- ===== src/Oidc/Claims.antt =====
-- Concurrent redemptions of one refresh token: claimRotation in any order with the other statements
-- on its table.
pub mod Counts
pub mod Single
use griya_maya.Base.{
  ℕ, ◌+◌, ◌≤◌, ◌≡◌, refl, sym, ap, Bool, true, false, not, ◌&&◌, Option, none, some, List, [], ◌∷◌,
  ◌++◌, map, keep, any, length, All, if◌then◌else◌, is_empty, arith, inl, inr, Bool-cases,
}
use griya_maya.Text.{Str, str_eq}
use griya_maya.Text.Laws.{str_eq_iff}
use griya_maya.Effect.{Exec, World, Result, ok, err, pure, continue, ◌>>◌}
use griya_maya.Effect.Laws.{Post, Post-call, Post-exec, Post-exec_checked}
use griya_maya.Oidc.Store.{
  RefreshRow, RefreshToken, Tokens, without_refresh, row_of, add_row, claimable, claimed,
  claim_rows, claim_rotation, insert_refresh_token, delete_refresh,
}

-- a statement of some request on the table
pub data Write : Type 0 where
  claim : Str → Str → ℕ → Write
  insert : RefreshToken → ℕ → Write
  delete : Str → Write

-- it answers whether a claim was won
abbrev pub run_write : Write → Exec Tokens Bool
run_write (claim id successor now) = claim_rotation id successor now
run_write (insert rt now) = insert_refresh_token rt now >> pure false
run_write (delete id) = delete_refresh id >> pure false

abbrev one_if : Bool → ℕ
one_if b = if b then 1 else 0

abbrev claims_it : Str → Write → Bool
claims_it id (claim id' successor now) = str_eq id' id
claims_it id (insert rt now) = false
claims_it id (delete id') = false

abbrev won : Result Bool → Bool
won (ok b) = b
won (err e) = false

-- how many requests win the claim on the token when the statements run in this order
unfoldable pub winners : Str → List Write → World Tokens → ℕ
winners id [] w = 0
winners id (x ∷ xs) w =
    let (r, w') = run_write x w in one_if (claims_it id x && won r) + winners id xs w'

-- how many of the statements insert a row of that identifier
abbrev inserts_it : Str → Write → Bool
inserts_it id (claim id' successor now) = false
inserts_it id (insert rt now) = str_eq rt.id id
inserts_it id (delete id') = false

unfoldable pub inserts : Str → List Write → ℕ
inserts id [] = 0
inserts id (x ∷ xs) = one_if (inserts_it id x) + inserts id xs

-- the rows of that identifier that are not superseded
unfoldable pub active : Str → List RefreshRow → ℕ
active id rows = length (keep (claimable id) rows)

-- uuid.NewString never answers the empty text
abbrev pub Named : Write → Type 0
Named (claim id successor now) = is_empty successor ≡ false
Named (insert rt now) = Unit
Named (delete id) = Unit

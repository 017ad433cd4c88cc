-- ===== src/Oidc/Claims/Single.antt =====
-- At most one redemption of a refresh token wins the rotation.
use griya_maya.Base.{
  ℕ, ◌+◌, ◌≤◌, ◌≡◌, sym, ap, Bool, false, not, ◌&&◌, Option, none, some, List, [], ◌∷◌, map, any,
  All, is_empty, arith, inl, inr, Bool-cases,
}
use griya_maya.Text.{Str, str_eq}
use griya_maya.Text.Laws.{str_eq_iff}
use griya_maya.Effect.{World, Result, ok, err, pure, continue}
use griya_maya.Effect.Laws.{Post, Post-call, Post-exec, Post-exec_checked}
use griya_maya.Oidc.Store.{
  RefreshRow, Tokens, without_refresh, row_of, add_row, claimable, claimed, claim_rows,
  claim_rotation, insert_refresh_token, delete_refresh,
}
use griya_maya.Oidc.Claims.{
  Write, run_write, one_if, claims_it, won, winners, inserts_it, inserts, active, Named, claim,
  insert, delete,
}
use griya_maya.Oidc.Claims.Counts.{
  active-claimed, active-any, active-own_claim, active-append, active-keep,
}

abbrev counted : Str → World Tokens → ℕ
counted id w = active id w.store.refresh

-- what one statement does to the count of active rows
abbrev Step : Str → Write → World Tokens → Result Bool × World Tokens → Type 0
Step id x w r =
    Post
      (λ b v. one_if (claims_it id x && b) + counted id v ≤ counted id w + one_if (inserts_it id x))
      (λ e v. counted id v ≤ counted id w + one_if (inserts_it id x)) r

claim-Step :
    (id id' successor : Str) (now : ℕ) (w : World Tokens)
    → is_empty successor ≡ false
    → Step id (claim id' successor now) w (claim_rotation id' successor now w)
unfolding claim_rotation
claim-Step id id' successor now w h =
    Post-call (λ b v. one_if (str_eq id' id && b) + counted id v ≤ counted id w + 0)
      (λ e v. counted id v ≤ counted id w + 0) (λ s. any (claimable id') s.refresh)
      (claim_rows id' successor now) w (λ os. good) (λ os. omega arith)
      (λ os. omega (arith, active-claimed id id' successor now w.store.refresh))
  where
    good :
        one_if (str_eq id' id && any (claimable id') w.store.refresh)
          + active id (map (claimed id' successor now) w.store.refresh)
        ≤ active id w.store.refresh + 0
    good = elim (Bool-cases (str_eq id' id)) [
      | inl same ↦ elim (Bool-cases (any (claimable id') w.store.refresh)) [
        | inl found ↦
            let e = (str_eq_iff id' id).0 same in
            rw (same, found)
              (ground (
                arith,
                active-own_claim id' successor now w.store.refresh h,
                active-any id' w.store.refresh found,
                e,
              ))
        | inr missing ↦
            rw (same, missing) (omega (arith, active-claimed id id' successor now w.store.refresh))
      ]
      | inr other ↦ rw other (omega (arith, active-claimed id id' successor now w.store.refresh))
    ]

abbrev or_same : Tokens → Option Tokens → Tokens
or_same s none = s
or_same s (some t) = t

add_row-active :
    (id : Str) (row : RefreshRow) (s t : Tokens)
    → add_row row s ≡ some t
    → active id t.refresh ≤ active id s.refresh + one_if (claimable id row)
add_row-active id row s t e =
    let le : active id (or_same s (add_row row s)).refresh
        ≤ active id s.refresh + one_if (claimable id row) =
      bound in
    let same : or_same s (add_row row s) ≡ t = ap (or_same s) e in rw (sym same) le
  where
    bound :
        active id (or_same s (add_row row s)).refresh
        ≤ active id s.refresh + one_if (claimable id row)
    bound = elim (Bool-cases (any (λ r. str_eq r.id row.id) s.refresh)) [
      | inl taken ↦ rw taken (omega arith)
      | inr free ↦ rw free (omega (arith, active-append id row s.refresh))
    ]

-- the rest of `insert` and `delete` answers that no claim was won
bind-pure-Step :
    (id : Str) (x : Write) (w : World Tokens) (r : Result (Unit {0}) × World Tokens)
    → Post
        (λ _ v. counted id v ≤ counted id w + one_if (inserts_it id x))
        (λ _ v. counted id v ≤ counted id w + one_if (inserts_it id x))
        r
    → Step id x w (continue r (λ _. pure false))
bind-pure-Step id x w (ok a, v) h = ground (arith, h)
bind-pure-Step id x w (err e, v) h = h

run_write-Step : (id : Str) (x : Write) (w : World Tokens) → Named x → Step id x w (run_write x w)
unfolding insert_refresh_token delete_refresh
run_write-Step id (claim id' successor now) w h = claim-Step id id' successor now w h
run_write-Step id (insert rt now) w h =
    bind-pure-Step id (insert rt now) w (insert_refresh_token rt now w) (
      Post-exec_checked (λ _ v. counted id v ≤ counted id w + one_if (str_eq rt.id id))
        (λ _ v. counted id v ≤ counted id w + one_if (str_eq rt.id id)) (add_row (row_of rt now)) w
        (λ s e os. ground (arith, add_row-active id (row_of rt now) w.store s e))
        (λ s e os. ground (arith, add_row-active id (row_of rt now) w.store s e))
        (λ os. omega arith))
run_write-Step id (delete id') w h = bind-pure-Step id (delete id') w (delete_refresh id' w) (
    Post-exec (λ _ v. counted id v ≤ counted id w + 0) (λ _ v. counted id v ≤ counted id w + 0)
      (without_refresh id') w (λ os. less) (λ os. omega arith) (λ os. less))
  where
    less : active id (without_refresh id' w.store).refresh ≤ active id w.store.refresh + 0
    less = omega (arith, active-keep id (λ r. not (str_eq r.id id')) w.store.refresh)

Step-count :
    (id : Str) (x : Write) (w : World Tokens) (r : Result Bool × World Tokens)
    → Step id x w r
    → one_if (claims_it id x && won r.0) + counted id r.1 ≤ counted id w + one_if (inserts_it id x)
Step-count id x w (ok b, v) h = h
Step-count id x w (err e, v) h = ground arith

-- In whatever order the statements of concurrent requests reach the table, and whichever of their
-- calls fail, the claims on one token that are won are at most its active rows at the start and
-- those inserted since; a successor is never the empty text.
pub claim_rotation-single :
    (id : Str) (xs : List Write) (w : World Tokens)
    → All Named xs
    → winners id xs w ≤ active id w.store.refresh + inserts id xs
unfolding winners inserts
claim_rotation-single id [] w h = omega arith
claim_rotation-single id (x ∷ xs) w (named, rest) = omega (
  arith,
  Step-count id x w (run_write x w) (run_write-Step id x w named),
  claim_rotation-single id xs (run_write x w).1 rest,
)

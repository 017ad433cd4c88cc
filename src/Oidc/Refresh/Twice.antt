-- ===== src/Oidc/Refresh/Twice.antt =====
-- The winner of a rotation, and a second redemption of the same token.
use griya_maya.Base.{
  ℕ, ◌+◌, ◌-◌, ◌≡◌, refl, sym, ap, ◌∙◌, true, false, Option, none, some, List, [], ◌∷◌, ◌++◌, map,
  keep, any, ltb, leb, is_empty, arith, inl, inr, Bool-cases,
}
use griya_maya.Text.{Str, str_eq}
use griya_maya.Text.Laws.{str_eq_refl}
use griya_maya.Effect.{World, ok, call, exec, exec_checked}
use griya_maya.Effect.Laws.{world}
use griya_maya.Repo.Reads.{first}
use griya_maya.Oidc.Store.{
  RefreshRow, RefreshToken, Tokens, put_token, delete_token, insert_refresh_token, with_value,
  from_row, row_of, unix, time_val, claimable, claimed, claim_rotation,
}
use griya_maya.Oidc.Refresh.{
  TokenRequest, Draw, Ttl, new_token, successor_of, issue_successor, rotate_refresh_token,
  refresh_rotation_grace,
}
use griya_maya.Oidc.Refresh.Laws.{runs_to, rotate-within_grace}

-- the first row of a value, as the statements find it
abbrev found_in : Str → List RefreshRow → Option RefreshToken
found_in value rows = first (map from_row (keep (λ r. str_eq r.token value) rows))

abbrev id_or : Str → Option RefreshToken → Str
id_or d none = d
id_or d (some rt) = rt.id

abbrev superseded_or : Str → Option RefreshToken → Str
superseded_or d none = d
superseded_or d (some rt) = rt.superseded_by

abbrev found_or : RefreshToken → Option RefreshToken → RefreshToken
found_or d none = d
found_or d (some rt) = rt

found_in-here :
    (value : Str) (r : RefreshRow) (rows : List RefreshRow)
    → str_eq r.token value ≡ true
    → found_in value (r ∷ rows) ≡ some (from_row r)
found_in-here value r rows here = rw here refl

found_in-there :
    (value : Str) (r : RefreshRow) (rows : List RefreshRow)
    → str_eq r.token value ≡ false
    → found_in value (r ∷ rows) ≡ found_in value rows
found_in-there value r rows other = rw other refl

-- the row that a token was read from is there to be claimed
claimable-found :
    (value : Str) (rt : RefreshToken) (rows : List RefreshRow)
    → found_in value rows ≡ some rt
    → is_empty rt.superseded_by ≡ true
    → any (claimable rt.id) rows ≡ true
claimable-found value rt [] e h = cc
claimable-found value rt (r ∷ rows) e h = elim (Bool-cases (str_eq r.token value)) [
  | inl here ↦
      let x : some (from_row r) ≡ some rt = sym (found_in-here value r rows here) ∙ e in
      let i : r.id ≡ rt.id = ap (id_or []) x in
      let old : r.superseded_by ≡ rt.superseded_by = ap (superseded_or []) x in
      ground (arith, str_eq_refl rt.id, ap is_empty old, i)
  | inr other ↦
      ground (arith, claimable-found value rt rows (sym (found_in-there value r rows other) ∙ e) h)
]

-- the token as it is read after its row was claimed
abbrev marked : RefreshToken → Str → ℕ → RefreshToken
marked rt successor now = record rt {
  superseded_by = successor;
  superseded_at = time_val (unix now);
}

token-claimed :
    (id successor : Str) (now : ℕ) (r : RefreshRow) → (claimed id successor now r).token ≡ r.token
token-claimed id successor now r = elim (Bool-cases (claimable id r)) [
  | inl x ↦ rw x refl
  | inr x ↦ rw x refl
]

found-claimed :
    (value successor : Str) (now : ℕ) (rt : RefreshToken) (rows more : List RefreshRow)
    → found_in value rows ≡ some rt
    → is_empty rt.superseded_by ≡ true
    → found_in value (map (claimed rt.id successor now) rows ++ more)
      ≡ some (marked rt successor now)
found-claimed value successor now rt [] more e h = absurd cc
found-claimed value successor now rt (r ∷ rows) more e h =
    elim (Bool-cases (str_eq r.token value)) [
      | inl here ↦
          let x : some (from_row r) ≡ some rt = sym (found_in-here value r rows here) ∙ e in
          let i : r.id ≡ rt.id = ap (id_or []) x in
          let old : r.superseded_by ≡ rt.superseded_by = ap (superseded_or []) x in
          let mine : claimable rt.id r ≡ true =
            ground (arith, str_eq_refl rt.id, ap is_empty old, i) in
          rw (mine, here) (ap (λ o. some (marked (found_or rt o) successor now)) x)
      | inr other ↦
          found_in-there value (claimed rt.id successor now r)
            (map (claimed rt.id successor now) rows ++ more)
            (ap (λ t. str_eq t value) (token-claimed rt.id successor now r) ∙ other)
          ∙ found-claimed value successor now rt rows more
              (sym (found_in-there value r rows other) ∙ e) h
    ]

any-claimed :
    (id successor name : Str) (now : ℕ) (rows : List RefreshRow)
    → any (λ r. str_eq r.id name) (map (claimed id successor now) rows)
      ≡ any (λ r. str_eq r.id name) rows
any-claimed id successor name now [] = refl
any-claimed id successor name now (r ∷ rows) =
    ground (arith, any-claimed id successor name now rows)

module _ (ttl : Ttl) (req : TokenRequest) (d : Draw) (current : Str) (s : Tokens) where
  -- The first redemption of a refresh token answers a new pair; it marks the rows of the token as
  -- superseded by the new one, whose row it adds, for the same user, client and scopes.
  pub rotate-first :
      (rt : RefreshToken)
      → with_value current s ≡ some rt
      → ltb rt.expiration d.checked ≡ false
      → is_empty rt.superseded_by ≡ true
      → any (λ r. str_eq r.id d.refresh_id) s.refresh ≡ false
      → ((rotate_refresh_token ttl req d current (world s [])).0
          ≡ ok (record {
            access = d.access_id;
            refresh = d.refresh_id;
            expiration = d.minted_at + ttl.access;
          }))
        × ((rotate_refresh_token ttl req d current (world s [])).1.store.refresh
            ≡ map (claimed rt.id d.refresh_id d.claimed_at) s.refresh
              ++ row_of (successor_of ttl rt (new_token ttl req d.refresh_id d) d) d.inserted_at
                ∷ [])
        × ((rotate_refresh_token ttl req d current (world s [])).1.outcomes ≡ [])
  unfolding issue_successor claim_rotation put_token delete_token insert_refresh_token exec_checked
      exec call
  rotate-first rt found fresh young free =
      let won = claimable-found current rt s.refresh found young in
      let new = any-claimed rt.id d.refresh_id d.refresh_id d.claimed_at s.refresh ∙ free in
      rw (runs_to ttl req d current s, found, fresh, young, won, new) (refl, refl, refl)

  -- When no call fails: for a refresh token whose row is active and not past its end at either
  -- redemption, and a new identifier that is not empty and that no row has, two redemptions of the
  -- token, the second on what the first left and within the grace window after it, both succeed, and
  -- both answer the same new refresh token.
  pub rotate-twice :
      (req2 : TokenRequest) (d2 : Draw) (rt : RefreshToken)
      → with_value current s ≡ some rt
      → ltb rt.expiration d.checked ≡ false
      → is_empty rt.superseded_by ≡ true
      → any (λ r. str_eq r.id d.refresh_id) s.refresh ≡ false
      → is_empty d.refresh_id ≡ false
      → ltb rt.expiration d2.checked ≡ false
      → leb (d2.compared - time_val (unix d.claimed_at)) refresh_rotation_grace ≡ true
      → ((rotate_refresh_token ttl req d current (world s [])).0
          ≡ ok (record {
            access = d.access_id;
            refresh = d.refresh_id;
            expiration = d.minted_at + ttl.access;
          }))
        × ((rotate_refresh_token ttl req2 d2 current
              (rotate_refresh_token ttl req d current (world s [])).1).0
            ≡ ok (record {
              access = d2.access_id;
              refresh = d.refresh_id;
              expiration = d2.minted_at + ttl.access;
            }))
  rotate-twice req2 d2 rt found fresh young free named fresh2 near =
      let (first_answer, rows, calm) = rotate-first rt found fresh young free in
      let v : World Tokens = (rotate_refresh_token ttl req d current (world s [])).1 in
      let more : List RefreshRow =
        row_of (successor_of ttl rt (new_token ttl req d.refresh_id d) d) d.inserted_at ∷ [] in
      let again : with_value current v.store ≡ some (marked rt d.refresh_id d.claimed_at) =
        ap (found_in current) rows
        ∙ found-claimed current d.refresh_id d.claimed_at rt s.refresh more found young in
      let second =
        rotate-within_grace ttl req2 d2 current v.store (marked rt d.refresh_id d.claimed_at) again
          fresh2 named near in
      let same : v ≡ world v.store [] = ap (λ os. world v.store os) calm in
      (first_answer, ap (λ x. (rotate_refresh_token ttl req2 d2 current x).0) same ∙ second.0)

-- ===== src/Oidc/Users/Laws.antt =====
-- What the storage operations on accounts keep, for every list of outcomes.
use griya_maya.Base.{
  ◌≤◌, ◌≡◌, refl, sym, ap, ◌∙◌, Bool, true, false, not, ◌&&◌, ◌||◌, List, [], ◌∷◌, ◌++◌, map, keep,
  any, length, if◌then◌else◌, is_empty, some, arith, inl, inr, Bool-cases,
}
use griya_maya.Text.{Str, str_eq}
use griya_maya.Text.Laws.{str_eq_iff, str_eq_comm}
use griya_maya.Oidc.Users.{UserRow, Directory, add_user, edit_user}

-- the primary key: no two rows of one identifier
unfoldable pub distinct_ids : List UserRow → Bool
distinct_ids [] = true
distinct_ids (u ∷ us) = not (any (λ v. str_eq v.id u.id) us) && distinct_ids us

any-append_one :
    (p : UserRow → Bool) (us : List UserRow) (u : UserRow)
    → any p (us ++ u ∷ []) ≡ (any p us || p u)
any-append_one p [] u = ground arith
any-append_one p (v ∷ us) u = ground (arith, any-append_one p us u)

any-keep : (p q : UserRow → Bool) (us : List UserRow) → any q us ≡ false → any q (keep p us) ≡ false
any-keep p q [] h = refl
any-keep p q (u ∷ us) h = ground (arith, any-keep p q us)

ids-append :
    (us : List UserRow) (u : UserRow)
    → distinct_ids us ≡ true
    → any (λ v. str_eq v.id u.id || str_eq v.email u.email) us ≡ false
    → distinct_ids (us ++ u ∷ []) ≡ true
unfolding distinct_ids
ids-append [] u h new = refl
ids-append (v ∷ us) u h new =
    ground
      (arith, ids-append us u, any-append_one (λ t. str_eq t.id v.id) us u, str_eq_comm v.id u.id)

ids-keep :
    (p : UserRow → Bool) (us : List UserRow)
    → distinct_ids us ≡ true
    → distinct_ids (keep p us) ≡ true
unfolding distinct_ids
ids-keep p [] h = refl
ids-keep p (u ∷ us) h = elim (Bool-cases (p u)) [
  | inl e ↦ rw e (ground (arith, ids-keep p us, any-keep p (λ v. str_eq v.id u.id) us))
  | inr e ↦ rw e (ids-keep p us (ground arith))
]

-- the rows of one identifier are at most one, so others are left where there are two rows
some_left :
    (id : Str) (us : List UserRow)
    → distinct_ids us ≡ true
    → 2 ≤ length us
    → is_empty (keep (λ u. not (str_eq u.id id)) us) ≡ false
unfolding distinct_ids
some_left id [] h two = absurd (omega arith)
some_left id (u ∷ []) h two = absurd (omega arith)
some_left id (u ∷ v ∷ us) h two = elim (Bool-cases (str_eq u.id id)) [
  | inr other ↦ rw other refl
  | inl same ↦
      let e = (str_eq_iff u.id id).0 same in
      let fresh : str_eq v.id id ≡ false = rw (sym e) (ground arith) in rw (same, fresh) refl
]

module _ (id : Str) (change : UserRow → UserRow) where
  abbrev pub changed : List UserRow → List UserRow
  changed us = map (λ u. if str_eq u.id id then change u else u) us

  any-changed :
      (p : UserRow → Bool) (us : List UserRow)
      → ((u : UserRow) → p (change u) ≡ p u)
      → any p (changed us) ≡ any p us
  any-changed p [] h = refl
  any-changed p (u ∷ us) h = elim (Bool-cases (str_eq u.id id)) [
    | inl e ↦ rw (e, h u, any-changed p us h) refl
    | inr e ↦ rw (e, any-changed p us h) refl
  ]

  ids-changed :
      (us : List UserRow)
      → ((u : UserRow) → (change u).id ≡ u.id)
      → distinct_ids (changed us) ≡ distinct_ids us
  unfolding distinct_ids
  ids-changed [] h = refl
  ids-changed (u ∷ us) h =
      let rest = any-changed (λ v. str_eq v.id u.id) us (λ v. ap (λ i. str_eq i u.id) (h v)) in
      elim (Bool-cases (str_eq u.id id)) [
        | inl e ↦ rw (e, h u, rest, ids-changed us h) refl
        | inr e ↦ rw (e, rest, ids-changed us h) refl
      ]

  fails-changed :
      (p : UserRow → Bool) (us : List UserRow)
      → ((u : UserRow) → p (change u) ≡ false)
      → any p us ≡ false
      → any p (changed us) ≡ false
  fails-changed p [] h none_has = refl
  fails-changed p (u ∷ us) h none_has = elim (Bool-cases (str_eq u.id id)) [
    | inl e ↦ rw (e, h u) (fails-changed p us h (ground arith))
    | inr e ↦ rw e (ground (arith, fails-changed p us h))
  ]

-- There is an account, the identifiers are different, and every address passes the test.
module _ (valid : Str → Bool) where
  abbrev bad_email : UserRow → Bool
  bad_email u = not (valid u.email)

  abbrev pub IsSound : Directory → Type 0
  IsSound s =
      (is_empty s.users ≡ false) × (distinct_ids s.users ≡ true) × (any bad_email s.users ≡ false)

  pub add_user-IsSound :
      (row : UserRow) (s t : Directory)
      → add_user row s ≡ some t
      → valid row.email ≡ true
      → IsSound s
      → IsSound t
  add_user-IsSound row s t e v (filled, ids, emails) =
      elim (Bool-cases (any (λ u. str_eq u.id row.id || str_eq u.email row.email) s.users)) [
        | inl taken ↦ absurd (ground arith)
        | inr new ↦
            let made : some (record s { users = s.users ++ row ∷ [] }) ≡ some t = ground arith in
            let at : record s { users = s.users ++ row ∷ [] } ≡ t = ground arith in
            rw (sym at) (
              filled_append s.users,
              ids-append s.users row ids new,
              ground (arith, any-append_one bad_email s.users row),
            )
      ]
    where
      filled_append : (us : List UserRow) → is_empty (us ++ row ∷ []) ≡ false
      filled_append [] = refl
      filled_append (u ∷ us) = refl

  pub edit_user-IsSound :
      (id email : Str) (change : UserRow → UserRow) (s t : Directory)
      → edit_user id email change s ≡ some t
      → ((u : UserRow) → (change u).id ≡ u.id)
      → ((u : UserRow) → (change u).email ≡ email)
      → valid email ≡ true
      → IsSound s
      → IsSound t
  edit_user-IsSound id email change s t e keeps sets v (filled, ids, emails) =
      elim (Bool-cases (
        any (λ u. str_eq u.id id) s.users
        && any (λ u. not (str_eq u.id id) && str_eq u.email email) s.users)) [
          | inl taken ↦ absurd (ground arith)
          | inr free ↦
              let at : record s { users = changed id change s.users } ≡ t = ground arith in
              let good : (u : UserRow) → bad_email (change u) ≡ false = λ u. rw (sets u, v) refl in
              rw (sym at) (
                filled_map s.users filled,
                ids-changed id change s.users keeps ∙ ids,
                fails-changed id change bad_email s.users good emails,
              )
        ]
    where
      filled_map :
          (us : List UserRow) → is_empty us ≡ false → is_empty (changed id change us) ≡ false
      filled_map [] h = absurd cc
      filled_map (u ∷ us) h = refl

  pub delete_user-IsSound :
      (id : Str) (s : Directory)
      → 2 ≤ length s.users
      → IsSound s
      → IsSound (record s { users = keep (λ u. not (str_eq u.id id)) s.users })
  delete_user-IsSound id s two (filled, ids, emails) = (
    some_left id s.users ids two,
    ids-keep (λ u. not (str_eq u.id id)) s.users ids,
    any-keep (λ u. not (str_eq u.id id)) bad_email s.users emails,
  )

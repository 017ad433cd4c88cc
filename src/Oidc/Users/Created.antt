-- ===== src/Oidc/Users/Created.antt =====
-- What a creation of an account leaves, whatever its calls come to.
use griya_maya.Base.{
  ◌≡◌, refl, sym, Bool, true, false, ◌||◌, List, [], ◌∷◌, ◌++◌, map, keep, any, Option, none, some,
  arith, inl, inr, Bool-cases,
}
use griya_maya.Text.{Str, str_eq}
use griya_maya.Repo.Reads.{first}
use griya_maya.Effect.{World, exec_checked, pure}
use griya_maya.Effect.Laws.{Post, Post-seq, Post-exec_checked}
use griya_maya.Oidc.Users.{
  UserRow, UserRecord, admin_user_from_row, Directory, Passwords, Fresh, create_user, new_row,
  record_of, add_user, hash_password,
}

-- the row that is appended is the first that passes the test, where none did before
pub first_append :
    (p : UserRow → Bool) (us : List UserRow) (row : UserRow)
    → first (map admin_user_from_row (keep p us)) ≡ none
    → p row ≡ true
    → first (map admin_user_from_row (keep p (us ++ row ∷ []))) ≡ some (admin_user_from_row row)
first_append p [] row h here = rw here refl
first_append p (u ∷ us) row h here = elim (Bool-cases (p u)) [
  | inl e ↦ absurd (ground arith)
  | inr e ↦ rw e (first_append p us row (ground arith) here)
]

pub first_append_none :
    (p : UserRow → Bool) (us : List UserRow) (row : UserRow)
    → first (map admin_user_from_row (keep p us)) ≡ none
    → p row ≡ false
    → first (map admin_user_from_row (keep p (us ++ row ∷ []))) ≡ none
first_append_none p [] row h other = rw other refl
first_append_none p (u ∷ us) row h other = elim (Bool-cases (p u)) [
  | inl e ↦ absurd (ground arith)
  | inr e ↦ rw e (first_append_none p us row (ground arith) other)
]

pub any_append :
    (p : UserRow → Bool) (us : List UserRow) (row : UserRow)
    → any p us ≡ false
    → p row ≡ false
    → any p (us ++ row ∷ []) ≡ false
any_append p [] row h new = rw new refl
any_append p (u ∷ us) row h new = ground (arith, any_append p us row)

pub add_user_free :
    (row : UserRow) (us : Directory)
    → any (λ u. str_eq u.id row.id || str_eq u.email row.email) us.users ≡ false
    → add_user row us ≡ some (record us { users = us.users ++ row ∷ [] })
add_user_free row us free = rw free refl

pub free_of_add :
    (row : UserRow) (us t : Directory)
    → add_user row us ≡ some t
    → any (λ u. str_eq u.id row.id || str_eq u.email row.email) us.users ≡ false
free_of_add row us t h =
    elim (Bool-cases (any (λ u. str_eq u.id row.id || str_eq u.email row.email) us.users)) [
      | inl taken ↦ absurd (ground arith)
      | inr free ↦ free
    ]

-- the row that a creation appends, and its record
abbrev pub Created :
    Passwords → Str → Str → Str → Bool → Fresh → Directory → UserRecord → Directory → Type 0
Created ps email name password verified d s rec t =
    (salt : Str) × (d.salt ≡ some salt)
    × (add_user (new_row email (ps.hash password salt) name verified d) s ≡ some t)
    × (t ≡ record s {
      users = s.users ++ new_row email (ps.hash password salt) name verified d ∷ [];
    })
    × (rec ≡ record_of (new_row email (ps.hash password salt) name verified d))

add_user_inv :
    (row : UserRow) (s t : Directory)
    → add_user row s ≡ some t
    → t ≡ record s { users = s.users ++ row ∷ [] }
add_user_inv row s t e =
    elim (Bool-cases (any (λ u. str_eq u.id row.id || str_eq u.email row.email) s.users)) [
      | inl taken ↦ absurd (ground arith)
      | inr new ↦
          let made : some (record s { users = s.users ++ row ∷ [] }) ≡ some t = ground arith in
          ground arith
    ]

module _ (ps : Passwords) where
  pub create_user-Created :
      (email name password : Str) (verified : Bool) (d : Fresh) (w : World Directory)
      → Post
          (λ rec v. Created ps email name password verified d w.store rec v.store)
          (λ e v. Unit)
          (create_user ps email name password verified d w)
  unfolding create_user hash_password
  create_user-Created email name password verified d w =
      Post-seq
        (λ hash v.
          ((salt : Str) × (d.salt ≡ some salt) × (hash ≡ ps.hash password salt))
          × (v.store ≡ w.store))
        (λ rec v. Created ps email name password verified d w.store rec v.store) (λ e v. Unit)
        (hash_password ps password d.salt w) _ (hashed d.salt)
        λ hash v ((salt, salted, is_hash), same).
          let row = new_row email (ps.hash password salt) name verified d in
          rw is_hash (
            Post-seq
              (λ _ u.
                (add_user row w.store ≡ some u.store)
                × (u.store ≡ record w.store { users = w.store.users ++ row ∷ [] }))
              (λ rec v. Created ps email name password verified d w.store rec v.store) (λ e v. Unit)
              (exec_checked (add_user row) v) (λ _. pure (record_of row))
              (Post-exec_checked
                (λ _ u.
                  (add_user row w.store ≡ some u.store)
                  × (u.store ≡ record w.store { users = w.store.users ++ row ∷ [] }))
                (λ e v. Unit) (add_user row) v (λ t e os. added row v t same e) (λ t e os. tt)
                (λ os. tt))
              λ _ u (passed, made). (salt, salted, passed, made, refl))
    where
      hashed :
          (salt' : Option Str)
          → Post
              (λ hash v.
                ((salt : Str) × (salt' ≡ some salt) × (hash ≡ ps.hash password salt))
                × (v.store ≡ w.store))
              (λ e v. Unit)
              (hash_password ps password salt' w)
      hashed none = tt
      hashed (some salt) = ((salt, refl, refl), refl)

      added :
          (row : UserRow) (v : World Directory) (t : Directory)
          → v.store ≡ w.store
          → add_user row v.store ≡ some t
          → (add_user row w.store ≡ some t)
            × (t ≡ record w.store { users = w.store.users ++ row ∷ [] })
      added row v t same e =
          let there : add_user row w.store ≡ some t = rw (sym same) e in
          (there, add_user_inv row w.store t there)

-- ===== src/Oidc/UserAdmin/Laws.antt =====
-- The accounts under any series of requests, each of them run to its end.
use griya_maya.Base.{
  ℕ, ◌≤◌, ◌≡◌, refl, sym, Bool, true, not, keep, length, leb, Option, none, some, arith, inl, inr,
  Bool-cases, is_empty,
}
use griya_maya.Text.{Str, str_eq}
use griya_maya.Effect.{World, Exec, Result, ok, err, query, exec, exec_checked, continue}
use griya_maya.Effect.Laws.{Post, Post-query, Post-exec, Post-exec_checked, Post-seq}
use griya_maya.Oidc.Reply.{Reply, Handler, on_result, require}
use griya_maya.Oidc.Reply.Laws.{on-Post, with_some-Post, require-Post}
use griya_maya.Oidc.Users.{
  UserRow, AdminUser, Directory, Passwords, Fresh, first_user, user_by_email, user_by_id,
  user_count, hash_password, create_user, write_user, update_user, delete_user, new_row, add_user,
  edit_user, edited,
}
use griya_maya.Oidc.Users.Laws.{IsSound, add_user-IsSound, edit_user-IsSound, delete_user-IsSound}
use griya_maya.Oidc.UserAdmin.{
  valid_email, CreateUserRequest, UpdateUserRequest, delete, create, update, store_new,
  save_changes, check_collision, email_or, normal_email, bool_or, conflict, taken_by_other,
}

abbrev pub Sound : Directory → Type 0
Sound s = IsSound valid_email s

-- what a computation leaves is sound, whatever it answers
abbrev pub Leaves : {A : Type 0} → Result A × World Directory → Type 0
Leaves r = Post (λ _ w. Sound w.store) (λ _ w. Sound w.store) r

unfoldable pub Answered : {B : Type 0} → Reply B × World Directory → Type 0
Answered r = Sound r.1.store

-- an answer at once
pub stays : {B : Type 0} (r : Reply B) (w : World Directory) → Sound w.store → Answered (r, w)
unfolding Answered
stays r w h = h

pub answered : {B : Type 0} (r : Reply B × World Directory) → Answered r → Sound r.1.store
unfolding Answered
answered r h = h

pub store-Leaves : {A : Type 0} (r : Result A × World Directory) → Leaves r → Sound r.1.store
store-Leaves (ok a, w) h = h
store-Leaves (err e, w) h = h

-- a query leaves the accounts as they were
pub read-Leaves :
    {A : Type 0} (f : Directory → A) (w : World Directory)
    → Sound w.store
    → Post (λ a v. (a ≡ f w.store) × (v.store ≡ w.store)) (λ _ v. Sound v.store) (query f w)
read-Leaves f w h =
    Post-query (λ a v. (a ≡ f w.store) × (v.store ≡ w.store)) (λ _ v. Sound v.store) f w
      (λ os. (refl, refl)) (λ os. h)

module _ {A B : Type 0} where
  pub seq-Leaves :
      (r : Result A × World Directory) (f : A → Exec Directory B)
      → Leaves r
      → ((a : A) (w : World Directory) → Sound w.store → Leaves (f a w))
      → Leaves (continue r f)
  seq-Leaves r f h rest =
      Post-seq (λ _ w. Sound w.store) (λ _ w. Sound w.store) (λ _ w. Sound w.store) r f h rest

  pub on-Answered :
      (failed : Reply B) (f : A → Handler Directory B) (r : Result A × World Directory)
      → Leaves r
      → ((a : A) (w : World Directory) → Sound w.store → Answered (f a w))
      → Answered (on_result failed f r)
  on-Answered failed f r h rest =
      on-Post Answered (λ _ w. Sound w.store) (λ _ w. Sound w.store) failed f r h rest
        (λ e w h. stays failed w h)

pub query-Leaves :
    {A : Type 0} (f : Directory → A) (w : World Directory) → Sound w.store → Leaves (query f w)
query-Leaves f w h =
    Post-query (λ _ w. Sound w.store) (λ _ w. Sound w.store) f w (λ os. h) (λ os. h)

module _ (ps : Passwords) where
  pub hash_password-Leaves :
      (password : Str) (salt : Option Str) (w : World Directory)
      → Sound w.store
      → Leaves (hash_password ps password salt w)
  unfolding hash_password
  hash_password-Leaves password none w h = h
  hash_password-Leaves password (some salt) w h = h

  pub create_user-Leaves :
      (email name password : Str) (verified : Bool) (d : Fresh) (w : World Directory)
      → valid_email email ≡ true
      → Sound w.store
      → Leaves (create_user ps email name password verified d w)
  unfolding create_user
  create_user-Leaves email name password verified d w v h =
      seq-Leaves (hash_password ps password d.salt w) _ (hash_password-Leaves password d.salt w h)
        λ hash w h.
          let row = new_row email hash name verified d in
          seq-Leaves (exec_checked (add_user row) w) _
            (Post-exec_checked (λ _ w. Sound w.store) (λ _ w. Sound w.store) (add_user row) w
              (λ s e os. add_user-IsSound valid_email row w.store s e v h)
              (λ s e os. add_user-IsSound valid_email row w.store s e v h) (λ os. h))
            λ _ w h. h

  edit-Leaves :
      (id email : Str) (change : UserRow → UserRow) (w : World Directory)
      → ((u : UserRow) → (change u).id ≡ u.id)
      → ((u : UserRow) → (change u).email ≡ email)
      → valid_email email ≡ true
      → Sound w.store
      → Leaves (exec_checked (edit_user id email change) w)
  edit-Leaves id email change w keeps sets v h =
      Post-exec_checked (λ _ w. Sound w.store) (λ _ w. Sound w.store) (edit_user id email change) w
        (λ s e os. edit_user-IsSound valid_email id email change w.store s e keeps sets v h)
        (λ s e os. edit_user-IsSound valid_email id email change w.store s e keeps sets v h)
        (λ os. h)

  write_user-Leaves :
      (id email name : Str) (verified : Bool) (password : Str) (d : Fresh) (w : World Directory)
      → valid_email email ≡ true
      → Sound w.store
      → Leaves (write_user ps id email name verified password d w)
  unfolding write_user
  write_user-Leaves id email name verified password d w v h =
      elim (Bool-cases (is_empty password)) [
        | inl e ↦
            rw e
              (edit-Leaves id email (edited email name verified none) w (λ u. refl) (λ u. refl) v h)
        | inr e ↦ rw e (
            seq-Leaves (hash_password ps password d.salt w) _
              (hash_password-Leaves password d.salt w h)
              λ hash w h.
                edit-Leaves id email (edited email name verified (some hash)) w (λ u. refl)
                  (λ u. refl) v h)
      ]

  update_user-Leaves :
      (id email name : Str) (verified : Bool) (password : Str) (d : Fresh) (w : World Directory)
      → valid_email email ≡ true
      → Sound w.store
      → Leaves (update_user ps id email name verified password d w)
  unfolding update_user user_by_id
  update_user-Leaves id email name verified password d w v h =
      seq-Leaves (write_user ps id email name verified password d w) _
        (write_user-Leaves id email name verified password d w v h)
        λ _ w h.
          seq-Leaves (query (first_user λ u. str_eq u.id id) w) _
            (query-Leaves (first_user λ u. str_eq u.id id) w h) λ _ w h. h

  store_new-Answered :
      (email name password : Str) (verified : Bool) (d : Fresh) (w : World Directory)
      → valid_email email ≡ true
      → Sound w.store
      → Answered (store_new ps email name password verified d w)
  store_new-Answered email name password verified d w v h =
      on-Answered _ _ (create_user ps email name password verified d w)
        (create_user-Leaves email name password verified d w v h) (λ rec w h. stays _ w h)

  pub create-Answered :
      (body : Option CreateUserRequest) (d : Fresh) (w : World Directory)
      → Sound w.store
      → Answered (create ps body d w)
  unfolding create user_by_email
  create-Answered body d w h =
      with_some-Post Answered body _ _ w
        (λ req here.
          let email = normal_email req.email in
          require-Post Answered (valid_email email) _ _ w
            (λ v.
              require-Post Answered _ _ _ w
                (λ _.
                  on-Answered _ _ (query (first_user λ u. str_eq u.email email) w)
                    (query-Leaves (first_user λ u. str_eq u.email email) w h)
                    (λ existing w h.
                      require-Post Answered _ _ _ w
                        (λ _.
                          store_new-Answered email req.name req.password
                            (bool_or req.email_verified true) d w v h)
                        (λ _. stays _ w h)))
                (λ _. stays _ w h))
            (λ _. stays _ w h))
        (λ _. stays _ w h)

  check_collision-Answered :
      (id : Str) (current : AdminUser) (email : Str) (req : UpdateUserRequest) (d : Fresh)
      (w : World Directory)
      → valid_email email ≡ true
      → Sound w.store
      → Answered (check_collision ps id current email req d w)
  unfolding user_by_email
  check_collision-Answered id current email req d w v h =
      elim_read (query (first_user λ u. str_eq u.email email) w)
        (query-Leaves (first_user λ u. str_eq u.email email) w h)
    where
      elim_read :
          (r : Result (Option AdminUser) × World Directory)
          → Leaves r
          → Answered (
              require
                (not (taken_by_other id r.0))
                conflict
                (save_changes ps id current email req d)
                r.1)
      elim_read r h =
          require-Post Answered _ _ _ r.1 (λ _. saved r.1 (store-Leaves r h))
            (λ _. stays _ r.1 (store-Leaves r h))
        where
          saved :
              (w : World Directory)
              → Sound w.store
              → Answered (save_changes ps id current email req d w)
          saved w h =
              on-Answered _ _ _ (update_user-Leaves id email _ _ req.password d w v h)
                (λ rec w h. stays _ w h)

  pub update-Answered :
      (id : Str) (body : Option UpdateUserRequest) (d : Fresh) (w : World Directory)
      → Sound w.store
      → Answered (update ps id body d w)
  unfolding update user_by_id
  update-Answered id body d w h =
      on-Answered _ _ (query (first_user λ u. str_eq u.id id) w)
        (query-Leaves (first_user λ u. str_eq u.id id) w h)
        λ found w h.
          with_some-Post Answered found _ _ w
            (λ current _.
              with_some-Post Answered body _ _ w
                (λ req _.
                  let email = email_or current.email (normal_email req.email) in
                  require-Post Answered (valid_email email) _ _ w
                    (λ v.
                      require-Post Answered _ _ _ w
                        (λ _. check_collision-Answered id current email req d w v h)
                        (λ _. stays _ w h))
                    (λ _. stays _ w h))
                (λ _. stays _ w h))
            (λ _. stays _ w h)

pub delete-Answered : (id : Str) (w : World Directory) → Sound w.store → Answered (delete id w)
unfolding delete user_by_id user_count delete_user
delete-Answered id w h =
    on-Answered _ _ (query (first_user λ u. str_eq u.id id) w)
      (query-Leaves (first_user λ u. str_eq u.id id) w h)
      λ found w h.
        with_some-Post Answered found _ _ w
          (λ user _.
            on-Post Answered (λ n v. (n ≡ length w.store.users) × (v.store ≡ w.store))
              (λ _ v. Sound v.store) _ _ (query (λ s. length s.users) w)
              (read-Leaves (λ s. length s.users) w h)
              (λ n v (counted, same).
                require-Post Answered (not (leb n 1)) _ _ v
                  (λ several.
                    on-Answered _ _ (exec (without id) v)
                      (removed v (rw (same, sym counted) (omega_two n several)) (rw same h))
                      (λ _ w h. stays _ w h))
                  (λ _. stays _ v (rw same h)))
              (λ e v h. stays _ v h))
          (λ _. stays _ w h)
  where
    omega_two : (n : ℕ) → not (leb n 1) ≡ true → 2 ≤ n
    omega_two n h = ground arith

    without : Str → Directory → Directory
    without id s = record s { users = keep (λ u. not (str_eq u.id id)) s.users }

    removed :
        (v : World Directory)
        → 2 ≤ length v.store.users
        → Sound v.store
        → Leaves (exec (without id) v)
    removed v two h =
        let gone = delete_user-IsSound valid_email id v.store two h in
        Post-exec (λ _ w. Sound w.store) (λ _ w. Sound w.store) (without id) v (λ os. gone)
          (λ os. h) (λ os. gone)

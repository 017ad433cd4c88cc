-- ===== src/Oidc/UserAdmin/Creation.antt =====
-- What the management answers for an account that it has created.
use griya_maya.Base.{
  ℕ, ◌≡◌, refl, ap, subst, ◌∙◌, Bool, true, false, not, ◌&&◌, ◌==◌, ◌||◌, List, [], ◌∷◌, ◌++◌, map,
  keep, any, ltb, none, some, arith,
}
use griya_maya.Text.{Str, str_eq}
use griya_maya.Text.Laws.{str_eq_refl}
use griya_maya.Effect.{World, Outcome, query, call}
use griya_maya.Effect.Laws.{world}
use griya_maya.Repo.Reads.{first}
use griya_maya.Oidc.Reply.{Reply, respond_data, respond_err, on_result, with_some}
use griya_maya.Oidc.Reply.Laws.{on-Post, on_query-Post, require-Post}
use griya_maya.Oidc.Users.{
  UserRow, UserRecord, Directory, Passwords, Fresh, admin_user_from_row, first_user, user_by_email,
  user_by_id, list_users, insert_newest, newest_first, AdminUser, to_record, create_user, new_row,
  record_of,
}
use griya_maya.Oidc.Users.Created.{Created, create_user-Created, first_append, free_of_add}
use griya_maya.Oidc.UserAdmin.{
  CreateUserRequest, valid_email, byte_length, normal_email, bool_or, create, get, list,
}

module _ (ps : Passwords) (req : CreateUserRequest) (d : Fresh) (s : Directory) where
  unfoldable Creates : Reply UserRecord × World Directory → Type 0
  Creates r =
      (rec : UserRecord)
      → r.0 ≡ respond_data 201 rec
      → Created ps (normal_email req.email) req.name req.password (bool_or req.email_verified true)
          d s rec r.1.store

  refused-Creates :
      (status : ℕ) (code : Str) (w : World Directory) → Creates (respond_err status code, w)
  unfolding Creates
  refused-Creates status code w rec e = absurd cc

  create-Created :
      (os : List Outcome) (rec : UserRecord)
      → (create ps (some req) d (world s os)).0 ≡ respond_data 201 rec
      → Created ps
          (normal_email req.email)
          req.name
          req.password
          (bool_or req.email_verified true)
          d
          s
          rec
          (create ps (some req) d (world s os)).1.store
  unfolding create with_some Creates user_by_email
  create-Created os rec =
      let email = normal_email req.email in
      let verified = bool_or req.email_verified true in
      let w : World Directory = world s os in
      require-Post Creates (valid_email email) _ _ w
        (λ _.
          require-Post Creates (not (ltb (byte_length req.password) 8)) _ _ w
            (λ _.
              on_query-Post Creates _ (first_user λ u. str_eq u.email email) _ w
                (λ v same.
                  require-Post Creates _ _ _ v
                    (λ _.
                      on-Post Creates
                        (λ rec u.
                          Created ps email req.name req.password verified d v.store rec u.store)
                        (λ e u. Unit) _ _ (create_user ps email req.name req.password verified d v)
                        (create_user-Created ps email req.name req.password verified d v)
                        (λ rec u made rec' e.
                          let answer : rec ≡ rec' = ground arith in
                          subst (λ r. Created ps email req.name req.password verified d s r u.store)
                            answer
                            (subst
                              (λ t. Created ps email req.name req.password verified d t rec u.store)
                              same made))
                        (λ e u _. refused-Creates _ _ u))
                    (λ _. refused-Creates _ _ v))
                (λ v same. refused-Creates _ _ v))
            (λ _. refused-Creates _ _ w))
        (λ _. refused-Creates _ _ w) rec

any-insert_newest :
    (q : UserRow → Bool) (u : UserRow) (us : List UserRow)
    → any q (insert_newest (λ u. u.created_at) u us) ≡ (q u || any q us)
unfolding insert_newest
any-insert_newest q u [] = refl
any-insert_newest q u (v ∷ us) = ground (arith, any-insert_newest q u us)

any-newest_first :
    (q : UserRow → Bool) (us : List UserRow)
    → any q (newest_first (λ u. u.created_at) us) ≡ any q us
unfolding newest_first
any-newest_first q [] = refl
any-newest_first q (u ∷ us) =
    any-insert_newest q u (newest_first (λ u. u.created_at) us)
    ∙ ap (λ b. q u || b) (any-newest_first q us)

any-map :
    (q : UserRecord → Bool) (us : List UserRow)
    → any q (map record_of us) ≡ any (λ u. q (record_of u)) us
any-map q [] = refl
any-map q (u ∷ us) = ap (λ b. q (record_of u) || b) (any-map q us)

any-last :
    (q : UserRow → Bool) (us : List UserRow) (row : UserRow)
    → q row ≡ true
    → any q (us ++ row ∷ []) ≡ true
any-last q [] row h = ground arith
any-last q (u ∷ us) row h = ground (arith, any-last q us row h)

any-first :
    (p : UserRow → Bool) (us : List UserRow)
    → any p us ≡ false
    → first (map admin_user_from_row (keep p us)) ≡ none
any-first p [] h = refl
any-first p (u ∷ us) h =
    let other : p u ≡ false = ground arith in rw other (any-first p us (ground arith))

module _ (t : Directory) where
  get-found :
      (id : Str) (u : AdminUser)
      → first_user (λ v. str_eq v.id id) t ≡ some u
      → (get id (world t [])).0 ≡ respond_data 200 (to_record u)
  unfolding get user_by_id query call on_result with_some
  get-found id u found = rw found refl

  list_rows :
      (list (world t [])).0
      ≡ respond_data 200 (map record_of (newest_first (λ u. u.created_at) t.users))
  unfolding list list_users query call on_result
  list_rows = refl

abbrev pub same_account : UserRecord → UserRecord → Bool
same_account rec r =
    str_eq r.id rec.id && str_eq r.email rec.email && r.created_at == rec.created_at

-- After a creation that was answered by 201, whatever its calls came to, and with no failure after
-- it, the list of the accounts has the account of the answer with the time of its creation, and Get
-- answers it with 0 in the place of that time.
pub get-created :
    (ps : Passwords) (req : CreateUserRequest) (d : Fresh) (s : Directory) (os : List Outcome)
    (rec : UserRecord)
    → (create ps (some req) d (world s os)).0 ≡ respond_data 201 rec
    → ((get rec.id (world (create ps (some req) d (world s os)).1.store [])).0
        ≡ respond_data 200 (record rec { created_at = 0 }))
      × ((rows : List UserRecord) × ((list
              (world (create ps (some req) d (world s os)).1.store [])).0
            ≡ respond_data 200 rows)
          × (any (same_account rec) rows ≡ true))
get-created ps req d s os rec answer =
    let (salt, _, passed, made, is_rec) = create-Created ps req d s os rec answer in
    let row =
      new_row (normal_email req.email) (ps.hash req.password salt) req.name
        (bool_or req.email_verified true) d in
    let t = (create ps (some req) d (world s os)).1.store in
    let ident : rec.id ≡ d.id = ap (λ r. r.id) is_rec in
    let fresh : any (λ u. str_eq u.id d.id) s.users ≡ false =
      no_id row s.users (free_of_add row s t passed) in
    let found : first_user (λ u. str_eq u.id d.id) t ≡ some (admin_user_from_row row) =
      ap (first_user λ u. str_eq u.id d.id) made
      ∙ first_append (λ u. str_eq u.id d.id) s.users row (any-first _ s.users fresh)
          (str_eq_refl d.id) in
    let listed : any (λ u. same_account rec (record_of u)) t.users ≡ true =
      ap (λ v. any (λ u. same_account rec (record_of u)) v.users) made
      ∙ any-last (λ u. same_account rec (record_of u)) s.users row
          (rw is_rec (same_self (record_of row))) in
    (
      rw is_rec (get-found t d.id (admin_user_from_row row) found),
      (
        map record_of (newest_first (λ u. u.created_at) t.users),
        list_rows t,
        any-map (same_account rec) (newest_first (λ u. u.created_at) t.users)
            ∙ any-newest_first (λ u. same_account rec (record_of u)) t.users
            ∙ listed,
      ),
    )
  where
    same_self : (r : UserRecord) → same_account r r ≡ true
    same_self r = rw (str_eq_refl r.id, str_eq_refl r.email) (ground arith)

    no_id :
        (row : UserRow) (us : List UserRow)
        → any (λ u. str_eq u.id row.id || str_eq u.email row.email) us ≡ false
        → any (λ u. str_eq u.id row.id) us ≡ false
    no_id row [] h = refl
    no_id row (u ∷ us) h = ground (arith, no_id row us)

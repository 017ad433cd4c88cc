-- ===== src/Oidc/Registration/Admission.antt =====
-- Whom a registration lets in, whatever its calls come to.
use griya_maya.Base.{
  ℕ, ◌⊎◌, map, ◌≡◌, refl, sym, ap, subst, ◌∙◌, Bool, true, false, not, List, [], ◌∷◌, ◌++◌, ltb,
  is_empty, Option, none, some, arith, inl, inr, Bool-cases,
}
use griya_maya.Text.{Str, str_eq, trim_space}
use griya_maya.Effect.{World, Outcome, Result, ok, err, query, exec}
use griya_maya.Effect.Laws.{Post, Post-exec, world}
use griya_maya.Oidc.Store.{unix}
use griya_maya.Oidc.Reply.{Reply, respond_data, respond_err, Handler, on_result, require, with_some}
use griya_maya.Oidc.Reply.Laws.{on-Post, on_query-Post, require-Post}
use griya_maya.Oidc.Users.{
  UserRow, UserRecord, Directory, Passwords, Fresh, first_user, user_by_email, create_user, new_row,
  record_of, add_user,
}
use griya_maya.Oidc.Users.Created.{Created, create_user-Created}
use griya_maya.Oidc.UserAdmin.{valid_email, byte_length, normal_email, is_none, internal_error}
use griya_maya.Oidc.Registration.{
  RegisterRequest, Times, first_invite, invite_by_code, validate_invite, check_code, redeem_code,
  consumed, open_account, register, consume_invite, invite_invalid,
}

-- the account `rec` that the request `req` may open in the directory `s`, which becomes `t`
module _ (ps : Passwords) (req : RegisterRequest) (at : Times) (d : Fresh) (s : Directory) where
  abbrev pub opened_row : Str → UserRow
  opened_row salt =
      new_row (normal_email req.email) (ps.hash req.password salt) req.name
        (not (is_empty (trim_space req.code))) d

  abbrev pub Admitted : UserRecord → Directory → Type 0
  Admitted rec t =
      (rec.email ≡ normal_email req.email)
      × (valid_email rec.email ≡ true)
      × (ltb (byte_length req.password) 8 ≡ false)
      × (first_user (λ u. str_eq u.email rec.email) s ≡ none)
      × ((rec.email_verified ≡ false)
          ⊎ (validate_invite (first_invite (trim_space req.code) s) rec.email (unix at.validated)
              ≡ none))
      × (rec.email_verified ≡ not (is_empty (trim_space req.code)))
      × ((salt : Str) × (d.salt ≡ some salt)
          × (add_user (opened_row salt) s
              ≡ some (record s { users = s.users ++ opened_row salt ∷ [] }))
          × (t.users ≡ s.users ++ opened_row salt ∷ [])
          × (rec ≡ record_of (opened_row salt)))

  unfoldable Admits : Reply UserRecord × World Directory → Type 0
  Admits r = (rec : UserRecord) → r.0 ≡ respond_data 201 rec → Admitted rec r.1.store

  refused-Admits :
      (status : ℕ) (code : Str) (w : World Directory) → Admits (respond_err status code, w)
  unfolding Admits
  refused-Admits status code w rec e = absurd cc

pub redeem_code_users :
    (code used_by : Str) (now : ℕ) (w : World Directory)
    → Post (λ _ v. v.store.users ≡ w.store.users) (λ e v. ⊥) (redeem_code code used_by now w)
unfolding consume_invite
redeem_code_users code used_by now w = elim (Bool-cases (is_empty code)) [
  | inl e ↦ rw e refl
  | inr e ↦ rw e (
      tried (exec (marked code used_by now) w) (
        Post-exec (λ _ v. v.store.users ≡ w.store.users) (λ _ v. v.store.users ≡ w.store.users)
          (marked code used_by now) w (λ os. refl) (λ os. refl) (λ os. refl)))
]
  where
    marked : Str → Str → ℕ → Directory → Directory
    marked code used_by now s = record s { invites = map (consumed code used_by now) s.invites }

    tried :
        (r : Result (Unit {0}) × World Directory)
        → Post (λ _ v. v.store.users ≡ w.store.users) (λ _ v. v.store.users ≡ w.store.users) r
        → r.1.store.users ≡ w.store.users
    tried (ok a, v) h = h
    tried (err e, v) h = h

none_of : {A : Type 0} (o : Option A) → is_none o ≡ true → o ≡ none
none_of none h = refl
none_of (some a) h = absurd cc

module _ (code email : Str) (now : ℕ) (rest : Bool → Handler Directory UserRecord)
    (w : World Directory) where
  check_code_absent : is_empty code ≡ true → check_code code email now rest w ≡ rest false w
  check_code_absent e = rw e refl

  check_code_present :
      is_empty code ≡ false
      → check_code code email now rest w
        ≡ on_result internal_error
            (λ inv.
              require (is_none (validate_invite inv email (unix now))) invite_invalid (rest true))
            (query (first_invite code) w)
  unfolding invite_by_code
  check_code_present e = rw e refl

module _ (ps : Passwords) (req : RegisterRequest) (at : Times) (d : Fresh) (s : Directory) where
  opened-Admits :
      (verified : Bool) (w : World Directory)
      → w.store ≡ s
      → valid_email (normal_email req.email) ≡ true
      → ltb (byte_length req.password) 8 ≡ false
      → verified ≡ not (is_empty (trim_space req.code))
      → (verified ≡ false)
        ⊎ (validate_invite
              (first_invite (trim_space req.code) s)
              (normal_email req.email)
              (unix at.validated)
            ≡ none)
      → Admits ps req at d s
          (open_account ps req (trim_space req.code) (normal_email req.email) d at verified w)
  unfolding user_by_email Admits
  opened-Admits verified w here valid long is_given checked =
      let email = normal_email req.email in
      let code = trim_space req.code in
      on_query-Post (Admits ps req at d s) _ (first_user λ u. str_eq u.email email) _ w
        (λ v same.
          require-Post (Admits ps req at d s) _ _ _ v
            (λ free.
              on-Post (Admits ps req at d s)
                (λ rec u. Created ps email req.name req.password verified d v.store rec u.store)
                (λ e u. Unit) _ _ (create_user ps email req.name req.password verified d v)
                (create_user-Created ps email req.name req.password verified d v)
                (λ rec u (salt, salted, passed, made, is_rec).
                  on-Post (Admits ps req at d s) (λ _ x. x.store.users ≡ u.store.users) (λ e x. ⊥) _
                    _ (redeem_code code rec.id at.used u) (redeem_code_users code rec.id at.used u)
                    (λ _ x kept rec' e.
                      let answer : rec ≡ rec' = ground arith in
                      rw (sym answer, is_rec, sym is_given)
                        (
                          refl,
                          valid,
                          long,
                          free_at v.store (same ∙ here) w here free,
                          checked,
                          refl,
                          (
                            salt,
                            salted,
                            rw (sym (same ∙ here)) (passed ∙ ap some made),
                            kept ∙ rw (made, same, here) refl,
                            refl,
                          ),
                        ))
                    (λ e x no. absurd no))
                (λ e u _. refused-Admits ps req at d s _ _ u))
            (λ _. refused-Admits ps req at d s _ _ v))
        (λ v same. refused-Admits ps req at d s _ _ v)
    where
      free_at :
          (t : Directory)
          → t ≡ s
          → (w : World Directory) → w.store ≡ s
          → is_none (first_user (λ u. str_eq u.email (normal_email req.email)) w.store) ≡ true
          → first_user (λ u. str_eq u.email (normal_email req.email)) s ≡ none
      free_at t e w here free =
          let at_s : is_none (first_user (λ u. str_eq u.email (normal_email req.email)) s) ≡ true =
            rw (sym here) free in
          ground arith

  abbrev opens : Bool → Handler Directory UserRecord
  opens = open_account ps req (trim_space req.code) (normal_email req.email) d at

  coded-Admits :
      (os : List Outcome)
      → valid_email (normal_email req.email) ≡ true
      → ltb (byte_length req.password) 8 ≡ false
      → Admits ps req at d s (
          check_code
            (trim_space req.code)
            (normal_email req.email)
            at.validated
            (open_account ps req (trim_space req.code) (normal_email req.email) d at)
            (world s os))
  coded-Admits os valid long = elim (Bool-cases (is_empty (trim_space req.code))) [
    | inl e ↦
        subst (Admits ps req at d s)
          (sym (
            check_code_absent (trim_space req.code) (normal_email req.email) at.validated opens
              (world s os) e))
          (opened-Admits false (world s os) refl valid long (rw e refl) (inl refl))
    | inr e ↦
        subst (Admits ps req at d s)
          (sym (
            check_code_present (trim_space req.code) (normal_email req.email) at.validated opens
              (world s os) e))
          (on_query-Post (Admits ps req at d s) _ (first_invite (trim_space req.code)) _
            (world s os)
            (λ v same.
              require-Post (Admits ps req at d s) _ _ _ v
                (λ good. opened-Admits true v same valid long (rw e refl) (inr (none_of _ good)))
                (λ _. refused-Admits ps req at d s _ _ v))
            (λ v same. refused-Admits ps req at d s _ _ v))
  ]

  pub register-Admitted :
      (os : List Outcome) (rec : UserRecord)
      → (register ps (some req) d at (world s os)).0 ≡ respond_data 201 rec
      → Admitted ps req at d s rec (register ps (some req) d at (world s os)).1.store
  unfolding register Admits invite_by_code with_some
  register-Admitted os rec =
      let email = normal_email req.email in
      let w : World Directory = world s os in
      require-Post (Admits ps req at d s) (valid_email email) _ _ w
        (λ valid.
          require-Post (Admits ps req at d s) (not (ltb (byte_length req.password) 8)) _ _ w
            (λ long. coded-Admits os valid (ground arith))
            (λ _. refused-Admits ps req at d s _ _ w))
        (λ _. refused-Admits ps req at d s _ _ w) rec

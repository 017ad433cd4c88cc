-- ===== src/Oidc/Registration/Laws.antt =====
-- The accounts and invites under any series of requests.
use griya_maya.Base.{
  ℕ, ◌≡◌, sym, Bool, true, false, not, List, [], ◌∷◌, ◌++◌, map, keep, any, if◌then◌else◌, ◌||◌,
  length, ltb, Option, some, arith, inl, inr, Bool-cases, is_empty,
}
use griya_maya.Base.Int.{ℤ}
use griya_maya.Text.{Str, str_eq, trim_space}
use griya_maya.Effect.{World, Result, ok, err, query, exec, exec_checked, pure, continue}
use griya_maya.Effect.Laws.{Post, Post-exec, Post-exec_checked}
use griya_maya.Oidc.Reply.{Handler}
use griya_maya.Oidc.Reply.Laws.{with_some-Post, require-Post}
use griya_maya.Oidc.Users.{
  UserRecord, Directory, Passwords, Fresh, first_user, user_by_email, user_count, seed_row,
  seed_admin, InviteRow, UserRow,
}
use griya_maya.Oidc.UserAdmin.{valid_email, normal_email}
use griya_maya.Oidc.UserAdmin.Laws.{
  Sound, Leaves, Answered, stays, seq-Leaves, on-Answered, query-Leaves, create_user-Leaves,
  store-Leaves, read-Leaves,
}
use griya_maya.Oidc.Registration.{
  RegisterRequest, Times, InviteBody, first_invite, invite_by_code, consumed, consume_invite,
  check_code, redeem_code, open_account, register, create_invite, delete_invite_handler,
  invite_request, new_invite, store_invite, add_invite, delete_invite,
}

module _ (ps : Passwords) where
  redeem_code-Leaves :
      (code used_by : Str) (now : ℕ) (w : World Directory)
      → Sound w.store
      → Leaves (redeem_code code used_by now w)
  unfolding consume_invite
  redeem_code-Leaves code used_by now w h = elim (Bool-cases (is_empty code)) [
    | inl e ↦ rw e h
    | inr e ↦ rw e (
        store-Leaves (exec (marked code used_by now) w) (
          Post-exec (λ _ w. Sound w.store) (λ _ w. Sound w.store) (marked code used_by now) w
            (λ os. h) (λ os. h) (λ os. h)))
  ]
    where
      marked : Str → Str → ℕ → Directory → Directory
      marked code used_by now s = record s { invites = map (consumed code used_by now) s.invites }

  open_account-Answered :
      (req : RegisterRequest) (code email : Str) (d : Fresh) (at : Times) (verified : Bool)
      (w : World Directory)
      → valid_email email ≡ true
      → Sound w.store
      → Answered (open_account ps req code email d at verified w)
  unfolding user_by_email
  open_account-Answered req code email d at verified w v h =
      on-Answered _ _ (query (first_user λ u. str_eq u.email email) w)
        (query-Leaves (first_user λ u. str_eq u.email email) w h)
        λ existing w h.
          require-Post Answered _ _ _ w
            (λ _.
              on-Answered _ _ _ (create_user-Leaves ps email req.name req.password verified d w v h)
                λ rec w h.
                  on-Answered _ _ _ (redeem_code-Leaves code rec.id at.used w h)
                    λ _ w h. stays _ w h)
            (λ _. stays _ w h)

  check_code-Answered :
      (code email : Str) (now : ℕ) (rest : Bool → Handler Directory UserRecord)
      (w : World Directory)
      → ((b : Bool) (w : World Directory) → Sound w.store → Answered (rest b w))
      → Sound w.store
      → Answered (check_code code email now rest w)
  unfolding invite_by_code
  check_code-Answered code email now rest w go h = elim (Bool-cases (is_empty code)) [
    | inl e ↦ rw e (go false w h)
    | inr e ↦ rw e (
        on-Answered _ _ (query (first_invite code) w) (query-Leaves (first_invite code) w h)
          λ inv w h. require-Post Answered _ _ _ w (λ _. go true w h) (λ _. stays _ w h))
  ]

  pub register-Answered :
      (body : Option RegisterRequest) (d : Fresh) (at : Times) (w : World Directory)
      → Sound w.store
      → Answered (register ps body d at w)
  unfolding register
  register-Answered body d at w h =
      with_some-Post Answered body _ _ w
        (λ req _.
          let email = normal_email req.email in
          require-Post Answered (valid_email email) _ _ w
            (λ v.
              require-Post Answered _ _ _ w
                (λ _.
                  check_code-Answered (trim_space req.code) email at.validated _ w
                    (λ b w h. open_account-Answered req (trim_space req.code) email d at b w v h) h)
                (λ _. stays _ w h))
            (λ _. stays _ w h))
        (λ _. stays _ w h)

store_invite-Leaves :
    (email note : Str) (expires_at : ℤ) (code : Str) (now : ℕ) (w : World Directory)
    → Sound w.store
    → Leaves (store_invite email note expires_at code now w)
unfolding store_invite
store_invite-Leaves email note expires_at code now w h =
    seq-Leaves (exec_checked (add_invite row) w) _
      (Post-exec_checked (λ _ w. Sound w.store) (λ _ w. Sound w.store) (add_invite row) w
        (λ s e os. kept s e) (λ s e os. kept s e) (λ os. h))
      λ _ w h. h
  where
    row : InviteRow
    row = new_invite email note expires_at code now

    kept : (s : Directory) → add_invite row w.store ≡ some s → Sound s
    kept s e = elim (Bool-cases (any (λ i. str_eq i.code row.code) w.store.invites)) [
      | inl taken ↦ absurd (ground arith)
      | inr new ↦
          let at : record w.store { invites = w.store.invites ++ row ∷ [] } ≡ s = ground arith in
          rw (sym at) h
    ]

pub create_invite-Answered :
    (body : InviteBody) (code : Str) (now : ℕ) (w : World Directory)
    → Sound w.store
    → Answered (create_invite body code now w)
unfolding create_invite
create_invite-Answered body code now w h =
    with_some-Post Answered (invite_request body) _ _ w
      (λ req _.
        require-Post Answered _ _ _ w
          (λ _.
            on-Answered _ _ _
              (store_invite-Leaves (normal_email req.email) req.note req.expires_at code now w h)
              λ rec w h. stays _ w h)
          (λ _. stays _ w h))
      (λ _. stays _ w h)

pub delete_invite-Answered :
    (code : Str) (w : World Directory) → Sound w.store → Answered (delete_invite_handler code w)
unfolding delete_invite_handler invite_by_code delete_invite
delete_invite-Answered code w h =
    on-Answered _ _ (query (first_invite code) w) (query-Leaves (first_invite code) w h)
      λ found w h.
        with_some-Post Answered found _ _ w
          (λ inv _.
            on-Answered _ _ (exec (without code) w)
              (Post-exec (λ _ w. Sound w.store) (λ _ w. Sound w.store) (without code) w (λ os. h)
                (λ os. h) (λ os. h))
              λ _ w h. stays _ w h)
          (λ _. stays _ w h)
  where
    without : Str → Directory → Directory
    without code s = record s { invites = keep (λ i. not (str_eq i.code code)) s.invites }

-- the seed of the next start finds an account
pub seed_admin-Leaves :
    (ps : Passwords) (email password : Str) (d : Fresh) (w : World Directory)
    → Sound w.store
    → Leaves (seed_admin ps email password d w)
unfolding seed_admin user_count
seed_admin-Leaves ps email password d w h =
    elim (Bool-cases (is_empty email || is_empty password)) [
      | inl e ↦ rw e h
      | inr e ↦
          rw e (counted (query (λ s. length s.users) w) (read-Leaves (λ s. length s.users) w h))
    ]
  where
    positive : (us : List UserRow) → is_empty us ≡ false → ltb 0 (length us) ≡ true
    positive [] h = absurd cc
    positive (u ∷ us) h = ground arith

    counted :
        (r : Result ℕ × World Directory)
        → Post (λ n v. (n ≡ length w.store.users) × (v.store ≡ w.store)) (λ _ v. Sound v.store) r
        → Sound
            (continue r (λ n. if ltb 0 n then pure tt else seed_row ps email password d)).1.store
    counted (ok n, v) (many, same) =
        let some_there : ltb 0 n ≡ true = rw many (positive w.store.users h.0) in
        rw (some_there, same) h
    counted (err e, v) left = left

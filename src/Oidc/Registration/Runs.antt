-- ===== src/Oidc/Registration/Runs.antt =====
-- A registration with a code, run with no failing call and with the marking failed, and what the
-- marking of an invite does.
use griya_maya.Base.{
  ℕ, ◌⊎◌, ◌≡◌, refl, ap, subst, ◌∙◌, Bool, true, false, not, ◌&&◌, List, [], ◌∷◌, ◌++◌, map, keep,
  ltb, ◌==◌, is_empty, Option, none, some, arith, inl, inr, Bool-cases,
}
use griya_maya.Text.{Str, str_eq, trim_space}
use griya_maya.Effect.{Outcome, answered, refused, query, exec, exec_checked, call}
use griya_maya.Effect.Laws.{world}
use griya_maya.Repo.Reads.{first}
use griya_maya.Oidc.Store.{unix}
use griya_maya.Oidc.Reply.{respond_data, require, on_result, with_some}
use griya_maya.Oidc.Users.{
  UserRow, InviteRow, UserRecord, Directory, Passwords, Fresh, first_user, user_by_email,
  create_user, new_row, record_of, add_user, hash_password,
}
use griya_maya.Oidc.UserAdmin.{valid_email, byte_length, normal_email}
use griya_maya.Oidc.Registration.{
  RegisterRequest, Times, first_invite, invite_by_code, validate_invite, already_used, consumed,
  consume_invite, register,
}
use griya_maya.Oidc.Registration.Admission.{register-Admitted}

-- the three calls before the marking are answered, and the marking fails
abbrev pub mark_fails : List Outcome
mark_fails = answered ∷ answered ∷ answered ∷ refused ∷ []

module _ (ps : Passwords) (req : RegisterRequest) (at : Times) (s : Directory) (d : Fresh) where
  abbrev pub email_of : Str
  email_of = normal_email req.email

  abbrev pub code_of : Str
  code_of = trim_space req.code

  abbrev pub row_from : Str → UserRow
  row_from salt = new_row email_of (ps.hash req.password salt) req.name true d

  abbrev pub with_row : Str → Directory
  with_row salt = record s { users = s.users ++ row_from salt ∷ [] }

  -- the tests of a registration with a code
  abbrev pub Passes : Str → Type 0
  Passes salt =
      (valid_email email_of ≡ true)
      × (ltb (byte_length req.password) 8 ≡ false)
      × (is_empty code_of ≡ false)
      × (validate_invite (first_invite code_of s) email_of (unix at.validated) ≡ none)
      × (first_user (λ u. str_eq u.email email_of) s ≡ none)
      × (d.salt ≡ some salt)
      × (add_user (row_from salt) s ≡ some (with_row salt))

  abbrev pub marked : Str → Directory
  marked salt = record (with_row salt) { invites = map (consumed code_of d.id at.used) s.invites }

  pub register_runs :
      (salt : Str)
      → Passes salt
      → register ps (some req) d at (world s [])
        ≡ (respond_data 201 (record_of (row_from salt)), world (marked salt) [])
  unfolding register with_some require on_result invite_by_code user_by_email create_user
      hash_password consume_invite query exec exec_checked call
  register_runs salt (valid, long, given, good, free, salted, new) =
      rw (valid, long, given, good, free, salted, new) refl

  pub register_unmarked_runs :
      (salt : Str)
      → Passes salt
      → register ps (some req) d at (world s mark_fails)
        ≡ (respond_data 201 (record_of (row_from salt)), world (with_row salt) [])
  unfolding register with_some require on_result invite_by_code user_by_email create_user
      hash_password consume_invite query exec exec_checked call
  register_unmarked_runs salt (valid, long, given, good, free, salted, new) =
      rw (valid, long, given, good, free, salted, new) refl

pub or_verified : {A : Type 0} (b : Bool) → b ≡ true → (b ≡ false) ⊎ A → A
or_verified b h (inl not_verified) = absurd cc
or_verified b h (inr a) = a

-- a valid registration with a code passes
pub passes :
    (ps : Passwords) (req : RegisterRequest) (at : Times) (s : Directory) (d : Fresh)
    (os : List Outcome) (rec : UserRecord)
    → is_empty (trim_space req.code) ≡ false
    → (register ps (some req) d at (world s os)).0 ≡ respond_data 201 rec
    → (salt : Str) × Passes ps req at s d salt
passes ps req at s d os rec given answer =
    let (mail, valid, long, free, checked, is_given, (salt, salted, new, _, _)) =
      register-Admitted ps req at d s os rec answer in
    let email = normal_email req.email in
    let code = trim_space req.code in
    let verified : rec.email_verified ≡ true = is_given ∙ ap not given in
    let good : validate_invite (first_invite code s) rec.email (unix at.validated) ≡ none =
      or_verified _ verified checked in
    (
      salt,
      (
        subst (λ m. valid_email m ≡ true) mail valid,
        long,
        given,
        subst (λ m. validate_invite (first_invite code s) m (unix at.validated) ≡ none) mail good,
        subst (λ m. first_user (λ u. str_eq u.email m) s ≡ none) mail free,
        salted,
        subst
            (λ b.
              let row = new_row email (ps.hash req.password salt) req.name (not b) d in
              add_user row s ≡ some (record s { users = s.users ++ row ∷ [] }))
            given new,
      ),
    )

module _ {A : Type 0} (p : A → Bool) (x : A) (xs : List A) where
  first_here : p x ≡ true → first (keep p (x ∷ xs)) ≡ some x
  first_here e = rw e refl

  first_later : p x ≡ false → first (keep p (x ∷ xs)) ≡ first (keep p xs)
  first_later e = rw e refl

-- an invite that is found has the code
pub first_has :
    (code : Str) (is : List InviteRow) (inv : InviteRow)
    → first (keep (λ i. str_eq i.code code) is) ≡ some inv
    → str_eq inv.code code ≡ true
first_has code [] inv h = absurd cc
first_has code (i ∷ is) inv h = elim (Bool-cases (str_eq i.code code)) [
  | inl e ↦ ground arith
  | inr e ↦ first_has code is inv (ground arith)
]

module _ (code used_by : Str) (now : ℕ) where
  pub consumed_code : (i : InviteRow) → (consumed code used_by now i).code ≡ i.code
  consumed_code i = elim (Bool-cases (str_eq i.code code && i.used_at == 0)) [
    | inl e ↦ rw e refl
    | inr e ↦ rw e refl
  ]

  -- the invite is found as before, and is marked
  pub first-consumed :
      (is : List InviteRow) (inv : InviteRow)
      → first (keep (λ i. str_eq i.code code) is) ≡ some inv
      → first (keep (λ i. str_eq i.code code) (map (consumed code used_by now) is))
        ≡ some (consumed code used_by now inv)
  first-consumed [] inv h = absurd cc
  first-consumed (i ∷ is) inv h =
      let code_kept : str_eq (consumed code used_by now i).code code ≡ str_eq i.code code =
        ap (λ c. str_eq c code) (consumed_code i) in
      elim (Bool-cases (str_eq i.code code)) [
        | inl e ↦
            let same : i ≡ inv = ground arith in
            first_here (λ j. str_eq j.code code) (consumed code used_by now i)
              (map (consumed code used_by now) is) (code_kept ∙ e)
            ∙ ap (λ j. some (consumed code used_by now j)) same
        | inr e ↦
            first_later (λ j. str_eq j.code code) (consumed code used_by now i)
              (map (consumed code used_by now) is) (code_kept ∙ e)
            ∙ first-consumed is inv (ground arith)
      ]

-- a used invite is not valid, for any address and time
pub used_invalid :
    (inv : InviteRow) (email : Str) (now : ℕ)
    → (inv.used_at == 0) ≡ false
    → validate_invite (some inv) email now ≡ some already_used
unfolding validate_invite
used_invalid inv email now h = rw h refl

-- a valid invite is there and unused
pub valid_inv :
    (o : Option InviteRow) (email : Str) (now : ℕ)
    → validate_invite o email now ≡ none
    → (inv : InviteRow) × (o ≡ some inv) × ((inv.used_at == 0) ≡ true)
unfolding validate_invite
valid_inv none email now h = absurd cc
valid_inv (some inv) email now h = elim (Bool-cases (inv.used_at == 0)) [
  | inl e ↦ (inv, refl, e)
  | inr e ↦ absurd (ground arith)
]

pub consumed_at :
    (code used_by : Str) (now : ℕ) (inv : InviteRow)
    → str_eq inv.code code ≡ true
    → (inv.used_at == 0) ≡ true
    → (consumed code used_by now inv).used_at ≡ unix now
consumed_at code used_by now inv e unused = rw (e, unused) refl

-- ===== src/Oidc/Registration/Invites.antt =====
-- How often one invite is redeemed.
use griya_maya.Base.{
  ◌≡◌, sym, ap, subst, ◌∙◌, true, false, ◌||◌, List, [], ◌==◌, is_empty, none, some, arith,
}
use griya_maya.Text.{str_eq, trim_space}
use griya_maya.Effect.{Outcome}
use griya_maya.Effect.Laws.{world}
use griya_maya.Oidc.Store.{unix}
use griya_maya.Oidc.Reply.{respond_data}
use griya_maya.Oidc.Users.{UserRecord, Directory, Passwords, Fresh, record_of}
use griya_maya.Oidc.Users.Created.{first_append_none, any_append, add_user_free, free_of_add}
use griya_maya.Oidc.UserAdmin.{normal_email}
use griya_maya.Oidc.Registration.{
  RegisterRequest, Times, first_invite, validate_invite, already_used, consumed, register,
}
use griya_maya.Oidc.Registration.Runs.{
  register_runs, register_unmarked_runs, passes, first_has, first-consumed, used_invalid, valid_inv,
  consumed_at, mark_fails, row_from, with_row, marked,
}

module _ (ps : Passwords) (req other : RegisterRequest) (at later : Times) (s : Directory) where
  -- When a registration with a code is answered by 201 and none of its calls fails, a registration
  -- with the same code on the directory that it leaves, with no request between the two, is not
  -- answered by 201, for whatever address and whatever its calls come to, provided that the first is
  -- not marked at the first second of the epoch.
  pub register_once :
      (d d' : Fresh) (os : List Outcome) (rec rec' : UserRecord)
      → is_empty (trim_space req.code) ≡ false
      → trim_space other.code ≡ trim_space req.code
      → (unix at.used == 0) ≡ false
      → (register ps (some req) d at (world s [])).0 ≡ respond_data 201 rec
      → ¬ (
          (register ps
            (some other)
            d'
            later
            (world (register ps (some req) d at (world s [])).1.store os)).0
          ≡ respond_data 201 rec')
  register_once d d' os rec rec' given same late first_answer second_answer =
      let code = trim_space req.code in
      let (salt, good) = passes ps req at s d [] rec given first_answer in
      let (inv, found, unused) = valid_inv (first_invite code s) _ _ good.3 in
      let runs = register_runs ps req at s d salt good in
      let t : Directory = marked ps req at s d salt in
      let second : (register ps (some other) d' later (world t os)).0 ≡ respond_data 201 rec' =
        subst
          (λ r. (register ps (some other) d' later (world r.1.store os)).0 ≡ respond_data 201 rec')
          runs second_answer in
      let (salt', good') = passes ps other later t d' os rec' (ap is_empty same ∙ given) second in
      let here : first_invite code t ≡ some (consumed code d.id at.used inv) =
        first-consumed code d.id at.used s.invites inv found in
      let is_used : ((consumed code d.id at.used inv).used_at == 0) ≡ false =
        ap (λ n. n == 0)
          (consumed_at code d.id at.used inv (first_has code s.invites inv found) unused)
        ∙ late in
      let valid : validate_invite (first_invite code t) (normal_email other.email)
            (unix later.validated)
          ≡ none =
        subst
          (λ c.
            validate_invite (first_invite c t) (normal_email other.email) (unix later.validated)
            ≡ none)
          same good'.3 in
      let clash : some already_used ≡ none =
        sym (used_invalid _ (normal_email other.email) (unix later.validated) is_used)
        ∙ sym (ap (λ o. validate_invite o (normal_email other.email) (unix later.validated)) here)
        ∙ valid in
      absurd cc

  -- When a registration with a code is answered by 201 and the call that marks the invite fails
  -- without effect, its other calls being answered, then a second registration with a code, which may
  -- be the same, for another address, with no request between the two, is answered by 201 and as
  -- verified just as it would have been before the first, none of its calls failing and the
  -- identifiers of the two accounts being different.
  pub register_unmarked :
      (d d' : Fresh) (rec rec' : UserRecord)
      → is_empty (trim_space req.code) ≡ false
      → is_empty (trim_space other.code) ≡ false
      → str_eq (normal_email req.email) (normal_email other.email) ≡ false
      → str_eq d.id d'.id ≡ false
      → (register ps (some req) d at (world s mark_fails)).0 ≡ respond_data 201 rec
      → (register ps (some other) d' later (world s [])).0 ≡ respond_data 201 rec'
      → ((register ps
            (some other)
            d'
            later
            (world (register ps (some req) d at (world s mark_fails)).1.store [])).0
          ≡ respond_data 201 rec')
        × (rec'.email_verified ≡ true)
  register_unmarked d d' rec rec' given given' mails ids first_answer second_answer =
      let (salt, good) = passes ps req at s d mark_fails rec given first_answer in
      let (salt', good') = passes ps other later s d' [] rec' given' second_answer in
      let row = row_from ps req at s d salt in
      let row' = row_from ps other later s d' salt' in
      let t : Directory = with_row ps req at s d salt in
      let runs = register_unmarked_runs ps req at s d salt good in
      let still_free =
        first_append_none (λ u. str_eq u.email (normal_email other.email)) s.users row good'.4
          mails in
      let no_row =
        any_append (λ u. str_eq u.id row'.id || str_eq u.email row'.email) s.users row
          (free_of_add row' s _ good'.6) (ground (arith, ids, mails)) in
      let (valid, long, _, invite, _, salted, _) = good' in
      let again =
        register_runs ps other later t d' salt'
          (valid, long, given', invite, still_free, salted, add_user_free row' t no_row) in
      let is_rec : respond_data 201 (record_of row') ≡ respond_data 201 rec' =
        sym (ap (λ r. r.0) (register_runs ps other later s d' salt' good')) ∙ second_answer in
      let same : record_of row' ≡ rec' = ground arith in
      (
        subst
            (λ r.
              (register ps (some other) d' later (world r.1.store [])).0 ≡ respond_data 201 rec')
            (sym runs) (ap (λ r. r.0) again ∙ is_rec),
        sym (ap (λ r. r.email_verified) same),
      )

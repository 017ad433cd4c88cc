-- ===== src/Oidc/Registration/SignIn.antt =====
-- The first sign-in of an account that was registered.
use griya_maya.Base.{◌≡◌, refl, ap, ◌∙◌, false, List, [], map, keep, none, some}
use griya_maya.Text.{Str, str_eq}
use griya_maya.Effect.{Outcome, err, query, call, bad_credentials}
use griya_maya.Effect.Laws.{world}
use griya_maya.Repo.Reads.{first}
use griya_maya.Oidc.Reply.{respond_data}
use griya_maya.Oidc.Users.{
  UserRecord, Directory, Passwords, Fresh, admin_user_from_row, first_user, user_by_email,
  verify_user,
}
use griya_maya.Oidc.Users.Created.{first_append_none}
use griya_maya.Oidc.UserAdmin.{normal_email}
use griya_maya.Oidc.Registration.{RegisterRequest, Times, register}
use griya_maya.Oidc.Registration.Admission.{opened_row, register-Admitted}

module _ (ps : Passwords) where
  sign_in-missing :
      (email password : Str) (t : Directory)
      → first_user (λ v. str_eq v.email email) t ≡ none
      → (verify_user ps email password (world t [])).0 ≡ err bad_credentials
  unfolding verify_user user_by_email query call
  sign_in-missing email password t missing = rw missing refl

  -- After a registration that was answered by 201, whatever its calls came to, a sign-in with the
  -- address as it was typed is refused as a wrong address or password, whatever the password, when
  -- that address is not in small letters or has white space at an end and no account has it so.
  pub register_typed :
      (req : RegisterRequest) (at : Times) (s : Directory) (d : Fresh) (os : List Outcome)
      (rec : UserRecord) (password : Str)
      → (register ps (some req) d at (world s os)).0 ≡ respond_data 201 rec
      → str_eq (normal_email req.email) req.email ≡ false
      → first_user (λ u. str_eq u.email req.email) s ≡ none
      → (verify_user ps req.email password
          (world (register ps (some req) d at (world s os)).1.store [])).0
        ≡ err bad_credentials
  register_typed req at s d os rec password answer differs unknown =
      let (_, _, _, _, _, _, (salt, _, _, rows, _)) =
        register-Admitted ps req at d s os rec answer in
      let row = opened_row ps req at d s salt in
      let missing =
        ap (λ us. first (map admin_user_from_row (keep (λ v. str_eq v.email req.email) us))) rows
        ∙ first_append_none (λ v. str_eq v.email req.email) s.users row unknown differs in
      sign_in-missing req.email password _ missing

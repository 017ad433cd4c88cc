-- ===== src/Oidc/Registration.antt =====
-- register.go: the public registration and the invites.
pub mod Laws
pub mod Reach
pub mod Admission
pub mod SignIn
pub mod Runs
pub mod Invites
use griya_maya.Base.{
  ℕ, Bool, true, false, not, ◌&&◌, ◌||◌, List, [], ◌∷◌, ◌++◌, map, keep, any, ltb, ◌==◌,
  if◌then◌else◌, is_empty, Option, none, some,
}
use griya_maya.Base.Int.{ℤ, pos, negsuc}
use griya_maya.Text.{Str, str, str_eq, lower, trim_space}
use griya_maya.Effect.{Exec, World, query, exec, exec_checked, pure, attempt, ◌>>=◌, ◌>>◌}
use griya_maya.Repo.Reads.{first}
use griya_maya.Oidc.Store.{unix}
use griya_maya.Oidc.Reply.{
  Reply, respond_data, respond_err, no_content, Handler, respond, require, on, with_some,
}
use griya_maya.Oidc.Users.{
  InviteRow, UserRecord, Directory, Passwords, Fresh, newest_first, user_by_email, create_user,
}
use griya_maya.Oidc.UserAdmin.{
  valid_email, byte_length, normal_email, internal_error, invalid_request, conflict, is_none,
}

-- the errors of validateInvite
pub data InviteError : Type 0 where
  invalid_code already_used expired other_email : InviteError

-- ExpiresAt != 0 && now > ExpiresAt
abbrev pub is_expired : ℤ → ℕ → Bool
is_expired (pos n) now = not (n == 0) && ltb n now
is_expired (negsuc n) now = true

-- strings.EqualFold on ASCII letters
abbrev pub equal_fold : Str → Str → Bool
equal_fold a b = str_eq (map lower a) (map lower b)

-- validateInvite; no error is none
unfoldable pub validate_invite : Option InviteRow → Str → ℕ → Option InviteError
validate_invite none email now = some invalid_code
validate_invite (some inv) email now =
    if not (inv.used_at == 0)
    then some already_used
    else if is_expired inv.expires_at now
    then some expired
    else if not (is_empty inv.email) && not (equal_fold inv.email email)
    then some other_email
    else none

abbrev pub first_invite : Str → Directory → Option InviteRow
first_invite code s = first (keep (λ i. str_eq i.code code) s.invites)

-- Storage.inviteByCode; inviteFromRow keeps every column
unfoldable pub invite_by_code : Str → Exec Directory (Option InviteRow)
unfolding query
invite_by_code code = query (first_invite code)

abbrev pub consumed : Str → Str → ℕ → InviteRow → InviteRow
consumed code used_by now i =
    if str_eq i.code code && i.used_at == 0
    then record i { used_at = unix now; used_by = used_by }
    else i

-- Storage.consumeInvite
unfoldable pub consume_invite : Str → Str → ℕ → Exec Directory (Unit {0})
unfolding exec
consume_invite code used_by now =
    exec (λ s. record s { invites = map (consumed code used_by now) s.invites })

-- Storage.deleteInvite
unfoldable pub delete_invite : Str → Exec Directory (Unit {0})
unfolding exec
delete_invite code =
    exec (λ s. record s { invites = keep (λ i. not (str_eq i.code code)) s.invites })

-- Storage.listInvites; inviteRecord has every field of inviteRow
unfoldable pub list_invites_rows : Exec Directory (List InviteRow)
unfolding query newest_first
list_invites_rows = query (λ s. newest_first (λ i. i.created_at) s.invites)

abbrev pub new_invite : Str → Str → ℤ → Str → ℕ → InviteRow
new_invite email note expires_at code now = record {
  code = code;
  email = email;
  note = note;
  expires_at = expires_at;
  used_at = 0;
  used_by = [];
  created_at = unix now;
}

abbrev pub add_invite : InviteRow → Directory → Option Directory
add_invite row s =
    if any (λ i. str_eq i.code row.code) s.invites
    then none
    else some (record s { invites = s.invites ++ row ∷ [] })

-- Storage.createInvite, for the random code and the time
unfoldable pub store_invite : Str → Str → ℤ → Str → ℕ → Exec Directory InviteRow
unfolding exec_checked
store_invite email note expires_at code now = do
  exec_checked (add_invite (new_invite email note expires_at code now))
  pure (new_invite email note expires_at code now)

-- registerRequest
pub record RegisterRequest : Type 0 where
  pub code : Str
  pub email : Str
  pub name : Str
  pub password : Str

-- createInviteRequest
pub record CreateInviteRequest : Type 0 where
  pub email : Str
  pub note : Str
  pub expires_at : ℤ

-- the body of a request for an invite
pub data InviteBody : Type 0 where
  no_body malformed : InviteBody
  parsed : CreateInviteRequest → InviteBody

abbrev pub invite_request : InviteBody → Option CreateInviteRequest
invite_request no_body = some (record { email = []; note = []; expires_at = pos 0 })
invite_request malformed = none
invite_request (parsed req) = some req

-- UserAdminHandler.CreateInvite
unfoldable pub create_invite : InviteBody → Str → ℕ → Handler Directory InviteRow
create_invite body code now = with_some (invite_request body) invalid_request λ req.
    let email = normal_email req.email in
    require (is_empty email || valid_email email) invalid_request (
      on (store_invite email req.note req.expires_at code now) internal_error
        λ rec. respond (respond_data 201 rec))

-- UserAdminHandler.ListInvites
unfoldable pub list_invites : Handler Directory (List InviteRow)
list_invites = on list_invites_rows internal_error λ rows. respond (respond_data 200 rows)

-- UserAdminHandler.DeleteInvite
unfoldable pub delete_invite_handler : Str → Handler Directory (Unit {0})
delete_invite_handler code = on (invite_by_code code) internal_error λ found.
    with_some found (respond_err 404 (str "not_found"))
      λ inv. on (delete_invite code) internal_error λ _. respond no_content

-- the readings of the clock in Register, besides that of the creation
pub record Times : Type 0 where
  pub validated : ℕ
  pub used : ℕ

abbrev pub invite_invalid : Reply UserRecord
invite_invalid = respond_err 403 (str "invite_invalid")

-- the check of a code that is given; the rest goes on with whether the account is verified
abbrev pub check_code :
    Str → Str → ℕ → (Bool → Handler Directory UserRecord) → Handler Directory UserRecord
check_code code email now rest =
    if is_empty code
    then rest false
    else on (invite_by_code code) internal_error
        λ inv. require (is_none (validate_invite inv email (unix now))) invite_invalid (rest true)

-- the invite is marked where one was redeemed; a failure is dropped
abbrev pub redeem_code : Str → Str → ℕ → Exec Directory (Unit {0})
redeem_code code used_by now =
    if is_empty code then pure tt else attempt (consume_invite code used_by now)

module _ (ps : Passwords) where
  abbrev pub open_account :
      RegisterRequest → Str → Str → Fresh → Times → Bool → Handler Directory UserRecord
  open_account req code email d at verified = on (user_by_email email) internal_error λ existing.
      require (is_none existing) conflict (
        on (create_user ps email req.name req.password verified d) internal_error λ rec.
          on (redeem_code code rec.id at.used) internal_error λ _. respond (respond_data 201 rec))

  -- UserAdminHandler.Register
  unfoldable pub register : Option RegisterRequest → Fresh → Times → Handler Directory UserRecord
  register body d at = with_some body invalid_request λ req.
      let code = trim_space req.code in
      let email = normal_email req.email in
      require (valid_email email) invalid_request (
        require (not (ltb (byte_length req.password) 8)) invalid_request
          (check_code code email at.validated (open_account req code email d at)))

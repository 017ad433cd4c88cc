-- ===== src/Oidc/Login.antt =====
-- login.go: the sign-in and consent screens.
pub mod Laws
use griya_maya.Base.{
  ℕ, Bool, true, false, not, ◌&&◌, ◌||◌, List, [], ◌∷◌, if◌then◌else◌, is_empty, Option, none, some,
}
use griya_maya.Text.{Str, str, str_eq}
use griya_maya.Effect.{
  Error, email_not_verified, Exec, Result, ok, err, World, pure, attempt, ◌>>=◌, ◌>>◌,
}
use griya_maya.Oidc.Users.{Passwords, verify_user}
use griya_maya.Oidc.Scopes.{missing_scopes}
use griya_maya.Oidc.Consent.{consent_scopes, save_consent}
use griya_maya.Oidc.Clients.{Client, client_by_id}
use griya_maya.Oidc.Requests.{
  AuthRequest, Provider, on_directory, on_consents, on_clients, auth_request_by_id,
  set_auth_request_user, finish_auth_request,
}

-- what the browser is shown, or where it is sent
pub data Screen : Type 0 where
  password_form under_review wrong_credentials session_expired logged_out : Screen
  consent_form : Str → List Str → Screen
  callback : Str → Screen

abbrev Screens : Type 0
Screens = World Provider → Screen × World Provider

-- the scopes that an answer without error holds
abbrev pub granted_or_none : Result (List Str) → List Str
granted_or_none (ok scopes) = scopes
granted_or_none (err e) = []

abbrev pub name_or : Str → Result (Option Client) → Str
name_or id (ok (some c)) = if is_empty c.client_name then id else c.client_name
name_or id (ok none) = id
name_or id (err e) = id

-- the consent card with the client's name
abbrev pub ask_consent : AuthRequest → List Str → Screens
ask_consent req missing w =
    let (c, w') = on_clients (client_by_id req.application_id) w in
    (consent_form (name_or req.application_id c) missing, w')

abbrev pub missing_for : AuthRequest → Result (List Str) → List Str
missing_for req granted = missing_scopes req.scopes (granted_or_none granted)

abbrev pub show_consent :
    AuthRequest → Result (List Str) × World Provider → Screens → Screen × World Provider
show_consent req (granted, w) otherwise =
    let asked = ask_consent req (missing_for req granted) w in
    let skipped = otherwise w in if is_empty (missing_for req granted) then skipped else asked

abbrev pub form : Screens
form w = (password_form, w)

abbrev pub pending_consent : Result AuthRequest × World Provider → Screen × World Provider
pending_consent (err e, w) = form w
pending_consent (ok req, w) =
    let pending =
      show_consent req (on_consents (consent_scopes req.user_id req.application_id) w) form in
    if is_empty req.user_id then form w else pending

-- loginUI.username for GET
unfoldable pub get_username : Str → Screens
get_username id w = if is_empty id then form w else pending_consent (auth_request_by_id id w)

-- what follows a call, and the card for a session that is over where the call fails
abbrev pub or_expired :
    {A : Type 0} → Result A × World Provider → (A → Screens) → Screen × World Provider
or_expired (err e, w) rest = (session_expired, w)
or_expired (ok a, w) rest = rest a w

abbrev pub finish : Str → ℕ → Screens
finish id now w = or_expired (finish_auth_request id now w) λ _ v. (callback id, v)

abbrev pub rejected : Error → Screen
rejected email_not_verified = under_review
rejected _ = wrong_credentials

abbrev pub signed_in : Str → Str → ℕ → Screens
signed_in id uid now w = or_expired (set_auth_request_user id uid w) λ _ w1.
    or_expired (auth_request_by_id id w1) λ req w2.
      show_consent req (on_consents (consent_scopes uid req.application_id) w2) (finish id now)

abbrev pub after_verify : Str → ℕ → Result Str × World Provider → Screen × World Provider
after_verify id now (err e, w) = (rejected e, w)
after_verify id now (ok uid, w) = signed_in id uid now w

-- loginUI.username for POST
unfoldable pub post_username : Passwords → Str → Str → Str → ℕ → Screens
post_username ps id email password now w =
    after_verify id now (on_directory (verify_user ps email password) w)

-- the grant that consent remembers; its failure is logged
abbrev pub remember : Result AuthRequest × World Provider → World Provider
remember (err e, w) = w
remember (ok req, w) =
    let saved = (on_consents (save_consent req.user_id req.application_id req.scopes) w).1 in
    if is_empty req.user_id then w else saved

-- loginUI.consent, for the value of the field action
unfoldable pub consent : Str → Str → ℕ → Screens
consent id action now w =
    let approved = finish id now (remember (auth_request_by_id id w)) in
    if str_eq action (str "approve") then approved else (logged_out, w)

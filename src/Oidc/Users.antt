-- ===== src/Oidc/Users.antt =====
-- user.go and the storage operations of user_admin.go and register.go: the accounts and the invites
-- of the tables in migrations/0002_oidc.sql and 0012_user_invite.sql.
pub mod Laws
pub mod Created
use griya_maya.Base.{
  ℕ, Bool, true, false, not, ◌&&◌, ◌||◌, List, [], ◌∷◌, ◌++◌, map, keep, any, length, ltb, leb,
  if◌then◌else◌, is_empty, Option, none, some,
}
use griya_maya.Base.Int.{ℤ}
use griya_maya.Text.{Str, str, str_eq}
use griya_maya.Effect.{
  Result, ok, err, upstream, bad_credentials, email_not_verified, Exec, query, exec, exec_checked,
  pure, fail, lift, attempt, ◌>>=◌, ◌>>◌,
}
use griya_maya.Repo.Reads.{first}
use griya_maya.Oidc.Store.{unix}

-- a row of admin_user, whose primary key is `id` and whose `email` is unique; email_verified is 0 or 1
-- there
pub record UserRow : Type 0 where
  pub id : Str
  pub email : Str
  pub password_hash : Str
  pub name : Str
  pub email_verified : Bool
  pub created_at : ℕ

-- inviteRow, and a row of user_invite, whose primary key is `code`; the times are seconds
pub record InviteRow : Type 0 where
  pub code : Str
  pub email : Str
  pub note : Str
  pub expires_at : ℤ
  pub used_at : ℕ
  pub used_by : Str
  pub created_at : ℕ

pub record Directory : Type 0 where
  pub users : List UserRow
  pub invites : List InviteRow

-- adminUser
pub record AdminUser : Type 0 where
  pub id : Str
  pub email : Str
  pub password_hash : Str
  pub name : Str
  pub email_verified : Bool

-- userRecord
pub record UserRecord : Type 0 where
  pub id : Str
  pub email : Str
  pub name : Str
  pub email_verified : Bool
  pub created_at : ℕ

-- adminUserFromRow
abbrev pub admin_user_from_row : UserRow → AdminUser
admin_user_from_row row = record {
  id = row.id;
  email = row.email;
  password_hash = row.password_hash;
  name = row.name;
  email_verified = row.email_verified;
}

abbrev pub first_user : (UserRow → Bool) → Directory → Option AdminUser
first_user p s = first (map admin_user_from_row (keep p s.users))

-- Storage.userByEmail
unfoldable pub user_by_email : Str → Exec Directory (Option AdminUser)
unfolding query
user_by_email email = query (first_user λ u. str_eq u.email email)

-- Storage.userByID
unfoldable pub user_by_id : Str → Exec Directory (Option AdminUser)
unfolding query
user_by_id id = query (first_user λ u. str_eq u.id id)

-- the record that Storage.listUsers makes of a row
abbrev pub record_of : UserRow → UserRecord
record_of row = record {
  id = row.id;
  email = row.email;
  name = row.name;
  email_verified = row.email_verified;
  created_at = row.created_at;
}

-- ORDER BY … DESC; rows of equal keys stay as they are
module _ {A : Type 0} (key : A → ℕ) where
  unfoldable pub insert_newest : A → List A → List A
  insert_newest a [] = a ∷ []
  insert_newest a (b ∷ bs) =
      let later = b ∷ insert_newest a bs in if leb (key b) (key a) then a ∷ b ∷ bs else later

  unfoldable pub newest_first : List A → List A
  unfolding insert_newest
  newest_first [] = []
  newest_first (a ∷ as') = insert_newest a (newest_first as')

-- Storage.listUsers
unfoldable pub list_users : Exec Directory (List UserRecord)
unfolding query newest_first
list_users = query (λ s. map record_of (newest_first (λ u. u.created_at) s.users))

-- Storage.userCount
unfoldable pub user_count : Exec Directory ℕ
unfolding query
user_count = query (λ s. length s.users)

-- hashPassword, from a password and a salt, and verifyPassword
pub record Passwords : Type 0 where
  pub hash : Str → Str → Str
  pub verify : Str → Str → Bool

-- What a creation draws: the salt, if the source of random bytes answers, the identifier, the time.
pub record Fresh : Type 0 where
  pub salt : Option Str
  pub id : Str
  pub now : ℕ

abbrev pub add_user : UserRow → Directory → Option Directory
add_user row s =
    if any (λ u. str_eq u.id row.id || str_eq u.email row.email) s.users
    then none
    else some (record s { users = s.users ++ row ∷ [] })

abbrev pub new_row : Str → Str → Str → Bool → Fresh → UserRow
new_row email hash name verified d = record {
  id = d.id;
  email = email;
  password_hash = hash;
  name = name;
  email_verified = verified;
  created_at = unix d.now;
}

-- the SET of updateUser's two statements; `hash` is none in the second
abbrev pub edited : Str → Str → Bool → Option Str → UserRow → UserRow
edited email name verified none u = record u {
  email = email;
  name = name;
  email_verified = verified;
}
edited email name verified (some hash) u = record u {
  email = email;
  name = name;
  email_verified = verified;
  password_hash = hash;
}

-- an UPDATE … WHERE id = ?1 that sets the email, which another row may have
abbrev pub edit_user : Str → Str → (UserRow → UserRow) → Directory → Option Directory
edit_user id email change s =
    if any (λ u. str_eq u.id id) s.users
      && any (λ u. not (str_eq u.id id) && str_eq u.email email) s.users
    then none
    else some (record s { users = map (λ u. if str_eq u.id id then change u else u) s.users })

-- toRecord
abbrev pub to_record : AdminUser → UserRecord
to_record u = record {
  id = u.id;
  email = u.email;
  name = u.name;
  email_verified = u.email_verified;
  created_at = 0;
}

abbrev pub record_or : UserRecord → Option AdminUser → UserRecord
record_or d none = d
record_or d (some u) = to_record u

-- Storage.deleteUser
unfoldable pub delete_user : Str → Exec Directory (Unit {0})
unfolding exec
delete_user id = exec (λ s. record s { users = keep (λ u. not (str_eq u.id id)) s.users })

module _ (ps : Passwords) where
  unfoldable pub hash_password : Str → Option Str → Exec Directory Str
  hash_password password none = fail upstream
  hash_password password (some salt) = pure (ps.hash password salt)

  -- Storage.createUser
  unfoldable pub create_user : Str → Str → Str → Bool → Fresh → Exec Directory UserRecord
  unfolding exec_checked
  create_user email name password verified d = do
    hash ← hash_password password d.salt
    exec_checked (add_user (new_row email hash name verified d))
    pure (record_of (new_row email hash name verified d))

  -- the statement of Storage.updateUser
  unfoldable pub write_user : Str → Str → Str → Bool → Str → Fresh → Exec Directory (Unit {0})
  unfolding exec_checked
  write_user id email name verified password d =
      if is_empty password
      then exec_checked (edit_user id email (edited email name verified none))
      else do
        hash ← hash_password password d.salt
        exec_checked (edit_user id email (edited email name verified (some hash)))

  -- Storage.updateUser
  unfoldable pub update_user : Str → Str → Str → Bool → Str → Fresh → Exec Directory UserRecord
  update_user id email name verified password d = do
    write_user id email name verified password d
    updated ← user_by_id id
    pure (
        record_or
          (record {
            id = id;
            email = email;
            name = name;
            email_verified = verified;
            created_at = 0;
          })
          updated)

  abbrev pub admit : Str → Option AdminUser → Exec Directory Str
  admit password none = fail bad_credentials
  admit password (some u) =
      if ps.verify password u.password_hash
      then if u.email_verified then pure u.id else fail email_not_verified
      else fail bad_credentials

  -- Storage.verifyUser
  unfoldable pub verify_user : Str → Str → Exec Directory Str
  verify_user email password = do user ← user_by_email email; admit password user

  abbrev pub seed_row : Str → Str → Fresh → Exec Directory (Unit {0})
  seed_row email password d = do
    hash ← hash_password password d.salt
    exec_checked (add_user (new_row email hash (str "Administrator") true d))

  -- Storage.seedAdmin, whose failures are logged
  unfoldable pub seed_admin : Str → Str → Fresh → Exec Directory (Unit {0})
  seed_admin email password d =
      if is_empty email || is_empty password
      then pure tt
      else attempt (do n ← user_count; if ltb 0 n then pure tt else seed_row email password d)

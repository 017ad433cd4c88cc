-- ===== src/Oidc/UserAdmin.antt =====
-- user_admin.go: the management of the accounts under /v1/users.
pub mod Laws
pub mod Interleaved
pub mod Schedules
pub mod Emails
pub mod Creation
use griya_maya.Base.{
  ℕ, ◌+◌, Bool, true, false, not, ◌&&◌, ◌||◌, List, [], ◌∷◌, map, any, length, ltb, leb, ◌==◌,
  if◌then◌else◌, is_empty, Option, none, some,
}
use griya_maya.Text.{Str, str, str_eq, lower, trim_space}
use griya_maya.Effect.{Result, ok, err, World}
use griya_maya.Oidc.Reply.{
  Reply, respond_data, respond_err, no_content, Handler, respond, require, on, with_some,
}
use griya_maya.Oidc.Users.{
  AdminUser, UserRecord, Directory, Passwords, Fresh, user_by_email, user_by_id, list_users,
  user_count, create_user, update_user, delete_user, to_record,
}

-- strings.IndexByte of a character below 128; the source's -1 is none
unfoldable pub index_byte : ℕ → Str → Option ℕ
index_byte c [] = none
index_byte c (d ∷ s) =
    let later = index_byte c s in
    if d == c then some 0 else elim later [ none ↦ none | some n ↦ some (n + 1) ]

abbrev pub is_blank : ℕ → Bool
is_blank c = c == 32 || c == 9

abbrev pub inside : Str → Option ℕ → Bool
inside email none = false
inside email (some at) = ltb 0 at && ltb (at + 1) (length email)

-- validEmail; a position counts characters, which settles the same tests as one that counts bytes
unfoldable pub valid_email : Str → Bool
unfolding index_byte
valid_email email = inside email (index_byte b'@' email) && not (any is_blank email)

-- the bytes of a character in UTF-8
unfoldable pub byte_width : ℕ → ℕ
byte_width c = if ltb c 0x80 then 1 else if ltb c 0x800 then 2 else if ltb c 0x10000 then 3 else 4

-- len of a text
unfoldable pub byte_length : Str → ℕ
unfolding byte_width
byte_length [] = 0
byte_length (c ∷ s) = byte_width c + byte_length s

-- strings.TrimSpace(strings.ToLower(email))
abbrev pub normal_email : Str → Str
normal_email email = trim_space (map lower email)

-- createUserRequest; a pointer that is nil is none
pub record CreateUserRequest : Type 0 where
  pub email : Str
  pub name : Str
  pub password : Str
  pub email_verified : Option Bool

-- updateUserRequest
pub record UpdateUserRequest : Type 0 where
  pub email : Str
  pub name : Str
  pub password : Str
  pub email_verified : Option Bool

-- boolOr
abbrev pub bool_or : Option Bool → Bool → Bool
bool_or none d = d
bool_or (some b) d = b

module _ {B : Type 0} where
  abbrev pub internal_error : Reply B
  internal_error = respond_err 500 (str "internal_error")

  abbrev pub invalid_request : Reply B
  invalid_request = respond_err 400 (str "invalid_request")

  abbrev pub user_not_found : Reply B
  user_not_found = respond_err 404 (str "not_found")

  abbrev pub conflict : Reply B
  conflict = respond_err 409 (str "conflict")

abbrev pub is_none : {A : Type 0} → Option A → Bool
is_none none = true
is_none (some a) = false

-- UserAdminHandler.List
unfoldable pub list : Handler Directory (List UserRecord)
list = on list_users internal_error λ users. respond (respond_data 200 users)

-- UserAdminHandler.Get
unfoldable pub get : Str → Handler Directory UserRecord
get id =
    on (user_by_id id) internal_error
      λ found. with_some found user_not_found λ user. respond (respond_data 200 (to_record user))

-- UserAdminHandler.Delete
unfoldable pub delete : Str → Handler Directory (Unit {0})
delete id = on (user_by_id id) internal_error λ found. with_some found user_not_found λ user.
    on user_count internal_error λ n.
      require (not (leb n 1)) conflict (on (delete_user id) internal_error λ _. respond no_content)

abbrev pub other_has : Str → Option AdminUser → Bool
other_has id none = false
other_has id (some other) = not (str_eq other.id id)

-- the collision test of Update, which passes where the lookup fails
abbrev pub taken_by_other : Str → Result (Option AdminUser) → Bool
taken_by_other id (err e) = false
taken_by_other id (ok found) = other_has id found

abbrev pub email_or : Str → Str → Str
email_or current email = if is_empty email then current else email

-- A request whose body is no JSON of the wanted shape is none.
module _ (ps : Passwords) where
  abbrev pub store_new : Str → Str → Str → Bool → Fresh → Handler Directory UserRecord
  store_new email name password verified d =
      on (create_user ps email name password verified d) internal_error
        λ rec. respond (respond_data 201 rec)

  -- UserAdminHandler.Create
  unfoldable pub create : Option CreateUserRequest → Fresh → Handler Directory UserRecord
  create body d = with_some body invalid_request λ req.
      let email = normal_email req.email in
      require (valid_email email) invalid_request (
        require (not (ltb (byte_length req.password) 8)) invalid_request (
          on (user_by_email email) internal_error λ existing.
            require (is_none existing) conflict
              (store_new email req.name req.password (bool_or req.email_verified true) d)))

  abbrev pub save_changes :
      Str → AdminUser → Str → UpdateUserRequest → Fresh → Handler Directory UserRecord
  save_changes id current email req d =
      let name = if is_empty req.name then current.name else req.name in
      on
        (update_user ps id email name (bool_or req.email_verified current.email_verified)
          req.password d)
        internal_error λ rec. respond (respond_data 200 rec)

  abbrev pub check_collision :
      Str → AdminUser → Str → UpdateUserRequest → Fresh → Handler Directory UserRecord
  check_collision id current email req d w =
      let (other, w') = user_by_email email w in
      require (not (taken_by_other id other)) conflict (save_changes id current email req d) w'

  -- UserAdminHandler.Update
  unfoldable pub update : Str → Option UpdateUserRequest → Fresh → Handler Directory UserRecord
  update id body d = on (user_by_id id) internal_error λ found.
      with_some found user_not_found λ current. with_some body invalid_request λ req.
        let email = email_or current.email (normal_email req.email) in
        require (valid_email email) invalid_request (
          require (is_empty req.password || not (ltb (byte_length req.password) 8)) invalid_request
            (check_collision id current email req d))

-- ===== src/Tests/Accounts.antt =====
-- Accounts that are created, registered and deleted.
use griya_maya.Base.{map, ◌*◌, ◌≡◌, refl, true, List, [], ◌∷◌, none, some, any, Bool}
use griya_maya.Base.Int.{pos}
use griya_maya.Text.{Str, str, str_eq, trim_space, lower}
use griya_maya.Effect.{query, exec, exec_checked, call, answered, lost}
use griya_maya.Effect.Laws.{world}
use griya_maya.Oidc.Store.{second}
use griya_maya.Oidc.Reply.{respond_data, with_some, require, on_result}
use griya_maya.Oidc.Users.{
  UserRow, InviteRow, UserRecord, Directory, Passwords, Fresh, user_by_email, create_user,
  hash_password,
}
use griya_maya.Oidc.UserAdmin.{
  byte_length, CreateUserRequest, valid_email, create, get, list, delete,
}
use griya_maya.Oidc.Users.Laws.{distinct_ids}
use griya_maya.Oidc.UserAdmin.Laws.{Sound}
use griya_maya.Oidc.UserAdmin.Creation.{same_account, get-created}
use griya_maya.Oidc.UserAdmin.Interleaved.{looking, turns}
use griya_maya.Oidc.UserAdmin.Schedules.{orders, outcome, delete_interleaved}
use griya_maya.Oidc.Registration.{
  RegisterRequest, Times, register, invite_by_code, validate_invite, consume_invite,
}
use griya_maya.Oidc.Registration.Reach.{Reach, here, next, deletes, creates, Reach-Sound}
use griya_maya.Oidc.Registration.Runs.{mark_fails}
use griya_maya.Oidc.Registration.Invites.{register_once, register_unmarked}

-- a password is its own hash
abbrev pub plain : Passwords
plain = record { hash = λ password salt. password; verify = str_eq }

abbrev pub account : Str → Str → UserRow
account id email = record {
  id = id;
  email = email;
  password_hash = str "password";
  name = str "N";
  email_verified = true;
  created_at = 5;
}

abbrev ann : UserRow
ann = account (str "1") (str "ann@x")

abbrev bob : UserRow
bob = account (str "2") (str "bob@x")

abbrev invite : InviteRow
invite = record {
  code = str "K";
  email = [];
  note = [];
  expires_at = pos 0;
  used_at = 0;
  used_by = [];
  created_at = 5;
}

abbrev office : Directory
office = record { users = ann ∷ bob ∷ []; invites = invite ∷ [] }

abbrev fresh : Str → Fresh
fresh id = record { salt = some (str "s"); id = id; now = 9 * second }

abbrev times : Times
times = record { validated = 8 * second; used = 9 * second }

abbrev from : Str → Str → RegisterRequest
from code email = record { code = code; email = email; name = str "N"; password = str "password" }

abbrev made : Str → Str → Bool → UserRecord
made id email verified = record {
  id = id;
  email = email;
  name = str "N";
  email_verified = verified;
  created_at = 9;
}

abbrev new_user : CreateUserRequest
new_user = record {
  email = str "Eve@x ";
  name = str "N";
  password = str "password";
  email_verified = none;
}

-- a deletion, a creation whose answer is lost, and a deletion
abbrev after_three : Directory
after_three =
    (delete (str "1") (
      world
        (create plain (some new_user) (fresh (str "3"))
          (world (delete (str "2") (world office [])).1.store (answered ∷ lost ∷ []))).1.store
        [])).1.store

office-Sound : Sound office
unfolding str_eq valid_email distinct_ids
office-Sound = (refl, refl, refl)

three : Reach plain office after_three
three =
    next
      (next (next here (deletes (str "2") [] refl))
        (creates (some new_user) (fresh (str "3")) (answered ∷ lost ∷ []) refl))
      (deletes (str "1") [] refl)

Reach-Sound_example : Sound after_three
Reach-Sound_example = Reach-Sound plain office after_three office-Sound three

delete_interleaved_example :
    map
      (λ ts.
        turns ann.id bob.id ts
          (looking, looking, world (record { users = ann ∷ bob ∷ []; invites = invite ∷ [] }) []))
      orders
    ≡ map (outcome ann bob (invite ∷ [])) orders
unfolding str_eq
delete_interleaved_example = delete_interleaved ann bob (invite ∷ []) refl

get-created_example :
    ((get
        (str "3")
        (world (create plain (some new_user) (fresh (str "3")) (world office [])).1.store [])).0
      ≡ respond_data 200 (record (made (str "3") (str "eve@x") true) { created_at = 0 }))
    × ((rows : List UserRecord) × ((list
            (world (create plain (some new_user) (fresh (str "3")) (world office [])).1.store [])).0
          ≡ respond_data 200 rows)
        × (any (same_account (made (str "3") (str "eve@x") true)) rows ≡ true))
unfolding create with_some require on_result valid_email trim_space lower byte_length user_by_email
    create_user hash_password query exec exec_checked call str_eq
get-created_example =
    get-created plain new_user (fresh (str "3")) office [] (made (str "3") (str "eve@x") true) refl

register_once_example : ¬ (
    (register plain (some (from (str "K") (str "ida@x"))) (fresh (str "4")) times (
      world
        (register plain
          (some (from (str "K") (str "Eve@x")))
          (fresh (str "3"))
          times
          (world office [])).1.store
        [])).0
    ≡ respond_data 201 (made (str "4") (str "ida@x") true))
unfolding register with_some require on_result valid_email trim_space lower byte_length
    user_by_email create_user hash_password query exec exec_checked call str_eq invite_by_code
    validate_invite consume_invite
register_once_example =
    register_once plain (from (str "K") (str "Eve@x")) (from (str "K") (str "ida@x")) times times
      office (fresh (str "3")) (fresh (str "4")) [] (made (str "3") (str "eve@x") true)
      (made (str "4") (str "ida@x") true) refl refl refl refl

register_unmarked_example :
    ((register plain (some (from (str "K") (str "ida@x"))) (fresh (str "4")) times (
        world
          (register plain
            (some (from (str "K") (str "Eve@x")))
            (fresh (str "3"))
            times
            (world office mark_fails)).1.store
          [])).0
      ≡ respond_data 201 (made (str "4") (str "ida@x") true))
    × ((made (str "4") (str "ida@x") true).email_verified ≡ true)
unfolding register with_some require on_result valid_email trim_space lower byte_length
    user_by_email create_user hash_password query exec exec_checked call str_eq invite_by_code
    validate_invite consume_invite
register_unmarked_example =
    register_unmarked plain (from (str "K") (str "Eve@x")) (from (str "K") (str "ida@x")) times
      times office (fresh (str "3")) (fresh (str "4")) (made (str "3") (str "eve@x") true)
      (made (str "4") (str "ida@x") true) refl refl refl refl refl refl

-- ===== src/Oidc/UserAdmin/Interleaved.antt =====
-- Two deletions of accounts that run at once: UserAdminHandler.Delete by its calls.
use griya_maya.Base.{
  ℕ, ◌≡◌, refl, Bool, true, false, not, List, [], ◌∷◌, leb, if◌then◌else◌, Option, none, some, inl,
  inr, Bool-cases,
}
use griya_maya.Text.{Str}
use griya_maya.Effect.{World, Result, ok, err}
use griya_maya.Oidc.Reply.{Reply, no_content, Handler, respond, require, on, on_result, with_some}
use griya_maya.Oidc.Users.{AdminUser, Directory, user_by_id, user_count, delete_user}
use griya_maya.Oidc.UserAdmin.{internal_error, user_not_found, conflict, delete}

-- the call that comes next, or the answer
pub data Stage : Type 0 where
  looking counting removing : Stage
  finished : Reply (Unit {0}) → Stage

abbrev looked : Result (Option AdminUser) → Stage
looked (err e) = finished internal_error
looked (ok none) = finished user_not_found
looked (ok (some user)) = counting

abbrev counted : Result ℕ → Stage
counted (err e) = finished internal_error
counted (ok n) = if not (leb n 1) then removing else finished conflict

abbrev removed : Result (Unit {0}) → Stage
removed (err e) = finished internal_error
removed (ok _) = finished no_content

-- one call of a Delete
unfoldable pub advance : Str → Stage → World Directory → Stage × World Directory
advance id looking w = let (r, w') = user_by_id id w in (looked r, w')
advance id counting w = let (r, w') = user_count w in (counted r, w')
advance id removing w = let (r, w') = delete_user id w in (removed r, w')
advance id (finished r) w = (finished r, w)

-- the calls of the Deletes of `a` and of `b` in the order that the list gives, true for that of `a`
unfoldable pub turns :
    Str → Str → List Bool → Stage × Stage × World Directory → Stage × Stage × World Directory
unfolding advance
turns a b [] (p, q, w) = (p, q, w)
turns a b (true ∷ ts) (p, q, w) = let (p', w') = advance a p w in turns a b ts (p', q, w')
turns a b (false ∷ ts) (p, q, w) = let (q', w') = advance b q w in turns a b ts (p, q', w')

abbrev twice : Str → Stage × World Directory → Stage × World Directory
twice id (p, w) = let (p', w') = advance id p w in advance id p' w'

abbrev thrice : Str → Stage × World Directory → Stage × World Directory
thrice id (p, w) = twice id (advance id p w)

abbrev SameRun : Stage × World Directory → Stage × World Directory → Type 0
SameRun x y = ◌≡◌ {A = Stage × World Directory} x y

abbrev answer : Reply (Unit {0}) × World Directory → Stage × World Directory
answer (r, w) = (finished r, w)

abbrev remove : Str → Handler Directory (Unit {0})
remove id = on (delete_user id) internal_error λ _. respond no_content

abbrev count : Str → Handler Directory (Unit {0})
count id = on user_count internal_error λ n. require (not (leb n 1)) conflict (remove id)

after_remove :
    (r : Result (Unit {0}) × World Directory)
    → SameRun (removed r.0, r.1) (answer (on_result internal_error (λ _. respond no_content) r))
unfolding on_result
after_remove (ok _, v) = refl
after_remove (err e, v) = refl

after_count :
    (id : Str) (r : Result ℕ × World Directory)
    → SameRun
        (advance id (counted r.0) r.1)
        (answer (on_result internal_error (λ n. require (not (leb n 1)) conflict (remove id)) r))
unfolding on_result require advance
after_count id (err e, v) = refl
after_count id (ok n, v) = elim (Bool-cases (not (leb n 1))) [
  | inl several ↦ rw several (after_remove (delete_user id v))
  | inr last ↦ rw last refl
]

after_look :
    (id : Str) (r : Result (Option AdminUser) × World Directory)
    → SameRun (twice id (looked r.0, r.1)) (
        answer
          (on_result internal_error (λ found. with_some found user_not_found (λ user. count id)) r))
unfolding on_result with_some advance
after_look id (err e, v) = refl
after_look id (ok none, v) = refl
after_look id (ok (some user), v) = after_count id (user_count v)

-- three calls in a row are the whole handler, whatever they come to
thrice-delete :
    (id : Str) (w : World Directory) → SameRun (thrice id (looking, w)) (answer (delete id w))
unfolding advance delete
thrice-delete id w = after_look id (user_by_id id w)

-- ===== src/Oidc/Registration/Reach.antt =====
-- Every directory that the requests on accounts and invites can lead to, each of them run to its end
-- with any outcomes of its calls.
use griya_maya.Base.{ℕ, ◌≡◌, List, Option}
use griya_maya.Text.{Str}
use griya_maya.Effect.{Outcome}
use griya_maya.Effect.Laws.{world}
use griya_maya.Oidc.Users.{Directory, Passwords, Fresh, seed_admin}
use griya_maya.Oidc.UserAdmin.{CreateUserRequest, UpdateUserRequest, create, update, delete}
use griya_maya.Oidc.UserAdmin.Laws.{
  Sound, store-Leaves, answered, create-Answered, update-Answered, delete-Answered,
}
use griya_maya.Oidc.Registration.{
  RegisterRequest, InviteBody, Times, register, create_invite, delete_invite_handler,
}
use griya_maya.Oidc.Registration.Laws.{
  register-Answered, create_invite-Answered, delete_invite-Answered, seed_admin-Leaves,
}

module _ (ps : Passwords) where
  -- a request that changes the directory, or the seed of a start of the server
  pub data Step (s t : Directory) : Type 0 where
    creates :
        (body : Option CreateUserRequest) (d : Fresh) (os : List Outcome)
        → t ≡ (create ps body d (world s os)).1.store
        → Step s t
    updates :
        (id : Str) (body : Option UpdateUserRequest) (d : Fresh) (os : List Outcome)
        → t ≡ (update ps id body d (world s os)).1.store
        → Step s t
    deletes : (id : Str) (os : List Outcome) → t ≡ (delete id (world s os)).1.store → Step s t
    registers :
        (body : Option RegisterRequest) (d : Fresh) (at : Times) (os : List Outcome)
        → t ≡ (register ps body d at (world s os)).1.store
        → Step s t
    invites :
        (body : InviteBody) (code : Str) (now : ℕ) (os : List Outcome)
        → t ≡ (create_invite body code now (world s os)).1.store
        → Step s t
    revokes :
        (code : Str) (os : List Outcome)
        → t ≡ (delete_invite_handler code (world s os)).1.store
        → Step s t
    starts :
        (email password : Str) (d : Fresh) (os : List Outcome)
        → t ≡ (seed_admin ps email password d (world s os)).1.store
        → Step s t

  pub data Reach (s : Directory) : Directory → Type 0 where
    here : Reach s s
    next : {t u : Directory} → Reach s t → Step t u → Reach s u

  Step-Sound : (s t : Directory) → Step s t → Sound s → Sound t
  Step-Sound s t (creates body d os e) h =
      rw e (answered _ (create-Answered ps body d (world s os) h))
  Step-Sound s t (updates id body d os e) h =
      rw e (answered _ (update-Answered ps id body d (world s os) h))
  Step-Sound s t (deletes id os e) h = rw e (answered _ (delete-Answered id (world s os) h))
  Step-Sound s t (registers body d at os e) h =
      rw e (answered _ (register-Answered ps body d at (world s os) h))
  Step-Sound s t (invites body code now os e) h =
      rw e (answered _ (create_invite-Answered body code now (world s os) h))
  Step-Sound s t (revokes code os e) h =
      rw e (answered _ (delete_invite-Answered code (world s os) h))
  Step-Sound s t (starts email password d os e) h =
      rw e (store-Leaves _ (seed_admin-Leaves ps email password d (world s os) h))

  -- Where there is an account, the identifiers are different and every address is valid, the same
  -- holds after any series of requests that create, change, delete, register or invite, and of starts
  -- of the server, with any failures of their calls, as long as no two of them overlap. So the
  -- management never deletes the last account.
  pub Reach-Sound : (s t : Directory) → Sound s → Reach s t → Sound t
  Reach-Sound s t h here = h
  Reach-Sound s u h (next {t} r st) = Step-Sound t u st (Reach-Sound s t h r)

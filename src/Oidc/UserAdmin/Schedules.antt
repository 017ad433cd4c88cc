-- ===== src/Oidc/UserAdmin/Schedules.antt =====
-- Every order of the calls of two deletions of the last two accounts.
use griya_maya.Base.{
  ℕ, zero, suc, ◌+◌, ◌≡◌, refl, ap, ◌∙◌, Bool, true, false, ◌&&◌, ◌==◌, List, [], ◌∷◌, ◌++◌, map,
  keep, if◌then◌else◌,
}
use griya_maya.Text.{str, str_eq}
use griya_maya.Text.Laws.{str_eq_refl, str_eq_comm}
use griya_maya.Effect.{World, query, exec, call}
use griya_maya.Effect.Laws.{world}
use griya_maya.Oidc.Reply.{respond_err, no_content}
use griya_maya.Oidc.Users.{UserRow, InviteRow, Directory, user_by_id, user_count, delete_user}
use griya_maya.Oidc.UserAdmin.{user_not_found, conflict}
use griya_maya.Oidc.UserAdmin.Interleaved.{
  Stage, looking, counting, removing, finished, advance, turns,
}

abbrev words : ℕ → List (List Bool)
words zero = [] ∷ []
words (suc n) = let ws = words n in map (λ w. true ∷ w) ws ++ map (λ w. false ∷ w) ws

abbrev turns_of_first : List Bool → ℕ
turns_of_first [] = 0
turns_of_first (t ∷ ts) = let n = turns_of_first ts in if t then n + 1 else n

-- the 20 orders of three calls of each of the two
abbrev pub orders : List (List Bool)
orders = keep (λ ts. turns_of_first ts == 3) (words 6)

-- whether the n-th call of the first comes before the m-th of the second
abbrev pub sooner : ℕ → ℕ → List Bool → Bool
sooner zero m ts = true
sooner (suc n) zero ts = false
sooner (suc n) (suc m) [] = false
sooner (suc n) (suc m) (true ∷ ts) = sooner n (suc m) ts
sooner (suc n) (suc m) (false ∷ ts) = sooner (suc n) m ts

-- a deletion of an account of two, of which `mine` says whether it is there, and `other` of the other
abbrev move : Stage → Bool → Bool → Stage × Bool
move looking true other = (counting, true)
move looking false other = (finished user_not_found, false)
move counting mine other = (if mine && other then removing else finished conflict, mine)
move removing mine other = (finished no_content, false)
move (finished r) mine other = (finished r, mine)

abbrev run : List Bool → Stage × Stage × Bool × Bool → Stage × Stage × Bool × Bool
run [] s = s
run (true ∷ ts) (p, q, x, y) = run ts ((move p x y).0, q, (move p x y).1, y)
run (false ∷ ts) (p, q, x, y) = run ts (p, (move q y x).0, x, (move q y x).1)

module _ (a b : UserRow) (invites : List InviteRow) where
  abbrev left : Bool → Bool → List UserRow
  left true true = a ∷ b ∷ []
  left true false = a ∷ []
  left false true = b ∷ []
  left false false = []

  abbrev accounts : Bool → Bool → World Directory
  accounts x y = world (record { users = left x y; invites = invites }) []

  abbrev seen : Stage × Stage × Bool × Bool → Stage × Stage × World Directory
  seen (p, q, x, y) = (p, q, accounts x y)

  -- what comes of an order: the answers of the two, and the accounts that are left
  abbrev pub outcome : List Bool → Stage × Stage × World Directory
  outcome ts =
      if sooner 3 2 ts
      then (
        finished no_content,
        finished (respond_err 409 (str "conflict")),
        world (record { users = b ∷ []; invites = invites }) [],
      )
      else if sooner 2 3 ts
      then (
        finished no_content,
        finished no_content,
        world (record { users = []; invites = invites }) [],
      )
      else (
        finished (respond_err 409 (str "conflict")),
        finished no_content,
        world (record { users = a ∷ []; invites = invites }) [],
      )

  module _ (apart : str_eq a.id b.id ≡ false) where
    apart' : str_eq b.id a.id ≡ false
    apart' = str_eq_comm b.id a.id ∙ apart

    advance-first :
        (p : Stage) (x y : Bool)
        → advance a.id p (accounts x y) ≡ ((move p x y).0, accounts (move p x y).1 y)
    unfolding advance user_by_id user_count delete_user query exec call
    advance-first looking true true = rw (str_eq_refl a.id) refl
    advance-first looking true false = rw (str_eq_refl a.id) refl
    advance-first looking false true = rw apart' refl
    advance-first looking false false = refl
    advance-first counting true true = refl
    advance-first counting true false = refl
    advance-first counting false true = refl
    advance-first counting false false = refl
    advance-first removing true true = rw (str_eq_refl a.id, apart') refl
    advance-first removing true false = rw (str_eq_refl a.id) refl
    advance-first removing false true = rw apart' refl
    advance-first removing false false = refl
    advance-first (finished r) x y = refl

    advance-second :
        (q : Stage) (x y : Bool)
        → advance b.id q (accounts x y) ≡ ((move q y x).0, accounts x (move q y x).1)
    unfolding advance user_by_id user_count delete_user query exec call
    advance-second looking true true = rw (apart, str_eq_refl b.id) refl
    advance-second looking true false = rw apart refl
    advance-second looking false true = rw (str_eq_refl b.id) refl
    advance-second looking false false = refl
    advance-second counting true true = refl
    advance-second counting true false = refl
    advance-second counting false true = refl
    advance-second counting false false = refl
    advance-second removing true true = rw (apart, str_eq_refl b.id) refl
    advance-second removing true false = rw apart refl
    advance-second removing false true = rw (str_eq_refl b.id) refl
    advance-second removing false false = refl
    advance-second (finished r) x y = refl

    turns-run :
        (ts : List Bool) (p q : Stage) (x y : Bool)
        → turns a.id b.id ts (p, q, accounts x y) ≡ seen (run ts (p, q, x, y))
    unfolding turns
    turns-run [] p q x y = refl
    turns-run (true ∷ ts) p q x y =
        rw (advance-first p x y) (turns-run ts (move p x y).0 q (move p x y).1 y)
    turns-run (false ∷ ts) p q x y =
        rw (advance-second q x y) (turns-run ts p (move q y x).0 x (move q y x).1)

    map-turns :
        (tss : List (List Bool))
        → map (λ ts. turns a.id b.id ts (looking, looking, accounts true true)) tss
          ≡ map (λ ts. seen (run ts (looking, looking, true, true))) tss
    map-turns [] = refl
    map-turns (ts ∷ tss) =
        rw (turns-run ts looking looking true true)
          (ap (λ os. seen (run ts (looking, looking, true, true)) ∷ os) (map-turns tss))

    -- For two deletions of the two different accounts that there are, none of their calls failing, in
    -- each of the 20 orders of their calls, which look the account up, count the accounts and delete: if
    -- one deletes before the other counts, it is answered by 204, the other by 409, and the other's
    -- account is left; otherwise both are answered by 204, and no account is left.
    pub delete_interleaved :
        map
          (λ ts.
            turns a.id b.id ts
              (looking, looking, world (record { users = a ∷ b ∷ []; invites = invites }) []))
          orders
        ≡ map outcome orders
    delete_interleaved = map-turns orders ∙ refl

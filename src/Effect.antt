-- ===== src/Effect.antt =====
-- Calls of remote services: a state, the coming outcomes of the calls, and errors as values.
-- D1, KV, R2 and the queues are reached over HTTP. A call whose outcome is `refused` had no effect,
-- one whose outcome is `lost` took effect and its answer never came: both are errors to the caller.
-- Past the end of the list of outcomes every call is answered.
pub mod Laws
pub mod Steady
use griya_maya.Base.{Bool, true, false, List, [], ◌∷◌, Option, none, some}

-- The errors that the server tells apart, domain.ErrNotFound and the others, and those of the token
-- endpoint and of the sign-in; `upstream` is any error that is none of them. Wrapping by fmt.Errorf
-- with %w keeps the error, so texts are left out.
pub data Error : Type 0 where
  not_found invalid_input unsupported_format unauthorized upstream : Error
  unknown_token expired_token reused_token invalid_client : Error
  bad_credentials email_not_verified login_required : Error

pub data Result {ℓ} (A : Type ℓ) : Type ℓ where
  ok : A → Result A
  err : Error → Result A

pub data Outcome : Type 0 where
  answered refused lost : Outcome

pub record World (S : Type 0) : Type 0 where
  pub store : S
  pub outcomes : List Outcome

abbrev pub Exec : Type 0 → Type 0 → Type 0
Exec S A = World S → Result A × World S

module _ {S A : Type 0} where
  abbrev pub pure : A → Exec S A
  pure a w = (ok a, w)

  abbrev pub fail : Error → Exec S A
  fail e w = (err e, w)

  -- a call that answers `a` and leaves the store `s`
  abbrev settle : World S → A → S → List Outcome → Result A × World S
  settle w a s [] = (ok a, record w { store = s })
  settle w a s (answered ∷ later) = (ok a, record { store = s; outcomes = later })
  settle w a s (refused ∷ later) = (err upstream, record { store = w.store; outcomes = later })
  settle w a s (lost ∷ later) = (err upstream, record { store = s; outcomes = later })

  -- one remote call
  unfoldable pub call : (S → A) → (S → S) → Exec S A
  call answer change w = settle w (answer w.store) (change w.store) w.outcomes

module _ {S : Type 0} where
  -- a call that only reads, and one that only writes
  unfoldable pub query : {A : Type 0} → (S → A) → Exec S A
  unfolding call
  query answer = call answer (λ s. s)

  unfoldable pub exec : (S → S) → Exec S (Unit {0})
  unfolding call
  exec change = call (λ _. tt) change

  -- a statement that a constraint of the schema may refuse: it changes nothing then
  unfoldable pub exec_checked : (S → Option S) → Exec S (Unit {0})
  unfolding call
  exec_checked change w = elim (change w.store) [
    | none ↦ (err upstream, (call (λ _. tt) (λ s. s) w).1)
    | some s ↦ call (λ _. tt) (λ _. s) w
  ]

module _ {S A B : Type 0} where
  abbrev pub continue : Result A × World S → (A → Exec S B) → Result B × World S
  continue (ok a, w) f = f a w
  continue (err e, w) f = (err e, w)

  infixl 5 ◌>>=◌ ◌>>◌
  abbrev pub ◌>>=◌ : Exec S A → (A → Exec S B) → Exec S B
  ◌>>=◌ m f w = continue (m w) f

  abbrev pub ◌>>◌ : Exec S A → Exec S B → Exec S B
  ◌>>◌ m n = m >>= λ _. n

module _ {S A : Type 0} where
  -- `_ = call()`: the error is dropped and the effect stays
  abbrev pub attempt : Exec S A → Exec S (Unit {0})
  attempt m w = (ok tt, (m w).1)

  abbrev pub lift : Result A → Exec S A
  lift r w = (r, w)

-- an early return of an error
abbrev pub guard : {S : Type 0} → Bool → Error → Exec S (Unit {0})
guard true e w = (ok tt, w)
guard false e w = (err e, w)

-- a computation on a part of the state
module _ {S T A : Type 0} where
  abbrev pub zoom : (S → T) → (T → S → S) → Exec T A → Exec S A
  zoom part with_part m w =
      let (r, v) = m (record { store = part w.store; outcomes = w.outcomes }) in
      (r, record { store = with_part v.store w.store; outcomes = v.outcomes })

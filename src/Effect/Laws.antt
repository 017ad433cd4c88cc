-- ===== src/Effect/Laws.antt =====
-- Reasoning about remote calls: what holds of the answer and the state after a computation, for
-- every list of outcomes.
use griya_maya.Base.{◌≡◌, refl, sym, ap, List, [], ◌∷◌, Option, none, some}
use griya_maya.Effect.{
  Error, Result, ok, err, upstream, Outcome, answered, refused, lost, World, Exec, call, query,
  exec, exec_checked, continue, zoom,
}

abbrev pub world : {S : Type 0} → S → List Outcome → World S
world s os = record { store = s; outcomes = os }

module _ {S A : Type 0} where
  -- `Q` of an answer and the state that it leaves, `E` of an error and the state that it leaves
  abbrev pub Post :
      (A → World S → Type 0) → (Error → World S → Type 0) → Result A × World S → Type 0
  Post Q E (ok a, w) = Q a w
  Post Q E (err e, w) = E e w

  -- one remote call: it is answered, or it failed before or after it took effect
  pub Post-call :
      (Q : A → World S → Type 0) (E : Error → World S → Type 0) (f : S → A) (g : S → S)
      (w : World S)
      → ((os : List Outcome) → Q (f w.store) (world (g w.store) os))
      → ((os : List Outcome) → E upstream (world w.store os))
      → ((os : List Outcome) → E upstream (world (g w.store) os))
      → Post Q E (call f g w)
  unfolding call
  Post-call Q E f g w good early late = by_outcome w.outcomes good early late
    where
      by_outcome :
          (os : List Outcome)
          → ((os : List Outcome) → Q (f w.store) (world (g w.store) os))
          → ((os : List Outcome) → E upstream (world w.store os))
          → ((os : List Outcome) → E upstream (world (g w.store) os))
          → Post Q E (call f g (record { store = w.store; outcomes = os }))
      by_outcome [] good early late = good []
      by_outcome (answered ∷ os) good early late = good os
      by_outcome (refused ∷ os) good early late = early os
      by_outcome (lost ∷ os) good early late = late os

  pub Post-query :
      (Q : A → World S → Type 0) (E : Error → World S → Type 0) (f : S → A) (w : World S)
      → ((os : List Outcome) → Q (f w.store) (world w.store os))
      → ((os : List Outcome) → E upstream (world w.store os))
      → Post Q E (query f w)
  unfolding query
  Post-query Q E f w good bad = Post-call Q E f (λ s. s) w good bad bad

  -- a postcondition may be weakened
  pub Post-weaken :
      (Q Q' : A → World S → Type 0) (E E' : Error → World S → Type 0) (r : Result A × World S)
      → Post Q E r
      → ((a : A) (w : World S) → Q a w → Q' a w)
      → ((e : Error) (w : World S) → E e w → E' e w)
      → Post Q' E' r
  Post-weaken Q Q' E E' (ok a, w) h q e = q a w h
  Post-weaken Q Q' E E' (err x, w) h q e = e x w h

module _ {S : Type 0} where
  pub Post-exec :
      (Q : Unit {0} → World S → Type 0) (E : Error → World S → Type 0) (g : S → S) (w : World S)
      → ((os : List Outcome) → Q tt (world (g w.store) os))
      → ((os : List Outcome) → E upstream (world w.store os))
      → ((os : List Outcome) → E upstream (world (g w.store) os))
      → Post Q E (exec g w)
  unfolding exec
  Post-exec Q E g w good early late = Post-call Q E (λ _. tt) g w good early late

module _ {S A B : Type 0} where
  -- a computation and what is done with its answer
  pub Post-bind :
      (Q : B → World S → Type 0) (E : Error → World S → Type 0) (r : Result A × World S)
      (f : A → Exec S B)
      → Post (λ a w. Post Q E (f a w)) E r
      → Post Q E (continue r f)
  Post-bind Q E (ok a, w) f h = h
  Post-bind Q E (err e, w) f h = h

  -- a computation whose postcondition `Q` is what the rest needs
  pub Post-seq :
      (Q : A → World S → Type 0) (R : B → World S → Type 0) (E : Error → World S → Type 0)
      (r : Result A × World S) (f : A → Exec S B)
      → Post Q E r
      → ((a : A) (w : World S) → Q a w → Post R E (f a w))
      → Post R E (continue r f)
  Post-seq Q R E (ok a, w) f h rest = rest a w h
  Post-seq Q R E (err e, w) f h rest = h

module _ {S A : Type 0} where
  -- a computation that never fails, taken apart
  pub Post-result :
      (Q : A → World S → Type 0) (r : Result A × World S)
      → Post Q (λ _ _. ⊥) r
      → (a : A) × (r.0 ≡ ok a) × Q a r.1
  Post-result Q (ok a, w) h = (a, refl, h)
  Post-result Q (err e, w) h = absurd h

abbrev error_of : {A : Type 0} → Result A → Error
error_of (ok a) = upstream
error_of (err e) = e

abbrev answer_or : {A : Type 0} → A → Result A → A
answer_or d (ok a) = a
answer_or d (err e) = d

module _ {S A : Type 0} where
  -- a postcondition, read from the answer
  pub Post-answers :
      (Q : A → World S → Type 0) (E : Error → World S → Type 0) (r : Result A × World S)
      → Post Q E r
      → ((a : A) → r.0 ≡ ok a → Q a r.1) × ((e : Error) → r.0 ≡ err e → E e r.1)
  Post-answers Q E (ok a, v) h = ((λ b e. rw (sym (ap (answer_or a) e)) h), (λ e x. cc))
  Post-answers Q E (err e, v) h = ((λ a x. cc), (λ x f. rw (sym (ap error_of f)) h))

module _ {S : Type 0} where
  -- a statement that a constraint may refuse
  pub Post-exec_checked :
      (Q : Unit {0} → World S → Type 0) (E : Error → World S → Type 0) (g : S → Option S)
      (w : World S)
      → ((s : S) → g w.store ≡ some s → (os : List Outcome) → Q tt (world s os))
      → ((s : S) → g w.store ≡ some s → (os : List Outcome) → E upstream (world s os))
      → ((os : List Outcome) → E upstream (world w.store os))
      → Post Q E (exec_checked g w)
  unfolding exec_checked call
  Post-exec_checked Q E g w good late early = by_change (g w.store) refl
    where
      by_change :
          (o : Option S)
          → g w.store ≡ o
          → Post Q E (elim o [
            | none ↦ (err upstream, (call (λ _. tt) (λ s. s) w).1)
            | some s ↦ call (λ _. tt) (λ _. s) w
          ])
      by_change (some s) e =
          Post-call Q E (λ _. tt) (λ _. s) w (λ os. good s e os) early (λ os. late s e os)
      by_change none e = refused_at w.outcomes
        where
          refused_at :
              (os : List Outcome) → E upstream (call (λ (_ : S). tt) (λ s. s) (world w.store os)).1
          refused_at [] = early []
          refused_at (answered ∷ os) = early os
          refused_at (refused ∷ os) = early os
          refused_at (lost ∷ os) = early os

module _ {S T A : Type 0} where
  -- a computation on a part of the state
  pub Post-zoom :
      (Q : A → World T → Type 0) (E : Error → World T → Type 0) (Q' : A → World S → Type 0)
      (E' : Error → World S → Type 0) (part : S → T) (with_part : T → S → S) (m : Exec T A)
      (w : World S)
      → Post Q E (m (world (part w.store) w.outcomes))
      → ((a : A) (v : World T) → Q a v → Q' a (world (with_part v.store w.store) v.outcomes))
      → ((e : Error) (v : World T) → E e v → E' e (world (with_part v.store w.store) v.outcomes))
      → Post Q' E' (zoom part with_part m w)
  Post-zoom Q E Q' E' part with_part m w h good bad =
      by_result (m (world (part w.store) w.outcomes)) h
    where
      by_result :
          (r : Result A × World T)
          → Post Q E r
          → Post Q' E' (r.0, world (with_part r.1.store w.store) r.1.outcomes)
      by_result (ok a, v) h = good a v h
      by_result (err e, v) h = bad e v h

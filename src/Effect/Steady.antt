-- ===== src/Effect/Steady.antt =====
-- Computations that end well when every remote call is answered.
use griya_maya.Base.{◌≡◌, refl, []}
use griya_maya.Effect.{Error, Result, ok, err, World, Exec, query, exec, attempt, continue}
use griya_maya.Effect.Laws.{Post, Post-seq}

abbrev pub Impossible : {S : Type 0} → Error → World S → Type 0
Impossible e w = ⊥

-- with no failure ahead the computation succeeds, and there is none ahead after it
module _ {S A : Type 0} where
  abbrev pub Calm : A → World S → Type 0
  Calm _ w = w.outcomes ≡ []

  pub query-Calm : (f : S → A) (w : World S) → w.outcomes ≡ [] → Post Calm Impossible (query f w)
  unfolding query
  query-Calm f w h = rw h refl

  pub attempt-Calm :
      (m : Exec S A) (w : World S) → Post Calm Impossible (m w) → (attempt m w).1.outcomes ≡ []
  attempt-Calm m w h = by_result (m w) h
    where
      by_result : (r : Result A × World S) → Post Calm Impossible r → r.1.outcomes ≡ []
      by_result (ok a, v) h = h
      by_result (err e, v) h = absurd h

pub exec-Calm :
    {S : Type 0} (g : S → S) (w : World S) → w.outcomes ≡ [] → Post Calm Impossible (exec g w)
unfolding exec
exec-Calm g w h = rw h refl

module _ {S A B : Type 0} where
  pub bind-Calm :
      (r : Result A × World S) (f : A → Exec S B)
      → Post Calm Impossible r
      → ((a : A) (w : World S) → w.outcomes ≡ [] → Post Calm Impossible (f a w))
      → Post Calm Impossible (continue r f)
  bind-Calm r f h rest = Post-seq Calm Calm Impossible r f h rest

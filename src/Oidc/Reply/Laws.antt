-- ===== src/Oidc/Reply/Laws.antt =====
-- Reasoning about handlers: a property of the answer and of the state that it leaves.
use griya_maya.Base.{◌≡◌, refl, Bool, true, false, Option, none, some}
use griya_maya.Effect.{Error, Result, ok, err, World, query}
use griya_maya.Effect.Laws.{Post, Post-query}
use griya_maya.Oidc.Reply.{Reply, Handler, require, on_result, with_some}

module _ {S A B : Type 0} (P : Reply B × World S → Type 0) where
  pub on-Post :
      (Q : A → World S → Type 0) (E : Error → World S → Type 0) (failed : Reply B)
      (f : A → Handler S B) (r : Result A × World S)
      → Post Q E r
      → ((a : A) (w : World S) → Q a w → P (f a w))
      → ((e : Error) (w : World S) → E e w → P (failed, w))
      → P (on_result failed f r)
  unfolding on_result
  on-Post Q E failed f (ok a, w) h good bad = good a w h
  on-Post Q E failed f (err e, w) h good bad = bad e w h

  pub with_some-Post :
      (o : Option A) (missing : Reply B) (f : A → Handler S B) (w : World S)
      → ((a : A) → o ≡ some a → P (f a w))
      → (o ≡ none → P (missing, w))
      → P (with_some o missing f w)
  unfolding with_some
  with_some-Post none missing f w good bad = bad refl
  with_some-Post (some a) missing f w good bad = good a refl

  -- a query, which leaves the state as it was
  pub on_query-Post :
      (failed : Reply B) (f : S → A) (k : A → Handler S B) (w : World S)
      → ((v : World S) → v.store ≡ w.store → P (k (f w.store) v))
      → ((v : World S) → v.store ≡ w.store → P (failed, v))
      → P (on_result failed k (query f w))
  on_query-Post failed f k w good bad =
      on-Post (λ a v. (a ≡ f w.store) × (v.store ≡ w.store)) (λ e v. v.store ≡ w.store) failed k
        (query f w)
        (Post-query (λ a v. (a ≡ f w.store) × (v.store ≡ w.store)) (λ e v. v.store ≡ w.store) f w
          (λ os. (refl, refl)) (λ os. refl))
        (λ a v (read, same). rw read (good v same)) (λ e v same. bad v same)

module _ {S B : Type 0} (P : Reply B × World S → Type 0) where
  pub require-Post :
      (b : Bool) (refusal : Reply B) (rest : Handler S B) (w : World S)
      → (b ≡ true → P (rest w))
      → (b ≡ false → P (refusal, w))
      → P (require b refusal rest w)
  unfolding require
  require-Post true refusal rest w good bad = good refl
  require-Post false refusal rest w good bad = bad refl

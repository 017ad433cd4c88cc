-- ===== src/Base/Keep.antt =====
-- Laws of filtering by a Boolean test.
use griya_maya.Base.{◌≡◌, refl, Bool, true, ◌&&◌, List, [], ◌∷◌, keep, arith}

module _ {ℓ} {A : Type ℓ} where
  -- filtering twice is filtering once by both tests
  pub keep-keep :
      (p q r : A → Bool) (xs : List A)
      → ((x : A) → r x ≡ (q x && p x))
      → keep p (keep q xs) ≡ keep r xs
  keep-keep p q r [] h = refl
  keep-keep p q r (x ∷ xs) h = ground (arith, keep-keep p q r xs h, h x)

  pub keep-eq : (p q : A → Bool) (xs : List A) → ((x : A) → p x ≡ q x) → keep p xs ≡ keep q xs
  keep-eq p q [] h = refl
  keep-eq p q (x ∷ xs) h = ground (arith, keep-eq p q xs h, h x)

  pub keep-all : (p : A → Bool) (xs : List A) → ((x : A) → p x ≡ true) → keep p xs ≡ xs
  keep-all p [] h = refl
  keep-all p (x ∷ xs) h = ground (arith, keep-all p xs h, h x)

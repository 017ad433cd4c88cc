-- ===== src/Connections/Suggestions/Fuel.antt =====
-- The fuel of itoa is enough.
use griya_maya.Base.{
  ℕ, zero, suc, ◌+◌, ◌/◌, ◌%◌, ◌<◌, ◌≡◌, refl, ap, [], ◌∷◌, ◌++◌, ltb, inl, inr, Bool-cases, arith,
}
use griya_maya.Connections.Suggestions.{digits}

-- Any two amounts of fuel above a number print it alike, so that of itoa, the number plus one, is
-- never used up.
pub digits_fuel : (f g n : ℕ) → n < f → n < g → digits f n ≡ digits g n
digits_fuel zero g n h k = absurd (omega arith)
digits_fuel (suc f) zero n h k = absurd (omega arith)
digits_fuel (suc f) (suc g) n h k = elim (Bool-cases (ltb n 10)) [
  | inl small ↦ rw small refl
  | inr large ↦
      rw large (
        ap (λ s. s ++ (b'0' + n % 10) ∷ [])
          (digits_fuel f g (n / 10) (ground arith) (ground arith)))
]

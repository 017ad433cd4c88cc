-- ===== src/Worker/Cleanup/Backoff.antt =====
-- The delay before a message is tried again.
use griya_maya.Base.{ℕ, zero, suc, ◌*◌, ◌≤◌, min, ◌≡◌, refl, arith}
use griya_maya.Base.Int.{pos, negsuc}
use griya_maya.Worker.Cleanup.{backoff, attempts_from_zero}

backoff_cap : (n : ℕ) → 7 ≤ n → backoff (pos n) ≡ 3600
unfolding backoff
backoff_cap n h = let e : min (attempts_from_zero (pos n)) 7 ≡ 7 = omega arith in rw e refl

backoff_late : (n : ℕ) → 7 ≤ n → backoff (pos (suc n)) ≡ min (2 * backoff (pos n)) 3600
backoff_late n h = rw (backoff_cap (suc n) (omega arith), backoff_cap n h) refl

backoff_double : (n : ℕ) → backoff (pos (suc n)) ≡ min (2 * backoff (pos n)) 3600
unfolding backoff
backoff_double zero = refl
backoff_double (suc zero) = refl
backoff_double (suc (suc zero)) = refl
backoff_double (suc (suc (suc zero))) = refl
backoff_double (suc (suc (suc (suc zero)))) = refl
backoff_double (suc (suc (suc (suc (suc zero))))) = refl
backoff_double (suc (suc (suc (suc (suc (suc zero)))))) = refl
backoff_double (suc (suc (suc (suc (suc (suc (suc n))))))) = backoff_late _ (omega arith)

backoff_start : backoff (pos 0) ≡ 30
unfolding backoff
backoff_start = refl

backoff_range : (n : ℕ) → (30 ≤ backoff (pos n)) × (backoff (pos n) ≤ 3600)
backoff_range zero = omega (arith, backoff_start)
backoff_range (suc n) = omega (arith, backoff_double n, backoff_range n)

backoff_negative : (n : ℕ) → backoff (negsuc n) ≡ 30
unfolding backoff
backoff_negative n = refl

-- The delay starts at 30 seconds, also for a count below zero, doubles with each attempt up to an
-- hour, and is never outside 30 seconds to an hour.
pub backoff_bounds :
    (n : ℕ)
    → (backoff (pos 0) ≡ 30)
      × (backoff (negsuc n) ≡ 30)
      × (backoff (pos (suc n)) ≡ min (2 * backoff (pos n)) 3600)
      × (30 ≤ backoff (pos n))
      × (backoff (pos n) ≤ 3600)
backoff_bounds n =
    (backoff_start, backoff_negative n, backoff_double n, (backoff_range n).0, (backoff_range n).1)

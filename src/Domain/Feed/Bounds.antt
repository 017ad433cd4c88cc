-- ===== src/Domain/Feed/Bounds.antt =====
-- The page size of a feed.
use griya_maya.Base.{ℕ, ◌≤◌, arith}
use griya_maya.Base.Int.{ℤ, pos, negsuc, positive_or}
use griya_maya.Domain.Feed.{CatalogFilter, per_page}

positive_or_positive : (i : ℤ) → 1 ≤ positive_or 30 i
positive_or_positive (pos ℕ.zero) = omega arith
positive_or_positive (pos (ℕ.suc n)) = omega arith
positive_or_positive (negsuc n) = omega arith

-- Whatever the limit asked for, a page of a feed has at least 1 and at most 100 items.
pub per_page_bounds : (f : CatalogFilter) → (1 ≤ per_page f) × (per_page f ≤ 100)
unfolding per_page
per_page_bounds f =
    (ground (arith, positive_or_positive f.limit), ground (arith, positive_or_positive f.limit))

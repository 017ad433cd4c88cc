-- ===== src/Service/Feed/Laws.antt =====
-- What the feeds of the service answer.
use griya_maya.Base.{ℕ, suc, ◌≤◌, ◌≡◌, refl, ap, List, [], ◌∷◌, if◌then◌else◌, is_empty, arith}
use griya_maya.Base.Int.{pos, positive_or}
use griya_maya.Text.{Str, str}
use griya_maya.Effect.{ok, query, call}
use griya_maya.Effect.Laws.{world}
use griya_maya.Domain.Feed.{MediaPage, CatalogFilter, per_page}
use griya_maya.Domain.Feed.Bounds.{per_page_bounds}
use griya_maya.Cloud.{Store, MediaRow}
use griya_maya.Repo.Feed as Repo
use griya_maya.Repo.Feed.{feed_rows, search_rows, recommend_rows, page_of_rows, norm_per_page}
use griya_maya.Repo.Feed.Pages.{Fits, Tiles, page_of_rows-Tiles}
use griya_maya.Service.Ports.{Config}
use griya_maya.Service.Covers.{resolve_covers}
use griya_maya.Service.Feed.{no_filter, popular, latest, recommendations}

positive_or_same : (d n : ℕ) → 1 ≤ n → positive_or d (pos n) ≡ n
positive_or_same d ℕ.zero h = absurd (omega (arith, h))
positive_or_same d (ℕ.suc n) h = refl

-- When the call does not fail and the offset is in the range of an int, the popular and the latest
-- feed answer pages of the filter's size that tile the feed's matches, with their covers resolved.
pub popular-Tiles :
    (c : Config) (source_id : Str) (f : CatalogFilter) (s : Store) (p : ℕ)
    → Fits p (per_page f)
    → ((page : MediaPage) × ((popular c source_id (pos (suc p)) f (world s [])).0
          ≡ ok (resolve_covers c page))
        × Tiles s (feed_rows source_id (str "popular") f s) p (per_page f) page)
      × ((page : MediaPage) × ((latest c source_id (pos (suc p)) f (world s [])).0
            ≡ ok (resolve_covers c page))
          × Tiles s (feed_rows source_id (str "latest") f s) p (per_page f) page)
unfolding popular latest Repo.list query call
popular-Tiles c source_id f s p fits =
    let size = positive_or_same 30 (per_page f) (per_page_bounds f).0 in
    let most = feed_rows source_id (str "popular") f s in
    let new = feed_rows source_id (str "latest") f s in
    (
      (
        page_of_rows s most (suc p) (per_page f),
        ap (λ n. ok (resolve_covers c (page_of_rows s most (suc p) n))) size,
        page_of_rows-Tiles s most p (per_page f) fits,
      ),
      (
        page_of_rows s new (suc p) (per_page f),
        ap (λ n. ok (resolve_covers c (page_of_rows s new (suc p) n))) size,
        page_of_rows-Tiles s new p (per_page f) fits,
      ),
    )

-- the matches of the recommendations: without sub-types those of the popular feed
abbrev pub recommended : Str → List Str → List Str → Store → List MediaRow
recommended source_id sub_types exclude s =
    if is_empty sub_types
    then feed_rows source_id (str "popular") no_filter s
    else recommend_rows source_id sub_types exclude s

-- When the call does not fail and the offset is in the range of an int, the recommendations answer
-- pages of 30 that tile their matches, and with no sub-type given those are the matches of the popular
-- feed.
pub recommendations-Tiles :
    (c : Config) (source_id : Str) (sub_types exclude : List Str) (s : Store) (p : ℕ)
    → Fits p 30
    → (page : MediaPage) × ((recommendations c source_id sub_types exclude
          (pos (suc p))
          (world s [])).0
        ≡ ok (resolve_covers c page))
      × Tiles s (recommended source_id sub_types exclude s) p 30 page
unfolding recommendations Repo.list Repo.recommend query call
recommendations-Tiles c source_id [] exclude s p fits = (
  page_of_rows s (feed_rows source_id (str "popular") no_filter s) (suc p) 30,
  refl,
  page_of_rows-Tiles s (feed_rows source_id (str "popular") no_filter s) p 30 fits,
)
recommendations-Tiles c source_id (t ∷ ts) exclude s p fits = (
  page_of_rows s (recommend_rows source_id (t ∷ ts) exclude s) (suc p) 30,
  refl,
  page_of_rows-Tiles s (recommend_rows source_id (t ∷ ts) exclude s) p 30 fits,
)

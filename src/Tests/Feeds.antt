-- ===== src/Tests/Feeds.antt =====
-- The feeds of the catalog, the neighbours of its chapters.
use griya_maya.Base.{◌≡◌, refl, Bool, true, false, arith, List, none, [], ◌∷◌, keep, length}
use griya_maya.Base.Int.{pos}
use griya_maya.Text.{Str, str, str_eq}
use griya_maya.Effect.{ok}
use griya_maya.Effect.Laws.{world}
use griya_maya.Domain.Media.{Chapter, MediaWriteRequest}
use griya_maya.Domain.Feed.{MediaPage}
use griya_maya.Repo.Feed as Repo
use griya_maya.Repo.Feed.{feed_rows, search_rows, recommend_rows}
use griya_maya.Repo.Feed.Pages.{Tiles, feeds_tile}
use griya_maya.Repo.Feed.Order.{InOrder, column_for, wanted, feed_rows-Ordered}
use griya_maya.Service.Feed.{no_filter}
use griya_maya.Service.Reading.{ChapterNeighbors, chapter_neighbors}
use griya_maya.Service.Reading.Neighbors.{Ascending, Place, chapter_neighbors-Place}
use griya_maya.Tests.Shelf.{shelf, chapter}

abbrev contains_text : Str → Str → Bool
contains_text pattern text = true

feeds_tile_example :
    ((page : MediaPage) × ((Repo.list
          (str "s")
          (str "popular")
          (pos 1)
          (pos 1)
          no_filter
          (world shelf [])).0
        ≡ ok page)
      × Tiles shelf (feed_rows (str "s") (str "popular") no_filter shelf) 0 1 page)
    × ((page : MediaPage) × ((Repo.search contains_text
            (str "s")
            (str "t")
            (pos 1)
            (pos 1)
            no_filter
            (world shelf [])).0
          ≡ ok page)
        × Tiles shelf (search_rows contains_text (str "s") (str "t") no_filter shelf) 0 1 page)
    × ((page : MediaPage) × ((Repo.recommend
            (str "s")
            (str "isekai" ∷ [])
            []
            (pos 1)
            (pos 1)
            (world shelf [])).0
          ≡ ok page)
        × Tiles shelf (recommend_rows (str "s") (str "isekai" ∷ []) [] shelf) 0 1 page)
feeds_tile_example =
    feeds_tile contains_text (str "s") (str "popular") (str "t") no_filter (str "isekai" ∷ []) []
      shelf 0 0 (omega arith, omega arith)

feed_rows-Ordered_example :
    InOrder
      (column_for no_filter (str "popular"))
      false
      (feed_rows (str "s") (str "popular") no_filter shelf)
    × (length (keep (λ r. true) (feed_rows (str "s") (str "popular") no_filter shelf))
        ≡ length (keep (λ r. true) (keep (wanted (str "s") no_filter) shelf.media)))
feed_rows-Ordered_example = feed_rows-Ordered (str "s") (str "popular") no_filter shelf (λ r. true)

abbrev request : MediaWriteRequest
request = record {
  source_id = str "s";
  type = [];
  sub_type = [];
  url = [];
  title = str "t";
  cover_url = [];
  description = [];
  status = [];
  genres = [];
  authors = [];
  artists = [];
}

chapter_neighbors-Place_example :
    (nb : ChapterNeighbors) × (siblings : List Chapter) × ((chapter_neighbors
        (str "b")
        (world shelf [])).0
      ≡ ok nb)
    × Place none (str "b") siblings nb
    × Ascending siblings
    × (length (keep (λ c. true) siblings)
        ≡ length (keep (λ c. true) (keep (λ c. str_eq c.media_id (str "m")) shelf.chapters)))
unfolding str_eq
chapter_neighbors-Place_example =
    chapter_neighbors-Place (str "b") shelf (chapter (str "b")) (λ c. true) refl

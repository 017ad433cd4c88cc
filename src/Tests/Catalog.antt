-- ===== src/Tests/Catalog.antt =====
-- Deletes from the catalog, and the worker's jobs.
use griya_maya.Tests.Shelf.{live_config, shelf, job, message}
use griya_maya.Base.{
  ◌≡◌, ◌≤◌, ◌*◌, min, refl, Bool, false, not, ◌&&◌, ◌||◌, [], ◌∷◌, ◌++◌, keep, any,
}
use griya_maya.Base.Int.{pos, negsuc}
use griya_maya.Text.{str, str_eq, blank}
use griya_maya.Effect.{ok}
use griya_maya.Effect.Laws.{world}
use griya_maya.Domain.Media.{StoredPage}
use griya_maya.Service.Cleanup.Prefixes.{covers}
use griya_maya.Service.Cleanup.Scheduling.{scheduled}
use griya_maya.Service.Deletes.{delete_chapters, delete_media}
use griya_maya.Service.Deletes.Rows.{named}
use griya_maya.Service.Deletes.Laws.{goes_with, delete_chapters-scheduled}
use griya_maya.Service.Deletes.Whole.{own_pages, own_cover, delete_media-scheduled}
use griya_maya.Worker.Bucket.Laws.{has_object}
use griya_maya.Worker.Cleanup.{process, backoff}
use griya_maya.Worker.Cleanup.Laws.{names, process_sound}
use griya_maya.Worker.Cleanup.Backoff.{backoff_bounds}

-- a segment of the bundle goes with the playlist of the chapter
delete_chapters-scheduled_example :
    ((delete_chapters live_config (str " a" ∷ []) (world shelf [])).0 ≡ ok tt)
    × (scheduled (str "hls/v/1") (delete_chapters live_config (str " a" ∷ []) (world shelf [])).1
        ≡ (scheduled (str "hls/v/1") (world shelf [])
            || goes_with (str "hls/v/1") (named (str " a" ∷ [])) shelf.pages))
delete_chapters-scheduled_example =
    delete_chapters-scheduled live_config (str " a" ∷ []) (world shelf []) (str "hls/v/1") refl refl

delete_media-scheduled_example :
    ((delete_media live_config (str "m") (world shelf [])).0 ≡ ok tt)
    × (scheduled (str "p/2") (delete_media live_config (str "m") (world shelf [])).1 ≡ (
        scheduled (str "p/2") (world shelf [])
        || any
            (λ j. covers j (str "p/2"))
            (own_pages (str "m") shelf ++ own_cover (str "m") shelf)))
    × ((delete_media live_config (str "m") (world shelf [])).1.store.media
        ≡ keep (λ row. not (str_eq row.id (str "m"))) shelf.media)
    × ((delete_media live_config (str "m") (world shelf [])).1.store.chapters
        ≡ keep (λ ch. not (str_eq ch.media_id (str "m"))) shelf.chapters)
    × ((delete_media live_config (str "m") (world shelf [])).1.store.pages
        ≡ keep
            (λ row. not (
              any
                (λ ch. str_eq ch.media_id (str "m") && str_eq ch.id row.chapter_id)
                shelf.chapters))
            shelf.pages)
unfolding blank
delete_media-scheduled_example =
    delete_media-scheduled live_config (str "m") shelf (str "p/2") refl refl

abbrev found_page : StoredPage
found_page = record { index = 1; r2_key = str "hls/v/i"; width = 0; height = 0; kind = str "image" }

process_sound_example :
    (done : Bool) × ((process message (world shelf [])).0 ≡ ok done)
    × ((done
          && names job (str "hls/v/1")
          && not (blank (str "hls/v/1"))
          && has_object (str "hls/v/1") (process message (world shelf [])).1)
        ≡ false)
    × ((names job (str "hls/v/1")
          || has_object (str "hls/v/1") (process message (world shelf [])).1)
        ≡ (names job (str "hls/v/1") || has_object (str "hls/v/1") (world shelf [])))
process_sound_example = process_sound (str "hls/v/1") job message (world shelf []) refl

backoff_bounds_example :
    (backoff (pos 0) ≡ 30)
    × (backoff (negsuc 3) ≡ 30)
    × (backoff (pos 4) ≡ min (2 * backoff (pos 3)) 3600)
    × (30 ≤ backoff (pos 3))
    × (backoff (pos 3) ≤ 3600)
backoff_bounds_example = backoff_bounds 3

-- ===== src/Tests/Covers.antt =====
-- A cover that is mirrored, and one that an update sends back.
use griya_maya.Base.{ℕ, ◌≡◌, refl, Bool, some, [], ◌∷◌, map}
use griya_maya.Base.Int.{pos}
use griya_maya.Text.{Str, str, str_eq, blank, contains, has_prefix, trim_space}
use griya_maya.Effect.{Result, ok, lost, query, exec}
use griya_maya.Effect.Laws.{world}
use griya_maya.Domain.Media.{MediaWriteRequest, known_type}
use griya_maya.Domain.Jobs.{CoverMirrorJob}
use griya_maya.Repo.Reads.{media_from_row, names_of, get}
use griya_maya.Repo.Taxonomy.{
  TaxonomyKind, sync_all_taxonomies, sync_taxonomy, link_names, delete_links,
}
use griya_maya.Repo.Writes as Repo
use griya_maya.Repo.Writes.{rewrite_row}
use griya_maya.Service.Covers.{is_mirrored_cover, resolve_cover, page_url, enqueue_cover_mirror}
use griya_maya.Service.Ports.{public_url}
use griya_maya.Service.Media.{requested, media_from_request, validate_sub_type, update_media}
use griya_maya.Service.Media.Covers.{asked_row, update_media-kept_cover}
use griya_maya.Worker.Covers.{CoverMessage, mirror}
use griya_maya.Worker.Covers.Laws.{Answered, mirror_sound}
use griya_maya.Tests.Shelf.{live_config, shelf, media}

abbrev cover_job : CoverMirrorJob
cover_job = record { media_id = str "m"; source_url = str "https://y/c.png" }

abbrev cover_message : CoverMessage
cover_message = record { lease_id = str "l"; body = some cover_job; attempts = pos 1 }

abbrev fetched : Str → Result Str
fetched url = ok (str "png")

abbrev encoded : Str → Result Str
encoded raw = ok (str "avif")

mirror_sound_example :
    (done : Bool) × ((mirror fetched encoded 5 cover_message (world shelf (lost ∷ []))).0 ≡ ok done)
    × Answered fetched encoded 5 cover_job
        (str "avif")
        (world shelf (lost ∷ []))
        done
        (mirror fetched encoded 5 cover_message (world shelf (lost ∷ []))).1
mirror_sound_example =
    mirror_sound fetched encoded 5 cover_message cover_job (str "png") (str "avif")
      (world shelf (lost ∷ [])) refl refl refl refl

abbrev sent_back : MediaWriteRequest
sent_back = record {
  source_id = str "s";
  type = [];
  sub_type = [];
  url = [];
  title = str "t";
  cover_url = str "https://r2/c/m";
  description = [];
  status = [];
  genres = [];
  authors = [];
  artists = [];
}

abbrev fresh_ids : TaxonomyKind → ℕ → Str
fresh_ids kind n = n ∷ []

update_media-kept_cover_example :
    ((update_media live_config 5 fresh_ids (str "m") sent_back (world shelf [])).1.store.media
      ≡ map (asked_row (str "m") sent_back (str "c/m") 5) shelf.media)
    × ((update_media live_config 5 fresh_ids
          (str "m")
          sent_back
          (world shelf [])).1.store.cover_queue
        ≡ shelf.cover_queue)
unfolding str_eq media_from_row names_of is_mirrored_cover contains has_prefix update_media blank
    get query exec media_from_request known_type validate_sub_type Repo.update_media
    sync_all_taxonomies sync_taxonomy link_names delete_links enqueue_cover_mirror resolve_cover
    page_url public_url trim_space
update_media-kept_cover_example =
    update_media-kept_cover live_config 5 fresh_ids (str "m") sent_back (media_from_row shelf media)
      (resolve_cover live_config (
        media_from_row
          (record shelf {
            media =
                rewrite_row (record (requested (str "m") sent_back) { cover_url = str "c/m" }) 5
                  media
                ∷ [];
          })
          (rewrite_row (record (requested (str "m") sent_back) { cover_url = str "c/m" }) 5 media)))
      (world shelf []) refl refl refl refl

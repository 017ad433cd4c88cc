-- ===== src/Service/Covers.antt =====
-- media_service.go: covers and the addresses of R2 objects.
use griya_maya.Base.{Bool, not, ◌&&◌, ◌||◌, ◌++◌, map, if◌then◌else◌, is_empty}
use griya_maya.Text.{Str, str, contains, trim_left_char, trim_right_char}
use griya_maya.FilePath.{slash}
use griya_maya.Effect.{Exec, Result, ok, err, pure, attempt}
use griya_maya.Domain.Media.{Media}
use griya_maya.Domain.Feed.{MediaPage}
use griya_maya.Cloud.{Store}
use griya_maya.Service.Ports.{Config, present, enqueue_cover, public_url}

-- isMirroredCover
unfoldable pub is_mirrored_cover : Str → Bool
is_mirrored_cover cover = not (is_empty cover) && not (contains (str "://") cover)

-- MediaService.pageURL
unfoldable pub page_url : Config → Str → Result Str
page_url c key = let u = public_url c key in if is_empty u then c.presign_get key else ok u

-- streamURL; NewMediaService has trimmed the slashes at the end of the service's address
unfoldable pub stream_url : Config → Str → Str
stream_url c key =
    let u = public_url c key in
    if is_empty u
    then trim_right_char slash c.service_url ++ str "/v1/stream/" ++ trim_left_char slash key
    else u

abbrev pub with_cover : Media → Result Str → Media
with_cover m (ok u) = record m { cover_url = u }
with_cover m (err e) = m

-- MediaService.resolveCover
unfoldable pub resolve_cover : Config → Media → Media
resolve_cover c m =
    if is_mirrored_cover m.cover_url then with_cover m (page_url c m.cover_url) else m

-- MediaService.resolveCovers
unfoldable pub resolve_covers : Config → MediaPage → MediaPage
resolve_covers c p = record p { items = map (resolve_cover c) p.items }

-- MediaService.enqueueCoverMirror
unfoldable pub enqueue_cover_mirror : Config → Str → Str → Exec Store (Unit {0})
enqueue_cover_mirror c media_id cover =
    if not (present c.cover) || is_empty cover || is_mirrored_cover cover
    then pure tt
    else attempt (enqueue_cover c.cover (record { media_id = media_id; source_url = cover }))

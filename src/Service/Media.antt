-- ===== src/Service/Media.antt =====
-- media_service.go: the writes of media and chapters.
pub mod Covers
pub mod Laws
use griya_maya.Base.{ℕ, not, ◌&&◌, if◌then◌else◌, is_empty}
use griya_maya.Text.{Str, trim_space, blank, contains}
use griya_maya.Effect.{Exec, Result, ok, err, invalid_input, pure, guard, lift, ◌>>=◌, ◌>>◌}
use griya_maya.Domain.Media.{
  Media, MediaType, MediaWriteRequest, Chapter, ChapterWriteRequest, media_manga, status_unknown,
  known_type,
}
use griya_maya.Cloud.{Store}
use griya_maya.Repo.Taxonomy.{TaxonomyKind}
use griya_maya.Repo.Reads.{get, valid_sub_type}
use griya_maya.Repo.Writes as Repo
use griya_maya.Service.Ports.{Config}
use griya_maya.Service.Covers.{is_mirrored_cover, resolve_cover, enqueue_cover_mirror}

abbrev pub or_default : Str → Str → Str
or_default s d = if is_empty s then d else s

abbrev pub requested : Str → MediaWriteRequest → Media
requested id req = record {
  id = id;
  source_id = req.source_id;
  type = or_default req.type media_manga;
  sub_type = trim_space req.sub_type;
  url = or_default (trim_space req.url) id;
  title = req.title;
  cover_url = req.cover_url;
  description = req.description;
  genres = req.genres;
  authors = req.authors;
  artists = req.artists;
  status = or_default req.status status_unknown;
  updated_at = 0;
}

-- mediaFromRequest
unfoldable pub media_from_request : Str → MediaWriteRequest → Result Media
media_from_request id req =
    if blank req.source_id
    then err invalid_input
    else if blank req.title
    then err invalid_input
    else if known_type (or_default req.type media_manga)
    then ok (requested id req)
    else err invalid_input

-- MediaService.validateSubType
unfoldable pub validate_sub_type : MediaType → Str → Exec Store (Unit {0})
validate_sub_type t sub_type =
    let ask : Exec Store (Unit {0}) = do
      valid ← valid_sub_type t sub_type
      guard valid invalid_input
    in if is_empty sub_type then pure tt else ask

-- the cover that UpdateMedia writes: the stored R2 key where the request holds its signed address
abbrev pub kept_cover : Media → MediaWriteRequest → Str
kept_cover current req =
    if is_mirrored_cover current.cover_url && contains current.cover_url req.cover_url
    then current.cover_url
    else req.cover_url

module _ (c : Config) (now : ℕ) (ids : TaxonomyKind → ℕ → Str) where
  -- MediaService.CreateMedia; `id` is the identifier that uuid.NewString makes
  unfoldable pub create_media : Str → MediaWriteRequest → Exec Store Media
  create_media id req = do
    m ← lift (media_from_request id req)
    validate_sub_type m.type m.sub_type
    Repo.create_media m now ids
    enqueue_cover_mirror c m.id m.cover_url
    saved ← get m.id
    pure (resolve_cover c saved)

  -- MediaService.UpdateMedia
  unfoldable pub update_media : Str → MediaWriteRequest → Exec Store Media
  update_media id req = do
    guard (not (blank id)) invalid_input
    current ← get id
    m ← lift (media_from_request id req)
    validate_sub_type m.type m.sub_type
    Repo.update_media (record m { cover_url = kept_cover current req }) now ids
    enqueue_cover_mirror c id (kept_cover current req)
    saved ← get id
    pure (resolve_cover c saved)

-- chapterFromRequest
unfoldable pub chapter_from_request : Str → ChapterWriteRequest → Result Chapter
chapter_from_request id req =
    if blank req.media_id
    then err invalid_input
    else if blank req.name
    then err invalid_input
    else ok (record {
      id = id;
      media_id = req.media_id;
      url = req.url;
      name = req.name;
      number = req.number;
      scanlator = req.scanlator;
      date_upload = req.date_upload;
      format = req.format;
    })

-- MediaService.CreateChapter
unfoldable pub create_chapter : Str → ChapterWriteRequest → Exec Store Chapter
create_chapter new_id req = do
  c ← lift (chapter_from_request new_id req)
  Repo.create_chapter c
  pure c

-- MediaService.UpdateChapter
unfoldable pub update_chapter : Str → ChapterWriteRequest → Exec Store Chapter
update_chapter id req = do
  guard (not (blank id)) invalid_input
  c ← lift (chapter_from_request id req)
  Repo.update_chapter c
  pure c

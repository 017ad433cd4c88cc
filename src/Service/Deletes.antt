-- ===== src/Service/Deletes.antt =====
-- media_service.go: the deletes of media, chapters and pages.
pub mod Rows
pub mod Laws
pub mod Whole
pub mod Page
use griya_maya.Base.{
  ℕ, Bool, true, false, not, Option, none, some, List, [], ◌∷◌, ◌++◌, map, keep, ◌==◌,
  if◌then◌else◌, is_empty,
}
use griya_maya.Text.{Str, trim_space, blank}
use griya_maya.Effect.{
  Exec, Result, ok, err, invalid_input, not_found, pure, fail, guard, ◌>>=◌, ◌>>◌,
}
use griya_maya.Domain.Media.{Media, StoredPage}
use griya_maya.Cloud.{Store}
use griya_maya.Repo.Reads.{get, pages, page_keys_for_media, first}
use griya_maya.Repo.Writes as Repo
use griya_maya.Service.Ports.{Config}
use griya_maya.Service.Cleanup.{enqueue_cleanup}
use griya_maya.Service.Covers.{is_mirrored_cover}

-- the keys of a chapter's pages that are not empty
abbrev pub keys_of : List StoredPage → List Str
keys_of ps = keep (λ k. not (is_empty k)) (map (λ p. p.r2_key) ps)

-- the loop of MediaService.DeleteChapters
unfoldable pub delete_rows : List Str → List Str → Exec Store (List Str)
delete_rows keys [] = pure keys
delete_rows keys (id ∷ ids) =
    let skip = delete_rows keys ids in
    let remove : Exec Store (List Str) = do
      ps ← pages (trim_space id)
      Repo.delete_chapter (trim_space id)
      delete_rows (keys ++ keys_of ps) ids
    in if blank id then skip else remove

module _ (c : Config) where
  -- MediaService.DeleteChapters
  unfoldable pub delete_chapters : List Str → Exec Store (Unit {0})
  delete_chapters ids = do keys ← delete_rows [] ids; enqueue_cleanup c keys

  -- MediaService.DeleteChapter
  unfoldable pub delete_chapter : Str → Exec Store (Unit {0})
  unfolding delete_chapters
  delete_chapter id = do guard (not (blank id)) invalid_input; delete_chapters (id ∷ [])

  -- the key of the media's own cover, where Get answers and the cover is an R2 key
  abbrev pub cover_key : Result Media → List Str
  cover_key (ok m) = if is_mirrored_cover m.cover_url then m.cover_url ∷ [] else []
  cover_key (err e) = []

  -- `if m, err := s.repo.Get(…); err == nil && …`: an error of the read is dropped
  unfoldable pub cover_of : Str → Exec Store (List Str)
  cover_of id w = let (r, w') = get id w in (ok (cover_key r), w')

  -- MediaService.DeleteMedia
  unfoldable pub delete_media : Str → Exec Store (Unit {0})
  unfolding cover_of
  delete_media id = do
    guard (not (blank id)) invalid_input
    keys ← page_keys_for_media id
    cover ← cover_of id
    Repo.delete_media id
    enqueue_cleanup c (keys ++ cover)

  abbrev pub schedule_key : Str → Exec Store (Unit {0})
  schedule_key key = if is_empty key then pure tt else enqueue_cleanup c (key ∷ [])

  abbrev pub delete_found : Str → ℕ → Option StoredPage → Exec Store (Unit {0})
  delete_found chapter_id idx none = fail not_found
  delete_found chapter_id idx (some p) = do Repo.delete_page chapter_id idx; schedule_key p.r2_key

  -- MediaService.DeleteChapterPage
  unfoldable pub delete_chapter_page : Str → ℕ → Exec Store (Unit {0})
  delete_chapter_page chapter_id idx = do
    guard (not (blank chapter_id)) invalid_input
    ps ← pages chapter_id
    delete_found chapter_id idx (first (keep (λ p. p.index == idx) ps))

-- ===== src/Service/Reading.antt =====
-- media_service.go: what the reader asks for, and the neighbours of a chapter.
pub mod Neighbors
use griya_maya.Base.{Option, none, some, List, [], ◌∷◌, if◌then◌else◌}
use griya_maya.Text.{Str, str_eq}
use griya_maya.Effect.{Exec, Result, ok, err, upstream, query, pure, lift, ◌>>=◌}
use griya_maya.Domain.Media.{
  Media, Chapter, Page, StoredPage, AdminPage, page_kind_video, page_kind_novel,
}
use griya_maya.Cloud.{Store}
use griya_maya.Repo.Reads.{get, chapters, chapter_by_id, pages, first}
use griya_maya.Service.Ports.{Config}
use griya_maya.Service.Covers.{page_url, stream_url, resolve_cover}

pub record ChapterNeighbors : Type 0 where
  pub previous : Option Chapter
  pub next : Option Chapter

-- the loop of MediaService.ChapterNeighbors; `before` is siblings[i-1], where there is one
unfoldable pub neighbors_from : Option Chapter → Str → List Chapter → ChapterNeighbors
neighbors_from before id [] = record { previous = none; next = none }
neighbors_from before id (ch ∷ chs) =
    let later = neighbors_from (some ch) id chs in
    if str_eq ch.id id then record { previous = before; next = first chs } else later

-- MediaService.ChapterNeighbors
unfoldable pub chapter_neighbors : Str → Exec Store ChapterNeighbors
chapter_neighbors chapter_id = do
  current ← chapter_by_id chapter_id
  siblings ← chapters current.media_id
  pure (neighbors_from none current.id siblings)

-- the contents of an object; R2 answers a missing key with an error that is not ErrNotFound
abbrev pub contents_of : Str → List (Str × Str) → Result Str
contents_of key [] = err upstream
contents_of key ((k, text) ∷ objects) = if str_eq k key then ok text else contents_of key objects

-- MediaService.novelBody
unfoldable pub novel_body : Str → Exec Store Str
novel_body key = do r ← query (λ s. contents_of key s.objects); lift r

abbrev pub page_of : StoredPage → Str → Str → Str → Page
page_of sp type url body = record {
  index = sp.index;
  image_url = url;
  type = type;
  body = body;
  width = sp.width;
  height = sp.height;
}

module _ (c : Config) where
  -- one round of the loop of MediaService.Pages
  unfoldable pub readable : StoredPage → Exec Store Page
  readable sp =
      let novel : Exec Store Page = do
        text ← novel_body sp.r2_key
        pure (page_of sp page_kind_novel [] text)
      in let image : Exec Store Page = do u ← lift (page_url c sp.r2_key); pure (page_of sp [] u [])
        in if str_eq sp.kind page_kind_video
          then pure (page_of sp page_kind_video (stream_url c sp.r2_key) [])
          else if str_eq sp.kind page_kind_novel
          then novel
          else image

  unfoldable pub readable_all : List StoredPage → Exec Store (List Page)
  readable_all [] = pure []
  readable_all (sp ∷ sps) = do p ← readable sp; ps ← readable_all sps; pure (p ∷ ps)

  -- MediaService.Pages
  unfoldable pub reader_pages : Str → Exec Store (List Page)
  reader_pages chapter_id = do stored ← pages chapter_id; readable_all stored

  abbrev admin_page : StoredPage → Str → AdminPage
  admin_page sp url = record {
    index = sp.index;
    r2_key = sp.r2_key;
    image_url = url;
    width = sp.width;
    height = sp.height;
    kind = sp.kind;
  }

  unfoldable pub admin_pages : List StoredPage → Exec Store (List AdminPage)
  admin_pages [] = pure []
  admin_pages (sp ∷ sps) = do
    url ← lift (page_url c sp.r2_key)
    ps ← admin_pages sps
    pure (admin_page sp url ∷ ps)

  -- MediaService.ChapterPagesAdmin
  unfoldable pub chapter_pages_admin : Str → Exec Store (List AdminPage)
  chapter_pages_admin chapter_id = do stored ← pages chapter_id; admin_pages stored

  -- MediaService.Details
  unfoldable pub details : Str → Exec Store Media
  details id = do m ← get id; pure (resolve_cover c m)

-- ===== src/Repo/Writes.antt =====
-- media_repo.go and job_repo.go: the writes of media, chapters, pages and sub-types.
use griya_maya.Base.{
  ℕ, not, ◌&&◌, Option, none, some, List, [], ◌∷◌, ◌++◌, map, keep, any, ◌==◌, if◌then◌else◌,
  is_empty,
}
use griya_maya.Text.{Str, str_eq, mem_str}
use griya_maya.Effect.{Exec, exec, exec_checked, pure, ◌>>◌}
use griya_maya.Domain.Media.{Media, Chapter, StoredPage, SubType, media_manga, page_kind_image}
use griya_maya.Cloud.{Store, MediaRow, PageRow}
use griya_maya.Repo.Reads.{chapter_ids}
use griya_maya.Repo.Taxonomy.{
  TaxonomyKind, genre, author, artist, delete_links, sync_all_taxonomies,
}

-- INSERT INTO media: refused if the identifier is taken
abbrev pub insert_media : MediaRow → Store → Option Store
insert_media row s =
    if any (λ r. str_eq r.id row.id) s.media
    then none
    else some (record s { media = s.media ++ row ∷ [] })

abbrev pub new_row : Media → ℕ → MediaRow
new_row m now = record {
  id = m.id;
  source_id = m.source_id;
  type = if is_empty m.type then media_manga else m.type;
  sub_type = m.sub_type;
  url = m.url;
  title = m.title;
  cover_url = m.cover_url;
  description = m.description;
  status = m.status;
  popularity = 0;
  updated_at = if m.updated_at == 0 then now else m.updated_at;
}

-- MediaRepo.CreateMedia
unfoldable pub create_media : Media → ℕ → (TaxonomyKind → ℕ → Str) → Exec Store (Unit {0})
create_media m now ids = do exec_checked (insert_media (new_row m now)); sync_all_taxonomies m ids

abbrev pub rewrite_row : Media → ℕ → MediaRow → MediaRow
rewrite_row m now row =
    if str_eq row.id m.id
    then record row {
      type = m.type;
      sub_type = m.sub_type;
      url = m.url;
      title = m.title;
      cover_url = m.cover_url;
      description = m.description;
      status = m.status;
      updated_at = now;
    }
    else row

-- MediaRepo.UpdateMedia
unfoldable pub update_media : Media → ℕ → (TaxonomyKind → ℕ → Str) → Exec Store (Unit {0})
update_media m now ids = do
  exec (λ s. record s { media = map (rewrite_row m now) s.media })
  sync_all_taxonomies m ids

abbrev pub set_cover : Str → Str → ℕ → MediaRow → MediaRow
set_cover media_id cover now row =
    if str_eq row.id media_id then record row { cover_url = cover; updated_at = now } else row

-- MediaRepo.SetMediaCover
unfoldable pub set_media_cover : Str → Str → ℕ → Exec Store (Unit {0})
set_media_cover media_id cover now =
    exec (λ s. record s { media = map (set_cover media_id cover now) s.media })

-- the six statements of MediaRepo.DeleteMedia
abbrev pub delete_pages_of_media : Str → Store → Store
delete_pages_of_media id s = record s {
  pages = keep (λ row. not (mem_str row.chapter_id (chapter_ids id s))) s.pages;
}

abbrev pub delete_chapters_of_media : Str → Store → Store
delete_chapters_of_media id s = record s {
  chapters = keep (λ c. not (str_eq c.media_id id)) s.chapters;
}

abbrev pub delete_media_row : Str → Store → Store
delete_media_row id s = record s { media = keep (λ row. not (str_eq row.id id)) s.media }

-- MediaRepo.DeleteMedia
unfoldable pub delete_media : Str → Exec Store (Unit {0})
delete_media id = do
  exec (delete_pages_of_media id)
  exec (delete_chapters_of_media id)
  exec (delete_links genre id)
  exec (delete_links author id)
  exec (delete_links artist id)
  exec (delete_media_row id)

-- MediaRepo.CreateChapter
unfoldable pub create_chapter : Chapter → Exec Store (Unit {0})
create_chapter c = exec_checked λ s.
    if any (λ d. str_eq d.id c.id) s.chapters
    then none
    else some (record s { chapters = s.chapters ++ c ∷ [] })

abbrev pub rewrite_chapter : Chapter → Chapter → Chapter
rewrite_chapter c d = if str_eq d.id c.id then record c { media_id = d.media_id } else d

-- MediaRepo.UpdateChapter
unfoldable pub update_chapter : Chapter → Exec Store (Unit {0})
update_chapter c = exec (λ s. record s { chapters = map (rewrite_chapter c) s.chapters })

abbrev pub delete_pages_of_chapter : Str → Store → Store
delete_pages_of_chapter id s = record s {
  pages = keep (λ row. not (str_eq row.chapter_id id)) s.pages;
}

abbrev pub delete_chapter_row : Str → Store → Store
delete_chapter_row id s = record s { chapters = keep (λ c. not (str_eq c.id id)) s.chapters }

-- MediaRepo.DeleteChapter
unfoldable pub delete_chapter : Str → Exec Store (Unit {0})
delete_chapter id = do exec (delete_pages_of_chapter id); exec (delete_chapter_row id)

-- MediaRepo.DeletePage
unfoldable pub delete_page : Str → ℕ → Exec Store (Unit {0})
delete_page chapter_id idx = exec λ s. record s {
  pages = keep (λ row. not (str_eq row.chapter_id chapter_id && row.page.index == idx)) s.pages;
}

abbrev pub page_row : Str → StoredPage → PageRow
page_row chapter_id p = record {
  chapter_id = chapter_id;
  page = record p { kind = if is_empty p.kind then page_kind_image else p.kind };
}

-- INSERT INTO page: refused if the chapter has a page of that index
abbrev pub insert_page : PageRow → Store → Option Store
insert_page row s =
    if any (λ r. str_eq r.chapter_id row.chapter_id && r.page.index == row.page.index) s.pages
    then none
    else some (record s { pages = s.pages ++ row ∷ [] })

-- the loop of JobRepo.ReplacePages
unfoldable pub insert_pages : Str → List StoredPage → Exec Store (Unit {0})
insert_pages chapter_id [] = pure tt
insert_pages chapter_id (p ∷ ps) = do
  exec_checked (insert_page (page_row chapter_id p))
  insert_pages chapter_id ps

-- JobRepo.ReplacePages
unfoldable pub replace_pages : Str → List StoredPage → Exec Store (Unit {0})
replace_pages chapter_id ps = do
  exec (delete_pages_of_chapter chapter_id)
  insert_pages chapter_id ps

-- MediaRepo.CreateSubType, UpdateSubType and DeleteSubType
unfoldable pub create_sub_type : SubType → Exec Store (Unit {0})
create_sub_type st = exec_checked λ s.
    if any (λ r. str_eq r.slug st.slug) s.sub_types
    then none
    else some (record s { sub_types = s.sub_types ++ st ∷ [] })

abbrev pub rewrite_sub_type : Str → SubType → SubType → SubType
rewrite_sub_type slug st row =
    if str_eq row.slug slug then record row { type = st.type; name = st.name } else row

unfoldable pub update_sub_type : Str → SubType → Exec Store (Unit {0})
update_sub_type slug st =
    exec (λ s. record s { sub_types = map (rewrite_sub_type slug st) s.sub_types })

unfoldable pub delete_sub_type : Str → Exec Store (Unit {0})
delete_sub_type slug =
    exec (λ s. record s { sub_types = keep (λ row. not (str_eq row.slug slug)) s.sub_types })

-- ===== src/Repo/Reads.antt =====
-- media_repo.go: the reads of single entries, chapters and pages.
use griya_maya.Base.{
  ℕ, Bool, true, false, not, Option, none, some, List, [], ◌∷◌, ◌++◌, map, keep, leb, if◌then◌else◌,
  is_empty, any,
}
use griya_maya.Text.{Str, str_eq, trim_space, blank, join, mem_str}
use griya_maya.FilePath.{split_on}
use griya_maya.Effect.{Exec, Result, ok, err, not_found, query, pure, lift, ◌>>=◌}
use griya_maya.Domain.Media.{Media, MediaType, Chapter, StoredPage, media_manga, page_kind_image}
use griya_maya.Cloud.{Store, MediaRow, Tag, Link, Taxa}

-- ORDER BY key ASC, stable
unfoldable pub insert_by {ℓ} : {A : Type ℓ} → (A → ℕ) → A → List A → List A
insert_by key a [] = a ∷ []
insert_by key a (b ∷ bs) =
    let later = b ∷ insert_by key a bs in if leb (key a) (key b) then a ∷ b ∷ bs else later

unfoldable pub order_by {ℓ} : {A : Type ℓ} → (A → ℕ) → List A → List A
unfolding insert_by
order_by key [] = []
order_by key (a ∷ as') = insert_by key a (order_by key as')

-- LIMIT 1
abbrev pub first {ℓ} : {A : Type ℓ} → List A → Option A
first [] = none
first (a ∷ as') = some a

-- splitConcat
unfoldable pub split_concat : Str → List Str
unfolding split_on blank
split_concat s =
    if is_empty s then [] else keep (λ p. not (is_empty p)) (map trim_space (split_on 0x1F s))

-- the correlated subquery SELECT group_concat(name, char(31)) of mediaColumns
tag_names : List Tag → List Link → Str → List Str
tag_names tags [] media_id = []
tag_names tags (l ∷ ls) media_id =
    let rest = tag_names tags ls media_id in
    if str_eq l.media_id media_id
    then map (λ t. t.name) (keep (λ t. str_eq t.id l.tag_id) tags) ++ rest
    else rest

unfoldable pub names_of : Taxa → Str → List Str
unfolding tag_names split_concat
names_of taxa media_id = split_concat (join (0x1F ∷ []) (tag_names taxa.tags taxa.links media_id))

-- mediaFromRow, with the three taxonomy columns of mediaColumns
unfoldable pub media_from_row : Store → MediaRow → Media
unfolding names_of
media_from_row s row = record {
  id = row.id;
  source_id = row.source_id;
  type = if is_empty row.type then media_manga else row.type;
  sub_type = row.sub_type;
  url = row.url;
  title = row.title;
  cover_url = row.cover_url;
  description = row.description;
  genres = names_of s.genre row.id;
  authors = names_of s.author row.id;
  artists = names_of s.artist row.id;
  status = row.status;
  updated_at = row.updated_at;
}

abbrev pub media_with_id : Str → Store → Option Media
media_with_id id s = first (map (media_from_row s) (keep (λ row. str_eq row.id id) s.media))

abbrev pub or_not_found : {A : Type 0} → Option A → Result A
or_not_found none = err not_found
or_not_found (some a) = ok a

-- MediaRepo.Get
unfoldable pub get : Str → Exec Store Media
unfolding query
get id = do found ← query (media_with_id id); lift (or_not_found found)

abbrev pub chapters_of : Str → Store → List Chapter
chapters_of media_id s =
    order_by (λ c. c.number) (keep (λ c. str_eq c.media_id media_id) s.chapters)

-- MediaRepo.Chapters
unfoldable pub chapters : Str → Exec Store (List Chapter)
unfolding query
chapters media_id = query (chapters_of media_id)

-- MediaRepo.ChapterByID
unfoldable pub chapter_by_id : Str → Exec Store Chapter
unfolding query
chapter_by_id id = do
  found ← query (λ s. first (keep (λ c. str_eq c.id id) s.chapters))
  lift (or_not_found found)

abbrev pub default_kind : StoredPage → StoredPage
default_kind p = record p { kind = if is_empty p.kind then page_kind_image else p.kind }

abbrev pub pages_of : Str → Store → List StoredPage
pages_of chapter_id s =
    order_by (λ p. p.index)
      (map (λ row. default_kind row.page) (keep (λ row. str_eq row.chapter_id chapter_id) s.pages))

-- MediaRepo.Pages
unfoldable pub pages : Str → Exec Store (List StoredPage)
unfolding query
pages chapter_id = query (pages_of chapter_id)

-- SELECT id FROM chapter WHERE media_id = ?1
abbrev pub chapter_ids : Str → Store → List Str
chapter_ids media_id s = map (λ c. c.id) (keep (λ c. str_eq c.media_id media_id) s.chapters)

abbrev pub page_keys : Str → Store → List Str
page_keys media_id s =
    keep (λ k. not (is_empty k))
      (map (λ row. row.page.r2_key)
        (keep (λ row. mem_str row.chapter_id (chapter_ids media_id s)) s.pages))

-- MediaRepo.PageKeysForMedia
unfoldable pub page_keys_for_media : Str → Exec Store (List Str)
unfolding query
page_keys_for_media media_id = query (page_keys media_id)

-- MediaRepo.ValidSubType
unfoldable pub valid_sub_type : MediaType → Str → Exec Store Bool
unfolding query
valid_sub_type t slug =
    if is_empty slug
    then pure true
    else query
        (λ s. any (λ st. if str_eq st.slug slug then str_eq st.type t else false) s.sub_types)

-- ===== src/Repo/Feed.antt =====
-- media_repo.go: the feeds of the catalog, their filters, orders and pages.
pub mod Pages
pub mod Order
use griya_maya.Base.{
  ℕ, suc, ◌+◌, ◌-◌, ◌*◌, ◌%◌, ◌^◌, Bool, true, false, not, ◌&&◌, ◌||◌, ◌==◌, List, [], ◌∷◌, ◌++◌,
  map, keep, ltb, leb, length, take, drop, if◌then◌else◌, is_empty,
}
use griya_maya.Base.Int.{ℤ, positive_or}
use griya_maya.Text.{Str, str, str_eq, mem_str, blank}
use griya_maya.Effect.{Exec, query}
use griya_maya.Domain.Media.{Media}
use griya_maya.Domain.Feed.{
  MediaPage, MediaPagination, CatalogFilter, Column, title, updated_at, popularity, sort_column,
  catalog_page_size,
}
use griya_maya.Cloud.{Store, MediaRow}
use griya_maya.Repo.Reads.{media_from_row}

-- nonEmpty
abbrev pub non_empty : List Str → List Str
non_empty values = keep (λ v. not (blank v)) values

-- column IN (values), where an empty list is no condition
abbrev pub any_of : List Str → Str → Bool
any_of values v = let vs = non_empty values in if is_empty vs then true else mem_str v vs

-- filterClauses
unfoldable pub filter_clauses : CatalogFilter → MediaRow → Bool
filter_clauses f row =
    any_of f.types row.type
    && any_of f.sub_types row.sub_type
    && (f.updated_since == 0 || ltb f.updated_since row.updated_at)

-- texts in the order of their code points
unfoldable pub str_leb : Str → Str → Bool
str_leb [] t = true
str_leb (c ∷ s) [] = false
str_leb (c ∷ s) (d ∷ t) = ltb c d || (c == d && str_leb s t)

abbrev pub key_of : Column → MediaRow → ℕ
key_of title row = 0
key_of updated_at row = row.updated_at
key_of popularity row = row.popularity

-- a direction, and ties by ascending title
abbrev pub by_key : Bool → ℕ → ℕ → Str → Str → Bool
by_key true k l s t = ltb k l || (k == l && str_leb s t)
by_key false k l s t = ltb l k || (k == l && str_leb s t)

-- whether a row may stand before another under orderByClause
abbrev pub may_precede : Column → Bool → MediaRow → MediaRow → Bool
may_precede title true a b = str_leb a.title b.title
may_precede title false a b = str_leb b.title a.title
may_precede col asc a b = by_key asc (key_of col a) (key_of col b) a.title b.title

-- SQL leaves the order of rows with equal keys and titles open; here it is that of the table.
unfoldable pub insert_row : Column → Bool → MediaRow → List MediaRow → List MediaRow
insert_row col asc a [] = a ∷ []
insert_row col asc a (b ∷ bs) =
    let later = b ∷ insert_row col asc a bs in if may_precede col asc a b then a ∷ b ∷ bs else later

unfoldable pub sort_rows : Column → Bool → List MediaRow → List MediaRow
unfolding insert_row
sort_rows col asc [] = []
sort_rows col asc (a ∷ rows) = insert_row col asc a (sort_rows col asc rows)

-- normPage
abbrev pub norm_page : ℤ → ℕ
norm_page page = positive_or 1 page

abbrev pub norm_per_page : ℤ → ℕ
norm_per_page per_page = positive_or 30 per_page

-- the rows before the page: a product of two ints, in 64 bits; SQLite takes a negative OFFSET for 0
abbrev pub offset : ℕ → ℕ → ℕ
offset page per_page = let n = ((page - 1) * per_page) % 2 ^ 64 in if ltb n (2 ^ 63) then n else 0

-- LIMIT perPage+1, a sum that wraps at the last int; SQLite takes a negative LIMIT for none
abbrev pub limited {ℓ} : {A : Type ℓ} → ℕ → List A → List A
limited per_page rows = if ltb (suc per_page) (2 ^ 63) then take (suc per_page) rows else rows

-- LIMIT perPage+1 OFFSET (page-1)*perPage
abbrev pub window {ℓ} : {A : Type ℓ} → ℕ → ℕ → List A → List A
window page per_page rows = limited per_page (drop (offset page per_page) rows)

-- toMediaPage, on the rows and the number of matches that each of them carries
unfoldable pub to_media_page : List Media → ℕ → ℕ → ℕ → MediaPage
to_media_page rows count page per_page =
    let has_next = ltb per_page (length rows) in
    record {
      items = if has_next then take per_page rows else rows;
      has_next = has_next;
      page = page;
      pagination = record {
        page = page;
        per_page = per_page;
        total_count = if is_empty rows then 0 else count;
        has_next = has_next;
      };
    }

-- one page of the matches in their order
unfoldable pub page_of_rows : Store → List MediaRow → ℕ → ℕ → MediaPage
unfolding to_media_page
page_of_rows s rows page per_page =
    to_media_page (map (media_from_row s) (window page per_page rows)) (length rows) page per_page

-- the rows of List
unfoldable pub feed_rows : Str → Str → CatalogFilter → Store → List MediaRow
unfolding filter_clauses sort_rows
feed_rows source_id order f s =
    let feed_default = if str_eq order (str "popular") then str "popular" else str "updated" in
    sort_rows (sort_column f feed_default) f.ascending
      (keep (λ row. str_eq row.source_id source_id && filter_clauses f row) s.media)

-- MediaRepo.List
unfoldable pub list : Str → Str → ℤ → ℤ → CatalogFilter → Exec Store MediaPage
unfolding query
list source_id order page per_page f =
    query (λ s.
      page_of_rows s (feed_rows source_id order f s) (norm_page page) (norm_per_page per_page))

-- SQLite's LIKE between a pattern and a text
module _ (like : Str → Str → Bool) where
  unfoldable pub search_rows : Str → Str → CatalogFilter → Store → List MediaRow
  unfolding filter_clauses sort_rows
  search_rows source_id text f s = sort_rows (sort_column f (str "title")) f.ascending (
      keep
        (λ row.
          str_eq row.source_id source_id
          && like (str "%" ++ text ++ str "%") row.title
          && filter_clauses f row)
        s.media)

  -- MediaRepo.Search
  unfoldable pub search : Str → Str → ℤ → ℤ → CatalogFilter → Exec Store MediaPage
  unfolding query
  search source_id text page per_page f = query (λ s.
      page_of_rows s (search_rows source_id text f s) (norm_page page) (norm_per_page per_page))

unfoldable pub recommend_rows : Str → List Str → List Str → Store → List MediaRow
unfolding sort_rows
recommend_rows source_id sub_types exclude s = sort_rows popularity false (
    keep
      (λ row.
        str_eq row.source_id source_id
        && mem_str row.sub_type (non_empty sub_types)
        && not (mem_str row.id (non_empty exclude)))
      s.media)

-- MediaRepo.Recommend
unfoldable pub recommend : Str → List Str → List Str → ℤ → ℤ → Exec Store MediaPage
unfolding query
recommend source_id sub_types exclude page per_page = query (λ s.
    page_of_rows s (recommend_rows source_id sub_types exclude s) (norm_page page)
      (norm_per_page per_page))

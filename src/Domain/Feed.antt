-- ===== src/Domain/Feed.antt =====
-- internal/domain/manga.go and pagination.go: the filter and the page of a catalog feed.
pub mod Bounds
use griya_maya.Base.{ℕ, Bool, ◌||◌, List, ltb, if◌then◌else◌, is_empty}
use griya_maya.Base.Int.{ℤ, positive_or}
use griya_maya.Text.{Str, str, str_eq}
use griya_maya.Domain.Media.{Media}

abbrev pub catalog_page_size : ℕ
catalog_page_size = 30

abbrev pub max_catalog_page_size : ℕ
max_catalog_page_size = 100

pub record MediaPagination : Type 0 where
  pub page : ℕ
  pub per_page : ℕ
  pub total_count : ℕ
  pub has_next : Bool

pub record MediaPage : Type 0 where
  pub items : List Media
  pub pagination : MediaPagination
  pub has_next : Bool
  pub page : ℕ

pub record CatalogFilter : Type 0 where
  pub sort : Str
  pub ascending : Bool
  pub types : List Str
  pub sub_types : List Str
  pub limit : ℤ
  -- 0 is the zero time, which disables the filter
  pub updated_since : ℕ

-- CatalogFilter.PerPage
unfoldable pub per_page : CatalogFilter → ℕ
per_page f =
    let limit = positive_or catalog_page_size f.limit in
    if ltb max_catalog_page_size limit then max_catalog_page_size else limit

-- CatalogFilter.SortColumn
pub data Column : Type 0 where
  title updated_at popularity : Column

unfoldable pub sort_column : CatalogFilter → Str → Column
sort_column f feed_default =
    let sort = if is_empty f.sort then feed_default else f.sort in
    if str_eq sort (str "title")
    then title
    else if str_eq sort (str "latest") || str_eq sort (str "updated")
    then updated_at
    else if str_eq sort (str "rating")
        || str_eq sort (str "popular")
        || str_eq sort (str "popularity")
    then popularity
    else updated_at

-- ===== src/Service/Feed.antt =====
-- media_service.go: the feeds of a source.
pub mod Laws
use griya_maya.Base.{ℕ, Bool, true, false, List, [], if◌then◌else◌, is_empty}
use griya_maya.Base.Int.{ℤ, pos}
use griya_maya.Text.{Str, str}
use griya_maya.Effect.{Exec, pure, ◌>>=◌}
use griya_maya.Domain.Feed.{MediaPage, CatalogFilter, per_page, catalog_page_size}
use griya_maya.Cloud.{Store}
use griya_maya.Repo.Feed as Repo
use griya_maya.Service.Ports.{Config}
use griya_maya.Service.Covers.{resolve_covers}

-- CatalogFilter{}
abbrev pub no_filter : CatalogFilter
no_filter = record {
  sort = [];
  ascending = false;
  types = [];
  sub_types = [];
  limit = pos 0;
  updated_since = 0;
}

module _ (c : Config) where
  -- `return s.resolveCovers(ctx, res), nil` after the test of the error
  abbrev pub with_covers : Exec Store MediaPage → Exec Store MediaPage
  with_covers m = do res ← m; pure (resolve_covers c res)

  -- MediaService.Popular
  unfoldable pub popular : Str → ℤ → CatalogFilter → Exec Store MediaPage
  popular source_id page f =
      with_covers (Repo.list source_id (str "popular") page (pos (per_page f)) f)

  -- MediaService.Latest
  unfoldable pub latest : Str → ℤ → CatalogFilter → Exec Store MediaPage
  latest source_id page f =
      with_covers (Repo.list source_id (str "latest") page (pos (per_page f)) f)

  -- MediaService.Search
  unfoldable pub search : (Str → Str → Bool) → Str → Str → ℤ → CatalogFilter → Exec Store MediaPage
  search like source_id query page f =
      with_covers (Repo.search like source_id query page (pos (per_page f)) f)

  -- MediaService.Recommendations
  unfoldable pub recommendations : Str → List Str → List Str → ℤ → Exec Store MediaPage
  recommendations source_id sub_types exclude page = with_covers (
      if is_empty sub_types
      then Repo.list source_id (str "popular") page (pos catalog_page_size) no_filter
      else Repo.recommend source_id sub_types exclude page (pos catalog_page_size))

-- ===== src/Repo/Taxonomy.antt =====
-- media_repo.go: the normalized taxonomies (genre, author, artist) and their links to media.
pub mod Frame
use griya_maya.Base.{
  ℕ, suc, Bool, true, false, not, ◌&&◌, ◌||◌, Option, List, [], ◌∷◌, ◌++◌, map, keep, any,
  if◌then◌else◌, is_empty,
}
use griya_maya.Text.{Str, str, str_eq, trim_space, lower, fields, join, mem_str}
use griya_maya.Effect.{Exec, query, exec, pure, lift, ◌>>=◌, ◌>>◌}
use griya_maya.Domain.Media.{Media}
use griya_maya.Cloud.{Store, Tag, Link, Taxa}
use griya_maya.Repo.Reads.{first, or_not_found}

-- domain.TaxonomyKind; a text that is none of the three is `Option.none` where a kind is parsed
pub data TaxonomyKind : Type 0 where
  genre author artist : TaxonomyKind

pub record Taxonomy : Type 0 where
  pub id : Str
  pub slug : Str
  pub name : Str
  pub kind : TaxonomyKind

-- TaxonomyKind.HasSlug, and the fourth column of taxTableFor
abbrev pub has_slug : TaxonomyKind → Bool
has_slug genre = true
has_slug author = false
has_slug artist = false

-- taxTableFor: the tables of a kind, read and written
abbrev pub taxa : TaxonomyKind → Store → Taxa
taxa genre s = s.genre
taxa author s = s.author
taxa artist s = s.artist

abbrev pub set_taxa : TaxonomyKind → Taxa → Store → Store
set_taxa genre t s = record s { genre = t }
set_taxa author t s = record s { author = t }
set_taxa artist t s = record s { artist = t }

-- genreSlug
unfoldable pub genre_slug : Str → Str
genre_slug name = join (str "-") (fields (map lower (trim_space name)))

-- slugFor
unfoldable pub slug_for : TaxonomyKind → Str → Str
slug_for kind name = if has_slug kind then genre_slug name else []

-- the column of the UNIQUE constraint
abbrev pub unique_key : TaxonomyKind → Tag → Str
unique_key genre t = t.slug
unique_key author t = t.name
unique_key artist t = t.name

-- INSERT OR IGNORE INTO genre|author|artist: a row with that id or that slug or name stays alone
unfoldable pub insert_tag : TaxonomyKind → Tag → Store → Store
insert_tag kind tag s =
    if any (λ t. str_eq t.id tag.id || str_eq (unique_key kind t) (unique_key kind tag))
      (taxa kind s).tags
    then s
    else set_taxa kind
        (record { tags = (taxa kind s).tags ++ tag ∷ []; links = (taxa kind s).links }) s

-- INSERT OR IGNORE INTO media_genre|media_author|media_artist
unfoldable pub insert_link : TaxonomyKind → Link → Store → Store
insert_link kind link s =
    if any (λ l. str_eq l.media_id link.media_id && str_eq l.tag_id link.tag_id) (taxa kind s).links
    then s
    else set_taxa kind
        (record { tags = (taxa kind s).tags; links = (taxa kind s).links ++ link ∷ [] }) s

-- DELETE FROM media_genre|media_author|media_artist WHERE media_id = ?1
unfoldable pub delete_links : TaxonomyKind → Str → Store → Store
delete_links kind media_id s =
    set_taxa kind
      (record {
        tags = (taxa kind s).tags;
        links = keep (λ l. not (str_eq l.media_id media_id)) (taxa kind s).links;
      })
      s

abbrev pub tag_for : TaxonomyKind → Str → Str → Tag
tag_for kind id name = record { id = id; slug = slug_for kind name; name = name }

abbrev pub id_of_tag : TaxonomyKind → Tag → Store → Option Str
id_of_tag kind tag s = first (
    map (λ t. t.id)
      (keep (λ t. str_eq (unique_key kind t) (unique_key kind tag)) (taxa kind s).tags))

-- MediaRepo.upsertTag, with scalarID; `id` is the new row's identifier
unfoldable pub upsert_tag : TaxonomyKind → Str → Str → Exec Store Str
upsert_tag kind id name = do
  exec (insert_tag kind (tag_for kind id name))
  found ← query (id_of_tag kind (tag_for kind id name))
  lift (or_not_found found)

-- The loop of MediaRepo.syncTaxonomy. `ids` gives the n-th identifier that uuid.NewString makes.
unfoldable pub link_names :
    TaxonomyKind → Str → (ℕ → Str) → ℕ → List Str → List Str → Exec Store (Unit {0})
link_names kind media_id ids n seen [] = pure tt
link_names kind media_id ids n seen (name ∷ names) =
    let name' = trim_space name in
    let skip = link_names kind media_id ids n seen names in
    let link : Exec Store (Unit {0}) = do
      tag_id ← upsert_tag kind (ids n) name'
      exec (insert_link kind (record { media_id = media_id; tag_id = tag_id }))
      link_names kind media_id ids (suc n) (map lower name' ∷ seen) names
    in if is_empty name' || mem_str (map lower name') seen then skip else link

-- MediaRepo.syncTaxonomy
unfoldable pub sync_taxonomy : TaxonomyKind → Str → (ℕ → Str) → List Str → Exec Store (Unit {0})
sync_taxonomy kind media_id ids names = do
  exec (delete_links kind media_id)
  link_names kind media_id ids 0 [] names

-- MediaRepo.syncAllTaxonomies
unfoldable pub sync_all_taxonomies : Media → (TaxonomyKind → ℕ → Str) → Exec Store (Unit {0})
sync_all_taxonomies m ids = do
  sync_taxonomy genre m.id (ids genre) m.genres
  sync_taxonomy author m.id (ids author) m.authors
  sync_taxonomy artist m.id (ids artist) m.artists

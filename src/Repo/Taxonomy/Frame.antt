-- ===== src/Repo/Taxonomy/Frame.antt =====
-- The links and tags of a media are written without touching its row or the queue of covers.
use griya_maya.Base.{
  ℕ, suc, ◌≡◌, ◌&&◌, ◌||◌, List, [], ◌∷◌, map, any, is_empty, inl, inr, Bool-cases,
}
use griya_maya.Text.{Str, str_eq, lower, trim_space, mem_str}
use griya_maya.Effect.{Exec, World, Result, ok, err, exec, query, lift, ◌>>=◌, ◌>>◌}
use griya_maya.Effect.Laws.{Post, Post-exec, Post-query, Post-seq}
use griya_maya.Domain.Media.{Media}
use griya_maya.Domain.Jobs.{CoverMirrorJob}
use griya_maya.Cloud.{Store, MediaRow, Taxa, Tag, Link}
use griya_maya.Repo.Reads.{or_not_found}
use griya_maya.Repo.Taxonomy.{
  TaxonomyKind, genre, author, artist, taxa, set_taxa, unique_key, insert_tag, insert_link,
  delete_links, tag_for, id_of_tag, upsert_tag, link_names, sync_taxonomy, sync_all_taxonomies,
}

module _ (rows : List MediaRow) (queue : List CoverMirrorJob) where
  -- the rows of media and the queue of covers are these
  abbrev pub Holds : Store → Type 0
  Holds s = (s.media ≡ rows) × (s.cover_queue ≡ queue)

  abbrev pub Holding : {A : Type 0} → Result A × World Store → Type 0
  Holding r = Post (λ _ v. Holds v.store) (λ _ v. Holds v.store) r

  Holds-set_taxa :
      (kind : TaxonomyKind) (t : Taxa) (s : Store) → Holds s → Holds (set_taxa kind t s)
  Holds-set_taxa genre t s h = h
  Holds-set_taxa author t s h = h
  Holds-set_taxa artist t s h = h

  Holds-insert_tag :
      (kind : TaxonomyKind) (tag : Tag) (s : Store) → Holds s → Holds (insert_tag kind tag s)
  unfolding insert_tag
  Holds-insert_tag kind tag s h =
      elim (Bool-cases (
        any (λ t. str_eq t.id tag.id || str_eq (unique_key kind t) (unique_key kind tag))
          (taxa kind s).tags)) [
            | inl there ↦ rw there h
            | inr new ↦ rw new (Holds-set_taxa kind _ s h)
          ]

  Holds-insert_link :
      (kind : TaxonomyKind) (link : Link) (s : Store) → Holds s → Holds (insert_link kind link s)
  unfolding insert_link
  Holds-insert_link kind link s h =
      elim (Bool-cases (
        any (λ l. str_eq l.media_id link.media_id && str_eq l.tag_id link.tag_id)
          (taxa kind s).links)) [
            | inl there ↦ rw there h
            | inr new ↦ rw new (Holds-set_taxa kind _ s h)
          ]

  Holding-exec :
      (g : Store → Store) (w : World Store)
      → ((s : Store) → Holds s → Holds (g s))
      → Holds w.store
      → Holding (exec g w)
  Holding-exec g w same h =
      Post-exec (λ _ v. Holds v.store) (λ _ v. Holds v.store) g w (λ os. same w.store h) (λ os. h)
        (λ os. same w.store h)

  Holding-seq :
      {A B : Type 0} (m : Exec Store A) (f : A → Exec Store B) (w : World Store)
      → Holding (m w)
      → ((a : A) (v : World Store) → Holds v.store → Holding (f a v))
      → Holding ((m >>= f) w)
  Holding-seq m f w h rest =
      Post-seq (λ _ v. Holds v.store) (λ _ v. Holds v.store) (λ _ v. Holds v.store) (m w) f h rest

  Holding-result : {A : Type 0} (r : Result A) (w : World Store) → Holds w.store → Holding (r, w)
  Holding-result (ok a) w h = h
  Holding-result (err e) w h = h

  Holding-upsert_tag :
      (kind : TaxonomyKind) (id name : Str) (w : World Store)
      → Holds w.store
      → Holding (upsert_tag kind id name w)
  unfolding upsert_tag
  Holding-upsert_tag kind id name w h =
      Holding-seq (exec (insert_tag kind (tag_for kind id name)))
        (λ _. query (id_of_tag kind (tag_for kind id name)) >>= λ found. lift (or_not_found found))
        w
        (Holding-exec (insert_tag kind (tag_for kind id name)) w
          (Holds-insert_tag kind (tag_for kind id name)) h)
        (λ _ v g.
          Holding-seq (query (id_of_tag kind (tag_for kind id name)))
            (λ found. lift (or_not_found found)) v
            (Post-query (λ _ u. Holds u.store) (λ _ u. Holds u.store)
              (id_of_tag kind (tag_for kind id name)) v (λ os. g) (λ os. g))
            (λ found u k. Holding-result (or_not_found found) u k))

  Holding-link_names :
      (kind : TaxonomyKind) (media_id : Str) (ids : ℕ → Str) (n : ℕ) (seen names : List Str)
      (w : World Store)
      → Holds w.store
      → Holding (link_names kind media_id ids n seen names w)
  unfolding link_names
  Holding-link_names kind media_id ids n seen [] w h = h
  Holding-link_names kind media_id ids n seen (name ∷ names) w h =
      elim (Bool-cases (is_empty (trim_space name) || mem_str (map lower (trim_space name)) seen)) [
        | inl skipped ↦ rw skipped (Holding-link_names kind media_id ids n seen names w h)
        | inr linked ↦ rw linked (
            Holding-seq (upsert_tag kind (ids n) (trim_space name))
              (λ tag_id.
                exec (insert_link kind (record { media_id = media_id; tag_id = tag_id }))
                >> link_names kind media_id ids (suc n) (map lower (trim_space name) ∷ seen) names)
              w (Holding-upsert_tag kind (ids n) (trim_space name) w h)
              (λ tag_id v g.
                Holding-seq
                  (exec (insert_link kind (record { media_id = media_id; tag_id = tag_id })))
                  (λ _.
                    link_names kind media_id ids (suc n) (map lower (trim_space name) ∷ seen) names)
                  v
                  (Holding-exec (insert_link kind (record { media_id = media_id; tag_id = tag_id }))
                    v (Holds-insert_link kind (record { media_id = media_id; tag_id = tag_id })) g)
                  (λ _ u k.
                    Holding-link_names kind media_id ids (suc n)
                      (map lower (trim_space name) ∷ seen) names u k)))
      ]

  Holding-sync_taxonomy :
      (kind : TaxonomyKind) (media_id : Str) (ids : ℕ → Str) (names : List Str) (w : World Store)
      → Holds w.store
      → Holding (sync_taxonomy kind media_id ids names w)
  unfolding sync_taxonomy delete_links
  Holding-sync_taxonomy kind media_id ids names w h =
      Holding-seq (exec (delete_links kind media_id)) (λ _. link_names kind media_id ids 0 [] names)
        w (Holding-exec (delete_links kind media_id) w (λ s g. Holds-set_taxa kind _ s g) h)
        (λ _ v g. Holding-link_names kind media_id ids 0 [] names v g)

  pub Holding-sync_all_taxonomies :
      (m : Media) (ids : TaxonomyKind → ℕ → Str) (w : World Store)
      → Holds w.store
      → Holding (sync_all_taxonomies m ids w)
  unfolding sync_all_taxonomies
  Holding-sync_all_taxonomies m ids w h =
      Holding-seq (sync_taxonomy genre m.id (ids genre) m.genres)
        (λ _.
          sync_taxonomy author m.id (ids author) m.authors
          >> sync_taxonomy artist m.id (ids artist) m.artists)
        w (Holding-sync_taxonomy genre m.id (ids genre) m.genres w h)
        (λ _ v g.
          Holding-seq (sync_taxonomy author m.id (ids author) m.authors)
            (λ _. sync_taxonomy artist m.id (ids artist) m.artists) v
            (Holding-sync_taxonomy author m.id (ids author) m.authors v g)
            (λ _ u k. Holding-sync_taxonomy artist m.id (ids artist) m.artists u k))

-- ===== src/Service/Deletes/Whole.antt =====
-- Deleting a media: the rows that go and the objects scheduled for it.
use griya_maya.Base.{
  ◌≡◌, refl, ap, ◌∙◌, false, not, ◌&&◌, ◌||◌, Option, none, some, List, [], ◌∷◌, ◌++◌, map, keep,
  any, is_empty, if◌then◌else◌, inl, inr, Bool-cases, arith,
}
use griya_maya.Text.{Str, str, str_eq, blank, contains, mem_str}
use griya_maya.Effect.{
  Exec, World, Error, Result, ok, err, Outcome, answered, refused, lost, query, exec, call, ◌>>=◌,
  ◌>>◌,
}
use griya_maya.Effect.Laws.{Post, Post-exec, Post-query, Post-seq, Post-answers, world}
use griya_maya.Cloud.{Store, MediaRow}
use griya_maya.Base.Keep.{keep-eq}
use griya_maya.Domain.Media.{Chapter}
use griya_maya.Service.Covers.{is_mirrored_cover}
use griya_maya.Domain.Jobs.{PageCleanupJob}
use griya_maya.Repo.Reads.{
  first, media_from_row, get, page_keys, page_keys_for_media, media_with_id, or_not_found,
  chapter_ids,
}
use griya_maya.Repo.Taxonomy.{genre, author, artist, delete_links}
use griya_maya.Repo.Writes as Repo
use griya_maya.Repo.Writes.{delete_pages_of_media, delete_chapters_of_media, delete_media_row}
use griya_maya.Service.Ports.{Config, configured}
use griya_maya.Service.Cleanup.{enqueue_cleanup}
use griya_maya.Service.Cleanup.Prefixes.{covers}
use griya_maya.Service.Cleanup.Scheduling.{scheduled, enqueue_cleanup-scheduled}
use griya_maya.Service.Cleanup.Frame.{enqueue_cleanup-kept}
use griya_maya.Service.Deletes.{cover_key, cover_of, delete_media}

-- the keys that DeleteMedia collects: the pages' and that of the media's own cover
abbrev pub media_keys : Config → Str → Store → List Str
media_keys c id s = page_keys id s ++ cover_key c (or_not_found (media_with_id id s))

-- the store after the statements of MediaRepo.DeleteMedia
abbrev without_media : Str → Store → Store
without_media id s = delete_media_row id (
    delete_links artist id (
      delete_links author id
        (delete_links genre id (delete_chapters_of_media id (delete_pages_of_media id s)))))

runs_to :
    (c : Config) (id : Str) (s : Store)
    → blank id ≡ false
    → delete_media c id (world s [])
      ≡ enqueue_cleanup c (media_keys c id s) (world (without_media id s) [])
unfolding delete_media page_keys_for_media cover_of get query exec call Repo.delete_media
runs_to c id s b = rw b refl

-- the object keys of a media: those of the pages of its chapters, and its
-- cover where that is no address
abbrev pub own_pages : Str → Store → List Str
own_pages id s =
    keep (λ k. not (is_empty k))
      (map (λ row. row.page.r2_key)
        (keep (λ row. any (λ ch. str_eq ch.media_id id && str_eq ch.id row.chapter_id) s.chapters)
          s.pages))

abbrev pub key_of_cover : Option MediaRow → List Str
key_of_cover none = []
key_of_cover (some row) =
    if is_empty row.cover_url || contains (str "://") row.cover_url then [] else row.cover_url ∷ []

abbrev pub own_cover : Str → Store → List Str
own_cover id s = key_of_cover (first (keep (λ row. str_eq row.id id) s.media))

mem_str-chapters :
    (k id : Str) (chs : List Chapter)
    → mem_str k (map (λ c. c.id) (keep (λ c. str_eq c.media_id id) chs))
      ≡ any (λ ch. str_eq ch.media_id id && str_eq ch.id k) chs
unfolding mem_str
mem_str-chapters k id [] = refl
mem_str-chapters k id (c ∷ chs) = ground (arith, mem_str-chapters k id chs)

page_keys-own : (id : Str) (s : Store) → page_keys id s ≡ own_pages id s
page_keys-own id s =
    ap (λ rows. keep (λ k. not (is_empty k)) (map (λ row. row.page.r2_key) rows))
      (keep-eq _ _ s.pages (λ row. mem_str-chapters row.chapter_id id s.chapters))

cover-own :
    (c : Config) (id : Str) (s : Store)
    → cover_key c (or_not_found (media_with_id id s)) ≡ own_cover id s
unfolding media_from_row is_mirrored_cover
cover-own c id s = by_rows (keep (λ row. str_eq row.id id) s.media)
  where
    by_rows :
        (rows : List MediaRow)
        → cover_key c (or_not_found (first (map (media_from_row s) rows)))
          ≡ key_of_cover (first rows)
    by_rows [] = refl
    by_rows (row ∷ rows) = elim (Bool-cases (is_empty row.cover_url)) [
      | inl e ↦ rw e refl
      | inr e ↦ elim (Bool-cases (contains (str "://") row.cover_url)) [
        | inl a ↦ rw (e, a) refl
        | inr a ↦ rw (e, a) refl
      ]
    ]

keys-own :
    (c : Config) (id : Str) (s : Store) → media_keys c id s ≡ own_pages id s ++ own_cover id s
keys-own c id s =
    ap (λ ks. ks ++ cover_key c (or_not_found (media_with_id id s))) (page_keys-own id s)
    ∙ ap (λ ks. own_pages id s ++ ks) (cover-own c id s)

-- With a live queue, no failing call and an identifier that is not blank, deleting a media succeeds
-- and takes away its row, its chapters and their pages; and the objects scheduled beside those that
-- were are exactly those that go with a key of one of its pages or with its own cover, where that is
-- not empty and no address.
pub delete_media-scheduled :
    (c : Config) (id : Str) (s : Store) (k : Str)
    → c.cleanup ≡ configured
    → blank id ≡ false
    → ((delete_media c id (world s [])).0 ≡ ok tt)
      × (scheduled k (delete_media c id (world s [])).1
          ≡ (scheduled k (world s []) || any (λ j. covers j k) (own_pages id s ++ own_cover id s)))
      × ((delete_media c id (world s [])).1.store.media
          ≡ keep (λ row. not (str_eq row.id id)) s.media)
      × ((delete_media c id (world s [])).1.store.chapters
          ≡ keep (λ ch. not (str_eq ch.media_id id)) s.chapters)
      × ((delete_media c id (world s [])).1.store.pages
          ≡ keep
              (λ row.
                not (any (λ ch. str_eq ch.media_id id && str_eq ch.id row.chapter_id) s.chapters))
              s.pages)
unfolding delete_links
delete_media-scheduled c id s k on b =
    let (answer, sent) =
      enqueue_cleanup-scheduled c on k (media_keys c id s) (world (without_media id s) []) refl in
    let (_, kept) = enqueue_cleanup-kept c (media_keys c id s) (world (without_media id s) []) in
    let gone =
      keep-eq (λ row. not (mem_str row.chapter_id (chapter_ids id s))) _ s.pages
        (λ row. ap not (mem_str-chapters row.chapter_id id s.chapters)) in
    rw (runs_to c id s b) (
      answer,
      sent ∙ ap (λ ks. scheduled k (world s []) || any (λ j. covers j k) ks) (keys-own c id s),
      kept.media,
      kept.chapters,
      kept.pages ∙ gone,
    )

-- a computation that leaves the queue alone, whatever its answer
module _ {A : Type 0} (q : List PageCleanupJob) where
  abbrev Quiet : Result A × World Store → Type 0
  Quiet r = Post (λ _ v. v.store.cleanup_queue ≡ q) (λ _ v. v.store.cleanup_queue ≡ q) r

Quiet-exec :
    (q : List PageCleanupJob) (g : Store → Store) (w : World Store)
    → ((s : Store) → (g s).cleanup_queue ≡ s.cleanup_queue)
    → w.store.cleanup_queue ≡ q
    → Quiet q (exec g w)
Quiet-exec q g w same h =
    Post-exec (λ _ v. v.store.cleanup_queue ≡ q) (λ _ v. v.store.cleanup_queue ≡ q) g w
      (λ os. same w.store ∙ h) (λ os. h) (λ os. same w.store ∙ h)

Quiet-first :
    (q : List PageCleanupJob) (g : Store → Store) (n : Exec Store (Unit {0})) (w : World Store)
    → ((s : Store) → (g s).cleanup_queue ≡ s.cleanup_queue)
    → ((v : World Store) → v.store.cleanup_queue ≡ q → Quiet q (n v))
    → w.store.cleanup_queue ≡ q
    → Quiet q ((exec g >> n) w)
Quiet-first q g n w same rest h =
    Post-seq (λ _ v. v.store.cleanup_queue ≡ q) (λ _ v. v.store.cleanup_queue ≡ q)
      (λ _ v. v.store.cleanup_queue ≡ q) (exec g w) (λ _. n) (Quiet-exec q g w same h)
      (λ _ v e. rest v e)

Quiet-delete_media :
    (q : List PageCleanupJob) (id : Str) (w : World Store)
    → w.store.cleanup_queue ≡ q
    → Quiet q (Repo.delete_media id w)
unfolding Repo.delete_media delete_links
Quiet-delete_media q id w h =
    let row : Exec Store (Unit {0}) = exec (delete_media_row id) in
    let artists : Exec Store (Unit {0}) = exec (delete_links artist id) >> row in
    let authors : Exec Store (Unit {0}) = exec (delete_links author id) >> artists in
    let genres : Exec Store (Unit {0}) = exec (delete_links genre id) >> authors in
    let books : Exec Store (Unit {0}) = exec (delete_chapters_of_media id) >> genres in
    Quiet-first q (delete_pages_of_media id) books w (λ s. refl)
      (λ v1.
        Quiet-first q (delete_chapters_of_media id) genres v1 (λ s. refl)
          (λ v2.
            Quiet-first q (delete_links genre id) authors v2 (λ s. refl)
              (λ v3.
                Quiet-first q (delete_links author id) artists v3 (λ s. refl)
                  (λ v4.
                    Quiet-first q (delete_links artist id) row v4 (λ s. refl)
                      (λ v5. Quiet-exec q (delete_media_row id) v5 (λ s. refl))))))
      h

module _ (c : Config) (id : Str) (w : World Store) where
  abbrev Unscheduled : Result (Unit {0}) × World Store → Type 0
  Unscheduled r = Post (λ _ _. Unit {0}) (λ _ v. v.store.cleanup_queue ≡ w.store.cleanup_queue) r

  Unscheduled-ok : (r : Result (Unit {0}) × World Store) → r.0 ≡ ok tt → Unscheduled r
  Unscheduled-ok (ok a, v) e = tt
  Unscheduled-ok (err x, v) e = cc

  abbrev KeepsQueue : World Store → Type 0
  KeepsQueue v = v.store.cleanup_queue ≡ w.store.cleanup_queue

  cover_of-same : (v : World Store) → KeepsQueue v → KeepsQueue (cover_of c id v).1
  unfolding cover_of get query
  cover_of-same v h = of_outcome v.outcomes
    where
      of_outcome :
          (os : List Outcome)
          → KeepsQueue (cover_of c id (record { store = v.store; outcomes = os })).1
      of_outcome [] = h
      of_outcome (answered ∷ os) = h
      of_outcome (refused ∷ os) = h
      of_outcome (lost ∷ os) = h

  delete_media-Unscheduled : Unscheduled (delete_media c id w)
  unfolding delete_media page_keys_for_media cover_of
  delete_media-Unscheduled = elim (Bool-cases (blank id)) [
    | inl b ↦ rw b refl
    | inr b ↦ rw b (
        Post-seq (λ _ v. KeepsQueue v) (λ _ _. Unit {0}) (λ _ v. KeepsQueue v)
          (page_keys_for_media id w)
          (λ keys.
            cover_of c id >>= λ cover. Repo.delete_media id >> enqueue_cleanup c (keys ++ cover))
          (Post-query (λ _ v. KeepsQueue v) (λ _ v. KeepsQueue v) (page_keys id) w (λ os. refl)
            (λ os. refl))
          (λ keys v e.
            rest keys (cover_key c (get id v).0) (cover_of c id v).1 (cover_of-same v e)))
  ]
    where
      rest :
          (keys cover : List Str) (v : World Store)
          → KeepsQueue v
          → Unscheduled ((Repo.delete_media id >> enqueue_cleanup c (keys ++ cover)) v)
      rest keys cover v e =
          Post-seq (λ _ u. KeepsQueue u) (λ _ _. Unit {0}) (λ _ u. KeepsQueue u)
            (Repo.delete_media id v) (λ _. enqueue_cleanup c (keys ++ cover))
            (Quiet-delete_media w.store.cleanup_queue id v e)
            (λ _ u _.
              Unscheduled-ok (enqueue_cleanup c (keys ++ cover) u)
                (enqueue_cleanup-kept c (keys ++ cover) u).0)

-- A deletion of a media that fails schedules no object for deletion.
pub delete_media_failed :
    (c : Config) (id : Str) (w : World Store) (e : Error)
    → (delete_media c id w).0 ≡ err e
    → (delete_media c id w).1.store.cleanup_queue ≡ w.store.cleanup_queue
delete_media_failed c id w e h =
    (Post-answers (λ _ _. Unit {0}) (λ _ v. v.store.cleanup_queue ≡ w.store.cleanup_queue)
        (delete_media c id w) (delete_media-Unscheduled c id w)).1
      e h

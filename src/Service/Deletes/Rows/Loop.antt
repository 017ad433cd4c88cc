-- ===== src/Service/Deletes/Rows/Loop.antt =====
-- The loop of DeleteChapters, round by round.
use griya_maya.Base.{
  ◌≡◌, refl, sym, ◌∙◌, ap, true, false, not, ◌||◌, List, [], ◌∷◌, ◌++◌, keep, arith, inl, inr,
  Bool-cases,
}
use griya_maya.Base.Keep.{keep-keep, keep-all}
use griya_maya.Text.{Str, str_eq, trim_space, blank, mem_str}
use griya_maya.Text.Membership.{mem_str-append}
use griya_maya.Effect.{World, ◌>>=◌, ◌>>◌}
use griya_maya.Effect.Laws.{Post, Post-query, Post-seq, Post-weaken}
use griya_maya.Domain.Media.{StoredPage}
use griya_maya.Cloud.{Store}
use griya_maya.Repo.Reads.{pages, pages_of, default_kind}
use griya_maya.Repo.Writes as Repo
use griya_maya.Repo.Writes.{delete_pages_of_chapter, delete_chapter_row}
use griya_maya.Service.Deletes.{keys_of, delete_rows}
use griya_maya.Service.Deletes.Rows.{
  named, orphaned, orphaned-cons, Removed, SameQueue, without, delete_chapter-without,
  not-mem_str-cons, named-cons, orphaned-nil, mem_str-keys_of,
}

-- a round that skips its identifier, and one that deletes its chapter
Removed-skip :
    (keys : List Str) (id : Str) (ids keys' : List Str) (w w' : World Store)
    → blank id ≡ true
    → Removed keys ids w keys' w'
    → Removed keys (id ∷ ids) w keys' w'
Removed-skip keys id ids keys' w w' b r = record {
  queue = r.queue;
  objects = r.objects;
  rows = rw b r.rows;
  left = rw b r.left;
  collected = λ k. rw b (r.collected k);
}

module _ (keys : List Str) (id : Str) (ids keys' : List Str) (w v w' : World Store)
    (b : blank id ≡ false) (e : v.store ≡ without (trim_space id) w.store)
    (r : Removed (keys ++ keys_of (pages_of (trim_space id) w.store)) ids v keys' w') where
  collected_round :
      (k : Str)
      → mem_str k keys' ≡ (mem_str k keys || orphaned k (trim_space id ∷ named ids) w.store.pages)
  collected_round k =
      let left_over : orphaned k (named ids) v.store.pages
          ≡ orphaned k (named ids)
              (keep (λ row. not (str_eq row.chapter_id (trim_space id))) w.store.pages) =
        ap (λ s. orphaned k (named ids) s.pages) e in
      ground (
        arith,
        r.collected k,
        left_over,
        mem_str-append k keys (keys_of (pages_of (trim_space id) w.store)),
        mem_str-keys_of k (trim_space id) w.store,
        orphaned-cons k (trim_space id) (named ids) w.store.pages (λ row. default_kind row.page)
            (λ row. refl),
      )

  Removed-round : Removed keys (id ∷ ids) w keys' w'
  Removed-round = record {
    queue = r.queue ∙ ap (λ s. s.cleanup_queue) e;
    objects = r.objects ∙ ap (λ s. s.objects) e;
    rows = rw (named-cons id ids b) (
        r.rows
        ∙ ap (λ s. keep (λ row. not (mem_str row.chapter_id (named ids))) s.pages) e
        ∙ keep-keep (λ row. not (mem_str row.chapter_id (named ids)))
            (λ row. not (str_eq row.chapter_id (trim_space id)))
            (λ row. not (mem_str row.chapter_id (trim_space id ∷ named ids))) w.store.pages
            (λ row. not-mem_str-cons row.chapter_id (trim_space id) (named ids)));
    left = rw (named-cons id ids b) (
        r.left
        ∙ ap (λ s. keep (λ c. not (mem_str c.id (named ids))) s.chapters) e
        ∙ keep-keep (λ c. not (mem_str c.id (named ids))) (λ c. not (str_eq c.id (trim_space id)))
            (λ c. not (mem_str c.id (trim_space id ∷ named ids))) w.store.chapters
            (λ c. not-mem_str-cons c.id (trim_space id) (named ids)));
    collected = λ k. rw (named-cons id ids b) (collected_round k);
  }

pages-found :
    (id : Str) (w : World Store)
    → Post (λ ps v. (ps ≡ pages_of id w.store) × (v.store ≡ w.store)) (SameQueue w) (pages id w)
unfolding pages
pages-found id w =
    Post-query (λ ps v. (ps ≡ pages_of id w.store) × (v.store ≡ w.store)) (SameQueue w)
      (pages_of id) w (λ os. (refl, refl)) (λ os. refl)

Removed-nil : (keys : List Str) (w : World Store) → Removed keys [] w keys w
unfolding mem_str
Removed-nil keys w = record {
  queue = refl;
  objects = refl;
  rows = sym (keep-all (λ row. true) w.store.pages (λ row. refl));
  left = sym (keep-all (λ c. true) w.store.chapters (λ c. refl));
  collected = λ k. ground (arith, orphaned-nil k w.store.pages);
}

module _ (keys : List Str) (id : Str) (ids : List Str) (w : World Store) (b : blank id ≡ false)
    (rest : (ks : List Str) (v : World Store)
      → Post (λ keys' v'. Removed ks ids v keys' v') (SameQueue v) (delete_rows ks ids v)) where
  delete_rest :
      (ps : List StoredPage) (u : World Store)
      → ps ≡ pages_of (trim_space id) w.store
      → u.store ≡ without (trim_space id) w.store
      → Post
          (λ keys' v. Removed keys (id ∷ ids) w keys' v)
          (SameQueue w)
          (delete_rows (keys ++ keys_of ps) ids u)
  delete_rest ps u p e = rw p (
      Post-weaken (λ keys' v. Removed added ids u keys' v)
        (λ keys' v. Removed keys (id ∷ ids) w keys' v) (SameQueue u) (SameQueue w)
        (delete_rows added ids u) (rest added u)
        (λ keys' v r. Removed-round keys id ids keys' w u v b e r)
        (λ _ v x. x ∙ ap (λ s. s.cleanup_queue) e))
    where
      added : List Str
      added = keys ++ keys_of (pages_of (trim_space id) w.store)

  delete_round :
      Post
        (λ keys' v. Removed keys (id ∷ ids) w keys' v)
        (SameQueue w)
        ((do
          ps ← pages (trim_space id)
          Repo.delete_chapter (trim_space id)
          delete_rows (keys ++ keys_of ps) ids)
          w)
  delete_round =
      Post-seq (λ ps v. (ps ≡ pages_of (trim_space id) w.store) × (v.store ≡ w.store))
        (λ keys' v. Removed keys (id ∷ ids) w keys' v) (SameQueue w) (pages (trim_space id) w)
        (λ ps. Repo.delete_chapter (trim_space id) >> delete_rows (keys ++ keys_of ps) ids)
        (pages-found (trim_space id) w)
        (λ ps v (p, e).
          Post-seq (λ _ u. u.store ≡ without (trim_space id) w.store)
            (λ keys' v. Removed keys (id ∷ ids) w keys' v) (SameQueue w)
            (Repo.delete_chapter (trim_space id) v) (λ _. delete_rows (keys ++ keys_of ps) ids)
            (delete_chapter-without (trim_space id) w v e) (λ _ u f. delete_rest ps u p f))

-- Whatever the outcomes, the loop schedules nothing; where it ends well it has removed the rows of
-- exactly the chapters named, and collected exactly the keys of their pages.
pub delete_rows-Removed :
    (keys ids : List Str) (w : World Store)
    → Post (λ keys' v. Removed keys ids w keys' v) (SameQueue w) (delete_rows keys ids w)
unfolding delete_rows
delete_rows-Removed keys [] w = Removed-nil keys w
delete_rows-Removed keys (id ∷ ids) w = elim (Bool-cases (blank id)) [
  | inl b ↦
      rw (b, delete_rows)
        (Post-weaken (λ keys' v. Removed keys ids w keys' v)
          (λ keys' v. Removed keys (id ∷ ids) w keys' v) (SameQueue w) (SameQueue w)
          (delete_rows keys ids w) (delete_rows-Removed keys ids w)
          (λ keys' v r. Removed-skip keys id ids keys' w v b r) (λ err v x. x))
  | inr b ↦
      rw (b, delete_rows) (delete_round keys id ids w b (λ ks v. delete_rows-Removed ks ids v))
]

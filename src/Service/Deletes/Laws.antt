-- ===== src/Service/Deletes/Laws.antt =====
-- Deleting chapters: the rows that go, and the objects scheduled for it.
use griya_maya.Base.{
  ◌≡◌, refl, sym, ap, ◌∙◌, Bool, true, false, not, ◌&&◌, ◌||◌, List, [], ◌∷◌, ◌++◌, keep, any,
  is_empty, arith, inl, inr, Bool-cases,
}
use griya_maya.Text.{Str, str_eq, blank, mem_str, trim_space}
use griya_maya.Text.Laws.{str_eq_iff, str_eq_refl}
use griya_maya.Effect.{World, Error, Result, ok, err, exec, continue, ◌>>◌}
use griya_maya.Effect.Laws.{Post, Post-seq, Post-answers}
use griya_maya.Effect.Steady.{Calm, Impossible, query-Calm, exec-Calm, bind-Calm}
use griya_maya.Cloud.{Store, PageRow}
use griya_maya.Repo.Reads.{pages, pages_of}
use griya_maya.Repo.Writes as Repo
use griya_maya.Repo.Writes.{delete_pages_of_chapter, delete_chapter_row}
use griya_maya.Worker.Cleanup.Laws.{names}
use griya_maya.Service.Ports.{Config, configured}
use griya_maya.Service.Cleanup.{enqueue_cleanup}
use griya_maya.Service.Cleanup.Prefixes.{covers, any-of_mem}
use griya_maya.Service.Cleanup.Scheduling.{scheduled, enqueue_cleanup-scheduled}
use griya_maya.Service.Cleanup.Frame.{enqueue_cleanup-kept}
use griya_maya.Service.Deletes.{keys_of, delete_rows, delete_chapters}
use griya_maya.Service.Deletes.Rows.{named, orphaned, Removed, SameQueue}
use griya_maya.Service.Deletes.Rows.Loop.{delete_rows-Removed}

module _ (c : Config) (ids : List Str) (w : World Store) where
  -- what the two parts of DeleteChapters make of the state, put together
  abbrev Gone : World Store → Type 0
  Gone v =
      (v.store.pages ≡ keep (λ row. not (mem_str row.chapter_id (named ids))) w.store.pages)
      × (v.store.chapters ≡ keep (λ ch. not (mem_str ch.id (named ids))) w.store.chapters)
      × (v.store.objects ≡ w.store.objects)

  delete_chapters-Post : Post (λ _ v. Gone v) (SameQueue w) (delete_chapters c ids w)
  unfolding delete_chapters
  delete_chapters-Post =
      Post-seq (λ keys v. Removed [] ids w keys v) (λ _ v. Gone v) (SameQueue w)
        (delete_rows [] ids w) (enqueue_cleanup c) (delete_rows-Removed [] ids w)
        (λ keys v r. scheduled_after keys v r)
    where
      scheduled_after :
          (keys : List Str) (v : World Store)
          → Removed [] ids w keys v
          → Post (λ _ u. Gone u) (SameQueue w) (enqueue_cleanup c keys v)
      scheduled_after keys v r =
          let (answer, kept) = enqueue_cleanup-kept c keys v in
          by_answer (enqueue_cleanup c keys v) answer
            (kept.pages ∙ r.rows, kept.chapters ∙ r.left, kept.objects ∙ r.objects)
        where
          by_answer :
              (r : Result (Unit {0}) × World Store)
              → r.0 ≡ ok tt
              → Gone r.1
              → Post (λ _ u. Gone u) (SameQueue w) r
          by_answer (ok a, u) e g = g
          by_answer (err x, u) e g = cc

-- A deletion of chapters that fails schedules no object for deletion.
pub delete_chapters_failed :
    (c : Config) (ids : List Str) (w : World Store) (e : Error)
    → (delete_chapters c ids w).0 ≡ err e
    → (delete_chapters c ids w).1.store.cleanup_queue ≡ w.store.cleanup_queue
delete_chapters_failed c ids w e h =
    (Post-answers (λ _ v. Gone c ids w v) (SameQueue w) (delete_chapters c ids w)
        (delete_chapters-Post c ids w)).1
      e h

-- A deletion of chapters that succeeds leaves the pages and the chapters of exactly the identifiers
-- that it was not given, compared without the white space around them, and deletes no object itself.
pub delete_chapters_removes :
    (c : Config) (ids : List Str) (w : World Store)
    → (delete_chapters c ids w).0 ≡ ok tt
    → ((delete_chapters c ids w).1.store.pages
        ≡ keep (λ row. not (mem_str row.chapter_id (named ids))) w.store.pages)
      × ((delete_chapters c ids w).1.store.chapters
          ≡ keep (λ ch. not (mem_str ch.id (named ids))) w.store.chapters)
      × ((delete_chapters c ids w).1.store.objects ≡ w.store.objects)
delete_chapters_removes c ids w h =
    (Post-answers (λ _ v. Gone c ids w v) (SameQueue w) (delete_chapters c ids w)
        (delete_chapters-Post c ids w)).0
      tt h

-- the objects that go with a page of one of the chapters
abbrev pub goes_with : Str → List Str → List PageRow → Bool
goes_with k ids rows =
    any
      (λ row.
        mem_str row.chapter_id ids && not (is_empty row.page.r2_key) && covers row.page.r2_key k)
      rows

Bool-ext : (a b : Bool) → (a ≡ true → b ≡ true) → (b ≡ true → a ≡ true) → a ≡ b
Bool-ext true b f g = sym (f refl)
Bool-ext false true f g = g refl
Bool-ext false false f g = refl

-- the keys that satisfy a test, among those collected and among the rows
module _ (f : Str → Bool) (ids : List Str) where
  rows_any-orphaned :
      (k : Str) (rows : List PageRow)
      → orphaned k ids rows ≡ true
      → f k ≡ true
      → any
          (λ row. mem_str row.chapter_id ids && not (is_empty row.page.r2_key) && f row.page.r2_key)
          rows
        ≡ true
  rows_any-orphaned k [] o h = cc
  rows_any-orphaned k (row ∷ rows) o h = elim (Bool-cases (str_eq row.page.r2_key k)) [
    | inl same ↦
        let e = (str_eq_iff row.page.r2_key k).0 same in
        ground (arith, rows_any-orphaned k rows, ap f e, ap is_empty e)
    | inr other ↦ ground (arith, rows_any-orphaned k rows)
  ]

  orphaned-rows_any :
      (rows : List PageRow)
      → any
          (λ row. mem_str row.chapter_id ids && not (is_empty row.page.r2_key) && f row.page.r2_key)
          rows
        ≡ true
      → (k : Str) × (orphaned k ids rows ≡ true) × (f k ≡ true)
  orphaned-rows_any [] h = absurd cc
  orphaned-rows_any (row ∷ rows) h =
      elim (Bool-cases
        (mem_str row.chapter_id ids && not (is_empty row.page.r2_key) && f row.page.r2_key)) [
          | inl here ↦ (row.page.r2_key, ground (arith, str_eq_refl row.page.r2_key), ground arith)
          | inr other ↦
              let (k, o, y) = orphaned-rows_any rows (ground arith) in (k, ground arith, y)
        ]

  any-mem_str : (xs : List Str) → any f xs ≡ true → (k : Str) × (mem_str k xs ≡ true) × (f k ≡ true)
  unfolding mem_str
  any-mem_str [] h = absurd cc
  any-mem_str (x ∷ xs) h = elim (Bool-cases (f x)) [
    | inl holds ↦ (x, ground (arith, str_eq_refl x), holds)
    | inr other ↦ let (k, m, y) = any-mem_str xs (ground arith) in (k, ground arith, y)
  ]

delete_rows-Calm :
    (keys ids : List Str) (w : World Store)
    → w.outcomes ≡ []
    → Post Calm Impossible (delete_rows keys ids w)
unfolding delete_rows Repo.delete_chapter pages
delete_rows-Calm keys [] w h = h
delete_rows-Calm keys (id ∷ ids) w h = elim (Bool-cases (blank id)) [
  | inl b ↦ rw (b, delete_rows) (delete_rows-Calm keys ids w h)
  | inr b ↦
      rw (b, delete_rows)
        (bind-Calm (pages (trim_space id) w)
          (λ ps. Repo.delete_chapter (trim_space id) >> delete_rows (keys ++ keys_of ps) ids)
          (query-Calm (pages_of (trim_space id)) w h)
          (λ ps v g.
            bind-Calm (Repo.delete_chapter (trim_space id) v)
              (λ _. delete_rows (keys ++ keys_of ps) ids)
              (bind-Calm (exec (delete_pages_of_chapter (trim_space id)) v)
                (λ _. exec (delete_chapter_row (trim_space id)))
                (exec-Calm (delete_pages_of_chapter (trim_space id)) v g)
                (λ _ u e. exec-Calm (delete_chapter_row (trim_space id)) u e))
              (λ _ u e. delete_rows-Calm (keys ++ keys_of ps) ids u e)))
]

any-collected :
    (f : Str → Bool) (ids keys : List Str) (rows : List PageRow)
    → ((k : Str) → mem_str k keys ≡ orphaned k ids rows)
    → any f keys
      ≡ any
          (λ row. mem_str row.chapter_id ids && not (is_empty row.page.r2_key) && f row.page.r2_key)
          rows
any-collected f ids keys rows h =
    Bool-ext (any f keys)
      (any
        (λ row. mem_str row.chapter_id ids && not (is_empty row.page.r2_key) && f row.page.r2_key)
        rows)
      (λ e.
        let (k, m, y) = any-mem_str f ids keys e in
        rows_any-orphaned f ids k rows (sym (h k) ∙ m) y)
      (λ e. let (k, o, y) = orphaned-rows_any f ids rows e in any-of_mem f k keys (h k ∙ o) y)

-- With a live queue and no failing call, a deletion of chapters succeeds, and the objects scheduled
-- beside those that were are exactly those that go with a page of one of the chapters.
pub delete_chapters-scheduled :
    (c : Config) (ids : List Str) (w : World Store) (k : Str)
    → c.cleanup ≡ configured
    → w.outcomes ≡ []
    → ((delete_chapters c ids w).0 ≡ ok tt)
      × (scheduled k (delete_chapters c ids w).1
          ≡ (scheduled k w || goes_with k (named ids) w.store.pages))
unfolding delete_chapters mem_str
delete_chapters-scheduled c ids w k on h =
    after (delete_rows [] ids w) (delete_rows-Removed [] ids w) (delete_rows-Calm [] ids w h)
  where
    after :
        (r : Result (List Str) × World Store)
        → Post (λ keys v. Removed [] ids w keys v) (SameQueue w) r
        → Post Calm Impossible r
        → ((continue r (enqueue_cleanup c)).0 ≡ ok tt)
          × (scheduled k (continue r (enqueue_cleanup c)).1
              ≡ (scheduled k w || goes_with k (named ids) w.store.pages))
    after (ok keys, v) x quiet =
        let (answer, sent) = enqueue_cleanup-scheduled c on k keys v quiet in
        let found : any (λ j. covers j k) keys ≡ goes_with k (named ids) w.store.pages =
          any-collected (λ j. covers j k) (named ids) keys w.store.pages x.collected in
        let same : scheduled k v ≡ scheduled k w = ap (any (λ job. names job k)) x.queue in
        (answer, ground (arith, sent, found, same))
    after (err e, v) x quiet = absurd quiet

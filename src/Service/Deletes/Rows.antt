-- ===== src/Service/Deletes/Rows.antt =====
-- What the loop of DeleteChapters has removed and collected.
pub mod Loop
use griya_maya.Base.{
  ℕ, ◌≡◌, refl, sym, ◌∙◌, ap, Bool, true, false, not, ◌&&◌, ◌||◌, List, [], ◌∷◌, ◌++◌, map, keep,
  any, is_empty, arith, inl, inr, Bool-cases,
}
use griya_maya.Base.Keep.{keep-keep, keep-all}
use griya_maya.Text.{Str, str_eq, trim_space, blank, mem_str}
use griya_maya.Text.Laws.{str_eq_comm}
use griya_maya.Text.Membership.{mem_str-append, mem_str-keep}
use griya_maya.Effect.{World, Error, exec, ◌>>=◌, ◌>>◌}
use griya_maya.Effect.Laws.{Post, Post-exec, Post-query, Post-seq, Post-weaken}
use griya_maya.Domain.Media.{StoredPage}
use griya_maya.Cloud.{Store, PageRow}
use griya_maya.Repo.Reads.{order_by, insert_by, pages, pages_of, default_kind}
use griya_maya.Repo.Writes as Repo
use griya_maya.Repo.Writes.{delete_pages_of_chapter, delete_chapter_row}
use griya_maya.Service.Deletes.{keys_of, delete_rows}

-- the identifiers that the loop does not skip
abbrev pub named : List Str → List Str
named ids = map trim_space (keep (λ id. not (blank id)) ids)

-- whether a page of one of these chapters has that key
abbrev pub orphaned : Str → List Str → List PageRow → Bool
orphaned k ids rows =
    any (λ row. mem_str row.chapter_id ids && str_eq row.page.r2_key k && not (is_empty k)) rows

mem_str-insert_by :
    (k : Str) (f : StoredPage → ℕ) (p : StoredPage) (ps : List StoredPage)
    → mem_str k (map (λ q. q.r2_key) (insert_by f p ps))
      ≡ (str_eq p.r2_key k || mem_str k (map (λ q. q.r2_key) ps))
unfolding mem_str insert_by
mem_str-insert_by k f p [] = refl
mem_str-insert_by k f p (q ∷ ps) = ground (arith, mem_str-insert_by k f p ps)

mem_str-order_by :
    (k : Str) (f : StoredPage → ℕ) (ps : List StoredPage)
    → mem_str k (map (λ q. q.r2_key) (order_by f ps)) ≡ mem_str k (map (λ q. q.r2_key) ps)
unfolding mem_str order_by
mem_str-order_by k f [] = refl
mem_str-order_by k f (p ∷ ps) =
    ground (arith, mem_str-order_by k f ps, mem_str-insert_by k f p (order_by f ps))

-- one round: the pages of the chapter and what the rest finds without them
orphaned-cons :
    (k id : Str) (ids : List Str) (rows : List PageRow) (f : PageRow → StoredPage)
    → ((row : PageRow) → (f row).r2_key ≡ row.page.r2_key)
    → orphaned k (id ∷ ids) rows ≡ (
        (mem_str k (map (λ q. q.r2_key) (map f (keep (λ row. str_eq row.chapter_id id) rows)))
          && not (is_empty k))
        || orphaned k ids (keep (λ row. not (str_eq row.chapter_id id)) rows))
unfolding mem_str
orphaned-cons k id ids [] f h = refl
orphaned-cons k id ids (row ∷ rows) f h =
    ground (arith, orphaned-cons k id ids rows f h, h row, str_eq_comm row.chapter_id id)

-- What the loop over `ids` makes of the keys so far, and of the tables.
pub record Removed (keys ids : List Str) (w : World Store) (keys' : List Str) (w' : World Store)
    : Type 0 where
  pub queue : w'.store.cleanup_queue ≡ w.store.cleanup_queue
  pub objects : w'.store.objects ≡ w.store.objects
  pub rows : w'.store.pages ≡ keep (λ row. not (mem_str row.chapter_id (named ids))) w.store.pages
  pub left : w'.store.chapters ≡ keep (λ c. not (mem_str c.id (named ids))) w.store.chapters
  pub collected :
      (k : Str) → mem_str k keys' ≡ (mem_str k keys || orphaned k (named ids) w.store.pages)

abbrev pub SameQueue : World Store → Error → World Store → Type 0
SameQueue w e w' = w'.store.cleanup_queue ≡ w.store.cleanup_queue

-- the store after the two statements of DeleteChapter
abbrev without : Str → Store → Store
without id s = delete_chapter_row id (delete_pages_of_chapter id s)

delete_chapter-without :
    (id : Str) (w v : World Store)
    → v.store ≡ w.store
    → Post (λ _ u. u.store ≡ without id w.store) (SameQueue w) (Repo.delete_chapter id v)
unfolding Repo.delete_chapter
delete_chapter-without id w v e =
    Post-seq (λ _ u. u.store ≡ delete_pages_of_chapter id w.store)
      (λ _ u. u.store ≡ without id w.store) (SameQueue w) (exec (delete_pages_of_chapter id) v)
      (λ _. exec (delete_chapter_row id))
      (Post-exec (λ _ u. u.store ≡ delete_pages_of_chapter id w.store) (SameQueue w)
        (delete_pages_of_chapter id) v (λ os. ap (delete_pages_of_chapter id) e)
        (λ os. ap (λ s. s.cleanup_queue) e) (λ os. ap (λ s. s.cleanup_queue) e))
      (λ _ u f.
        Post-exec (λ _ x. x.store ≡ without id w.store) (SameQueue w) (delete_chapter_row id) u
          (λ os. ap (delete_chapter_row id) f) (λ os. ap (λ s. s.cleanup_queue) f)
          (λ os. ap (λ s. s.cleanup_queue) f))

not-mem_str-cons :
    (x j : Str) (js : List Str)
    → not (mem_str x (j ∷ js)) ≡ (not (str_eq x j) && not (mem_str x js))
unfolding mem_str
not-mem_str-cons x j js = ground (arith, str_eq_comm x j)

named-cons :
    (id : Str) (ids : List Str) → blank id ≡ false → named (id ∷ ids) ≡ trim_space id ∷ named ids
named-cons id ids b = rw b refl

orphaned-nil : (k : Str) (rows : List PageRow) → orphaned k [] rows ≡ false
unfolding mem_str
orphaned-nil k [] = refl
orphaned-nil k (row ∷ rows) = orphaned-nil k rows

-- the keys that a round adds are those of the chapter's pages
mem_str-keys_of :
    (k id : Str) (s : Store)
    → mem_str k (keys_of (pages_of id s)) ≡ (
        mem_str k (
          map
            (λ q. q.r2_key)
            (map (λ row. default_kind row.page) (keep (λ row. str_eq row.chapter_id id) s.pages)))
        && not (is_empty k))
mem_str-keys_of k id s =
    mem_str-keep (λ j. not (is_empty j)) k (map (λ p. p.r2_key) (pages_of id s))
    ∙ ap (λ b. b && not (is_empty k))
        (mem_str-order_by k (λ p. p.index)
          (map (λ row. default_kind row.page) (keep (λ row. str_eq row.chapter_id id) s.pages)))

-- ===== src/Service/Deletes/Page.antt =====
-- Deleting one page of a chapter.
use griya_maya.Base.{
  ℕ, ◌≡◌, refl, false, not, ◌&&◌, ◌||◌, ◌==◌, Option, some, List, [], ◌∷◌, keep, is_empty, arith,
  inl, inr, Bool-cases,
}
use griya_maya.Text.{Str, str_eq, blank}
use griya_maya.Effect.{ok, query, call, exec}
use griya_maya.Effect.Laws.{world}
use griya_maya.Domain.Media.{StoredPage}
use griya_maya.Cloud.{Store, PageRow}
use griya_maya.Repo.Reads.{pages, pages_of, first}
use griya_maya.Repo.Writes as Repo
use griya_maya.Service.Ports.{Config, configured}
use griya_maya.Service.Cleanup.Prefixes.{covers}
use griya_maya.Service.Cleanup.Scheduling.{scheduled, enqueue_cleanup-scheduled}
use griya_maya.Service.Cleanup.Frame.{enqueue_cleanup-kept}
use griya_maya.Service.Deletes.{delete_found, delete_chapter_page}

-- the page of the chapter that has the index
abbrev pub page_at : Str → ℕ → Store → Option StoredPage
page_at chapter_id idx s = first (keep (λ p. p.index == idx) (pages_of chapter_id s))

page_runs_to :
    (c : Config) (id : Str) (idx : ℕ) (s : Store)
    → blank id ≡ false
    → delete_chapter_page c id idx (world s [])
      ≡ delete_found c id idx (page_at id idx s) (world s [])
unfolding delete_chapter_page pages query call
page_runs_to c id idx s b = rw b refl

-- the rows that a deletion of the page leaves
abbrev pub others : Str → ℕ → List PageRow → List PageRow
others chapter_id idx rows =
    keep (λ row. not (str_eq row.chapter_id chapter_id && row.page.index == idx)) rows

found-scheduled :
    (c : Config) (id : Str) (idx : ℕ) (s : Store) (k : Str) (p : StoredPage)
    → c.cleanup ≡ configured
    → ((delete_found c id idx (some p) (world s [])).0 ≡ ok tt)
      × ((delete_found c id idx (some p) (world s [])).1.store.pages ≡ others id idx s.pages)
      × (scheduled k (delete_found c id idx (some p) (world s [])).1
          ≡ (scheduled k (world s []) || (not (is_empty p.r2_key) && covers p.r2_key k)))
unfolding Repo.delete_page exec call
found-scheduled c id idx s k p on = elim (Bool-cases (is_empty p.r2_key)) [
  | inl e ↦ rw e (refl, refl, ground arith)
  | inr e ↦
      let v = world (record s { pages = others id idx s.pages }) [] in
      let (answer, sent) = enqueue_cleanup-scheduled c on k (p.r2_key ∷ []) v refl in
      let (_, kept) = enqueue_cleanup-kept c (p.r2_key ∷ []) v in
      rw e (answer, kept.pages, ground (arith, sent))
]

-- When no call fails, deleting a page that the chapter has succeeds and takes away the rows with its
-- index in that chapter; with a live queue the objects scheduled beside those that were are exactly
-- those that go with its key, none where the key is empty.
pub delete_chapter_page-scheduled :
    (c : Config) (id : Str) (idx : ℕ) (s : Store) (k : Str) (p : StoredPage)
    → c.cleanup ≡ configured
    → blank id ≡ false
    → page_at id idx s ≡ some p
    → ((delete_chapter_page c id idx (world s [])).0 ≡ ok tt)
      × ((delete_chapter_page c id idx (world s [])).1.store.pages ≡ others id idx s.pages)
      × (scheduled k (delete_chapter_page c id idx (world s [])).1
          ≡ (scheduled k (world s []) || (not (is_empty p.r2_key) && covers p.r2_key k)))
delete_chapter_page-scheduled c id idx s k p on b there =
    rw (page_runs_to c id idx s b, there) (found-scheduled c id idx s k p on)

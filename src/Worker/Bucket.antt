-- ===== src/Worker/Bucket.antt =====
-- internal/repository/r2/store.go: listing and deleting objects.
pub mod Laws
use griya_maya.Base.{
  ℕ, zero, suc, Bool, true, false, not, ◌&&◌, ◌||◌, List, [], ◌∷◌, ◌++◌, map, keep, any, length,
  take, drop, if◌then◌else◌, is_empty,
}
use griya_maya.Text.{Str, blank, has_prefix, mem_str}
use griya_maya.Effect.{
  Exec, World, Result, ok, err, upstream, query, call, pure, fail, guard, ◌>>=◌, ◌>>◌,
}
use griya_maya.Cloud.{Store}

abbrev pub object_keys : Store → List Str
object_keys s = map (λ o. o.0) s.objects

-- Store.ListKeys: the pages of the listing are one call, which fails where one of them does
unfoldable pub list_keys : Str → Exec Store (List Str)
unfolding query
list_keys prefix =
    if blank prefix then fail upstream else query (λ s. keep (has_prefix prefix) (object_keys s))

-- what R2 does with one DeleteObjects request: all its keys go but those that it fails on
unfoldable pub remove_objects : List Str → Store → Store
remove_objects batch s = record s {
  objects = keep (λ o. not (mem_str o.0 batch) || mem_str o.0 s.stuck) s.objects;
}

-- the request is answered with an error for each key that stays
unfoldable pub stuck_in : List Str → Store → Bool
stuck_in batch s = any (λ k. mem_str k s.stuck) batch

abbrev pub delete_batch_limit : ℕ
delete_batch_limit = 1000

-- one request: true where it failed, or answered with the error of a key
abbrev pub counted : Result Bool × World Store → Result Bool × World Store
counted (ok errors, w) = (ok errors, w)
counted (err e, w) = (ok true, w)

unfoldable pub delete_batch : List Str → Exec Store Bool
unfolding call
delete_batch batch w = counted (call (stuck_in batch) (remove_objects batch) w)

-- the loop of Store.DeleteObjects over its batches, on fuel; `errs` says whether an error is kept
unfoldable pub delete_batches : ℕ → List Str → Bool → Exec Store Bool
delete_batches fuel [] errs = pure errs
delete_batches zero (k ∷ ks) errs = pure true
delete_batches (suc fuel) (k ∷ ks) errs = do
  failed ← delete_batch (take delete_batch_limit (k ∷ ks))
  delete_batches fuel (drop delete_batch_limit (k ∷ ks)) (errs || failed)

-- Store.DeleteObjects
unfoldable pub delete_objects : List Str → Exec Store (Unit {0})
delete_objects keys = do
  errs ← delete_batches (length keys) (keep (λ k. not (blank k)) keys) false
  guard (not errs) upstream

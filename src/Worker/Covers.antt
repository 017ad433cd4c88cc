-- ===== src/Worker/Covers.antt =====
-- internal/covermirror/covermirror.go: the worker that copies an outside cover into R2.
pub mod Laws
use griya_maya.Base.{
  ℕ, Bool, true, false, not, ◌||◌, Option, none, some, List, [], ◌∷◌, ◌++◌, keep, if◌then◌else◌,
  is_empty,
}
use griya_maya.Base.Int.{ℤ}
use griya_maya.Text.{Str, str, str_eq}
use griya_maya.Effect.{Exec, Result, ok, err, exec, pure, ◌>>◌}
use griya_maya.Domain.Jobs.{CoverMirrorJob}
use griya_maya.Cloud.{Store}
use griya_maya.Repo.Writes.{set_media_cover}
use griya_maya.Worker.Cleanup.{acked}

-- queue.Message: the body is what json.Unmarshal makes of it, `none` where it fails
pub record CoverMessage : Type 0 where
  pub lease_id : Str
  pub body : Option CoverMirrorJob
  pub attempts : ℤ

abbrev pub with_object : Str → Str → Store → Store
with_object key bytes s = record s {
  objects = (key, bytes) ∷ keep (λ o. not (str_eq o.0 key)) s.objects;
}

-- Store.Put of package r2
unfoldable pub put : Str → Str → Exec Store (Unit {0})
unfolding exec
put key bytes = exec (with_object key bytes)

abbrev pub cover_key : CoverMirrorJob → Str
cover_key job = str "covers/" ++ job.media_id ++ str ".avif"

-- The answers of the outside server and of the image codec are arguments.
module _ (fetch encode : Str → Result Str) (now : ℕ) where
  unfoldable pub store_cover : CoverMirrorJob → Str → Exec Store (Unit {0})
  store_cover job bytes = do
    put (cover_key job) bytes
    set_media_cover job.media_id (cover_key job) now

  abbrev pub on_encoded : CoverMirrorJob → Result Str → Exec Store Bool
  on_encoded job (err e) = pure true
  on_encoded job (ok bytes) = λ w. acked (store_cover job bytes w)

  abbrev pub on_fetched : CoverMirrorJob → Result Str → Exec Store Bool
  on_fetched job (err e) = pure false
  on_fetched job (ok raw) = on_encoded job (encode raw)

  abbrev pub on_read : Option CoverMirrorJob → Exec Store Bool
  on_read none = pure true
  on_read (some job) =
      if is_empty job.media_id || is_empty job.source_url
      then pure true
      else on_fetched job (fetch job.source_url)

  -- Worker.process: true to acknowledge the message and false to try it again
  unfoldable pub mirror : CoverMessage → Exec Store Bool
  mirror m = on_read m.body

-- ===== src/Service/Ports.antt =====
-- What the media service is wired with: service.NewMediaService, the R2 store's addresses and the
-- producers of the packages cleanup and covermirror.
use griya_maya.Base.{Bool, true, false, List, [], ◌∷◌, ◌++◌, if◌then◌else◌, is_empty}
use griya_maya.Text.{Str, trim_left_char, trim_right_char}
use griya_maya.FilePath.{slash}
use griya_maya.Effect.{Exec, Result, exec, pure}
use griya_maya.Domain.Jobs.{PageCleanupJob, CoverMirrorJob}
use griya_maya.Cloud.{Store}

-- a queue field of the service: nil, a producer whose client has no credentials, or a live one
pub data Queue : Type 0 where
  missing unconfigured configured : Queue

-- The signing of presigned addresses is the AWS library's: `presign_get` is its answer for a key.
pub record Config : Type 0 where
  pub cleanup : Queue
  pub cover : Queue
  pub service_url : Str
  pub bucket_url : Str
  pub presign_get : Str → Result Str

abbrev pub present : Queue → Bool
present missing = false
present unconfigured = true
present configured = true

-- Client.Configured
abbrev pub live : Queue → Bool
live missing = false
live unconfigured = false
live configured = true

abbrev pub push_job : PageCleanupJob → Store → Store
push_job job s = record s { cleanup_queue = s.cleanup_queue ++ job ∷ [] }

-- Client.Send behind the test of Client.Configured
unfoldable pub send_job : Queue → PageCleanupJob → Exec Store (Unit {0})
unfolding exec
send_job q job = if live q then exec (push_job job) else pure tt

-- Producer.Enqueue of package cleanup
unfoldable pub enqueue_keys : Queue → List Str → Exec Store (Unit {0})
unfolding send_job
enqueue_keys q [] = pure tt
enqueue_keys q (k ∷ ks) = send_job q (record { keys = k ∷ ks; prefixes = [] })

-- Producer.EnqueuePrefixes of package cleanup
unfoldable pub enqueue_prefixes : Queue → List Str → Exec Store (Unit {0})
unfolding send_job
enqueue_prefixes q [] = pure tt
enqueue_prefixes q (p ∷ ps) = send_job q (record { keys = []; prefixes = p ∷ ps })

-- Producer.Enqueue of package covermirror
unfoldable pub enqueue_cover : Queue → CoverMirrorJob → Exec Store (Unit {0})
unfolding exec
enqueue_cover q job =
    if live q then exec (λ s. record s { cover_queue = s.cover_queue ++ job ∷ [] }) else pure tt

-- Store.PublicURL of package r2, whose New trims the slashes at the end of its address; the empty text where no public domain is configured
unfoldable pub public_url : Config → Str → Str
public_url c key =
    let base = trim_right_char slash c.bucket_url in
    if is_empty base then [] else base ++ slash ∷ trim_left_char slash key

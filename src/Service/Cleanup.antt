-- ===== src/Service/Cleanup.antt =====
-- media_service.go: scheduling the deletion of orphaned R2 objects.
pub mod Prefixes
pub mod Scheduling
pub mod Frame
use griya_maya.Base.{Bool, true, false, not, List, [], ◌∷◌, ◌++◌, if◌then◌else◌, is_empty}
use griya_maya.Text.{Str, str, str_eq, trim_space, has_prefix, mem_str}
use griya_maya.FilePath.{slash, dir}
use griya_maya.Effect.{Exec, pure, attempt, ◌>>=◌, ◌>>◌}
use griya_maya.Cloud.{Store}
use griya_maya.Service.Ports.{Config, present, enqueue_keys, enqueue_prefixes}

-- the two results of splitHLSPrefixes; `prefixes` is also its map `seen`
pub record Split : Type 0 where
  pub plain : List Str
  pub prefixes : List Str

abbrev pub hls_root : Str
hls_root = str "hls/"

-- one round of the loop of splitHLSPrefixes
unfoldable pub split_key : Split → Str → Split
split_key out k =
    let d = dir (trim_space k) in
    let p = d ++ slash ∷ [] in
    if has_prefix hls_root d
    then if mem_str p out.prefixes
      then out
      else record { plain = out.plain; prefixes = out.prefixes ++ p ∷ [] }
    else record { plain = out.plain ++ k ∷ []; prefixes = out.prefixes }

unfoldable pub split_keys : Split → List Str → Split
unfolding split_key
split_keys out [] = out
split_keys out (k ∷ ks) = split_keys (split_key out k) ks

-- splitHLSPrefixes
unfoldable pub split_hls_prefixes : List Str → Split
unfolding split_keys
split_hls_prefixes ks = split_keys (record { plain = []; prefixes = [] }) ks

-- MediaService.enqueueCleanup
unfoldable pub enqueue_cleanup : Config → List Str → Exec Store (Unit {0})
enqueue_cleanup c keys =
    let split = split_hls_prefixes keys in
    let send : Exec Store (Unit {0}) = do
      if is_empty split.plain then pure tt else attempt (enqueue_keys c.cleanup split.plain)
      if is_empty split.prefixes
          then pure tt
          else attempt (enqueue_prefixes c.cleanup split.prefixes)
    in if not (present c.cleanup) then pure tt else if is_empty keys then pure tt else send

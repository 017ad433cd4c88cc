-- ===== src/Domain/Jobs.antt =====
-- internal/domain/cleanup.go and cover.go: the messages of the two queues.
use griya_maya.Base.{List}
use griya_maya.Text.{Str}

pub record PageCleanupJob : Type 0 where
  pub keys : List Str
  pub prefixes : List Str

pub record CoverMirrorJob : Type 0 where
  pub media_id : Str
  pub source_url : Str

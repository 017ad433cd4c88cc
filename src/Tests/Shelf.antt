-- ===== src/Tests/Shelf.antt =====
-- A catalog of two chapters, one of them with a page and a video bundle.
use griya_maya.Base.{ℕ, some, [], ◌∷◌, ◌++◌}
use griya_maya.Base.Int.{pos}
use griya_maya.Text.{Str, str}
use griya_maya.Effect.{ok}
use griya_maya.Domain.Media.{Chapter}
use griya_maya.Domain.Jobs.{PageCleanupJob}
use griya_maya.Cloud.{MediaRow, PageRow, Store}
use griya_maya.Service.Ports.{Config, configured, missing}
use griya_maya.Worker.Cleanup.{Message}

abbrev pub live_config : Config
live_config = record {
  cleanup = configured;
  cover = missing;
  service_url = str "https://x";
  bucket_url = [];
  presign_get = λ k. ok (str "https://r2/" ++ k);
}

abbrev pub page : Str → ℕ → Str → PageRow
page chapter_id index key = record {
  chapter_id = chapter_id;
  page = record { index = index; r2_key = key; width = 0; height = 0; kind = str "image" };
}

abbrev pub chapter : Str → Chapter
chapter id = record {
  id = id;
  media_id = str "m";
  url = [];
  name = [];
  number = 1;
  scanlator = [];
  date_upload = 0;
  format = [];
}

abbrev pub media : MediaRow
media = record {
  id = str "m";
  source_id = str "s";
  type = str "manga";
  sub_type = [];
  url = [];
  title = str "t";
  cover_url = str "c/m";
  description = [];
  status = [];
  popularity = 0;
  updated_at = 0;
}

abbrev pub shelf : Store
shelf = record {
  media = media ∷ [];
  chapters = chapter (str "a") ∷ chapter (str "b") ∷ [];
  pages =
      page (str "a") 0 (str "p/1")
      ∷ page (str "a") 1 (str "hls/v/i")
      ∷ page (str "b") 0 (str "p/2")
      ∷ [];
  sub_types = [];
  genre = record { tags = []; links = [] };
  author = record { tags = []; links = [] };
  artist = record { tags = []; links = [] };
  objects = (str "p/1", []) ∷ (str "hls/v/i", []) ∷ (str "hls/v/1", []) ∷ (str "p/2", []) ∷ [];
  stuck = [];
  cleanup_queue = [];
  cover_queue = [];
}

abbrev pub job : PageCleanupJob
job = record { keys = str "p/1" ∷ []; prefixes = str "hls/v/" ∷ [] }

abbrev pub message : Message
message = record { lease_id = str "l"; body = some job; attempts = pos 1 }

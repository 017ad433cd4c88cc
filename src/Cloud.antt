-- ===== src/Cloud.antt =====
-- The remote state that the server works on: the D1 tables of migrations/, the objects of the R2
-- bucket and the messages of the two queues. Columns that hold JSON or NULL are decoded.
use griya_maya.Base.{ℕ, List}
use griya_maya.Text.{Str}
use griya_maya.Domain.Media.{MediaType, MediaStatus, SubType, Chapter, StoredPage}
use griya_maya.Domain.Jobs.{PageCleanupJob, CoverMirrorJob}

-- a row of `media`
pub record MediaRow : Type 0 where
  pub id : Str
  pub source_id : Str
  pub type : MediaType
  pub sub_type : Str
  pub url : Str
  pub title : Str
  pub cover_url : Str
  pub description : Str
  pub status : MediaStatus
  pub popularity : ℕ
  pub updated_at : ℕ

-- a row of `page`, whose primary key is the chapter with the index
pub record PageRow : Type 0 where
  pub chapter_id : Str
  pub page : StoredPage

-- a row of `genre`, `author` or `artist`; the last two have no slug
pub record Tag : Type 0 where
  pub id : Str
  pub slug : Str
  pub name : Str

-- a row of `media_genre`, `media_author` or `media_artist`
pub record Link : Type 0 where
  pub media_id : Str
  pub tag_id : Str

-- one taxonomy: its table and its join table
pub record Taxa : Type 0 where
  pub tags : List Tag
  pub links : List Link

pub record Store : Type 0 where
  pub media : List MediaRow
  pub chapters : List Chapter
  pub pages : List PageRow
  pub sub_types : List SubType
  pub genre : Taxa
  pub author : Taxa
  pub artist : Taxa
  -- key and contents
  pub objects : List (Str × Str)
  -- the keys that R2 fails to delete although it answers the request
  pub stuck : List Str
  pub cleanup_queue : List PageCleanupJob
  pub cover_queue : List CoverMirrorJob

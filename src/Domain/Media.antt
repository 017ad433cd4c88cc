-- ===== src/Domain/Media.antt =====
-- internal/domain/manga.go: media, chapters, pages and their write requests.
-- Times are Unix seconds, with 0 for Go's zero time. Chapter numbers are floats in the source, of
-- which only the order matters here: they are natural numbers in a fixed scale.
use griya_maya.Base.{ℕ, Bool, ◌||◌, List}
use griya_maya.Text.{Str, str, str_eq}

-- MediaType and MediaStatus are string types: a request may hold any text in them.
abbrev pub MediaType : Type 0
MediaType = Str

abbrev pub media_manga : MediaType
media_manga = str "manga"

abbrev pub media_video : MediaType
media_video = str "video"

abbrev pub media_novel : MediaType
media_novel = str "novel"

abbrev pub MediaStatus : Type 0
MediaStatus = Str

abbrev pub status_unknown : MediaStatus
status_unknown = str "unknown"

pub record Media : Type 0 where
  pub id : Str
  pub source_id : Str
  pub type : MediaType
  pub sub_type : Str
  pub url : Str
  pub title : Str
  pub cover_url : Str
  pub description : Str
  pub genres : List Str
  pub authors : List Str
  pub artists : List Str
  pub status : MediaStatus
  pub updated_at : ℕ

pub record SubType : Type 0 where
  pub slug : Str
  pub type : MediaType
  pub name : Str

pub record SubTypeWriteRequest : Type 0 where
  pub slug : Str
  pub type : MediaType
  pub name : Str

pub record Chapter : Type 0 where
  pub id : Str
  pub media_id : Str
  pub url : Str
  pub name : Str
  pub number : ℕ
  pub scanlator : Str
  pub date_upload : ℕ
  pub format : Str

abbrev pub page_kind_image : Str
page_kind_image = str "image"

abbrev pub page_kind_video : Str
page_kind_video = str "video"

abbrev pub page_kind_novel : Str
page_kind_novel = str "novel"

pub record Page : Type 0 where
  pub index : ℕ
  pub image_url : Str
  pub type : Str
  pub body : Str
  pub width : ℕ
  pub height : ℕ

pub record StoredPage : Type 0 where
  pub index : ℕ
  pub r2_key : Str
  pub width : ℕ
  pub height : ℕ
  pub kind : Str

pub record AdminPage : Type 0 where
  pub index : ℕ
  pub r2_key : Str
  pub image_url : Str
  pub width : ℕ
  pub height : ℕ
  pub kind : Str

pub record MediaWriteRequest : Type 0 where
  pub source_id : Str
  pub type : MediaType
  pub sub_type : Str
  pub url : Str
  pub title : Str
  pub cover_url : Str
  pub description : Str
  pub status : MediaStatus
  pub genres : List Str
  pub authors : List Str
  pub artists : List Str

pub record ChapterWriteRequest : Type 0 where
  pub media_id : Str
  pub url : Str
  pub name : Str
  pub number : ℕ
  pub scanlator : Str
  pub date_upload : ℕ
  pub format : Str

-- the switch on a media type in mediaFromRequest and subTypeFromRequest
unfoldable pub known_type : MediaType → Bool
known_type t = str_eq t media_manga || str_eq t media_video || str_eq t media_novel

-- ===== src/Connections/Suggestions.antt =====
-- connection_search.go and MALStatus of domain/connection.go: the request to a provider's search, and
-- what is made of its records.
pub mod Fuel
use griya_maya.Base.{
  ℕ, ◌+◌, ◌/◌, ◌%◌, min, Bool, true, false, not, ◌&&◌, ◌||◌, List, [], ◌∷◌, ◌++◌, keep, ltb,
  if◌then◌else◌, is_empty,
}
use griya_maya.Base.Int.{ℤ, pos, negsuc, positive_or}
use griya_maya.Text.{Str, str, str_eq, contains, trim_space, trim_right_char}
use griya_maya.Effect.{Result, ok, err, invalid_input}
use griya_maya.Domain.Media.{
  MediaType, MediaStatus, media_manga, media_video, media_novel, status_unknown,
}
use griya_maya.Connections.Url.{query_escape}

-- searchMediaType
unfoldable pub search_media_type : Str → Result MediaType
unfolding str_eq
search_media_type kind =
    if is_empty kind
    then ok media_manga
    else if str_eq kind media_manga || str_eq kind media_video || str_eq kind media_novel
    then ok kind
    else err invalid_input

-- clampSearchLimit
unfoldable pub clamp_search_limit : ℤ → ℕ
clamp_search_limit limit = min (positive_or 10 limit) 25

-- strconv.Itoa, by fuel: a number has no more digits than itself plus one
abbrev pub digits : ℕ → ℕ → Str
digits ℕ.zero n = []
digits (ℕ.suc fuel) n =
    let rest = digits fuel (n / 10) in
    if ltb n 10 then (b'0' + n) ∷ [] else rest ++ (b'0' + n % 10) ∷ []

abbrev pub itoa : ℤ → Str
itoa (pos n) = digits (ℕ.suc n) n
itoa (negsuc n) = b'-' ∷ digits (n + 2) (n + 1)

abbrev pub is_anime : MediaType → Bool
is_anime t = str_eq t media_video

abbrev pub requested_fields : MediaType → Str
requested_fields t =
    if is_anime t
    then str "id,title,synopsis,main_picture,status,genres,studios,media_type"
    else str "id,title,synopsis,main_picture,status,genres,authors{first_name,last_name},media_type"

abbrev pub mal_path : MediaType → Str
mal_path t = if is_anime t then str "anime" else str "manga"

-- malSearchURL
unfoldable pub mal_search_url : Str → MediaType → Str → ℕ → Str
unfolding query_escape str_eq
mal_search_url base t query limit =
    trim_right_char b'/' base
    ++ b'/' ∷ mal_path t
    ++ str "?q="
    ++ query_escape query
    ++ str "&limit="
    ++ itoa (pos limit)
    ++ str "&fields="
    ++ query_escape (requested_fields t)

-- an entry of Authors of malNode
pub record Credit : Type 0 where
  pub first_name : Str
  pub last_name : Str
  pub role : Str

-- malNode; the lists of genres and of studios are lists of names
pub record MalNode : Type 0 where
  pub id : ℤ
  pub title : Str
  pub synopsis : Str
  pub medium : Str
  pub large : Str
  pub status : Str
  pub genres : List Str
  pub authors : List Credit
  pub studios : List Str

-- MediaSuggestion
pub record MediaSuggestion : Type 0 where
  pub external_id : Str
  pub title : Str
  pub description : Str
  pub cover_url : Str
  pub status : MediaStatus
  pub genres : List Str
  pub categories : List Str
  pub authors : List Str
  pub artists : List Str
  pub url : Str

-- MALStatus
unfoldable pub mal_status : Str → Bool → MediaStatus
unfolding str_eq
mal_status s true =
    if str_eq s (str "finished_airing")
    then str "completed"
    else if str_eq s (str "currently_airing")
    then str "ongoing"
    else status_unknown
mal_status s false =
    if str_eq s (str "finished")
    then str "completed"
    else if str_eq s (str "currently_publishing")
    then str "ongoing"
    else if str_eq s (str "on_hiatus")
    then str "hiatus"
    else if str_eq s (str "discontinued")
    then str "cancelled"
    else status_unknown

abbrev pub credit_name : Credit → Str
credit_name a = trim_space (a.first_name ++ 0x20 ∷ a.last_name)

abbrev pub is_art : Credit → Bool
is_art a = contains (str "Art") a.role

abbrev pub is_story : Credit → Bool
is_story a = contains (str "Story") a.role

-- one turn of the loop over the credits, before the ones that come after it
abbrev pub sort_credit : Credit → List Str × List Str → List Str × List Str
sort_credit a (authors, artists) =
    if is_empty (credit_name a)
    then (authors, artists)
    else if is_art a && is_story a
    then (credit_name a ∷ authors, credit_name a ∷ artists)
    else if is_art a
    then (authors, credit_name a ∷ artists)
    else (credit_name a ∷ authors, artists)

unfoldable pub credits : List Credit → List Str × List Str
unfolding trim_space contains
credits [] = ([], [])
credits (a ∷ as') = sort_credit a (credits as')

abbrev pub named : List Str → List Str
named = keep (λ s. not (is_empty s))

-- normalizeMALNode
unfoldable pub normalize_mal_node : MalNode → MediaType → MediaSuggestion
unfolding str_eq credits mal_status
normalize_mal_node n t = record {
  external_id = itoa n.id;
  title = n.title;
  description = n.synopsis;
  cover_url = if is_empty n.large then n.medium else n.large;
  status = mal_status n.status (is_anime t);
  genres = named n.genres;
  categories = [];
  authors = if is_anime t then named n.studios else (credits n.authors).0;
  artists = if is_anime t then [] else (credits n.authors).1;
  url = str "https://myanimelist.net/" ++ mal_path t ++ b'/' ∷ itoa n.id;
}

-- ===== src/Tests/Links.antt =====
-- A connection that is created, authorized and renewed, under a cipher that only marks its texts.
use griya_maya.Base.{◌≡◌, refl, ◌&&◌, Bool, List, [], ◌∷◌, any, if◌then◌else◌, Option, none, some}
use griya_maya.Base.Int.{pos, negsuc}
use griya_maya.Text.{Str, str, str_eq, blank, join}
use griya_maya.Effect.{answered, lost, World, Result, ok, err, not_found, invalid_input}
use griya_maya.Effect.Laws.{world}
use griya_maya.Connections.Url.{my_anime_list, endpoints, authorize_url, query_escape}
use griya_maya.Connections.Table.{
  Connection, connection_disconnected, connection_connected, ConnectionWriteRequest, TokenResponse,
  Links, connection_with,
}
use griya_maya.Connections.Flow.{
  Cipher, TokenEndpoint, Fresh, decrypt, create, authorize, callback, refresh,
}
use griya_maya.Connections.Round.{Opens, authorize-callback}
use griya_maya.Connections.Renewal.{refresh_lost}
use griya_maya.Connections.Suggestions.{
  MalNode, MediaSuggestion, search_media_type, normalize_mal_node,
}
use griya_maya.Connections.Search.{Resource, search}
use griya_maya.Connections.Search.Laws.{search_renews}

abbrev unmarked : Str → Option Str
unmarked [] = none
unmarked (c ∷ s) = some s

abbrev marks : Cipher
marks = record { seal = λ nonce plain. 7 ∷ plain; unseal = unmarked }

marks-Opens : Opens marks
marks-Opens = ((λ n p. refl), (λ n p. refl))

abbrev request : ConnectionWriteRequest
request = record {
  provider = str "myanimelist";
  label = str "L";
  client_id = str "app";
  client_secret = str "s ";
}

abbrev fresh : Fresh
fresh = record {
  nonce = some (str "n");
  second_nonce = some (str "m");
  verifier = some (str "V");
  state = some (str "S");
  id = str "1";
  now = 100;
}

-- one that asks for the verifier, and one that answers a renewal without a new refresh token
abbrev has_field : Str → Str → List (Str × Str) → Bool
has_field key v form = any (λ (a, b). str_eq a key && str_eq b v) form

abbrev given : Str → TokenResponse
given token = record {
  access_token = str "A";
  refresh_token = token;
  token_type = str "Bearer";
  expires_in = 60;
}

abbrev careful : TokenEndpoint
careful url form =
    if has_field (str "code_verifier") (str "V") form
    then record { status = 200; body = some (given (str "R")) }
    else record { status = 401; body = none }

abbrev thrifty : TokenEndpoint
thrifty url form = record { status = 200; body = some (given []) }

abbrev none_yet : Links
none_yet = record { connections = []; pending = [] }

abbrev row : Connection
row = record {
  id = str "1";
  provider = str "myanimelist";
  label = str "L";
  client_id = str "app";
  client_secret = 7 ∷ str "s ";
  access_token = [];
  refresh_token = [];
  token_type = [];
  expires_at = 0;
  status = connection_disconnected;
  created_at = 100;
  updated_at = 100;
}

abbrev one : Links
one = record { connections = row ∷ []; pending = [] }

abbrev linked : Connection
linked = record row {
  access_token = 7 ∷ str "A";
  refresh_token = 7 ∷ str "R";
  status = connection_connected;
}

escaped : query_escape (str "a b&é") ≡ str "a+b%26%C3%A9"
unfolding query_escape join
escaped = refl

-- created, and then sent to the provider while a call fails
abbrev made : Links
made = (create marks request fresh (world none_yet [])).1.store

abbrev sent : Links
sent = (authorize (str "1") (str "https://a/cb") fresh (world made (answered ∷ lost ∷ []))).1.store

abbrev on_way : Result Str × World Links
on_way = authorize (str "1") (str "https://a/cb") fresh (world one [])

abbrev linked_now : Connection
linked_now = record linked { token_type = str "Bearer"; expires_at = 160; updated_at = 100 }

authorize-callback_example :
    (on_way.0
      ≡ authorize_url (str "myanimelist") (str "app") (str "V") (str "S") (str "https://a/cb"))
    × ((callback marks careful (str "C") (str "S") fresh on_way.1).0 ≡ ok linked_now)
    × (connection_with (str "1") (callback marks careful (str "C") (str "S") fresh on_way.1).1.store
        ≡ some linked_now)
    × (decrypt marks linked_now.access_token ≡ ok (str "A"))
    × (decrypt marks linked_now.refresh_token ≡ ok (str "R"))
    × ((callback marks careful
          (str "C")
          (str "S")
          fresh
          (callback marks careful (str "C") (str "S") fresh on_way.1).1).0
        ≡ err not_found)
unfolding str_eq endpoints blank
authorize-callback_example =
    authorize-callback marks careful marks-Opens one row refl my_anime_list refl (str "n")
      (str "s ") refl (str "https://a/cb") (str "V") (str "S") fresh refl refl refl (str "C") refl
      refl (given (str "R")) refl fresh (str "n") (str "m") refl refl (str "C") fresh refl

abbrev linked_one : Links
linked_one = record { connections = linked ∷ []; pending = [] }

abbrev stuck : Connection
stuck = record linked_now { refresh_token = 7 ∷ [] }

refresh_lost_example :
    ((refresh marks thrifty (str "1") fresh (world linked_one [])).0 ≡ ok stuck)
    × (connection_with
          (str "1")
          (refresh marks thrifty (str "1") fresh (world linked_one [])).1.store
        ≡ some stuck)
    × ((refresh marks careful
          (str "1")
          fresh
          (refresh marks thrifty (str "1") fresh (world linked_one [])).1).0
        ≡ err invalid_input)
unfolding str_eq endpoints
refresh_lost_example =
    refresh_lost marks marks-Opens thrifty linked_one linked refl my_anime_list refl (str "n")
      (str "s ") refl (str "n") (str "R") refl refl (given []) refl fresh (str "n") (str "m") refl
      refl careful fresh refl

abbrev node : MalNode
node = record {
  id = pos 12;
  title = str "T";
  synopsis = [];
  medium = str "m";
  large = [];
  status = str "finished";
  genres = [];
  authors = record { first_name = str "A"; last_name = str "B"; role = str "Story & Art" } ∷ [];
  studios = [];
}

-- a provider that takes the renewed token only
abbrev library : Resource
library url access =
    if str_eq access (str "A")
    then record { status = 200; body = some (node ∷ []) }
    else record { status = 401; body = none }

abbrev stale : Connection
stale = record linked { access_token = 7 ∷ str "O" }

abbrev stale_one : Links
stale_one = record { connections = stale ∷ []; pending = [] }

abbrev suggestion : MediaSuggestion
suggestion = record {
  external_id = str "12";
  title = str "T";
  description = [];
  cover_url = str "m";
  status = str "completed";
  genres = [];
  categories = [];
  authors = str "A B" ∷ [];
  artists = str "A B" ∷ [];
  url = str "https://myanimelist.net/manga/12";
}

search_renews_example :
    search marks thrifty library (str "1") (str "q") [] (negsuc 2) fresh (world stale_one [])
    ≡ (ok (suggestion ∷ []), world (record { connections = stuck ∷ []; pending = [] }) [])
unfolding str_eq endpoints blank search_media_type normalize_mal_node
search_renews_example =
    search_renews marks marks-Opens thrifty library stale_one stale refl my_anime_list refl refl
      (str "n") (str "O") refl (str "q") [] (str "manga") refl refl (negsuc 2) fresh (str "n")
      (str "s ") refl (str "n") (str "R") refl refl (given []) refl (str "n") (str "m") refl refl

-- ===== src/Connections/Search.antt =====
-- ConnectionService.Search of connection_search.go: a search at a provider, with one retry after a
-- renewal of the tokens.
pub mod Laws
pub mod Credits
use griya_maya.Base.{ℕ, not, List, map, ◌==◌, if◌then◌else◌, is_empty, Option, none, some}
use griya_maya.Base.Int.{ℤ}
use griya_maya.Text.{Str, blank}
use griya_maya.Effect.{
  Result, ok, err, invalid_input, unauthorized, upstream, Exec, query, guard, lift, pure, ◌>>=◌,
  ◌>>◌,
}
use griya_maya.Domain.Media.{MediaType}
use griya_maya.Connections.Url.{ProviderEndpoints, endpoints}
use griya_maya.Connections.Table.{Links, get}
use griya_maya.Connections.Flow.{Cipher, TokenEndpoint, Fresh, decrypt, refresh}
use griya_maya.Connections.Suggestions.{
  MalNode, MediaSuggestion, search_media_type, clamp_search_limit, mal_search_url,
  normalize_mal_node,
}

-- The answer of a provider to an address and a bearer token: its status, and the records of its
-- body, if it is such a document.
pub record SearchAnswer : Type 0 where
  pub status : ℕ
  pub body : Option (List MalNode)

abbrev pub Resource : Type 0
Resource = Str → Str → SearchAnswer

abbrev pub searchable : Option ProviderEndpoints → Result ProviderEndpoints
searchable none = err invalid_input
searchable (some e) = if is_empty e.api_base_url then err invalid_input else ok e

abbrev pub suggested : MediaType → Option (List MalNode) → Result (List MediaSuggestion)
suggested t none = err upstream
suggested t (some nodes) = ok (map (λ n. normalize_mal_node n t) nodes)

-- what is made of the last answer
abbrev pub suggestions_of : MediaType → SearchAnswer → Result (List MediaSuggestion)
suggestions_of t a =
    if a.status == 401
    then err unauthorized
    else if a.status == 200
    then suggested t a.body
    else err upstream

module _ (k : Cipher) (remote : TokenEndpoint) (resource : Resource) where
  -- Client.Get of package oauth
  unfoldable pub ask : Str → Str → Exec Links SearchAnswer
  unfolding query
  ask url access = query (λ _. resource url access)

  abbrev pub ask_again : Str → Str → Fresh → Exec Links SearchAnswer
  ask_again id url d = do
    refreshed ← refresh k remote id d
    access ← lift (decrypt k refreshed.access_token)
    ask url access

  -- the retry after an answer of 401
  abbrev pub retry : Str → Str → Fresh → SearchAnswer → Exec Links SearchAnswer
  retry id url d a = if a.status == 401 then ask_again id url d else pure a

  -- ConnectionService.Search
  unfoldable pub search : Str → Str → Str → ℤ → Fresh → Exec Links (List MediaSuggestion)
  unfolding search_media_type get endpoints decrypt ask refresh
  search id text kind limit d = do
    guard (not (blank text)) invalid_input
    t ← lift (search_media_type kind)
    c ← get id
    e ← lift (searchable (endpoints c.provider))
    access ← lift (decrypt k c.access_token)
    first_answer ← ask (mal_search_url e.api_base_url t text (clamp_search_limit limit)) access
    answer ←
        retry id (mal_search_url e.api_base_url t text (clamp_search_limit limit)) d first_answer
    lift (suggestions_of t answer)

-- ===== src/Connections/Url.antt =====
-- domain/connection.go and oauth_providers.go: the providers, their endpoints, and the address that
-- a browser is sent to.
use griya_maya.Base.{
  ℕ, ◌+◌, ◌-◌, ◌/◌, ◌%◌, Bool, ◌&&◌, ◌||◌, List, [], ◌∷◌, ◌++◌, map, ltb, leb, ◌==◌, if◌then◌else◌,
  Option, none, some,
}
use griya_maya.Text.{Str, str, str_eq, join}
use griya_maya.Effect.{Result, ok, err, invalid_input}

-- ProviderMyAnimeList
abbrev pub provider_my_anime_list : Str
provider_my_anime_list = str "myanimelist"

-- Provider.Valid
unfoldable pub valid : Str → Bool
unfolding str_eq
valid p = str_eq p provider_my_anime_list

-- ProviderEndpoints
pub record ProviderEndpoints : Type 0 where
  pub authorize_url : Str
  pub token_url : Str
  pub api_base_url : Str
  pub challenge_method : Str

abbrev pub my_anime_list : ProviderEndpoints
my_anime_list = record {
  authorize_url = str "https://myanimelist.net/v1/oauth2/authorize";
  token_url = str "https://myanimelist.net/v1/oauth2/token";
  api_base_url = str "https://api.myanimelist.net/v2";
  challenge_method = str "plain";
}

-- Provider.Endpoints
unfoldable pub endpoints : Str → Option ProviderEndpoints
unfolding str_eq
endpoints p = if str_eq p provider_my_anime_list then some my_anime_list else none

-- the bytes of a code point in UTF-8
abbrev pub utf8 : ℕ → List ℕ
utf8 c =
    if ltb c 0x80
    then c ∷ []
    else if ltb c 0x800
    then (0xC0 + c / 0x40) ∷ (0x80 + c % 0x40) ∷ []
    else if ltb c 0x10000
    then (0xE0 + c / 0x1000) ∷ (0x80 + (c / 0x40) % 0x40) ∷ (0x80 + c % 0x40) ∷ []
    else (0xF0 + c / 0x40000)
      ∷ (0x80 + (c / 0x1000) % 0x40)
      ∷ (0x80 + (c / 0x40) % 0x40)
      ∷ (0x80 + c % 0x40)
      ∷ []

abbrev pub hex_digit : ℕ → ℕ
hex_digit n = if ltb n 10 then b'0' + n else b'A' + (n - 10)

abbrev pub percent : ℕ → Str
percent byte = b'%' ∷ hex_digit (byte / 16) ∷ hex_digit (byte % 16) ∷ []

-- the characters that url.QueryEscape leaves as they are
abbrev pub is_unreserved : ℕ → Bool
is_unreserved c =
    leb b'a' c && leb c b'z'
    || leb b'A' c && leb c b'Z'
    || leb b'0' c && leb c b'9'
    || c == b'-'
    || c == b'_'
    || c == b'.'
    || c == b'~'

abbrev pub concat : List Str → Str
concat = join []

-- url.QueryEscape
unfoldable pub query_escape : Str → Str
unfolding join
query_escape s = concat (
    map
      (λ c.
        if is_unreserved c
        then c ∷ []
        else if c == 0x20
        then b'+' ∷ []
        else concat (map percent (utf8 c)))
      s)

-- url.Values.Encode, of one value for each key; the keys are in their order already
unfoldable pub encode_values : List (Str × Str) → Str
unfolding query_escape join
encode_values values =
    join (b'&' ∷ []) (map (λ (k, v). query_escape k ++ b'=' ∷ query_escape v) values)

abbrev pub authorize_values : ProviderEndpoints → Str → Str → Str → Str → List (Str × Str)
authorize_values e client_id challenge state redirect =
    (str "client_id", client_id)
    ∷ (str "code_challenge", challenge)
    ∷ (str "code_challenge_method", e.challenge_method)
    ∷ (str "redirect_uri", redirect)
    ∷ (str "response_type", str "code")
    ∷ (str "state", state)
    ∷ []

-- authorizeURL
unfoldable pub authorize_url : Str → Str → Str → Str → Str → Result Str
unfolding endpoints encode_values
authorize_url p client_id challenge state redirect = elim (endpoints p) [
  | none ↦ err invalid_input
  | some e ↦ ok (
      e.authorize_url
      ++ b'?' ∷ encode_values (authorize_values e client_id challenge state redirect))
]

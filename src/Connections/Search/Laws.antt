-- ===== src/Connections/Search/Laws.antt =====
-- The retry of a search, when no call fails.
use griya_maya.Base.{
  ◌≡◌, refl, false, if◌then◌else◌, inl, inr, Bool-cases, ◌==◌, is_empty, some, ◌++◌, List, [],
}
use griya_maya.Base.Int.{ℤ}
use griya_maya.Text.{Str, blank}
use griya_maya.Effect.{World, Result, ok, query, call}
use griya_maya.Effect.Laws.{world}
use griya_maya.Domain.Media.{MediaType}
use griya_maya.Connections.Url.{ProviderEndpoints, endpoints}
use griya_maya.Connections.Table.{Connection, TokenResponse, Links, connection_with, set_where, get}
use griya_maya.Connections.Flow.{Cipher, TokenEndpoint, Fresh, credentials, renewal_form, decrypt}
use griya_maya.Connections.Suggestions.{
  MediaSuggestion, search_media_type, clamp_search_limit, mal_search_url,
}
use griya_maya.Connections.Round.{Opens, connected}
use griya_maya.Connections.Renewal.{sealed_opens, renewed_by}
use griya_maya.Connections.Search.{Resource, suggestions_of, ask, search}

module _ (k : Cipher) (opens : Opens k) (remote : TokenEndpoint) (resource : Resource) (s : Links)
    (c : Connection) (here : connection_with c.id s ≡ some c) (e : ProviderEndpoints)
    (known : endpoints c.provider ≡ some e) (offers : is_empty e.api_base_url ≡ false) (m old : Str)
    (stored : c.access_token ≡ k.seal m old) (text kind : Str) (t : MediaType)
    (asks : blank text ≡ false) (named : search_media_type kind ≡ ok t) (limit : ℤ)
    (d : Fresh) where
  abbrev url : Str
  url = mal_search_url e.api_base_url t text (clamp_search_limit limit)

  abbrev found : Result (List MediaSuggestion) × World Links
  found = search k remote resource c.id text kind limit d (world s [])

  -- For a valid search at a stored connection of a searchable provider whose secret and tokens are sealed, with a cipher
  -- that opens what it sealed and no failing call, where the provider renews the tokens: if it does
  -- not answer 401 to the stored access token, the search answers what that first answer says and
  -- changes nothing; if it does, the tokens are renewed just once and stored, and the search answers
  -- what the provider says to the new access token, which is an error if it is 401 again.
  pub search_renews :
      (nonce secret : Str)
      → c.client_secret ≡ k.seal nonce secret
      → (r token : Str) → c.refresh_token ≡ k.seal r token
      → is_empty token ≡ false
      → (tok : TokenResponse)
      → remote e.token_url (renewal_form token ++ credentials c.client_id secret)
        ≡ record { status = 200; body = some tok }
      → (n1 n2 : Str) → d.nonce ≡ some n1
      → d.second_nonce ≡ some n2
      → found ≡ (
          if (resource url old).status == 401
          then (
            suggestions_of t (resource url tok.access_token),
            world
                (set_where c.id
                  (connected tok (k.seal n1 tok.access_token) (k.seal n2 tok.refresh_token) d.now)
                  s)
                [],
          )
          else (suggestions_of t (resource url old), world s []))
  unfolding search get query call ask
  search_renews nonce secret sealed r token held renewable tok answers n1 n2 f1 f2 =
      elim (Bool-cases ((resource url old).status == 401)) [
        | inr fresh ↦ rw (asks, named, here, known, offers, opened, fresh, fresh) refl
        | inl stale ↦
            rw
              (
                asks,
                named,
                here,
                known,
                offers,
                opened,
                stale,
                renewed_by k opens remote s c here e known nonce secret sealed r token held
                    renewable tok answers d n1 n2 f1 f2,
                sealed_opens k opens (k.seal n1 tok.access_token) n1 tok.access_token refl,
              )
              refl
      ]
    where
      opened : decrypt k c.access_token ≡ ok old
      opened = sealed_opens k opens c.access_token m old stored

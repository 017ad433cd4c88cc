-- ===== src/Tests/Access.antt =====
-- A fresh pair of tokens, an ended session, a consent and the gate.
use griya_maya.Base.{◌+◌, ◌*◌, ◌≡◌, ◌↔◌, refl, true, false, ◌||◌, List, [], ◌∷◌, is_empty}
use griya_maya.Text.{str, str_eq}
use griya_maya.Effect.{ok}
use griya_maya.Effect.Laws.{world}
use griya_maya.Oidc.Store.{second, RefreshToken}
use griya_maya.Oidc.Refresh.{create_access_and_refresh_tokens}
use griya_maya.Oidc.Refresh.Issue.{create-token_request}
use griya_maya.Oidc.Tokens.{token_request_by_refresh_token}
use griya_maya.Oidc.Scopes.{has_scope}
use griya_maya.Oidc.Consent.{Consent}
use griya_maya.Oidc.Gate.{Claims, next, bearer_token, gate}
use griya_maya.Oidc.Gate.Laws.{gate_iff}
use griya_maya.Tests.Tokens.{request, drawn, ttl, young}

create-token_request_example :
    ((create_access_and_refresh_tokens ttl request
        (drawn (str "B") (str "y") 100)
        []
        (world young [])).0
      ≡ ok (record { access = str "y"; refresh = str "B"; expiration = 100 * second + ttl.access }))
    × ((rt : RefreshToken) × ((token_request_by_refresh_token
            (str "B")
            (create_access_and_refresh_tokens ttl request
              (drawn (str "B") (str "y") 100)
              []
              (world young [])).1).0
          ≡ ok rt)
        × (rt.user_id ≡ str "u")
        × (rt.application_id ≡ str "c")
        × (rt.scopes ≡ [])
        × (rt.audience ≡ [])
        × (rt.superseded_by ≡ []))
unfolding str_eq
create-token_request_example =
    create-token_request ttl request (drawn (str "B") (str "y") 100) young refl refl

abbrev consents : List Consent
consents = record { user_id = str "u"; client_id = str "c"; scopes = str "openid" ∷ [] } ∷ []

abbrev reader : Claims
reader = record { subject = str "u"; scopes = str "manga.read" ∷ [] }

gate_iff_example : (gate (λ t. ok reader) (str "manga.read") (str "bearer x") ≡ next reader) ↔ (
    (is_empty (bearer_token (str "bearer x")) ≡ false)
    × (ok reader ≡ ok reader)
    × ((is_empty (str "manga.read") || has_scope reader.scopes (str "manga.read")) ≡ true))
gate_iff_example = gate_iff (λ t. ok reader) (str "manga.read") (str "bearer x") reader

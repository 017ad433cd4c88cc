-- ===== src/Tests/Tokens.antt =====
-- A refresh token that is redeemed, again in time, and again too late.
use griya_maya.Base.{ℕ, ◌+◌, ◌*◌, ◌≤◌, ◌≡◌, refl, not, ◌||◌, [], ◌∷◌, keep}
use griya_maya.Text.{Str, str, str_eq}
use griya_maya.Effect.{exec_checked, exec, query, call, ok, err, reused_token, lost}
use griya_maya.Effect.Laws.{world}
use griya_maya.Oidc.Store.{
  refresh_token_by_value, claim_rotation, put_token, delete_token, insert_refresh_token, Token,
  RefreshRow, Tokens, second, from_row, with_value,
}
use griya_maya.Oidc.Refresh.{
  issue_successor, access_token, TokenRequest, Draw, Ttl, rotate_refresh_token,
}
use griya_maya.Oidc.Refresh.Laws.{rotate-reused}
use griya_maya.Oidc.Refresh.Twice.{rotate-twice}
use griya_maya.Oidc.Refresh.Safety.{Redeemable, rotate-Redeemable}
use griya_maya.Oidc.Claims.{claim, winners, active, inserts}
use griya_maya.Oidc.Claims.Single.{claim_rotation-single}
use griya_maya.Oidc.Tokens.{revoke_token}
use griya_maya.Oidc.Tokens.Laws.{revoke_token-refresh}

abbrev row : Str → Str → ℕ → RefreshRow
row id successor at = record {
  id = id;
  token = id;
  client_id = str "c";
  user_id = str "u";
  scopes = [];
  audience = [];
  amr = [];
  auth_time = 0;
  expiration = 1000;
  created_at = 0;
  superseded_by = successor;
  superseded_at = at;
}

abbrev pub request : TokenRequest
request = record {
  application_id = str "c";
  subject = str "u";
  audience = [];
  scopes = [];
  auth_time = 0;
  amr = [];
}

-- a redemption at that second
abbrev pub drawn : Str → Str → ℕ → Draw
drawn refresh access at = record {
  refresh_id = refresh;
  access_id = access;
  checked = at * second;
  compared = at * second;
  claimed_at = at * second;
  minted_at = at * second;
  expires_from = at * second;
  inserted_at = at * second;
}

abbrev pub ttl : Ttl
ttl = record { access = 3600 * second; refresh = 2592000 * second }

abbrev access : Token
access = record {
  id = str "x";
  application_id = str "c";
  subject = str "u";
  refresh_token_id = str "A";
  audience = [];
  expiration = 0;
  scopes = [];
}

abbrev pub young : Tokens
young = record { refresh = row (str "A") [] 0 ∷ []; access = access ∷ [] }

-- a chain of three: the first two are superseded
abbrev pub chain : Tokens
chain = record {
  refresh = row (str "A") (str "B") 100 ∷ row (str "B") (str "C") 200 ∷ row (str "C") [] 0 ∷ [];
  access = access ∷ [];
}

claim_rotation-single_example :
    winners
      (str "A")
      (claim (str "A") (str "B") 0 ∷ claim (str "A") (str "C") 0 ∷ [])
      (world young (lost ∷ []))
    ≤ active (str "A") young.refresh
      + inserts (str "A") (claim (str "A") (str "B") 0 ∷ claim (str "A") (str "C") 0 ∷ [])
claim_rotation-single_example =
    claim_rotation-single (str "A") (claim (str "A") (str "B") 0 ∷ claim (str "A") (str "C") 0 ∷ [])
      (world young (lost ∷ [])) (refl, (refl, tt))

rotate-twice_example :
    ((rotate_refresh_token ttl request (drawn (str "B") (str "y") 100) (str "A") (world young [])).0
      ≡ ok (record { access = str "y"; refresh = str "B"; expiration = 100 * second + ttl.access }))
    × ((rotate_refresh_token ttl request
          (drawn (str "C") (str "z") 120)
          (str "A")
          (rotate_refresh_token ttl request
            (drawn (str "B") (str "y") 100)
            (str "A")
            (world young [])).1).0
        ≡ ok (record {
          access = str "z";
          refresh = str "B";
          expiration = 120 * second + ttl.access;
        }))
unfolding str_eq
rotate-twice_example =
    rotate-twice ttl request (drawn (str "B") (str "y") 100) (str "A") young request
      (drawn (str "C") (str "z") 120) (from_row (row (str "A") [] 0)) refl refl refl refl refl refl
      refl

rotate-reused_example :
    ((rotate_refresh_token ttl request (drawn (str "D") (str "z") 300) (str "A") (world chain [])).0
      ≡ err reused_token)
    × ((rotate_refresh_token ttl request
          (drawn (str "D") (str "z") 300)
          (str "A")
          (world chain [])).1.store.refresh
        ≡ keep (λ r. not (str_eq r.id (str "A") || str_eq r.id (str "B"))) chain.refresh)
unfolding str_eq
rotate-reused_example =
    rotate-reused ttl request (drawn (str "D") (str "z") 300) (str "A") chain
      (from_row (row (str "A") (str "B") 100)) refl refl refl refl

rotate-Redeemable_example : Redeemable (drawn (str "B") (str "y") 100) (with_value (str "A") young)
unfolding str_eq rotate_refresh_token refresh_token_by_value claim_rotation issue_successor
    access_token put_token delete_token insert_refresh_token exec_checked exec query call
rotate-Redeemable_example =
    rotate-Redeemable ttl request (drawn (str "B") (str "y") 100) (str "A") (world young [])
      (record { access = str "y"; refresh = str "B"; expiration = 100 * second + ttl.access }) refl

revoke_token-refresh_example : revoke_token (str "c") (str "A") (world young []) ≡ (
  ok tt,
  world (record young { refresh = keep (λ r. not (str_eq r.id (str "A"))) young.refresh }) [],
)
unfolding str_eq
revoke_token-refresh_example =
    revoke_token-refresh (str "c") (str "A") young (from_row (row (str "A") [] 0)) refl refl refl
      refl

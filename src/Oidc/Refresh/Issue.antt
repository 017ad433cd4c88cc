-- ===== src/Oidc/Refresh/Issue.antt =====
-- A fresh refresh token can be redeemed, and none of an ended session can.
use griya_maya.Base.{
  ◌+◌, ◌≡◌, refl, Bool, true, false, not, ◌&&◌, Option, none, some, List, [], ◌∷◌, ◌++◌, map, keep,
  any, arith, inl, inr, Bool-cases,
}
use griya_maya.Text.{Str, str_eq}
use griya_maya.Text.Laws.{str_eq_refl}
use griya_maya.Effect.{ok, query, exec, exec_checked, call}
use griya_maya.Effect.Laws.{world}
use griya_maya.Repo.Reads.{first}
use griya_maya.Oidc.Store.{
  RefreshRow, RefreshToken, Tokens, from_row, row_of, without_access, with_value, put_token,
  insert_refresh_token, refresh_token_by_value,
}
use griya_maya.Oidc.Refresh.{
  TokenRequest, Draw, Ttl, new_token, access_token, create_refresh_token,
  create_access_and_refresh_tokens,
}
use griya_maya.Oidc.Tokens.{token_request_by_refresh_token, terminate_session}

found-append :
    (value : Str) (row : RefreshRow) (rows : List RefreshRow)
    → any (λ r. str_eq r.token value) rows ≡ false
    → str_eq row.token value ≡ true
    → first (map from_row (keep (λ r. str_eq r.token value) (rows ++ row ∷ [])))
      ≡ some (from_row row)
found-append value row [] h e = rw e refl
found-append value row (r ∷ rows) h e =
    let other : str_eq r.token value ≡ false = ground arith in
    rw other (found-append value row rows (ground arith) e)

-- the row that the code flow inserts
abbrev fresh_row : Ttl → TokenRequest → Draw → RefreshRow
fresh_row ttl req d =
    row_of
      (record {
        id = d.refresh_id;
        token = d.refresh_id;
        auth_time = req.auth_time;
        amr = req.amr;
        audience = req.audience;
        user_id = req.subject;
        application_id = req.application_id;
        expiration = d.expires_from + ttl.refresh;
        scopes = req.scopes;
        access_token = d.access_id;
        superseded_by = [];
        superseded_at = 0;
      })
      d.inserted_at

create-runs_to :
    (ttl : Ttl) (req : TokenRequest) (d : Draw) (s : Tokens)
    → any (λ r. str_eq r.id d.refresh_id) s.refresh ≡ false
    → create_access_and_refresh_tokens ttl req d [] (world s []) ≡ (
      ok (record {
        access = d.access_id;
        refresh = d.refresh_id;
        expiration = d.minted_at + ttl.access;
      }),
      world
          (record {
            refresh = s.refresh ++ fresh_row ttl req d ∷ [];
            access = new_token ttl req d.refresh_id d ∷ (without_access d.access_id s).access;
          })
          [],
    )
unfolding create_access_and_refresh_tokens access_token create_refresh_token put_token
    insert_refresh_token exec_checked exec call
create-runs_to ttl req d s free = rw free refl

-- When no call fails and no row has the new identifier or value, the code flow answers a pair whose
-- refresh token is then read back for the same user, client, scopes and audience.
pub create-token_request :
    (ttl : Ttl) (req : TokenRequest) (d : Draw) (s : Tokens)
    → any (λ r. str_eq r.id d.refresh_id) s.refresh ≡ false
    → any (λ r. str_eq r.token d.refresh_id) s.refresh ≡ false
    → ((create_access_and_refresh_tokens ttl req d [] (world s [])).0
        ≡ ok (record {
          access = d.access_id;
          refresh = d.refresh_id;
          expiration = d.minted_at + ttl.access;
        }))
      × ((rt : RefreshToken) × ((token_request_by_refresh_token d.refresh_id
              (create_access_and_refresh_tokens ttl req d [] (world s [])).1).0
            ≡ ok rt)
          × (rt.user_id ≡ req.subject)
          × (rt.application_id ≡ req.application_id)
          × (rt.scopes ≡ req.scopes)
          × (rt.audience ≡ req.audience)
          × (rt.superseded_by ≡ []))
unfolding token_request_by_refresh_token refresh_token_by_value query call
create-token_request ttl req d s free unused =
    rw
      (
        create-runs_to ttl req d s free,
        found-append d.refresh_id (fresh_row ttl req d) s.refresh unused (str_eq_refl d.refresh_id),
      )
      (refl, (from_row (fresh_row ttl req d), refl, refl, refl, refl, refl, refl))

abbrev pub is_theirs : Str → Str → Option RefreshToken → Bool
is_theirs user_id client_id none = false
is_theirs user_id client_id (some rt) =
    str_eq rt.user_id user_id && str_eq rt.application_id client_id

theirs-gone :
    (user_id client_id value : Str) (rows : List RefreshRow)
    → is_theirs user_id client_id (
        first (
          map from_row (
            keep
              (λ r. str_eq r.token value)
              (keep (λ r. not (str_eq r.user_id user_id && str_eq r.client_id client_id)) rows))))
      ≡ false
theirs-gone user_id client_id value [] = refl
theirs-gone user_id client_id value (r ∷ rows) =
    elim (Bool-cases (str_eq r.user_id user_id && str_eq r.client_id client_id)) [
      | inl theirs ↦ rw theirs (theirs-gone user_id client_id value rows)
      | inr other ↦ rw other (elim (Bool-cases (str_eq r.token value)) [
        | inl here ↦ rw here other
        | inr there ↦ rw there (theirs-gone user_id client_id value rows)
      ])
    ]

-- After the session of a user with a client is ended and no call failed, no value redeems a refresh
-- token of that user and client; the rows of all others, and the access tokens, are as they were.
pub terminate_session_lem :
    (user_id client_id value : Str) (s : Tokens)
    → (is_theirs user_id client_id
          (with_value value (terminate_session user_id client_id (world s [])).1.store)
        ≡ false)
      × ((terminate_session user_id client_id (world s [])).1.store.refresh
          ≡ keep (λ r. not (str_eq r.user_id user_id && str_eq r.client_id client_id)) s.refresh)
      × ((terminate_session user_id client_id (world s [])).1.store.access ≡ s.access)
unfolding terminate_session exec call
terminate_session_lem user_id client_id value s =
    (theirs-gone user_id client_id value s.refresh, refl, refl)

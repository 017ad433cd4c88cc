-- ===== src/Oidc/Store.antt =====
-- models.go and the tables of migrations/0002_oidc.sql and 0008_refresh_token_supersede.sql: the
-- tokens, where they are kept, and the single statements on them.
use griya_maya.Base.{
  ℕ, ◌*◌, ◌/◌, Bool, not, ◌&&◌, List, [], ◌∷◌, ◌++◌, map, keep, any, if◌then◌else◌, is_empty,
  Option, none, some,
}
use griya_maya.Text.{Str, str_eq}
use griya_maya.Effect.{Exec, exec, exec_checked, query, call}
use griya_maya.Repo.Reads.{first}

-- an instant and a duration, in nanoseconds; a column holds seconds
abbrev pub second : ℕ
second = 1000000000

abbrev pub unix : ℕ → ℕ
unix t = t / second

-- timeVal
abbrev pub time_val : ℕ → ℕ
time_val secs = secs * second

-- Token, kept in KV as oidc:token:{id}
pub record Token : Type 0 where
  pub id : Str
  pub application_id : Str
  pub subject : Str
  pub refresh_token_id : Str
  pub audience : List Str
  pub expiration : ℕ
  pub scopes : List Str

-- a row of oidc_refresh_token, whose primary key is `id`; NULL in superseded_by is the empty text
pub record RefreshRow : Type 0 where
  pub id : Str
  pub token : Str
  pub client_id : Str
  pub user_id : Str
  pub scopes : List Str
  pub audience : List Str
  pub amr : List Str
  pub auth_time : ℕ
  pub expiration : ℕ
  pub created_at : ℕ
  pub superseded_by : Str
  pub superseded_at : ℕ

-- RefreshToken
pub record RefreshToken : Type 0 where
  pub id : Str
  pub token : Str
  pub auth_time : ℕ
  pub amr : List Str
  pub audience : List Str
  pub user_id : Str
  pub application_id : Str
  pub expiration : ℕ
  pub scopes : List Str
  pub access_token : Str
  pub superseded_by : Str
  pub superseded_at : ℕ

-- the table and the live entries of KV; an entry that lapses is a change from outside
pub record Tokens : Type 0 where
  pub refresh : List RefreshRow
  pub access : List Token

abbrev pub without_access : Str → Tokens → Tokens
without_access id s = record s { access = keep (λ t. not (str_eq t.id id)) s.access }

abbrev pub without_refresh : Str → Tokens → Tokens
without_refresh id s = record s { refresh = keep (λ r. not (str_eq r.id id)) s.refresh }

-- Client.Put and Client.Delete of package kv under a token's key
unfoldable pub put_token : Token → Exec Tokens (Unit {0})
unfolding exec
put_token t = exec λ s. record s { access = t ∷ (without_access t.id s).access }

unfoldable pub delete_token : Str → Exec Tokens (Unit {0})
unfolding exec
delete_token id = exec (without_access id)

-- DELETE FROM oidc_refresh_token WHERE id = ?1
unfoldable pub delete_refresh : Str → Exec Tokens (Unit {0})
unfolding exec
delete_refresh id = exec (without_refresh id)

abbrev pub row_of : RefreshToken → ℕ → RefreshRow
row_of rt now = record {
  id = rt.id;
  token = rt.token;
  client_id = rt.application_id;
  user_id = rt.user_id;
  scopes = rt.scopes;
  audience = rt.audience;
  amr = rt.amr;
  auth_time = unix rt.auth_time;
  expiration = unix rt.expiration;
  created_at = unix now;
  superseded_by = [];
  superseded_at = 0;
}

abbrev pub add_row : RefreshRow → Tokens → Option Tokens
add_row row s =
    if any (λ r. str_eq r.id row.id) s.refresh
    then none
    else some (record s { refresh = s.refresh ++ row ∷ [] })

-- Storage.insertRefreshToken: refused where the identifier is taken
unfoldable pub insert_refresh_token : RefreshToken → ℕ → Exec Tokens (Unit {0})
unfolding exec_checked
insert_refresh_token rt now = exec_checked (add_row (row_of rt now))

-- The literal of Storage.refreshTokenByValue, which leaves AccessToken out.
abbrev pub from_row : RefreshRow → RefreshToken
from_row r = record {
  id = r.id;
  token = r.token;
  auth_time = time_val r.auth_time;
  amr = r.amr;
  audience = r.audience;
  user_id = r.user_id;
  application_id = r.client_id;
  expiration = time_val r.expiration;
  scopes = r.scopes;
  access_token = [];
  superseded_by = r.superseded_by;
  superseded_at = time_val r.superseded_at;
}

abbrev pub with_value : Str → Tokens → Option RefreshToken
with_value value s = first (map from_row (keep (λ r. str_eq r.token value) s.refresh))

-- Storage.refreshTokenByValue
unfoldable pub refresh_token_by_value : Str → Exec Tokens (Option RefreshToken)
unfolding query
refresh_token_by_value value = query (with_value value)

-- the condition of claimRotation's UPDATE, and the row that it leaves
abbrev pub claimable : Str → RefreshRow → Bool
claimable id r = str_eq r.id id && is_empty r.superseded_by

abbrev pub claimed : Str → Str → ℕ → RefreshRow → RefreshRow
claimed id successor now r =
    if claimable id r then record r { superseded_by = successor; superseded_at = unix now } else r

abbrev pub claim_rows : Str → Str → ℕ → Tokens → Tokens
claim_rows id successor now s = record s { refresh = map (claimed id successor now) s.refresh }

-- Storage.claimRotation
unfoldable pub claim_rotation : Str → Str → ℕ → Exec Tokens Bool
unfolding call
claim_rotation id successor now =
    call (λ s. any (claimable id) s.refresh) (claim_rows id successor now)

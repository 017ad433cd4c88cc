-- ===== src/Connections/Table.antt =====
-- domain/connection.go, connection_repo.go and state_store.go: a connection, the table of them, and
-- the pending authorizations in KV.
use griya_maya.Base.{ℕ, not, List, [], ◌∷◌, ◌++◌, map, keep, any, if◌then◌else◌, Option, none, some}
use griya_maya.Text.{Str, str_eq}
use griya_maya.Effect.{Exec, query, exec, exec_checked, attempt, lift, pure, ◌>>=◌, ◌>>◌}
use griya_maya.Repo.Reads.{first, or_not_found}
use griya_maya.Oidc.Users.{newest_first}

pub data ConnectionStatus : Type 0 where
  connection_disconnected connection_connected connection_error : ConnectionStatus

-- Connection, and a row of the table connection, whose primary key is `id`. A provider is a text
-- there. The times are in seconds, as the 64 bits of an int64; a row's pass through float64, which is
-- exact below 2 ^ 53.
pub record Connection : Type 0 where
  pub id : Str
  pub provider : Str
  pub label : Str
  pub client_id : Str
  pub client_secret : Str
  pub access_token : Str
  pub refresh_token : Str
  pub token_type : Str
  pub expires_at : ℕ
  pub status : ConnectionStatus
  pub created_at : ℕ
  pub updated_at : ℕ

-- ConnectionWriteRequest
pub record ConnectionWriteRequest : Type 0 where
  pub provider : Str
  pub label : Str
  pub client_id : Str
  pub client_secret : Str

-- TokenResponse
pub record TokenResponse : Type 0 where
  pub access_token : Str
  pub refresh_token : Str
  pub token_type : Str
  pub expires_in : ℕ

-- AuthState
pub record AuthState : Type 0 where
  pub connection_id : Str
  pub code_verifier : Str
  pub redirect_uri : Str
  pub provider : Str

-- an entry of KV under conn:oauth:state:{state}; one that lapses is a change from outside
pub record Pending : Type 0 where
  pub state : Str
  pub value : AuthState

pub record Links : Type 0 where
  pub connections : List Connection
  pub pending : List Pending

abbrev pub add_connection : Connection → Links → Option Links
add_connection c s =
    if any (λ r. str_eq r.id c.id) s.connections
    then none
    else some (record s { connections = s.connections ++ c ∷ [] })

-- ConnectionRepo.Create
unfoldable pub insert : Connection → Exec Links (Unit {0})
unfolding exec_checked
insert c = exec_checked (add_connection c)

-- ConnectionRepo.List
unfoldable pub list : Exec Links (List Connection)
unfolding query newest_first
list = query (λ s. newest_first (λ c. c.created_at) s.connections)

abbrev pub connection_with : Str → Links → Option Connection
connection_with id s = first (keep (λ c. str_eq c.id id) s.connections)

-- ConnectionRepo.Get
unfoldable pub get : Str → Exec Links Connection
unfolding query
get id = do found ← query (connection_with id); lift (or_not_found found)

-- UPDATE … WHERE id=?1
abbrev pub set_where : Str → (Connection → Connection) → Links → Links
set_where id change s = record s {
  connections = map (λ r. if str_eq r.id id then change r else r) s.connections;
}

abbrev pub credentials_of : Connection → Connection → Connection
credentials_of c r = record r {
  label = c.label;
  client_id = c.client_id;
  client_secret = c.client_secret;
  updated_at = c.updated_at;
}

-- ConnectionRepo.Update
unfoldable pub write : Connection → Exec Links (Unit {0})
unfolding exec
write c = exec (set_where c.id (credentials_of c))

abbrev pub without_connection : Str → Links → Links
without_connection id s = record s { connections = keep (λ c. not (str_eq c.id id)) s.connections }

-- ConnectionRepo.Delete, and ConnectionService.Delete
unfoldable pub delete : Str → Exec Links (Unit {0})
unfolding exec
delete id = exec (without_connection id)

abbrev pub with_tokens : Str → Str → Str → ℕ → ConnectionStatus → ℕ → Connection → Connection
with_tokens access refresh token_type expires_at status now r = record r {
  access_token = access;
  refresh_token = refresh;
  token_type = token_type;
  expires_at = expires_at;
  status = status;
  updated_at = now;
}

-- ConnectionRepo.SaveTokens
unfoldable pub save_tokens :
    Str → Str → Str → Str → ℕ → ConnectionStatus → ℕ → Exec Links (Unit {0})
unfolding exec
save_tokens id access refresh token_type expires_at status now =
    exec (set_where id (with_tokens access refresh token_type expires_at status now))

abbrev pub with_state : Str → AuthState → Links → Links
with_state state v s = record s {
  pending = record { state = state; value = v } ∷ keep (λ p. not (str_eq p.state state)) s.pending;
}

-- StateStore.Put
unfoldable pub put_state : Str → AuthState → Exec Links (Unit {0})
unfolding exec
put_state state v = exec (with_state state v)

abbrev pub pending_with : Str → Links → Option Pending
pending_with state s = first (keep (λ p. str_eq p.state state) s.pending)

abbrev pub without_state : Str → Links → Links
without_state state s = record s { pending = keep (λ p. not (str_eq p.state state)) s.pending }

-- StateStore.Get, whose deletion may fail without an error
unfoldable pub get_state : Str → Exec Links AuthState
unfolding query exec
get_state state = do
  found ← query (pending_with state)
  p ← lift (or_not_found found)
  attempt (exec (without_state state))
  pure p.value

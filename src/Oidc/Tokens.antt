-- ===== src/Oidc/Tokens.antt =====
-- storage.go: reading and revoking tokens.
pub mod Laws
pub mod Refusals
use griya_maya.Base.{
  ℕ, Bool, true, false, not, ◌&&◌, List, [], ◌∷◌, ◌++◌, keep, if◌then◌else◌, is_empty, Option, none,
  some,
}
use griya_maya.Text.{Str, str_eq}
use griya_maya.Effect.{
  Exec, Result, ok, err, World, pure, fail, attempt, query, exec, unknown_token, invalid_client,
  ◌>>=◌, ◌>>◌,
}
use griya_maya.Repo.Reads.{first, or_not_found}
use griya_maya.Oidc.Store.{
  Token, RefreshToken, Tokens, delete_token, delete_refresh, refresh_token_by_value,
}

-- getJSON of a token's key
unfoldable pub get_token : Str → Exec Tokens Token
unfolding query
get_token id = do
  found ← query (λ s. first (keep (λ t. str_eq t.id id) s.access))
  λ w. (or_not_found found, w)

abbrev pub known : Option RefreshToken → Exec Tokens RefreshToken
known none = fail unknown_token
known (some rt) = pure rt

-- Storage.TokenRequestByRefreshToken
unfoldable pub token_request_by_refresh_token : Str → Exec Tokens RefreshToken
token_request_by_refresh_token value w =
    let (found, w') = refresh_token_by_value value w in or_unknown found w'
  where
    or_unknown : Result (Option RefreshToken) → Exec Tokens RefreshToken
    or_unknown (ok found) = known found
    or_unknown (err e) = fail unknown_token

-- Storage.TerminateSession
unfoldable pub terminate_session : Str → Str → Exec Tokens (Unit {0})
terminate_session user_id client_id = exec λ s. record s {
  refresh = keep (λ r. not (str_eq r.user_id user_id && str_eq r.client_id client_id)) s.refresh;
}

-- Storage.GetRefreshTokenInfo
unfoldable pub get_refresh_token_info : Str → Exec Tokens (Str × Str)
get_refresh_token_info value = do
  found ← refresh_token_by_value value
  rt ← known found
  pure (rt.user_id, rt.id)

module _ (client_id : Str) where
  abbrev pub revoke_access : Token → Exec Tokens (Unit {0})
  revoke_access t =
      if not (str_eq t.application_id client_id)
      then fail invalid_client
      else attempt (delete_token t.id)

  abbrev pub revoke_found : Result (Option RefreshToken) → Exec Tokens (Unit {0})
  revoke_found (err e) = pure tt
  revoke_found (ok none) = pure tt
  revoke_found (ok (some rt)) =
      if not (str_eq rt.application_id client_id)
      then fail invalid_client
      else attempt (delete_refresh rt.id) >> attempt (delete_token rt.access_token)

  abbrev pub revoke_refresh : Str → Exec Tokens (Unit {0})
  revoke_refresh value w = let (found, w') = refresh_token_by_value value w in revoke_found found w'

  abbrev pub revoke_as : Str → Result Token → Exec Tokens (Unit {0})
  revoke_as value (ok t) = revoke_access t
  revoke_as value (err e) = revoke_refresh value

  -- Storage.RevokeToken
  unfoldable pub revoke_token : Str → Exec Tokens (Unit {0})
  revoke_token value w = let (t, w') = get_token value w in revoke_as value t w'

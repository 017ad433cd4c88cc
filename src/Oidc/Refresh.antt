-- ===== src/Oidc/Refresh.antt =====
-- storage.go: the rotation of refresh tokens.
pub mod Laws
pub mod Twice
pub mod Issue
pub mod Safety
use griya_maya.Base.{
  ℕ, ◌*◌, ◌+◌, ◌-◌, Bool, true, false, not, ◌&&◌, List, [], ltb, leb, if◌then◌else◌, is_empty,
  Option, none, some,
}
use griya_maya.Text.{Str}
use griya_maya.Effect.{
  Exec, Result, ok, err, World, pure, fail, attempt, unknown_token, expired_token, reused_token,
  ◌>>=◌, ◌>>◌,
}
use griya_maya.Oidc.Store.{
  Token, RefreshToken, Tokens, second, put_token, delete_token, delete_refresh,
  insert_refresh_token, refresh_token_by_value, claim_rotation,
}

-- op.TokenRequest with what infoFromRequest reads from it
pub record TokenRequest : Type 0 where
  pub application_id : Str
  pub subject : Str
  pub audience : List Str
  pub scopes : List Str
  pub auth_time : ℕ
  pub amr : List Str

-- The values that the identifiers' generator answers, and the readings of the clock in their order.
pub record Draw : Type 0 where
  pub refresh_id : Str
  pub access_id : Str
  pub checked : ℕ
  pub compared : ℕ
  pub claimed_at : ℕ
  pub minted_at : ℕ
  pub expires_from : ℕ
  pub inserted_at : ℕ

-- the lifetimes that NewStorage takes from the configuration
pub record Ttl : Type 0 where
  pub access : ℕ
  pub refresh : ℕ

-- an access token, its refresh token and its end
pub record Pair : Type 0 where
  pub access : Str
  pub refresh : Str
  pub expiration : ℕ

abbrev pub refresh_rotation_grace : ℕ
refresh_rotation_grace = 30 * second

abbrev pub new_token : Ttl → TokenRequest → Str → Draw → Token
new_token ttl req refresh_id d = record {
  id = d.access_id;
  application_id = req.application_id;
  subject = req.subject;
  refresh_token_id = refresh_id;
  audience = req.audience;
  expiration = d.minted_at + ttl.access;
  scopes = req.scopes;
}

-- Storage.accessToken
unfoldable pub access_token : Ttl → TokenRequest → Str → Draw → Exec Tokens Token
access_token ttl req refresh_id d = do
  put_token (new_token ttl req refresh_id d)
  pure (new_token ttl req refresh_id d)

-- Storage.createRefreshToken
unfoldable pub create_refresh_token : Ttl → Token → TokenRequest → Draw → Exec Tokens Str
create_refresh_token ttl t req d = do
  insert_refresh_token
      (record {
        id = t.refresh_token_id;
        token = t.refresh_token_id;
        auth_time = req.auth_time;
        amr = req.amr;
        audience = t.audience;
        user_id = t.subject;
        application_id = t.application_id;
        expiration = d.expires_from + ttl.refresh;
        scopes = t.scopes;
        access_token = t.id;
        superseded_by = [];
        superseded_at = 0;
      })
      d.inserted_at
  pure t.refresh_token_id

-- Storage.mintForSuccessor
unfoldable pub mint_for_successor : Ttl → TokenRequest → Str → Draw → Exec Tokens Pair
unfolding access_token
mint_for_successor ttl req successor d = do
  t ← access_token ttl req successor d
  pure (record { access = t.id; refresh = successor; expiration = t.expiration })

-- Storage.revokeRefreshChain
unfoldable pub revoke_refresh_chain : RefreshToken → Exec Tokens (Unit {0})
revoke_refresh_chain rt = do
  if is_empty rt.superseded_by then pure tt else attempt (delete_refresh rt.superseded_by)
  attempt (delete_token rt.access_token)
  delete_refresh rt.id

-- the record that rotateRefreshToken makes of the predecessor's
abbrev pub successor_of : Ttl → RefreshToken → Token → Draw → RefreshToken
successor_of ttl rt t d = record rt {
  id = d.refresh_id;
  token = d.refresh_id;
  expiration = d.expires_from + ttl.refresh;
  access_token = t.id;
  superseded_by = [];
  superseded_at = 0;
}

module _ (ttl : Ttl) (req : TokenRequest) (d : Draw) where
  -- the winner's part of rotateRefreshToken
  unfoldable pub issue_successor : RefreshToken → Exec Tokens Pair
  unfolding access_token
  issue_successor rt = do
    t ← access_token ttl req d.refresh_id d
    attempt (delete_token rt.access_token)
    insert_refresh_token (successor_of ttl rt t d) d.inserted_at
    pure (record { access = t.id; refresh = d.refresh_id; expiration = t.expiration })

  abbrev pub hand_back : Result (Option RefreshToken) → Exec Tokens Pair
  hand_back (err e) = fail unknown_token
  hand_back (ok none) = fail unknown_token
  hand_back (ok (some rt)) =
      if is_empty rt.superseded_by
      then fail unknown_token
      else mint_for_successor ttl req rt.superseded_by d

  -- the loser's part: it reads the row again
  unfoldable pub reread : Str → Exec Tokens Pair
  reread current w = let (found, w') = refresh_token_by_value current w in hand_back found w'

  abbrev pub redeem_superseded : RefreshToken → Exec Tokens Pair
  redeem_superseded rt =
      if leb (d.compared - rt.superseded_at) refresh_rotation_grace
      then mint_for_successor ttl req rt.superseded_by d
      else attempt (revoke_refresh_chain rt) >> fail reused_token

  abbrev pub redeem_active : Str → RefreshToken → Exec Tokens Pair
  redeem_active current rt = do
    won ← claim_rotation rt.id d.refresh_id d.claimed_at
    if won then issue_successor rt else reread current

  abbrev pub redeem : Str → Option RefreshToken → Exec Tokens Pair
  redeem current none = fail unknown_token
  redeem current (some rt) =
      if ltb rt.expiration d.checked
      then attempt (delete_refresh rt.id) >> fail expired_token
      else if is_empty rt.superseded_by
      then redeem_active current rt
      else redeem_superseded rt

  -- Storage.rotateRefreshToken
  unfoldable pub rotate_refresh_token : Str → Exec Tokens Pair
  rotate_refresh_token current = do found ← refresh_token_by_value current; redeem current found

  -- Storage.CreateAccessAndRefreshTokens
  unfoldable pub create_access_and_refresh_tokens : Str → Exec Tokens Pair
  unfolding access_token create_refresh_token rotate_refresh_token
  create_access_and_refresh_tokens current =
      let fresh : Exec Tokens Pair = do
        t ← access_token ttl req d.refresh_id d
        refresh ← create_refresh_token ttl t req d
        pure (record { access = t.id; refresh = refresh; expiration = t.expiration })
      in if is_empty current then fresh else rotate_refresh_token current

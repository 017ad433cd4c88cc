-- ===== src/Oidc/Tokens/Laws.antt =====
-- Revocation of tokens.
use griya_maya.Base.{
  ◌≡◌, refl, sym, ap, ◌∙◌, true, false, not, Option, none, some, List, [], ◌∷◌, map, keep, any,
  is_empty, arith,
}
use griya_maya.Text.{Str, str_eq}
use griya_maya.Effect.{ok, call, query, exec}
use griya_maya.Effect.Laws.{world}
use griya_maya.Repo.Reads.{first}
use griya_maya.Oidc.Store.{
  Token, RefreshRow, RefreshToken, Tokens, delete_token, delete_refresh, refresh_token_by_value,
  with_value, from_row,
}
use griya_maya.Oidc.Tokens.{get_token, revoke_token}

abbrev pub token_at : Str → Tokens → Option Token
token_at id s = first (keep (λ t. str_eq t.id id) s.access)

abbrev access_or : Option RefreshToken → Str
access_or none = []
access_or (some rt) = rt.access_token

-- the row does not say which access token was issued with it
no_access : (rows : List RefreshRow) → access_or (first (map from_row rows)) ≡ []
no_access [] = refl
no_access (r ∷ rows) = refl

not-named : (t : Token) → str_eq t.id [] ≡ is_empty t.id
unfolding str_eq
not-named t = by_id t.id
  where
    by_id : (id : Str) → str_eq id [] ≡ is_empty id
    by_id [] = refl
    by_id (k ∷ ks) = refl

named-kept :
    (ts : List Token)
    → any (λ t. is_empty t.id) ts ≡ false
    → keep (λ t. not (str_eq t.id [])) ts ≡ ts
named-kept [] h = refl
named-kept (t ∷ ts) h = ground (arith, named-kept ts, not-named t)

module _ (client_id value : Str) (s : Tokens) where
  -- When no call fails, where the value is the identifier of no access token and no access token has
  -- an empty identifier, revoking a refresh token of the client itself deletes its row, and leaves
  -- every access token alone, those issued with it among them.
  pub revoke_token-refresh :
      (rt : RefreshToken)
      → token_at value s ≡ none
      → with_value value s ≡ some rt
      → str_eq rt.application_id client_id ≡ true
      → any (λ t. is_empty t.id) s.access ≡ false
      → revoke_token client_id value (world s [])
        ≡ (ok tt, world (record s { refresh = keep (λ r. not (str_eq r.id rt.id)) s.refresh }) [])
  unfolding revoke_token get_token refresh_token_by_value delete_token delete_refresh query exec
      call
  revoke_token-refresh rt absent found own named =
      let unknown : rt.access_token ≡ [] =
        sym (ap access_or found) ∙ no_access (keep (λ r. str_eq r.token value) s.refresh) in
      rw (absent, found, own, unknown, named-kept s.access named) refl

-- ===== src/Oidc/Gate.antt =====
-- middleware.go: the gate of the routes that need a token.
pub mod Laws
use griya_maya.Base.{
  ℕ, Bool, true, false, not, ◌&&◌, List, [], ◌∷◌, ◌++◌, map, length, take, drop, ltb, if◌then◌else◌,
  is_empty,
}
use griya_maya.Text.{Str, str, str_eq, lower, trim_space, mem_str}
use griya_maya.Effect.{Result, ok, err}
use griya_maya.Oidc.Scopes.{has_scope}

abbrev pub bearer_prefix : Str
bearer_prefix = str "Bearer "

-- bearerToken, whose EqualFold is a comparison of small letters for this prefix
unfoldable pub bearer_token : Str → Str
bearer_token header =
    let n = length bearer_prefix in
    if ltb n (length header) && str_eq (map lower (take n header)) (map lower bearer_prefix)
    then trim_space (drop n header)
    else []

-- the claims that the handlers read
pub record Claims : Type 0 where
  pub subject : Str
  pub scopes : List Str

-- how a request leaves the gate
pub data Verdict : Type 0 where
  unauthorized forbidden : Verdict
  next : Claims → Verdict

abbrev pub with_claims : Str → Result Claims → Verdict
with_claims scope (err e) = unauthorized
with_claims scope (ok claims) =
    if not (is_empty scope) && not (has_scope claims.scopes scope) then forbidden else next claims

abbrev pub taxonomy_write_kinds : List Str
taxonomy_write_kinds = str "genres" ∷ str "authors" ∷ str "artists" ∷ []

-- ScopeTaxonomyWrite
abbrev pub scope_taxonomy_write : Str → Str
scope_taxonomy_write kind = str "taksonomi." ++ kind ++ str ".write"

-- op.VerifyAccessToken under the server's issuer and keys
module _ (verify : Str → Result Claims) where
  -- Provider.middleware, for the scope that scopeFor answers
  unfoldable pub gate : Str → Str → Verdict
  gate scope header =
      let token = bearer_token header in
      if is_empty token then unauthorized else with_claims scope (verify token)

  -- Provider.MiddlewareTaxonomyWrite
  unfoldable pub taxonomy_gate : Str → Str → Verdict
  unfolding gate
  taxonomy_gate kind header =
      gate (if mem_str kind taxonomy_write_kinds then scope_taxonomy_write kind else []) header

-- ===== src/Oidc/Scopes.antt =====
-- consent.go, middleware.go and util.go: scopes.
pub mod Laws
use griya_maya.Base.{Bool, true, false, not, List, [], ◌∷◌, ◌++◌, if◌then◌else◌, is_empty, keep}
use griya_maya.Text.{Str, str, mem_str}

-- missingScopes, whose map `have` is read as a set
unfoldable pub missing_scopes : List Str → List Str → List Str
missing_scopes [] granted = []
missing_scopes (s ∷ requested) granted =
    let rest = missing_scopes requested granted in if mem_str s granted then rest else s ∷ rest

-- the inner loop of unionScopes: `out` holds the same texts as its map `seen`
unfoldable pub union_onto : List Str → List Str → List Str
union_onto out [] = out
union_onto out (s ∷ scopes) =
    let seen = union_onto out scopes in
    let added = union_onto (out ++ s ∷ []) scopes in if mem_str s out then seen else added

-- unionScopes
unfoldable pub union_scopes : List Str → List Str → List Str
unfolding union_onto
union_scopes a b = union_onto (union_onto [] a) b

-- hasScope
unfoldable pub has_scope : List Str → Str → Bool
has_scope granted required = mem_str required granted

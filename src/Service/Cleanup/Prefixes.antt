-- ===== src/Service/Cleanup/Prefixes.antt =====
-- What splitHLSPrefixes makes of the keys: bundles become prefixes, all else stays a key.
use griya_maya.Base.{
  ◌≡◌, ◌≢◌, refl, ap, Bool, true, ◌||◌, List, [], ◌∷◌, ◌++◌, any, if◌then◌else◌, arith, inl, inr,
  Bool-cases, All,
}
use griya_maya.Text.{Str, str, str_eq, trim_space, has_prefix, mem_str}
use griya_maya.Text.Laws.{str_eq_iff}
use griya_maya.Text.Membership.{mem_str-append}
use griya_maya.FilePath.{slash, dir}
use griya_maya.FilePath.Laws.{dir-below}
use griya_maya.Service.Cleanup.{Split, hls_root, split_key, split_keys, split_hls_prefixes}

-- the key of an object of a bundle, hls/{id}/…
abbrev pub in_bundle : Str → Bool
in_bundle j = has_prefix hls_root (dir (trim_space j))

abbrev pub bundle : Str → Str
bundle j = dir (trim_space j) ++ slash ∷ []

-- whether the object `k` goes with the key `j`: with its bundle, or as the same key
abbrev pub covers : Str → Str → Bool
covers j k = if in_bundle j then has_prefix (bundle j) k else str_eq j k

abbrev pub caught : Split → Str → Bool
caught out k = mem_str k out.plain || any (λ p. has_prefix p k) out.prefixes

any-append : (f : Str → Bool) (xs ys : List Str) → any f (xs ++ ys) ≡ (any f xs || any f ys)
any-append f [] ys = refl
any-append f (x ∷ xs) ys = ground (arith, any-append f xs ys)

pub any-of_mem :
    (f : Str → Bool) (x : Str) (xs : List Str) → mem_str x xs ≡ true → f x ≡ true → any f xs ≡ true
unfolding mem_str
any-of_mem f x [] m h = cc
any-of_mem f x (y ∷ xs) m h = elim (Bool-cases (str_eq y x)) [
  | inl same ↦ rw ((str_eq_iff y x).0 same, h) refl
  | inr other ↦ ground (arith, any-of_mem f x xs)
]

caught-split_key :
    (out : Split) (j k : Str) → caught (split_key out j) k ≡ (caught out k || covers j k)
unfolding split_key mem_str
caught-split_key out j k = ground (
  arith,
  any-append (λ p. has_prefix p k) out.prefixes (bundle j ∷ []),
  any-of_mem (λ p. has_prefix p k) (bundle j) out.prefixes,
  mem_str-append k out.plain (j ∷ []),
)

caught-split_keys :
    (out : Split) (k : Str) (js : List Str)
    → caught (split_keys out js) k ≡ (caught out k || any (λ j. covers j k) js)
unfolding split_keys
caught-split_keys out k [] = ground arith
caught-split_keys out k (j ∷ js) =
    ground (arith, caught-split_keys (split_key out j) k js, caught-split_key out j k)

-- The keys and prefixes that come out name exactly the objects that go with one of the keys.
pub caught-split_hls_prefixes :
    (js : List Str) (k : Str) → caught (split_hls_prefixes js) k ≡ any (λ j. covers j k) js
unfolding split_hls_prefixes mem_str
caught-split_hls_prefixes js k = caught-split_keys (record { plain = []; prefixes = [] }) k js

-- a prefix with something between hls/ and its last slash
abbrev pub IsBundle : Str → Type 0
IsBundle p = (t : Str) × (t ≢ []) × (p ≡ (hls_root ++ t) ++ slash ∷ [])

bundle-IsBundle : (j : Str) → in_bundle j ≡ true → IsBundle (bundle j)
bundle-IsBundle j h =
    let (t, ne, e) = dir-below (str "hls") (trim_space j) h (λ f. cc) in
    (t, ne, ap (λ d. d ++ slash ∷ []) e)

All-append : (xs ys : List Str) → All IsBundle xs → All IsBundle ys → All IsBundle (xs ++ ys)
All-append [] ys h k = k
All-append (x ∷ xs) ys (p, h) k = (p, All-append xs ys h k)

split_key-IsBundle :
    (out : Split) (j : Str) → All IsBundle out.prefixes → All IsBundle (split_key out j).prefixes
unfolding split_key
split_key-IsBundle out j h = elim (Bool-cases (in_bundle j)) [
  | inl b ↦ rw b (elim (Bool-cases (mem_str (bundle j) out.prefixes)) [
    | inl m ↦ rw m h
    | inr m ↦ rw m (All-append out.prefixes (bundle j ∷ []) h (bundle-IsBundle j b, tt))
  ])
  | inr b ↦ rw b h
]

split_keys-IsBundle :
    (out : Split) (js : List Str)
    → All IsBundle out.prefixes
    → All IsBundle (split_keys out js).prefixes
unfolding split_keys
split_keys-IsBundle out [] h = h
split_keys-IsBundle out (j ∷ js) h =
    split_keys-IsBundle (split_key out j) js (split_key-IsBundle out j h)

-- Whatever the keys, each prefix that is scheduled lies strictly below hls/: the bucket or all of
-- hls/ is never wiped.
pub split_hls_prefixes-IsBundle : (js : List Str) → All IsBundle (split_hls_prefixes js).prefixes
unfolding split_hls_prefixes
split_hls_prefixes-IsBundle js = split_keys-IsBundle (record { plain = []; prefixes = [] }) js tt

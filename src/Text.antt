-- ===== src/Text.antt =====
-- Go strings as lists of code points, and the functions of package strings that the server calls.
pub mod Laws
pub mod Membership
use Prim.Native.Char.{code}
use griya_maya.Base.{
  ℕ, ◌+◌, ◌-◌, String, Bool, true, false, ◌&&◌, ◌||◌, List, [], ◌∷◌, ◌++◌, leb, ◌==◌, if◌then◌else◌,
  is_empty,
}

abbrev pub Str : Type 0
Str = List ℕ

-- a literal of the source
abbrev pub str : String → Str
str String.[] = []
str (String.◌∷◌ c s) = code c ∷ str s

unfoldable pub str_eq : Str → Str → Bool
str_eq [] [] = true
str_eq (c ∷ s) (d ∷ t) = c == d && str_eq s t
str_eq _ _ = false

-- unicode.IsSpace
unfoldable pub is_space : ℕ → Bool
is_space c =
    leb 9 c && leb c 13
    || c == 32
    || c == 0x85
    || c == 0xA0
    || c == 0x1680
    || leb 0x2000 c && leb c 0x200A
    || c == 0x2028
    || c == 0x2029
    || c == 0x202F
    || c == 0x205F
    || c == 0x3000

-- strings.TrimLeftFunc and strings.TrimRightFunc
unfoldable pub trim_left : (ℕ → Bool) → Str → Str
trim_left p [] = []
trim_left p (c ∷ s) = let rest = trim_left p s in if p c then rest else c ∷ s

abbrev trim_right_step : (ℕ → Bool) → ℕ → Str → Str
trim_right_step p c [] = if p c then [] else c ∷ []
trim_right_step p c (d ∷ s) = c ∷ d ∷ s

unfoldable pub trim_right : (ℕ → Bool) → Str → Str
trim_right p [] = []
trim_right p (c ∷ s) = trim_right_step p c (trim_right p s)

-- strings.TrimSpace
unfoldable pub trim_space : Str → Str
unfolding trim_left trim_right is_space
trim_space s = trim_right is_space (trim_left is_space s)

-- strings.TrimSpace(s) == ""
unfoldable pub blank : Str → Bool
unfolding trim_space
blank s = is_empty (trim_space s)

unfoldable pub has_prefix : Str → Str → Bool
has_prefix [] s = true
has_prefix (c ∷ p) [] = false
has_prefix (c ∷ p) (d ∷ s) = c == d && has_prefix p s

unfoldable pub contains : Str → Str → Bool
unfolding has_prefix
contains p [] = is_empty p
contains p (c ∷ s) = has_prefix p (c ∷ s) || contains p s

-- slices.Contains, and a Go map from strings used as a set
unfoldable pub mem_str : Str → List Str → Bool
unfolding str_eq
mem_str k [] = false
mem_str k (j ∷ ks) = str_eq j k || mem_str k ks

-- strings.ToLower on ASCII letters
unfoldable pub lower : ℕ → ℕ
lower c = if leb b'A' c && leb c b'Z' then c + 32 else c

-- strings.Fields: the runs of characters that are no white space
abbrev add_char : ℕ → Bool → List Str → List Str
add_char c true fs = (c ∷ []) ∷ fs
add_char c false [] = (c ∷ []) ∷ []
add_char c false (f ∷ fs) = (c ∷ f) ∷ fs

abbrev starts_space : Str → Bool
starts_space [] = true
starts_space (c ∷ s) = is_space c

unfoldable pub fields : Str → List Str
unfolding is_space
fields [] = []
fields (c ∷ s) =
    let rest = fields s in if is_space c then rest else add_char c (starts_space s) rest

-- strings.Join
unfoldable pub join : Str → List Str → Str
join sep [] = []
join sep (s ∷ []) = s
join sep (s ∷ t ∷ ss) = s ++ sep ++ join sep (t ∷ ss)

-- strings.TrimLeft and strings.TrimRight at one character
abbrev pub trim_left_char : ℕ → Str → Str
trim_left_char c = trim_left (λ d. d == c)

abbrev pub trim_right_char : ℕ → Str → Str
trim_right_char c = trim_right (λ d. d == c)

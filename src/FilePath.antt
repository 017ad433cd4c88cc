-- ===== src/FilePath.antt =====
-- Package path of Go: Clean, Dir and Base over slash-separated names.
pub mod Laws
use griya_maya.Base.{Bool, true, false, ◌||◌, List, [], ◌∷◌, ◌++◌, ◌==◌, if◌then◌else◌, is_empty, ℕ}
use griya_maya.Text.{Str, str, str_eq}

abbrev pub slash : ℕ
slash = b'/'

abbrev pub push_head : ℕ → List Str → List Str
push_head c [] = (c ∷ []) ∷ []
push_head c (p ∷ ps) = (c ∷ p) ∷ ps

-- strings.Split at one separator
unfoldable pub split_on : ℕ → Str → List Str
split_on sep [] = [] ∷ []
split_on sep (c ∷ s) = let rest = split_on sep s in if c == sep then [] ∷ rest else push_head c rest

-- the part of a name up to its last slash, which path.Split calls the directory
unfoldable pub dir_part : Str → Str
dir_part [] = []
dir_part (c ∷ s) =
    let rest = dir_part s in if is_empty rest then if c == slash then c ∷ [] else [] else c ∷ rest

-- ".." at the bottom of a relative name stays; at the root it is dropped
abbrev pub back : Bool → List Str → List Str
back rooted [] = if rooted then [] else str ".." ∷ []
back rooted (top ∷ below) = if str_eq top (str "..") then str ".." ∷ top ∷ below else below

-- one element of a name; the stack has its top at the head
unfoldable pub resolve : Bool → List Str → Str → List Str
resolve rooted stack part =
    if is_empty part || str_eq part (str ".")
    then stack
    else if str_eq part (str "..")
    then back rooted stack
    else part ∷ stack

unfoldable pub resolve_all : Bool → List Str → List Str → List Str
resolve_all rooted stack [] = stack
resolve_all rooted stack (part ∷ parts) = resolve_all rooted (resolve rooted stack part) parts

-- the elements of a stack joined by slashes, its bottom first
unfoldable pub join_up : List Str → Str
join_up [] = []
join_up (top ∷ []) = top
join_up (top ∷ below) = join_up below ++ slash ∷ top

abbrev pub is_rooted : Str → Bool
is_rooted [] = false
is_rooted (c ∷ s) = c == slash

abbrev pub finish : Bool → Str → Str
finish true s = slash ∷ s
finish false [] = str "."
finish false (c ∷ s) = c ∷ s

-- path.Clean
unfoldable pub clean : Str → Str
unfolding split_on resolve_all resolve join_up
clean s = finish (is_rooted s) (join_up (resolve_all (is_rooted s) [] (split_on slash s)))

-- path.Dir
unfoldable pub dir : Str → Str
unfolding clean dir_part
dir s = clean (dir_part s)

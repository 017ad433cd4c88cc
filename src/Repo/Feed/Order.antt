-- ===== src/Repo/Feed/Order.antt =====
-- The order of a feed.
use griya_maya.Base.{
  ℕ, ◌<◌, ◌≡◌, refl, ap, subst, ◌∙◌, ◌⊎◌, Bool, true, false, not, ◌&&◌, ◌||◌, ◌==◌, ltb, any,
  is_empty, List, [], ◌∷◌, keep, All, length, if◌then◌else◌, arith, inl, inr, Bool-cases,
}
use griya_maya.Base.Keep.{keep-eq}
use griya_maya.Text.Laws.{str_eq_iff}
use griya_maya.Text.{Str, str, str_eq, mem_str, blank}
use griya_maya.Domain.Feed.{Column, title, updated_at, popularity, CatalogFilter, sort_column}
use griya_maya.Cloud.{MediaRow, Store}
use griya_maya.Repo.Feed.{
  any_of, str_leb, by_key, may_precede, insert_row, sort_rows, filter_clauses, feed_rows,
}

str_leb-total : (s t : Str) → (str_leb s t || str_leb t s) ≡ true
unfolding str_leb
str_leb-total [] t = refl
str_leb-total (c ∷ s) [] = refl
str_leb-total (c ∷ s) (d ∷ t) = ground (arith, str_leb-total s t)

str_leb_trans : (s t u : Str) → str_leb s t ≡ true → str_leb t u ≡ true → str_leb s u ≡ true
unfolding str_leb
str_leb_trans [] t u h k = refl
str_leb_trans (c ∷ s) [] u h k = absurd cc
str_leb_trans (c ∷ s) (d ∷ t) [] h k = absurd cc
str_leb_trans (c ∷ s) (d ∷ t) (e ∷ u) h k = ground (arith, str_leb_trans s t u)

by_key-total :
    (asc : Bool) (k l : ℕ) (s t : Str) → (by_key asc k l s t || by_key asc l k t s) ≡ true
by_key-total true k l s t = ground (arith, str_leb-total s t)
by_key-total false k l s t = ground (arith, str_leb-total s t)

by_key_trans :
    (asc : Bool) (k l m : ℕ) (s t u : Str)
    → by_key asc k l s t ≡ true
    → by_key asc l m t u ≡ true
    → by_key asc k m s u ≡ true
by_key_trans true k l m s t u h g = ground (arith, str_leb_trans s t u)
by_key_trans false k l m s t u h g = ground (arith, str_leb_trans s t u)

may_precede-total :
    (col : Column) (asc : Bool) (a b : MediaRow)
    → (may_precede col asc a b || may_precede col asc b a) ≡ true
may_precede-total title true a b = str_leb-total a.title b.title
may_precede-total title false a b = str_leb-total b.title a.title
may_precede-total updated_at asc a b = by_key-total asc a.updated_at b.updated_at a.title b.title
may_precede-total popularity asc a b = by_key-total asc a.popularity b.popularity a.title b.title

may_precede_trans :
    (col : Column) (asc : Bool) (a b c : MediaRow)
    → may_precede col asc a b ≡ true
    → may_precede col asc b c ≡ true
    → may_precede col asc a c ≡ true
may_precede_trans title true a b c h k = str_leb_trans a.title b.title c.title h k
may_precede_trans title false a b c h k = str_leb_trans c.title b.title a.title k h
may_precede_trans updated_at asc a b c h k =
    by_key_trans asc a.updated_at b.updated_at c.updated_at a.title b.title c.title h k
may_precede_trans popularity asc a b c h k =
    by_key_trans asc a.popularity b.popularity c.popularity a.title b.title c.title h k

module _ (col : Column) (asc : Bool) where
  -- each row may stand before every later one
  abbrev pub Ordered : List MediaRow → Type 0
  Ordered [] = Unit
  Ordered (a ∷ rows) = All (λ b. may_precede col asc a b ≡ true) rows × Ordered rows

  All-insert_row :
      (a b : MediaRow) (rows : List MediaRow)
      → may_precede col asc a b ≡ true
      → All (λ c. may_precede col asc a c ≡ true) rows
      → All (λ c. may_precede col asc a c ≡ true) (insert_row col asc b rows)
  unfolding insert_row
  All-insert_row a b [] h k = (h, tt)
  All-insert_row a b (c ∷ rows) h (k, ks) = elim (Bool-cases (may_precede col asc b c)) [
    | inl x ↦ rw x (h, (k, ks))
    | inr x ↦ rw x (k, All-insert_row a b rows h ks)
  ]

  All-trans :
      (a b : MediaRow) (rows : List MediaRow)
      → may_precede col asc a b ≡ true
      → All (λ c. may_precede col asc b c ≡ true) rows
      → All (λ c. may_precede col asc a c ≡ true) rows
  All-trans a b [] h k = tt
  All-trans a b (c ∷ rows) h (k, ks) =
      (may_precede_trans col asc a b c h k, All-trans a b rows h ks)

  insert_row-Ordered :
      (a : MediaRow) (rows : List MediaRow) → Ordered rows → Ordered (insert_row col asc a rows)
  unfolding insert_row
  insert_row-Ordered a [] h = (tt, tt)
  insert_row-Ordered a (b ∷ rows) (h, hs) = elim (Bool-cases (may_precede col asc a b)) [
    | inl x ↦ rw x ((x, All-trans a b rows x h), (h, hs))
    | inr x ↦
        let y : may_precede col asc b a ≡ true = ground (arith, may_precede-total col asc a b) in
        rw x (All-insert_row b a rows y h, insert_row-Ordered a rows hs)
  ]

  sort_rows-Ordered : (rows : List MediaRow) → Ordered (sort_rows col asc rows)
  unfolding sort_rows
  sort_rows-Ordered [] = tt
  sort_rows-Ordered (a ∷ rows) =
      insert_row-Ordered a (sort_rows col asc rows) (sort_rows-Ordered rows)

  length-insert_row :
      (q : MediaRow → Bool) (a : MediaRow) (rows : List MediaRow)
      → length (keep q (insert_row col asc a rows)) ≡ length (keep q (a ∷ rows))
  unfolding insert_row
  length-insert_row q a [] = refl
  length-insert_row q a (b ∷ rows) = ground (arith, length-insert_row q a rows)

  length-sort_rows :
      (q : MediaRow → Bool) (rows : List MediaRow)
      → length (keep q (sort_rows col asc rows)) ≡ length (keep q rows)
  unfolding sort_rows
  length-sort_rows q [] = refl
  length-sort_rows q (a ∷ rows) =
      ground (arith, length-insert_row q a (sort_rows col asc rows), length-sort_rows q rows)

-- texts in the order of their code points
abbrev pub TextLe : Str → Str → Type 0
TextLe [] t = Unit
TextLe (c ∷ s) [] = ⊥
TextLe (c ∷ s) (d ∷ t) = (c < d) ⊎ ((c ≡ d) × TextLe s t)

-- by numbers, and by texts where these are the same
abbrev pub KeyLe : ℕ → ℕ → Str → Str → Type 0
KeyLe k l s t = (k < l) ⊎ ((k ≡ l) × TextLe s t)

-- ORDER BY title, or by a number and then by ascending title; `true` stands for ASC
abbrev pub Precedes : Column → Bool → MediaRow → MediaRow → Type 0
Precedes title true a b = TextLe a.title b.title
Precedes title false a b = TextLe b.title a.title
Precedes updated_at true a b = KeyLe a.updated_at b.updated_at a.title b.title
Precedes updated_at false a b = KeyLe b.updated_at a.updated_at a.title b.title
Precedes popularity true a b = KeyLe a.popularity b.popularity a.title b.title
Precedes popularity false a b = KeyLe b.popularity a.popularity a.title b.title

str_leb-TextLe : (s t : Str) → str_leb s t ≡ true → TextLe s t
unfolding str_leb
str_leb-TextLe [] t h = tt
str_leb-TextLe (c ∷ s) [] h = absurd cc
str_leb-TextLe (c ∷ s) (d ∷ t) h = elim (Bool-cases (ltb c d)) [
  | inl low ↦ inl (ground arith)
  | inr other ↦ inr (ground arith, str_leb-TextLe s t (ground arith))
]

key_leb-KeyLe : (k l : ℕ) (s t : Str) → (ltb k l || (k == l && str_leb s t)) ≡ true → KeyLe k l s t
key_leb-KeyLe k l s t h = elim (Bool-cases (ltb k l)) [
  | inl low ↦ inl (ground arith)
  | inr other ↦ inr (ground arith, str_leb-TextLe s t (ground arith))
]

may_precede-Precedes :
    (col : Column) (asc : Bool) (a b : MediaRow)
    → may_precede col asc a b ≡ true
    → Precedes col asc a b
may_precede-Precedes title true a b h = str_leb-TextLe a.title b.title h
may_precede-Precedes title false a b h = str_leb-TextLe b.title a.title h
may_precede-Precedes updated_at true a b h =
    key_leb-KeyLe a.updated_at b.updated_at a.title b.title h
may_precede-Precedes updated_at false a b h =
    key_leb-KeyLe b.updated_at a.updated_at a.title b.title (ground arith)
may_precede-Precedes popularity true a b h =
    key_leb-KeyLe a.popularity b.popularity a.title b.title h
may_precede-Precedes popularity false a b h =
    key_leb-KeyLe b.popularity a.popularity a.title b.title (ground arith)

module _ (col : Column) (asc : Bool) where
  -- each row precedes every later one
  abbrev pub InOrder : List MediaRow → Type 0
  InOrder [] = Unit
  InOrder (a ∷ rows) = All (λ b. Precedes col asc a b) rows × InOrder rows

  All-Precedes :
      (a : MediaRow) (rows : List MediaRow)
      → All (λ b. may_precede col asc a b ≡ true) rows
      → All (λ b. Precedes col asc a b) rows
  All-Precedes a [] h = tt
  All-Precedes a (b ∷ rows) (h, hs) = (may_precede-Precedes col asc a b h, All-Precedes a rows hs)

  Ordered-InOrder : (rows : List MediaRow) → Ordered col asc rows → InOrder rows
  Ordered-InOrder [] h = tt
  Ordered-InOrder (a ∷ rows) (h, hs) = (All-Precedes a rows h, Ordered-InOrder rows hs)

-- the column that a sort key names
abbrev pub column_named : Str → Column
column_named key =
    if str_eq key (str "title")
    then title
    else if any (str_eq key) (str "rating" ∷ str "popular" ∷ str "popularity" ∷ [])
    then popularity
    else updated_at

-- the filter's sort key, or that of the feed where it has none
abbrev pub key_for : CatalogFilter → Str → Str
key_for f order =
    if is_empty f.sort
    then (if str_eq order (str "popular") then str "popular" else str "updated")
    else f.sort

abbrev pub column_for : CatalogFilter → Str → Column
column_for f order = column_named (key_for f order)

-- a value of the filter's list, unless that list has none but blank texts
abbrev pub listed : List Str → Str → Bool
listed values v =
    not (any (λ x. not (blank x)) values) || any (λ x. not (blank x) && str_eq x v) values

-- the rows that the WHERE clause of List lets through
abbrev pub wanted : Str → CatalogFilter → MediaRow → Bool
wanted source_id f row =
    str_eq row.source_id source_id
    && listed f.types row.type
    && listed f.sub_types row.sub_type
    && (f.updated_since == 0 || ltb f.updated_since row.updated_at)

keep-is_empty : (p : Str → Bool) (xs : List Str) → is_empty (keep p xs) ≡ not (any p xs)
keep-is_empty p [] = refl
keep-is_empty p (x ∷ xs) = ground (arith, keep-is_empty p xs)

keep-mem_str :
    (p : Str → Bool) (v : Str) (xs : List Str)
    → mem_str v (keep p xs) ≡ any (λ x. p x && str_eq x v) xs
unfolding mem_str
keep-mem_str p v [] = refl
keep-mem_str p v (x ∷ xs) = ground (arith, keep-mem_str p v xs)

any_of-listed : (values : List Str) (v : Str) → any_of values v ≡ listed values v
any_of-listed values v =
    ground
      (arith, keep-is_empty (λ x. not (blank x)) values, keep-mem_str (λ x. not (blank x)) v values)

filter_clauses-wanted :
    (source_id : Str) (f : CatalogFilter) (row : MediaRow)
    → (str_eq row.source_id source_id && filter_clauses f row) ≡ wanted source_id f row
unfolding filter_clauses
filter_clauses-wanted source_id f row =
    ground (arith, any_of-listed f.types row.type, any_of-listed f.sub_types row.sub_type)

abbrev column_at : Str → Column
column_at key =
    if str_eq key (str "title")
    then title
    else if str_eq key (str "latest") || str_eq key (str "updated")
    then updated_at
    else if str_eq key (str "rating") || str_eq key (str "popular") || str_eq key (str "popularity")
    then popularity
    else updated_at

column_at_lem : (key : Str) → column_at key ≡ column_named key
unfolding str_eq
column_at_lem key = elim (Bool-cases (str_eq key (str "title"))) [
  | inl t ↦ rw t refl
  | inr t ↦ elim (Bool-cases (str_eq key (str "latest"))) [
    | inl l ↦ rw ((str_eq_iff key (str "latest")).0 l) refl
    | inr l ↦ elim (Bool-cases (str_eq key (str "updated"))) [
      | inl u ↦ rw ((str_eq_iff key (str "updated")).0 u) refl
      | inr u ↦ rw (t, l, u) (ground arith)
    ]
  ]
]

sort_column-column_for :
    (f : CatalogFilter) (order : Str)
    → sort_column f (if str_eq order (str "popular") then str "popular" else str "updated")
      ≡ column_for f order
unfolding sort_column
sort_column-column_for f order = column_at_lem (key_for f order)

-- The rows of List stand in the order of the column that the filter's sort key names, or else the
-- feed, ascending or descending as the filter asks, with equal dates and popularities by ascending
-- title; and they are the rows of the source that have one of the filter's types and one of its
-- sub-types, where it has any that is not blank, and are newer than its instant, where it has one: as
-- many of the rows of List pass any test as of those in the table do.
pub feed_rows-Ordered :
    (source_id order : Str) (f : CatalogFilter) (s : Store) (q : MediaRow → Bool)
    → InOrder (column_for f order) f.ascending (feed_rows source_id order f s)
      × (length (keep q (feed_rows source_id order f s))
          ≡ length (keep q (keep (wanted source_id f) s.media)))
unfolding feed_rows
feed_rows-Ordered source_id order f s q =
    let col =
      sort_column f (if str_eq order (str "popular") then str "popular" else str "updated") in
    let p = λ (row : MediaRow). str_eq row.source_id source_id && filter_clauses f row in
    (
      subst (λ c. InOrder c f.ascending (sort_rows col f.ascending (keep p s.media)))
          (sort_column-column_for f order)
          (Ordered-InOrder col f.ascending _ (sort_rows-Ordered col f.ascending (keep p s.media))),
      length-sort_rows col f.ascending q (keep p s.media)
          ∙ ap (λ rows. length (keep q rows))
              (keep-eq p (wanted source_id f) s.media (filter_clauses-wanted source_id f)),
    )

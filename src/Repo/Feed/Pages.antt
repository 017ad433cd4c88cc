-- ===== src/Repo/Feed/Pages.antt =====
-- The pages of a feed tile its matches.
use griya_maya.Base.{
  ℕ, zero, suc, ◌+◌, ◌-◌, ◌*◌, ◌%◌, ◌^◌, ◌≤◌, ◌<◌, true, ◌≡◌, refl, sym, ap, ◌∙◌, Bool, List, [],
  ◌∷◌, ◌++◌, map, ltb, min, length, take, drop, if◌then◌else◌, is_empty, arith, inl, inr,
  Bool-cases,
}
use native.Mathlib.Numerals.{unary_clauses}
use griya_maya.Domain.Media.{Media}
use griya_maya.Domain.Feed.{MediaPage, CatalogFilter}
use griya_maya.Cloud.{Store, MediaRow}
use griya_maya.Repo.Reads.{media_from_row}
use griya_maya.Base.Int.{pos}
use griya_maya.Text.{Str}
use griya_maya.Effect.{ok, query, call}
use griya_maya.Effect.Laws.{world}
use griya_maya.Repo.Feed.{
  window, to_media_page, page_of_rows, list, search, recommend, feed_rows, search_rows,
  recommend_rows,
}

module _ {A : Type 0} where
  length-take : (n : ℕ) (xs : List A) → length (take n xs) ≡ min n (length xs)
  length-take zero xs = ground arith
  length-take (suc n) [] = omega arith
  length-take (suc n) (x ∷ xs) = ground (arith, length-take n xs)

  length-drop : (n : ℕ) (xs : List A) → length (drop n xs) ≡ length xs - n
  length-drop zero xs = ground arith
  length-drop (suc n) [] = ground arith
  length-drop (suc n) (x ∷ xs) = ground (arith, length-drop n xs)

  take-take-suc : (n : ℕ) (xs : List A) → take n (take (suc n) xs) ≡ take n xs
  take-take-suc zero xs = refl
  take-take-suc (suc n) [] = refl
  take-take-suc (suc n) (x ∷ xs) = ap (λ ys. x ∷ ys) (take-take-suc n xs)

  take-all : (n m : ℕ) (xs : List A) → length xs ≤ n → length xs ≤ m → take n xs ≡ take m xs
  take-all zero zero xs h k = refl
  take-all zero (suc m) [] h k = refl
  take-all zero (suc m) (x ∷ xs) h k = absurd (omega (arith, h))
  take-all (suc n) zero [] h k = refl
  take-all (suc n) zero (x ∷ xs) h k = absurd (omega (arith, k))
  take-all (suc n) (suc m) [] h k = refl
  take-all (suc n) (suc m) (x ∷ xs) h k =
      ap (λ ys. x ∷ ys) (take-all n m xs (omega (arith, h)) (omega (arith, k)))

  take-drop : (n m : ℕ) (xs : List A) → take n xs ++ take m (drop n xs) ≡ take (n + m) xs
  take-drop zero m xs = let e : m ≡ 0 + m = omega arith in ap (λ n. take n xs) e
  take-drop (suc n) zero [] = simp unary_clauses refl
  take-drop (suc n) (suc m) [] = simp unary_clauses refl
  take-drop (suc n) m (x ∷ xs) =
      let e : suc (n + m) ≡ suc n + m = omega arith in
      ap (λ ys. x ∷ ys) (take-drop n m xs) ∙ ap (λ k. take k (x ∷ xs)) e

module _ {A B : Type 0} (f : A → B) where
  map-take : (n : ℕ) (xs : List A) → map f (take n xs) ≡ take n (map f xs)
  map-take zero xs = refl
  map-take (suc n) [] = refl
  map-take (suc n) (x ∷ xs) = ap (λ ys. f x ∷ ys) (map-take n xs)

  length-map : (xs : List A) → length (map f xs) ≡ length xs
  length-map [] = refl
  length-map (x ∷ xs) = ap suc (length-map xs)

module _ (f : MediaRow → Media) (rows : List MediaRow) (count page per : ℕ) where
  abbrev looked_ahead : List Media
  looked_ahead = map f (take (suc per) rows)

  looked_ahead-length : ltb per (length looked_ahead) ≡ ltb per (length rows)
  looked_ahead-length =
      ground (arith, length-map f (take (suc per) rows), length-take (suc per) rows)

  items_lem : (to_media_page looked_ahead count page per).items ≡ map f (take per rows)
  unfolding to_media_page
  items_lem = elim (Bool-cases (ltb per (length looked_ahead))) [
    | inl more ↦
        rw more (sym (map-take f per (take (suc per) rows)) ∙ ap (map f) (take-take-suc per rows))
    | inr last ↦
        let short : length rows ≤ per = ground (arith, sym looked_ahead-length ∙ last) in
        rw last (ap (map f) (take-all (suc per) per rows (omega (arith, short)) short))
  ]

  total_lem :
      1 ≤ length rows → (to_media_page looked_ahead count page per).pagination.total_count ≡ count
  unfolding to_media_page
  total_lem h = by_rows rows h
    where
      by_rows :
          (xs : List MediaRow)
          → 1 ≤ length xs
          → (if is_empty (map f (take (suc per) xs)) then 0 else count) ≡ count
      by_rows [] h = absurd (omega (arith, h))
      by_rows (x ∷ xs) h = refl

-- whether the offset and the limit of a page are in the range of an int
abbrev pub Fits : ℕ → ℕ → Type 0
Fits p per = (p * per < 2 ^ 63) × (suc per < 2 ^ 63)

in_range : (n : ℕ) → n < 2 ^ 63 → (if ltb (n % 2 ^ 64) (2 ^ 63) then n % 2 ^ 64 else 0) ≡ n
in_range n h = ground (arith, h)

offset_lem :
    (p per : ℕ) (rows : List MediaRow)
    → Fits p per
    → window (suc p) per rows ≡ take (suc per) (drop (p * per) rows)
offset_lem p per rows (h, k) =
    let e : suc p - 1 ≡ p = omega arith in
    let small : ltb (suc per) (2 ^ 63) ≡ true = ground (arith, k) in
    rw small (
      ap (λ n. take (suc per) (drop n rows))
        (ap (λ n. let m = (n * per) % 2 ^ 64 in if ltb m (2 ^ 63) then m else 0) e
          ∙ in_range (p * per) h))

-- The page that follows `p` pages holds the next matches and no others; it says that more follow
-- exactly if some do; and if it holds any, it carries the number of all matches.
abbrev pub Tiles : Store → List MediaRow → ℕ → ℕ → MediaPage → Type 0
Tiles s rows p per page =
    (take (p * per) (map (media_from_row s) rows) ++ page.items
      ≡ take (p * per + per) (map (media_from_row s) rows))
    × (page.has_next ≡ ltb (p * per + per) (length rows))
    × ((if ltb (p * per) (length rows) then page.pagination.total_count else length rows)
        ≡ length rows)

map-drop : {A B : Type 0} (f : A → B) (n : ℕ) (xs : List A) → map f (drop n xs) ≡ drop n (map f xs)
map-drop f zero xs = refl
map-drop f (suc n) [] = refl
map-drop f (suc n) (x ∷ xs) = map-drop f n xs

pub page_of_rows-Tiles :
    (s : Store) (rows : List MediaRow) (p per : ℕ)
    → Fits p per
    → Tiles s rows p per (page_of_rows s rows (suc p) per)
unfolding page_of_rows
page_of_rows-Tiles s rows p per fits = rw (offset_lem p per rows fits) (
  ap (λ ys. take (p * per) (map f rows) ++ ys)
        (items_lem f d (length rows) (suc p) per
          ∙ map-take f per d
          ∙ ap (take per) (map-drop f (p * per) rows))
      ∙ take-drop (p * per) per (map f rows),
  ground (arith, looked_ahead-length f d 0 0 per, length-drop (p * per) rows),
  counted,
)
  where
    f : MediaRow → Media
    f = media_from_row s

    d : List MediaRow
    d = drop (p * per) rows

    counted :
        (if ltb (p * per) (length rows)
          then (to_media_page
              (map f (take (suc per) d))
              (length rows)
              (suc p)
              per).pagination.total_count
          else length rows)
        ≡ length rows
    counted = elim (Bool-cases (ltb (p * per) (length rows))) [
      | inl some_left ↦
          let held : 1 ≤ length d = ground (arith, length-drop (p * per) rows) in
          rw some_left (total_lem f d (length rows) (suc p) per held)
      | inr past ↦ rw past refl
    ]

-- When the call does not fail and the offset and the limit of the page are in the range of an int, a
-- page of List, of Search and of Recommend answers, and after `p` pages of `suc n` items it holds the
-- next matches of the feed and no others; it says that more follow exactly if some do; and if it is
-- not past the end it carries the number of all matches.
pub feeds_tile :
    (like : Str → Str → Bool) (source_id order text : Str) (f : CatalogFilter)
    (sub_types exclude : List Str) (s : Store) (p n : ℕ)
    → Fits p (suc n)
    → ((page : MediaPage) × ((list source_id order (pos (suc p)) (pos (suc n)) f (world s [])).0
          ≡ ok page)
        × Tiles s (feed_rows source_id order f s) p (suc n) page)
      × ((page : MediaPage) × ((search like source_id text
              (pos (suc p))
              (pos (suc n))
              f
              (world s [])).0
            ≡ ok page)
          × Tiles s (search_rows like source_id text f s) p (suc n) page)
      × ((page : MediaPage) × ((recommend source_id sub_types exclude
              (pos (suc p))
              (pos (suc n))
              (world s [])).0
            ≡ ok page)
          × Tiles s (recommend_rows source_id sub_types exclude s) p (suc n) page)
unfolding list search recommend query call
feeds_tile like source_id order text f sub_types exclude s p n fits = (
  (
    page_of_rows s (feed_rows source_id order f s) (suc p) (suc n),
    refl,
    page_of_rows-Tiles s (feed_rows source_id order f s) p (suc n) fits,
  ),
  (
    page_of_rows s (search_rows like source_id text f s) (suc p) (suc n),
    refl,
    page_of_rows-Tiles s (search_rows like source_id text f s) p (suc n) fits,
  ),
  (
    page_of_rows s (recommend_rows source_id sub_types exclude s) (suc p) (suc n),
    refl,
    page_of_rows-Tiles s (recommend_rows source_id sub_types exclude s) p (suc n) fits,
  ),
)

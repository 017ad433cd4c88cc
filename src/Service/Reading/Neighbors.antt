-- ===== src/Service/Reading/Neighbors.antt =====
-- The neighbours of a chapter.
use griya_maya.Base.{
  ℕ, ◌≤◌, ◌≡◌, All, length, leb, refl, sym, ap, ◌∙◌, Bool, true, false, ◌||◌, Option, none, some,
  List, [], ◌∷◌, ◌++◌, keep, any, arith, inl, inr, Bool-cases,
}
use griya_maya.Text.{Str, str_eq}
use griya_maya.Text.Laws.{str_eq_iff}
use griya_maya.Effect.{ok, query, call}
use griya_maya.Effect.Laws.{world}
use griya_maya.Domain.Media.{Chapter}
use griya_maya.Cloud.{Store}
use griya_maya.Repo.Reads.{first, chapters, chapters_of, chapter_by_id, insert_by, order_by}
use griya_maya.Service.Reading.{ChapterNeighbors, neighbors_from, chapter_neighbors}

any-insert_by :
    {A : Type 0} (q : A → Bool) (key : A → ℕ) (a : A) (as' : List A)
    → any q (insert_by key a as') ≡ (q a || any q as')
unfolding insert_by
any-insert_by q key a [] = refl
any-insert_by q key a (b ∷ bs) = ground (arith, any-insert_by q key a bs)

any-order_by :
    {A : Type 0} (q : A → Bool) (key : A → ℕ) (as' : List A) → any q (order_by key as') ≡ any q as'
unfolding order_by
any-order_by q key [] = refl
any-order_by q key (a ∷ as') =
    ground (arith, any-insert_by q key a (order_by key as'), any-order_by q key as')

abbrev has_id : Str → List Chapter → Bool
has_id id chs = any (λ ch. str_eq ch.id id) chs

-- the last chapter, or `before` where there is none
abbrev pub last_or : Option Chapter → List Chapter → Option Chapter
last_or before [] = before
last_or before (ch ∷ chs) = last_or (some ch) chs

-- the chapter of that identifier, the chapters before it and those after it
pub record Place (before : Option Chapter) (id : Str) (chs : List Chapter) (nb : ChapterNeighbors)
    : Type 0 where
  pub earlier : List Chapter
  pub current : Chapter
  pub later : List Chapter
  pub split : chs ≡ earlier ++ current ∷ later
  pub same_id : str_eq current.id id ≡ true
  pub first_one : any (λ ch. str_eq ch.id id) earlier ≡ false
  pub previous : nb.previous ≡ last_or before earlier
  pub next : nb.next ≡ first later

neighbors_from-Place :
    (before : Option Chapter) (id : Str) (chs : List Chapter)
    → any (λ ch. str_eq ch.id id) chs ≡ true
    → Place before id chs (neighbors_from before id chs)
unfolding neighbors_from
neighbors_from-Place before id [] h = absurd cc
neighbors_from-Place before id (ch ∷ chs) h = elim (Bool-cases (str_eq ch.id id)) [
  | inl here ↦ rw here (record {
    earlier = [];
    current = ch;
    later = chs;
    split = refl;
    same_id = here;
    first_one = refl;
    previous = refl;
    next = refl;
  })
  | inr there ↦
      let r = neighbors_from-Place (some ch) id chs (ground arith) in
      rw there (record {
        earlier = ch ∷ r.earlier;
        current = r.current;
        later = r.later;
        split = ap (λ xs. ch ∷ xs) r.split;
        same_id = r.same_id;
        first_one = ground (arith, r.first_one);
        previous = r.previous;
        next = r.next;
      })
]

abbrev media_or : Str → Option Chapter → Str
media_or d none = d
media_or d (some ch) = ch.media_id

-- a chapter that was found is among the chapters of its media
found-sibling :
    (id : Str) (ch : Chapter) (rows : List Chapter)
    → first (keep (λ c. str_eq c.id id) rows) ≡ some ch
    → any (λ c. str_eq c.id ch.id) (keep (λ c. str_eq c.media_id ch.media_id) rows) ≡ true
found-sibling id ch [] e = absurd cc
found-sibling id ch (c ∷ rows) e = elim (Bool-cases (str_eq c.id id)) [
  | inl here ↦
      let x : some c ≡ some ch = sym (found_here here) ∙ e in
      let i : c.id ≡ ch.id = ap (id_or []) x in
      let m : c.media_id ≡ ch.media_id = ap (media_or []) x in
      ground (arith, (str_eq_iff c.id ch.id).1 i, (str_eq_iff c.media_id ch.media_id).1 m)
  | inr other ↦ ground (arith, found-sibling id ch rows (sym (found_there other) ∙ e))
]
  where
    id_or : Str → Option Chapter → Str
    id_or d none = d
    id_or d (some x) = x.id

    found_here : str_eq c.id id ≡ true → first (keep (λ d. str_eq d.id id) (c ∷ rows)) ≡ some c
    found_here h = rw h refl

    found_there :
        str_eq c.id id ≡ false
        → first (keep (λ d. str_eq d.id id) (c ∷ rows)) ≡ first (keep (λ d. str_eq d.id id) rows)
    found_there h = rw h refl

-- the numbers never fall
abbrev pub Ascending : List Chapter → Type 0
Ascending [] = Unit
Ascending (a ∷ chs) = All (λ b. a.number ≤ b.number) chs × Ascending chs

abbrev inserted : Chapter → List Chapter → List Chapter
inserted = insert_by (λ c. c.number)

All-inserted :
    (n : ℕ) (a : Chapter) (chs : List Chapter)
    → n ≤ a.number
    → All (λ b. n ≤ b.number) chs
    → All (λ b. n ≤ b.number) (inserted a chs)
unfolding insert_by
All-inserted n a [] h hs = (h, tt)
All-inserted n a (b ∷ chs) h (hb, hs) = elim (Bool-cases (leb a.number b.number)) [
  | inl e ↦ rw e (h, (hb, hs))
  | inr e ↦ rw e (hb, All-inserted n a chs h hs)
]

All-weaken :
    (n m : ℕ) (chs : List Chapter)
    → n ≤ m
    → All (λ b. m ≤ b.number) chs
    → All (λ b. n ≤ b.number) chs
All-weaken n m [] h hs = tt
All-weaken n m (b ∷ chs) h (hb, hs) = (omega (arith, h, hb), All-weaken n m chs h hs)

inserted-Ascending : (a : Chapter) (chs : List Chapter) → Ascending chs → Ascending (inserted a chs)
unfolding insert_by
inserted-Ascending a [] h = (tt, tt)
inserted-Ascending a (b ∷ chs) (hb, hs) = elim (Bool-cases (leb a.number b.number)) [
  | inl e ↦
      let low : a.number ≤ b.number = ground arith in
      rw e ((low, All-weaken a.number b.number chs low hb), (hb, hs))
  | inr e ↦
      let high : b.number ≤ a.number = ground arith in
      rw e (All-inserted b.number a chs high hb, inserted-Ascending a chs hs)
]

ordered-Ascending : (chs : List Chapter) → Ascending (order_by (λ c. c.number) chs)
unfolding order_by
ordered-Ascending [] = tt
ordered-Ascending (a ∷ chs) =
    inserted-Ascending a (order_by (λ c. c.number) chs) (ordered-Ascending chs)

length-insert_by :
    (q : Chapter → Bool) (a : Chapter) (chs : List Chapter)
    → length (keep q (inserted a chs)) ≡ length (keep q (a ∷ chs))
unfolding insert_by
length-insert_by q a [] = refl
length-insert_by q a (b ∷ chs) = ground (arith, length-insert_by q a chs)

length-order_by :
    (q : Chapter → Bool) (chs : List Chapter)
    → length (keep q (order_by (λ c. c.number) chs)) ≡ length (keep q chs)
unfolding order_by
length-order_by q [] = refl
length-order_by q (a ∷ chs) =
    ground (arith, length-insert_by q a (order_by (λ c. c.number) chs), length-order_by q chs)

-- When no call fails, a chapter that is there has as neighbours the chapters right before and right
-- after its place, where there are such, in a list whose numbers never fall and which holds just the
-- chapters of its media: as many of them pass any test as of those in the table do.
pub chapter_neighbors-Place :
    (id : Str) (s : Store) (ch : Chapter) (q : Chapter → Bool)
    → first (keep (λ c. str_eq c.id id) s.chapters) ≡ some ch
    → (nb : ChapterNeighbors) × (siblings : List Chapter) × ((chapter_neighbors id (world s [])).0
        ≡ ok nb)
      × Place none ch.id siblings nb
      × Ascending siblings
      × (length (keep q siblings)
          ≡ length (keep q (keep (λ c. str_eq c.media_id ch.media_id) s.chapters)))
unfolding chapter_neighbors chapter_by_id chapters query call
chapter_neighbors-Place id s ch q e =
    let own = keep (λ c. str_eq c.media_id ch.media_id) s.chapters in
    (
      neighbors_from none ch.id (chapters_of ch.media_id s),
      chapters_of ch.media_id s,
      rw e refl,
      neighbors_from-Place none ch.id (chapters_of ch.media_id s) (
          any-order_by (λ c. str_eq c.id ch.id) (λ c. c.number) own
          ∙ found-sibling id ch s.chapters e),
      ordered-Ascending own,
      length-order_by q own,
    )

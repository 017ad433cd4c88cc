-- ===== src/Connections/Search/Credits.antt =====
-- What becomes of the credits of a record.
use griya_maya.Base.{
  ◌≡◌, refl, ap, Bool, not, ◌&&◌, ◌||◌, List, [], ◌∷◌, any, is_empty, inl, inr, Bool-cases,
}
use griya_maya.Text.{Str, str_eq, mem_str}
use griya_maya.Connections.Suggestions.{Credit, credit_name, is_art, is_story, credits}

module _ (name : Str) where
  abbrev pub is_author : Credit → Bool
  is_author a =
      not (is_empty (credit_name a))
      && (is_story a || not (is_art a))
      && str_eq (credit_name a) name

  abbrev pub is_artist : Credit → Bool
  is_artist a = not (is_empty (credit_name a)) && is_art a && str_eq (credit_name a) name

  -- The authors of a suggestion for a manga or a novel are the names of the credits that are not
  -- blank and whose role has Story in it or has not Art, and its artists those whose role has Art; so
  -- no name that is not blank is lost.
  pub credits_iff :
      (as' : List Credit)
      → (mem_str name (credits as').0 ≡ any is_author as')
        × (mem_str name (credits as').1 ≡ any is_artist as')
  unfolding credits mem_str
  credits_iff [] = (refl, refl)
  credits_iff (a ∷ as') =
      let (h, g) = credits_iff as' in
      elim (Bool-cases (is_empty (credit_name a))) [
        | inl blank ↦ rw blank (h, g)
        | inr filled ↦ elim (Bool-cases (is_art a)) [
          | inr plain ↦ elim (Bool-cases (is_story a)) [
            | inr other ↦ rw (filled, plain, other) (first_is h, g)
            | inl story ↦ rw (filled, plain, story) (first_is h, g)
          ]
          | inl art ↦ elim (Bool-cases (is_story a)) [
            | inr other ↦ rw (filled, art, other) (h, first_is g)
            | inl story ↦ rw (filled, art, story) (first_is h, first_is g)
          ]
        ]
      ]
    where
      first_is :
          {b c : Bool}
          → b ≡ c
          → (str_eq (credit_name a) name || b) ≡ (str_eq (credit_name a) name || c)
      first_is e = ap (λ x. str_eq (credit_name a) name || x) e

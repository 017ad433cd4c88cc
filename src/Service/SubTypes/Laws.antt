-- ===== src/Service/SubTypes/Laws.antt =====
-- What the vocabulary means for the media that are written afterwards.
use griya_maya.Base.{
  ◌≡◌, refl, sym, ap, ◌∙◌, Bool, true, false, not, ◌&&◌, ◌||◌, List, [], ◌∷◌, ◌++◌, keep, any,
  if◌then◌else◌, is_empty, arith, inl, inr, Bool-cases, ◌⊎◌,
}
use griya_maya.Text.{Str, str_eq, trim_space, blank}
use griya_maya.Text.Laws.{str_eq_refl}
use griya_maya.Effect.{ok, err, invalid_input, query, exec, exec_checked, call}
use griya_maya.Effect.Laws.{world}
use griya_maya.Domain.Media.{SubType, SubTypeWriteRequest, MediaType, known_type}
use griya_maya.Cloud.{Store}
use griya_maya.Repo.Reads.{valid_sub_type}
use griya_maya.Repo.Writes.{create_sub_type, delete_sub_type}
use griya_maya.Service.SubTypes.{
  insert_sub_type, sort_sub_types, sub_type_vocab, find, from_request, sub_type_from_request,
  create, delete,
}

any-insert_sub_type :
    (q : SubType → Bool) (a : SubType) (sts : List SubType)
    → any q (insert_sub_type a sts) ≡ (q a || any q sts)
unfolding insert_sub_type
any-insert_sub_type q a [] = refl
any-insert_sub_type q a (b ∷ bs) = ground (arith, any-insert_sub_type q a bs)

any-sort_sub_types :
    (q : SubType → Bool) (sts : List SubType) → any q (sort_sub_types sts) ≡ any q sts
unfolding sort_sub_types
any-sort_sub_types q [] = refl
any-sort_sub_types q (a ∷ sts) =
    ground (arith, any-insert_sub_type q a (sort_sub_types sts), any-sort_sub_types q sts)

abbrev pub taken : Str → Store → Bool
taken slug s = any (λ st. str_eq st.slug slug) s.sub_types

-- a creation for a valid request, where the slug is free
create-runs_to :
    (req : SubTypeWriteRequest) (s : Store)
    → sub_type_from_request req ≡ ok (from_request req)
    → taken (trim_space req.slug) s ≡ false
    → create req (world s []) ≡ (
      ok (from_request req),
      world (record s { sub_types = s.sub_types ++ from_request req ∷ [] }) [],
    )
unfolding create find sub_type_vocab create_sub_type exec_checked query call
create-runs_to req s valid free =
    rw
      (
        valid,
        any-sort_sub_types (λ st. str_eq st.slug (trim_space req.slug)) s.sub_types,
        free,
        free,
      )
      refl

create-refused :
    (req : SubTypeWriteRequest) (s : Store)
    → sub_type_from_request req ≡ err invalid_input
    → create req (world s []) ≡ (err invalid_input, world s [])
unfolding create
create-refused req s invalid = rw invalid refl

create-taken :
    (req : SubTypeWriteRequest) (s : Store)
    → sub_type_from_request req ≡ ok (from_request req)
    → taken (trim_space req.slug) s ≡ true
    → create req (world s []) ≡ (err invalid_input, world s [])
unfolding create find sub_type_vocab query call
create-taken req s valid there =
    rw (valid, any-sort_sub_types (λ st. str_eq st.slug (trim_space req.slug)) s.sub_types, there)
      refl

valid_request :
    (req : SubTypeWriteRequest)
    → (not (blank req.slug) && not (blank req.name) && known_type req.type) ≡ true
    → sub_type_from_request req ≡ ok (from_request req)
unfolding sub_type_from_request
valid_request req good = ground arith

invalid_request :
    (req : SubTypeWriteRequest)
    → (not (blank req.slug) && not (blank req.name) && known_type req.type) ≡ false
    → sub_type_from_request req ≡ err invalid_input
unfolding sub_type_from_request
invalid_request req bad = ground arith

abbrev owns : SubType → SubType → Bool
owns st row = if str_eq row.slug st.slug then str_eq row.type st.type else false

any-append_own : (st : SubType) (sts : List SubType) → any (owns st) (sts ++ st ∷ []) ≡ true
any-append_own st [] = ground (arith, str_eq_refl st.slug, str_eq_refl st.type)
any-append_own st (a ∷ sts) = ground (arith, any-append_own st sts)

created_valid :
    (st : SubType) (s : Store)
    → (valid_sub_type st.type st.slug
        (world (record s { sub_types = s.sub_types ++ st ∷ [] }) [])).0
      ≡ ok true
unfolding valid_sub_type query call
created_valid st s = elim (Bool-cases (is_empty st.slug)) [
  | inl none_given ↦ rw (none_given, valid_sub_type) refl
  | inr given ↦ rw (given, valid_sub_type) (ap ok (any-append_own st s.sub_types))
]

-- When no call fails, the creation of a sub-type with a blank slug or name, an unknown type or a slug
-- that is taken is refused as invalid and changes nothing; any other answers the sub-type with its
-- slug and name trimmed, adds it, and from then on a media of its type may have it.
pub create-valid_sub_type :
    (req : SubTypeWriteRequest) (s : Store)
    → (((create req (world s [])) ≡ (err invalid_input, world s []))
        × ((not (blank req.slug)
              && not (blank req.name)
              && known_type req.type
              && not (taken (trim_space req.slug) s))
            ≡ false))
      ⊎ (((not (blank req.slug)
              && not (blank req.name)
              && known_type req.type
              && not (taken (trim_space req.slug) s))
            ≡ true)
          × ((create req (world s [])).0
              ≡ ok (record {
                slug = trim_space req.slug;
                type = req.type;
                name = trim_space req.name;
              }))
          × ((create req (world s [])).1.store.sub_types ≡ s.sub_types ++ from_request req ∷ [])
          × ((valid_sub_type req.type (trim_space req.slug) (create req (world s [])).1).0
              ≡ ok true))
create-valid_sub_type req s =
    elim (Bool-cases (not (blank req.slug) && not (blank req.name) && known_type req.type)) [
      | inl good ↦ elim (Bool-cases (taken (trim_space req.slug) s)) [
        | inl there ↦ inl (create-taken req s (valid_request req good) there, ground (arith, there))
        | inr free ↦ inr (
          ground (arith, free),
          rw (create-runs_to req s (valid_request req good) free) (refl),
          rw (create-runs_to req s (valid_request req good) free) (refl),
          rw (create-runs_to req s (valid_request req good) free)
              (created_valid (from_request req) s),
        )
      ]
      | inr bad ↦ inl (create-refused req s (invalid_request req bad), ground (arith, bad))
    ]

blank-trim_space : (s : Str) → blank s ≡ is_empty (trim_space s)
unfolding blank
blank-trim_space s = refl

none_left :
    (t : MediaType) (slug : Str) (sts : List SubType)
    → any
        (λ st. if str_eq st.slug slug then str_eq st.type t else false)
        (keep (λ row. not (str_eq row.slug slug)) sts)
      ≡ false
none_left t slug [] = refl
none_left t slug (st ∷ sts) = ground (arith, none_left t slug sts)

-- When no call fails, a sub-type that is deleted is no longer valid for a media of any type.
pub delete-valid_sub_type :
    (slug : Str) (t : MediaType) (s : Store)
    → blank slug ≡ false
    → ((delete slug (world s [])).0 ≡ ok tt)
      × ((valid_sub_type t (trim_space slug) (delete slug (world s [])).1).0 ≡ ok false)
unfolding delete delete_sub_type exec query call valid_sub_type
delete-valid_sub_type slug t s given =
    let filled : is_empty (trim_space slug) ≡ false = sym (blank-trim_space slug) ∙ given in
    rw (given, filled) (refl, ap ok (none_left t (trim_space slug) s.sub_types))

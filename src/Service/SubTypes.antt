-- ===== src/Service/SubTypes.antt =====
-- subtype_service.go: the managed vocabulary of sub-types.
pub mod Laws
use griya_maya.Base.{ℕ, Bool, true, false, not, ◌&&◌, ◌||◌, List, [], ◌∷◌, any, if◌then◌else◌}
use griya_maya.Text.{Str, str_eq, trim_space, blank}
use griya_maya.Effect.{
  Exec, Result, ok, err, invalid_input, not_found, query, pure, guard, lift, ◌>>=◌, ◌>>◌,
}
use griya_maya.Domain.Media.{SubType, SubTypeWriteRequest, known_type}
use griya_maya.Cloud.{Store}
use griya_maya.Repo.Feed.{str_leb}
use griya_maya.Repo.Writes.{create_sub_type, update_sub_type, delete_sub_type}

-- by type, then by slug
abbrev pub sub_type_leb : SubType → SubType → Bool
sub_type_leb a b = if str_eq a.type b.type then str_leb a.slug b.slug else str_leb a.type b.type

unfoldable pub insert_sub_type : SubType → List SubType → List SubType
insert_sub_type a [] = a ∷ []
insert_sub_type a (b ∷ bs) =
    let later = b ∷ insert_sub_type a bs in if sub_type_leb a b then a ∷ b ∷ bs else later

unfoldable pub sort_sub_types : List SubType → List SubType
unfolding insert_sub_type
sort_sub_types [] = []
sort_sub_types (a ∷ sts) = insert_sub_type a (sort_sub_types sts)

-- MediaRepo.SubTypeVocab: the lists of its map one after the other, each entry with its type
unfoldable pub sub_type_vocab : Exec Store (List SubType)
unfolding query sort_sub_types
sub_type_vocab = query (λ s. sort_sub_types s.sub_types)

-- SubTypeService.List
unfoldable pub list : Exec Store (List SubType)
unfolding sort_sub_types
list = do vocab ← sub_type_vocab; pure (sort_sub_types vocab)

-- SubTypeService.find, of which the owner only goes into a message
unfoldable pub find : Str → Exec Store Bool
find slug = do vocab ← sub_type_vocab; pure (any (λ st. str_eq st.slug slug) vocab)

abbrev pub from_request : SubTypeWriteRequest → SubType
from_request req = record {
  slug = trim_space req.slug;
  type = req.type;
  name = trim_space req.name;
}

-- subTypeFromRequest
unfoldable pub sub_type_from_request : SubTypeWriteRequest → Result SubType
sub_type_from_request req =
    if blank req.slug
    then err invalid_input
    else if blank req.name
    then err invalid_input
    else if known_type req.type
    then ok (from_request req)
    else err invalid_input

-- SubTypeService.Create
unfoldable pub create : SubTypeWriteRequest → Exec Store SubType
create req = do
  st ← lift (sub_type_from_request req)
  existing ← find st.slug
  guard (not existing) invalid_input
  create_sub_type st
  pure st

-- SubTypeService.Update
unfoldable pub update : Str → SubTypeWriteRequest → Exec Store SubType
update slug req = do
  guard (not (blank slug)) invalid_input
  st ← lift (sub_type_from_request (record req { slug = trim_space slug }))
  exists ← find (trim_space slug)
  guard exists not_found
  update_sub_type (trim_space slug) st
  pure st

-- SubTypeService.Delete
unfoldable pub delete : Str → Exec Store (Unit {0})
delete slug = do guard (not (blank slug)) invalid_input; delete_sub_type (trim_space slug)

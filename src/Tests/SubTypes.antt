-- ===== src/Tests/SubTypes.antt =====
-- A sub-type that is made and taken away.
use griya_maya.Base.{◌≡◌, ◌⊎◌, true, false, not, ◌&&◌, [], ◌∷◌, ◌++◌}
use griya_maya.Text.{str, blank, trim_space}
use griya_maya.Effect.{ok, err, invalid_input}
use griya_maya.Effect.Laws.{world}
use griya_maya.Domain.Media.{SubTypeWriteRequest, known_type}
use griya_maya.Repo.Reads.{valid_sub_type}
use griya_maya.Service.SubTypes.{from_request, create}
use griya_maya.Service.SubTypes.Laws.{taken, create-valid_sub_type}
use griya_maya.Tests.Shelf.{shelf}

abbrev isekai : SubTypeWriteRequest
isekai = record { slug = str " isekai"; type = str "manga"; name = str "Isekai" }

create-valid_sub_type_example :
    (((create isekai (world shelf [])) ≡ (err invalid_input, world shelf []))
      × ((not (blank isekai.slug)
            && not (blank isekai.name)
            && known_type isekai.type
            && not (taken (trim_space isekai.slug) shelf))
          ≡ false))
    ⊎ (((not (blank isekai.slug)
            && not (blank isekai.name)
            && known_type isekai.type
            && not (taken (trim_space isekai.slug) shelf))
          ≡ true)
        × ((create isekai (world shelf [])).0 ≡ ok (from_request isekai))
        × ((create isekai (world shelf [])).1.store.sub_types
            ≡ shelf.sub_types ++ from_request isekai ∷ [])
        × ((valid_sub_type isekai.type
              (trim_space isekai.slug)
              (create isekai (world shelf [])).1).0
            ≡ ok true))
create-valid_sub_type_example = create-valid_sub_type isekai shelf

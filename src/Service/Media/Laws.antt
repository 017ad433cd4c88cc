-- ===== src/Service/Media/Laws.antt =====
-- What a request for a media must hold.
use griya_maya.Base.{
  ◌≡◌, refl, Bool, false, not, ◌&&◌, ◌||◌, [], ◌∷◌, if◌then◌else◌, is_empty, arith,
}
use griya_maya.Text.{Str, trim_space, blank}
use griya_maya.Effect.{ok, err, invalid_input}
use griya_maya.Domain.Media.{Media, MediaWriteRequest, media_manga, status_unknown, known_type}
use griya_maya.Service.Media.{or_default, requested, media_from_request}

abbrev pub accepted : MediaWriteRequest → Bool
accepted req =
    not (blank req.source_id)
    && not (blank req.title)
    && known_type (or_default req.type media_manga)

or_default-filled : (s d : Str) → is_empty d ≡ false → is_empty (or_default s d) ≡ false
or_default-filled [] d h = h
or_default-filled (x ∷ s) d h = refl

-- A request with an identifier either is refused as invalid, or makes a media of that identifier,
-- with a source, a title, one of the known types, an address and a status.
pub media_from_request_valid :
    (id : Str) (req : MediaWriteRequest)
    → is_empty id ≡ false
    → (m : Media) × (media_from_request id req ≡ (if accepted req then ok m else err invalid_input))
      × (m.id ≡ id)
      × ((accepted req && (blank m.source_id || blank m.title || not (known_type m.type))) ≡ false)
      × (is_empty m.url ≡ false)
      × (is_empty m.status ≡ false)
unfolding media_from_request
media_from_request_valid id req h = (
  requested id req,
  ground arith,
  refl,
  ground arith,
  or_default-filled (trim_space req.url) id h,
  or_default-filled req.status status_unknown refl,
)

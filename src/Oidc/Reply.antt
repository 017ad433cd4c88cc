-- ===== src/Oidc/Reply.antt =====
-- respondData and respondErr of user_admin.go, and the early returns of the handlers that answer by
-- them.
pub mod Laws
use griya_maya.Base.{ℕ, Bool, Option, none, some, if◌then◌else◌}
use griya_maya.Text.{Str}
use griya_maya.Effect.{Result, ok, err, World, Exec}

-- an answer: the status with the resource, the status with the error code, or 204
pub data Reply (A : Type 0) : Type 0 where
  respond_data : ℕ → A → Reply A
  respond_err : ℕ → Str → Reply A
  no_content : Reply A

abbrev pub Handler : Type 0 → Type 0 → Type 0
Handler S B = World S → Reply B × World S

module _ {S B : Type 0} where
  abbrev pub respond : Reply B → Handler S B
  respond r w = (r, w)

  -- the answer `refusal` where the test fails
  unfoldable pub require : Bool → Reply B → Handler S B → Handler S B
  require b refusal rest w = if b then rest w else (refusal, w)

module _ {S A B : Type 0} where
  unfoldable pub on_result : Reply B → (A → Handler S B) → Result A × World S → Reply B × World S
  on_result failed f (ok a, w) = f a w
  on_result failed f (err e, w) = (failed, w)

  -- the answer `failed` where the call fails
  abbrev pub on : Exec S A → Reply B → (A → Handler S B) → Handler S B
  on m failed f w = on_result failed f (m w)

  -- the answer `missing` where there is nothing
  unfoldable pub with_some : Option A → Reply B → (A → Handler S B) → Handler S B
  with_some none missing f w = (missing, w)
  with_some (some a) missing f w = f a w

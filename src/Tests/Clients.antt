-- ===== src/Tests/Clients.antt =====
-- A client that is registered, read and updated, and one that was seeded.
use griya_maya.Base.{◌*◌, ◌≡◌, refl, List, [], ◌∷◌, some}
use griya_maya.Text.{Str, str, str_eq, fields, trim_space, lower}
use griya_maya.Effect.{answered, refused, lost, exec_checked, query, call}
use griya_maya.Effect.Laws.{world}
use griya_maya.Oidc.Store.{second}
use griya_maya.Oidc.Gate.{bearer_token}
use griya_maya.Oidc.Reply.{respond_data, with_some, on_result}
use griya_maya.Oidc.Clients.{client_with, ClientRow, static_client}
use griya_maya.Oidc.Dcr.{
  ClientMetadata, RegistrationResponse, DcrDraw, registered, register, read, update, delete,
}
use griya_maya.Oidc.Dcr.Laws.{Rejected, manage-Rejected}
use griya_maya.Oidc.Dcr.Documents.{register-read}
use griya_maya.Oidc.Dcr.Changes.{Keeps, update-Keeps, update_lost}
use griya_maya.Tests.Accounts.{plain}

abbrev issuer : Str
issuer = str "https://x"

abbrev metadata : ClientMetadata
metadata = record {
  redirect_uris = str "app:" ∷ [];
  grant_types = [];
  response_types = [];
  token_endpoint_auth_method = [];
  application_type = str "native";
  client_name = str "App";
  scope = str "openid email";
  post_logout_redirect_uris = [];
}

abbrev draw : DcrDraw
draw = record {
  client_id = str "7";
  reg_token = str "T";
  secret = str "S";
  salt = some (str "s");
  now = 9 * second;
}

abbrev seeded : ClientRow
seeded = static_client (str "ios") (str "IOS") [] [] (5 * second)

abbrev robot : ClientRow
robot = record seeded {
  id = str "robot";
  secret_hash = str "S";
  grant_types = str "client_credentials" ∷ [];
  registration_access_token = str "T";
}

abbrev kept : List ClientRow
kept = seeded ∷ robot ∷ []

abbrev bearer : Str
bearer = str "Bearer T"

manage-Rejected_example :
    Rejected issuer kept [] (read issuer (str "ios") bearer (world kept []))
    × Rejected issuer kept [] (update issuer (str "ios") bearer (some metadata) (world kept []))
    × Rejected issuer kept [] (delete issuer (str "ios") bearer (world kept []))
unfolding str_eq
manage-Rejected_example =
    manage-Rejected issuer (str "ios") bearer (some metadata) kept seeded [] refl refl

register-read_example :
    (read issuer
      (str "dcr-7")
      bearer
      (world (register issuer plain (some metadata) draw (world kept [])).1.store [])).0
    ≡ respond_data 200 (record (registered issuer plain metadata draw) {
      client_secret = [];
      application_type = [];
    })
unfolding register with_some on_result exec_checked call query str_eq bearer_token trim_space lower
    fields
register-read_example =
    register-read issuer plain metadata draw kept [] (registered issuer plain metadata draw) bearer
      refl refl refl refl

update-Keeps_example : Keeps issuer (str "robot") kept (
    update issuer
      (str "robot")
      bearer
      (some metadata)
      (world kept (answered ∷ answered ∷ refused ∷ [])))
update-Keeps_example =
    update-Keeps issuer (str "robot") kept bearer (some metadata)
      (answered ∷ answered ∷ refused ∷ [])

update_lost_example :
    (document : RegistrationResponse) × (after : List ClientRow) × (changed : ClientRow) × (update
        issuer
        (str "robot")
        bearer
        (some metadata)
        (world kept (answered ∷ answered ∷ lost ∷ []))
      ≡ (respond_data 200 document, world after []))
    × (client_with (str "robot") after ≡ some changed)
    × (changed.client_name ≡ metadata.client_name)
    × (changed.redirect_uris ≡ metadata.redirect_uris)
    × (document.client_id ≡ [])
    × (document.registration_access_token ≡ [])
unfolding str_eq bearer_token trim_space lower
update_lost_example = update_lost issuer (str "robot") bearer metadata kept robot lost [] refl refl

-- ===== src/Tests/Routes.antt =====
-- A request to delete a media.
use griya_maya.Base.{◌≡◌, refl, true, false, ◌||◌, [], ◌∷◌, is_empty}
use griya_maya.Text.{str, str_eq, mem_str, has_prefix, trim_space, lower}
use griya_maya.Effect.{ok}
use griya_maya.Oidc.Scopes.{has_scope}
use griya_maya.Oidc.Gate.{Claims, gate, bearer_token}
use griya_maya.Server.{route, delete, required, admit}
use griya_maya.Server.Laws.{asked_scope, write_guarded}

abbrev writer : Claims
writer = record { subject = str "u"; scopes = str "manga.write" ∷ [] }

write_guarded_example :
    (is_empty (bearer_token (str "Bearer T")) ≡ false)
    × (ok writer ≡ ok writer)
    × ((is_empty (asked_scope (str "manga.write") [] required)
          || has_scope writer.scopes (asked_scope (str "manga.write") [] required))
        ≡ true)
unfolding str_eq mem_str has_prefix admit gate bearer_token trim_space lower has_scope
write_guarded_example =
    write_guarded (λ token. ok writer) (str "manga.write") [] (str "Bearer T") 50
      (route delete (str "/v1/media/:id") required) writer refl refl refl refl

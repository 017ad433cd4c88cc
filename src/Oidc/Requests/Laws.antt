-- ===== src/Oidc/Requests/Laws.antt =====
-- The life of an authorization request and its code.
use griya_maya.Base.{
  ℕ, ◌≡◌, refl, false, not, List, [], ◌∷◌, keep, none, some, inl, inr, Bool-cases,
}
use griya_maya.Text.{Str, str_eq}
use griya_maya.Text.Laws.{str_eq_refl}
use griya_maya.Effect.{Outcome, World, Result, ok, query, exec, call, ◌>>◌}
use griya_maya.Effect.Laws.{Post-query, Post-seq, Post-answers, world}
use griya_maya.Repo.Reads.{first}
use griya_maya.Oidc.Requests.{
  AuthRequest, AuthCode, ParsedRequest, Provider, request_with, code_with, only_none,
  auth_request_to_internal, put_request, auth_request_by_id, create_auth_request,
  auth_request_by_code, save_auth_code, delete_auth_request,
}

request_gone :
    (id : Str) (rs : List AuthRequest)
    → first (keep (λ r. str_eq r.id id) (keep (λ r. not (str_eq r.id id)) rs)) ≡ none
request_gone id [] = refl
request_gone id (r ∷ rs) = elim (Bool-cases (str_eq r.id id)) [
  | inl e ↦ rw e (request_gone id rs)
  | inr e ↦ rw (e, e) (request_gone id rs)
]

-- a lookup by a code whose request is not there finds nothing, whatever its calls come to
by_code-missing :
    (code : Str) (c : AuthCode) (s : Provider) (os : List Outcome) (a : AuthRequest)
    → code_with code s ≡ some c
    → request_with c.request_id s ≡ none
    → ¬ ((auth_request_by_code code (world s os)).0 ≡ ok a)
unfolding auth_request_by_code auth_request_by_id
by_code-missing code c s os a here gone answer =
    (Post-answers (λ _ _. ⊥) (λ _ _. Unit) (auth_request_by_code code (world s os))
        (Post-seq (λ o v. (o ≡ some c) × (v.store ≡ s)) (λ _ _. ⊥) (λ _ _. Unit)
          (query (code_with code) (world s os)) _
          (Post-query (λ o v. (o ≡ some c) × (v.store ≡ s)) (λ _ _. Unit) (code_with code)
            (world s os) (λ os. (here, refl)) (λ os. tt))
          λ o v (is_c, same). rw is_c (
            Post-seq (λ o v. o ≡ none) (λ _ _. ⊥) (λ _ _. Unit)
              (query (request_with c.request_id) v) _
              (Post-query (λ o v. o ≡ none) (λ _ _. Unit) (request_with c.request_id) v
                (λ os. rw same gone) (λ os. tt))
              λ o v nothing. rw nothing tt))).0
      a answer

module _ (r : ParsedRequest) (user_id id code : Str) (now : ℕ) (s : Provider) where
  abbrev pub login_run : Result (Unit {0}) × World Provider
  login_run = (create_auth_request r user_id id now >> save_auth_code id code) (world s [])

  abbrev saved : Provider
  saved = record s {
    requests =
        auth_request_to_internal r user_id id now ∷ keep (λ r. not (str_eq r.id id)) s.requests;
    codes = record { code = code; request_id = id } ∷ keep (λ c. not (str_eq c.code code)) s.codes;
  }

  saved_by : only_none r.prompt ≡ false → login_run ≡ (ok tt, world saved [])
  unfolding create_auth_request save_auth_code put_request exec call
  saved_by asks = rw asks refl

  saved_code : code_with code saved ≡ some (record { code = code; request_id = id })
  saved_code = rw (str_eq_refl code) refl

  by_code-saved :
      (auth_request_by_code code (world saved [])).0
      ≡ ok (auth_request_to_internal r user_id id now)
  unfolding auth_request_by_code auth_request_by_id query call
  by_code-saved = rw (str_eq_refl code, str_eq_refl id) refl

  by_code-deleted :
      (os : List Outcome) (a : AuthRequest)
      → ¬ (
          (auth_request_by_code code (world (delete_auth_request id (world saved [])).1.store os)).0
          ≡ ok a)
  unfolding delete_auth_request exec call
  by_code-deleted os a =
      by_code-missing code (record { code = code; request_id = id }) _ os a saved_code
        (request_gone id saved.requests)

  -- When no call fails: a request whose prompt is not only none is created, and with a code saved for
  -- it the code leads to just that request; and after the request is deleted no lookup by the code
  -- finds one, whatever its calls come to.
  pub code_once :
      (os : List Outcome) (a : AuthRequest)
      → only_none r.prompt ≡ false
      → ((auth_request_by_code code login_run.1).0 ≡ ok (auth_request_to_internal r user_id id now))
        × (¬ (
            (auth_request_by_code code (world (delete_auth_request id login_run.1).1.store os)).0
            ≡ ok a))
  code_once os a asks = rw (saved_by asks) (by_code-saved, by_code-deleted os a)

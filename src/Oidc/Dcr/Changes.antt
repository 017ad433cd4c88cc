-- ===== src/Oidc/Dcr/Changes.antt =====
-- What an update and a deletion of a client change.
use griya_maya.Base.{
  ◌≡◌, refl, sym, ap, subst, ◌⊎◌, inl, inr, true, not, List, [], ◌∷◌, map, keep, if◌then◌else◌,
  Option, none, some, arith, Bool-cases,
}
use griya_maya.Text.{Str, str_eq}
use griya_maya.Text.Laws.{str_eq_iff}
use griya_maya.Effect.{
  World, Outcome, answered, refused, lost, upstream, Result, ok, err, query, exec, call,
}
use griya_maya.Effect.Laws.{Post, Post-exec, Post-query, world}
use griya_maya.Oidc.Reply.{Reply, respond_data, no_content, require, on_result, with_some}
use griya_maya.Oidc.Reply.Laws.{on-Post, on_query-Post, with_some-Post, require-Post}
use griya_maya.Oidc.Clients.{ClientRow, client_with}
use griya_maya.Oidc.Dcr.{
  ClientMetadata, RegistrationResponse, unknown_client, row_to_response, updated_row, client_row,
  is_token, read, update, delete, set_client, answer_updated, server_error, response_of,
}
use griya_maya.Oidc.Dcr.Laws.{credentials, fails}
use griya_maya.Oidc.Dcr.Documents.{read-missing}

abbrev apart : Str → List ClientRow → List ClientRow
apart id s = keep (λ r. not (str_eq r.id id)) s

map-set_client :
    (meta : ClientMetadata) (row : ClientRow) (s : List ClientRow)
    → map credentials (set_client meta row s) ≡ map credentials s
map-set_client meta row [] = refl
map-set_client meta row (r ∷ s) = elim (Bool-cases (str_eq r.id row.id)) [
  | inl e ↦ rw e (ap (λ cs. credentials r ∷ cs) (map-set_client meta row s))
  | inr e ↦ rw e (ap (λ cs. credentials r ∷ cs) (map-set_client meta row s))
]

apart-set_client :
    (meta : ClientMetadata) (row : ClientRow) (s : List ClientRow)
    → apart row.id (set_client meta row s) ≡ apart row.id s
apart-set_client meta row [] = refl
apart-set_client meta row (r ∷ s) = elim (Bool-cases (str_eq r.id row.id)) [
  | inl e ↦ rw (e, e) (apart-set_client meta row s)
  | inr e ↦ rw (e, e) (ap (λ rs. r ∷ rs) (apart-set_client meta row s))
]

found_id :
    (id : Str) (s : List ClientRow) (row : ClientRow)
    → client_with id s ≡ some row
    → str_eq row.id id ≡ true
found_id id [] row h = absurd cc
found_id id (r ∷ s) row h = elim (Bool-cases (str_eq r.id id)) [
  | inl e ↦ ground arith
  | inr e ↦ found_id id s row (ground arith)
]

module _ (issuer id : Str) (s : List ClientRow) where
  unfoldable pub Keeps : {B : Type 0} → Reply B × World (List ClientRow) → Type 0
  Keeps r = (map credentials r.1.store ≡ map credentials s) × (apart id r.1.store ≡ apart id s)

  keeps : (B : Type 0) (r : Reply B) (w : World (List ClientRow)) → w.store ≡ s → Keeps (r, w)
  unfolding Keeps
  keeps B r w same = rw same (refl, refl)

  set_client-Keeps :
      (B : Type 0) (r : Reply B) (w : World (List ClientRow)) (meta : ClientMetadata)
      (row : ClientRow)
      → str_eq row.id id ≡ true
      → w.store ≡ set_client meta row s
      → Keeps (r, w)
  unfolding Keeps
  set_client-Keeps B r w meta row mine made =
      rw (made, sym ((str_eq_iff row.id id).0 mine))
        (map-set_client meta row s, apart-set_client meta row s)

  answered_updated :
      (row : ClientRow) (meta : ClientMetadata) (w : World (List ClientRow))
      → str_eq row.id id ≡ true
      → w.store ≡ set_client meta row s
      → Keeps (answer_updated issuer row.id w)
  unfolding client_row
  answered_updated row meta w mine made = kept (query (client_with row.id) w) (
      Post-query (λ _ v. v.store ≡ set_client meta row s) (λ _ v. v.store ≡ set_client meta row s)
        (client_with row.id) w (λ os. made) (λ os. made))
    where
      kept :
          (r : Result (Option ClientRow) × World (List ClientRow))
          → Post (λ _ v. v.store ≡ set_client meta row s) (λ _ v. v.store ≡ set_client meta row s) r
          → Keeps (respond_data 200 (response_of issuer r.0), r.1)
      kept (ok o, v) made = set_client-Keeps _ _ v meta row mine made
      kept (err e, v) made = set_client-Keeps _ _ v meta row mine made

  failed_update :
      (row : ClientRow) (meta : ClientMetadata) (w : World (List ClientRow))
      → str_eq row.id id ≡ true
      → (w.store ≡ s) ⊎ (w.store ≡ set_client meta row s)
      → Keeps (server_error {B = RegistrationResponse}, w)
  failed_update row meta w mine (inl same) = keeps _ _ w same
  failed_update row meta w mine (inr made) = set_client-Keeps _ _ w meta row mine made

  -- Whatever a request to update a client comes to, no client gets another identifier, secret,
  -- registration access token or creation time, none is added or taken away, and the clients of other
  -- identifiers are as they were.
  pub update-Keeps :
      (header : Str) (body : Option ClientMetadata) (os : List Outcome)
      → Keeps (update issuer id header body (world s os))
  unfolding update client_row
  update-Keeps header body os =
      on_query-Post Keeps _ (client_with id) _ (world s os)
        (λ v same.
          with_some-Post Keeps (client_with id s) _ _ v
            (λ row found.
              require-Post Keeps _ _ _ v
                (λ _.
                  with_some-Post Keeps body _ _ v
                    (λ meta _.
                      on-Post Keeps (λ _ u. u.store ≡ set_client meta row s)
                        (λ e u. (u.store ≡ s) ⊎ (u.store ≡ set_client meta row s)) _ _
                        (exec (set_client meta row) v)
                        (Post-exec (λ _ u. u.store ≡ set_client meta row s)
                          (λ e u. (u.store ≡ s) ⊎ (u.store ≡ set_client meta row s))
                          (set_client meta row) v (λ os. rw same refl) (λ os. inl same)
                          (λ os. inr (rw same refl)))
                        (λ _ u made. answered_updated row meta u (found_id id s row found) made)
                        (λ e u left. failed_update row meta u (found_id id s row found) left))
                    (λ _. keeps _ _ v same))
                (λ _. keeps _ _ v same))
            (λ _. keeps _ _ v same))
        (λ v same. keeps _ _ v same)

-- the row that an update leaves is found again
found_set :
    (meta : ClientMetadata) (row : ClientRow) (s : List ClientRow)
    → client_with row.id s ≡ some row
    → client_with row.id (set_client meta row s) ≡ some (updated_row meta row row)
found_set meta row [] = λ e. absurd cc
found_set meta row (r ∷ s) = elim (Bool-cases (str_eq r.id row.id)) [
  | inl mine ↦
      rw (mine, mine) (λ e. let same : r ≡ row = cc in ap (λ x. some (updated_row meta row x)) same)
  | inr other ↦ rw (other, other) (found_set meta row s)
]

updated_found :
    (meta : ClientMetadata) (id : Str) (s : List ClientRow) (row : ClientRow)
    → client_with id s ≡ some row
    → (client_with row.id (set_client meta row s) ≡ some (updated_row meta row row))
      × (client_with id (set_client meta row s) ≡ some (updated_row meta row row))
updated_found meta id s row found =
    let same : row.id ≡ id = (str_eq_iff row.id id).0 (found_id id s row found) in
    let again : client_with row.id (set_client meta row s) ≡ some (updated_row meta row row) =
      found_set meta row s (subst (λ x. client_with x s ≡ some row) (sym same) found) in
    (
      again,
      subst (λ x. client_with x (set_client meta row s) ≡ some (updated_row meta row row)) same
          again,
    )

-- For an update with the right token whose first two calls are answered, whatever the third comes to,
-- the call that reads the client again: the client that is then found has the name and the redirects of
-- the request, and the answer is 200 with a document. It has the client's identifier and registration
-- access token where the third call is answered, and has neither of them where it fails.
pub update_lost :
    (issuer id header : Str) (meta : ClientMetadata) (s : List ClientRow) (row : ClientRow)
    (third : Outcome) (os : List Outcome)
    → client_with id s ≡ some row
    → is_token issuer header row ≡ true
    → (document : RegistrationResponse) × (after : List ClientRow) × (changed : ClientRow) × (update
          issuer id header
          (some meta)
          (world s (answered ∷ answered ∷ third ∷ os))
        ≡ (respond_data 200 document, world after os))
      × (client_with id after ≡ some changed)
      × (changed.client_name ≡ meta.client_name)
      × (changed.redirect_uris ≡ meta.redirect_uris)
      × (document.client_id ≡ (if fails (third ∷ os) then [] else row.id))
      × (document.registration_access_token
          ≡ (if fails (third ∷ os) then [] else row.registration_access_token))
unfolding update client_row query exec call on_result with_some require
update_lost issuer id header meta s row answered os found right = (
  row_to_response issuer (updated_row meta row row),
  set_client meta row s,
  updated_row meta row row,
  rw (found, right, (updated_found meta id s row found).0) refl,
  (updated_found meta id s row found).1,
  refl,
  refl,
  refl,
  refl,
)
update_lost issuer id header meta s row refused os found right = (
  response_of issuer (err upstream),
  set_client meta row s,
  updated_row meta row row,
  rw (found, right) refl,
  (updated_found meta id s row found).1,
  refl,
  refl,
  refl,
  refl,
)
update_lost issuer id header meta s row lost os found right = (
  response_of issuer (err upstream),
  set_client meta row s,
  updated_row meta row row,
  rw (found, right) refl,
  (updated_found meta id s row found).1,
  refl,
  refl,
  refl,
  refl,
)

first_none :
    (id : Str) (s : List ClientRow) → client_with id (keep (λ r. not (str_eq r.id id)) s) ≡ none
first_none id [] = refl
first_none id (r ∷ s) = elim (Bool-cases (str_eq r.id id)) [
  | inl e ↦ rw e (first_none id s)
  | inr e ↦ rw (e, e) (first_none id s)
]

-- A request to delete a client with its right token, whose calls do not fail, is answered by 204, and
-- from then on a Read of the client is answered by 404 for every token, when its call does not fail.
pub delete-read :
    (issuer id header later : Str) (s : List ClientRow) (row : ClientRow)
    → client_with id s ≡ some row
    → is_token issuer header row ≡ true
    → ((delete issuer id header (world s [])).0 ≡ no_content)
      × ((read issuer id later (world (delete issuer id header (world s [])).1.store [])).0
          ≡ unknown_client)
unfolding delete client_row query exec call on_result with_some require
delete-read issuer id header later s row found right =
    let same : row.id ≡ id = (str_eq_iff row.id id).0 (found_id id s row found) in
    rw (found, right) (refl, read-missing issuer id later _ (rw same (first_none id s)))

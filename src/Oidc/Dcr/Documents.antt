-- ===== src/Oidc/Dcr/Documents.antt =====
-- The documents that the registration answers, and what they say of the stored clients.
use griya_maya.Base.{
  ℕ, ◌≡◌, refl, sym, ap, ◌∙◌, inl, inr, true, false, List, [], ◌∷◌, ◌++◌, any, is_empty, none, some,
  arith, Bool-cases, ◌==◌,
}
use griya_maya.Base.Int.{pos}
use griya_maya.Text.{Str, str, str_eq}
use griya_maya.Text.Laws.{str_eq_refl}
use griya_maya.Effect.{World, Outcome, query, exec_checked, call}
use griya_maya.Effect.Laws.{Post-exec_checked, world}
use griya_maya.Oidc.Store.{unix}
use griya_maya.Oidc.Gate.{bearer_token}
use griya_maya.Oidc.Reply.{Reply, respond_data, respond_err, require, on_result, with_some}
use griya_maya.Oidc.Reply.Laws.{on-Post, with_some-Post}
use griya_maya.Oidc.Users.{Passwords}
use griya_maya.Oidc.Clients.{ClientRow, client_with, add_client}
use griya_maya.Oidc.Dcr.{
  ClientMetadata, RegistrationResponse, DcrDraw, unknown_client, row_to_response, client_row,
  is_token, read, secret_hash_of, new_client, registered, register, issued_at,
}

-- the row that is appended is the first of its identifier, where none had it
client_append :
    (id : Str) (s : List ClientRow) (row : ClientRow)
    → any (λ r. str_eq r.id id) s ≡ false
    → str_eq row.id id ≡ true
    → client_with id (s ++ row ∷ []) ≡ some row
client_append id [] row h here = rw here refl
client_append id (r ∷ s) row h here =
    let other : str_eq r.id id ≡ false = ground arith in
    rw other (client_append id s row (ground arith) here)

module _ (issuer : Str) where
  -- a read whose call is answered, by the row that it finds
  read-found :
      (id header : Str) (s : List ClientRow) (row : ClientRow)
      → client_with id s ≡ some row
      → is_token issuer header row ≡ true
      → (read issuer id header (world s [])).0 ≡ respond_data 200 (row_to_response issuer row)
  unfolding read client_row query call on_result with_some require
  read-found id header s row found right = rw (found, right) refl

  pub read-missing :
      (id header : Str) (s : List ClientRow)
      → client_with id s ≡ none
      → (read issuer id header (world s [])).0 ≡ unknown_client
  unfolding read client_row query call on_result with_some
  read-missing id header s missing = rw missing refl

  abbrev Stored : Passwords → ClientMetadata → DcrDraw → List ClientRow → List ClientRow → Type 0
  Stored ps meta d s t =
      (hash : Str) × (any (λ r. str_eq r.id (str "dcr-" ++ d.client_id)) s ≡ false)
      × (t ≡ s ++ new_client issuer ps meta hash d ∷ [])

  module _ (ps : Passwords) (meta : ClientMetadata) (d : DcrDraw) (s : List ClientRow) where
    unfoldable Registers : Reply RegistrationResponse × World (List ClientRow) → Type 0
    Registers r =
        (resp : RegistrationResponse)
        → r.0 ≡ respond_data 201 resp
        → (resp ≡ registered issuer ps meta d) × Stored ps meta d s r.1.store

    refused-Registers :
        (status : ℕ) (code : Str) (w : World (List ClientRow))
        → Registers (respond_err status code, w)
    unfolding Registers
    refused-Registers status code w resp e = absurd cc

    add_client_inv :
        (row : ClientRow) (t : List ClientRow)
        → add_client row s ≡ some t
        → (any (λ r. str_eq r.id row.id) s ≡ false) × (t ≡ s ++ row ∷ [])
    add_client_inv row t e = elim (Bool-cases (any (λ r. str_eq r.id row.id) s)) [
      | inl taken ↦ absurd (ground arith)
      | inr free ↦ let made : some (s ++ row ∷ []) ≡ some t = ground arith in (free, ground arith)
    ]

    register-Stored :
        (os : List Outcome) (resp : RegistrationResponse)
        → (register issuer ps (some meta) d (world s os)).0 ≡ respond_data 201 resp
        → (resp ≡ registered issuer ps meta d)
          × Stored ps meta d s (register issuer ps (some meta) d (world s os)).1.store
    unfolding register with_some Registers
    register-Stored os resp =
        with_some-Post Registers (secret_hash_of issuer ps meta d) _ _ (world s os)
          (λ hash _.
            let row = new_client issuer ps meta hash d in
            on-Post Registers (λ _ v. Stored ps meta d s v.store) (λ e v. Unit) _ _
              (exec_checked (add_client row) (world s os))
              (Post-exec_checked (λ _ v. Stored ps meta d s v.store) (λ e v. Unit) (add_client row)
                (world s os)
                (λ t e os. let (free, made) = add_client_inv row t e in (hash, free, made))
                (λ t e os. tt) (λ os. tt))
              (λ _ v stored resp e. (ground arith, stored)) (λ e v _. refused-Registers _ _ v))
          (λ _. refused-Registers _ _ (world s os)) resp

  -- After a registration that was answered by 201, whatever its calls came to, a Read of the client
  -- with its registration access token, which is not empty, is answered with the document of the
  -- registration, save that it has no client secret and no application type, when its call does not
  -- fail and the registration was not at the first second of the epoch.
  pub register-read :
      (ps : Passwords) (meta : ClientMetadata) (d : DcrDraw) (s : List ClientRow)
      (os : List Outcome) (resp : RegistrationResponse) (header : Str)
      → (register issuer ps (some meta) d (world s os)).0 ≡ respond_data 201 resp
      → bearer_token header ≡ resp.registration_access_token
      → is_empty resp.registration_access_token ≡ false
      → (unix d.now == 0) ≡ false
      → (read issuer resp.client_id header
          (world (register issuer ps (some meta) d (world s os)).1.store [])).0
        ≡ respond_data 200 (record resp { client_secret = []; application_type = [] })
  register-read ps meta d s os resp header answer bears filled late =
      let (is_resp, (hash, free, made)) = register-Stored ps meta d s os resp answer in
      let row = new_client issuer ps meta hash d in
      let id = str "dcr-" ++ d.client_id in
      let t = (register issuer ps (some meta) d (world s os)).1.store in
      let token : bearer_token header ≡ d.reg_token =
        bears ∙ ap (λ r. r.registration_access_token) is_resp in
      let some_token : is_empty d.reg_token ≡ false =
        sym (ap (λ r. is_empty r.registration_access_token) is_resp) ∙ filled in
      let right : is_token issuer header row ≡ true =
        rw (token, some_token) (str_eq_refl d.reg_token) in
      let found : client_with id t ≡ some row =
        ap (client_with id) made ∙ client_append id s row free (str_eq_refl id) in
      let at : issued_at (unix d.now) ≡ pos (unix d.now) = rw late refl in
      rw is_resp (
        read-found id header t row found right
        ∙ ap
            (λ n.
              respond_data 200 (record (row_to_response issuer row) { client_id_issued_at = n }))
            at)

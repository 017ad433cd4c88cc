-- ===== src/Oidc/Clients/Laws.antt =====
-- Which clients authenticate by a secret.
use griya_maya.Base.{
  ◌≡◌, refl, sym, ap, true, false, List, is_empty, Option, none, some, arith, inl, inr, Bool-cases,
}
use griya_maya.Text.{Str, mem_str}
use griya_maya.Effect.{Outcome, World, Result, ok, err, query}
use griya_maya.Effect.Laws.{Post, Post-query, Post-answers, world}
use griya_maya.Oidc.Users.{Passwords}
use griya_maya.Oidc.Clients.{
  Client, ClientRow, client_with, client_of, client_from_row, client_by_id,
  grant_type_client_credentials, credentials_of, client_credentials,
}

module _ (ps : Passwords) (id secret : Str) (s : List ClientRow) where
  abbrev pub Authenticated : Client → Type 0
  Authenticated c =
      (row : ClientRow) × (client_with id s ≡ some row)
      × (c ≡ client_from_row row)
      × (mem_str grant_type_client_credentials c.grant_types ≡ true)
      × (is_empty row.secret_hash ≡ false)
      × (ps.verify secret row.secret_hash ≡ true)

  -- Whatever its call comes to, client credentials that are accepted are those of a client that
  -- exists, has that grant type, has a stored secret, and whose secret the given one is; so a public
  -- client, which has none, is never accepted.
  pub client_credentials_sound :
      (os : List Outcome) (c : Client)
      → (client_credentials ps id secret (world s os)).0 ≡ ok c
      → Authenticated c
  unfolding client_credentials client_by_id
  client_credentials_sound os c answer =
      (Post-answers (λ c _. Authenticated c) (λ _ _. Unit)
          (credentials_of ps secret (query (λ s. client_of (client_with id s)) (world s os)).0
            (query (λ s. client_of (client_with id s)) (world s os)).1)
          (by_answer (query (λ s. client_of (client_with id s)) (world s os)) (
            Post-query (λ o _. o ≡ client_of (client_with id s)) (λ _ _. Unit)
              (λ s. client_of (client_with id s)) (world s os) (λ os. refl) (λ os. tt)))).0
        c answer
    where
      by_row :
          (row : Option ClientRow) (c : Client)
          → client_with id s ≡ row
          → some c ≡ client_of row
          → mem_str grant_type_client_credentials c.grant_types ≡ true
          → is_empty c.secret_hash ≡ false
          → ps.verify secret c.secret_hash ≡ true
          → Authenticated c
      by_row none c here is_c grant filled right = absurd cc
      by_row (some row) c here is_c grant filled right =
          let same : c ≡ client_from_row row = ground arith in
          (
            row,
            here,
            same,
            grant,
            rw (sym (ap (λ x. x.secret_hash) same)) filled,
            rw (sym (ap (λ x. x.secret_hash) same)) right,
          )

      by_client :
          (c : Client) (w : World (List ClientRow))
          → some c ≡ client_of (client_with id s)
          → Post (λ c _. Authenticated c) (λ _ _. Unit) (credentials_of ps secret (ok (some c)) w)
      by_client c w is_c = elim (Bool-cases (mem_str grant_type_client_credentials c.grant_types)) [
        | inr no_grant ↦ rw no_grant tt
        | inl grant ↦ elim (Bool-cases (is_empty c.secret_hash)) [
          | inl public ↦ rw (grant, public) tt
          | inr filled ↦ elim (Bool-cases (ps.verify secret c.secret_hash)) [
            | inr wrong ↦ rw (grant, filled, wrong) tt
            | inl right ↦
                rw (grant, filled, right) (by_row (client_with id s) c refl is_c grant filled right)
          ]
        ]
      ]

      by_answer :
          (r : Result (Option Client) × World (List ClientRow))
          → Post (λ o _. o ≡ client_of (client_with id s)) (λ _ _. Unit) r
          → Post (λ c _. Authenticated c) (λ _ _. Unit) (credentials_of ps secret r.0 r.1)
      by_answer (err e, w) h = tt
      by_answer (ok none, w) h = tt
      by_answer (ok (some c), w) h = by_client c w h

-- ===== src/Connections/Secrets.antt =====
-- The client secret of a connection as it is stored, when no call fails.
use griya_maya.Base.{
  ◌≡◌, refl, ap, true, false, List, [], ◌∷◌, ◌++◌, any, keep, some, inl, inr, Bool-cases, arith,
}
use griya_maya.Text.{Str, str_eq, trim_space, blank}
use griya_maya.Text.Laws.{str_eq_refl}
use griya_maya.Effect.{World, Result, ok, query, exec, exec_checked, call}
use griya_maya.Effect.Laws.{world}
use griya_maya.Repo.Reads.{first}
use griya_maya.Connections.Url.{valid}
use griya_maya.Connections.Table.{Connection, ConnectionWriteRequest, Links, insert, get, write}
use griya_maya.Connections.Flow.{
  Cipher, Fresh, encrypt, decrypt, new_connection, changed, create, update,
}
use griya_maya.Connections.Round.{Opens}
use griya_maya.Connections.Renewal.{sealed_opens}

first-appended :
    (c : Connection) (cs : List Connection)
    → any (λ r. str_eq r.id c.id) cs ≡ false
    → first (keep (λ r. str_eq r.id c.id) (cs ++ c ∷ [])) ≡ some c
first-appended c [] h = rw (str_eq_refl c.id) refl
first-appended c (b ∷ cs) h = elim (Bool-cases (str_eq b.id c.id)) [
  | inl y ↦ absurd (ground arith)
  | inr n ↦ rw n (first-appended c cs (ground arith))
]

module _ (k : Cipher) (opens : Opens k) (req : ConnectionWriteRequest) (d d' : Fresh) (s : Links)
    (provided : valid req.provider ≡ true) (named : blank req.client_id ≡ false)
    (filled : blank req.client_secret ≡ false)
    (new : any (λ r. str_eq r.id d.id) s.connections ≡ false) (n n' : Str)
    (nonce : d.nonce ≡ some n) (nonce' : d'.nonce ≡ some n') where
  abbrev created : Result Connection × World Links
  created = create k req d (world s [])

  abbrev stored : Connection
  stored = new_connection k req (k.seal n req.client_secret) d

  created_by :
      created ≡ (ok stored, world (record s { connections = s.connections ++ stored ∷ [] }) [])
  unfolding create encrypt insert exec_checked call
  created_by = rw (provided, named, filled, nonce, new) refl

  abbrev updated : Result Connection × World Links
  updated = update k d.id req d' created.1

  abbrev rewritten : Connection
  rewritten = changed k req (k.seal n' (trim_space req.client_secret)) d' stored

  updated_by : updated.0 ≡ ok rewritten
  unfolding update get write query exec call encrypt
  updated_by = rw (created_by, first-appended stored s.connections new, filled, nonce') refl

  -- With a cipher that opens what it sealed and no failing call, a valid creation under a new
  -- identifier stores a secret that opens to the text of the request as it was given, and an
  -- update with the very same request stores one that opens to that text without the white space
  -- at its ends.
  pub create-update_secret :
      (created.0 ≡ ok stored)
      × (decrypt k stored.client_secret ≡ ok req.client_secret)
      × (updated.0 ≡ ok rewritten)
      × (decrypt k rewritten.client_secret ≡ ok (trim_space req.client_secret))
  create-update_secret = (
    ap (λ r. r.0) created_by,
    sealed_opens k opens stored.client_secret n req.client_secret refl,
    updated_by,
    sealed_opens k opens rewritten.client_secret n' (trim_space req.client_secret) refl,
  )

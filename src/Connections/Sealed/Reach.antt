-- ===== src/Connections/Sealed/Reach.antt =====
-- Every table that the operations on connections lead to.
use griya_maya.Base.{◌≡◌, Bool, List, keep}
use griya_maya.Text.{Str}
use griya_maya.Effect.{Outcome}
use griya_maya.Effect.Laws.{world}
use griya_maya.Connections.Table.{ConnectionWriteRequest, Links, Pending, delete}
use griya_maya.Connections.Flow.{
  Cipher, TokenEndpoint, Fresh, create, update, authorize, callback, refresh,
}

module _ (k : Cipher) where
  -- an operation on the connections, or the lapse of pending authorizations
  pub data Step (s t : Links) : Type 0 where
    creates :
        (req : ConnectionWriteRequest) (d : Fresh) (os : List Outcome)
        → t ≡ (create k req d (world s os)).1.store
        → Step s t
    updates :
        (id : Str) (req : ConnectionWriteRequest) (d : Fresh) (os : List Outcome)
        → t ≡ (update k id req d (world s os)).1.store
        → Step s t
    deletes : (id : Str) (os : List Outcome) → t ≡ (delete id (world s os)).1.store → Step s t
    authorizes :
        (id redirect : Str) (d : Fresh) (os : List Outcome)
        → t ≡ (authorize id redirect d (world s os)).1.store
        → Step s t
    returns :
        (remote : TokenEndpoint) (code state : Str) (d : Fresh) (os : List Outcome)
        → t ≡ (callback k remote code state d (world s os)).1.store
        → Step s t
    renews :
        (remote : TokenEndpoint) (id : Str) (d : Fresh) (os : List Outcome)
        → t ≡ (refresh k remote id d (world s os)).1.store
        → Step s t
    lapses : (p : Pending → Bool) → t ≡ record s { pending = keep p s.pending } → Step s t

  pub data Reach (s : Links) : Links → Type 0 where
    here : Reach s s
    next : {t u : Links} → Reach s t → Step t u → Reach s u

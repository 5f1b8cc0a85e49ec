-- ===== src/Tree/History/Ousting.antt =====
-- What `RevokeCredentialsForUser` (zkauthn/tree.go) gives on a tree with a history.
use kal_zk.Base.{
  ℕ, ◌≤◌, ◌≡◌, inl, inr, refl, ◌∙◌, false, ltb, leb, if◌then◌else◌, Bool-cases, Bytes, List, [],
  ◌∷◌, none, All, arith,
}
use kal_zk.Error.{ok}
use kal_zk.Hash.{Crypto, Lawful}
use kal_zk.Service.{Zk}
use kal_zk.Store.{Db, CredentialRow}
use kal_zk.Store.Exec.{World, query, pool, with_tx}
use kal_zk.Base.{none, some, Option-cases, ◌⊎◌}
use kal_zk.Error.{err, sql_state}
use kal_zk.Store.Credentials.{
  Uuid, invalid_text, credentials_by_user-known, credentials_by_user-malformed, live_commitment,
  next_index, mark_rows, owned_indices, mark_revoked-live, live_commitment-mark_rows,
  live_commitment-next,
}
use kal_zk.Store.Credentials.Owned.{
  holds, IsKeyed, IsDistinct, IsLiveAt, owned_indices-IsDistinct, owned_indices-IsLiveAt,
}
use kal_zk.Tree.{max_uint32, lock_tree, revoke_all, revoke_credentials_for_user}
use kal_zk.Tree.Climb.{IsReady}
use kal_zk.Tree.Invariant.{IsTree, solo, settled, unwrite-IsTree}
use kal_zk.Tree.History.{Past, Had}
use kal_zk.Tree.History.Reached.{Had-IsKept}
use kal_zk.Tree.History.Ousted.{revoke_credentials_for_user-ousts}

IsLiveAt-mark_rows :
    (now i : ℕ) (rows : List CredentialRow) (is : List ℕ)
    → holds i is ≡ false
    → All (IsLiveAt rows) is
    → All (IsLiveAt (mark_rows now i rows)) is
IsLiveAt-mark_rows now i rows [] new h = tt
IsLiveAt-mark_rows now i rows (j ∷ is) new ((raw, live), rest) = (
  (raw, live_commitment-mark_rows now i j rows ∙ ground (arith, new, live)),
  IsLiveAt-mark_rows now i rows is (ground (arith, new)) rest,
)

live-small :
    (c : Crypto) (db : Db) (i : ℕ) → IsTree c db → IsLiveAt db.credentials i → i ≤ max_uint32
live-small c db i tree (raw, live) = elim (Bool-cases (leb (next_index db.credentials) i)) [
  | inr below ↦ ground (arith, below, tree.bounded)
  | inl past ↦ cc (live, live_commitment-next i db.credentials (ground (arith, past)))
]

module _ (c : Crypto) (laws : Lawful c) (z : Zk) (ready : IsReady c z) where
  revoke_all-runs :
      (indices : List ℕ) (w : World)
      → IsTree c w.db
      → IsDistinct indices
      → All (IsLiveAt w.db.credentials) indices
      → (d : Db) × (revoke_all c z indices (solo w) ≡ (ok tt, record w { db = d; schedule = [] }))
  unfolding revoke_all query
  revoke_all-runs [] w tree distinct live = (w.db, refl)
  revoke_all-runs (i ∷ rest) w tree (new, distinct) ((raw, live), others) =
      let small = live-small c w.db i tree (raw, live) in
      let fits : ltb max_uint32 i ≡ false = ground (arith, small) in
      let (nodes, run, t) = unwrite-IsTree c laws z ready w tree i small in
      let (d, next) =
        revoke_all-runs rest (record w { db = _ }) t distinct
          (IsLiveAt-mark_rows w.now i w.db.credentials rest new others) in
      (d, rw (fits, mark_revoked-live w.now i w.db raw live, run) next)

  revoke_credentials_for_user-runs :
      (w : World) (uuid : Uuid) (user id : Bytes)
      → uuid user ≡ some id
      → IsTree c w.db
      → IsKeyed w.db.credentials
      → (w' : World) × (revoke_credentials_for_user c z uuid pool user (solo w) ≡ (ok tt, w'))
  unfolding revoke_credentials_for_user query lock_tree with_tx
  revoke_credentials_for_user-runs w uuid user id known tree keyed =
      let is = owned_indices uuid id w.db.credentials in
      let (d, run) =
        revoke_all-runs is (record w { base = w.db }) tree
          (owned_indices-IsDistinct uuid id w.db.credentials keyed)
          (owned_indices-IsLiveAt uuid id w.db.credentials) in
      (settled w d, rw (credentials_by_user-known uuid user id w.now w.db known, run) refl)

  revoke_credentials_for_user-malformed :
      (w : World) (uuid : Uuid) (user : Bytes)
      → uuid user ≡ none
      → revoke_credentials_for_user c z uuid pool user (solo w)
        ≡ (err (sql_state invalid_text), settled w w.db)
  unfolding revoke_credentials_for_user query lock_tree with_tx
  revoke_credentials_for_user-malformed w uuid user malformed =
      rw (credentials_by_user-malformed uuid user w.now w.db malformed) refl

  -- What the call has done for the user of an id.
  pub record Ousted (w : World) (uuid : Uuid) (id : Bytes) (w' : World) : Type 0 where
    pub tree : IsTree c w'.db
    pub none_left : owned_indices uuid id w'.db.credentials ≡ []
    pub others :
        (j : ℕ)
        → live_commitment j w'.db.credentials ≡ (
            if holds j (owned_indices uuid id w.db.credentials)
            then none
            else live_commitment j w.db.credentials)

  -- On a tree with a history, whose credential table has the leaf index as its key,
  -- RevokeCredentialsForUser, alone at work, either succeeds, for a user id that Postgres reads as
  -- a uuid: it keeps the tree consistent, leaves the user no live credential, and empties exactly
  -- the leaves that the user owned, every other index being live or empty as before; or it fails
  -- with SQLSTATE 22P02 and changes nothing, for an id that Postgres does not read as a uuid.
  pub revoke_credentials_for_user-outcome :
      (w : World) (past : List Past) (uuid : Uuid) (user : Bytes)
      → Had c z w past
      → IsKeyed w.db.credentials
      → ((id : Bytes) × (w' : World) × (uuid user ≡ some id)
          × (revoke_credentials_for_user c z uuid pool user (solo w) ≡ (ok tt, w'))
          × Ousted w uuid id w')
        ⊎ ((uuid user ≡ none)
            × (revoke_credentials_for_user c z uuid pool user (solo w)
                ≡ (err (sql_state invalid_text), settled w w.db)))
  revoke_credentials_for_user-outcome w past uuid user had keyed = elim (Option-cases (uuid user)) [
    | inl malformed ↦ inr (malformed, revoke_credentials_for_user-malformed w uuid user malformed)
    | inr (id, known) ↦
        let tree = (Had-IsKept c laws z ready had).tree in
        let (w', run) = revoke_credentials_for_user-runs w uuid user id known tree keyed in
        let (after, none_left, others) =
          revoke_credentials_for_user-ousts c laws z ready w w' past uuid user id had known run in
        inl (id, w', known, run, record { tree = after; none_left = none_left; others = others })
  ]

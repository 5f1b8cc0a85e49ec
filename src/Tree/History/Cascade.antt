-- ===== src/Tree/History/Cascade.antt =====
-- `RevokeCredentialsForUser` (zkauthn/tree.go): one leaf after the other, in one transaction.
use kal_zk.Base.{
  some, ℕ, ◌≡◌, inl, inr, refl, ltb, Bool-cases, Option-cases, Bytes, List, [], ◌∷◌, none, arith,
}
use kal_zk.Error.{plain, no_rows}
use kal_zk.Hash.{Crypto, Lawful}
use kal_zk.Service.{Zk}
use kal_zk.Store.Exec.{World, query, pool}
use kal_zk.Store.Credentials.{
  live_commitment, mark_rows, owned_indices, credentials_by_user-known, Uuid, mark_revoked-live,
  mark_revoked-none,
}
use kal_zk.Store.Ending.{Ends, Ends-never, Ends-pure, Ends-with_tx}
use kal_zk.Tree.{max_uint32, lock_tree, revoke_all, revoke_credentials_for_user}
use kal_zk.Tree.Shape.{set_leaf}
use kal_zk.Tree.Climb.{IsReady}
use kal_zk.Tree.Invariant.{
  solo, live_leaves, published_db, unwrite-IsTree, published_db-Publishes, live_leaves-mark_rows,
}
use kal_zk.Tree.History.{Past, mark_all, publish_all}
use kal_zk.Tree.History.Kept.{IsKept, publish-IsKept}

-- What the loop has done when it ends: the given rows are marked, and the tree is kept.
abbrev pub Cascaded : Crypto → World → List ℕ → List Past → World → Type 0
Cascaded c w indices past w' =
    (w'.schedule ≡ [])
    × (w'.db.credentials ≡ mark_all w.now indices w.db.credentials)
    × IsKept c w'.db (publish_all w.now w.db.credentials indices past)

module _ (c : Crypto) (laws : Lawful c) (z : Zk) (ready : IsReady c z) where
  revoke_all-Ends :
      (indices : List ℕ) (w : World) (past : List Past)
      → IsKept c w.db past
      → Ends (solo w) (λ a w'. Cascaded c w indices past w') (revoke_all c z indices)
  unfolding revoke_all query
  revoke_all-Ends [] w past kept = Ends-pure (solo w) _ tt (refl, refl, kept)
  revoke_all-Ends (i ∷ rest) w past kept = elim (Bool-cases (ltb max_uint32 i)) [
    | inl high ↦
        Ends-never _ _ _ (plain "zkauthn: stored leaf index exceeds depth")
          (rw (revoke_all, high) refl)
    | inr fits ↦ elim (Option-cases (live_commitment i w.db.credentials)) [
      | inl gone ↦
          Ends-never _ _ _ no_rows (rw (revoke_all, fits, mark_revoked-none w.now i w.db gone) refl)
      | inr (raw, live) ↦
          let (nodes, run, t) =
            unwrite-IsTree c laws z ready w kept.tree i (ground (arith, fits)) in
          let rows = mark_rows w.now i w.db.credentials in
          let new = set_leaf (live_leaves w.db.credentials) i none in
          let d = published_db c w rows nodes new in
          let published =
            published_db-Publishes c w rows nodes new
              (λ j. live_leaves-mark_rows c w.now i j w.db.credentials) in
          let next =
            revoke_all-Ends rest (record w { db = d }) _
              (publish-IsKept c w d past kept t published) in
          record {
            value = λ a w' e.
                next.value a w'
                  (rw (revoke_all, fits, mark_revoked-live w.now i w.db raw live, run) at e);
          }
    ]
  ]

  pub revoke_credentials_for_user-Ends :
      (w : World) (past : List Past) (uuid : Uuid) (user id : Bytes)
      → uuid user ≡ some id
      → IsKept c w.db past
      → Ends
          (solo w)
          (λ a w'.
            (w'.db.credentials
              ≡ mark_all w.now (owned_indices uuid id w.db.credentials) w.db.credentials)
            × IsKept c w'.db
                (publish_all w.now w.db.credentials (owned_indices uuid id w.db.credentials) past))
          (revoke_credentials_for_user c z uuid pool user)
  unfolding revoke_credentials_for_user query lock_tree
  revoke_credentials_for_user-Ends w past uuid user id known kept =
      let loop =
        revoke_all-Ends (owned_indices uuid id w.db.credentials) (record w { base = w.db }) past
          kept in
      Ends-with_tx _ w _ (record {
        value = λ a w' e.
            let (alone, marked, after) =
              loop.value a w' (rw (credentials_by_user-known uuid user id w.now w.db known) at e) in
            (alone, (marked, after));
      })

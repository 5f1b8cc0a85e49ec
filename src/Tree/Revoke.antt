-- ===== src/Tree/Revoke.antt =====
-- `RevokeCredential` and `RevokeCredentialsForUser` (zkauthn/tree.go) end to end.
use kal_zk.Base.{
  Bytes, some, ℕ, ◌≤◌, ◌≡◌, ◌==◌, if◌then◌else◌, none, arith, inl, inr, Option-cases, ==_self,
}
use kal_zk.Error.{ok, err, kal, invalid_input}
use kal_zk.Hash.{Crypto, Lawful}
use kal_zk.Service.{Zk}
use kal_zk.Store.{Db}
use kal_zk.Store.Exec.{World, pool, with_tx}
use kal_zk.Store.Credentials.{live_commitment, live_commitment-mark_rows, mark_rows}
use kal_zk.Tree.{revoke_credential, fetch_path, max_uint32}
use kal_zk.Tree.Climb.{IsReady}
use kal_zk.Tree.Fetch.{fetch_path-refused}
use kal_zk.Tree.Invariant.{IsTree, Publishes, solo, settled, revoke_tx-live, revoke_tx-none}

-- What a revocation of index `i` has done to the tables.
abbrev pub Revoked : Crypto → ℕ → Db → Db → Type 0
Revoked c i before after =
    IsTree c after
    × ((j : ℕ)
        → live_commitment j after.credentials
          ≡ (if i == j then none else live_commitment j before.credentials))

-- Revoking a live credential publishes the root of the leaves that are left.
pub revoke_credential-Publishes :
    (c : Crypto) (laws : Lawful c) (z : Zk) (ready : IsReady c z) (w : World) (tree : IsTree c w.db)
    (i : ℕ) (raw : Bytes)
    → i ≤ max_uint32
    → live_commitment i w.db.credentials ≡ some raw
    → (d : Db) × (revoke_credential c z pool i (solo w) ≡ (ok tt, settled w d))
      × IsTree c d
      × (d.credentials ≡ mark_rows w.now i w.db.credentials)
      × Publishes c w d
unfolding revoke_credential with_tx
revoke_credential-Publishes c laws z ready w tree i raw small live =
    let begun = record w { base = w.db } in
    let (d, run, t, rows, published) = revoke_tx-live c laws z ready begun tree i raw small live in
    (d, rw run, t, rows, published)

-- Revoking any index succeeds on a consistent tree: the tree stays consistent, the leaf is gone and
-- every other leaf is live as before.
pub revoke_credential-Revoked :
    (c : Crypto) (laws : Lawful c) (z : Zk) (ready : IsReady c z) (w : World) (tree : IsTree c w.db)
    (i : ℕ)
    → i ≤ max_uint32
    → (d : Db) × (revoke_credential c z pool i (solo w) ≡ (ok tt, settled w d)) × Revoked c i w.db d
unfolding revoke_credential with_tx
revoke_credential-Revoked c laws z ready w tree i small =
    let old = w.db.credentials in
    elim (Option-cases (live_commitment i old)) [
      | inl gone ↦ (
        w.db,
        rw (revoke_tx-none c laws z ready (record w { base = w.db }) tree i gone),
        (tree, λ j. ground (arith, gone)),
      )
      | inr (raw, live) ↦
          let (d, run, t, rows, _) =
            revoke_credential-Publishes c laws z ready w tree i raw small live in
          (d, run, (t, λ j. rw rows (live_commitment-mark_rows w.now i j old)))
    ]

-- A revoked credential gets no path any more.
pub fetch_path-revoked :
    (c : Crypto) (laws : Lawful c) (z : Zk) (ready : IsReady c z) (w : World) (tree : IsTree c w.db)
    (i : ℕ)
    → i ≤ max_uint32
    → (fetch_path c z pool i (revoke_credential c z pool i (solo w)).1).0 ≡ err (kal invalid_input)
fetch_path-revoked c laws z ready w tree i small =
    let (d, run, (t, live)) = revoke_credential-Revoked c laws z ready w tree i small in
    let after = settled w d in rw (run, fetch_path-refused c z after i (rw (live i, ==_self i)))

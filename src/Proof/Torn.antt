-- ===== src/Proof/Torn.antt =====
-- What `Path` (zkauthn/tree.go) hands out when a root is republished during its walk, seen by the
-- oracle of zkauthn/proof.go.
use kal_zk.Base.{ℕ, ◌≤◌, ◌<◌, ◌≡◌, refl, ◌≢◌, [], ◌∷◌, none, some, false, arith}
use kal_zk.Error.{ok}
use kal_zk.Hash.{Field, Crypto, Lawful, field_bytes}
use kal_zk.Hash.Encoding.{native_hash-ok}
use kal_zk.Service.{Zk}
use kal_zk.Store.{Db, CredentialRow}
use kal_zk.Store.Exec.{World, quiet, pool}
use kal_zk.Store.Credentials.{find_credential}
use kal_zk.Tree.{Credential, MerklePath, fetch_path, max_uint32}
use kal_zk.Tree.Shape.{Leaves, tree_root}
use kal_zk.Tree.Climb.{IsReady}
use kal_zk.Tree.Paths.{sibling_hashes}
use kal_zk.Tree.Torn.{walk, fetch_path-torn}
use kal_zk.Tree.Invariant.{IsTree, live_leaves}
use kal_zk.Proof.{
  MembershipWitness, membership_witness_for, membership_valid, nullifier_valid, root_valid,
}
use kal_zk.Proof.Completeness.{fold_path-root}

module _ (c : Crypto) (laws : Lawful c) (leaves : Leaves) where
  -- The path of a leaf is refused under any other root than that of its tree.
  pub membership_valid-other_root :
      (w : MembershipWitness) (f : Field)
      → leaves w.index ≡ some f
      → f < c.modulus
      → w.index ≤ max_uint32
      → w.path ≡ f ∷ sibling_hashes c leaves 32 0 w.index
      → w.root ≢ tree_root c leaves
      → membership_valid c w ≡ false
  unfolding membership_valid nullifier_valid root_valid
  membership_valid-other_root w f e lt small path other = ground (
    arith,
    native_hash-ok c laws (f ∷ []) (lt, tt),
    fold_path-root c laws leaves w.index f small e,
    path,
    other,
  )

-- Equal reads of the root before and after the walk do not make the path a snapshot: if another
-- transaction changes the tree after the first read and a second one brings the root back before
-- the last, the call succeeds, and no credential has a valid proof with the path that it returns.
pub fetch_path-torn_useless :
    (c : Crypto) (laws : Lawful c) (z : Zk) (ready : IsReady c z) (w : World) (g g' : Db → Db)
    (i : ℕ) (row : CredentialRow) (f : Field)
    → IsTree c w.db
    → IsTree c (g w.db)
    → IsTree c (g' (g w.db))
    → tree_root c (live_leaves (g' (g w.db)).credentials)
      ≡ tree_root c (live_leaves w.db.credentials)
    → tree_root c (live_leaves w.db.credentials) ≢ tree_root c (live_leaves (g w.db).credentials)
    → i ≤ max_uint32
    → find_credential i w.db.credentials ≡ some row
    → row.revoked_at ≡ none
    → row.commitment ≡ field_bytes f
    → f < c.modulus
    → live_leaves (g w.db).credentials i ≡ some f
    → (path : MerklePath) × ((fetch_path c z pool i (record w { schedule = quiet ∷ walk g g' })).0
        ≡ ok path)
      × ((credential : Credential) (audience nullifier challenge : Field) (threshold : ℕ)
          → membership_valid c
              (membership_witness_for credential path audience threshold nullifier challenge)
            ≡ false)
unfolding membership_witness_for
fetch_path-torn_useless c laws z ready w g g' i row f t₀ t₁ t₂ back other small found live raw lt
      still =
    (
      _,
      fetch_path-torn c laws z ready w g g' i row f t₀ t₁ t₂ back found live raw lt,
      λ credential audience nullifier challenge threshold.
          membership_valid-other_root c laws (live_leaves (g w.db).credentials) _ f still lt small
            refl other,
    )

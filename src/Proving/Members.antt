-- ===== src/Proving/Members.antt =====
-- A member's way through zkauthn/tree.go and zkauthn/proof.go: the path that Path returns, the witness,
-- the proof, and its verification.
use mathlib.Core.Option
use kal_zk.Base.{
  ℕ, zero, suc, ◌/◌, ◌≤◌, ◌<◌, ◌≡◌, refl, ap, List, length, All, arith, Bytes, none, some, be_value,
}
use kal_zk.Error.{ok}
use kal_zk.Hash.{Field, Crypto, Lawful}
use kal_zk.Hash.Commitments.{IsSecret, leaf_commitment, pseudonym}
use kal_zk.Service.{Zk, circuit_membership}
use kal_zk.Store.{CredentialRow}
use kal_zk.Store.Exec.{World, pool}
use kal_zk.Store.Credentials.{find_credential, live_commitment_of_find}
use kal_zk.Tree.{Credential, MerklePath, fetch_path, max_uint32, xor_one}
use kal_zk.Tree.Shape.{tree_root, Leaves, subtree-lt}
use kal_zk.Tree.Paths.{sibling_hashes}
use kal_zk.Tree.Climb.{IsReady}
use kal_zk.Tree.Invariant.{IsTree, live_leaves, solo}
use kal_zk.Tree.Fetch.{tree_path, fetch_path-live}
use kal_zk.Proof.{membership_witness_for}
use kal_zk.Proof.Issued.{tree_path-Proves}
use kal_zk.Circuit.{Gadgets, LawfulGadgets, max_uint64}
use kal_zk.Circuit.Agreement.{IsTyped}
use kal_zk.Keys.{ConstraintSystem, Groth16}
use kal_zk.Protocol.Interface.{Outside}
use kal_zk.Proving.{Prover, prove_membership, verify_membership_proof}
use kal_zk.Proving.Complete.{CompleteGroth16, prove_membership-verify}

pub length-sibling_hashes :
    (c : Crypto) (leaves : Leaves) (k l p : ℕ) → length (sibling_hashes c leaves k l p) ≡ k
unfolding sibling_hashes
length-sibling_hashes c leaves zero l p = refl
length-sibling_hashes c leaves (suc k) l p =
    ap suc (length-sibling_hashes c leaves k (suc l) (p / 2))

sibling_hashes-lt :
    (c : Crypto) (laws : Lawful c) (leaves : Leaves) (k l p : ℕ)
    → All (λ s. s < c.modulus) (sibling_hashes c leaves k l p)
unfolding sibling_hashes
sibling_hashes-lt c laws leaves zero l p = tt
sibling_hashes-lt c laws leaves (suc k) l p =
    (subtree-lt c laws leaves l (xor_one p), sibling_hashes-lt c laws leaves k (suc l) (p / 2))

pub tree_path-IsTyped :
    (c : Crypto) (laws : Lawful c) (rows : List CredentialRow) (credential : Credential)
    (audience : Field) (threshold : ℕ) (nullifier challenge leaf : Field)
    → IsSecret credential.secret
    → credential.attribute ≤ max_uint64
    → threshold ≤ credential.attribute
    → credential.leaf_index ≤ max_uint32
    → leaf < c.modulus
    → audience < c.modulus
    → IsTyped c (
        membership_witness_for credential
          (tree_path c rows credential.leaf_index leaf)
          audience
          threshold
          nullifier
          challenge)
unfolding membership_witness_for
tree_path-IsTyped c laws rows credential audience threshold nullifier challenge leaf secret
      attribute order index small a =
    let i = credential.leaf_index in
    record {
      leaf = leaf;
      siblings = sibling_hashes c (live_leaves rows) 32 0 i;
      secret = secret;
      attribute = attribute;
      threshold = omega (arith, order, attribute);
      index = omega (arith, index);
      path = refl;
      length_siblings = length-sibling_hashes c (live_leaves rows) 32 0 i;
      canonical_leaf = small;
      canonical_siblings = sibling_hashes-lt c laws (live_leaves rows) 32 0 i;
      audience = a;
    }

module _ (c : Crypto) (laws : Lawful c) (g : Gadgets) (gnark : LawfulGadgets c g) (k : Groth16)
    (pr : Prover) (o : Outside) (complete : CompleteGroth16 c g k pr o) where
  -- The path that is fetched proves and verifies.
  pub tree_path-verify :
      (z : Zk) (ready : IsReady c z) (w : World) (tree : IsTree c w.db) (credential : Credential)
      (row : CredentialRow) (ccs : ConstraintSystem) (pk vk : Bytes) (audience : Field)
      (threshold challenge : ℕ)
      → IsSecret credential.secret
      → credential.attribute ≤ max_uint64
      → credential.leaf_index ≤ max_uint32
      → find_credential credential.leaf_index w.db.credentials ≡ some row
      → row.revoked_at ≡ none
      → be_value row.commitment ≡ leaf_commitment c credential.secret credential.attribute
      → k.compile_membership ≡ ok ccs
      → k.setup ccs ≡ ok (pk, vk)
      → audience < c.modulus
      → threshold ≤ credential.attribute
      → (f : Field) × (raw : Bytes) × ((fetch_path c z pool credential.leaf_index (solo w)).0
          ≡ ok (tree_path c w.db.credentials credential.leaf_index f))
        × (prove_membership pr
              (some (record { circuit = circuit_membership; ccs = ccs; key = pk }))
              (membership_witness_for credential
                (tree_path c w.db.credentials credential.leaf_index f)
                audience
                threshold
                (pseudonym c credential.secret audience)
                challenge)
            ≡ ok raw)
        × (verify_membership_proof o
              (some (record { circuit = circuit_membership; key = some vk }))
              raw
              (record {
                root = tree_root c (live_leaves w.db.credentials);
                audience = audience;
                nullifier = pseudonym c credential.secret audience;
                challenge = challenge;
                threshold = threshold;
              })
            ≡ ok tt)
  unfolding membership_witness_for
  tree_path-verify z ready w tree credential row ccs pk vk audience threshold challenge hs attribute
        small found live same compiled keys a t =
      let i = credential.leaf_index in
      let nullifier = pseudonym c credential.secret audience in
      let (f, e, run) = fetch_path-live c laws z ready w tree i row found live in
      let leaf =
        ap (Option.map be_value) (live_commitment_of_find i w.db.credentials row found live) in
      let f_e : f ≡ leaf_commitment c credential.secret credential.attribute = cc (e, leaf, same) in
      let path = tree_path c w.db.credentials i f in
      let typed =
        tree_path-IsTyped c laws w.db.credentials credential audience threshold nullifier challenge
          f hs attribute t small (rw f_e (laws.mimc_sum-lt _)) a in
      let valid =
        tree_path-Proves c laws z ready w tree credential f hs small e f_e audience threshold
          challenge a t in
      let (raw, proved, verified) =
        prove_membership-verify c laws g gnark k pr o complete ccs pk vk
          (membership_witness_for credential path audience threshold nullifier challenge) compiled
          keys typed valid in
      (f, raw, rw run refl, proved, verified)

  -- On every consistent tree, a member whose credential is stored under its commitment and not
  -- revoked fetches a path with which, under the keys of one ceremony for the membership circuit,
  -- every threshold that the 64-bit attribute reaches is proved for every canonical audience and
  -- every challenge, and VerifyMembership accepts that proof under the root of the path and the
  -- member's pseudonym for the audience.
  pub fetch_path-verify :
      (z : Zk) (ready : IsReady c z) (w : World) (tree : IsTree c w.db) (credential : Credential)
      (row : CredentialRow) (ccs : ConstraintSystem) (pk vk : Bytes) (audience : Field)
      (threshold challenge : ℕ)
      → IsSecret credential.secret
      → credential.attribute ≤ max_uint64
      → credential.leaf_index ≤ max_uint32
      → find_credential credential.leaf_index w.db.credentials ≡ some row
      → row.revoked_at ≡ none
      → be_value row.commitment ≡ leaf_commitment c credential.secret credential.attribute
      → k.compile_membership ≡ ok ccs
      → k.setup ccs ≡ ok (pk, vk)
      → audience < c.modulus
      → threshold ≤ credential.attribute
      → (path : MerklePath) × (raw : Bytes) × ((fetch_path c z pool credential.leaf_index
            (solo w)).0
          ≡ ok path)
        × (prove_membership pr
              (some (record { circuit = circuit_membership; ccs = ccs; key = pk }))
              (membership_witness_for credential path audience threshold
                (pseudonym c credential.secret audience)
                challenge)
            ≡ ok raw)
        × (verify_membership_proof o
              (some (record { circuit = circuit_membership; key = some vk }))
              raw
              (record {
                root = path.root;
                audience = audience;
                nullifier = pseudonym c credential.secret audience;
                challenge = challenge;
                threshold = threshold;
              })
            ≡ ok tt)
  fetch_path-verify z ready w tree credential row ccs pk vk audience threshold challenge hs
        attribute small found live same compiled keys a t =
      let (f, raw, run, proved, verified) =
        tree_path-verify z ready w tree credential row ccs pk vk audience threshold challenge hs
          attribute small found live same compiled keys a t in
      (tree_path c w.db.credentials credential.leaf_index f, raw, run, proved, verified)

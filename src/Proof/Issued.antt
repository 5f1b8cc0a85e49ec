-- ===== src/Proof/Issued.antt =====
-- From the operations of zkauthn/tree.go to the oracle of zkauthn/proof.go: what an operator issues
-- and what a member fetches proves membership.
use mathlib.Core.Option
use kal_zk.Base.{
  ℕ, ◌≤◌, ◌<◌, ◌≡◌, Bytes, List, Option, none, some, true, ap, ◌∙◌, ==_self, be_value,
}
use kal_zk.Error.{Error, ok}
use kal_zk.Hash.{Field, Secret, Crypto, Lawful}
use kal_zk.Hash.Commitments.{IsSecret, leaf_commitment, pseudonym}
use kal_zk.Hash.Entropy.{draw, entropy_attempts}
use kal_zk.Service.{Zk}
use kal_zk.Store.{CredentialRow}
use kal_zk.Store.Exec.{World, pool}
use kal_zk.Store.Credentials.{Verdict, next_index, find_credential, live_commitment_of_find}
use kal_zk.Tree.{Credential, MerklePath, issue_credential, fetch_path, max_uint32}
use kal_zk.Tree.Shape.{set_leaf}
use kal_zk.Tree.Climb.{IsReady}
use kal_zk.Tree.Issue.{new_row, issued, issue_credential-IsTree}
use kal_zk.Tree.Fetch.{tree_path, fetch_path-live}
use kal_zk.Tree.Invariant.{IsTree, live_leaves, solo}
use kal_zk.Proof.{membership_witness_for, membership_valid}
use kal_zk.Proof.Completeness.{membership_valid-intro}

-- A credential with a path proves membership: for every audience and every challenge, and for every
-- threshold that its attribute reaches.
abbrev pub Proves : Crypto → Credential → MerklePath → Type 0
Proves c credential path =
    (audience : Field) (threshold challenge : ℕ)
    → audience < c.modulus
    → threshold ≤ credential.attribute
    → membership_valid c (
        membership_witness_for credential path audience threshold
          (pseudonym c credential.secret audience) challenge)
      ≡ true

-- The credential that an authorized issuance returns, on a consistent tree that is not full and
-- with a 31-byte secret and a row that the constraints accept, proves membership with its own path.
pub issue_credential-Proves :
    (c : Crypto) (laws : Lawful c) (z : Zk) (ready : IsReady c z) (w : World) (tree : IsTree c w.db)
    (verdict : Verdict) (to : Bytes) (secret : Secret) (attribute : ℕ)
    (authorize : Bytes → ℕ → Option Error) (reads : List (Option Bytes))
    → z.authorize_issue ≡ some authorize
    → authorize to attribute ≡ none
    → draw entropy_attempts w.entropy ≡ (ok secret, reads)
    → IsSecret secret
    → next_index w.db.credentials ≤ max_uint32
    → verdict w.db (new_row (next_index w.db.credentials) (leaf_commitment c secret attribute) to)
      ≡ none
    → (credential : Credential) × ((issue_credential c z pool verdict to attribute (solo w)).0
        ≡ ok credential)
      × Proves c credential credential.path
unfolding membership_witness_for
issue_credential-Proves c laws z ready w tree verdict to secret attribute authorize reads has allows
      drawn hs small accepted =
    let (d, run, t, rows) =
      issue_credential-IsTree c laws z ready w tree verdict to secret attribute authorize reads has
        allows drawn hs small accepted in
    let next = next_index w.db.credentials in
    let leaf = leaf_commitment c secret attribute in
    let leaves = set_leaf (live_leaves w.db.credentials) next (some leaf) in
    (
      issued c w.db.credentials secret attribute,
      rw run,
      λ audience threshold challenge a t.
          membership_valid-intro c laws leaves secret attribute next threshold challenge audience hs
            small (rw (==_self next)) a t,
    )

pub tree_path-Proves :
    (c : Crypto) (laws : Lawful c) (z : Zk) (ready : IsReady c z) (w : World) (tree : IsTree c w.db)
    (credential : Credential) (f : Field)
    → IsSecret credential.secret
    → credential.leaf_index ≤ max_uint32
    → live_leaves w.db.credentials credential.leaf_index ≡ some f
    → f ≡ leaf_commitment c credential.secret credential.attribute
    → Proves c credential (tree_path c w.db.credentials credential.leaf_index f)
unfolding membership_witness_for
tree_path-Proves c laws z ready w tree credential f hs small e same audience threshold challenge a
      t =
    rw same (
      membership_valid-intro c laws (live_leaves w.db.credentials) credential.secret
        credential.attribute credential.leaf_index threshold challenge audience hs small
        (e ∙ ap some same) a t)

-- The path that a member fetches for a credential which is stored under its commitment and
-- not revoked proves membership, on every consistent tree.
pub fetch_path-Proves :
    (c : Crypto) (laws : Lawful c) (z : Zk) (ready : IsReady c z) (w : World) (tree : IsTree c w.db)
    (credential : Credential) (row : CredentialRow)
    → IsSecret credential.secret
    → credential.leaf_index ≤ max_uint32
    → find_credential credential.leaf_index w.db.credentials ≡ some row
    → row.revoked_at ≡ none
    → be_value row.commitment ≡ leaf_commitment c credential.secret credential.attribute
    → (path : MerklePath) × ((fetch_path c z pool credential.leaf_index (solo w)).0 ≡ ok path)
      × Proves c credential path
fetch_path-Proves c laws z ready w tree credential row hs small found live same =
    let i = credential.leaf_index in
    let (f, e, run) = fetch_path-live c laws z ready w tree i row found live in
    let leaf =
      ap (Option.map be_value) (live_commitment_of_find i w.db.credentials row found live) in
    (
      tree_path c w.db.credentials i f,
      rw run,
      tree_path-Proves c laws z ready w tree credential f hs small e (cc (e, leaf, same)),
    )

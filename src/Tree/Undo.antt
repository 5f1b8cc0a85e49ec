-- ===== src/Tree/Undo.antt =====
-- Issuing a credential and revoking it again (zkauthn/tree.go) brings the old tree back.
use mathlib.Core.Option
use kal_zk.Base.{
  ℕ, ◌≤◌, ◌<◌, ◌≡◌, Bytes, List, ◌∷◌, Option, none, some, ap, ◌∙◌, ◌==◌, if◌then◌else◌, arith,
  be_value,
}
use kal_zk.Error.{Error, ok}
use kal_zk.Hash.{Field, Secret, Crypto, Lawful}
use kal_zk.Hash.Commitments.{IsSecret, leaf_commitment}
use kal_zk.Hash.Entropy.{draw, entropy_attempts}
use kal_zk.Service.{Zk}
use kal_zk.Store.{CredentialRow}
use kal_zk.Store.Exec.{World, pool}
use kal_zk.Store.Nodes.{find_node}
use kal_zk.Store.Credentials.{Verdict, next_index, live_commitment, live_commitment-next}
use kal_zk.Tree.{issue_credential, revoke_credential, current_root, max_uint32}
use kal_zk.Tree.Shape.{tree_root, subtree_ext}
use kal_zk.Tree.Climb.{IsReady}
use kal_zk.Tree.Issue.{new_row, issue_credential-IsTree}
use kal_zk.Tree.Fetch.{current_root-IsTree}
use kal_zk.Tree.Revoke.{revoke_credential-Revoked}
use kal_zk.Tree.Invariant.{IsTree, live_leaves, solo, settled}

-- The node rows and the root of two databases are the same.
abbrev pub SameTree : Crypto → Zk → World → World → Type 0
SameTree c z v w =
    ((l p : ℕ) → l < 32 → find_node l p v.db.nodes ≡ find_node l p w.db.nodes)
    × ((current_root c z (solo v)).0 ≡ (current_root c z (solo w)).0)

-- Consistent tables with the same live commitments hold the same tree.
SameTree-of_live :
    (c : Crypto) (laws : Lawful c) (z : Zk) (ready : IsReady c z) (v w : World)
    → IsTree c v.db
    → IsTree c w.db
    → ((i : ℕ) → live_commitment i v.db.credentials ≡ live_commitment i w.db.credentials)
    → SameTree c z v w
unfolding tree_root
SameTree-of_live c laws z ready v w tv tw same =
    let leaves = λ (i : ℕ). ap (Option.map be_value) (same i) in
    let trees =
      subtree_ext c (live_leaves v.db.credentials) (live_leaves w.db.credentials) leaves in
    (
      λ l p h. rw (tv.nodes l p h, tw.nodes l p h, trees l p),
      rw (
        current_root-IsTree c laws z ready v tv,
        current_root-IsTree c laws z ready w tw,
        trees 32 0,
      ),
    )

live_commitment-undo :
    (rows : List CredentialRow) (leaf : Field) (to : Bytes) (j : ℕ)
    → (if next_index rows == j
        then none
        else live_commitment j (new_row (next_index rows) leaf to ∷ rows))
      ≡ live_commitment j rows
unfolding live_commitment
live_commitment-undo rows leaf to j = ground (arith, live_commitment-next j rows)

-- Revoking the credential that was just issued restores every stored node and the current root: no
-- trace of the leaf is left in the tree.
pub revoke-issue :
    (c : Crypto) (laws : Lawful c) (z : Zk) (ready : IsReady c z) (w : World) (tree : IsTree c w.db)
    (verdict : Verdict) (to : Bytes) (secret : Secret) (attribute : ℕ)
    (authorize : Bytes → ℕ → Option Error) (reads : List (Option Bytes))
    → z.authorize_issue ≡ some authorize
    → authorize to attribute ≡ none
    → draw entropy_attempts w.entropy ≡ (ok secret, reads)
    → IsSecret secret
    → next_index w.db.credentials ≤ max_uint32
    → verdict w.db (new_row (next_index w.db.credentials) (leaf_commitment c secret attribute) to)
      ≡ none
    → let (_, issued) = issue_credential c z pool verdict to attribute (solo w) in
      let (_, revoked) = revoke_credential c z pool (next_index w.db.credentials) issued in
      SameTree c z revoked w
revoke-issue c laws z ready w tree verdict to secret attribute authorize reads has allows drawn hs
      small accepted =
    let i = next_index w.db.credentials in
    let (d, run, t, rows) =
      issue_credential-IsTree c laws z ready w tree verdict to secret attribute authorize reads has
        allows drawn hs small accepted in
    let issued = record (settled w d) { entropy = reads } in
    let (d', run', (t', live)) = revoke_credential-Revoked c laws z ready issued t i small in
    rw (run, run')
      (SameTree-of_live c laws z ready (settled issued d') w t' tree (λ j.
        live j
        ∙ rw rows
            (live_commitment-undo w.db.credentials (leaf_commitment c secret attribute) to j)))

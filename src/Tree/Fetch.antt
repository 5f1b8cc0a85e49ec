-- ===== src/Tree/Fetch.antt =====
-- `Path` (zkauthn/tree.go): what it returns on a database that nobody else writes.
use mathlib.Core.Option
use kal_zk.Base.{
  ℕ, suc, ◌<◌, ◌≡◌, ap, List, ◌∷◌, ==_self, none, some, arith, be_value, inl, inr, ◌∙◌,
  Option-cases,
}
use kal_zk.Error.{ok, err, kal, invalid_input}
use kal_zk.Hash.{Field, Crypto, Lawful, field_bytes}
use kal_zk.Hash.Encoding.{parse_field-field_bytes, be_value-field_bytes}
use kal_zk.Service.{Zk}
use kal_zk.Store.{CredentialRow}
use kal_zk.Store.Exec.{World, query, pool, with_tx}
use kal_zk.Store.Roots.{one, current_root_row}
use kal_zk.Store.Credentials.{
  find_credential, live_commitment, live_commitment_of_find, credential_by_index-some,
  credential_by_index-none,
}
use kal_zk.Tree.{current_root, snapshot, path_tx, fetch_path, MerklePath}
use kal_zk.Tree.Shape.{Leaves, tree_root, subtree-lt}
use kal_zk.Tree.Climb.{IsReady}
use kal_zk.Tree.Paths.{sibling_hashes, path_of-Stores}
use kal_zk.Tree.Invariant.{live_leaves, IsTree, IsRooted, solo, settled}

pub tree_root-lt : (c : Crypto) → Lawful c → (leaves : Leaves) → tree_root c leaves < c.modulus
unfolding tree_root
tree_root-lt c laws leaves = subtree-lt c laws leaves 32 0

-- The path of a leaf in the tree of the given credentials.
abbrev pub tree_path : Crypto → List CredentialRow → ℕ → Field → MerklePath
tree_path c rows i commitment = record {
  root = tree_root c (live_leaves rows);
  path = commitment ∷ sibling_hashes c (live_leaves rows) 32 0 i;
  index = i;
}

module _ (c : Crypto) (laws : Lawful c) (z : Zk) (ready : IsReady c z) (w : World)
    (tree : IsTree c w.db) where
  abbrev leaves : Leaves
  leaves = live_leaves w.db.credentials

  current_root-rooted :
      IsRooted c w.db → current_root c z (solo w) ≡ (ok (tree_root c leaves), solo w)
  unfolding current_root query current_root_row one
  current_root-rooted (inl e) =
      rw (e, parse_field-field_bytes c laws (tree_root c leaves) (tree_root-lt c laws leaves))
  current_root-rooted (inr (e, empty)) = rw (e, empty, ready 32 (omega arith))

  -- The current root that is read is the root of the tree of the live credentials.
  pub current_root-IsTree : current_root c z (solo w) ≡ (ok (tree_root c leaves), solo w)
  current_root-IsTree = current_root-rooted tree.root

  snapshot-IsTree :
      (k i : ℕ) (commitment : Field)
      → snapshot c z (suc k) i commitment (solo w)
        ≡ (ok (tree_path c w.db.credentials i commitment), solo w)
  unfolding snapshot
  snapshot-IsTree k i commitment = rw (
    current_root-IsTree,
    path_of-Stores c laws z ready w leaves w.db.nodes i commitment (tree_root c leaves) tree.nodes,
    current_root-IsTree,
    ==_self (tree_root c leaves),
  )

  path_tx-live :
      (i : ℕ) (commitment : Field) (r : CredentialRow)
      → find_credential i w.db.credentials ≡ some r
      → r.revoked_at ≡ none
      → r.commitment ≡ field_bytes commitment
      → commitment < c.modulus
      → path_tx c z i (solo w) ≡ (ok (tree_path c w.db.credentials i commitment), solo w)
  unfolding path_tx query
  path_tx-live i commitment r e live raw small = rw (
    credential_by_index-some w.now i w.db r e,
    live,
    raw,
    parse_field-field_bytes c laws commitment small,
    snapshot-IsTree 1 i commitment,
  )

-- An active credential gets the path of its leaf in the current tree, under the current root, and
-- the call writes nothing.
pub fetch_path-live :
    (c : Crypto) (laws : Lawful c) (z : Zk) (ready : IsReady c z) (w : World) (tree : IsTree c w.db)
    (i : ℕ) (r : CredentialRow)
    → find_credential i w.db.credentials ≡ some r
    → r.revoked_at ≡ none
    → (commitment : Field) × (live_leaves w.db.credentials i ≡ some commitment)
      × (fetch_path c z pool i (solo w)
          ≡ (ok (tree_path c w.db.credentials i commitment), settled w w.db))
unfolding fetch_path with_tx
fetch_path-live c laws z ready w tree i r e live =
    let found = live_commitment_of_find i w.db.credentials r e live in
    let (f, raw, small) = tree.canonical i r.commitment found in
    let begun = record w { base = w.db } in
    (
      f,
      ap (Option.map be_value) found
          ∙ ap (λ x. some (be_value x)) raw
          ∙ ap some (be_value-field_bytes c laws f small),
      rw (path_tx-live c laws z ready begun tree i f r e live raw small),
    )

-- An index that was never issued, and a revoked one, get no path, whatever the state of the tree.
pub fetch_path-refused :
    (c : Crypto) (z : Zk) (w : World) (i : ℕ)
    → live_commitment i w.db.credentials ≡ none
    → fetch_path c z pool i (solo w) ≡ (err (kal invalid_input), settled w w.db)
unfolding fetch_path with_tx path_tx query
fetch_path-refused c z w i gone = elim (Option-cases (find_credential i w.db.credentials)) [
  | inl missing ↦ rw (credential_by_index-none w.now i w.db missing)
  | inr (r, e) ↦ elim (Option-cases r.revoked_at) [
    | inl live ↦ cc (gone, live_commitment_of_find i w.db.credentials r e live)
    | inr (t, revoked) ↦ rw (credential_by_index-some w.now i w.db r e, revoked)
  ]
]

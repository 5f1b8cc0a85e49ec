-- ===== src/Tree/Issue.antt =====
-- `IssueCredential` (zkauthn/tree.go) end to end: the credential that it returns proves membership.
use kal_zk.Base.{
  ℕ, ◌+◌, ◌≤◌, ◌<◌, ◌≡◌, refl, ltb, ◌==◌, Bytes, List, [], ◌∷◌, false, Option, none, some, arith,
  Bool-cases, inl, inr,
}
use kal_zk.Error.{Error, ok}
use kal_zk.Hash.{Field, Secret, Crypto, Lawful, field_bytes}
use kal_zk.Hash.Commitments.{IsSecret, leaf_commitment, membership_leaf-ok}
use kal_zk.Hash.Encoding.{be_value-field_bytes}
use kal_zk.Hash.Entropy.{draw, entropy_attempts, generate_secret}
use kal_zk.Service.{Zk}
use kal_zk.Store.{Db, CredentialRow}
use kal_zk.Store.Exec.{World, pure, query, pool, with_tx}
use kal_zk.Store.Credentials.{
  Verdict, null_if_empty, live_commitment, next_index, next_leaf, insert_credential-ok,
}
use kal_zk.Tree.{Credential, lock_tree, issue_tx, authorized, issue_credential, max_uint32}
use kal_zk.Tree.Shape.{Leaves, set_leaf, tree_root}
use kal_zk.Tree.Climb.{IsReady}
use kal_zk.Tree.Write.{write_leaf-Stores, published}
use kal_zk.Tree.Paths.{sibling_hashes, path_of-Stores}
use kal_zk.Tree.Invariant.{
  Publishes, published_db-Publishes, live_leaves, IsTree, solo, settled, published_db,
  published-IsTree, IsCanonical,
}

-- The row of a new credential.
abbrev pub new_row : ℕ → Field → Bytes → CredentialRow
new_row index commitment issued_to = record {
  leaf_index = index;
  commitment = field_bytes commitment;
  issued_to = null_if_empty issued_to;
  revoked_at = none;
}

-- The credential of the new leaf, with its path in the tree that it joins.
abbrev pub issued : Crypto → List CredentialRow → Secret → ℕ → Credential
issued c rows secret attribute =
    let i = next_index rows in
    let leaf = leaf_commitment c secret attribute in
    let leaves = set_leaf (live_leaves rows) i (some leaf) in
    record {
      secret = secret;
      attribute = attribute;
      leaf_index = i;
      path = record {
        root = tree_root c leaves;
        path = leaf ∷ sibling_hashes c leaves 32 0 i;
        index = i;
      };
    }

module _ (c : Crypto) (laws : Lawful c) (rows : List CredentialRow) (commitment : Field)
    (to : Bytes) where
  abbrev row : CredentialRow
  row = new_row (next_index rows) commitment to

  live_leaves-new_row :
      commitment < c.modulus
      → (i : ℕ)
      → set_leaf (live_leaves rows) (next_index rows) (some commitment) i
        ≡ live_leaves (row ∷ rows) i
  unfolding live_commitment
  live_leaves-new_row h i = ground (arith, be_value-field_bytes c laws commitment h)

  IsCanonical-new_row : commitment < c.modulus → IsCanonical c rows → IsCanonical c (row ∷ rows)
  unfolding live_commitment
  IsCanonical-new_row h canonical i raw e = elim (Bool-cases (next_index rows == i)) [
    | inl here ↦ (commitment, ground arith, h)
    | inr there ↦ canonical i raw (rw there at e)
  ]

  next_index-new_row : next_index (row ∷ rows) ≡ next_index rows + 1
  unfolding next_index
  next_index-new_row = ground arith

module _ (c : Crypto) (laws : Lawful c) (z : Zk) (ready : IsReady c z) (w : World)
    (tree : IsTree c w.db) (verdict : Verdict) (to : Bytes) (secret : Secret) (attribute : ℕ) where
  abbrev next : ℕ
  next = next_index w.db.credentials

  abbrev leaf : Field
  leaf = leaf_commitment c secret attribute

  abbrev new_leaves : Leaves
  new_leaves = set_leaf (live_leaves w.db.credentials) next (some leaf)

  abbrev cred : Credential
  cred = issued c w.db.credentials secret attribute

  issue_tx-IsTree :
      next ≤ max_uint32
      → verdict w.db (new_row next leaf to) ≡ none
      → (d : Db) × (issue_tx c z verdict to secret attribute leaf (solo w)
          ≡ (ok cred, record w { db = d; schedule = [] }))
        × IsTree c d
        × (d.credentials ≡ new_row next leaf to ∷ w.db.credentials)
        × Publishes c w d
  unfolding issue_tx query lock_tree next_leaf
  issue_tx-IsTree small accepted =
      let fits : ltb max_uint32 next ≡ false = ground arith in
      let old = w.db.credentials in
      let row = new_row next leaf to in
      let stored = record w { db = record w.db { credentials = row ∷ old } } in
      let lt = laws.mimc_sum-lt _ in
      let (nodes, run, s) =
        write_leaf-Stores c laws z ready stored (live_leaves old) next leaf false w.db.nodes small
          lt tree.nodes in
      let found =
        path_of-Stores c laws z ready (published c stored nodes (tree_root c new_leaves)) new_leaves
          nodes next leaf (tree_root c new_leaves) s in
      (
        published_db c w (row ∷ old) nodes new_leaves,
        rw
            (
              fits,
              insert_credential-ok verdict w.now next (field_bytes leaf) to w.db accepted,
              run,
              found,
            )
            refl,
        published-IsTree c w (row ∷ old) nodes new_leaves
            (live_leaves-new_row c laws old leaf to lt) s
            (IsCanonical-new_row c laws old leaf to lt tree.canonical)
            (omega (arith, next_index-new_row c laws old leaf to)),
        refl,
        published_db-Publishes c w (row ∷ old) nodes new_leaves
            (live_leaves-new_row c laws old leaf to lt),
      )

authorized-allows :
    (callback : Option (Bytes → ℕ → Option Error)) (authorize : Bytes → ℕ → Option Error)
    (to : Bytes) (attribute : ℕ)
    → callback ≡ some authorize
    → authorize to attribute ≡ none
    → authorized callback to attribute ≡ pure tt
unfolding authorized
authorized-allows callback authorize to attribute has allows = rw (has, authorized, allows)

-- The same issuance publishes the root of the new leaves.
pub issue_credential-Publishes :
    (c : Crypto) (laws : Lawful c) (z : Zk) (ready : IsReady c z) (w : World) (tree : IsTree c w.db)
    (verdict : Verdict) (to : Bytes) (secret : Secret) (attribute : ℕ)
    (authorize : Bytes → ℕ → Option Error) (reads : List (Option Bytes))
    → z.authorize_issue ≡ some authorize
    → authorize to attribute ≡ none
    → draw entropy_attempts w.entropy ≡ (ok secret, reads)
    → IsSecret secret
    → next_index w.db.credentials ≤ max_uint32
    → verdict w.db (new_row (next_index w.db.credentials) (leaf_commitment c secret attribute) to)
      ≡ none
    → (d : Db) × (issue_credential c z pool verdict to attribute (solo w) ≡ (
      ok (issued c w.db.credentials secret attribute),
      record (settled w d) { entropy = reads },
    ))
      × IsTree c d
      × (d.credentials
          ≡ new_row (next_index w.db.credentials) (leaf_commitment c secret attribute) to
            ∷ w.db.credentials)
      × Publishes c w d
unfolding issue_credential generate_secret with_tx
issue_credential-Publishes c laws z ready w tree verdict to secret attribute authorize reads has
      allows drawn hs small accepted =
    let begun = record w { base = w.db; entropy = reads } in
    let (d, run, t, rows, published) =
      issue_tx-IsTree c laws z ready begun tree verdict to secret attribute small accepted in
    let call = authorized-allows z.authorize_issue authorize to attribute has allows in
    (d, rw (call, drawn, membership_leaf-ok c laws secret attribute hs, run), t, rows, published)

-- An authorized issuance on a consistent tree that is not full succeeds, and leaves the tree
-- consistent with one more row, at the next free index: the caller is allowed, a 31-byte secret
-- was drawn, and the constraints accept the row.
pub issue_credential-IsTree :
    (c : Crypto) (laws : Lawful c) (z : Zk) (ready : IsReady c z) (w : World) (tree : IsTree c w.db)
    (verdict : Verdict) (to : Bytes) (secret : Secret) (attribute : ℕ)
    (authorize : Bytes → ℕ → Option Error) (reads : List (Option Bytes))
    → z.authorize_issue ≡ some authorize
    → authorize to attribute ≡ none
    → draw entropy_attempts w.entropy ≡ (ok secret, reads)
    → IsSecret secret
    → next_index w.db.credentials ≤ max_uint32
    → verdict w.db (new_row (next_index w.db.credentials) (leaf_commitment c secret attribute) to)
      ≡ none
    → (d : Db) × (issue_credential c z pool verdict to attribute (solo w) ≡ (
      ok (issued c w.db.credentials secret attribute),
      record (settled w d) { entropy = reads },
    ))
      × IsTree c d
      × (d.credentials
          ≡ new_row (next_index w.db.credentials) (leaf_commitment c secret attribute) to
            ∷ w.db.credentials)
issue_credential-IsTree c laws z ready w tree verdict to secret attribute authorize reads has allows
      drawn hs small accepted =
    let (d, run, t, rows, _) =
      issue_credential-Publishes c laws z ready w tree verdict to secret attribute authorize reads
        has allows drawn hs small accepted in
    (d, run, t, rows)

-- ===== src/Tree/Invariant.antt =====
-- The invariant of the tree's tables, and its preservation by the writers (zkauthn/tree.go:
-- IssueCredential, RevokeCredential, RevokeCredentialsForUser) on a database that no other writer
-- of the tree writes at the same time, which is what the advisory lock is for.
use mathlib.Core.Option
use kal_zk.Base.{
  ℕ, ◌+◌, ◌≤◌, ◌<◌, ◌≡◌, refl, true, Bytes, List, [], ◌∷◌, none, some, arith, inl, ◌⊎◌, be_value,
}
use kal_zk.Error.{ok}
use kal_zk.Hash.{Field, Crypto, Lawful, field_bytes}
use kal_zk.Service.{Zk}
use kal_zk.Store.{Db, CredentialRow, NodeRow}
use kal_zk.Store.Exec.{World, query}
use kal_zk.Store.Roots.{put_root, retire_rows, current_roots, current_roots-publish}
use kal_zk.Store.Credentials.{
  live_commitment, next_index, live_commitment-mark_rows, mark_rows, next_index-mark_rows,
  mark_revoked-live, mark_revoked-none,
}
use kal_zk.Tree.{lock_tree, write_leaf, revoke_tx, unwrite, max_uint32}
use kal_zk.Tree.Shape.{Leaves, set_leaf, empty_hash, subtree_ext, subtree, tree_root}
use kal_zk.Tree.Climb.{Stores, IsReady}
use kal_zk.Tree.Write.{write_leaf-Stores}

-- The leaves that the credential table stands for.
abbrev pub live_leaves : List CredentialRow → Leaves
live_leaves rows i = Option.map be_value (live_commitment i rows)

-- What `currentRoot` reads: the root of the tree, or no row where the tree is empty.
abbrev pub IsRooted : Crypto → Db → Type 0
IsRooted c db =
    (current_roots db.roots ≡ field_bytes (tree_root c (live_leaves db.credentials)) ∷ [])
    ⊎ ((current_roots db.roots ≡ []) × (tree_root c (live_leaves db.credentials) ≡ empty_hash c 32))

pub record IsTree (c : Crypto) (db : Db) : Type 0 where
  -- The node table holds the tree of the live credentials.
  pub nodes : Stores c db.nodes (live_leaves db.credentials)
  pub root : IsRooted c db
  -- A live commitment is a canonical field element.
  pub canonical :
      (i : ℕ) (raw : Bytes)
      → live_commitment i db.credentials ≡ some raw
      → (f : Field) × (raw ≡ field_bytes f) × (f < c.modulus)
  -- Leaf indices fit the depth of the tree.
  pub bounded : next_index db.credentials ≤ max_uint32 + 1

-- A database on which this call is the only one at work.
abbrev pub solo : World → World
solo w = record w { schedule = [] }

-- The same after a committed transaction that leaves the tables `d`.
abbrev pub settled : World → Db → World
settled w d = record w { db = d; base = d; schedule = [] }

-- The tables of a published tree, with the given credentials.
abbrev pub published_db : Crypto → World → List CredentialRow → List NodeRow → Leaves → Db
published_db c w rows nodes leaves = record w.db {
  credentials = rows;
  nodes = nodes;
  roots = put_root (field_bytes (tree_root c leaves)) (retire_rows w.now w.db.roots);
}

-- The tables `d` have the root of their live leaves as the current one, and the former root retired.
abbrev pub Publishes : Crypto → World → Db → Type 0
Publishes c w d =
    d.roots
    ≡ put_root (field_bytes (tree_root c (live_leaves d.credentials)))
        (retire_rows w.now w.db.roots)

abbrev pub IsCanonical : Crypto → List CredentialRow → Type 0
IsCanonical c rows =
    (i : ℕ) (raw : Bytes)
    → live_commitment i rows ≡ some raw
    → (f : Field) × (raw ≡ field_bytes f) × (f < c.modulus)

module _ (c : Crypto) where
  pub Stores-ext :
      (nodes : List NodeRow) (f g : Leaves)
      → ((i : ℕ) → f i ≡ g i)
      → Stores c nodes f
      → Stores c nodes g
  Stores-ext nodes f g e s l p h = rw (← subtree_ext c f g e l p) (s l p h)

  pub published-IsTree :
      (w : World) (rows : List CredentialRow) (nodes : List NodeRow) (leaves : Leaves)
      → ((i : ℕ) → leaves i ≡ live_leaves rows i)
      → Stores c nodes leaves
      → IsCanonical c rows
      → next_index rows ≤ max_uint32 + 1
      → IsTree c (published_db c w rows nodes leaves)
  unfolding tree_root
  published-IsTree w rows nodes leaves e s canonical bounded = record {
    nodes = Stores-ext nodes leaves (live_leaves rows) e s;
    root = inl (
        rw (← subtree_ext c leaves (live_leaves rows) e 32 0)
          (current_roots-publish w.now (field_bytes (subtree c leaves 32 0)) w.db.roots));
    canonical = canonical;
    bounded = bounded;
  }

  pub published_db-Publishes :
      (w : World) (rows : List CredentialRow) (nodes : List NodeRow) (leaves : Leaves)
      → ((i : ℕ) → leaves i ≡ live_leaves rows i)
      → Publishes c w (published_db c w rows nodes leaves)
  unfolding tree_root
  published_db-Publishes w rows nodes leaves e =
      rw (← subtree_ext c leaves (live_leaves rows) e 32 0) refl

  pub live_leaves-mark_rows :
      (now i j : ℕ) (rows : List CredentialRow)
      → set_leaf (live_leaves rows) i none j ≡ live_leaves (mark_rows now i rows) j
  live_leaves-mark_rows now i j rows = ground (arith, live_commitment-mark_rows now i j rows)

  IsCanonical-mark_rows :
      (now i : ℕ) (rows : List CredentialRow)
      → IsCanonical c rows
      → IsCanonical c (mark_rows now i rows)
  IsCanonical-mark_rows now i rows h j raw e =
      h j raw (ground (arith, live_commitment-mark_rows now i j rows))

  module _ (laws : Lawful c) (z : Zk) (ready : IsReady c z) (w : World) (tree : IsTree c w.db) where
    -- The tables after the leaf of a marked index was emptied.
    pub unwrite-IsTree :
        (i : ℕ)
        → i ≤ max_uint32
        → let rows = mark_rows w.now i w.db.credentials in
          let marked = record w { db = record w.db { credentials = rows }; schedule = [] } in
          let new = set_leaf (live_leaves w.db.credentials) i none in
          (nodes : List NodeRow) × (write_leaf c z i 0 true marked ≡ (
            ok (tree_root c new),
            record w { db = published_db c w rows nodes new; schedule = [] },
          ))
          × IsTree c (published_db c w rows nodes new)
    unwrite-IsTree i small =
        let old = w.db.credentials in
        let rows = mark_rows w.now i old in
        let new = set_leaf (live_leaves old) i none in
        let marked = record w { db = record w.db { credentials = rows } } in
        let (nodes, run, s) =
          write_leaf-Stores c laws z ready marked (live_leaves old) i 0 true w.db.nodes small
            (omega (arith, laws.modulus_lower)) tree.nodes in
        (
          nodes,
          run,
          published-IsTree w rows nodes new (λ j. live_leaves-mark_rows w.now i j old) s
              (IsCanonical-mark_rows w.now i old tree.canonical)
              (omega (arith, next_index-mark_rows w.now i old, tree.bounded)),
        )

    pub revoke_tx-live :
        (i : ℕ) (raw : Bytes)
        → i ≤ max_uint32
        → live_commitment i w.db.credentials ≡ some raw
        → (d : Db) × (revoke_tx c z i (solo w) ≡ (ok tt, record w { db = d; schedule = [] }))
          × IsTree c d
          × (d.credentials ≡ mark_rows w.now i w.db.credentials)
          × Publishes c w d
    unfolding revoke_tx query lock_tree unwrite
    revoke_tx-live i raw small live =
        let (nodes, run, t) = unwrite-IsTree i small in
        (
          _,
          rw (mark_revoked-live w.now i w.db raw live, run),
          t,
          refl,
          published_db-Publishes w _ nodes _
              (λ j. live_leaves-mark_rows w.now i j w.db.credentials),
        )

    pub revoke_tx-none :
        (i : ℕ)
        → live_commitment i w.db.credentials ≡ none
        → revoke_tx c z i (solo w) ≡ (ok tt, solo w)
    unfolding revoke_tx query lock_tree unwrite
    revoke_tx-none i gone = rw (mark_revoked-none w.now i w.db gone)

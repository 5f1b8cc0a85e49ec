-- ===== src/Tree/Write.antt =====
-- `writeLeaf` (zkauthn/tree.go) as one step on the tables: the nodes are those of the new tree, and
-- its root is the only current one.
use kal_zk.Base.{
  ℕ, zero, suc, ◌+◌, ◌^◌, ◌≤◌, ◌<◌, ◌≡◌, Bool, if◌then◌else◌, List, [], ◌∷◌, Option, none, some,
  arith,
}
use native.Mathlib.Nat.{pow-suc, add-zero}
use kal_zk.Error.{ok}
use kal_zk.Hash.{Field, Crypto, Lawful, field_bytes}
use kal_zk.Hash.Encoding.{native_hash-ok}
use kal_zk.Service.{Zk}
use kal_zk.Store.{NodeRow}
use kal_zk.Store.Exec.{World, query}
use kal_zk.Store.Roots.{put_root, retire_rows, retire_root, insert_root}
use kal_zk.Tree.{leaf_hash, write_leaf, max_uint32}
use kal_zk.Tree.Shape.{Leaves, set_leaf, shift_right, leaf_value, subtree, tree_root}
use kal_zk.Tree.Climb.{Stores, IsReady, alone, climb-Stores}

shift_right-lt : (i j k : ℕ) → i < 2 ^ (j + k) → shift_right i k < 2 ^ j
unfolding shift_right
shift_right-lt i j zero h = rw add-zero at h
shift_right-lt i j (suc k) h =
    let shifted : j + suc k ≡ suc j + k = omega arith in
    omega (arith, shift_right-lt i (suc j) k (rw shifted at h), pow-suc 2 j)

pub shift_right-top : (i : ℕ) → i ≤ max_uint32 → shift_right i 32 ≡ 0
shift_right-top i h = omega (arith, shift_right-lt i 0 32 (omega arith))

-- The tables after a root was published.
abbrev pub published : Crypto → World → List NodeRow → Field → World
published c w nodes root = record w {
  db = record w.db {
    nodes = nodes;
    roots = put_root (field_bytes root) (retire_rows w.now w.db.roots);
  };
  schedule = [];
}

-- What is written at a leaf: nothing, or a commitment that is a field element.
abbrev pub written_leaf : Field → Bool → Option Field
written_leaf commitment empty = if empty then none else some commitment

module _ (c : Crypto) (laws : Lawful c) (z : Zk) (ready : IsReady c z) (w : World) where
  leaf_hash-subtree :
      (leaves : Leaves) (i : ℕ) (commitment : Field) (empty : Bool)
      → commitment < c.modulus
      → leaf_hash c z commitment empty
        ≡ ok (subtree c (set_leaf leaves i (written_leaf commitment empty)) 0 i)
  unfolding leaf_hash subtree leaf_value
  leaf_hash-subtree leaves i commitment empty h =
      ground (arith, ready 0 (omega arith), native_hash-ok c laws (commitment ∷ []) (h, tt))

  -- On a table that holds the tree of some leaves, writing or emptying a leaf succeeds, returns the
  -- root of the new tree, leaves a table that holds it, and publishes that root.
  pub write_leaf-Stores :
      (leaves : Leaves) (i : ℕ) (commitment : Field) (empty : Bool) (nodes : List NodeRow)
      → i ≤ max_uint32
      → commitment < c.modulus
      → Stores c nodes leaves
      → let new = set_leaf leaves i (written_leaf commitment empty) in
        (nodes' : List NodeRow) × (write_leaf c z i commitment empty (alone w nodes)
          ≡ (ok (tree_root c new), published c w nodes' (tree_root c new)))
        × Stores c nodes' new
  unfolding write_leaf query retire_root insert_root tree_root
  write_leaf-Stores leaves i commitment empty nodes small h s =
      let v = written_leaf commitment empty in
      let (nodes', run, s') = climb-Stores c laws z ready w leaves i v nodes s in
      (nodes', rw (leaf_hash-subtree leaves i commitment empty h, run, shift_right-top i small), s')

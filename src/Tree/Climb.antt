-- ===== src/Tree/Climb.antt =====
-- The loop of `writeLeaf` (zkauthn/tree.go) against the shape of the tree: it moves the node table
-- from one set of leaves to the next, a level at a time.
use kal_zk.Base.{
  ℕ, zero, suc, ◌+◌, ◌*◌, ◌/◌, ◌%◌, ◌-◌, ◌≤◌, ◌<◌, ◌≡◌, ◌≢◌, ltb, ◌==◌, if◌then◌else◌, Bytes, List,
  [], ◌∷◌, Option, none, some, arith, get_or, Bool-cases, inl, inr,
}
use kal_zk.Error.{ok}
use kal_zk.Hash.{Field, Crypto, Lawful, field_bytes, native_hash}
use kal_zk.Hash.Encoding.{parse_field-field_bytes, native_hash-ok}
use kal_zk.Service.{Zk}
use kal_zk.Store.{NodeRow}
use kal_zk.Store.Exec.{World, query}
use kal_zk.Store.Nodes.{
  find_node, put_node, drop_node, node_by_position, upsert_node, delete_node, find_node-put_node,
  find_node-drop_node,
}
use kal_zk.Tree.{xor_one, node, write_node, join, climb}
use kal_zk.Tree.Shape.{
  Leaves, set_leaf, shift_right, hash_pair, empty_hash, subtree, subtree-set_leaf_ne, subtree-lt,
}

-- The row that the sparse table keeps for a position.
abbrev pub stored : Crypto → Leaves → ℕ → ℕ → Option Bytes
stored c leaves l p =
    if subtree c leaves l p == empty_hash c l
    then none
    else some (field_bytes (subtree c leaves l p))

-- The table holds the tree of these leaves, and no row for an empty subtree.
abbrev pub Stores : Crypto → List NodeRow → Leaves → Type 0
Stores c nodes leaves = (l p : ℕ) → l < 32 → find_node l p nodes ≡ stored c leaves l p

-- `zeros` holds the hashes of the empty subtrees.
abbrev pub IsReady : Crypto → Zk → Type 0
IsReady c z = (l : ℕ) → l ≤ 32 → get_or z.zeros l 0 ≡ empty_hash c l

xor_one-ne : (p : ℕ) → xor_one p ≢ p
unfolding xor_one
xor_one-ne p e = ground arith

-- A database that nobody else writes, with the given node rows.
abbrev pub alone : World → List NodeRow → World
alone w nodes = record w { db = record w.db { nodes = nodes }; schedule = [] }

module _ (c : Crypto) (laws : Lawful c) (z : Zk) (ready : IsReady c z) (w : World) where
  pub node-stored :
      (leaves : Leaves) (nodes : List NodeRow) (l q : ℕ)
      → l < 32
      → find_node l q nodes ≡ stored c leaves l q
      → node c z l q (alone w nodes) ≡ (ok (subtree c leaves l q), alone w nodes)
  unfolding node query node_by_position
  node-stored leaves nodes l q h e = ground (
    arith,
    e,
    ready l (omega arith),
    parse_field-field_bytes c laws (subtree c leaves l q) (subtree-lt c laws leaves l q),
  )

  -- What `write_node` leaves in the table.
  abbrev written : ℕ → ℕ → Field → List NodeRow → List NodeRow
  written l p current nodes =
      if current == empty_hash c l
      then drop_node l p nodes
      else put_node l p (field_bytes current) nodes

  write_node-written :
      (l p : ℕ) (current : Field) (nodes : List NodeRow)
      → l < 32
      → write_node c z l p current (alone w nodes) ≡ (ok tt, alone w (written l p current nodes))
  unfolding write_node query upsert_node delete_node
  write_node-written l p current nodes h =
      rw (ready l (omega arith))
        (elim (Bool-cases (current == empty_hash c l)) [ inl e ↦ rw e | inr e ↦ rw e ])

  hash_pair-ok :
      (leaves : Leaves) (l a b : ℕ)
      → native_hash c (subtree c leaves l a ∷ subtree c leaves l b ∷ [])
        ≡ ok (hash_pair c (subtree c leaves l a) (subtree c leaves l b))
  hash_pair-ok leaves l a b =
      native_hash-ok c laws _ (subtree-lt c laws leaves l a, (subtree-lt c laws leaves l b, tt))

  join-subtree :
      (leaves : Leaves) (l p : ℕ)
      → join c z p (subtree c leaves l p) (subtree c leaves l (xor_one p))
        ≡ ok (subtree c leaves (suc l) (p / 2))
  unfolding join xor_one subtree
  join-subtree leaves l p = elim (Bool-cases (p % 2 == 0)) [
    | inl even ↦
        let left : p / 2 * 2 ≡ p = ground arith in rw (even, left) (hash_pair-ok leaves l p (p + 1))
    | inr odd ↦
        let right : p / 2 * 2 + 1 ≡ p = ground arith in
        let left : p / 2 * 2 ≡ p - 1 = ground arith in
        rw (odd, right, left) (hash_pair-ok leaves l (p - 1) p)
  ]

  module _ (leaves : Leaves) (i : ℕ) (v : Option Field) where
    abbrev new : Leaves
    new = set_leaf leaves i v

    -- Below level `l` the table holds the new tree, and from there on the old one.
    abbrev Mixed : ℕ → List NodeRow → Type 0
    Mixed l nodes =
        (l' p : ℕ)
        → l' < 32
        → find_node l' p nodes ≡ (if ltb l' l then stored c new l' p else stored c leaves l' p)

    abbrev spine : ℕ → ℕ
    spine l = shift_right i l

    Mixed-written :
        (l : ℕ) (nodes : List NodeRow)
        → l < 32
        → Mixed l nodes
        → Mixed (suc l) (written l (spine l) (subtree c new l (spine l)) nodes)
    Mixed-written l nodes h m l' p h' = ground (
      arith,
      m l' p h',
      find_node-put_node l' p l (spine l) (field_bytes (subtree c new l (spine l))) nodes,
      find_node-drop_node l' p l (spine l) nodes,
      subtree-set_leaf_ne c leaves i v l p,
    )

    -- The sibling is not above the changed leaf, so old and new tree agree on it.
    sibling-stored :
        (l : ℕ) (nodes : List NodeRow)
        → l < 32
        → Mixed (suc l) nodes
        → find_node l (xor_one (spine l)) nodes ≡ stored c new l (xor_one (spine l))
    sibling-stored l nodes h m = ground (arith, m l (xor_one (spine l)) h)

    -- The loop from level `l` on.
    pub climb_lem :
        (k l : ℕ) (nodes : List NodeRow)
        → k + l ≡ 32
        → Mixed l nodes
        → (nodes' : List NodeRow) × (climb c z k l
              (spine l)
              (subtree c new l (spine l))
              (alone w nodes)
            ≡ (ok (subtree c new 32 (spine 32)), alone w nodes'))
          × Mixed 32 nodes'
    unfolding climb shift_right
    climb_lem zero l nodes e m = let top : l ≡ 32 = omega arith in (nodes, rw top, rw top at m)
    climb_lem (suc k) l nodes e m =
        let h : l < 32 = omega arith in
        let nodes₁ = written l (spine l) (subtree c new l (spine l)) nodes in
        let m₁ = Mixed-written l nodes h m in
        let (nodes', run, done) = climb_lem k (suc l) nodes₁ (omega arith) m₁ in
        (
          nodes',
          rw
              (
                write_node-written l (spine l) (subtree c new l (spine l)) nodes h,
                node-stored new nodes₁ l (xor_one (spine l)) h (sibling-stored l nodes₁ h m₁),
                join-subtree new l (spine l),
              )
              run,
          done,
        )

  -- From the table of one set of leaves the loop makes the table of the next, and returns its root.
  pub climb-Stores :
      (leaves : Leaves) (i : ℕ) (v : Option Field) (nodes : List NodeRow)
      → Stores c nodes leaves
      → (nodes' : List NodeRow) × (climb c z 32 0 i
            (subtree c (set_leaf leaves i v) 0 i)
            (alone w nodes)
          ≡ (ok (subtree c (set_leaf leaves i v) 32 (shift_right i 32)), alone w nodes'))
        × Stores c nodes' (set_leaf leaves i v)
  climb-Stores leaves i v nodes s =
      let (nodes', run, m) =
        climb_lem leaves i v 32 0 nodes (omega arith) (λ l p h. ground (arith, s l p h)) in
      (nodes', unfold shift_right in run, λ l p h. ground (arith, m l p h))

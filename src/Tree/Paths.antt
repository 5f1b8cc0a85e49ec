-- ===== src/Tree/Paths.antt =====
-- `path` of zkauthn/tree.go reads the siblings of the tree that the node table holds.
use kal_zk.Base.{ℕ, zero, suc, ◌+◌, ◌/◌, ◌<◌, ◌≡◌, refl, List, [], ◌∷◌, arith}
use kal_zk.Error.{ok}
use kal_zk.Hash.{Field, Crypto, Lawful}
use kal_zk.Service.{Zk}
use kal_zk.Store.{NodeRow}
use kal_zk.Store.Exec.{World}
use kal_zk.Tree.{xor_one, siblings, path_of}
use kal_zk.Tree.Shape.{Leaves, subtree}
use kal_zk.Tree.Climb.{Stores, IsReady, alone, node-stored}

-- The siblings of the path from position `p` of level `l`, `k` levels up.
unfoldable pub sibling_hashes : Crypto → Leaves → ℕ → ℕ → ℕ → List Field
sibling_hashes c leaves zero l p = []
sibling_hashes c leaves (suc k) l p =
    subtree c leaves l (xor_one p) ∷ sibling_hashes c leaves k (suc l) (p / 2)

module _ (c : Crypto) (laws : Lawful c) (z : Zk) (ready : IsReady c z) (w : World) where
  siblings-Stores :
      (leaves : Leaves) (nodes : List NodeRow)
      → Stores c nodes leaves
      → (k l p : ℕ) → k + l ≡ 32
      → siblings c z k l p (alone w nodes) ≡ (ok (sibling_hashes c leaves k l p), alone w nodes)
  unfolding siblings sibling_hashes
  siblings-Stores leaves nodes s zero l p e = refl
  siblings-Stores leaves nodes s (suc k) l p e =
      let h : l < 32 = omega arith in
      rw (
        node-stored c laws z ready w leaves nodes l (xor_one p) h (s l (xor_one p) h),
        siblings-Stores leaves nodes s k (suc l) (p / 2) (omega arith),
      )

  -- The path that is read is the one of the tree, under the root that was asked for.
  pub path_of-Stores :
      (leaves : Leaves) (nodes : List NodeRow) (i : ℕ) (commitment root : Field)
      → Stores c nodes leaves
      → path_of c z i commitment root (alone w nodes) ≡ (
        ok (record { root = root; path = commitment ∷ sibling_hashes c leaves 32 0 i; index = i }),
        alone w nodes,
      )
  unfolding path_of
  path_of-Stores leaves nodes i commitment root s =
      rw (siblings-Stores leaves nodes s 32 0 i (omega arith))

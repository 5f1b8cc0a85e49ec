-- ===== src/Tree/Fresh.antt =====
-- The tables before any credential was issued (zkauthn/tree.go).
use kal_zk.Base.{ℕ, ◌≡◌, refl, [], arith, ==_self, inr}
use kal_zk.Hash.{Crypto}
use kal_zk.Store.{Db}
use kal_zk.Store.Credentials.{live_commitment, next_index}
use kal_zk.Store.Nodes.{find_node}
use kal_zk.Store.Roots.{current_roots}
use kal_zk.Tree.Shape.{no_leaves, empty_hash, subtree-no_leaves, tree_root, subtree_ext}
use kal_zk.Tree.Climb.{stored}
use kal_zk.Tree.Invariant.{IsTree, live_leaves}

abbrev pub empty_db : Db
empty_db = record {
  challenges = [];
  commitments = [];
  credentials = [];
  nodes = [];
  roots = [];
  claims = [];
  nullifiers = [];
  users = [];
  session_claims = [];
  kal_rows = [];
}

live_leaves-nil : (i : ℕ) → no_leaves i ≡ live_leaves [] i
unfolding live_commitment
live_leaves-nil i = refl

module _ (c : Crypto) where
  Stores-nil : (l p : ℕ) → find_node l p [] ≡ stored c (live_leaves []) l p
  unfolding find_node
  Stores-nil l p = rw (
    ← subtree_ext c no_leaves (live_leaves []) live_leaves-nil l p,
    subtree-no_leaves c l p,
    ==_self (empty_hash c l),
  )

  -- Empty tables are a consistent tree.
  pub empty_db-IsTree : IsTree c empty_db
  unfolding tree_root current_roots live_commitment next_index
  empty_db-IsTree = record {
    nodes = λ l p h. Stores-nil l p;
    root = inr (refl, subtree-no_leaves c 32 0);
    canonical = λ i raw e. cc;
    bounded = omega arith;
  }

-- ===== src/Tree/Torn.antt =====
-- `Path` (zkauthn/tree.go) while others write: two commits during one walk, the second of which
-- republishes the root that the first one replaced.
use kal_zk.Base.{
  ℕ, zero, suc, ◌+◌, ◌/◌, ◌<◌, ◌≡◌, refl, List, [], ◌∷◌, ◌++◌, none, some, arith, ==_self,
  replicate, inl, inr,
}
use kal_zk.Error.{ok}
use kal_zk.Hash.{Field, Crypto, Lawful, field_bytes}
use kal_zk.Hash.Encoding.{parse_field-field_bytes}
use kal_zk.Service.{Zk}
use kal_zk.Store.{Db, CredentialRow}
use kal_zk.Store.Exec.{World, Event, quiet, commits, query, pool, with_tx}
use kal_zk.Store.Nodes.{find_node, node_by_position}
use kal_zk.Store.Roots.{one, current_root_row}
use kal_zk.Store.Credentials.{find_credential, credential_by_index-some}
use kal_zk.Tree.{xor_one, node, siblings, path_of, current_root, snapshot, path_tx, fetch_path}
use kal_zk.Tree.Shape.{Leaves, subtree, subtree-lt, tree_root}
use kal_zk.Tree.Climb.{Stores, IsReady, stored}
use kal_zk.Tree.Paths.{sibling_hashes}
use kal_zk.Tree.Fetch.{tree_root-lt}
use kal_zk.Tree.Invariant.{IsTree, IsRooted, live_leaves}

-- What a statement sees after the next event of a schedule.
abbrev arrives : Event → Db → Db
arrives (commits g) d = g d
arrives _ d = d

-- The events of the walk: `g` commits after the root is read, and `g'` after the last node.
abbrev pub walk : (g g' : Db → Db) → List Event
walk g g' = quiet ∷ (commits g ∷ (replicate 31 quiet ++ (commits g' ∷ [])))

module _ (c : Crypto) (laws : Lawful c) (z : Zk) (ready : IsReady c z) (w : World) where
  abbrev at : Db → Db → List Event → World
  at d base es = record w { db = d; base = base; schedule = es }

  node-arrives :
      (leaves : Leaves) (l q : ℕ) (d base : Db) (es : List Event)
      → l < 32
      → find_node l q d.nodes ≡ stored c leaves l q
      → node c z l q (at d base (quiet ∷ es)) ≡ (ok (subtree c leaves l q), at d base es)
  unfolding node query node_by_position
  node-arrives leaves l q d base es h e = ground (
    arith,
    e,
    ready l (omega arith),
    parse_field-field_bytes c laws (subtree c leaves l q) (subtree-lt c laws leaves l q),
  )

  node-commits :
      (g : Db → Db) (leaves : Leaves) (l q : ℕ) (d base : Db) (es : List Event)
      → l < 32
      → find_node l q (g d).nodes ≡ stored c leaves l q
      → node c z l q (at d base (commits g ∷ es))
        ≡ (ok (subtree c leaves l q), at (g d) (g base) es)
  unfolding node query node_by_position
  node-commits g leaves l q d base es h e = ground (
    arith,
    e,
    ready l (omega arith),
    parse_field-field_bytes c laws (subtree c leaves l q) (subtree-lt c laws leaves l q),
  )

  siblings-quiet :
      (leaves : Leaves) (d base : Db) (es : List Event)
      → Stores c d.nodes leaves
      → (k l p : ℕ) → k + l ≡ 32
      → siblings c z k l p (at d base (replicate k quiet ++ es))
        ≡ (ok (sibling_hashes c leaves k l p), at d base es)
  unfolding siblings sibling_hashes
  siblings-quiet leaves d base es s zero l p e = refl
  siblings-quiet leaves d base es s (suc k) l p e =
      let h : l < 32 = omega arith in
      rw (
        node-arrives leaves l (xor_one p) d base (replicate k quiet ++ es) h (s l (xor_one p) h),
        siblings-quiet leaves d base es s k (suc l) (p / 2) (omega arith),
      )

  -- Another transaction commits before the first node is read.
  siblings-commits :
      (g : Db → Db) (leaves : Leaves) (d base : Db) (es : List Event)
      → Stores c (g d).nodes leaves
      → (k l p : ℕ) → suc k + l ≡ 32
      → siblings c z (suc k) l p (at d base (commits g ∷ replicate k quiet ++ es))
        ≡ (ok (sibling_hashes c leaves (suc k) l p), at (g d) (g base) es)
  unfolding siblings sibling_hashes
  siblings-commits g leaves d base es s k l p e =
      let h : l < 32 = omega arith in
      rw (
        node-commits g leaves l (xor_one p) d base (replicate k quiet ++ es) h (s l (xor_one p) h),
        siblings-quiet leaves (g d) (g base) es s k (suc l) (p / 2) (omega arith),
      )

  root-quiet :
      (d base : Db) (es : List Event)
      → IsRooted c d
      → current_root c z (at d base (quiet ∷ es))
        ≡ (ok (tree_root c (live_leaves d.credentials)), at d base es)
  unfolding current_root query current_root_row one
  root-quiet d base es (inl e) =
      let leaves = live_leaves d.credentials in
      rw (e, parse_field-field_bytes c laws (tree_root c leaves) (tree_root-lt c laws leaves))
  root-quiet d base es (inr (e, empty)) = rw (e, empty, ready 32 (omega arith))

  root-commits :
      (g : Db → Db) (d base : Db) (es : List Event)
      → IsRooted c (g d)
      → current_root c z (at d base (commits g ∷ es))
        ≡ (ok (tree_root c (live_leaves (g d).credentials)), at (g d) (g base) es)
  unfolding current_root query current_root_row one
  root-commits g d base es (inl e) =
      let leaves = live_leaves (g d).credentials in
      rw (e, parse_field-field_bytes c laws (tree_root c leaves) (tree_root-lt c laws leaves))
  root-commits g d base es (inr (e, empty)) = rw (e, empty, ready 32 (omega arith))

  snapshot-torn :
      (g g' : Db → Db) (d base : Db) (i k : ℕ) (commitment : Field)
      → IsTree c d
      → IsTree c (g d)
      → IsTree c (g' (g d))
      → tree_root c (live_leaves (g' (g d)).credentials) ≡ tree_root c (live_leaves d.credentials)
      → snapshot c z (suc k) i commitment (at d base (walk g g')) ≡ (
        ok (record {
          root = tree_root c (live_leaves d.credentials);
          path = commitment ∷ sibling_hashes c (live_leaves (g d).credentials) 32 0 i;
          index = i;
        }),
        at (g' (g d)) (g' (g base)) [],
      )
  unfolding snapshot path_of
  snapshot-torn g g' d base i k commitment t₀ t₁ t₂ back =
      let leaves = live_leaves (g d).credentials in
      rw (
        root-quiet d base (commits g ∷ (replicate 31 quiet ++ (commits g' ∷ []))) t₀.root,
        siblings-commits g leaves d base (commits g' ∷ []) t₁.nodes 31 0 i (omega arith),
        root-commits g' (g d) (g base) [] t₂.root,
        back,
        ==_self (tree_root c (live_leaves d.credentials)),
      )

-- A path is read while one transaction commits after the first read of the root and another before
-- the second, and the second brings the root back: the call succeeds, with the root of the first
-- tree over the siblings of the tree in between.
pub fetch_path-torn :
    (c : Crypto) (laws : Lawful c) (z : Zk) (ready : IsReady c z) (w : World) (g g' : Db → Db)
    (i : ℕ) (row : CredentialRow) (f : Field)
    → IsTree c w.db
    → IsTree c (g w.db)
    → IsTree c (g' (g w.db))
    → tree_root c (live_leaves (g' (g w.db)).credentials)
      ≡ tree_root c (live_leaves w.db.credentials)
    → find_credential i w.db.credentials ≡ some row
    → row.revoked_at ≡ none
    → row.commitment ≡ field_bytes f
    → f < c.modulus
    → (fetch_path c z pool i (record w { schedule = quiet ∷ walk g g' })).0
      ≡ ok (record {
        root = tree_root c (live_leaves w.db.credentials);
        path = f ∷ sibling_hashes c (live_leaves (g w.db).credentials) 32 0 i;
        index = i;
      })
unfolding fetch_path with_tx path_tx query
fetch_path-torn c laws z ready w g g' i row f t₀ t₁ t₂ back found live raw small = rw (
  credential_by_index-some w.now i w.db row found,
  live,
  raw,
  parse_field-field_bytes c laws f small,
  snapshot-torn c laws z ready w g g' w.db w.db i 1 f t₀ t₁ t₂ back,
)

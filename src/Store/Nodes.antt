-- ===== src/Store/Nodes.antt =====
-- The stored nodes of the sparse tree, and the statements on them (zkauthn/sql.go:
-- nodeByPosition, upsertNode, deleteNode). Its primary key is the level and the index.
use kal_zk.Base.{
  ℕ, ◌≡◌, refl, Bool, ◌&&◌, ◌==◌, if◌then◌else◌, Bytes, List, [], ◌∷◌, Option, none, some, arith,
}
use kal_zk.Error.{ok, err, no_rows}
use kal_zk.Store.{NodeRow}
use kal_zk.Store.Exec.{Statement}

abbrev pub at_node : ℕ → ℕ → NodeRow → Bool
at_node level idx r = r.level == level && r.idx == idx

unfoldable pub find_node : ℕ → ℕ → List NodeRow → Option Bytes
find_node level idx [] = none
find_node level idx (r ∷ rs) = if at_node level idx r then some r.hash else find_node level idx rs

unfoldable pub put_node : ℕ → ℕ → Bytes → List NodeRow → List NodeRow
put_node level idx hash [] = record { level = level; idx = idx; hash = hash } ∷ []
put_node level idx hash (r ∷ rs) =
    if at_node level idx r then record r { hash = hash } ∷ rs else r ∷ put_node level idx hash rs

unfoldable pub drop_node : ℕ → ℕ → List NodeRow → List NodeRow
drop_node level idx [] = []
drop_node level idx (r ∷ rs) =
    if at_node level idx r then drop_node level idx rs else r ∷ drop_node level idx rs

unfoldable pub node_by_position : ℕ → ℕ → Statement Bytes
node_by_position level idx now db = elim (find_node level idx db.nodes) [
  | none ↦ err no_rows
  | some raw ↦ ok (raw, db)
]

unfoldable pub upsert_node : ℕ → ℕ → Bytes → Statement (Unit {0})
upsert_node level idx hash now db = ok (tt, record db { nodes = put_node level idx hash db.nodes })

unfoldable pub delete_node : ℕ → ℕ → Statement (Unit {0})
delete_node level idx now db = ok (tt, record db { nodes = drop_node level idx db.nodes })

-- What a position holds after an upsert.
pub find_node-put_node :
    (l p l' p' : ℕ) (hash : Bytes) (rows : List NodeRow)
    → find_node l p (put_node l' p' hash rows)
      ≡ (if l' == l && p' == p then some hash else find_node l p rows)
unfolding find_node put_node
find_node-put_node l p l' p' hash [] = refl
find_node-put_node l p l' p' hash (r ∷ rs) = ground (arith, find_node-put_node l p l' p' hash rs)

-- What a position holds after a delete.
pub find_node-drop_node :
    (l p l' p' : ℕ) (rows : List NodeRow)
    → find_node l p (drop_node l' p' rows)
      ≡ (if l' == l && p' == p then none else find_node l p rows)
unfolding find_node drop_node
find_node-drop_node l p l' p' [] = ground arith
find_node-drop_node l p l' p' (r ∷ rs) = ground (arith, find_node-drop_node l p l' p' rs)

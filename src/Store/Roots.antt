-- ===== src/Store/Roots.antt =====
-- The published roots, and the statements on them (zkauthn/sql.go: retireRoot, insertRoot,
-- currentRoot, rootAccepted). A root is the table's key.
use kal_zk.Base.{
  ℕ, ◌+◌, ◌≡◌, refl, Bool, true, false, ◌&&◌, ◌||◌, ltb, if◌then◌else◌, Bytes, bytes_eq,
  bytes_eq_iff, List, [], ◌∷◌, none, some, arith,
}
use kal_zk.Error.{Result, ok, err, no_rows, plain, result_bind}
use kal_zk.Store.{RootRow}
use kal_zk.Store.Exec.{Statement}

abbrev pub retire : ℕ → RootRow → RootRow
retire now r = record r { retired_at = elim r.retired_at [ none ↦ some now | some t ↦ some t ] }

unfoldable pub retire_rows : ℕ → List RootRow → List RootRow
retire_rows now [] = []
retire_rows now (r ∷ rs) = retire now r ∷ retire_rows now rs

-- On a conflict the row is current again.
unfoldable pub put_root : Bytes → List RootRow → List RootRow
put_root root [] = record { root = root; retired_at = none } ∷ []
put_root root (r ∷ rs) =
    if bytes_eq r.root root then record r { retired_at = none } ∷ rs else r ∷ put_root root rs

unfoldable pub current_roots : List RootRow → List Bytes
current_roots [] = []
current_roots (r ∷ rs) = elim r.retired_at [
  | none ↦ r.root ∷ current_roots rs
  | some t ↦ current_roots rs
]

-- `QueryOne`: exactly one row.
unfoldable pub one {ℓ} : {A : Type ℓ} → List A → Result A
one [] = err no_rows
one (x ∷ []) = ok x
one (x ∷ y ∷ xs) = err (plain "pg: multiple rows in result set")

unfoldable pub retire_root : Statement (Unit {0})
retire_root now db = ok (tt, record db { roots = retire_rows now db.roots })

unfoldable pub insert_root : Bytes → Statement (Unit {0})
insert_root root now db = ok (tt, record db { roots = put_root root db.roots })

unfoldable pub current_root_row : Statement Bytes
current_root_row now db = result_bind (one (current_roots db.roots)) (λ raw. ok (raw, db))

-- The grace period is a length of time in the unit of the timestamps.
unfoldable pub is_accepted : ℕ → ℕ → Bytes → RootRow → Bool
is_accepted now grace root r =
    bytes_eq r.root root
    && elim r.retired_at [ none ↦ true | some t ↦ ltb 0 grace && ltb now (t + grace) ]

unfoldable pub any_accepted : ℕ → ℕ → Bytes → List RootRow → Bool
unfolding is_accepted
any_accepted now grace root [] = false
any_accepted now grace root (r ∷ rs) =
    is_accepted now grace root r || any_accepted now grace root rs

unfoldable pub root_accepted_row : ℕ → Bytes → Statement Bool
root_accepted_row grace root now db = ok (any_accepted now grace root db.roots, db)

pub current_roots-retire_rows :
    (now : ℕ) (rows : List RootRow) → current_roots (retire_rows now rows) ≡ []
unfolding current_roots retire_rows
current_roots-retire_rows now [] = refl
current_roots-retire_rows now (r ∷ rs) = ground (arith, current_roots-retire_rows now rs)

-- Publishing leaves exactly one current root, also when the root was published before.
pub current_roots-publish :
    (now : ℕ) (root : Bytes) (rows : List RootRow)
    → current_roots (put_root root (retire_rows now rows)) ≡ root ∷ []
unfolding current_roots put_root retire_rows
current_roots-publish now root [] = refl
current_roots-publish now root (r ∷ rs) = ground (
  arith,
  bytes_eq_iff r.root root,
  current_roots-retire_rows now rs,
  current_roots-publish now root rs,
)

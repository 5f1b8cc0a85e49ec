-- ===== src/Tree/History/Kept.antt =====
-- Every stored root is that of a state the tree had, retired when the next one was published.
use kal_zk.Base.{
  ℕ, ◌≡◌, ◌⊎◌, inl, inr, refl, sym, ap, subst, Bool-cases, bytes_eq, bytes_eq→eq, List, [], ◌∷◌,
  map, Option, none, some, All,
}
use kal_zk.Hash.{Crypto, field_bytes}
use kal_zk.Store.{Db, RootRow}
use kal_zk.Store.Exec.{World}
use kal_zk.Store.Roots.{retire, retire_rows, put_root}
use kal_zk.Tree.Shape.{Leaves, tree_root}
use kal_zk.Tree.Invariant.{IsTree, Publishes, live_leaves}
use kal_zk.Tree.History.{Past, close, publish, Any, IsOf}

-- The state is the present one, or it has ended.
abbrev pub IsDated : Leaves → Past → Type 0
IsDated live p = ((p.until ≡ none) × (p.leaves ≡ live)) ⊎ ((t : ℕ) × (p.until ≡ some t))

pub record IsKept (c : Crypto) (db : Db) (past : List Past) : Type 0 where
  pub tree : IsTree c db
  pub rows : All (λ r. Any (IsOf c r) past) db.roots
  pub dated : All (IsDated (live_leaves db.credentials)) past

module _ (c : Crypto) where
  Any-close :
      (now : ℕ) (r : RootRow) (past : List Past)
      → Any (IsOf c r) past
      → Any (IsOf c (retire now r)) (map (close now) past)
  Any-close now r [] h = elim h [ ]
  Any-close now r (p ∷ past) (inl (same, at)) =
      inl (same, ap (λ o. elim o [ none ↦ some now | some t ↦ some t ]) at)
  Any-close now r (p ∷ past) (inr older) = inr (Any-close now r past older)

  retire_rows-Any :
      (now : ℕ) (past : List Past) (rows : List RootRow)
      → All (λ r. Any (IsOf c r) past) rows
      → All (λ r. Any (IsOf c r) (map (close now) past)) (retire_rows now rows)
  unfolding retire_rows
  retire_rows-Any now past [] h = tt
  retire_rows-Any now past (r ∷ rows) (first, rest) =
      (Any-close now r past first, retire_rows-Any now past rows rest)

  put_root-Any :
      (new : Past) (past : List Past) (rows : List RootRow)
      → new.until ≡ none
      → All (λ r. Any (IsOf c r) past) rows
      → All
          (λ r. Any (IsOf c r) (new ∷ past))
          (put_root (field_bytes (tree_root c new.leaves)) rows)
  unfolding put_root
  put_root-Any new past [] fresh h = (inl (refl, sym fresh), tt)
  put_root-Any new past (r ∷ rows) fresh (first, rest) =
      elim (Bool-cases (bytes_eq r.root (field_bytes (tree_root c new.leaves)))) [
        | inl same ↦ rw same (inl (bytes_eq→eq _ _ same, sym fresh), All-older new past rows rest)
        | inr other ↦ rw other (inr first, put_root-Any new past rows fresh rest)
      ]
    where
      All-older :
          (new : Past) (past : List Past) (rows : List RootRow)
          → All (λ r. Any (IsOf c r) past) rows
          → All (λ r. Any (IsOf c r) (new ∷ past)) rows
      All-older new past [] h = tt
      All-older new past (r ∷ rows) (first, rest) = (inr first, All-older new past rows rest)

  close-IsDated :
      (now : ℕ) (live : Leaves) (past : List Past) → All (IsDated live) (map (close now) past)
  close-IsDated now live [] = tt
  close-IsDated now live (p ∷ past) = (ended p.until, close-IsDated now live past)
    where
      ended :
          (o : Option ℕ)
          → IsDated live
              (record { leaves = p.leaves; until = elim o [ none ↦ some now | some t ↦ some t ] })
      ended none = inr (now, refl)
      ended (some t) = inr (t, refl)

  pub publish-IsKept :
      (w : World) (d : Db) (past : List Past)
      → IsKept c w.db past
      → IsTree c d
      → Publishes c w d
      → IsKept c d (publish w.now (live_leaves d.credentials) past)
  publish-IsKept w d past kept tree published =
      let live = live_leaves d.credentials in
      let retired = retire_rows-Any w.now past w.db.roots kept.rows in
      let new : Past = record { leaves = live; until = none } in
      record {
        tree = tree;
        rows =
            subst (All (λ r. Any (IsOf c r) (publish w.now live past))) (sym published)
              (put_root-Any new (map (close w.now) past) _ refl retired);
        dated = (inl (refl, refl), close-IsDated w.now live past);
      }

-- ===== src/Tree/History/Accepted.antt =====
-- A root that is accepted is that of the present tree, or of one that was replaced within the grace
-- period (zkauthn/tree.go: rootAccepted).
use kal_zk.Base.{
  ℕ, ◌+◌, ◌<◌, ◌≡◌, ◌⊎◌, inl, inr, sym, ◌∙◌, true, Bool-cases, bytes_eq, bytes_eq→eq, Bytes, List,
  [], ◌∷◌, some, All, arith,
}
use kal_zk.Hash.{Crypto, field_bytes}
use kal_zk.Store.{RootRow}
use kal_zk.Store.Roots.{is_accepted, any_accepted}
use kal_zk.Tree.Shape.{Leaves, tree_root}
use kal_zk.Tree.History.{Past, Any, IsOf}
use kal_zk.Tree.History.Kept.{IsDated}

-- The state is the present one, or was replaced less than the grace period ago.
abbrev pub IsRecent : Leaves → ℕ → ℕ → Past → Type 0
IsRecent live now grace p =
    (p.leaves ≡ live) ⊎ ((t : ℕ) × (p.until ≡ some t) × (0 < grace) × (now < t + grace))

-- The root is that of a recent state.
abbrev pub IsRootOf : Crypto → Leaves → ℕ → ℕ → Bytes → Past → Type 0
IsRootOf c live now grace root p =
    (root ≡ field_bytes (tree_root c p.leaves)) × IsRecent live now grace p

module _ (c : Crypto) (live : Leaves) (now grace : ℕ) (root : Bytes) where
  is_accepted-IsRootOf :
      (r : RootRow) (p : Past)
      → is_accepted now grace root r ≡ true
      → IsOf c r p
      → IsDated live p
      → IsRootOf c live now grace root p
  unfolding is_accepted
  is_accepted-IsRootOf r p h (same, at) dated = elim (Bool-cases (bytes_eq r.root root)) [
    | inr other ↦ cc (rw (is_accepted, other) at h)
    | inl here ↦ elim dated [
      | inl (open_, now_live) ↦ (sym (bytes_eq→eq _ _ here) ∙ same, inl now_live)
      | inr (t, ended) ↦
          let both = rw (is_accepted, here, at, ended) at h in
          (
            sym (bytes_eq→eq _ _ here) ∙ same,
            inr (t, ended, ground (arith, both), ground (arith, both)),
          )
    ]
  ]

  row-IsRootOf :
      (r : RootRow) (past : List Past)
      → is_accepted now grace root r ≡ true
      → Any (IsOf c r) past
      → All (IsDated live) past
      → Any (IsRootOf c live now grace root) past
  row-IsRootOf r [] h here dated = elim here [ ]
  row-IsRootOf r (p ∷ past) h (inl here) (first, rest) = inl (is_accepted-IsRootOf r p h here first)
  row-IsRootOf r (p ∷ past) h (inr older) (first, rest) = inr (row-IsRootOf r past h older rest)

  pub any_accepted-IsRootOf :
      (rows : List RootRow) (past : List Past)
      → any_accepted now grace root rows ≡ true
      → All (λ r. Any (IsOf c r) past) rows
      → All (IsDated live) past
      → Any (IsRootOf c live now grace root) past
  unfolding any_accepted
  any_accepted-IsRootOf [] past h here dated = cc
  any_accepted-IsRootOf (r ∷ rows) past h (first, rest) dated =
      elim (Bool-cases (is_accepted now grace root r)) [
        | inl this ↦ row-IsRootOf r past this first dated
        | inr other ↦ any_accepted-IsRootOf rows past (rw (any_accepted, other) at h) rest dated
      ]

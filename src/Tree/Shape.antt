-- ===== src/Tree/Shape.antt =====
-- The tree that the tables stand for, as a function of the live leaves alone: no loop, no table and
-- no shortcut for empty subtrees. A leaf is the commitment of a live credential.
use kal_zk.Base.{
  ℕ, zero, suc, ◌+◌, ◌*◌, ◌/◌, ◌<◌, ◌≡◌, refl, ◌≢◌, ◌==◌, if◌then◌else◌, [], ◌∷◌, Option, none,
  some, arith, ap,
}
use kal_zk.Hash.{Field, Crypto, Lawful, domain_empty}

-- The live leaves, by index.
abbrev pub Leaves : Type 0
Leaves = ℕ → Option Field

abbrev pub no_leaves : Leaves
no_leaves i = none

abbrev pub set_leaf : Leaves → ℕ → Option Field → Leaves
set_leaf leaves i v j = if i == j then v else leaves j

-- `i >> k`
unfoldable pub shift_right : ℕ → ℕ → ℕ
shift_right i zero = i
shift_right i (suc k) = shift_right i k / 2

module _ (c : Crypto) where
  abbrev pub hash_pair : Field → Field → Field
  hash_pair a b = c.mimc_sum (a ∷ b ∷ [])

  -- The hash of the empty subtree of a height.
  unfoldable pub empty_hash : ℕ → Field
  empty_hash zero = c.mimc_sum (c.reduce domain_empty ∷ [])
  empty_hash (suc l) = let below = empty_hash l in hash_pair below below

  pub empty_hash-zero : empty_hash 0 ≡ c.mimc_sum (c.reduce domain_empty ∷ [])
  unfolding empty_hash
  empty_hash-zero = refl

  unfoldable pub leaf_value : Option Field → Field
  unfolding empty_hash
  leaf_value none = empty_hash 0
  leaf_value (some commitment) = c.mimc_sum (commitment ∷ [])

  -- The hash of the subtree of height `l` that is the `p`-th from the left.
  unfoldable pub subtree : Leaves → ℕ → ℕ → Field
  subtree leaves zero p = leaf_value (leaves p)
  subtree leaves (suc l) p = hash_pair (subtree leaves l (p * 2)) (subtree leaves l (p * 2 + 1))

  -- The root of the whole tree.
  unfoldable pub tree_root : Leaves → Field
  tree_root leaves = subtree leaves 32 0

  -- A new leaf changes only the subtrees above it.
  pub subtree-set_leaf_ne :
      (leaves : Leaves) (i : ℕ) (v : Option Field) (l p : ℕ)
      → p ≢ shift_right i l
      → subtree (set_leaf leaves i v) l p ≡ subtree leaves l p
  unfolding subtree shift_right
  subtree-set_leaf_ne leaves i v zero p h = ground arith
  subtree-set_leaf_ne leaves i v (suc l) p h = cc (
    subtree-set_leaf_ne leaves i v l (p * 2) (λ e. h (omega arith)),
    subtree-set_leaf_ne leaves i v l (p * 2 + 1) (λ e. h (omega arith)),
  )

  -- Leaves that agree everywhere make the same tree.
  pub subtree_ext :
      (f g : Leaves) → ((i : ℕ) → f i ≡ g i) → (l p : ℕ) → subtree f l p ≡ subtree g l p
  unfolding subtree
  subtree_ext f g h zero p = ap leaf_value (h p)
  subtree_ext f g h (suc l) p = cc (subtree_ext f g h l (p * 2), subtree_ext f g h l (p * 2 + 1))

  pub subtree-no_leaves : (l p : ℕ) → subtree no_leaves l p ≡ empty_hash l
  unfolding subtree leaf_value empty_hash
  subtree-no_leaves zero p = refl
  subtree-no_leaves (suc l) p = cc (subtree-no_leaves l (p * 2), subtree-no_leaves l (p * 2 + 1))

  module _ (laws : Lawful c) where
    pub empty_hash-lt : (l : ℕ) → empty_hash l < c.modulus
    unfolding empty_hash
    empty_hash-lt zero = laws.mimc_sum-lt _
    empty_hash-lt (suc l) = laws.mimc_sum-lt _

    pub subtree-lt : (leaves : Leaves) (l p : ℕ) → subtree leaves l p < c.modulus
    unfolding subtree leaf_value
    subtree-lt leaves zero p = elim (leaves p) as (λ o. leaf_value o < c.modulus) [
      | none ↦ laws.mimc_sum-lt _
      | some commitment ↦ laws.mimc_sum-lt _
    ]
    subtree-lt leaves (suc l) p = laws.mimc_sum-lt _

-- ===== src/Proof/Walk.antt =====
-- The walk up a path of the tree, and what two walks with one root have in common. Where a walk does
-- not begin in the tree, one of its inputs to MiMC is named that meets another input of the tree.
use kal_zk.Base.{
  ℕ, suc, ◌+◌, ◌*◌, ◌/◌, ◌%◌, ◌<◌, ◌^◌, ◌≡◌, ◌≢◌, ◌⊎◌, refl, sym, ap, ◌∙◌, inl, inr, ◌==◌, ==_iff,
  Bool-cases, List, [], ◌∷◌, length, Option, none, some, if◌then◌else◌, arith,
}
use kal_zk.Hash.{Field, Crypto, domain_empty}
use kal_zk.Tree.Write.{shift_right-top}
use kal_zk.Tree.Shape.{Leaves, shift_right, subtree, leaf_value, tree_root, hash_pair, empty_hash}

-- The input that a node at a place makes with its sibling.
abbrev pub pair_input : ℕ → Field → Field → List Field
pair_input p sum s = if p % 2 == 0 then sum ∷ s ∷ [] else s ∷ sum ∷ []

module _ (c : Crypto) where
  abbrev pub next_sum : ℕ → Field → Field → Field
  next_sum p sum s = if p % 2 == 0 then c.mimc_sum (sum ∷ s ∷ []) else c.mimc_sum (s ∷ sum ∷ [])

  -- The root above a node.
  abbrev pub walk : ℕ → Field → List Field → Field
  walk p sum [] = sum
  walk p sum (s ∷ ss) = walk (p / 2) (next_sum p sum s) ss

  -- The two inputs differ and have one hash.
  abbrev pub Clash : List Field → List Field → Type 0
  Clash xs ys = (c.mimc_sum xs ≡ c.mimc_sum ys) × (xs ≢ ys)

  pair_cases :
      (a b x y : Field)
      → hash_pair c a b ≡ hash_pair c x y
      → ((a ≡ x) × (b ≡ y)) ⊎ Clash (a ∷ b ∷ []) (x ∷ y ∷ [])
  pair_cases a b x y h = elim (Bool-cases (a == x)) [
    | inr ne ↦ inr (h, λ e. ground (arith, ne, e))
    | inl same ↦ elim (Bool-cases (b == y)) [
      | inr ne ↦ inr (h, λ e. ground (arith, ne, e))
      | inl also ↦ inl ((==_iff a x).0 same, (==_iff b y).0 also)
    ]
  ]

  one_cases :
      (a x : Field) → c.mimc_sum (a ∷ []) ≡ c.mimc_sum (x ∷ []) → (a ≡ x) ⊎ Clash (a ∷ []) (x ∷ [])
  one_cases a x h = elim (Bool-cases (a == x)) [
    | inr ne ↦ inr (h, λ e. ground (arith, ne, e))
    | inl same ↦ inl ((==_iff a x).0 same)
  ]

  -- What the tree hashes for a leaf, or for an empty place.
  abbrev pub leaf_input : Option Field → Field
  leaf_input none = c.reduce domain_empty
  leaf_input (some f) = f

  module _ (leaves : Leaves) where
    -- On the way up from a node of a height, a walk hashes an input other than that of the tree's
    -- node there, to the same value.
    abbrev pub Clashes : ℕ → ℕ → Field → List Field → Type 0
    Clashes l p sum [] = ⊥
    Clashes l p sum (s ∷ ss) =
        Clash (pair_input p sum s)
          (subtree c leaves l (p / 2 * 2) ∷ subtree c leaves l (p / 2 * 2 + 1) ∷ [])
        ⊎ Clashes (suc l) (p / 2) (next_sum p sum s) ss

    -- MiMC fails a walk from a leaf: it hashes the leaf, or a pair above it, like another input of
    -- the tree; or the leaf is the constant of an empty place.
    abbrev pub Breaks : ℕ → Field → List Field → Type 0
    Breaks i leaf siblings =
        Clashes 0 i (c.mimc_sum (leaf ∷ [])) siblings
        ⊎ (Clash (leaf ∷ []) (leaf_input (leaves i) ∷ []) ⊎ (leaf ≡ c.reduce domain_empty))

    -- A level up that ends in the tree began in the tree.
    pub step-binds :
        (l p : ℕ) (sum s : Field)
        → next_sum p sum s ≡ subtree c leaves (suc l) (p / 2)
        → (sum ≡ subtree c leaves l p)
          ⊎ Clash
              (pair_input p sum s)
              (subtree c leaves l (p / 2 * 2) ∷ subtree c leaves l (p / 2 * 2 + 1) ∷ [])
    unfolding subtree
    step-binds l p sum s e = elim (Bool-cases (p % 2 == 0)) [
      | inl even ↦
          let left : p / 2 * 2 ≡ p = ground arith in
          elim (pair_cases sum s _ _ (rw even at e)) [
            | inl (same, _) ↦ inl (same ∙ ap (subtree c leaves l) left)
            | inr broken ↦ rw even (inr broken)
          ]
      | inr odd ↦
          let right : p / 2 * 2 + 1 ≡ p = ground arith in
          elim (pair_cases s sum _ _ (rw odd at e)) [
            | inl (_, same) ↦ inl (same ∙ ap (subtree c leaves l) right)
            | inr broken ↦ rw odd (inr broken)
          ]
    ]

    walk-subtree :
        (l i m : ℕ) (sum : Field) (siblings : List Field)
        → length siblings + l ≡ m
        → walk (shift_right i l) sum siblings ≡ subtree c leaves m (shift_right i m)
        → (sum ≡ subtree c leaves l (shift_right i l)) ⊎ Clashes l (shift_right i l) sum siblings
    unfolding shift_right
    walk-subtree l i m sum [] size e =
        let level : m ≡ l = omega (arith, size) in inl (rw level at e)
    walk-subtree l i m sum (s ∷ ss) size e =
        elim (walk-subtree (suc l) i m _ ss (omega (arith, size)) e) [
          | inl above ↦ elim (step-binds l (shift_right i l) sum s above) [
            | inl same ↦ inl same
            | inr broken ↦ inr (inl broken)
          ]
          | inr broken ↦ inr (inr broken)
        ]

    leaf_value-binds :
        (leaf : Field) (v : Option Field)
        → c.mimc_sum (leaf ∷ []) ≡ leaf_value c v
        → (v ≡ some leaf) ⊎ (Clash (leaf ∷ []) (leaf_input v ∷ []) ⊎ (leaf ≡ c.reduce domain_empty))
    unfolding leaf_value empty_hash
    leaf_value-binds leaf none e = elim (one_cases leaf (c.reduce domain_empty) e) [
      | inl constant ↦ inr (inr constant)
      | inr broken ↦ inr (inl broken)
    ]
    leaf_value-binds leaf (some f) e = elim (one_cases leaf f e) [
      | inl same ↦ inl (ap some (sym same))
      | inr broken ↦ inr (inl broken)
    ]

    subtree-zero : (i : ℕ) → subtree c leaves 0 i ≡ leaf_value c (leaves i)
    unfolding subtree
    subtree-zero i = refl

    -- A walk of 32 levels from an index to the root of the tree begins in its leaf.
    pub walk-binds :
        (i : ℕ) (leaf : Field) (siblings : List Field)
        → length siblings ≡ 32
        → i < 2 ^ 32
        → walk i (c.mimc_sum (leaf ∷ [])) siblings ≡ tree_root c leaves
        → (leaves i ≡ some leaf) ⊎ Breaks i leaf siblings
    unfolding tree_root shift_right
    walk-binds i leaf siblings size small e =
        let top = e ∙ ap (subtree c leaves 32) (sym (shift_right-top i (omega (arith, small)))) in
        elim (walk-subtree 0 i 32 (c.mimc_sum (leaf ∷ [])) siblings (omega (arith, size)) top) [
          | inr broken ↦ inr (inl broken)
          | inl below ↦ elim (leaf_value-binds leaf (leaves i) (below ∙ subtree-zero i)) [
            | inl live ↦ inl live
            | inr broken ↦ inr (inr broken)
          ]
        ]

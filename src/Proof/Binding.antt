-- ===== src/Proof/Binding.antt =====
-- What the oracle of zkauthn/proof.go binds: a valid witness is one of a live leaf, unless one of the
-- inputs that its path hashes meets another input of the tree.
use kal_zk.Base.{
  ℕ, suc, ◌/◌, ◌%◌, ◌≤◌, ◌≡◌, ◌⊎◌, refl, sym, ap, ◌∙◌, inl, inr, Bool, true, false, not, ◌||◌, ltb,
  ◌==◌, ==_iff, Bool-cases, neither, List, [], ◌∷◌, length, get_or, some, if◌then◌else◌, arith,
}
use kal_zk.Error.{ok, Result-cases, result_bind-ok, ok-injective, require-ok}
use kal_zk.Hash.{
  Field, Crypto, native_hash, hash_with_domain, writes_ok, membership_leaf, nullifier_for,
  element_bytes, uint64_field,
}
use kal_zk.Hash.Commitments.{leaf_commitment, pseudonym}
use kal_zk.Tree.{max_uint32}
use kal_zk.Tree.Shape.{Leaves, shift_right, tree_root}
use kal_zk.Proof.{
  MembershipWitness, combine, fold_path, root_valid, nullifier_valid, membership_valid, rest_of,
}
use kal_zk.Proof.Walk.{next_sum, walk, Breaks, walk-binds}

module _ (c : Crypto) where
  native_hash-eq : (xs : List Field) {y : Field} → native_hash c xs ≡ ok y → y ≡ c.mimc_sum xs
  unfolding native_hash
  native_hash-eq xs h = sym (ok-injective (require-ok _ (writes_ok c xs) _ h).1)

  combine-next_sum :
      (p : ℕ) (sum s next : Field) → combine c p sum s ≡ ok next → next ≡ next_sum c p sum s
  unfolding combine
  combine-next_sum p sum s next run = elim (Bool-cases (p % 2 == 0)) [
    | inl even ↦ rw even (native_hash-eq (sum ∷ s ∷ []) (rw even at run))
    | inr odd ↦ rw odd (native_hash-eq (s ∷ sum ∷ []) (rw odd at run))
  ]

  fold_path-walk :
      (l i : ℕ) (sum root : Field) (siblings : List Field)
      → fold_path c l i sum siblings ≡ ok root
      → root ≡ walk c (shift_right i l) sum siblings
  unfolding fold_path shift_right
  fold_path-walk l i sum root [] run = sym (ok-injective run)
  fold_path-walk l i sum root (s ∷ ss) run =
      let (next, up, rest) = result_bind-ok (combine c (shift_right i l) sum s) _ run in
      fold_path-walk (suc l) i next root ss rest
      ∙ ap (λ n. walk c (shift_right i l / 2) n ss)
          (combine-next_sum (shift_right i l) sum s next up)

unless-true : (b r : Bool) → (if b then false else r) ≡ true → (b ≡ false) × (r ≡ true)
unless-true true r h = cc
unless-true false r h = (refl, h)

module _ (c : Crypto) (leaves : Leaves) where
  root_valid-binds :
      (w : MembershipWitness) (leaf : Field)
      → root_valid c w ≡ true
      → w.root ≡ tree_root c leaves
      → length (rest_of w.path) ≡ 32
      → w.index ≤ max_uint32
      → get_or w.path 0 0 ≡ leaf
      → (leaves w.index ≡ some leaf) ⊎ Breaks c leaves w.index leaf (rest_of w.path)
  unfolding root_valid shift_right
  root_valid-binds w leaf valid root size small first =
      elim (Result-cases (native_hash c (get_or w.path 0 0 ∷ []))) [
        | inr (e, failed) ↦ cc (rw (root_valid, failed) at valid)
        | inl (start, hashed) ↦ elim (Result-cases (fold_path c 0 w.index start (rest_of w.path))) [
          | inr (e, failed) ↦ cc (rw (root_valid, hashed, failed) at valid)
          | inl (sum, folded) ↦
              let same = (==_iff sum w.root).0 (rw (root_valid, hashed, folded) at valid) in
              let begin = native_hash-eq c _ hashed ∙ ap (λ f. c.mimc_sum (f ∷ [])) first in
              walk-binds c leaves w.index leaf (rest_of w.path) size (omega (arith, small)) (
                ap (λ f. walk c w.index f (rest_of w.path)) (sym begin)
                ∙ sym (fold_path-walk c 0 w.index start sum (rest_of w.path) folded)
                ∙ same
                ∙ root)
        ]
      ]

  nullifier_valid-binds :
      (w : MembershipWitness)
      → nullifier_valid c w ≡ true
      → (w.nullifier ≡ pseudonym c w.secret w.audience) × (root_valid c w ≡ true)
  unfolding nullifier_valid nullifier_for hash_with_domain element_bytes
  nullifier_valid-binds w valid = elim (Result-cases (nullifier_for c w.secret w.audience)) [
    | inr (e, failed) ↦ cc (rw (nullifier_valid, failed) at valid)
    | inl (nullifier, hashed) ↦ elim (Bool-cases (nullifier == w.nullifier)) [
      | inr other ↦ cc (rw (nullifier_valid, hashed, other) at valid)
      | inl same ↦ (
        sym ((==_iff nullifier w.nullifier).0 same) ∙ native_hash-eq c _ hashed,
        rw (nullifier_valid, hashed, same) at valid,
      )
    ]
  ]

  -- If MembershipValid accepts a witness whose root is that of a tree with some leaves, whose path
  -- has 32 siblings and whose index has 32 bits, then its attribute reaches its threshold, its
  -- nullifier is the pseudonym of its secret for its audience, and the tree has, at its index, the
  -- leaf of its secret and attribute; or else MiMC fails this walk: the leaf, or a pair that the
  -- path hashes, has the hash of the different input which the tree has there, or the leaf is the
  -- constant of an empty place.
  pub membership_valid-binds :
      (w : MembershipWitness)
      → w.root ≡ tree_root c leaves
      → length (rest_of w.path) ≡ 32
      → w.index ≤ max_uint32
      → membership_valid c w ≡ true
      → (w.threshold ≤ w.attribute)
        × (w.nullifier ≡ pseudonym c w.secret w.audience)
        × ((leaves w.index ≡ some (leaf_commitment c w.secret w.attribute))
            ⊎ Breaks c leaves w.index (leaf_commitment c w.secret w.attribute) (rest_of w.path))
  unfolding membership_valid membership_leaf hash_with_domain element_bytes uint64_field
  membership_valid-binds w root size small valid =
      elim (Result-cases (membership_leaf c w.secret w.attribute)) [
        | inr (e, failed) ↦ cc (rw (membership_valid, failed) at valid)
        | inl (leaf, hashed) ↦
            let (tests, rest) =
              unless-true (not (leaf == get_or w.path 0 0) || ltb w.attribute w.threshold) _
                (rw (membership_valid, hashed) at valid) in
            let (first, order) = neither (leaf == get_or w.path 0 0) _ tests in
            let (nullifier, path) = nullifier_valid-binds w rest in
            let at_leaf =
              sym ((==_iff leaf (get_or w.path 0 0)).0 first) ∙ native_hash-eq c _ hashed in
            (ground (arith, order), nullifier, root_valid-binds w _ path root size small at_leaf)
      ]

-- ===== src/Proof/Completeness.antt =====
-- The oracle accepts what the tree hands out: the path of a leaf recomputes the root.
use kal_zk.Base.{
  ℕ, zero, suc, ◌+◌, ◌*◌, ◌/◌, ◌%◌, ◌-◌, ◌≤◌, ◌<◌, ◌≡◌, ap, ◌∙◌, true, ◌==◌, [], ◌∷◌, some, arith,
  inl, inr, Bool-cases,
}
use native.Mathlib.Nat.{zero-add}
use kal_zk.Error.{ok}
use kal_zk.Hash.{Field, Secret, Crypto, Lawful}
use kal_zk.Hash.Encoding.{native_hash-ok}
use kal_zk.Hash.Commitments.{
  IsSecret, leaf_commitment, pseudonym, membership_leaf-ok, nullifier_for-ok,
}
use kal_zk.Tree.{xor_one, max_uint32}
use kal_zk.Tree.Paths.{sibling_hashes}
use kal_zk.Tree.Write.{shift_right-top}
use kal_zk.Tree.Shape.{Leaves, shift_right, subtree, subtree-lt, leaf_value, tree_root}
use kal_zk.Proof.{combine, fold_path, root_valid, nullifier_valid, membership_valid}

module _ (c : Crypto) (laws : Lawful c) (leaves : Leaves) where
  combine-subtree :
      (l p : ℕ)
      → combine c p (subtree c leaves l p) (subtree c leaves l (xor_one p))
        ≡ ok (subtree c leaves (suc l) (p / 2))
  unfolding combine xor_one subtree
  combine-subtree l p =
      let lt = λ (q : ℕ). subtree-lt c laws leaves l q in
      elim (Bool-cases (p % 2 == 0)) [
        | inl even ↦
            let left : p / 2 * 2 ≡ p = ground arith in
            rw (even, left) (native_hash-ok c laws _ (lt p, (lt (p + 1), tt)))
        | inr odd ↦
            let right : p / 2 * 2 + 1 ≡ p = ground arith in
            let left : p / 2 * 2 ≡ p - 1 = ground arith in
            rw (odd, right, left) (native_hash-ok c laws _ (lt (p - 1), (lt p, tt)))
      ]

  pub fold_path-subtree :
      (k l i : ℕ)
      → fold_path c l i
          (subtree c leaves l (shift_right i l))
          (sibling_hashes c leaves k l (shift_right i l))
        ≡ ok (subtree c leaves (k + l) (shift_right i (k + l)))
  unfolding fold_path sibling_hashes shift_right
  fold_path-subtree zero l i = rw zero-add
  fold_path-subtree (suc k) l i =
      let step : suc k + l ≡ k + suc l = omega arith in
      rw (combine-subtree l (shift_right i l), step) (fold_path-subtree k (suc l) i)

  fold_path-leaf :
      (k i : ℕ) (commitment : Field)
      → leaves i ≡ some commitment
      → fold_path c 0 i (c.mimc_sum (commitment ∷ [])) (sibling_hashes c leaves k 0 i)
        ≡ ok (subtree c leaves k (shift_right i k))
  unfolding subtree leaf_value shift_right
  fold_path-leaf k i commitment e =
      let whole : k + 0 ≡ k = omega arith in rw (e, whole) at (fold_path-subtree k 0 i)

  -- From a leaf all the way up.
  pub fold_path-root :
      (i : ℕ) (commitment : Field)
      → i ≤ max_uint32
      → leaves i ≡ some commitment
      → fold_path c 0 i (c.mimc_sum (commitment ∷ [])) (sibling_hashes c leaves 32 0 i)
        ≡ ok (tree_root c leaves)
  unfolding tree_root
  fold_path-root i commitment small e =
      fold_path-leaf 32 i commitment e
      ∙ ap (λ q. ok (subtree c leaves 32 q)) (shift_right-top i small)

  -- A credential of a live leaf, with the path of that leaf and the root of the tree, makes a
  -- valid witness for every audience and for every threshold that its attribute reaches.
  pub membership_valid-intro :
      (secret : Secret) (attribute i threshold challenge : ℕ) (audience : Field)
      → IsSecret secret
      → i ≤ max_uint32
      → leaves i ≡ some (leaf_commitment c secret attribute)
      → audience < c.modulus
      → threshold ≤ attribute
      → membership_valid c (record {
        secret = secret;
        attribute = attribute;
        path = leaf_commitment c secret attribute ∷ sibling_hashes c leaves 32 0 i;
        index = i;
        root = tree_root c leaves;
        audience = audience;
        threshold = threshold;
        nullifier = pseudonym c secret audience;
        challenge = challenge;
      })
        ≡ true
  unfolding membership_valid nullifier_valid root_valid
  membership_valid-intro secret attribute i threshold challenge audience hs small e a t =
      let leaf = leaf_commitment c secret attribute in
      ground (
        arith,
        membership_leaf-ok c laws secret attribute hs,
        nullifier_for-ok c laws secret audience hs a,
        native_hash-ok c laws (leaf ∷ []) (laws.mimc_sum-lt _, tt),
        fold_path-root i leaf small e,
      )

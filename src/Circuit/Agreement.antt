-- ===== src/Circuit/Agreement.antt =====
-- The circuits of zkauthn/circuits.go and the oracles of zkauthn/proof.go accept the same witnesses.
use kal_zk.Base.{
  ℕ, suc, ◌^◌, ◌%◌, ◌≤◌, ◌<◌, ◌≡◌, refl, ap, ◌∙◌, Bool, true, false, ◌&&◌, ◌||◌, not, ltb, leb,
  ◌==◌, if◌then◌else◌, List, [], ◌∷◌, length, get_or, All, arith, Bool-cases, inl, inr, lt→ltb,
}
use kal_zk.Error.{ok}
use kal_zk.Hash.{
  Field, Crypto, Lawful, secret_field, domain_knowledge, domain_leaf, domain_nullifier,
}
use kal_zk.Hash.Encoding.{native_hash-ok}
use kal_zk.Hash.Commitments.{
  IsSecret, pseudonym, knowledge_commitment-ok, membership_leaf-ok, nullifier_for-ok,
}
use kal_zk.Tree.Shape.{shift_right}
use kal_zk.Proof.{
  KnowledgeWitness, MembershipWitness, combine, fold_path, root_valid, nullifier_valid,
  membership_valid, knowledge_valid,
}
use kal_zk.Circuit.{
  Gadgets, LawfulGadgets, path_root, assign_knowledge, assign_membership, define_knowledge,
  define_membership, satisfied, holds, max_uint64,
}

-- A witness of the types that Go gives it: a 31-byte secret, 64-bit numbers, a 32-bit index, and a
-- path of one leaf and 32 siblings, all canonical.
pub record IsTyped (c : Crypto) (w : MembershipWitness) : Type 0 where
  pub leaf : Field
  pub siblings : List Field
  pub secret : IsSecret w.secret
  pub attribute : w.attribute ≤ max_uint64
  pub threshold : w.threshold ≤ max_uint64
  pub index : w.index < 2 ^ 32
  pub path : w.path ≡ leaf ∷ siblings
  pub length_siblings : length siblings ≡ 32
  pub canonical_leaf : leaf < c.modulus
  pub canonical_siblings : All (λ s. s < c.modulus) siblings
  pub audience : w.audience < c.modulus

module _ (c : Crypto) (laws : Lawful c) (g : Gadgets) (gnark : LawfulGadgets c g) where
  pub satisfied-define_knowledge :
      (w : KnowledgeWitness)
      → IsSecret w.secret
      → satisfied c g (define_knowledge c g (assign_knowledge w)) ≡ knowledge_valid c w
  unfolding satisfied define_knowledge assign_knowledge knowledge_valid
  satisfied-define_knowledge w hs = ground (
    arith,
    knowledge_commitment-ok c laws w.secret hs,
    gnark.mimc_lem (c.reduce domain_knowledge ∷ secret_field w.secret ∷ []),
  )

  -- One level of the oracle's fold is one of gnark's.
  combine_lem :
      (bits : ℕ) (sum s : Field)
      → sum < c.modulus
      → s < c.modulus
      → combine c bits sum s
        ≡ ok (if bits % 2 == 0 then g.mimc (sum ∷ s ∷ []) else g.mimc (s ∷ sum ∷ []))
  unfolding combine
  combine_lem bits sum s a b = elim (Bool-cases (bits % 2 == 0)) [
    | inl even ↦ rw (even, gnark.mimc_lem (sum ∷ s ∷ [])) (native_hash-ok c laws _ (a, (b, tt)))
    | inr odd ↦ rw (odd, gnark.mimc_lem (s ∷ sum ∷ [])) (native_hash-ok c laws _ (b, (a, tt)))
  ]

  mimc-lt : (xs : List Field) → g.mimc xs < c.modulus
  mimc-lt xs = rw (gnark.mimc_lem xs) (laws.mimc_sum-lt xs)

  next-lt :
      (b : Bool) (sum s : Field)
      → (if b then g.mimc (sum ∷ s ∷ []) else g.mimc (s ∷ sum ∷ [])) < c.modulus
  next-lt true sum s = mimc-lt _
  next-lt false sum s = mimc-lt _

  -- The fold of the oracle, which shifts the index by the level, is the fold of gnark.
  fold_path-path_root :
      (l i : ℕ) (sum : Field) (siblings : List Field)
      → sum < c.modulus
      → All (λ s. s < c.modulus) siblings
      → fold_path c l i sum siblings ≡ ok (path_root g.mimc (shift_right i l) sum siblings)
  unfolding fold_path shift_right
  fold_path-path_root l i sum [] h hs = refl
  fold_path-path_root l i sum (s ∷ ss) h (hs, rest) =
      rw (combine_lem (shift_right i l) sum s h hs)
        (fold_path-path_root (suc l) i _ ss (next-lt (shift_right i l % 2 == 0) sum s) rest)

  root_valid_lem :
      (w : MembershipWitness) (t : IsTyped c w) → root_valid c w ≡ g.on_path w.root w.path w.index
  unfolding root_valid shift_right
  root_valid_lem w t =
      let start = g.mimc (t.leaf ∷ []) in
      let fold = fold_path-path_root 0 w.index start t.siblings (mimc-lt _) t.canonical_siblings in
      let leaf = native_hash-ok c laws (t.leaf ∷ []) (t.canonical_leaf, tt) in
      let small = lt→ltb w.index (2 ^ 32) t.index in
      let there = gnark.on_path_lem w.root t.leaf w.index t.siblings in
      ground
        (arith, t.path, leaf, fold, there, small, t.length_siblings, gnark.mimc_lem (t.leaf ∷ []))

  fits_64 : (v : ℕ) → v ≤ max_uint64 → g.fits v 64 ≡ true
  fits_64 v h = gnark.fits-ltb v 64 ∙ lt→ltb v (2 ^ 64) (omega (arith, h))

  same_tests :
      (leaf path nullifier : Bool) (attribute threshold : ℕ)
      → (leaf && (path && (leb threshold attribute && (nullifier && true)))) ≡ (
          if not leaf || ltb attribute threshold
          then false
          else (if nullifier then path else false))
  same_tests leaf path nullifier attribute threshold = ground arith

  -- What the oracle tests.
  membership_valid_lem :
      (w : MembershipWitness) (t : IsTyped c w)
      → membership_valid c w ≡ (
          if not (
              c.mimc_sum (c.reduce domain_leaf ∷ secret_field w.secret ∷ w.attribute ∷ [])
              == get_or w.path 0 0)
            || ltb w.attribute w.threshold
          then false
          else (if pseudonym c w.secret w.audience == w.nullifier
              then g.on_path w.root w.path w.index
              else false))
  unfolding membership_valid nullifier_valid
  membership_valid_lem w t =
      let small = laws.reduce_small w.attribute (omega (arith, t.attribute, laws.modulus_lower)) in
      let leaf =
        membership_leaf-ok c laws w.secret w.attribute t.secret
        ∙ ap (λ a. ok (c.mimc_sum (c.reduce domain_leaf ∷ secret_field w.secret ∷ a ∷ []))) small in
      let nullifier = nullifier_for-ok c laws w.secret w.audience t.secret t.audience in
      rw (membership_valid, leaf, nullifier_valid, nullifier, root_valid_lem w t) refl

  pub satisfied-define_membership :
      (w : MembershipWitness)
      → IsTyped c w
      → satisfied c g (define_membership c g (assign_membership w)) ≡ membership_valid c w
  unfolding satisfied holds define_membership assign_membership
  satisfied-define_membership w t =
      let order = gnark.bounded_le-leb max_uint64 w.threshold w.attribute t.threshold t.attribute in
      let leaf = gnark.mimc_lem (c.reduce domain_leaf ∷ secret_field w.secret ∷ w.attribute ∷ []) in
      let tag =
        gnark.mimc_lem (c.reduce domain_nullifier ∷ secret_field w.secret ∷ w.audience ∷ []) in
      rw
        (
          membership_valid_lem w t,
          fits_64 w.attribute t.attribute,
          fits_64 w.threshold t.threshold,
          order,
          leaf,
          tag,
        )
        (same_tests _ _ _ w.attribute w.threshold)

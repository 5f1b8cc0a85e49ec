-- ===== src/Circuit/Binding.antt =====
-- What the membership circuit of zkauthn/circuits.go binds: values that meet its constraints are those of
-- a live leaf, unless an input that their path hashes meets another input of the tree.
use kal_zk.Base.{
  ℕ, ◌/◌, ◌^◌, ◌≤◌, ◌≡◌, ◌⊎◌, refl, sym, ap, ◌∙◌, Bool, true, false, ◌&&◌, ltb, ==_iff, List, [],
  ◌∷◌, length, get_or, some, arith, fun_ext, ltb→lt,
}
use kal_zk.Hash.{Field, Crypto, domain_leaf, domain_nullifier}
use kal_zk.Tree.Shape.{Leaves, tree_root}
use kal_zk.Proof.{rest_of}
use kal_zk.Proof.Walk.{walk, Breaks, walk-binds}
use kal_zk.Circuit.{
  MembershipCircuit, Gadgets, LawfulGadgets, path_root, define_membership, satisfied, holds,
  max_uint64,
}

both : (a b : Bool) → (a && b) ≡ true → (a ≡ true) × (b ≡ true)
both true b h = (refl, h)
both false b h = cc

module _ (c : Crypto) (leaves : Leaves) where
  path_root-walk :
      (i : ℕ) (sum : Field) (siblings : List Field)
      → path_root c.mimc_sum i sum siblings ≡ walk c i sum siblings
  path_root-walk i sum [] = refl
  path_root-walk i sum (s ∷ ss) = path_root-walk (i / 2) _ ss

  -- What the values of a satisfied membership circuit are.
  pub record IsMember (a : MembershipCircuit) : Type 0 where
    pub reached : a.threshold ≤ a.attribute
    pub bounded : a.attribute ≤ max_uint64
    pub nullifier :
        a.nullifier ≡ c.mimc_sum (c.reduce domain_nullifier ∷ a.secret ∷ a.audience ∷ [])
    pub leaf :
        let leaf = c.mimc_sum (c.reduce domain_leaf ∷ a.secret ∷ a.attribute ∷ []) in
        (leaves a.index ≡ some leaf) ⊎ Breaks c leaves a.index leaf (rest_of a.path)

  module _ (g : Gadgets) (gnark : LawfulGadgets c g) where
    mimc_ext : g.mimc ≡ c.mimc_sum
    mimc_ext = fun_ext gnark.mimc_lem

    verify_path-binds :
        (root leaf index : Field) (path : List Field)
        → length path ≡ 33
        → g.on_path root path index ≡ true
        → root ≡ tree_root c leaves
        → get_or path 0 0 ≡ leaf
        → (leaves index ≡ some leaf) ⊎ Breaks c leaves index leaf (rest_of path)
    verify_path-binds root leaf index [] size on same first = absurd (omega (arith, size))
    verify_path-binds root leaf index (x ∷ siblings) size on same first =
        let width : length siblings ≡ 32 = omega (arith, size) in
        let checked = sym (gnark.on_path_lem root x index siblings) ∙ on in
        let (within, at_root) = both (ltb index (2 ^ length siblings)) _ checked in
        let small = ltb→lt index (2 ^ 32) (rw width at within) in
        let sum = (==_iff _ root).0 at_root in
        let begin = ap (λ f. walk c index (c.mimc_sum (f ∷ [])) siblings) (sym first) in
        walk-binds c leaves index leaf siblings width small (
          begin
          ∙ sym (path_root-walk index (c.mimc_sum (x ∷ [])) siblings)
          ∙ ap (λ h. path_root h index (h (x ∷ [])) siblings) (sym mimc_ext)
          ∙ sum
          ∙ same)

    -- Values with a path of 33 fields that meet the constraints of the membership circuit, and
    -- whose root is that of a tree with some leaves, are those of a member of the tree, unless
    -- MiMC fails their walk.
    pub satisfied-IsMember :
        (a : MembershipCircuit)
        → length a.path ≡ 33
        → a.root ≡ tree_root c leaves
        → satisfied c g (define_membership c g a) ≡ true
        → IsMember a
    unfolding satisfied holds define_membership
    satisfied-IsMember a size root meets =
        let (attribute_bits, m1) = both _ _ meets in
        let (threshold_bits, m2) = both _ _ m1 in
        let (leaf, m3) = both _ _ m2 in
        let (path, m4) = both _ _ m3 in
        let (order, m5) = both _ _ m4 in
        let (tag, _) = both _ _ m5 in
        let attribute =
          ltb→lt a.attribute (2 ^ 64) (sym (gnark.fits-ltb a.attribute 64) ∙ attribute_bits) in
        let threshold =
          ltb→lt a.threshold (2 ^ 64) (sym (gnark.fits-ltb a.threshold 64) ∙ threshold_bits) in
        let ordered =
          sym (
            gnark.bounded_le-leb max_uint64 a.threshold a.attribute (omega (arith, threshold))
              (omega (arith, attribute)))
          ∙ order in
        record {
          reached = ground (arith, ordered);
          bounded = omega (arith, attribute);
          nullifier = sym ((==_iff _ a.nullifier).0 tag) ∙ gnark.mimc_lem _;
          leaf =
              verify_path-binds a.root _ a.index a.path size path root
                (sym ((==_iff _ (get_or a.path 0 0)).0 leaf) ∙ gnark.mimc_lem _);
        }

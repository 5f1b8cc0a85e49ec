-- ===== src/Circuit.antt =====
-- zkauthn/circuits.go: what the two circuits constrain. `Define` is the list of the constraints that
-- it makes, over the values that a prover assigns. gnark's gadgets are the record `Gadgets`, and what
-- the code relies on is `LawfulGadgets`.
pub mod Agreement
pub mod Binding
use kal_zk.Base.{
  ℕ, suc, ◌+◌, ◌*◌, ◌-◌, ◌^◌, ◌/◌, ◌%◌, ◌≤◌, ◌<◌, ◌≡◌, Bool, true, false, ◌&&◌, ltb, leb, ◌==◌,
  if◌then◌else◌, Bytes, List, [], ◌∷◌, length, get_or,
}
use kal_zk.Hash.{
  Field, Secret, Crypto, domain_knowledge, domain_leaf, domain_nullifier, secret_field,
}
use kal_zk.Proof.{KnowledgeWitness, MembershipWitness}

-- The variables of the circuits, with their values.
pub record KnowledgeCircuit : Type 0 where
  pub commitment : Field
  pub challenge : Field
  pub secret : Field

pub record MembershipCircuit : Type 0 where
  pub root : Field
  pub audience : Field
  pub threshold : Field
  pub nullifier : Field
  pub challenge : Field
  pub secret : Field
  pub attribute : Field
  pub path : List Field
  pub index : Field

-- A constraint that the code asks of gnark.
pub data Constraint : Type 0 where
  -- `ToBinary` into so many bits
  to_binary : Field → ℕ → Constraint
  assert_equal : Field → Field → Constraint
  -- `VerifyProof` of a root, a path and an index
  verify_path : Field → List Field → Field → Constraint
  -- `AssertIsLessEq` under a bound
  less_or_equal : ℕ → Field → Field → Constraint
  multiply : Field → Field → Constraint

pub record Gadgets : Type 0 where
  -- The MiMC gadget: `Sum` after the blocks of a list.
  pub mimc : List Field → Field
  pub fits : Field → ℕ → Bool
  pub on_path : Field → List Field → Field → Bool
  pub bounded_le : ℕ → Field → Field → Bool

-- The root above a node, by the bits of its index.
abbrev pub path_root : (List Field → Field) → ℕ → Field → List Field → Field
path_root h index sum [] = sum
path_root h index sum (s ∷ ss) =
    path_root h (index / 2) (if index % 2 == 0 then h (sum ∷ s ∷ []) else h (s ∷ sum ∷ [])) ss

-- gnark documents: MiMC agrees with gnark-crypto's; a decomposition into n bits exists below 2 ^ n;
-- a path hashes its first element, and its index has one bit for each other; a bounded comparison
-- is the order where both values are within the bound.
pub record LawfulGadgets (c : Crypto) (g : Gadgets) : Type 0 where
  pub mimc_lem : (xs : List Field) → g.mimc xs ≡ c.mimc_sum xs
  pub fits-ltb : (v n : ℕ) → g.fits v n ≡ ltb v (2 ^ n)
  pub on_path_lem :
      (root leaf index : Field) (siblings : List Field)
      → g.on_path root (leaf ∷ siblings) index ≡ (
          ltb index (2 ^ length siblings)
          && path_root g.mimc index (g.mimc (leaf ∷ [])) siblings == root)
  pub bounded_le-leb : (bound a b : ℕ) → a ≤ bound → b ≤ bound → g.bounded_le bound a b ≡ leb a b

-- `w.assignment()`
unfoldable pub assign_knowledge : KnowledgeWitness → KnowledgeCircuit
assign_knowledge w = record {
  commitment = w.commitment;
  challenge = w.challenge;
  secret = secret_field w.secret;
}

unfoldable pub assign_membership : MembershipWitness → MembershipCircuit
assign_membership w = record {
  root = w.root;
  audience = w.audience;
  threshold = w.threshold;
  nullifier = w.nullifier;
  challenge = w.challenge;
  secret = secret_field w.secret;
  attribute = w.attribute;
  path = w.path;
  index = w.index;
}

-- `2^64 - 1`
abbrev pub max_uint64 : ℕ
max_uint64 = 18446744073709551615

module _ (c : Crypto) (g : Gadgets) where
  -- `KnowledgeCircuit.Define`
  unfoldable pub define_knowledge : KnowledgeCircuit → List Constraint
  define_knowledge k =
      assert_equal (g.mimc (c.reduce domain_knowledge ∷ k.secret ∷ [])) k.commitment
      ∷ multiply k.challenge k.challenge
      ∷ []

  -- `MembershipCircuit.Define`
  unfoldable pub define_membership : MembershipCircuit → List Constraint
  define_membership m =
      to_binary m.attribute 64
      ∷ to_binary m.threshold 64
      ∷ assert_equal (g.mimc (c.reduce domain_leaf ∷ m.secret ∷ m.attribute ∷ []))
          (get_or m.path 0 0)
      ∷ verify_path m.root m.path m.index
      ∷ less_or_equal max_uint64 m.threshold m.attribute
      ∷ assert_equal (g.mimc (c.reduce domain_nullifier ∷ m.secret ∷ m.audience ∷ [])) m.nullifier
      ∷ multiply m.challenge m.challenge
      ∷ []

  -- A product is a new variable, which always has its value.
  unfoldable pub holds : Constraint → Bool
  holds (to_binary v n) = g.fits v n
  holds (assert_equal a b) = a == b
  holds (verify_path root path index) = g.on_path root path index
  holds (less_or_equal bound a b) = g.bounded_le bound a b
  holds (multiply a b) = true

  unfoldable pub satisfied : List Constraint → Bool
  unfolding holds
  satisfied [] = true
  satisfied (x ∷ xs) = holds x && satisfied xs

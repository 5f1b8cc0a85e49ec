-- ===== src/Proof.antt =====
-- zkauthn/proof.go: the witnesses of the two circuits, the plain-Go oracles of what a proof
-- establishes, and the path of a tree with one leaf.
pub mod Completeness
pub mod Issued
pub mod Torn
pub mod Walk
pub mod Binding
use kal_zk.Base.{
  ℕ, zero, suc, ◌%◌, Bool, true, false, not, ◌||◌, ltb, ◌==◌, if◌then◌else◌, List, [], ◌∷◌, get_or,
}
use kal_zk.Error.{Result, ok, err, result_bind}
use kal_zk.Hash.{
  Field, Secret, Crypto, native_hash, knowledge_commitment, membership_leaf, nullifier_for,
  empty_leaf,
}
use kal_zk.Tree.{MerklePath, Credential, merkle_depth}
use kal_zk.Tree.Shape.{shift_right}

pub record KnowledgeWitness : Type 0 where
  pub secret : Secret
  pub commitment : Field
  pub challenge : Field

pub record MembershipWitness : Type 0 where
  pub secret : Secret
  pub attribute : ℕ
  pub path : List Field
  pub index : ℕ
  pub root : Field
  pub audience : Field
  pub threshold : ℕ
  pub nullifier : Field
  pub challenge : Field

-- `MembershipWitnessFor` of zkauthn/protocol.go; a claim gives the audience and the threshold.
unfoldable pub membership_witness_for :
    Credential → MerklePath → Field → ℕ → Field → Field → MembershipWitness
membership_witness_for credential path audience threshold nullifier challenge = record {
  secret = credential.secret;
  attribute = credential.attribute;
  path = path.path;
  index = path.index;
  root = path.root;
  audience = audience;
  threshold = threshold;
  nullifier = nullifier;
  challenge = challenge;
}

-- The elements of an array after the first.
abbrev pub rest_of : List Field → List Field
rest_of [] = []
rest_of (x ∷ xs) = xs

module _ (c : Crypto) where
  unfoldable pub knowledge_valid : KnowledgeWitness → Bool
  knowledge_valid w = elim (knowledge_commitment c w.secret) [
    | ok got ↦ got == w.commitment
    | err e ↦ false
  ]

  -- One level of the path, by the bit of the index.
  unfoldable pub combine : ℕ → Field → Field → Result Field
  combine bits sum sibling =
      if bits % 2 == 0
      then native_hash c (sum ∷ sibling ∷ [])
      else native_hash c (sibling ∷ sum ∷ [])

  -- The loop over the levels, from `level` on, with the siblings that are left.
  unfoldable pub fold_path : ℕ → ℕ → Field → List Field → Result Field
  fold_path level index sum [] = ok sum
  fold_path level index sum (s ∷ ss) =
      result_bind (combine (shift_right index level) sum s)
        λ next. fold_path (suc level) index next ss

  unfoldable pub root_valid : MembershipWitness → Bool
  root_valid w = elim (native_hash c (get_or w.path 0 0 ∷ [])) [
    | err e ↦ false
    | ok start ↦ elim (fold_path 0 w.index start (rest_of w.path)) [
      | err e ↦ false
      | ok sum ↦ sum == w.root
    ]
  ]

  unfoldable pub nullifier_valid : MembershipWitness → Bool
  nullifier_valid w = elim (nullifier_for c w.secret w.audience) [
    | err e ↦ false
    | ok nullifier ↦ if nullifier == w.nullifier then root_valid w else false
  ]

  unfoldable pub membership_valid : MembershipWitness → Bool
  membership_valid w = elim (membership_leaf c w.secret w.attribute) [
    | err e ↦ false
    | ok leaf ↦
        if not (leaf == get_or w.path 0 0) || ltb w.attribute w.threshold
        then false
        else nullifier_valid w
  ]

  -- The siblings above the first leaf: the hashes of empty subtrees, with `k` levels left.
  unfoldable pub empty_siblings : ℕ → Field → Result (List Field)
  empty_siblings zero last = ok []
  empty_siblings (suc k) last =
      result_bind (native_hash c (last ∷ last ∷ []))
        λ next. result_bind (empty_siblings k next) λ rest. ok (next ∷ rest)

  unfoldable pub left_root : Field → List Field → Result Field
  left_root sum [] = ok sum
  left_root sum (s ∷ ss) = result_bind (native_hash c (sum ∷ s ∷ [])) λ next. left_root next ss

  unfoldable pub single_leaf_path : Field → Result MerklePath
  single_leaf_path commitment = result_bind (empty_leaf c) λ zero_hash.
      result_bind (empty_siblings 31 zero_hash) λ rest.
        result_bind (native_hash c (commitment ∷ [])) λ start.
          result_bind (left_root start (zero_hash ∷ rest))
            λ sum. ok (record { root = sum; path = commitment ∷ zero_hash ∷ rest; index = 0 })

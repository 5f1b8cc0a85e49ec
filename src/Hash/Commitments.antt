-- ===== src/Hash/Commitments.antt =====
-- The commitments of zkauthn/hash.go as closed formulas, on canonical inputs.
use kal_zk.Base.{ℕ, ◌<◌, ◌≡◌, List, [], ◌∷◌, arith, length, IsBytes, be_value-lt, All}
use kal_zk.Error.{ok}
use kal_zk.Hash.{
  Field, Secret, Crypto, Lawful, secret_size, secret_field, uint64_field, element_bytes,
  domain_knowledge, domain_leaf, domain_nullifier, domain_empty, hash_with_domain,
  knowledge_commitment, membership_leaf, nullifier_for, empty_leaf,
}
use kal_zk.Hash.Encoding.{native_hash-ok}

-- A secret as `generateSecret` makes it: 31 bytes.
abbrev pub IsSecret : Secret → Type 0
IsSecret secret = (length secret ≡ secret_size) × IsBytes secret

abbrev pub knowledge_hash : Crypto → Secret → Field
knowledge_hash c secret = c.mimc_sum (c.reduce domain_knowledge ∷ secret_field secret ∷ [])

abbrev pub leaf_commitment : Crypto → Secret → ℕ → Field
leaf_commitment c secret attribute =
    c.mimc_sum (c.reduce domain_leaf ∷ secret_field secret ∷ c.reduce attribute ∷ [])

abbrev pub pseudonym : Crypto → Secret → Field → Field
pseudonym c secret audience =
    c.mimc_sum (c.reduce domain_nullifier ∷ secret_field secret ∷ audience ∷ [])

module _ (c : Crypto) (laws : Lawful c) where
  pub hash_with_domain-ok :
      (domain : ℕ) (xs : List Field)
      → All (λ x. x < c.modulus) xs
      → hash_with_domain c domain xs ≡ ok (c.mimc_sum (c.reduce domain ∷ xs))
  unfolding hash_with_domain element_bytes
  hash_with_domain-ok domain xs h = native_hash-ok c laws _ (laws.reduce-lt domain, h)

  -- Every 31-byte secret is a canonical field element.
  pub secret_field-lt : (secret : Secret) → IsSecret secret → secret_field secret < c.modulus
  unfolding secret_field
  secret_field-lt secret (len, bytes) =
      omega (arith, rw len at (be_value-lt secret bytes), laws.modulus_lower)

  pub knowledge_commitment-ok :
      (secret : Secret)
      → IsSecret secret
      → knowledge_commitment c secret ≡ ok (knowledge_hash c secret)
  unfolding knowledge_commitment
  knowledge_commitment-ok secret h =
      hash_with_domain-ok domain_knowledge _ (secret_field-lt secret h, tt)

  pub membership_leaf-ok :
      (secret : Secret) (attribute : ℕ)
      → IsSecret secret
      → membership_leaf c secret attribute ≡ ok (leaf_commitment c secret attribute)
  unfolding membership_leaf uint64_field
  membership_leaf-ok secret attribute h =
      hash_with_domain-ok domain_leaf _ (secret_field-lt secret h, (laws.reduce-lt attribute, tt))

  pub nullifier_for-ok :
      (secret : Secret) (audience : Field)
      → IsSecret secret
      → audience < c.modulus
      → nullifier_for c secret audience ≡ ok (pseudonym c secret audience)
  unfolding nullifier_for
  nullifier_for-ok secret audience h a =
      hash_with_domain-ok domain_nullifier _ (secret_field-lt secret h, (a, tt))

  pub empty_leaf-ok : empty_leaf c ≡ ok (c.mimc_sum (c.reduce domain_empty ∷ []))
  unfolding empty_leaf
  empty_leaf-ok = hash_with_domain-ok domain_empty [] tt

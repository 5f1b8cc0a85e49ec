-- ===== src/Hash.antt =====
-- zkauthn/hash.go: field elements and the domain-separated hashes over them. A `Field`, 32 bytes
-- in Go, is the number that its bytes spell; a `Secret` is its 31 bytes. The scalar field and MiMC
-- of gnark-crypto are the record `Crypto`, and what the code relies on is `Lawful`.
pub mod Audience
pub mod Encoding
pub mod Entropy
pub mod Commitments
use kal_zk.Base.{
  ℕ, ◌^◌, ◌<◌, ◌≤◌, ◌≡◌, Bool, true, Bytes, codes, length, be_value, to_be, List, [], ◌∷◌, ◌&&◌,
  ltb, ◌==◌, if◌then◌else◌, Option, none, some,
}
use kal_zk.Error.{Result, ok, err, plain, result_bind}

abbrev pub Field : Type 0
Field = ℕ

abbrev pub Secret : Type 0
Secret = Bytes

pub record Crypto : Type 0 where
  pub modulus : ℕ
  -- `SetBytesCanonical` accepts these 32 bytes.
  pub canonical : Bytes → Bool
  -- `SetBigInt`, `SetUint64` and `SetBytes` reduce modulo the field.
  pub reduce : ℕ → Field
  -- MiMC's `Write` accepts this block, and `Sum` after the blocks of a list.
  pub write_ok : Field → Bool
  pub mimc_sum : List Field → Field

-- The documented behaviour of gnark-crypto over BN254.
pub record Lawful (c : Crypto) : Type 0 where
  pub modulus_lower : 2 ^ 248 ≤ c.modulus
  pub modulus_upper : c.modulus ≤ 2 ^ 256
  pub canonical-ltb :
      (raw : Bytes) → length raw ≡ 32 → c.canonical raw ≡ ltb (be_value raw) c.modulus
  pub reduce-lt : (n : ℕ) → c.reduce n < c.modulus
  pub reduce_small : (n : ℕ) → n < c.modulus → c.reduce n ≡ n
  pub write_canonical : (x : Field) → x < c.modulus → c.write_ok x ≡ true
  pub mimc_sum-lt : (xs : List Field) → c.mimc_sum xs < c.modulus

abbrev pub secret_size : ℕ
secret_size = 31

-- The bytes of a field element, as it is stored and sent.
unfoldable pub field_bytes : Field → Bytes
field_bytes f = to_be 32 f

-- `none` is the panic.
unfoldable pub domain_element : Bytes → Option ℕ
domain_element s = if ltb secret_size (length s) then none else some (be_value s)

unfoldable pub domain_knowledge : ℕ
domain_knowledge = be_value (codes "kal.zk.v1/knowledge")

unfoldable pub domain_leaf : ℕ
domain_leaf = be_value (codes "kal.zk.v1/leaf")

unfoldable pub domain_nullifier : ℕ
domain_nullifier = be_value (codes "kal.zk.v1/nullifier")

unfoldable pub domain_empty : ℕ
domain_empty = be_value (codes "kal.zk.v1/empty")

unfoldable pub secret_field : Secret → Field
secret_field secret = be_value secret

module _ (c : Crypto) where
  unfoldable pub element_bytes : ℕ → Field
  element_bytes v = c.reduce v

  unfoldable pub parse_field : Bytes → Result Field
  parse_field raw =
      if length raw == 32
      then (if c.canonical raw
          then ok (be_value raw)
          else err (plain "field element is not canonical BN254"))
      else err (plain "field element must be exactly 32 bytes")

  unfoldable pub uint64_field : ℕ → Field
  uint64_field v = c.reduce v

  -- Every block is written, and the first one that is refused ends the hash.
  unfoldable pub writes_ok : List Field → Bool
  writes_ok [] = true
  writes_ok (x ∷ xs) = c.write_ok x && writes_ok xs

  unfoldable pub native_hash : List Field → Result Field
  native_hash values =
      if writes_ok values then ok (c.mimc_sum values) else err (plain "zkauthn: MiMC input")

  unfoldable pub hash_with_domain : ℕ → List Field → Result Field
  hash_with_domain domain values = native_hash (element_bytes domain ∷ values)

  unfoldable pub knowledge_commitment : Secret → Result Field
  knowledge_commitment secret = hash_with_domain domain_knowledge (secret_field secret ∷ [])

  unfoldable pub membership_leaf : Secret → ℕ → Result Field
  membership_leaf secret attribute =
      hash_with_domain domain_leaf (secret_field secret ∷ uint64_field attribute ∷ [])

  unfoldable pub nullifier_for : Secret → Field → Result Field
  nullifier_for secret audience =
      hash_with_domain domain_nullifier (secret_field secret ∷ audience ∷ [])

  unfoldable pub empty_leaf : Result Field
  empty_leaf = hash_with_domain domain_empty []

-- ===== src/Hash/Encoding.antt =====
-- The byte encodings of field elements (zkauthn/hash.go).
use kal_zk.Base.{
  ap, ◌↔◌, IsBytes, to_be, to_be-be_value, sym, ◌∙◌, subst, Bool-cases, inl, inr, ◌==◌, ==_iff,
  ltb→lt, Bytes, ◌<◌, ◌≡◌, true, length, be_value, length-to_be, be_value-to_be, arith, List, [],
  ◌∷◌, All, lt→ltb,
}
use kal_zk.Error.{ok, ok-injective}
use kal_zk.Hash.{Field, Crypto, Lawful, field_bytes, parse_field, writes_ok, native_hash}

pub length-field_bytes : (f : Field) → length (field_bytes f) ≡ 32
unfolding field_bytes
length-field_bytes f = length-to_be 32 f

module _ (c : Crypto) (laws : Lawful c) where
  pub be_value-field_bytes : (f : Field) → f < c.modulus → be_value (field_bytes f) ≡ f
  unfolding field_bytes
  be_value-field_bytes f h = be_value-to_be 32 f (omega (arith, laws.modulus_upper))

  -- A canonical element is read back from the bytes that are stored for it.
  pub parse_field-field_bytes : (f : Field) → f < c.modulus → parse_field c (field_bytes f) ≡ ok f
  unfolding parse_field
  parse_field-field_bytes f h = rw (
    length-field_bytes f,
    laws.canonical-ltb (field_bytes f) (length-field_bytes f),
    be_value-field_bytes f h,
    lt→ltb f c.modulus h,
  )

  -- What is read is canonical.
  pub parse_field-lt : (raw : Bytes) (f : Field) → parse_field c raw ≡ ok f → f < c.modulus
  unfolding parse_field
  parse_field-lt raw f h = elim (Bool-cases (length raw == 32)) [
    | inr other ↦ cc (rw (parse_field, other) at h)
    | inl sized ↦ elim (Bool-cases (c.canonical raw)) [
      | inr high ↦ cc (rw (parse_field, sized, high) at h)
      | inl low ↦
          let small = sym (laws.canonical-ltb raw ((==_iff (length raw) 32).0 sized)) ∙ low in
          let same = ok-injective (rw (parse_field, sized, low) at h) in
          subst (λ v. v < c.modulus) same (ltb→lt (be_value raw) c.modulus small)
    ]
  ]

  -- What is read has 32 bytes, which spell it.
  parse_field-reads :
      (raw : Bytes) (f : Field) → parse_field c raw ≡ ok f → (length raw ≡ 32) × (be_value raw ≡ f)
  unfolding parse_field
  parse_field-reads raw f h = elim (Bool-cases (length raw == 32)) [
    | inr other ↦ cc (rw (parse_field, other) at h)
    | inl sized ↦ elim (Bool-cases (c.canonical raw)) [
      | inr high ↦ cc (rw (parse_field, sized, high) at h)
      | inl low ↦
          ((==_iff (length raw) 32).0 sized, ok-injective (rw (parse_field, sized, low) at h))
    ]
  ]

  -- Of the byte strings, parseField accepts exactly the 32-byte big-endian encodings of the
  -- numbers below the modulus, each as the number that it encodes: no field element has a second
  -- encoding.
  pub parse_field-field_bytes_iff :
      (raw : Bytes) (f : Field)
      → IsBytes raw
      → (parse_field c raw ≡ ok f) ↔ ((raw ≡ field_bytes f) × (f < c.modulus))
  unfolding field_bytes
  parse_field-field_bytes_iff raw f bytes = (
    λ h.
        let (size, spelt) = parse_field-reads raw f h in
        (sym (to_be-be_value 32 raw size bytes) ∙ ap (to_be 32) spelt, parse_field-lt raw f h),
    λ (same, small). ap (parse_field c) same ∙ parse_field-field_bytes f small,
  )

  pub writes_ok-All : (xs : List Field) → All (λ x. x < c.modulus) xs → writes_ok c xs ≡ true
  unfolding writes_ok
  writes_ok-All [] h = ground arith
  writes_ok-All (x ∷ xs) h = ground (arith, laws.write_canonical x h.0, writes_ok-All xs h.1)

  -- Hashing canonical elements never fails.
  pub native_hash-ok :
      (xs : List Field) → All (λ x. x < c.modulus) xs → native_hash c xs ≡ ok (c.mimc_sum xs)
  unfolding native_hash
  native_hash-ok xs h = rw (writes_ok-All xs h)

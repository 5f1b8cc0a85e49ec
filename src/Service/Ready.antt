-- ===== src/Service/Ready.antt =====
-- `New` (zkauthn/service.go): when it succeeds, and what the service is then.
use kal_zk.Base.{
  ℕ, zero, suc, ◌+◌, ◌≤◌, ◌<◌, ◌≡◌, refl, Bytes, List, [], ◌∷◌, true, false, arith, inl, inr, ◌⊎◌,
  get_or, length, replicate, ◌++◌, codes,
}
use kal_zk.Error.{ok, result_bind-ok}
use kal_zk.Hash.{Field, Crypto, Lawful}
use kal_zk.Hash.Encoding.{native_hash-ok}
use kal_zk.Hash.Commitments.{IsSecret, empty_leaf-ok, knowledge_commitment-ok, knowledge_hash}
use kal_zk.Service.{
  Zk, Options, Environment, is_knowledge, is_membership, is_negative, matches_ident, schema_prefix,
  zeros_above, tree_zeros, check_options, build, new_zk,
}
use kal_zk.Tree.Shape.{empty_hash, empty_hash-lt, empty_hash-zero}
use kal_zk.Tree.Climb.{IsReady}

-- What `New` requires of its options.
abbrev pub IsComplete : Environment → Options → Type 0
IsComplete env o =
    (is_knowledge o.knowledge_vk ≡ true)
    × (is_membership o.membership_vk ≡ true)
    × (o.has_sessions ≡ true)
    × (o.has_proof_sink ≡ true)
    × (o.has_hasher ≡ true)
    × (is_negative o.root_grace ≡ false)
    × ((o.schema ≡ []) ⊎ ((length o.schema ≤ 63) × (matches_ident o.schema ≡ true)))

-- The hashes of `k` empty subtrees above level `l`.
unfoldable pub empty_from : Crypto → ℕ → ℕ → List Field
empty_from c zero l = []
empty_from c (suc k) l = empty_hash c (suc l) ∷ empty_from c k (suc l)

-- The array `zeros`.
abbrev pub all_zeros : Crypto → List Field
all_zeros c = empty_hash c 0 ∷ empty_from c 32 0

module _ (c : Crypto) (laws : Lawful c) where
  zeros_above-ok : (k l : ℕ) → zeros_above c k (empty_hash c l) ≡ ok (empty_from c k l)
  unfolding zeros_above empty_from empty_hash
  zeros_above-ok zero l = refl
  zeros_above-ok (suc k) l = rw (
    native_hash-ok c laws (empty_hash c l ∷ empty_hash c l ∷ [])
        (empty_hash-lt c laws l, (empty_hash-lt c laws l, tt)),
    zeros_above-ok k (suc l),
  )

  get_or-empty_from : (k l j : ℕ) → j < k → get_or (empty_from c k l) j 0 ≡ empty_hash c (suc j + l)
  unfolding empty_from
  get_or-empty_from zero l j h = absurd (omega arith)
  get_or-empty_from (suc k) l zero h = let e : 1 + l ≡ suc l = omega arith in rw e
  get_or-empty_from (suc k) l (suc j) h =
      let e : suc (suc j) + l ≡ suc j + suc l = omega arith in
      rw e (get_or-empty_from k (suc l) j (omega arith))

  pub get_or-all_zeros : (l : ℕ) → l ≤ 32 → get_or (all_zeros c) l 0 ≡ empty_hash c l
  get_or-all_zeros zero h = refl
  get_or-all_zeros (suc j) h =
      let e : suc j + 0 ≡ suc j = omega arith in rw (get_or-empty_from 32 0 j (omega arith), e)

  tree_zeros-ok : tree_zeros c ≡ ok (all_zeros c)
  unfolding tree_zeros
  tree_zeros-ok = rw (empty_leaf-ok c laws, ← empty_hash-zero c, zeros_above-ok 32 0)

  zero-IsSecret : IsSecret (replicate 31 0)
  zero-IsSecret = (refl, omega arith)

  schema_prefix-ok :
      (env : Environment) (schema : Bytes)
      → (schema ≡ []) ⊎ ((length schema ≤ 63) × (matches_ident schema ≡ true))
      → (prefix : Bytes) × (schema_prefix env schema ≡ ok prefix)
  unfolding schema_prefix
  schema_prefix-ok env [] h = ([], refl)
  schema_prefix-ok env (b ∷ bs) (inl e) = cc
  schema_prefix-ok env (b ∷ bs) (inr (short, m)) =
      (env.append_ident (b ∷ bs) ++ codes ".", ground arith)

  check_options-ok :
      (env : Environment) (o : Options) → IsComplete env o → check_options c o ≡ ok tt
  unfolding check_options
  check_options-ok env o h = ground arith

  -- With all that is required, `New` succeeds, and the service knows the empty subtrees.
  pub new_zk-IsReady :
      (env : Environment) (o : Options)
      → IsComplete env o
      → (z : Zk) × (new_zk c env o ≡ ok z) × IsReady c z
  unfolding new_zk
  new_zk-IsReady env o h =
      let (prefix, e) = schema_prefix-ok env o.schema h.6 in
      (
        build c env o prefix (all_zeros c) (knowledge_hash c (replicate 31 0)),
        rw (
          check_options-ok env o h,
          e,
          tree_zeros-ok,
          knowledge_commitment-ok c laws (replicate 31 0) zero-IsSecret,
        ),
        get_or-all_zeros,
      )

  schema_prefix-requires :
      (env : Environment) (schema prefix : Bytes)
      → schema_prefix env schema ≡ ok prefix
      → (schema ≡ []) ⊎ ((length schema ≤ 63) × (matches_ident schema ≡ true))
  unfolding schema_prefix
  schema_prefix-requires env [] prefix e = inl refl
  schema_prefix-requires env (b ∷ bs) prefix e = inr (ground arith, ground arith)

  check_options-requires :
      (o : Options)
      → check_options c o ≡ ok tt
      → (is_knowledge o.knowledge_vk ≡ true)
        × (is_membership o.membership_vk ≡ true)
        × (o.has_sessions ≡ true)
        × (o.has_proof_sink ≡ true)
        × (o.has_hasher ≡ true)
        × (is_negative o.root_grace ≡ false)
  unfolding check_options
  check_options-requires o h = ground arith

  -- And `New` succeeds only with all that is required.
  pub new_zk-requires :
      (env : Environment) (o : Options) (z : Zk) → new_zk c env o ≡ ok z → IsComplete env o
  unfolding new_zk
  new_zk-requires env o z h =
      let (_, checked, rest) = result_bind-ok (check_options c o) _ h in
      let (prefix, schema, _) = result_bind-ok (schema_prefix env o.schema) _ rest in
      let fits = check_options-requires o checked in
      (
        fits.0,
        fits.1,
        fits.2,
        fits.3,
        fits.4,
        fits.5,
        schema_prefix-requires env o.schema prefix schema,
      )

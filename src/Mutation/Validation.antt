-- ===== src/Mutation/Validation.antt =====
-- What a manifest that internal/cmd/zktestmutate/main.go validated says.
use kal_zk.Base.{
  neither, ℕ, suc, ◌≡◌, refl, Bool, true, false, not, ◌||◌, ◌==◌, ==_iff, Option-cases, inl, inr,
  Bytes, List, [], ◌∷◌, length, Option, some, All, bytes_eq, bytes_eq→eq, if◌then◌else◌, arith,
}
use kal_zk.Error.{Error, Result, ok, err, result_bind-ok, require-ok, unless_not-ok}
use kal_zk.Mutation.{
  Patch, Mutation, Manifest, TestEvent, mutation_count, count, want_id, is_test_name, is_empty,
  is_one, find_root, check_once, validate_patch, validate_patches, validate_mutation,
  validate_mutations, validate_manifest,
}

refuse-ok :
    (b : Bool) (e : Error) (r : Result (Unit {0}))
    → ◌≡◌ {A = Result (Unit {0})} (if b then err e else r) (ok tt)
    → (b ≡ false) × (r ≡ ok tt)
refuse-ok true e r h = cc
refuse-ok false e r h = (refl, h)

module _ (Root : Type 0) (read_file : Root → Bytes → Result Bytes)
    (write_file : Bytes → Bytes → Root → Result Root) (is_local : Bytes → Bool)
    (parse_event : Bytes → Option TestEvent) where
  -- The file is within the repository, and has the text before exactly once.
  pub record IsExact (root : Root) (p : Patch) : Type 0 where
    pub raw : Bytes
    pub inside : is_local p.file ≡ true
    pub read : read_file root p.file ≡ ok raw
    pub once : count p.before raw ≡ 1
    pub changes : bytes_eq p.before p.after ≡ false

  pub record IsValid (roots : List (Bytes × Root)) (i : ℕ) (m : Mutation) : Type 0 where
    pub root : Root
    pub named : m.id ≡ want_id i
    pub there : find_root Root read_file write_file is_local parse_event m.repo roots ≡ some root
    pub test : is_test_name m.test ≡ true
    pub exact : All (IsExact root) m.patches

  abbrev pub AllValid : List (Bytes × Root) → ℕ → List Mutation → Type 0
  AllValid roots i [] = Unit
  AllValid roots i (m ∷ ms) = IsValid roots i m × AllValid roots (suc i) ms

  validate_patch-IsExact :
      (root : Root) (p : Patch)
      → validate_patch Root read_file write_file is_local parse_event root p ≡ ok tt
      → IsExact root p
  unfolding validate_patch check_once
  validate_patch-IsExact root p h =
      let (tests, rest) = refuse-ok _ _ _ h in
      let (inside, texts) = neither _ _ tests in
      let (raw, once, _) =
        result_bind-ok (check_once Root read_file write_file is_local parse_event root p) _ rest in
      let (raw2, read, counted) = result_bind-ok (read_file root p.file) _ once in
      let (one, _) = require-ok _ (count p.before raw2 == 1) _ counted in
      record {
        raw = raw2;
        inside = inside;
        read = read;
        once = (==_iff (count p.before raw2) 1).0 one;
        changes = ground (arith, texts);
      }

  validate_patches-IsExact :
      (root : Root) (ps : List Patch)
      → validate_patches Root read_file write_file is_local parse_event root ps ≡ ok tt
      → All (IsExact root) ps
  unfolding validate_patches
  validate_patches-IsExact root [] h = tt
  validate_patches-IsExact root (p ∷ ps) h =
      let (_, first, rest) =
        result_bind-ok (validate_patch Root read_file write_file is_local parse_event root p) _ h in
      (validate_patch-IsExact root p first, validate_patches-IsExact root ps rest)

  validate_mutation-IsValid :
      (roots : List (Bytes × Root)) (i : ℕ) (m : Mutation)
      → validate_mutation Root read_file write_file is_local parse_event roots i m ≡ ok tt
      → IsValid roots i m
  unfolding validate_mutation
  validate_mutation-IsValid roots i m h =
      let (named, rest) = unless_not-ok _ (bytes_eq m.id (want_id i)) _ h in
      elim (Option-cases (find_root Root read_file write_file is_local parse_event m.repo roots)) [
        | inl unknown ↦ cc (rw (validate_mutation, named, unknown) at h)
        | inr (root, there) ↦
            let (tests, last) =
              refuse-ok
                (is_empty m.description || (not (is_test_name m.test) || length m.patches == 0)) _ _
                (rw (validate_mutation, named, there) at h) in
            record {
              root = root;
              named = bytes_eq→eq _ _ named;
              there = there;
              test = ground (arith, tests);
              exact = validate_patches-IsExact root m.patches last;
            }
      ]

  validate_mutations-AllValid :
      (roots : List (Bytes × Root)) (i : ℕ) (ms : List Mutation)
      → validate_mutations Root read_file write_file is_local parse_event roots i ms ≡ ok tt
      → AllValid roots i ms
  unfolding validate_mutations
  validate_mutations-AllValid roots i [] h = tt
  validate_mutations-AllValid roots i (m ∷ ms) h =
      let (_, first, rest) =
        result_bind-ok (validate_mutation Root read_file write_file is_local parse_event roots i m)
          _ h in
      (validate_mutation-IsValid roots i m first, validate_mutations-AllValid roots (suc i) ms rest)

  -- A manifest that validateManifest accepts, with its repositories, has 55 mutations, the ids M1
  -- to M55 in order, tests named by testName, known repositories, and patches whose file lies
  -- within the repository and has the text before exactly once, which the text after differs from.
  pub validate_manifest-AllValid :
      (m : Manifest) (opened : Result (List (Bytes × Root)))
      → validate_manifest Root read_file write_file is_local parse_event m opened ≡ ok tt
      → (roots : List (Bytes × Root)) × (opened ≡ ok roots)
        × (length m.mutations ≡ mutation_count)
        × AllValid roots 0 m.mutations
  unfolding validate_manifest
  validate_manifest-AllValid m opened h =
      let (_, h1) = unless_not-ok _ (is_one m.version) _ h in
      let (size, h2) = unless_not-ok _ (length m.mutations == mutation_count) _ h1 in
      let (roots, there, all) = result_bind-ok opened _ h2 in
      (roots, there, (==_iff _ _).0 size, validate_mutations-AllValid roots 0 m.mutations all)

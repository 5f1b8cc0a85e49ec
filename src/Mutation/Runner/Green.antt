-- ===== src/Mutation/Runner/Green.antt =====
-- What exit code 0 of internal/cmd/zktestmutate/main.go means.
use kal_zk.Base.{
  ℕ, suc, ◌≤◌, ◌≡◌, ◌⊎◌, refl, sym, ap, ◌∙◌, Bool, true, false, ◌==◌, ==_iff, if◌then◌else◌,
  Bool-cases, inl, inr, Bytes, List, [], ◌∷◌, length, All, bytes_eq_self, arith,
}
use kal_zk.Error.{Result, ok, err, Result-cases, result_bind-ok, ok-injective}
use kal_zk.Mutation.{Mutation, Manifest, validate_manifest}
use kal_zk.Mutation.Validation.{AllValid, validate_manifest-AllValid}
use kal_zk.Mutation.Snapshot.{Entries, repository_root}
use kal_zk.Mutation.Runner.{
  has, named_ids, is_selected, Outcome, Report, Flags, Machine, read_manifest, kal_path, open_both,
  run_isolated, outcomes, survivors, report, main_run, or_fatal,
}
use kal_zk.Mutation.Runner.Ids.{
  Numbered, occurrences, hits, Numbered-once, hits-lt, Occurs, Occurs-cases,
}

repository_root-has :
    (has_go_mod : List Bytes → Bool) (dir root : List Bytes)
    → repository_root has_go_mod dir ≡ ok root
    → has_go_mod root ≡ true
unfolding repository_root
repository_root-has has_go_mod [] root h = elim (Bool-cases (has_go_mod [])) [
  | inl here ↦ ap has_go_mod (sym (ok-injective (rw (repository_root, here) at h))) ∙ here
  | inr gone ↦ cc (rw (repository_root, gone) at h)
]
repository_root-has has_go_mod (name ∷ above) root h =
    elim (Bool-cases (has_go_mod (name ∷ above))) [
      | inl here ↦ ap has_go_mod (sym (ok-injective (rw (repository_root, here) at h))) ∙ here
      | inr gone ↦ repository_root-has has_go_mod above root (rw (repository_root, gone) at h)
    ]

All-has :
    (P : Bytes → Type 0) (ids : List Bytes) → ((id : Bytes) → has id ids ≡ true → P id) → All P ids
unfolding has
All-has P [] each = tt
All-has P (x ∷ ids) each =
    (each x (rw (bytes_eq_self x) refl), All-has P ids λ id there. each id (ground (arith, there)))

no_survivor : (n : ℕ) → ◌≡◌ {A = ℕ} (if n == 0 then 0 else 1) 0 → n ≡ 0
no_survivor n h = ground (arith, h)

All-empty : (P : Bytes → Type 0) (ids : List Bytes) → (length ids == 0) ≡ true → All P ids
All-empty P [] h = tt
All-empty P (id ∷ ids) h = ground (arith, h)

unless_code :
    (b : Bool) (x y r : Report)
    → b ≡ false
    → ◌≡◌ {A = Result Report} (ok (if b then x else y)) (ok r)
    → r.code ≡ 0
    → y.code ≡ 0
unless_code true x y r off same zero_code = cc
unless_code false x y r off same zero_code =
    ap (λ (r : Report). r.code) (ok-injective same) ∙ zero_code

module _ (k : Machine) where
  or_fatal-ok :
      (r : Result Report) → (or_fatal k r).code ≡ 0 → (a : Report) × (r ≡ ok a) × (a.code ≡ 0)
  or_fatal-ok (ok a) h = (a, refl, h)
  or_fatal-ok (err e) h = absurd (omega (arith, h))

  AllValid-Numbered :
      (roots : List (Bytes × Entries)) (i : ℕ) (ms : List Mutation)
      → AllValid Entries k.read_file k.write_file k.is_local k.parse_event roots i ms
      → Numbered i ms
  AllValid-Numbered roots i [] valid = tt
  AllValid-Numbered roots i (m ∷ ms) (first, rest) =
      (first.named, AllValid-Numbered roots (suc i) ms rest)

  module _ (zk kal : List Bytes) where
    -- A mutation was not asked for, or its run found it killed.
    abbrev pub IsKilled : List Bytes → Mutation → Type 0
    IsKilled selected m = (is_selected selected m.id ≡ false) ⊎ (run_isolated k zk kal m ≡ ok tt)

    survivors-IsKilled :
        (selected : List Bytes) (ms : List Mutation)
        → survivors k (outcomes k zk kal selected ms) ≡ 0
        → All (IsKilled selected) ms
    unfolding outcomes survivors
    survivors-IsKilled selected [] h = tt
    survivors-IsKilled selected (m ∷ ms) h = elim (Bool-cases (is_selected selected m.id)) [
      | inr not_asked ↦
          (inl not_asked, survivors-IsKilled selected ms (rw (outcomes, not_asked) at h))
      | inl asked ↦ elim (Result-cases (run_isolated k zk kal m)) [
        | inl (_, dead) ↦
            (inr dead, survivors-IsKilled selected ms (rw (outcomes, asked, dead) at h))
        | inr (e, alive) ↦ absurd (omega (arith, rw (outcomes, asked, alive) at h))
      ]
    ]

    length-outcomes :
        (selected : List Bytes) (ms : List Mutation)
        → (length selected == 0) ≡ false
        → length (outcomes k zk kal selected ms) ≡ hits selected ms
    unfolding outcomes
    length-outcomes selected [] some_named = refl
    length-outcomes selected (m ∷ ms) some_named = elim (Bool-cases (has m.id selected)) [
      | inl asked ↦
          rw (some_named, asked) (ap (λ n. suc n) (length-outcomes selected ms some_named))
      | inr not_asked ↦ rw (some_named, not_asked) (length-outcomes selected ms some_named)
    ]

    report-green :
        (selected : List Bytes) (results : List Outcome)
        → (report k selected results).code ≡ 0
        → (survivors k results ≡ 0)
          × (((length selected == 0) ≡ true)
              ⊎ (((length selected == 0) ≡ false) × (length results ≡ length selected)))
    unfolding report
    report-green selected results h = elim (Bool-cases (length selected == 0)) [
      | inl all ↦ (no_survivor _ (rw (report, all) at h), inl all)
      | inr some_named ↦ elim (Bool-cases (length results == length selected)) [
        | inl size ↦ (
          no_survivor _ (rw (report, some_named, size) at h),
          inr (some_named, (==_iff (length results) (length selected)).0 size),
        )
        | inr missing ↦ absurd (omega (arith, rw (report, some_named, missing) at h))
      ]
    ]

    named-Occurs :
        (selected : List Bytes) (ms : List Mutation)
        → ((x : Bytes) → occurrences x ms ≤ 1)
        → (length selected == 0) ≡ false
        → length (outcomes k zk kal selected ms) ≡ length selected
        → All (λ id. Occurs id ms) selected
    named-Occurs selected ms once some_named size = All-has _ selected λ id asked.
        elim (Occurs-cases id ms) [
          | inl there ↦ there
          | inr absent ↦
              let fewer = hits-lt ms once id selected absent asked in
              let all = length-outcomes selected ms some_named in
              absurd (omega (arith, fewer, all, size))
        ]

  -- A run that was green: each mutation of a valid manifest that was asked for was killed, and each
  -- id that was named is one of the manifest.
  pub record IsGreen (o : Flags) : Type 0 where
    pub root : List Bytes
    pub manifest : Manifest
    pub here : k.has_go_mod root ≡ true
    pub read : read_manifest k root o.manifest ≡ ok manifest
    pub valid :
        validate_manifest Entries k.read_file k.write_file k.is_local k.parse_event manifest
          (open_both k root (kal_path k root o.kal_repo))
        ≡ ok tt
    pub all_killed :
        All (IsKilled root (kal_path k root o.kal_repo) (named_ids o.only)) manifest.mutations
    pub all_found : All (λ id. Occurs id manifest.mutations) (named_ids o.only)

  -- A run that is not for validation only and exits with 0 found its repository by a go.mod, read
  -- one manifest with nothing after it, and validated it; each of its mutations that was asked for
  -- was killed by its run in fresh snapshots, and each id that was named is the id of one of its
  -- mutations, so none was left out.
  pub main_run-IsGreen : (o : Flags) → o.validate_only ≡ false → (main_run k o).code ≡ 0 → IsGreen o
  unfolding main_run
  main_run-IsGreen o runs h =
      let (done, run, zero_code) = or_fatal-ok _ h in
      let (dir, _, run1) = result_bind-ok k.working_directory _ run in
      let (root, rooted, run2) = result_bind-ok (repository_root k.has_go_mod dir) _ run1 in
      let (m, read, run3) = result_bind-ok (read_manifest k root o.manifest) _ run2 in
      let (_, valid, last) =
        result_bind-ok
          (validate_manifest Entries k.read_file k.write_file k.is_local k.parse_event m
            (open_both k root (kal_path k root o.kal_repo)))
          _ run3 in
      let (roots, _, _, all) =
        validate_manifest-AllValid Entries k.read_file k.write_file k.is_local k.parse_event m
          (open_both k root (kal_path k root o.kal_repo)) valid in
      let once : (x : Bytes) → occurrences x m.mutations ≤ 1 =
        λ x. Numbered-once 0 m.mutations x (AllValid-Numbered roots 0 m.mutations all) in
      let kal = kal_path k root o.kal_repo in
      let ids = named_ids o.only in
      let reported = unless_code o.validate_only _ _ done runs last zero_code in
      let (alive, asked) =
        report-green root kal ids (outcomes k root kal ids m.mutations) reported in
      record {
        root = root;
        manifest = m;
        here = repository_root-has k.has_go_mod dir root rooted;
        read = read;
        valid = valid;
        all_killed = survivors-IsKilled root kal ids m.mutations alive;
        all_found = elim asked [
          | inl all_asked ↦ All-empty _ ids all_asked
          | inr (some_named, size) ↦ named-Occurs root kal ids m.mutations once some_named size
        ];
      }

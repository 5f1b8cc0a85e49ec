-- ===== src/Mutation.antt =====
-- internal/cmd/zktestmutate/main.go: the runner of the mutation matrix. A checkout is a value of `Root`;
-- its files, the check of a path, the JSON of an event and the go command are parameters.
pub mod Killing
pub mod Runner
pub mod Snapshot
pub mod Validation
use kal_zk.Base.{
  ℕ, zero, suc, ◌+◌, ◌-◌, ◌/◌, ◌%◌, Bool, true, false, not, ◌&&◌, ◌||◌, ltb, leb, ◌==◌,
  if◌then◌else◌, Bytes, List, [], ◌∷◌, ◌++◌, length, Option, none, some, codes, bytes_eq,
}
use kal_zk.Base.Int.{ℤ, pos, negsuc}
use kal_zk.Error.{Error, Result, ok, err, plain, result_bind}

pub record Patch : Type 0 where
  pub file : Bytes
  pub before : Bytes
  pub after : Bytes

pub record Mutation : Type 0 where
  pub id : Bytes
  pub description : Bytes
  pub repo : Bytes
  pub test : Bytes
  pub tags : Bytes
  pub patches : List Patch

pub record Manifest : Type 0 where
  pub version : ℤ
  pub mutations : List Mutation

pub record TestEvent : Type 0 where
  pub action : Bytes
  pub test : Bytes

abbrev pub mutation_count : ℕ
mutation_count = 55

-- `bytes.HasPrefix`
unfoldable pub has_prefix : Bytes → Bytes → Bool
has_prefix [] s = true
has_prefix (x ∷ xs) [] = false
has_prefix (x ∷ xs) (y ∷ ys) = x == y && has_prefix xs ys

-- `bytes.Count` of a text that is not empty: `skip` bytes of an occurrence are still to pass.
unfoldable pub count_from : Bytes → ℕ → Bytes → ℕ
count_from sub skip [] = 0
count_from sub (suc k) (x ∷ xs) = count_from sub k xs
count_from sub zero (x ∷ xs) =
    let over = count_from sub (length sub - 1) xs in
    let next = count_from sub 0 xs in if has_prefix sub (x ∷ xs) then suc over else next

abbrev pub count : Bytes → Bytes → ℕ
count sub s = count_from sub 0 s

abbrev pub drop : ℕ → Bytes → Bytes
drop zero s = s
drop (suc k) [] = []
drop (suc k) (x ∷ xs) = drop k xs

-- `bytes.Replace` of the first occurrence
unfoldable pub replace_first : Bytes → Bytes → Bytes → Bytes
replace_first old new [] = []
replace_first old new (x ∷ xs) =
    let rest = replace_first old new xs in
    if has_prefix old (x ∷ xs) then new ++ drop (length old) (x ∷ xs) else x ∷ rest

abbrev pub is_word : ℕ → Bool
is_word b =
    (leb b'A' b && leb b b'Z')
    || (leb b'a' b && leb b b'z')
    || (leb b'0' b && leb b b'9')
    || b == b'_'

unfoldable pub all_word : Bytes → Bool
all_word [] = true
all_word (b ∷ bs) = is_word b && all_word bs

-- The expression ^Test[A-Za-z0-9_]+$ of `testName`.
unfoldable pub is_test_name : Bytes → Bool
is_test_name s = has_prefix (codes "Test") s && (ltb 4 (length s) && all_word (drop 4 s))

-- The decimal digits of a number below 10 ^ fuel.
unfoldable pub decimal : ℕ → ℕ → Bytes
decimal zero n = []
decimal (suc fuel) n =
    let high = decimal fuel (n / 10) in
    if ltb n 10 then (b'0' + n) ∷ [] else high ++ (b'0' + n % 10) ∷ []

-- The id of the mutation at an index: fmt's "M%d" of the index and one.
abbrev pub want_id : ℕ → Bytes
want_id i = b'M' ∷ decimal (suc i) (suc i)

abbrev pub is_empty : Bytes → Bool
is_empty [] = true
is_empty (b ∷ bs) = false

abbrev pub is_one : ℤ → Bool
is_one (pos n) = n == 1
is_one (negsuc n) = false

module _ (Root : Type 0) (read_file : Root → Bytes → Result Bytes)
    (write_file : Bytes → Bytes → Root → Result Root) (is_local : Bytes → Bool)
    (parse_event : Bytes → Option TestEvent) where
  abbrev pub Roots : Type 0
  Roots = List (Bytes × Root)

  unfoldable pub find_root : Bytes → Roots → Option Root
  find_root name [] = none
  find_root name ((n, root) ∷ rest) = if bytes_eq n name then some root else find_root name rest

  -- The text before stands exactly once in the file.
  unfoldable pub check_once : Root → Patch → Result Bytes
  check_once root p =
      result_bind (read_file root p.file) λ raw.
        if count p.before raw == 1 then ok raw else err (plain "before text occurs elsewhere")

  unfoldable pub validate_patch : Root → Patch → Result (Unit {0})
  validate_patch root p =
      if not (is_local p.file) || (is_empty p.before || bytes_eq p.before p.after)
      then err (plain "invalid exact replacement")
      else result_bind (check_once root p) λ _. ok tt

  unfoldable pub validate_patches : Root → List Patch → Result (Unit {0})
  validate_patches root [] = ok tt
  validate_patches root (p ∷ ps) = result_bind (validate_patch root p) λ _. validate_patches root ps

  unfoldable pub validate_mutation : Roots → ℕ → Mutation → Result (Unit {0})
  validate_mutation roots i mutant =
      if not (bytes_eq mutant.id (want_id i))
      then err (plain "mutation id")
      else elim (find_root mutant.repo roots) [
        | none ↦ err (plain "unknown repository")
        | some root ↦
            if is_empty mutant.description
              || (not (is_test_name mutant.test) || length mutant.patches == 0)
            then err (plain "description, exact top-level test and patches are required")
            else validate_patches root mutant.patches
      ]

  unfoldable pub validate_mutations : Roots → ℕ → List Mutation → Result (Unit {0})
  validate_mutations roots i [] = ok tt
  validate_mutations roots i (m ∷ ms) =
      result_bind (validate_mutation roots i m) λ _. validate_mutations roots (suc i) ms

  -- The repositories are what `os.OpenRoot` gives, if it opens them all.
  unfoldable pub validate_manifest : Manifest → Result Roots → Result (Unit {0})
  validate_manifest m opened =
      if not (is_one m.version)
      then err (plain "manifest version")
      else if not (length m.mutations == mutation_count)
      then err (plain "manifest mutations")
      else result_bind opened λ roots. validate_mutations roots 0 m.mutations

  -- `passed` and `failed` after the lines of the output, which have their white space trimmed.
  unfoldable pub read_events : Bytes → List Bytes → Bool × Bool
  read_events test [] = (false, false)
  read_events test (line ∷ lines) =
      let (passed, failed) = read_events test lines in
      elim (if has_prefix (codes "{") line then parse_event line else none) [
        | none ↦ (passed, failed)
        | some event ↦ (
          (bytes_eq event.action (codes "pass") && bytes_eq event.test test) || passed,
          (bytes_eq event.action (codes "fail") && bytes_eq event.test test) || failed,
        )
      ]

  unfoldable pub apply_patch : Patch → Root → Result Root
  apply_patch p root =
      result_bind (check_once root p)
        λ raw. write_file p.file (replace_first p.before p.after raw) root

  unfoldable pub apply_patches : List Patch → Root → Result Root
  apply_patches [] root = ok root
  apply_patches (p ∷ ps) root = result_bind (apply_patch p root) (apply_patches ps)

  -- The go command on the checkouts kal-zk and kal: the lines of its output, and its exit.
  module _ (go_test : Root → Root → Mutation → List Bytes × Result (Unit {0})) where
    -- The patches go to one of the two checkouts, which a validated mutation names.
    unfoldable pub mutated : Mutation → Root → Root → Result (Root × Root)
    mutated m zk kal =
        if bytes_eq m.repo (codes "kal-zk")
        then result_bind (apply_patches m.patches zk) (λ zk2. ok (zk2, kal))
        else result_bind (apply_patches m.patches kal) λ kal2. ok (zk, kal2)

    -- The run of the named test before the patches.
    unfoldable pub baseline : Mutation → Root → Root → Result (Unit {0})
    baseline m zk kal =
        let (lines, exit) = go_test zk kal m in
        let (passed, failed) = read_events m.test lines in
        result_bind exit λ _.
          if not passed || failed
          then err (plain "unmutated baseline did not pass by name")
          else ok tt

    -- The run after: the command must fail, and by the named test.
    unfoldable pub killed : Mutation → Root → Root → Result (Unit {0})
    killed m zk kal =
        let (lines, exit) = go_test zk kal m in
        let (passed, failed) = read_events m.test lines in
        elim exit [
          | ok _ ↦ err (plain "named test passed")
          | err e ↦
              if failed
              then ok tt
              else err (plain "test command failed without a named-test failure")
        ]

    -- `runMutation` from the snapshots on.
    unfoldable pub run_mutation : Mutation → Root → Root → Result (Unit {0})
    run_mutation m zk kal =
        result_bind (baseline m zk kal)
          λ _. result_bind (mutated m zk kal) λ (zk2, kal2). killed m zk2 kal2

-- ===== src/Mutation/Runner.antt =====
-- internal/cmd/zktestmutate/main.go: main, with readManifest and the snapshots of runMutation. The
-- durations that are reported are left out.
pub mod Green
pub mod Ids
use mathlib.Core.List.{reverse}
use kal_zk.Base.{
  ℕ, zero, suc, ◌+◌, ◌-◌, Bool, true, false, not, ◌&&◌, ◌||◌, ltb, leb, ◌==◌, if◌then◌else◌, Bytes,
  List, [], ◌∷◌, ◌++◌, map, length, Option, none, some, codes, bytes_eq,
}
use kal_zk.Error.{Error, Result, ok, err, plain, result_bind}
use kal_zk.Mutation.{
  Mutation, Manifest, TestEvent, has_prefix, is_empty, validate_manifest, run_mutation,
}
use kal_zk.Mutation.Snapshot.{Entries, no_more, copy_tree, parent, repository_root}

-- The Unicode white space, in UTF-8.
abbrev pub spaces : List Bytes
spaces =
    (9 ∷ [])
    ∷ (10 ∷ [])
    ∷ (11 ∷ [])
    ∷ (12 ∷ [])
    ∷ (13 ∷ [])
    ∷ (32 ∷ [])
    ∷ (194 ∷ 133 ∷ [])
    ∷ (194 ∷ 160 ∷ [])
    ∷ (225 ∷ 154 ∷ 128 ∷ [])
    ∷ (226 ∷ 128 ∷ 128 ∷ [])
    ∷ (226 ∷ 128 ∷ 129 ∷ [])
    ∷ (226 ∷ 128 ∷ 130 ∷ [])
    ∷ (226 ∷ 128 ∷ 131 ∷ [])
    ∷ (226 ∷ 128 ∷ 132 ∷ [])
    ∷ (226 ∷ 128 ∷ 133 ∷ [])
    ∷ (226 ∷ 128 ∷ 134 ∷ [])
    ∷ (226 ∷ 128 ∷ 135 ∷ [])
    ∷ (226 ∷ 128 ∷ 136 ∷ [])
    ∷ (226 ∷ 128 ∷ 137 ∷ [])
    ∷ (226 ∷ 128 ∷ 138 ∷ [])
    ∷ (226 ∷ 128 ∷ 168 ∷ [])
    ∷ (226 ∷ 128 ∷ 169 ∷ [])
    ∷ (226 ∷ 128 ∷ 175 ∷ [])
    ∷ (226 ∷ 129 ∷ 159 ∷ [])
    ∷ (227 ∷ 128 ∷ 128 ∷ [])
    ∷ []

-- The length of the white space that a text begins with.
unfoldable pub leading : List Bytes → Bytes → ℕ
leading [] s = 0
leading (space ∷ rest) s =
    let others = leading rest s in if has_prefix space s then length space else others

unfoldable pub trim_start : List Bytes → ℕ → Bytes → Bytes
trim_start blanks skip [] = []
trim_start blanks (suc k) (x ∷ xs) = trim_start blanks k xs
trim_start blanks zero (x ∷ xs) =
    let rest = trim_start blanks (leading blanks (x ∷ xs) - 1) xs in
    if leading blanks (x ∷ xs) == 0 then x ∷ xs else rest

-- `strings.TrimSpace`
abbrev pub trim_space : Bytes → Bytes
trim_space s = reverse (trim_start (map reverse spaces) 0 (reverse (trim_start spaces 0 s)))

abbrev pub onto_first : ℕ → List Bytes → List Bytes
onto_first b [] = (b ∷ []) ∷ []
onto_first b (s ∷ ss) = (b ∷ s) ∷ ss

-- `strings.Split` at a separator of one byte
unfoldable pub split : ℕ → Bytes → List Bytes
split sep [] = [] ∷ []
split sep (x ∷ xs) = let rest = split sep xs in if x == sep then [] ∷ rest else onto_first x rest

unfoldable pub has : Bytes → List Bytes → Bool
has id [] = false
has id (x ∷ xs) = bytes_eq id x || has id xs

-- The ids of the flag, as a set.
unfoldable pub selected_of : List Bytes → List Bytes
selected_of [] = []
selected_of (s ∷ ss) =
    let rest = selected_of ss in
    let id = trim_space s in if is_empty id || has id rest then rest else id ∷ rest

abbrev pub named_ids : Bytes → List Bytes
named_ids only = selected_of (split b',' only)

abbrev pub is_selected : List Bytes → Bytes → Bool
is_selected selected id = length selected == 0 || has id selected

-- The arguments of the go command: exactly the named test.
abbrev pub test_args : Mutation → List Bytes
test_args m =
    codes "test"
    ∷ ((if is_empty m.tags then [] else codes "-tags" ∷ m.tags ∷ [])
        ++ (codes "-json"
            ∷ codes "-count=1"
            ∷ codes "-run"
            ∷ (b'^' ∷ (m.test ++ (b'$' ∷ [])))
            ∷ codes "./tests"
            ∷ []))

pub data Status : Type 0 where
  survived : Error → Status
  killed : Status

pub record Outcome : Type 0 where
  pub id : Bytes
  pub description : Bytes
  pub test : Bytes
  pub status : Status

pub record Summary : Type 0 where
  pub mutations : ℕ
  pub killed : ℕ
  pub survived : ℕ

-- What a run prints, and its exit code.
pub record Report : Type 0 where
  pub results : List Outcome
  pub summary : Option Summary
  pub code : ℕ

-- The flags but the timeout, which is the go command's.
pub record Flags : Type 0 where
  pub manifest : Bytes
  pub kal_repo : Bytes
  pub only : Bytes
  pub validate_only : Bool

-- What `main` has from outside: the file system, JSON and the go command. `temporary` makes the
-- directory of a mutant, and `workspace` writes its go.work. `exec` is the go command on the two
-- checkouts of that go.work: its output, and its exit unless the time is over.
pub record Machine : Type 0 where
  pub read_file : Entries → Bytes → Result Bytes
  pub write_file : Bytes → Bytes → Entries → Result Entries
  pub is_local : Bytes → Bool
  pub parse_event : Bytes → Option TestEvent
  pub exec : Entries → Entries → List Bytes → Bytes × Option (Result (Unit {0}))
  pub working_directory : Result (List Bytes)
  pub has_go_mod : List Bytes → Bool
  pub open_file : List Bytes → Bytes → Result Bytes
  pub decode : Bytes → Result (Manifest × Bytes)
  pub at_end : Bytes → Bool
  pub absolute : List Bytes → Bytes → List Bytes
  pub is_link : List Bytes → Bool
  pub open_tree : List Bytes → Result Entries
  pub temporary : Mutation → Result (Unit {0})
  pub workspace : Mutation → Result (Unit {0})

module _ (k : Machine) where
  -- The manifest, and nothing after it.
  unfoldable pub read_manifest : List Bytes → Bytes → Result Manifest
  read_manifest root name = result_bind (k.open_file root name) λ raw.
      result_bind (k.decode raw)
        λ (m, rest). if k.at_end rest then ok m else err (plain "trailing JSON")

  abbrev pub kal_path : List Bytes → Bytes → List Bytes
  kal_path root name = if is_empty name then codes "kal" ∷ parent root else k.absolute root name

  unfoldable pub open_both : List Bytes → List Bytes → Result (List (Bytes × Entries))
  open_both zk kal = result_bind (k.open_tree zk) λ zk_root.
      result_bind (k.open_tree kal)
        λ kal_root. ok ((codes "kal-zk", zk_root) ∷ (codes "kal", kal_root) ∷ [])

  -- The walk does not enter a checkout whose own path is a symbolic link.
  unfoldable pub copy_checkout : List Bytes → Result Entries
  copy_checkout path =
      result_bind (k.open_tree path) λ t. if k.is_link path then ok no_more else copy_tree t

  abbrev pub go_command : Entries → Entries → List Bytes → Bytes × Result (Unit {0})
  go_command zk kal args =
      let (output, exit) = k.exec zk kal args in
      (output, elim exit [ none ↦ err (plain "timed out") | some r ↦ r ])

  -- `runNamedTest` up to its events: the trimmed lines of the output, and the exit.
  unfoldable pub run_named_test : Entries → Entries → Mutation → List Bytes × Result (Unit {0})
  run_named_test zk kal m =
      let (output, exit) = go_command zk kal (test_args m) in
      (map trim_space (split 10 output), exit)

  -- `runMutation`
  unfoldable pub run_isolated : List Bytes → List Bytes → Mutation → Result (Unit {0})
  run_isolated zk kal m = result_bind (k.temporary m) λ _. result_bind (copy_checkout zk) λ zk_copy.
      result_bind (copy_checkout kal) λ kal_copy. result_bind (k.workspace m) λ _.
        run_mutation Entries k.read_file k.write_file k.is_local k.parse_event run_named_test m
          zk_copy kal_copy

  abbrev pub status_of : Result (Unit {0}) → Status
  status_of (ok _) = killed
  status_of (err e) = survived e

  abbrev pub outcome : List Bytes → List Bytes → Mutation → Outcome
  outcome zk kal m = record {
    id = m.id;
    description = m.description;
    test = m.test;
    status = status_of (run_isolated zk kal m);
  }

  unfoldable pub outcomes : List Bytes → List Bytes → List Bytes → List Mutation → List Outcome
  outcomes zk kal selected [] = []
  outcomes zk kal selected (m ∷ ms) =
      let rest = outcomes zk kal selected ms in
      if is_selected selected m.id then outcome zk kal m ∷ rest else rest

  unfoldable pub survivors : List Outcome → ℕ
  survivors [] = 0
  survivors (r ∷ rs) = elim r.status [ survived e ↦ suc (survivors rs) | killed ↦ survivors rs ]

  -- What `main` reports of the results.
  unfoldable pub report : List Bytes → List Outcome → Report
  report selected results =
      if not (length selected == 0) && not (length results == length selected)
      then record { results = results; summary = none; code = 2 }
      else record {
        results = results;
        summary = some (record {
          mutations = length results;
          killed = length results - survivors results;
          survived = survivors results;
        });
        code = if survivors results == 0 then 0 else 1;
      }

  -- `fatal`, or what the report says.
  abbrev pub or_fatal : Result Report → Report
  or_fatal (ok r) = r
  or_fatal (err e) = record { results = []; summary = none; code = 2 }

  unfoldable pub main_run : Flags → Report
  main_run o = or_fatal (
      result_bind k.working_directory λ dir. result_bind (repository_root k.has_go_mod dir) λ root.
        result_bind (read_manifest root o.manifest) λ m.
          let kal = kal_path root o.kal_repo in
          result_bind
            (validate_manifest Entries k.read_file k.write_file k.is_local k.parse_event m
              (open_both root kal))
            λ _. ok (
              if o.validate_only
              then record { results = []; summary = none; code = 0 }
              else report (named_ids o.only) (outcomes root kal (named_ids o.only) m.mutations)))

-- ===== src/Tests/Runner.antt =====
-- A run of the mutation matrix with a subset that is named, on checkouts of a few entries.
use kal_zk.Base.{
  length, ◌≡◌, refl, Bool, true, false, ◌==◌, if◌then◌else◌, Bytes, List, [], ◌∷◌, none, codes,
  Option, some, bytes_eq,
}
use kal_zk.Error.{Result, ok, err, plain}
use kal_zk.Mutation.{
  validate_manifest, validate_mutations, validate_mutation, validate_patches, validate_patch,
  find_root, is_test_name, all_word, decimal, has_prefix, count_from, replace_first, check_once,
  apply_patch, apply_patches, read_events, mutated, baseline, killed, run_mutation,
}
use kal_zk.Mutation.Snapshot.{Entries, no_more, file, folder, symlink, copy_tree, repository_root}
use kal_zk.Mutation.Snapshot.Copied.{find_file, is_kept, copy_tree-find_file}
use kal_zk.Mutation.Runner.{
  run_named_test, Flags, Machine, leading, trim_start, split, has, selected_of, read_manifest,
  open_both, copy_checkout, run_isolated, outcomes, survivors, report, main_run,
}
use kal_zk.Mutation.Runner.Green.{IsGreen, main_run-IsGreen}
use kal_zk.Tests.Mutations.{source, every_path, event_of, matrix}

-- A source file, what a copy_checkout leaves out, and a directory.
abbrev tree : Entries
tree = file (codes ".env") (ok (codes "secret")) (
    file (codes "a.go") (ok source) (
      folder (codes ".git") (symlink (codes "hooks") no_more)
        (folder (codes "cmd") (file (codes "b.go") (ok []) no_more) no_more)))

abbrev copied : Entries
copied =
    file (codes "a.go") (ok source)
      (folder (codes "cmd") (file (codes "b.go") (ok []) no_more) no_more)

copy_runs : copy_tree tree ≡ ok copied
unfolding copy_tree bytes_eq
copy_runs = refl

copy_tree-find_file_example : find_file (codes "cmd" ∷ []) (codes "b.go") copied ≡ (
    if is_kept (codes "cmd" ∷ []) (codes "b.go")
    then find_file (codes "cmd" ∷ []) (codes "b.go") tree
    else none)
copy_tree-find_file_example =
    copy_tree-find_file tree copied (codes "cmd" ∷ []) (codes "b.go") copy_runs

-- A directory with the one file.
abbrev write_first : Bytes → Bytes → Entries → Result Entries
write_first name new t = ok (file (codes "a.go") (ok new) no_more)

abbrev read_first : Entries → Bytes → Result Bytes
read_first no_more name = err (plain "no file")
read_first (file n contents rest) name =
    let after = read_first rest name in if bytes_eq n name then contents else after
read_first (folder n inside rest) name = read_first rest name
read_first (symlink n rest) name = read_first rest name

abbrev is_source : Result Bytes → Bool
is_source (ok raw) = bytes_eq raw source
is_source (err e) = false

abbrev run_test : Entries → Entries → List Bytes → Bytes × Option (Result (Unit {0}))
run_test zk kal args =
    if is_source (read_first zk (codes "a.go"))
    then (codes "{p\n", some (ok tt))
    else (codes "go: downloading\n{f\n", some (err (plain "exit")))

abbrev machine : Machine
machine = record {
  read_file = read_first;
  write_file = write_first;
  is_local = every_path;
  parse_event = event_of;
  exec = run_test;
  working_directory = ok (codes "cmd" ∷ codes "kal-zk" ∷ []);
  has_go_mod = λ dir. if length dir == 1 then true else false;
  open_file = λ dir name. ok [];
  decode = λ raw. ok (matrix, []);
  at_end = λ rest. true;
  absolute = λ root name. name ∷ root;
  is_link = λ dir. false;
  open_tree = λ dir. ok tree;
  temporary = λ m. ok tt;
  workspace = λ m. ok tt;
}

abbrev two_named : Flags
two_named = record {
  manifest = codes "zk_mutations.json";
  kal_repo = [];
  only = codes "M2, M54";
  validate_only = false;
}

green : (main_run machine two_named).code ≡ 0
unfolding main_run run_named_test report survivors outcomes run_isolated copy_checkout open_both
    read_manifest selected_of has split trim_start leading copy_tree repository_root
    validate_manifest validate_mutations validate_mutation validate_patches validate_patch find_root
    check_once count_from has_prefix bytes_eq is_test_name all_word decimal run_mutation baseline
    killed mutated apply_patches apply_patch replace_first read_events
green = refl

main_run-IsGreen_example : IsGreen machine two_named
main_run-IsGreen_example = main_run-IsGreen machine two_named refl green

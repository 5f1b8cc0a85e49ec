-- ===== src/Tests/Mutations.antt =====
-- The runner of mutations, on checkouts that are one file each.
use kal_zk.Base.{
  ℕ, zero, suc, ◌≡◌, refl, Bool, true, false, if◌then◌else◌, Bytes, List, [], ◌∷◌, Option, some,
  codes, bytes_eq,
}
use kal_zk.Error.{Error, Result, ok, err, plain}
use kal_zk.Base.Int.{pos}
use kal_zk.Mutation.{
  Manifest, want_id, validate_manifest, validate_mutations, validate_mutation, validate_patches,
  validate_patch, find_root, is_test_name, all_word, decimal, Patch, Mutation, TestEvent,
  has_prefix, count_from, replace_first, check_once, apply_patch, apply_patches, read_events,
  mutated, baseline, killed, run_mutation,
}
use kal_zk.Mutation.Killing.{run_mutation-kills}

abbrev pub source : Bytes
source = codes "x < y"

abbrev pub flipped : Patch
flipped = record { file = codes "a.go"; before = codes "<"; after = codes ">=" }

abbrev pub flip : Mutation
flip = record {
  id = codes "M1";
  description = codes "a comparison";
  repo = codes "kal-zk";
  test = codes "TestOrder";
  tags = [];
  patches = flipped ∷ [];
}

abbrev whole_file : Bytes → Bytes → Result Bytes
whole_file root file = ok root

abbrev overwrite : Bytes → Bytes → Bytes → Result Bytes
overwrite file new root = ok new

abbrev pub every_path : Bytes → Bool
every_path file = true

abbrev pub event_of : Bytes → Option TestEvent
event_of line = some (record {
  action = if bytes_eq line (codes "{p") then codes "pass" else codes "fail";
  test = codes "TestOrder";
})

-- The test passes on the source as it is only.
abbrev toy_test : Bytes → Bytes → Mutation → List Bytes × Result (Unit {0})
toy_test zk kal m =
    if bytes_eq zk source then (codes "{p" ∷ [], ok tt) else (codes "{f" ∷ [], err (plain "exit"))

patched :
    apply_patch Bytes whole_file overwrite every_path event_of flipped source ≡ ok (codes "x >= y")
unfolding apply_patch check_once count_from has_prefix replace_first
patched = refl

flip_killed :
    run_mutation Bytes whole_file overwrite every_path event_of toy_test flip source [] ≡ ok tt
unfolding run_mutation baseline killed mutated apply_patches apply_patch check_once count_from
    has_prefix replace_first read_events bytes_eq
flip_killed = refl

run_mutation-kills_example :
    (read_events Bytes whole_file overwrite every_path event_of flip.test
        (toy_test source [] flip).0
      ≡ (true, false))
    × ((toy_test source [] flip).1 ≡ ok tt)
    × (after : Bytes × Bytes) × (e : Error) × (mutated Bytes whole_file overwrite every_path
          event_of toy_test flip source []
        ≡ ok after)
    × ((toy_test after.0 after.1 flip).1 ≡ err e)
    × ((read_events Bytes whole_file overwrite every_path event_of flip.test
          (toy_test after.0 after.1 flip).0).1
        ≡ true)
run_mutation-kills_example =
    run_mutation-kills Bytes whole_file overwrite every_path event_of toy_test flip source []
      flip_killed

-- Mutations with the ids from `i` on.
abbrev pub numbered : ℕ → ℕ → List Mutation
numbered zero i = []
numbered (suc k) i = record flip { id = want_id i } ∷ numbered k (suc i)

abbrev pub matrix : Manifest
matrix = record { version = pos 1; mutations = numbered 55 0 }

abbrev checkouts : List (Bytes × Bytes)
checkouts = (codes "kal-zk", source) ∷ (codes "kal", []) ∷ []

matrix_accepted :
    validate_manifest Bytes whole_file overwrite every_path event_of matrix (ok checkouts) ≡ ok tt
unfolding validate_manifest validate_mutations validate_mutation validate_patches validate_patch
    find_root check_once count_from has_prefix bytes_eq is_test_name all_word decimal
matrix_accepted = refl

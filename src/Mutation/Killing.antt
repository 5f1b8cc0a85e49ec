-- ===== src/Mutation/Killing.antt =====
-- What internal/cmd/zktestmutate/main.go accepts as a patch and as a kill.
use kal_zk.Base.{
  ℕ, suc, ◌≡◌, refl, sym, ap, ◌∙◌, Bool, true, false, not, ◌||◌, ◌==◌, ==_iff, Bool-cases, inl, inr,
  Bytes, List, [], ◌∷◌, ◌++◌, length, arith,
}
use kal_zk.Error.{Error, Result, ok, err, Result-cases, result_bind-ok, require-ok, ok-injective}
use kal_zk.Mutation.{
  Patch, Mutation, TestEvent, has_prefix, count_from, count, drop, replace_first, check_once,
  apply_patch, read_events, mutated, baseline, killed, run_mutation,
}
use kal_zk.Base.{Option, if◌then◌else◌}

has_prefix-drop : (sub s : Bytes) → has_prefix sub s ≡ true → s ≡ sub ++ drop (length sub) s
unfolding has_prefix
has_prefix-drop [] s h = refl
has_prefix-drop (x ∷ xs) [] h = cc
has_prefix-drop (x ∷ xs) (y ∷ ys) h = ground (arith, ==_iff x y, has_prefix-drop xs ys)

-- A text that occurs is replaced at one of its places.
replace_first-count :
    (old new s : Bytes) (k : ℕ)
    → count old s ≡ suc k
    → (a : Bytes) × (b : Bytes) × (s ≡ a ++ (old ++ b))
      × (replace_first old new s ≡ a ++ (new ++ b))
unfolding count_from replace_first
replace_first-count old new [] k h = ground (arith, h)
replace_first-count old new (x ∷ xs) k h = elim (Bool-cases (has_prefix old (x ∷ xs))) [
  | inl here ↦ (
    [],
    drop (length old) (x ∷ xs),
    has_prefix-drop old (x ∷ xs) here,
    rw (replace_first, here) refl,
  )
  | inr there ↦
      let (a, b, split, replaced) =
        replace_first-count old new xs k (rw (count_from, there) at h) in
      (x ∷ a, b, ap (λ s. x ∷ s) split, rw (replace_first, there) (ap (λ s. x ∷ s) replaced))
]

-- A check that passes both of two tests.
passed_only :
    (passed failed : Bool) (e : Error)
    → ◌≡◌ {A = Result (Unit {0})} (if not passed || failed then err e else ok tt) (ok tt)
    → (passed ≡ true) × (failed ≡ false)
passed_only true false e h = (refl, refl)
passed_only true true e h = cc
passed_only false failed e h = cc

module _ (Root : Type 0) (read_file : Root → Bytes → Result Bytes)
    (write_file : Bytes → Bytes → Root → Result Root) (is_local : Bytes → Bool)
    (parse_event : Bytes → Option TestEvent) where
  -- A patch that was applied found its text before exactly once in the file, and wrote the file
  -- with the text after in that place and everything else as it was.
  pub apply_patch-replaces :
      (p : Patch) (root root2 : Root)
      → apply_patch Root read_file write_file is_local parse_event p root ≡ ok root2
      → (a : Bytes) × (b : Bytes) × (read_file root p.file ≡ ok (a ++ (p.before ++ b)))
        × (count p.before (a ++ (p.before ++ b)) ≡ 1)
        × (write_file p.file (a ++ (p.after ++ b)) root ≡ ok root2)
  unfolding apply_patch check_once
  apply_patch-replaces p root root2 h =
      let (raw, once, wrote) =
        result_bind-ok (check_once Root read_file write_file is_local parse_event root p) _ h in
      let (raw2, read, counted) = result_bind-ok (read_file root p.file) _ once in
      let (one, same) = require-ok _ (count p.before raw2 == 1) _ counted in
      let exactly = (==_iff (count p.before raw2) 1).0 one in
      let (a, b, split, replaced) = replace_first-count p.before p.after raw2 0 exactly in
      (
        a,
        b,
        read ∙ ap ok split,
        sym (ap (count p.before) split) ∙ exactly,
        sym (ap (λ s. write_file p.file s root) replaced)
            ∙ ap (λ r. write_file p.file (replace_first p.before p.after r) root)
                (ok-injective same)
            ∙ wrote,
      )

  module _ (go_test : Root → Root → Mutation → List Bytes × Result (Unit {0})) where
    -- runMutation, once it has its snapshots, counts a mutation as killed only if the go command
    -- succeeded on them and the named test passed and did not fail there, the patches applied, and
    -- then the command failed with a failure of the named test.
    pub run_mutation-kills :
        (m : Mutation) (zk kal : Root)
        → run_mutation Root read_file write_file is_local parse_event go_test m zk kal ≡ ok tt
        → (read_events Root read_file write_file is_local parse_event m.test (go_test zk kal m).0
            ≡ (true, false))
          × ((go_test zk kal m).1 ≡ ok tt)
          × (after : Root × Root) × (e : Error) × (mutated Root read_file write_file is_local
                parse_event go_test m zk kal
              ≡ ok after)
          × ((go_test after.0 after.1 m).1 ≡ err e)
          × ((read_events Root read_file write_file is_local parse_event m.test
                (go_test after.0 after.1 m).0).1
              ≡ true)
    unfolding run_mutation baseline killed
    run_mutation-kills m zk kal h =
        let run = go_test zk kal m in
        let (_, base, rest) =
          result_bind-ok (baseline Root read_file write_file is_local parse_event go_test m zk kal)
            _ h in
        let (_, exit, clean) = result_bind-ok run.1 _ base in
        let (passed, failed) = passed_only _ _ _ clean in
        let (after, patched, dead) =
          result_bind-ok (mutated Root read_file write_file is_local parse_event go_test m zk kal) _
            rest in
        elim (Result-cases (go_test after.0 after.1 m).1) [
          | inl (_, fine) ↦ cc (rw (killed, fine) at dead)
          | inr (e, broken) ↦
              let (named, _) = require-ok _ _ _ (rw (killed, broken) at dead) in
              ((λ i. (passed i, failed i)), exit, after, e, patched, broken, named)
        ]

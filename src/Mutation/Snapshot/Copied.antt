-- ===== src/Mutation/Snapshot/Copied.antt =====
-- What a snapshot of internal/cmd/zktestmutate/main.go holds.
use kal_zk.Base.{
  ◌≡◌, refl, sym, ap, ◌∙◌, Bool, true, false, not, ◌&&◌, if◌then◌else◌, Bool-cases, inl, inr, ◌⊎◌,
  Bytes, List, [], ◌∷◌, Option, none, some, bytes_eq, bytes_eq→eq, arith,
}
use kal_zk.Error.{Result, ok, result_bind-ok, ok-injective}
use kal_zk.Mutation.Snapshot.{
  Entries, no_more, file, folder, symlink, is_skipped, is_local_output, copy_tree,
}

-- The file of a name below some directories.
abbrev pub find_file : List Bytes → Bytes → Entries → Option (Result Bytes)
find_file [] name no_more = none
find_file (d ∷ ds) name no_more = none
find_file [] name (file n contents rest) =
    let after = find_file [] name rest in if bytes_eq n name then some contents else after
find_file (d ∷ ds) name (file n contents rest) = find_file (d ∷ ds) name rest
find_file [] name (folder n inside rest) = find_file [] name rest
find_file (d ∷ ds) name (folder n inside rest) =
    let below = find_file ds name inside in
    let after = find_file (d ∷ ds) name rest in if bytes_eq n d then below else after
find_file [] name (symlink n rest) = find_file [] name rest
find_file (d ∷ ds) name (symlink n rest) = find_file (d ∷ ds) name rest

-- No directory on the way is one that a snapshot leaves out, nor is the file.
abbrev pub is_kept : List Bytes → Bytes → Bool
is_kept [] name = not (is_local_output name)
is_kept (d ∷ ds) name = not (is_skipped d) && is_kept ds name

same_name : (f : Bytes → Bool) (n name : Bytes) → bytes_eq n name ≡ true → f name ≡ f n
same_name f n name h = ap f (sym (bytes_eq→eq n name h))

-- How a file was copied.
file_copied :
    (n : Bytes) (contents : Result Bytes) (rest copied : Entries)
    → copy_tree (file n contents rest) ≡ ok copied
    → (after : Entries) × (copy_tree rest ≡ ok after)
      × (((is_local_output n ≡ true) × (copied ≡ after))
          ⊎ ((is_local_output n ≡ false) × (copied ≡ file n contents after)))
unfolding copy_tree
file_copied n contents rest copied h = elim (Bool-cases (is_local_output n)) [
  | inl out ↦ (copied, rw (copy_tree, out) at h, inl (out, refl))
  | inr kept ↦
      let (raw, read, h1) = result_bind-ok contents _ (rw (copy_tree, kept) at h) in
      let (after, rest_copied, same) = result_bind-ok (copy_tree rest) _ h1 in
      (
        after,
        rest_copied,
        inr (kept, sym (ok-injective same) ∙ ap (λ r. file n r after) (sym read)),
      )
]

-- How a directory was copied.
folder_copied :
    (n : Bytes) (inside rest copied : Entries)
    → copy_tree (folder n inside rest) ≡ ok copied
    → (after : Entries) × (copy_tree rest ≡ ok after)
      × (((is_skipped n ≡ true) × (copied ≡ after))
          ⊎ ((is_skipped n ≡ false)
              × (below : Entries) × (copy_tree inside ≡ ok below)
              × (copied ≡ folder n below after)))
unfolding copy_tree
folder_copied n inside rest copied h = elim (Bool-cases (is_skipped n)) [
  | inl out ↦ (copied, rw (copy_tree, out) at h, inl (out, refl))
  | inr kept ↦
      let (below, inner, h1) = result_bind-ok (copy_tree inside) _ (rw (copy_tree, kept) at h) in
      let (after, rest_copied, same) = result_bind-ok (copy_tree rest) _ h1 in
      (after, rest_copied, inr (kept, below, inner, sym (ok-injective same)))
]

if_none : (b : Bool) → ◌≡◌ {A = Option (Result Bytes)} none (if b then none else none)
if_none true = refl
if_none false = refl

-- In a snapshot that copyTree completed, each path finds the file that it finds in the source,
-- with its contents, if no directory on it is .git, .cache or vendor and the file is not
-- coverage.out or .env, and finds none otherwise.
pub copy_tree-find_file :
    (t copied : Entries) (ds : List Bytes) (name : Bytes)
    → copy_tree t ≡ ok copied
    → find_file ds name copied ≡ (if is_kept ds name then find_file ds name t else none)
unfolding copy_tree
copy_tree-find_file no_more copied [] name h =
    ap (find_file [] name) (sym (ok-injective h)) ∙ if_none _
copy_tree-find_file no_more copied (d ∷ ds) name h =
    ap (find_file (d ∷ ds) name) (sym (ok-injective h)) ∙ if_none _
copy_tree-find_file (symlink n rest) copied ds name h = cc
copy_tree-find_file (file n contents rest) copied [] name h =
    let (after, run, how) = file_copied n contents rest copied h in
    let below = copy_tree-find_file rest after [] name run in
    elim how [
      | inl (out, same) ↦
          ap (find_file [] name) same
          ∙ below
          ∙ ground (arith, out, same_name is_local_output n name)
      | inr (kept, same) ↦
          ap (find_file [] name) same
          ∙ ground (arith, kept, below, same_name is_local_output n name)
    ]
copy_tree-find_file (file n contents rest) copied (d ∷ ds) name h =
    let (after, run, how) = file_copied n contents rest copied h in
    let below = copy_tree-find_file rest after (d ∷ ds) name run in
    elim how [
      | inl (out, same) ↦ ap (find_file (d ∷ ds) name) same ∙ below
      | inr (kept, same) ↦ ap (find_file (d ∷ ds) name) same ∙ below
    ]
copy_tree-find_file (folder n inside rest) copied [] name h =
    let (after, run, how) = folder_copied n inside rest copied h in
    let below = copy_tree-find_file rest after [] name run in
    elim how [
      | inl (out, same) ↦ ap (find_file [] name) same ∙ below
      | inr (kept, _, _, same) ↦ ap (find_file [] name) same ∙ below
    ]
copy_tree-find_file (folder n inside rest) copied (d ∷ ds) name h =
    let (after, run, how) = folder_copied n inside rest copied h in
    let beside = copy_tree-find_file rest after (d ∷ ds) name run in
    elim how [
      | inl (out, same) ↦
          ap (find_file (d ∷ ds) name) same ∙ beside ∙ ground (arith, out, same_name is_skipped n d)
      | inr (kept, below, inner, same) ↦
          let within = copy_tree-find_file inside below ds name inner in
          ap (find_file (d ∷ ds) name) same
          ∙ ground (arith, kept, beside, within, same_name is_skipped n d)
    ]

-- ===== src/Mutation/Snapshot.antt =====
-- internal/cmd/zktestmutate/main.go: copyTree and repositoryRoot. A checkout is the tree of its
-- entries; the modes of files are left out.
pub mod Copied
use kal_zk.Base.{
  ℕ, Bool, true, false, ◌||◌, if◌then◌else◌, Bytes, List, [], ◌∷◌, Option, none, some, codes,
  bytes_eq,
}
use kal_zk.Error.{Result, ok, err, plain, result_bind}

-- The entries of a directory in the order of the walk. What a file holds is what reading it gives.
pub data Entries : Type 0 where
  no_more : Entries
  file : Bytes → Result Bytes → Entries → Entries
  folder : Bytes → Entries → Entries → Entries
  symlink : Bytes → Entries → Entries

abbrev pub is_skipped : Bytes → Bool
is_skipped name =
    bytes_eq name (codes ".git")
    || (bytes_eq name (codes ".cache") || bytes_eq name (codes "vendor"))

abbrev pub is_local_output : Bytes → Bool
is_local_output name = bytes_eq name (codes "coverage.out") || bytes_eq name (codes ".env")

-- The walk below the root, which is a directory, and which copies each entry before the ones after
-- it. A root that is a symbolic link is in `copy_checkout` of Mutation.Runner.
unfoldable pub copy_tree : Entries → Result Entries
copy_tree no_more = ok no_more
copy_tree (file name contents rest) =
    let after = copy_tree rest in
    if is_local_output name
    then after
    else result_bind contents λ raw. result_bind after λ copied. ok (file name (ok raw) copied)
copy_tree (folder name inside rest) =
    let below = copy_tree inside in
    let after = copy_tree rest in
    if is_skipped name
    then after
    else result_bind below λ inner. result_bind after λ copied. ok (folder name inner copied)
copy_tree (symlink name rest) = err (plain "symlink is not allowed in mutation input")

-- A clean absolute path, its last name first; `filepath.Dir` of the root is the root.
abbrev pub parent : List Bytes → List Bytes
parent [] = []
parent (name ∷ above) = above

-- `repositoryRoot`, from the working directory on.
unfoldable pub repository_root : (List Bytes → Bool) → List Bytes → Result (List Bytes)
repository_root has_go_mod [] = if has_go_mod [] then ok [] else err (plain "go.mod not found")
repository_root has_go_mod (name ∷ above) =
    let higher = repository_root has_go_mod above in
    if has_go_mod (name ∷ above) then ok (name ∷ above) else higher

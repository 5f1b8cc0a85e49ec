-- ===== src/Tree.antt =====
-- zkauthn/tree.go: the sparse Merkle tree of membership credentials in its tables.
pub mod History
pub mod Shape
pub mod Climb
pub mod Write
pub mod Paths
pub mod Issue
pub mod Fetch
pub mod Revoke
pub mod Fresh
pub mod Undo
pub mod Torn
pub mod Invariant
use kal_zk.Base.{
  ℕ, zero, suc, ◌+◌, ◌-◌, ◌/◌, ◌%◌, Bool, true, false, ltb, ◌==◌, if◌then◌else◌, Bytes, List, [],
  ◌∷◌, Option, none, some, get_or,
}
use kal_zk.Error.{
  Error, Result, ok, err, kal, forbidden, invalid_input, rate_limited, no_rows, plain,
  classify_operator_write,
}
use kal_zk.Hash.{Field, Secret, Crypto, field_bytes, parse_field, native_hash, membership_leaf}
use kal_zk.Hash.Entropy.{generate_secret}
use kal_zk.Service.{Zk}
use kal_zk.Store.{Db}
use kal_zk.Store.Exec.{
  Statement, M, World, Handle, query, pure, raise, lift, attempt, ◌>>=◌, ◌>>◌, with_tx,
}
use kal_zk.Store.Nodes.{node_by_position, upsert_node, delete_node}
use kal_zk.Store.Roots.{retire_root, insert_root, current_root_row, root_accepted_row}
use kal_zk.Store.Credentials.{
  Verdict, next_leaf, insert_credential, credential_by_index, mark_revoked, credentials_by_user,
  Uuid,
}

abbrev pub merkle_depth : ℕ
merkle_depth = 32

-- `math.MaxUint32`
abbrev pub max_uint32 : ℕ
max_uint32 = 4294967295

-- `position ^ 1`
unfoldable pub xor_one : ℕ → ℕ
xor_one p = if p % 2 == 0 then p + 1 else p - 1

pub record MerklePath : Type 0 where
  pub root : Field
  pub path : List Field
  pub index : ℕ

pub record Credential : Type 0 where
  pub secret : Secret
  pub attribute : ℕ
  pub leaf_index : ℕ
  pub path : MerklePath

-- `pg_advisory_xact_lock` writes no table: it keeps other writers of the tree off the schedule.
unfoldable pub lock_tree : Statement (Unit {0})
lock_tree now db = ok (tt, db)

-- `errors.Is(err, pg.ErrNoRows)` gives another outcome.
abbrev pub on_no_rows {ℓ} : {A : Type ℓ} → Result A → M A → M A
on_no_rows (ok a) other = pure a
on_no_rows (err no_rows) other = other
on_no_rows (err e) other = raise e

-- The callback decides before entropy or the database is touched; a missing callback forbids.
unfoldable pub authorized : Option (Bytes → ℕ → Option Error) → Bytes → ℕ → M (Unit {0})
authorized none issued_to attribute = raise (kal forbidden)
authorized (some authorize) issued_to attribute = elim (authorize issued_to attribute) [
  | some e ↦ raise e
  | none ↦ pure tt
]

-- `classifyOperatorWrite` on the outcome of a write.
abbrev pub operator_write {ℓ} : {A : Type ℓ} → Result A → M A
operator_write (ok a) = pure a
operator_write (err e) = raise (classify_operator_write e)

module _ (c : Crypto) (z : Zk) where
  abbrev node_or_zero : ℕ → Result Bytes → M Field
  node_or_zero level (ok raw) = lift (parse_field c raw)
  node_or_zero level (err no_rows) = pure (get_or z.zeros level 0)
  node_or_zero level (err e) = raise e

  unfoldable pub node : ℕ → ℕ → M Field
  node level index = do
    found ← attempt (query (node_by_position level index))
    node_or_zero level found

  unfoldable pub current_root : M Field
  current_root = do found ← attempt (query current_root_row); node_or_zero merkle_depth found

  -- A node equal to the hash of an empty subtree is not stored.
  unfoldable pub write_node : ℕ → ℕ → Field → M (Unit {0})
  write_node level position current =
      if current == get_or z.zeros level 0
      then query (delete_node level position)
      else query (upsert_node level position (field_bytes current))

  unfoldable pub join : ℕ → Field → Field → Result Field
  join position current sibling =
      if position % 2 == 0
      then native_hash c (current ∷ sibling ∷ [])
      else native_hash c (sibling ∷ current ∷ [])

  -- The loop over the levels, with the number of levels that are left.
  unfoldable pub climb : ℕ → ℕ → ℕ → Field → M Field
  climb zero level position current = pure current
  climb (suc k) level position current = do
    write_node level position current
    sibling ← node level (xor_one position)
    next ← lift (join position current sibling)
    climb k (suc level) (position / 2) next

  unfoldable pub leaf_hash : Field → Bool → Result Field
  leaf_hash commitment empty =
      if empty then ok (get_or z.zeros 0 0) else native_hash c (commitment ∷ [])

  unfoldable pub write_leaf : ℕ → Field → Bool → M Field
  write_leaf index commitment empty = do
    start ← lift (leaf_hash commitment empty)
    root ← climb merkle_depth 0 index start
    query retire_root
    query (insert_root (field_bytes root))
    pure root

  unfoldable pub siblings : ℕ → ℕ → ℕ → M (List Field)
  siblings zero level position = pure []
  siblings (suc k) level position = do
    sibling ← node level (xor_one position)
    rest ← siblings k (suc level) (position / 2)
    pure (sibling ∷ rest)

  -- `z.path`
  unfoldable pub path_of : ℕ → Field → Field → M MerklePath
  path_of index commitment root = do
    rest ← siblings merkle_depth 0 index
    pure (record { root = root; path = commitment ∷ rest; index = index })

  -- The issuance inside its transaction.
  unfoldable pub issue_tx : Verdict → Bytes → Secret → ℕ → Field → M Credential
  issue_tx verdict issued_to secret attribute commitment = do
    query lock_tree
    next ← query next_leaf
    if ltb max_uint32 next then raise (kal invalid_input) else do
      stored ← attempt (query (insert_credential verdict next (field_bytes commitment) issued_to))
      operator_write stored
      root ← write_leaf next commitment false
      path ← path_of next commitment root
      pure (record { secret = secret; attribute = attribute; leaf_index = next; path = path })

  -- `IssueCredential`
  unfoldable pub issue_credential : Handle → Verdict → Bytes → ℕ → M Credential
  issue_credential handle verdict issued_to attribute = do
    authorized z.authorize_issue issued_to attribute
    secret ← generate_secret
    commitment ← lift (membership_leaf c secret attribute)
    with_tx handle (issue_tx verdict issued_to secret attribute commitment)

  -- The optimistic reads of `Path`, with the number of attempts that are left.
  unfoldable pub snapshot : ℕ → ℕ → Field → M MerklePath
  snapshot zero index commitment = raise (kal rate_limited)
  snapshot (suc k) index commitment = do
    root ← current_root
    candidate ← path_of index commitment root
    after ← current_root
    if root == after then pure candidate else snapshot k index commitment

  unfoldable pub path_tx : ℕ → M MerklePath
  path_tx index = do
    found ← attempt (query (credential_by_index index))
    (raw, revoked) ← on_no_rows found (raise (kal invalid_input))
    if revoked
        then raise (kal invalid_input)
        else do commitment ← lift (parse_field c raw); snapshot 2 index commitment

  -- `Path`
  unfoldable pub fetch_path : Handle → ℕ → M MerklePath
  fetch_path handle index = with_tx handle (path_tx index)

  unfoldable pub unwrite : ℕ → Result Bytes → M (Unit {0})
  unwrite index (ok raw) = write_leaf index 0 true >> pure tt
  unwrite index (err no_rows) = pure tt
  unwrite index (err e) = raise e

  unfoldable pub revoke_tx : ℕ → M (Unit {0})
  revoke_tx index = do
    query lock_tree
    marked ← attempt (query (mark_revoked index))
    unwrite index marked

  unfoldable pub revoke_credential : Handle → ℕ → M (Unit {0})
  revoke_credential handle index = with_tx handle (revoke_tx index)

  unfoldable pub revoke_all : List ℕ → M (Unit {0})
  revoke_all [] = pure tt
  revoke_all (i ∷ rest) =
      if ltb max_uint32 i
      then raise (plain "zkauthn: stored leaf index exceeds depth")
      else do query (mark_revoked i); write_leaf i 0 true; revoke_all rest

  unfoldable pub revoke_credentials_for_user : Uuid → Handle → Bytes → M (Unit {0})
  revoke_credentials_for_user uuid handle user =
      with_tx handle
        do query lock_tree; rows ← query (credentials_by_user uuid user); revoke_all rows

  unfoldable pub root_accepted : Field → M Bool
  root_accepted root = query (root_accepted_row z.root_grace (field_bytes root))

-- ===== src/Store/Users.antt =====
-- The knowledge commitments and the password hashes (zkauthn/sql.go: upsertCommitment,
-- commitmentByUser, passwordHashByUser).
use kal_zk.Base.{◌&&◌, if◌then◌else◌, Bytes, bytes_eq, List, [], ◌∷◌, Option, none, some}
use kal_zk.Error.{ok, err, no_rows}
use kal_zk.Store.{CommitmentRow, UserRow}
use kal_zk.Store.Exec.{Statement}
use kal_zk.Store.Challenges.{is_unset}

unfoldable pub put_commitment : Bytes → Bytes → List CommitmentRow → List CommitmentRow
put_commitment user commitment [] = record { user_id = user; commitment = commitment } ∷ []
put_commitment user commitment (r ∷ rs) =
    if bytes_eq r.user_id user
    then record r { commitment = commitment } ∷ rs
    else r ∷ put_commitment user commitment rs

unfoldable pub find_commitment : Bytes → List CommitmentRow → Option Bytes
find_commitment user [] = none
find_commitment user (r ∷ rs) =
    if bytes_eq r.user_id user then some r.commitment else find_commitment user rs

unfoldable pub upsert_commitment : Bytes → Bytes → Statement (Unit {0})
upsert_commitment user commitment now db =
    ok (tt, record db { commitments = put_commitment user commitment db.commitments })

unfoldable pub commitment_by_user : Bytes → Statement Bytes
commitment_by_user user now db = elim (find_commitment user db.commitments) [
  | none ↦ err no_rows
  | some raw ↦ ok (raw, db)
]

-- `coalesce(password_hash, '')`
abbrev pub hash_or_empty : Option Bytes → Bytes
hash_or_empty none = []
hash_or_empty (some hash) = hash

unfoldable pub find_password : Bytes → List UserRow → Option Bytes
find_password user [] = none
find_password user (u ∷ us) =
    if bytes_eq u.id user && is_unset u.deleted_at
    then some (hash_or_empty u.password_hash)
    else find_password user us

unfoldable pub password_hash_by_user : Bytes → Statement Bytes
password_hash_by_user user now db = elim (find_password user db.users) [
  | none ↦ err no_rows
  | some hash ↦ ok (hash, db)
]

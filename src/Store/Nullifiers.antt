-- ===== src/Store/Nullifiers.antt =====
-- The nullifiers and the pseudonymous accounts (zkauthn/sql.go: resolveNullifier, createNullifier,
-- oneShotNullifier, bindRecurringNullifier). A nullifier is its table's key; a live user is keyed
-- by the lower case of the e-mail.
pub mod Burning
pub mod Accounts
use kal_zk.Base.{
  refl, ap, bytes_eq→eq, ℕ, ◌+◌, Bool, true, false, ◌&&◌, leb, if◌then◌else◌, Bytes, List, [], ◌∷◌,
  Option, none, some, map, ◌≡◌, bytes_eq_self, arith, Bool-cases, Option-cases, inl, inr, ◌⊎◌,
  bytes_eq,
}
use kal_zk.Error.{Result, ok, err, no_rows}
use kal_zk.Store.{Db, NullifierRow, UserRow}
use kal_zk.Store.Exec.{Statement}
use kal_zk.Store.Challenges.{is_unset}

unfoldable pub find_nullifier : Bytes → List NullifierRow → Option NullifierRow
find_nullifier n [] = none
find_nullifier n (r ∷ rs) = if bytes_eq r.nullifier n then some r else find_nullifier n rs

-- The undeleted user with this id and exactly this e-mail.
unfoldable pub has_account : Bytes → Bytes → List UserRow → Bool
has_account id email [] = false
has_account id email (u ∷ us) =
    if bytes_eq u.id id && (is_unset u.deleted_at && bytes_eq u.email email)
    then true
    else has_account id email us

abbrev pub resolve_row : Bytes → Bytes → List UserRow → NullifierRow → Option Bytes
resolve_row audience email users r = elim r.user_id [
  | none ↦ none
  | some id ↦
      if bytes_eq r.audience audience && (is_unset r.consumed_at && has_account id email users)
      then some id
      else none
]

unfoldable pub resolve_user : Bytes → Bytes → Bytes → Db → Option Bytes
resolve_user n audience email db = elim (find_nullifier n db.nullifiers) [
  | none ↦ none
  | some r ↦ resolve_row audience email db.users r
]

abbrev pub row_or_none {ℓ} : {A : Type ℓ} → Db → Option A → Result (A × Db)
row_or_none db none = err no_rows
row_or_none db (some a) = ok (a, db)

unfoldable pub resolve_nullifier : Bytes → Bytes → Bytes → Statement Bytes
resolve_nullifier n audience email now db = row_or_none db (resolve_user n audience email db)

-- `lower`, on ASCII letters.
unfoldable pub lower_byte : ℕ → ℕ
lower_byte b = if leb b'A' b && leb b b'Z' then b + 32 else b

abbrev pub lower : Bytes → Bytes
lower s = map lower_byte s

unfoldable pub email_taken : Bytes → List UserRow → Bool
email_taken email [] = false
email_taken email (u ∷ us) =
    if is_unset u.deleted_at && bytes_eq (lower u.email) (lower email)
    then true
    else email_taken email us

abbrev pub new_user : Bytes → Bytes → UserRow
new_user id email = record {
  id = id;
  email = email;
  password_hash = none;
  email_verified = false;
  deleted_at = none;
}

abbrev pub bound_row : Bytes → Bytes → Bytes → NullifierRow
bound_row n audience id = record {
  nullifier = n;
  audience = audience;
  user_id = some id;
  consumed_at = none;
}

-- Both inserts do nothing on a conflict; no row is no error of the statement, so its writes stay.
-- The server makes the id of a new user up.
unfoldable pub create_nullifier : (Db → Bytes) → Bytes → Bytes → Bytes → Statement (Option Bytes)
create_nullifier fresh_id email n audience now db =
    let id = fresh_id db in
    let users = new_user id email ∷ db.users in
    if email_taken email db.users then ok (none, db) else elim (find_nullifier n db.nullifiers) [
      | some r ↦ ok (none, record db { users = users })
      | none ↦ ok (
        some id,
        record db { users = users; nullifiers = bound_row n audience id ∷ db.nullifiers },
      )
    ]

abbrev pub burned_row : ℕ → Bytes → Bytes → NullifierRow
burned_row now n audience = record {
  nullifier = n;
  audience = audience;
  user_id = none;
  consumed_at = some now;
}

unfoldable pub one_shot_nullifier : Bytes → Bytes → Statement Bytes
one_shot_nullifier n audience now db = elim (find_nullifier n db.nullifiers) [
  | some r ↦ err no_rows
  | none ↦ ok (n, record db { nullifiers = burned_row now n audience ∷ db.nullifiers })
]

-- A comparison with null is not true.
abbrev pub same_user : Option Bytes → Bytes → Bool
same_user none user = false
same_user (some id) user = bytes_eq id user

unfoldable pub bind_recurring_nullifier : Bytes → Bytes → Bytes → Statement Bytes
bind_recurring_nullifier n audience user now db = elim (find_nullifier n db.nullifiers) [
  | none ↦ ok (user, record db { nullifiers = bound_row n audience user ∷ db.nullifiers })
  | some r ↦
      if bytes_eq r.audience audience && same_user r.user_id user
      then ok (user, db)
      else err no_rows
]

-- ===== src/Store/Nullifiers/Accounts.antt =====
-- The pseudonymous accounts that nullifiers resolve to (zkauthn/sql.go: resolveNullifier, createNullifier).
use kal_zk.Base.{
  false, Bool, ◌&&◌, if◌then◌else◌, bytes_eq→eq, refl, ap, ◌∙◌, ℕ, true, Bytes, List, ◌∷◌, Option,
  none, some, ◌≡◌, bytes_eq_self, arith, Bool-cases, Option-cases, inl, inr, ◌⊎◌, bytes_eq,
}
use kal_zk.Error.{Result, ok}
use kal_zk.Store.{Db, UserRow, NullifierRow}
use kal_zk.Store.Challenges.{is_unset}
use kal_zk.Store.Nullifiers.{
  find_nullifier, has_account, resolve_row, resolve_user, email_taken, new_user, bound_row,
  create_nullifier,
}

-- A nullifier resolves only to a live account with the e-mail.
pub resolve_user-has_account :
    (n audience email : Bytes) (db : Db) {id : Bytes}
    → resolve_user n audience email db ≡ some id
    → has_account id email db.users ≡ true
unfolding resolve_user
resolve_user-has_account n audience email db h = ground arith

resolve_row-bound :
    (n audience email id : Bytes) (users : List UserRow)
    → resolve_row audience email (new_user id email ∷ users) (bound_row n audience id) ≡ some id
unfolding has_account
resolve_row-bound n audience email id users =
    rw (bytes_eq_self audience, bytes_eq_self id, bytes_eq_self email)

-- What a created pseudonym resolves to.
pub resolve_user-created :
    (n audience email id : Bytes) (db : Db)
    → resolve_user n audience email (record db {
      users = new_user id email ∷ db.users;
      nullifiers = bound_row n audience id ∷ db.nullifiers;
    })
      ≡ some id
unfolding resolve_user find_nullifier bytes_eq
resolve_user-created n audience email id db =
    rw (bytes_eq_self n, resolve_row-bound n audience email id db.users)

-- The row behind an account that was resolved: of the user, under the audience, and not burned.
pub record IsBound (n audience email id : Bytes) (db : Db) : Type 0 where
  pub row : NullifierRow
  pub there : find_nullifier n db.nullifiers ≡ some row
  pub of_user : row.user_id ≡ some id
  pub of_audience : row.audience ≡ audience
  pub unburned : is_unset row.consumed_at ≡ true

row_if :
    (b : Bool) (x id : Bytes)
    → ◌≡◌ {A = Option Bytes} (if b then some x else none) (some id)
    → (b ≡ true) × (x ≡ id)
row_if true x id h = (refl, cc)
row_if false x id h = cc

resolve_row-binds :
    (audience email : Bytes) (users : List UserRow) (r : NullifierRow) (id : Bytes)
    → resolve_row audience email users r ≡ some id
    → (r.user_id ≡ some id) × (r.audience ≡ audience) × (is_unset r.consumed_at ≡ true)
resolve_row-binds audience email users r id h = elim (Option-cases r.user_id) [
  | inl absent ↦ (let clash = rw absent at h in cc)
  | inr (x, there) ↦
      let (tests, same) = row_if _ x id (rw there at h) in
      (there ∙ ap some same, bytes_eq→eq _ _ (ground (arith, tests)), ground (arith, tests))
]

pub resolve_user-IsBound :
    (n audience email id : Bytes) (db : Db)
    → resolve_user n audience email db ≡ some id
    → IsBound n audience email id db
unfolding resolve_user
resolve_user-IsBound n audience email id db h =
    elim (Option-cases (find_nullifier n db.nullifiers)) [
      | inl absent ↦ cc (rw (resolve_user, absent) at h)
      | inr (r, there) ↦
          let (user, same, unburned) =
            resolve_row-binds audience email db.users r id (rw (resolve_user, there) at h) in
          record { row = r; there = there; of_user = user; of_audience = same; unburned = unburned }
    ]

resolve_row-bound_row :
    (audience other email id : Bytes) (users : List UserRow) (r : NullifierRow)
    → r.user_id ≡ some id
    → r.audience ≡ audience
    → is_unset r.consumed_at ≡ true
    → resolve_row other email users r
      ≡ (if bytes_eq audience other && has_account id email users then some id else none)
resolve_row-bound_row audience other email id users r user same unburned =
    rw (user, same, unburned) refl

-- What a bound nullifier resolves to on any tables that have its row.
pub resolve_user-bound :
    (n audience other email id : Bytes) (db later : Db)
    → IsBound n audience email id db
    → find_nullifier n later.nullifiers ≡ find_nullifier n db.nullifiers
    → resolve_user n other email later
      ≡ (if bytes_eq audience other && has_account id email later.users then some id else none)
unfolding resolve_user
resolve_user-bound n audience other email id db later b kept =
    let row = kept ∙ b.there in
    rw (row, resolve_user)
      (resolve_row-bound_row audience other email id later.users b.row b.of_user b.of_audience
        b.unburned)

-- The insert of a pseudonym whose nullifier has a row leaves that row, and no account of its user.
pub create_nullifier-bound :
    (fresh_id : Db → Bytes) (email n audience id : Bytes) (now : ℕ) (db : Db) (r : NullifierRow)
    → find_nullifier n db.nullifiers ≡ some r
    → bytes_eq (fresh_id db) id ≡ false
    → (d : Db) × (create_nullifier fresh_id email n audience now db ≡ ok (none, d))
      × (d.nullifiers ≡ db.nullifiers)
      × (has_account id email d.users ≡ has_account id email db.users)
unfolding create_nullifier has_account
create_nullifier-bound fresh_id email n audience id now db r there new =
    elim (Bool-cases (email_taken email db.users)) [
      | inl taken ↦ (db, rw (taken, create_nullifier), refl, refl)
      | inr free ↦ (
        record db { users = new_user (fresh_id db) email ∷ db.users },
        rw (free, there, create_nullifier),
        refl,
        rw new refl,
      )
    ]

-- The two outcomes of the insert of a pseudonym.
abbrev pub Creates : Bytes → Bytes → Bytes → Bytes → Db → Result (Option Bytes × Db) → Type 0
Creates id email n audience db r =
    ((d : Db) × (r ≡ ok (none, d)))
    ⊎ (r
        ≡ ok (
          some id,
          record db {
            users = new_user id email ∷ db.users;
            nullifiers = bound_row n audience id ∷ db.nullifiers;
          },
        ))

pub create_nullifier-Creates :
    (fresh_id : Db → Bytes) (email n audience : Bytes) (now : ℕ) (db : Db)
    → Creates (fresh_id db) email n audience db (create_nullifier fresh_id email n audience now db)
unfolding create_nullifier
create_nullifier-Creates fresh_id email n audience now db =
    elim (Bool-cases (email_taken email db.users)) [
      | inl taken ↦ inl (db, rw (taken, create_nullifier))
      | inr free ↦ elim (Option-cases (find_nullifier n db.nullifiers)) [
        | inl unused ↦ inr (rw (free, unused, create_nullifier))
        | inr (r, there) ↦ inl (
          record db { users = new_user (fresh_id db) email ∷ db.users },
          rw (free, there, create_nullifier),
        )
      ]
    ]

-- ===== src/Store/Nullifiers/Burning.antt =====
-- What the statements on nullifiers of zkauthn/sql.go answer: one-shot and recurring claims.
use kal_zk.Base.{
  refl, ap, bytes_eq→eq, ℕ, true, ◌&&◌, Bytes, List, ◌∷◌, Option, none, some, ◌≡◌, bytes_eq_self,
  arith, Bool-cases, Option-cases, inl, inr, ◌⊎◌, bytes_eq,
}
use kal_zk.Error.{ok, err, no_rows}
use kal_zk.Store.{Db, NullifierRow}
use kal_zk.Store.Nullifiers.{
  find_nullifier, bound_row, burned_row, one_shot_nullifier, same_user, bind_recurring_nullifier,
}

-- The row of a nullifier that was burned.
abbrev pub IsBurned : Bytes → Db → Type 0
IsBurned n db =
    (t : ℕ) × (audience : Bytes) × (find_nullifier n db.nullifiers ≡ some (burned_row t n audience))

pub bind_recurring_nullifier-burned :
    (n audience user : Bytes) (now : ℕ) (db : Db)
    → IsBurned n db
    → bind_recurring_nullifier n audience user now db ≡ err no_rows
unfolding bind_recurring_nullifier
bind_recurring_nullifier-burned n audience user now db (t, first, row) =
    elim (Bool-cases (bytes_eq first audience)) [
      | inl same ↦ rw (row, bind_recurring_nullifier, same)
      | inr differs ↦ rw (row, bind_recurring_nullifier, differs)
    ]

pub one_shot_nullifier-burned :
    (n audience : Bytes) (now : ℕ) (db : Db)
    → IsBurned n db
    → one_shot_nullifier n audience now db ≡ err no_rows
unfolding one_shot_nullifier
one_shot_nullifier-burned n audience now db (t, first, row) = rw (row, one_shot_nullifier)

pub one_shot_nullifier-fresh :
    (n audience : Bytes) (now : ℕ) (db : Db)
    → find_nullifier n db.nullifiers ≡ none
    → one_shot_nullifier n audience now db
      ≡ ok (n, record db { nullifiers = burned_row now n audience ∷ db.nullifiers })
unfolding one_shot_nullifier
one_shot_nullifier-fresh n audience now db unused = rw (unused, one_shot_nullifier)

pub one_shot_nullifier-taken :
    (n audience : Bytes) (now : ℕ) (db : Db) {r : NullifierRow}
    → find_nullifier n db.nullifiers ≡ some r
    → one_shot_nullifier n audience now db ≡ err no_rows
unfolding one_shot_nullifier
one_shot_nullifier-taken n audience now db taken = rw (taken, one_shot_nullifier)

pub find_nullifier-burned :
    (now : ℕ) (n audience : Bytes) (rows : List NullifierRow)
    → find_nullifier n (burned_row now n audience ∷ rows) ≡ some (burned_row now n audience)
unfolding find_nullifier
find_nullifier-burned now n audience rows = rw (bytes_eq_self n)

-- The nullifier names this user for this audience.
abbrev pub IsBound : Bytes → Bytes → Bytes → List NullifierRow → Type 0
IsBound n audience user rows =
    (r : NullifierRow) × (find_nullifier n rows ≡ some r)
    × (r.audience ≡ audience)
    × (r.user_id ≡ some user)

-- What a binding that succeeded has left: the row was there, or is new.
abbrev pub Binds : Bytes → Bytes → Bytes → List NullifierRow → List NullifierRow → Type 0
Binds n audience user before after =
    IsBound n audience user after
    × ((after ≡ before)
        ⊎ ((find_nullifier n before ≡ none) × (after ≡ bound_row n audience user ∷ before)))

same_user-eq :
    (stored : Option Bytes) (user : Bytes) → same_user stored user ≡ true → stored ≡ some user
same_user-eq none user e = cc
same_user-eq (some id) user e = ap some (bytes_eq→eq id user e)

find_nullifier-bound :
    (n audience user : Bytes) (rows : List NullifierRow)
    → find_nullifier n (bound_row n audience user ∷ rows) ≡ some (bound_row n audience user)
unfolding find_nullifier
find_nullifier-bound n audience user rows = rw (bytes_eq_self n)

pub bind_recurring_nullifier-cases :
    (n audience user : Bytes) (now : ℕ) (db : Db)
    → (bind_recurring_nullifier n audience user now db ≡ err no_rows)
      ⊎ ((rows : List NullifierRow) × Binds n audience user db.nullifiers rows
          × (bind_recurring_nullifier n audience user now db
              ≡ ok (user, record db { nullifiers = rows })))
unfolding bind_recurring_nullifier
bind_recurring_nullifier-cases n audience user now db =
    elim (Option-cases (find_nullifier n db.nullifiers)) [
      | inl unused ↦ inr (
        bound_row n audience user ∷ db.nullifiers,
        (
          (
            bound_row n audience user,
            find_nullifier-bound n audience user db.nullifiers,
            refl,
            refl,
          ),
          inr (unused, refl),
        ),
        rw (unused, bind_recurring_nullifier),
      )
      | inr (r, there) ↦
          elim (Bool-cases (bytes_eq r.audience audience && same_user r.user_id user)) [
            | inl fits ↦ inr (
              db.nullifiers,
              (
                (
                  r,
                  there,
                  ground (arith, fits, bytes_eq→eq r.audience audience),
                  ground (arith, fits, same_user-eq r.user_id user),
                ),
                inl refl,
              ),
              rw (there, bind_recurring_nullifier, fits),
            )
            | inr differs ↦ inl (rw (there, bind_recurring_nullifier, differs))
          ]
    ]

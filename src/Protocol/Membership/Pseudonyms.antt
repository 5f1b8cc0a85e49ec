-- ===== src/Protocol/Membership/Pseudonyms.antt =====
-- The account that a recurring nullifier names (zkauthn/protocol.go: resolvePseudonym).
use kal_zk.Base.{
  Bool-cases, bytes_eq, ◌&&◌, if◌then◌else◌, ◌⊎◌, false, ◌∙◌, ℕ, ◌≡◌, refl, ap, sym, Bytes, Option,
  none, some, inl, inr, Option-cases, true,
}
use kal_zk.Error.{kal, invalid_proof, ok, err, no_rows, no_rows_invalid, ok-injective}
use kal_zk.Hash.{Field, field_bytes}
use kal_zk.Store.{Db}
use kal_zk.Store.Exec.{World, query}
use kal_zk.Store.Nullifiers.{find_nullifier, resolve_user, resolve_nullifier, has_account}
use kal_zk.Store.Nullifiers.Accounts.{
  IsBound, resolve_user-IsBound, resolve_user-bound, create_nullifier-bound,
  resolve_user-has_account, resolve_user-created, create_nullifier-Creates,
}
use kal_zk.Challenge.Spending.{at_time}
use kal_zk.Protocol.Interface.{Outside}
use kal_zk.Protocol.Membership.{resolve, create, resolve_pseudonym, pseudonym, created_or_again}
use kal_zk.Tree.Invariant.{solo}

abbrev named : Field → Field → Db → Option Bytes
named nullifier audience db =
    resolve_user (field_bytes nullifier) (field_bytes audience) (pseudonym nullifier) db

module _ (o : Outside) (n audience : Field) where
  resolve-some :
      (w : World) (id : Bytes)
      → named n audience w.db ≡ some id
      → resolve o n audience (solo w) ≡ (ok id, solo w)
  unfolding resolve query resolve_nullifier
  resolve-some w id h = rw h

  resolve-none :
      (w : World)
      → named n audience w.db ≡ none
      → resolve o n audience (solo w) ≡ (err no_rows, solo w)
  unfolding resolve query resolve_nullifier
  resolve-none w h = rw h

  resolve_pseudonym-some :
      (w : World) (id : Bytes)
      → named n audience w.db ≡ some id
      → resolve_pseudonym o n audience (solo w) ≡ (ok id, solo w)
  unfolding resolve_pseudonym
  resolve_pseudonym-some w id h = rw (resolve-some w id h)

  again-named :
      (w : World) {id : Bytes} {w' : World}
      → created_or_again o n audience none (solo w) ≡ (ok id, w')
      → (named n audience w.db ≡ some id) × (w' ≡ solo w)
  unfolding no_rows_invalid
  again-named w {id = id} done = elim (Option-cases (named n audience w.db)) [
    | inl absent ↦ (let clash = ap (λ x. x.0) (rw (resolve-none w absent) at done) in cc)
    | inr (found, there) ↦
        let run = rw (resolve-some w found there) at done in
        let same = ok-injective (ap (λ x. x.0) run) in
        let world = ap (λ x. x.1) run in (rw there (ap some same), sym world)
  ]

  -- An account that was resolved is the one that the tables name, at the end of the run.
  created-named :
      (w : World) {id : Bytes} {w' : World}
      → create o n audience (solo w) ≡ (ok id, w')
      → (named n audience w'.db ≡ some id) × (w' ≡ solo w')
  unfolding create query
  created-named w {id = id} {w' = w'} done =
      elim (create_nullifier-Creates o.fresh_id (pseudonym n) (field_bytes n) (field_bytes audience)
        w.now w.db) [
          | inl (d, absent) ↦
              let run = rw absent at done in
              let (there, world) = again-named (record w { db = d }) run in
              (rw world there, rw world refl)
          | inr made ↦
              let run = rw made at done in
              let same = ok-injective (ap (λ x. x.0) run) in
              let world = ap (λ x. x.1) run in
              rw (← world, ← same)
                (
                  resolve_user-created (field_bytes n) (field_bytes audience) (pseudonym n)
                      (o.fresh_id w.db) w.db,
                  refl,
                )
        ]

  pub resolve_pseudonym-named :
      (w : World) {id : Bytes} {w' : World}
      → resolve_pseudonym o n audience (solo w) ≡ (ok id, w')
      → (named n audience w'.db ≡ some id) × (w' ≡ solo w')
  unfolding resolve_pseudonym
  resolve_pseudonym-named w {id = id} done = elim (Option-cases (named n audience w.db)) [
    | inl absent ↦ created-named w (rw (resolve-none w absent) at done)
    | inr (found, there) ↦
        let run = rw (resolve-some w found there) at done in
        let same = ok-injective (ap (λ x. x.0) run) in
        let world = ap (λ x. x.1) run in rw (← world, there) (ap some same, refl)
  ]

  -- On the tables that a login left, a login of the nullifier for the same audience gets the same
  -- live account again, and creates nothing.
  pub resolve_pseudonym-stable :
      (w : World) {id : Bytes} {w' : World} (later : ℕ)
      → resolve_pseudonym o n audience (solo w) ≡ (ok id, w')
      → (has_account id (pseudonym n) w'.db.users ≡ true)
        × (resolve_pseudonym o n audience (at_time w' later) ≡ (ok id, at_time w' later))
  resolve_pseudonym-stable w {id = id} {w' = w'} later done =
      let (there, alone) = resolve_pseudonym-named w done in
      (
        resolve_user-has_account (field_bytes n) (field_bytes audience) (pseudonym n) w'.db there,
        rw alone (resolve_pseudonym-some (at_time w' later) id there),
      )

  resolve_pseudonym-refused :
      (w : World) (id other : Bytes) (db : Db)
      → IsBound (field_bytes n) other (pseudonym n) id db
      → find_nullifier (field_bytes n) w.db.nullifiers
        ≡ find_nullifier (field_bytes n) db.nullifiers
      → bytes_eq (o.fresh_id w.db) id ≡ false
      → (bytes_eq other (field_bytes audience) && has_account id (pseudonym n) w.db.users) ≡ false
      → (resolve_pseudonym o n audience (solo w)).0 ≡ err (kal invalid_proof)
  unfolding resolve_pseudonym create query no_rows_invalid
  resolve_pseudonym-refused w id other db bound kept new gone =
      let nb = field_bytes n in
      let email = pseudonym n in
      let (d, made, rows, users) =
        create_nullifier-bound o.fresh_id email nb (field_bytes audience) id w.now w.db bound.row
          (kept ∙ bound.there) new in
      let absent : named n audience w.db ≡ none =
        resolve_user-bound nb other (field_bytes audience) email id db w.db bound kept
        ∙ ap (λ b. if b then some id else none) gone in
      let still : named n audience d ≡ none =
        resolve_user-bound nb other (field_bytes audience) email id db d bound
          (ap (find_nullifier nb) rows ∙ kept)
        ∙ ap (λ b. if bytes_eq other (field_bytes audience) && b then some id else none) users
        ∙ ap (λ b. if b then some id else none) gone in
      rw (resolve-none w absent, made, resolve-none (record w { db = d }) still) refl

-- The account that a resolution of a nullifier gave is live and has the e-mail of the nullifier's
-- pseudonym. On any later tables that still have the row of the nullifier, and whose fresh user id
-- is not that of the account, a resolution for any audience gives the same account and writes
-- nothing, if the audience is the same and the account is live with that e-mail, and is
-- INVALID_PROOF otherwise, also when the account was deleted: it never gives another account.
pub resolve_pseudonym-keeps :
    (o : Outside) (n audience other : Field) (w later : World) {id : Bytes} {w' : World}
    → resolve_pseudonym o n audience (solo w) ≡ (ok id, w')
    → find_nullifier (field_bytes n) later.db.nullifiers
      ≡ find_nullifier (field_bytes n) w'.db.nullifiers
    → bytes_eq (o.fresh_id later.db) id ≡ false
    → let same =
        bytes_eq (field_bytes audience) (field_bytes other)
        && has_account id (pseudonym n) later.db.users in
      (has_account id (pseudonym n) w'.db.users ≡ true)
      × (((same ≡ true) × (resolve_pseudonym o n other (solo later) ≡ (ok id, solo later)))
          ⊎ ((same ≡ false)
              × ((resolve_pseudonym o n other (solo later)).0 ≡ err (kal invalid_proof))))
resolve_pseudonym-keeps o n audience other w later {id = id} {w' = w'} done kept new =
    let (there, _) = resolve_pseudonym-named o n audience w done in
    let nb = field_bytes n in
    let bound = resolve_user-IsBound nb (field_bytes audience) (pseudonym n) id w'.db there in
    let found =
      resolve_user-bound nb (field_bytes audience) (field_bytes other) (pseudonym n) id w'.db
        later.db bound kept in
    (
      resolve_user-has_account nb (field_bytes audience) (pseudonym n) w'.db there,
      elim (Bool-cases (
          bytes_eq (field_bytes audience) (field_bytes other)
          && has_account id (pseudonym n) later.db.users)) [
            | inl live ↦ inl (
              live,
              resolve_pseudonym-some o n other later id
                  (found ∙ ap (λ b. if b then some id else none) live),
            )
            | inr gone ↦ inr (
              gone,
              resolve_pseudonym-refused o n other later id (field_bytes audience) w'.db bound kept
                  new gone,
            )
          ],
    )

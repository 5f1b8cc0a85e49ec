-- ===== src/Tree/History/Ousted.antt =====
-- What `RevokeCredentialsForUser` (zkauthn/tree.go) leaves of a user's credentials: none.
use kal_zk.Base.{
  ℕ, ◌≡◌, inl, inr, refl, ap, ◌∙◌, Bool, true, false, ◌&&◌, ◌==◌, ==_iff, if◌then◌else◌, Bool-cases,
  Bytes, List, [], ◌∷◌, none, some, All, arith,
}
use kal_zk.Error.{ok}
use kal_zk.Hash.{Crypto, Lawful}
use kal_zk.Service.{Zk}
use kal_zk.Store.{CredentialRow}
use kal_zk.Store.Exec.{World, pool}
use kal_zk.Store.Credentials.{
  live_commitment, mark_rows, is_live, owned_by, Uuid, owned_indices, live_commitment-mark_rows,
}
use kal_zk.Store.Credentials.Owned.{holds, IsListed, owned_indices-IsListed}
use kal_zk.Tree.{revoke_credentials_for_user}
use kal_zk.Tree.Climb.{IsReady}
use kal_zk.Tree.Invariant.{IsTree, solo}
use kal_zk.Tree.History.{Past, Had, mark_all}
use kal_zk.Tree.History.Cascade.{revoke_credentials_for_user-Ends}
use kal_zk.Tree.History.Reached.{Had-IsKept}

and-false : (b : Bool) → (b && false) ≡ false
and-false true = refl
and-false false = refl

module _ (now : ℕ) (uuid : Uuid) (user : Bytes) where
  -- What marking does to one row.
  abbrev mark_row : ℕ → CredentialRow → CredentialRow
  mark_row i r = if r.leaf_index == i && is_live r then record r { revoked_at = some now } else r

  abbrev mark_each : List ℕ → CredentialRow → CredentialRow
  mark_each [] r = r
  mark_each (i ∷ is) r = mark_each is (mark_row i r)

  mark_all-cons :
      (is : List ℕ) (r : CredentialRow) (rs : List CredentialRow)
      → mark_all now is (r ∷ rs) ≡ mark_each is r ∷ mark_all now is rs
  unfolding mark_rows
  mark_all-cons [] r rs = refl
  mark_all-cons (i ∷ is) r rs = mark_all-cons is (mark_row i r) (mark_rows now i rs)

  mark_all-empty : (is : List ℕ) → mark_all now is [] ≡ []
  unfolding mark_rows
  mark_all-empty [] = refl
  mark_all-empty (i ∷ is) = mark_all-empty is

  mark_row-not_owned :
      (i : ℕ) (r : CredentialRow)
      → owned_by uuid user r ≡ false
      → owned_by uuid user (mark_row i r) ≡ false
  mark_row-not_owned i r h = elim (Bool-cases (r.leaf_index == i && is_live r)) [
    | inl marked ↦ rw marked (and-false _)
    | inr kept ↦ rw kept h
  ]

  mark_row-listed :
      (i : ℕ) (r : CredentialRow)
      → (r.leaf_index == i) ≡ true
      → owned_by uuid user (mark_row i r) ≡ false
  mark_row-listed i r here = elim (Bool-cases (is_live r)) [
    | inl live ↦ rw (here, live) (and-false _)
    | inr gone ↦ ground (arith, here, gone)
  ]

  mark_row-index : (i : ℕ) (r : CredentialRow) → (mark_row i r).leaf_index ≡ r.leaf_index
  mark_row-index i r = elim (Bool-cases (r.leaf_index == i && is_live r)) [
    | inl marked ↦ rw marked refl
    | inr kept ↦ rw kept refl
  ]

  mark_each-not_owned :
      (is : List ℕ) (r : CredentialRow)
      → IsListed uuid user is r
      → owned_by uuid user (mark_each is r) ≡ false
  mark_each-not_owned [] r (inl foreign) = foreign
  mark_each-not_owned [] r (inr listed) = cc
  mark_each-not_owned (i ∷ is) r (inl foreign) =
      mark_each-not_owned is (mark_row i r) (inl (mark_row-not_owned i r foreign))
  mark_each-not_owned (i ∷ is) r (inr listed) =
      mark_each-not_owned is (mark_row i r) (elim (Bool-cases (r.leaf_index == i)) [
        | inl here ↦ inl (mark_row-listed i r here)
        | inr there ↦ inr (ap (λ j. holds j is) (mark_row-index i r) ∙ rw there at listed)
      ])

  mark_all-owned :
      (is : List ℕ) (rows : List CredentialRow)
      → All (IsListed uuid user is) rows
      → owned_indices uuid user (mark_all now is rows) ≡ []
  unfolding owned_indices
  mark_all-owned is [] h = ap (owned_indices uuid user) (mark_all-empty is)
  mark_all-owned is (r ∷ rs) (first, rest) =
      ap (owned_indices uuid user) (mark_all-cons is r rs)
      ∙ rw (mark_each-not_owned is r first) (mark_all-owned is rs rest)

  mark_all-live :
      (is : List ℕ) (rows : List CredentialRow) (j : ℕ)
      → live_commitment j (mark_all now is rows)
        ≡ (if holds j is then none else live_commitment j rows)
  mark_all-live [] rows j = refl
  mark_all-live (i ∷ is) rows j = ground (
    arith,
    mark_all-live is (mark_rows now i rows) j,
    live_commitment-mark_rows now i j rows,
    ==_iff i j,
    ==_iff j i,
  )

-- If RevokeCredentialsForUser succeeds on a tree with a history, alone at work, the user has no
-- live credential left, and the others are as before.
pub revoke_credentials_for_user-ousts :
    (c : Crypto) (laws : Lawful c) (z : Zk) (ready : IsReady c z) (w w' : World) (past : List Past)
    (uuid : Uuid) (user id : Bytes)
    → Had c z w past
    → uuid user ≡ some id
    → revoke_credentials_for_user c z uuid pool user (solo w) ≡ (ok tt, w')
    → IsTree c w'.db
      × (owned_indices uuid id w'.db.credentials ≡ [])
      × ((j : ℕ)
          → live_commitment j w'.db.credentials ≡ (
              if holds j (owned_indices uuid id w.db.credentials)
              then none
              else live_commitment j w.db.credentials))
revoke_credentials_for_user-ousts c laws z ready w w' past uuid user id had known run =
    let kept = Had-IsKept c laws z ready had in
    let (marked, after) =
      (revoke_credentials_for_user-Ends c laws z ready w past uuid user id known kept).value tt w'
        run in
    let is = owned_indices uuid id w.db.credentials in
    (
      after.tree,
      ap (owned_indices uuid id) marked
          ∙ mark_all-owned w.now uuid id is w.db.credentials
              (owned_indices-IsListed uuid id w.db.credentials),
      λ j. ap (live_commitment j) marked ∙ mark_all-live w.now uuid id is w.db.credentials j,
    )

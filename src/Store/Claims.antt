-- ===== src/Store/Claims.antt =====
-- The claim policies and the claims of sessions (zkauthn/sql.go: upsertClaim, claimByName,
-- storeSessionClaim). A policy is keyed by its name.
use kal_zk.Base.{
  ℕ, ◌≡◌, bytes_eq_self, Bool-cases, inl, inr, ◌&&◌, if◌then◌else◌, Bytes, bytes_eq, List, [], ◌∷◌,
  Option, none, some,
}
use kal_zk.Error.{ok, err, no_rows, sql_state}
use kal_zk.Store.{Db, ClaimRow, SessionClaimRow}
use kal_zk.Store.Exec.{Statement}

-- The SQLSTATE with which the table's constraints refuse a policy, if they do.
abbrev pub Refusal : Type 0
Refusal = Db → ClaimRow → Option Bytes

-- On a conflict every other column takes the new value.
unfoldable pub put_claim : ClaimRow → List ClaimRow → List ClaimRow
put_claim row [] = row ∷ []
put_claim row (r ∷ rs) = if bytes_eq r.name row.name then row ∷ rs else r ∷ put_claim row rs

unfoldable pub find_claim : Bytes → List ClaimRow → Option ClaimRow
find_claim name [] = none
find_claim name (r ∷ rs) = if bytes_eq r.name name then some r else find_claim name rs

unfoldable pub upsert_claim : Refusal → ClaimRow → Statement (Unit {0})
upsert_claim refusal row now db = elim (refusal db row) [
  | none ↦ ok (tt, record db { claims = put_claim row db.claims })
  | some state ↦ err (sql_state state)
]

unfoldable pub claim_by_name : Bytes → Statement ClaimRow
claim_by_name name now db = elim (find_claim name db.claims) [
  | none ↦ err no_rows
  | some r ↦ ok (r, db)
]

-- `proven_at`, which the conflict moves, is read nowhere, and is left out of the rows.
unfoldable pub put_session_claim : Bytes → Bytes → List SessionClaimRow → List SessionClaimRow
put_session_claim session claim [] = record { session_id = session; claim = claim } ∷ []
put_session_claim session claim (r ∷ rs) =
    if bytes_eq r.session_id session && bytes_eq r.claim claim
    then r ∷ rs
    else r ∷ put_session_claim session claim rs

unfoldable pub store_session_claim : Bytes → Bytes → Statement (Unit {0})
store_session_claim session claim now db =
    ok (tt, record db { session_claims = put_session_claim session claim db.session_claims })

-- The policy that was put under a name is the one that is found there.
pub find_claim-put_claim :
    (row : ClaimRow) (rows : List ClaimRow) → find_claim row.name (put_claim row rows) ≡ some row
unfolding find_claim put_claim
find_claim-put_claim row [] = rw (bytes_eq_self row.name)
find_claim-put_claim row (r ∷ rs) = elim (Bool-cases (bytes_eq r.name row.name)) [
  | inl same ↦ rw (same, bytes_eq_self row.name)
  | inr other ↦ rw (other, other) (find_claim-put_claim row rs)
]

pub upsert_claim-ok :
    (refusal : Refusal) (row : ClaimRow) (now : ℕ) (db : Db)
    → refusal db row ≡ none
    → upsert_claim refusal row now db ≡ ok (tt, record db { claims = put_claim row db.claims })
unfolding upsert_claim
upsert_claim-ok refusal row now db h = rw (h, upsert_claim)

pub claim_by_name-ok :
    (name : Bytes) (row : ClaimRow) (now : ℕ) (db : Db)
    → find_claim name db.claims ≡ some row
    → claim_by_name name now db ≡ ok (row, db)
unfolding claim_by_name
claim_by_name-ok name row now db h = rw (h, claim_by_name)

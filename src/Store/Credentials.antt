-- ===== src/Store/Credentials.antt =====
-- The issued credentials, and the statements on them (zkauthn/sql.go: nextLeaf, insertCredential,
-- credentialByIndex, credentialsByUser, markRevoked). The key is the leaf index; the constraints
-- of the table are those of kal's migrations, and `Verdict` is the one that refuses a row.
pub mod Owned
use kal_zk.Base.{
  codes, ℕ, ◌+◌, ◌≤◌, ◌≡◌, refl, Bool, true, false, ◌&&◌, ◌==◌, ltb, if◌then◌else◌, Bytes, bytes_eq,
  List, [], ◌∷◌, Option, none, some, arith,
}
use kal_zk.Error.{ok, err, no_rows, sql_state}
use kal_zk.Store.{Db, CredentialRow}
use kal_zk.Store.Exec.{Statement}

-- The SQLSTATE with which the table's constraints refuse a row, if they do.
abbrev pub Verdict : Type 0
Verdict = Db → CredentialRow → Option Bytes

unfoldable pub next_index : List CredentialRow → ℕ
next_index [] = 0
next_index (r ∷ rs) =
    let rest = next_index rs in if ltb r.leaf_index rest then rest else r.leaf_index + 1

unfoldable pub next_leaf : Statement ℕ
next_leaf now db = ok (next_index db.credentials, db)

-- `nullif(?, '')`
abbrev pub null_if_empty : Bytes → Option Bytes
null_if_empty [] = none
null_if_empty (x ∷ xs) = some (x ∷ xs)

unfoldable pub insert_credential : Verdict → ℕ → Bytes → Bytes → Statement (Unit {0})
insert_credential verdict index commitment issued_to now db =
    let row : CredentialRow = record {
      leaf_index = index;
      commitment = commitment;
      issued_to = null_if_empty issued_to;
      revoked_at = none;
    } in
    elim (verdict db row) [
      | none ↦ ok (tt, record db { credentials = row ∷ db.credentials })
      | some state ↦ err (sql_state state)
    ]

unfoldable pub find_credential : ℕ → List CredentialRow → Option CredentialRow
find_credential i [] = none
find_credential i (r ∷ rs) = if r.leaf_index == i then some r else find_credential i rs

abbrev pub is_some {ℓ} : {A : Type ℓ} → Option A → Bool
is_some none = false
is_some (some _) = true

unfoldable pub credential_by_index : ℕ → Statement (Bytes × Bool)
credential_by_index i now db = elim (find_credential i db.credentials) [
  | none ↦ err no_rows
  | some r ↦ ok ((r.commitment, is_some r.revoked_at), db)
]

abbrev pub is_live : CredentialRow → Bool
is_live r = elim r.revoked_at [ none ↦ true | some _ ↦ false ]

-- The commitment of the live row of an index.
unfoldable pub live_commitment : ℕ → List CredentialRow → Option Bytes
live_commitment i [] = none
live_commitment i (r ∷ rs) =
    if r.leaf_index == i && is_live r then some r.commitment else live_commitment i rs

unfoldable pub mark_rows : ℕ → ℕ → List CredentialRow → List CredentialRow
mark_rows now i [] = []
mark_rows now i (r ∷ rs) =
    (if r.leaf_index == i && is_live r then record r { revoked_at = some now } else r)
    ∷ mark_rows now i rs

-- Marks the live row of an index, and returns its commitment.
unfoldable pub mark_revoked : ℕ → Statement Bytes
mark_revoked i now db = elim (live_commitment i db.credentials) [
  | none ↦ err no_rows
  | some raw ↦ ok (raw, record db { credentials = mark_rows now i db.credentials })
]

-- How Postgres reads a text as a uuid: the canonical text, or none where it refuses it.
abbrev pub Uuid : Type 0
Uuid = Bytes → Option Bytes

abbrev pub same_uuid : Option Bytes → Bytes → Bool
same_uuid none id = false
same_uuid (some v) id = bytes_eq v id

-- The live row of a user, who is given by the canonical text.
abbrev pub owned_by : Uuid → Bytes → CredentialRow → Bool
owned_by uuid user r =
    elim r.issued_to [ none ↦ false | some u ↦ same_uuid (uuid u) user ] && is_live r

-- `order by leaf_index`
pub insert_sorted : ℕ → List ℕ → List ℕ
insert_sorted i [] = i ∷ []
insert_sorted i (j ∷ js) = if ltb i j then i ∷ j ∷ js else j ∷ insert_sorted i js

unfoldable pub owned_indices : Uuid → Bytes → List CredentialRow → List ℕ
unfolding insert_sorted
owned_indices uuid user [] = []
owned_indices uuid user (r ∷ rs) =
    let rest = owned_indices uuid user rs in
    if owned_by uuid user r then insert_sorted r.leaf_index rest else rest

-- 22P02, invalid_text_representation
abbrev pub invalid_text : Bytes
invalid_text = codes "22P02"

unfoldable pub credentials_by_user : Uuid → Bytes → Statement (List ℕ)
credentials_by_user uuid user now db = elim (uuid user) [
  | none ↦ err (sql_state invalid_text)
  | some id ↦ ok (owned_indices uuid id db.credentials, db)
]

pub credentials_by_user-known :
    (uuid : Uuid) (user id : Bytes) (now : ℕ) (db : Db)
    → uuid user ≡ some id
    → credentials_by_user uuid user now db ≡ ok (owned_indices uuid id db.credentials, db)
unfolding credentials_by_user
credentials_by_user-known uuid user id now db h = rw (h, credentials_by_user)

pub credentials_by_user-malformed :
    (uuid : Uuid) (user : Bytes) (now : ℕ) (db : Db)
    → uuid user ≡ none
    → credentials_by_user uuid user now db ≡ err (sql_state invalid_text)
unfolding credentials_by_user
credentials_by_user-malformed uuid user now db h = rw (h, credentials_by_user)

-- The next index is past every row.
pub live_commitment-next :
    (i : ℕ) (rows : List CredentialRow) → next_index rows ≤ i → live_commitment i rows ≡ none
unfolding live_commitment next_index
live_commitment-next i [] h = refl
live_commitment-next i (r ∷ rs) h = ground (arith, live_commitment-next i rs)

pub live_commitment-mark_rows :
    (now i j : ℕ) (rows : List CredentialRow)
    → live_commitment j (mark_rows now i rows) ≡ (if i == j then none else live_commitment j rows)
unfolding live_commitment mark_rows
live_commitment-mark_rows now i j [] = ground arith
live_commitment-mark_rows now i j (r ∷ rs) = ground (arith, live_commitment-mark_rows now i j rs)

pub next_index-mark_rows :
    (now i : ℕ) (rows : List CredentialRow) → next_index (mark_rows now i rows) ≡ next_index rows
unfolding next_index mark_rows
next_index-mark_rows now i [] = refl
next_index-mark_rows now i (r ∷ rs) = ground (arith, next_index-mark_rows now i rs)

-- A row that is found and not revoked is the live one.
pub live_commitment_of_find :
    (i : ℕ) (rows : List CredentialRow) (r : CredentialRow)
    → find_credential i rows ≡ some r
    → r.revoked_at ≡ none
    → live_commitment i rows ≡ some r.commitment
unfolding live_commitment find_credential
live_commitment_of_find i [] r e live = cc
live_commitment_of_find i (x ∷ xs) r e live = ground (arith, live_commitment_of_find i xs r)

-- A row that is found after its index was marked is a revoked one.
pub find_credential-mark_rows :
    (now i : ℕ) (rows : List CredentialRow) (r : CredentialRow)
    → find_credential i (mark_rows now i rows) ≡ some r
    → is_some r.revoked_at ≡ true
unfolding mark_rows find_credential
find_credential-mark_rows now i [] r e = cc
find_credential-mark_rows now i (x ∷ xs) r e = ground (arith, find_credential-mark_rows now i xs r)

-- The outcome of the update, by the live row.
pub mark_revoked-live :
    (now i : ℕ) (db : Db) (raw : Bytes)
    → live_commitment i db.credentials ≡ some raw
    → mark_revoked i now db ≡ ok (raw, record db { credentials = mark_rows now i db.credentials })
unfolding mark_revoked
mark_revoked-live now i db raw e = rw (e, mark_revoked)

pub mark_revoked-none :
    (now i : ℕ) (db : Db)
    → live_commitment i db.credentials ≡ none
    → mark_revoked i now db ≡ err no_rows
unfolding mark_revoked
mark_revoked-none now i db e = rw (e, mark_revoked)

-- A row that the constraints accept is stored as it stands.
pub insert_credential-ok :
    (verdict : Verdict) (now i : ℕ) (commitment to : Bytes) (db : Db)
    → verdict db (record {
      leaf_index = i;
      commitment = commitment;
      issued_to = null_if_empty to;
      revoked_at = none;
    })
      ≡ none
    → insert_credential verdict i commitment to now db
      ≡ ok (
        tt,
        record db {
          credentials =
              record {
                leaf_index = i;
                commitment = commitment;
                issued_to = null_if_empty to;
                revoked_at = none;
              }
              ∷ db.credentials;
        },
      )
unfolding insert_credential
insert_credential-ok verdict now i commitment to db e = rw (e, insert_credential)

pub credential_by_index-some :
    (now i : ℕ) (db : Db) (r : CredentialRow)
    → find_credential i db.credentials ≡ some r
    → credential_by_index i now db ≡ ok ((r.commitment, is_some r.revoked_at), db)
unfolding credential_by_index
credential_by_index-some now i db r e = rw (e, credential_by_index)

pub credential_by_index-none :
    (now i : ℕ) (db : Db)
    → find_credential i db.credentials ≡ none
    → credential_by_index i now db ≡ err no_rows
unfolding credential_by_index
credential_by_index-none now i db e = rw (e, credential_by_index)

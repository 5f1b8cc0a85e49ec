-- ===== src/Store/Challenges.antt =====
-- The issued challenges, and the statements on them (zkauthn/sql.go: issueChallenge, peekChallenge,
-- consumeChallenge). The key is the hash of the token. `Refusal` is the SQLSTATE with which the
-- constraints of the table, which another repository declares, refuse a row.
use kal_zk.Base.{
  ℕ, ◌+◌, ◌≡◌, Bool, true, false, ◌&&◌, ltb, if◌then◌else◌, Bytes, bytes_eq, List, [], ◌∷◌, Option,
  none, some,
}
use kal_zk.Error.{ok, err, sql_state, result_bind}
use kal_zk.Store.{Db, ChallengeRow, Purpose, purpose_eq}
use kal_zk.Store.Exec.{Statement}
use kal_zk.Store.Roots.{one}

abbrev pub Refusal : Type 0
Refusal = Db → ChallengeRow → Option Bytes

unfoldable pub drop_expired : ℕ → List ChallengeRow → List ChallengeRow
drop_expired now [] = []
drop_expired now (r ∷ rs) =
    let rest = drop_expired now rs in if ltb r.expires_at now then rest else r ∷ rest

abbrev pub new_challenge : Bytes → Option Bytes → Purpose → Bytes → ℕ → ChallengeRow
new_challenge hash session purpose field expires = record {
  challenge = hash;
  session_id = session;
  purpose = purpose;
  field = field;
  expires_at = expires;
  consumed_at = none;
}

unfoldable pub insert_challenge :
    Refusal → Bytes → Option Bytes → Purpose → Bytes → ℕ → Statement (Unit {0})
insert_challenge refusal hash session purpose field seconds now db =
    elim (refusal db (new_challenge hash session purpose field (now + seconds))) [
      | none ↦ ok (
        tt,
        record db {
          challenges =
              new_challenge hash session purpose field (now + seconds)
              ∷ drop_expired now db.challenges;
        },
      )
      | some state ↦ err (sql_state state)
    ]

-- `is not distinct from`
abbrev pub same_session : Option Bytes → Option Bytes → Bool
same_session none none = true
same_session (some a) (some b) = bytes_eq a b
same_session _ _ = false

abbrev pub is_unset : Option ℕ → Bool
is_unset none = true
is_unset (some t) = false

-- The challenge can still be answered, for this purpose and in this session.
unfoldable pub is_open : ℕ → Bytes → Purpose → Option Bytes → ChallengeRow → Bool
is_open now hash purpose session r =
    bytes_eq r.challenge hash
    && (purpose_eq r.purpose purpose
        && (same_session r.session_id session && (is_unset r.consumed_at && ltb now r.expires_at)))

unfoldable pub open_fields : ℕ → Bytes → Purpose → Option Bytes → List ChallengeRow → List Bytes
open_fields now hash purpose session [] = []
open_fields now hash purpose session (r ∷ rs) =
    let rest = open_fields now hash purpose session rs in
    if is_open now hash purpose session r then r.field ∷ rest else rest

unfoldable pub burn_rows :
    ℕ → Bytes → Purpose → Option Bytes → List ChallengeRow → List ChallengeRow
burn_rows now hash purpose session [] = []
burn_rows now hash purpose session (r ∷ rs) =
    (if is_open now hash purpose session r then record r { consumed_at = some now } else r)
    ∷ burn_rows now hash purpose session rs

unfoldable pub peek_row : Bytes → Purpose → Option Bytes → Statement Bytes
peek_row hash purpose session now db =
    result_bind (one (open_fields now hash purpose session db.challenges)) λ field. ok (field, db)

unfoldable pub consume_row : Bytes → Purpose → Option Bytes → Statement Bytes
consume_row hash purpose session now db =
    result_bind (one (open_fields now hash purpose session db.challenges)) λ field.
      ok (field, record db { challenges = burn_rows now hash purpose session db.challenges })

pub insert_challenge-ok :
    (refusal : Refusal) (hash : Bytes) (session : Option Bytes) (purpose : Purpose) (field : Bytes)
    (seconds now : ℕ) (db : Db)
    → ((row : ChallengeRow) → refusal db row ≡ none)
    → insert_challenge refusal hash session purpose field seconds now db
      ≡ ok (
        tt,
        record db {
          challenges =
              new_challenge hash session purpose field (now + seconds)
              ∷ drop_expired now db.challenges;
        },
      )
unfolding insert_challenge
insert_challenge-ok refusal hash session purpose field seconds now db h =
    rw (h (new_challenge hash session purpose field (now + seconds)), insert_challenge)

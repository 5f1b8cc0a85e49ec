-- ===== src/Challenge/Spending.antt =====
-- Single use of a challenge (zkauthn/protocol.go: peekChallenge, consumeChallenge).
use kal_zk.Base.{ℕ, ◌≤◌, ◌≡◌, refl, Bytes, List, [], ◌∷◌, Option, arith, inl, inr}
use kal_zk.Error.{Result-cases}
use kal_zk.Store.{Purpose, ChallengeRow}
use kal_zk.Store.Exec.{World, query}
use kal_zk.Store.Challenges.{is_open, open_fields, burn_rows, peek_row, consume_row}
use kal_zk.Store.Credentials.{null_if_empty}
use kal_zk.Store.Roots.{one}
use kal_zk.Challenge.{Tokens, challenge_field, peek_challenge, consume_challenge}
use kal_zk.Tree.Invariant.{solo}

-- Burning leaves nothing that is open for the same purpose and session, at any later time.
pub open_fields-burn_rows :
    (now later : ℕ) (hash : Bytes) (purpose : Purpose) (session : Option Bytes)
    (rows : List ChallengeRow)
    → now ≤ later
    → open_fields later hash purpose session (burn_rows now hash purpose session rows) ≡ []
unfolding open_fields burn_rows is_open
open_fields-burn_rows now later hash purpose session [] h = refl
open_fields-burn_rows now later hash purpose session (r ∷ rs) h =
    ground (arith, open_fields-burn_rows now later hash purpose session rs h)

abbrev pub at_time : World → ℕ → World
at_time w later = record w { now = later }

module _ (t : Tokens) where
  -- A reading of a challenge changes nothing, and answers what spending it would answer.
  pub peek-consume :
      (token : Bytes) (purpose : Purpose) (session : Bytes) (w : World)
      → (peek_challenge t token purpose session (solo w)
          ≡ ((consume_challenge t token purpose session (solo w)).0, solo w))
  unfolding peek_challenge consume_challenge query peek_row consume_row
  peek-consume token purpose session w = elim (Result-cases (challenge_field t token)) [
    | inr (e, bad) ↦ rw bad
    | inl ((field, hash), good) ↦
        elim (Result-cases
          (one (open_fields w.now hash purpose (null_if_empty session) w.db.challenges))) [
            | inl (stored, found) ↦ rw (good, found)
            | inr (e, none_found) ↦ rw (good, none_found)
          ]
  ]

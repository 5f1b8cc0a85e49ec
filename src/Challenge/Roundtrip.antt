-- ===== src/Challenge/Roundtrip.antt =====
-- A challenge from its issue to its use (zkauthn/protocol.go: issueChallenge, consumeChallenge).
use kal_zk.Base.{
  ℕ, ◌+◌, ◌<◌, ◌≡◌, refl, false, ◌&&◌, Bytes, bytes_eq, bytes_eq_self, be_value, length, List, [],
  ◌∷◌, Option, none, arith, All, ==_self, lt→ltb, inl, inr, Bool-cases, if◌then◌else◌,
}
use kal_zk.Error.{ok, err, kal, invalid_proof, no_rows_invalid}
use kal_zk.Hash.{field_bytes}
use kal_zk.Hash.Entropy.{draw, entropy_attempts}
use kal_zk.Service.{Zk}
use kal_zk.Store.{Purpose, ChallengeRow, purpose_eq}
use kal_zk.Store.Exec.{World, query}
use kal_zk.Store.Challenges.{
  Refusal, is_open, open_fields, drop_expired, consume_row, same_session, insert_challenge-ok,
  new_challenge,
}
use kal_zk.Store.Credentials.{null_if_empty}
use kal_zk.Store.Roots.{one}
use kal_zk.Challenge.{
  Tokens, LawfulTokens, challenge_field, consume_challenge, issue_challenge, new_challenge_token,
  matching,
}
use kal_zk.Challenge.Spending.{at_time}
use kal_zk.Tree.Invariant.{solo}

-- No row has this key yet.
abbrev pub IsUnused : Bytes → List ChallengeRow → Type 0
IsUnused hash rows = All (λ r. bytes_eq r.challenge hash ≡ false) rows

open_fields-drop_expired :
    (now later : ℕ) (hash : Bytes) (purpose : Purpose) (session : Option Bytes)
    (rows : List ChallengeRow)
    → IsUnused hash rows
    → open_fields later hash purpose session (drop_expired now rows) ≡ []
unfolding open_fields drop_expired is_open
open_fields-drop_expired now later hash purpose session [] h = refl
open_fields-drop_expired now later hash purpose session (r ∷ rs) (h, hs) =
    ground (arith, h, open_fields-drop_expired now later hash purpose session rs hs)

-- What is open beside a new challenge whose key is unused.
open_fields-new :
    (now later expires : ℕ) (hash field : Bytes) (purpose other : Purpose)
    (session another : Option Bytes) (rows : List ChallengeRow)
    → IsUnused hash rows
    → later < expires
    → open_fields later hash other another
        (new_challenge hash session purpose field expires ∷ drop_expired now rows)
      ≡ (if purpose_eq purpose other && same_session session another then field ∷ [] else [])
unfolding open_fields is_open
open_fields-new now later expires hash field purpose other session another rows unused soon =
    rw
      (
        open_fields-drop_expired now later hash other another rows unused,
        bytes_eq_self hash,
        lt→ltb later expires soon,
      )
      ground arith

module _ (t : Tokens) (laws : LawfulTokens t) where
  challenge_field-encode :
      (raw : Bytes)
      → length raw ≡ 31
      → challenge_field t (t.encode raw) ≡ ok (be_value raw, t.sha256 (t.encode raw))
  unfolding challenge_field
  challenge_field-encode raw len =
      rw (laws.length-encode raw, len, ==_self (t.encoded_len 31), laws.decode-encode raw, len) refl

  -- A challenge that was just issued can be spent before it expires, with the purpose and the session that it was issued
  -- for, and gives the field that its token stands for; any other purpose or session is refused.
  pub issue-consume :
      (refusal : Refusal) (z : Zk) (purpose other : Purpose) (session another : Bytes) (w : World)
      (raw : Bytes) (reads : List (Option Bytes)) (later : ℕ)
      → draw entropy_attempts w.entropy ≡ (ok raw, reads)
      → length raw ≡ 31
      → ((row : ChallengeRow) → refusal w.db row ≡ none)
      → IsUnused (t.sha256 (t.encode raw)) w.db.challenges
      → later < w.now + z.challenge_ttl
      → let (answer, issued) = issue_challenge t refusal z purpose session (solo w) in
        (answer ≡ ok (t.encode raw))
        × ((consume_challenge t (t.encode raw) other another (at_time issued later)).0 ≡ (
            if purpose_eq purpose other
              && same_session (null_if_empty session) (null_if_empty another)
            then ok (be_value raw)
            else err (kal invalid_proof)))
  unfolding consume_challenge issue_challenge new_challenge_token query consume_row matching one
      no_rows_invalid
  issue-consume refusal z purpose other session another w raw reads later drawn len accepted unused
        soon =
      let stored =
        insert_challenge-ok refusal (t.sha256 (t.encode raw)) (null_if_empty session) purpose
          (field_bytes (be_value raw)) z.challenge_ttl w.now w.db accepted in
      let shown =
        open_fields-new w.now later (w.now + z.challenge_ttl) (t.sha256 (t.encode raw))
          (field_bytes (be_value raw)) purpose other (null_if_empty session) (null_if_empty another)
          w.db.challenges unused soon in
      elim (Bool-cases (
        purpose_eq purpose other && same_session (null_if_empty session) (null_if_empty another))) [
          | inl same ↦
              rw (drawn, stored, challenge_field-encode raw len)
                (refl, rw (shown, same, bytes_eq_self (field_bytes (be_value raw))))
          | inr differs ↦
              rw (drawn, stored, challenge_field-encode raw len) (refl, rw (shown, differs))
        ]

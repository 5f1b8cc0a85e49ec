-- ===== src/Challenge.antt =====
-- The challenges of zkauthn/hash.go (newChallengeToken, challengeField) and zkauthn/protocol.go
-- (issueChallenge, peekChallenge, consumeChallenge). SHA-256 and the unpadded URL-safe base64 are
-- the record `Tokens`, and what the code relies on is `LawfulTokens`.
pub mod Spending
pub mod Roundtrip
use kal_zk.Base.{
  ℕ, ◌≡◌, Bytes, bytes_eq, be_value, length, ◌==◌, if◌then◌else◌, List, Option, none, some,
}
use kal_zk.Error.{Error, Result, ok, err, kal, invalid_proof, plain, result_bind, no_rows_invalid}
use kal_zk.Hash.{Field, field_bytes, secret_size}
use kal_zk.Hash.Entropy.{draw, entropy_attempts}
use kal_zk.Service.{Zk}
use kal_zk.Store.{Purpose}
use kal_zk.Store.Exec.{Statement, M, World, query, pure, raise, lift, attempt, ◌>>=◌, ◌>>◌}
use kal_zk.Store.Challenges.{Refusal, insert_challenge, peek_row, consume_row}
use kal_zk.Store.Credentials.{null_if_empty}

pub record Tokens : Type 0 where
  pub sha256 : Bytes → Bytes
  pub encode : Bytes → Bytes
  pub decode : Bytes → Option Bytes
  pub encoded_len : ℕ → ℕ

-- The documented behaviour of encoding/base64.
pub record LawfulTokens (t : Tokens) : Type 0 where
  pub decode-encode : (raw : Bytes) → t.decode (t.encode raw) ≡ some raw
  pub length-encode : (raw : Bytes) → length (t.encode raw) ≡ t.encoded_len (length raw)

pub record Challenge : Type 0 where
  pub token : Bytes
  pub field : Field
  pub hash : Bytes

-- An outcome that is invalid for the caller, whatever its cause.
abbrev pub or_invalid {ℓ} : {A : Type ℓ} → Result A → Result A
or_invalid (ok a) = ok a
or_invalid (err e) = err (kal invalid_proof)

-- `noRowsInvalid` on the outcome of a statement.
abbrev pub or_no_rows {ℓ} : {A : Type ℓ} → Result A → Result A
or_no_rows (ok a) = ok a
or_no_rows (err e) = err (no_rows_invalid e)

module _ (t : Tokens) where
  abbrev pub challenge_of : Bytes → Challenge
  challenge_of raw = record {
    token = t.encode raw;
    field = be_value raw;
    hash = t.sha256 (t.encode raw);
  }

  -- The loop over the attempts is the one of `generateSecret`: it ends at the first failed read,
  -- or at bytes that are not all zero.
  unfoldable pub new_challenge_token : M Challenge
  new_challenge_token w =
      let (r, reads) = draw entropy_attempts w.entropy in
      (result_bind r (λ raw. ok (challenge_of raw)), record w { entropy = reads })

  -- The field that a token stands for, and the hash under which it is stored.
  unfoldable pub challenge_field : Bytes → Result (Field × Bytes)
  challenge_field token =
      if length token == t.encoded_len secret_size
      then elim (t.decode token) [
        | none ↦ err (plain "invalid challenge encoding")
        | some raw ↦
            if length raw == secret_size
            then ok (be_value raw, t.sha256 token)
            else err (plain "invalid challenge encoding")
      ]
      else err (plain "invalid challenge encoding")

  unfoldable pub matching : Field → Bytes → Result Field
  matching field stored =
      if bytes_eq stored (field_bytes field) then ok field else err (kal invalid_proof)

  unfoldable pub issue_challenge : Refusal → Zk → Purpose → Bytes → M Bytes
  issue_challenge refusal z purpose session = do
    made ← new_challenge_token
    query (
        insert_challenge refusal made.hash (null_if_empty session) purpose (field_bytes made.field)
          z.challenge_ttl)
    pure made.token

  unfoldable pub peek_challenge : Bytes → Purpose → Bytes → M Field
  peek_challenge token purpose session = do
    (field, hash) ← lift (or_invalid (challenge_field token))
    found ← attempt (query (peek_row hash purpose (null_if_empty session)))
    stored ← lift (or_no_rows found)
    lift (matching field stored)

  unfoldable pub consume_challenge : Bytes → Purpose → Bytes → M Field
  consume_challenge token purpose session = do
    (field, hash) ← lift (or_invalid (challenge_field token))
    found ← attempt (query (consume_row hash purpose (null_if_empty session)))
    stored ← lift (or_no_rows found)
    lift (matching field stored)

-- ===== src/Protocol/Knowledge.antt =====
-- The knowledge factor and the issue of challenges (zkauthn/protocol.go: EnrollKnowledge,
-- authorizeReplacement, VerifyKnowledge, KnowledgeChallenge, LoginChallenge, ClaimChallenge).
pub mod StepUp
pub mod Enrolment
use kal_zk.Base.{
  ℕ, ◌-◌, Bool, false, not, ltb, ◌==◌, if◌then◌else◌, Bytes, [], ◌∷◌, Option, none, some, length,
}
use kal_zk.Error.{
  Result, ok, err, kal, invalid_proof, invalid_credentials, unauthenticated, no_rows,
}
use kal_zk.Hash.{Field, Secret, Crypto, parse_field, field_bytes, knowledge_commitment}
use kal_zk.Hash.Entropy.{generate_secret}
use kal_zk.Service.{Zk}
use kal_zk.Store.{knowledge, login, claiming}
use kal_zk.Store.Exec.{M, Handle, query, pure, raise, lift, attempt, ◌>>=◌, ◌>>◌, with_tx}
use kal_zk.Store.Users.{upsert_commitment, commitment_by_user, password_hash_by_user}
use kal_zk.Store.Challenges.{Refusal}
use kal_zk.Tree.{on_no_rows}
use kal_zk.Challenge.{or_no_rows, issue_challenge, peek_challenge, consume_challenge}
use kal_zk.Protocol.Interface.{Outside, Principal, of_knowledge, KnowledgeRequest}
use kal_zk.Protocol.Checking.{compressed_proof_size, verify, hide}

-- A stored value, or `none` when there is no row.
abbrev pub or_absent {ℓ} : {A : Type ℓ} → Result A → M (Option A)
or_absent (ok a) = pure (some a)
or_absent (err no_rows) = pure none
or_absent (err e) = raise e

-- The second factor was shown within the window.
abbrev pub is_recent : ℕ → ℕ → Option ℕ → Bool
is_recent now window none = false
is_recent now window (some t) = not (ltb window (now - t))

module _ (o : Outside) where
  unfoldable pub knowledge_challenge : Refusal → Zk → Option Principal → M Bytes
  knowledge_challenge refusal z ctx = do
    p ← lift (o.require ctx)
    issue_challenge o.tokens refusal z knowledge p.session_id

  unfoldable pub login_challenge : Refusal → Zk → M Bytes
  login_challenge refusal z = issue_challenge o.tokens refusal z login []

  unfoldable pub claim_challenge : Refusal → Zk → Option Principal → M Bytes
  claim_challenge refusal z ctx = do
    p ← lift (o.require ctx)
    issue_challenge o.tokens refusal z claiming p.session_id

  module _ (c : Crypto) (z : Zk) where
    -- An account without a password is hashed against a dummy, and needs a recent second factor.
    unfoldable pub without_password : Principal → Bytes → M (Unit {0})
    without_password p password = do
      lift (o.verify_dummy_password password)
      (λ w.
          if is_recent w.now z.mfa_window p.mfa_at
          then (ok tt, w)
          else (err (kal invalid_credentials), w))

    unfoldable pub with_password : Bytes → Bytes → M (Unit {0})
    with_password password stored = do
      same ← lift (o.verify_password password stored)
      if same then pure tt else raise (kal invalid_credentials)

    abbrev pub replace_by : Principal → Bytes → Bytes → M (Unit {0})
    replace_by p password [] = without_password p password
    replace_by p password (b ∷ bs) = with_password password (b ∷ bs)

    unfoldable pub authorize_replacement : Principal → Bytes → M (Unit {0})
    authorize_replacement p password = do
      found ← attempt (query (password_hash_by_user p.user_id))
      stored ← on_no_rows found (raise (kal unauthenticated))
      replace_by p password stored

    abbrev pub authorize_if : Option Bytes → Principal → Bytes → M (Unit {0})
    authorize_if none p password = pure tt
    authorize_if (some raw) p password = authorize_replacement p password

    abbrev pub revoke_if : Option Bytes → Bytes → M (Unit {0})
    revoke_if none user = pure tt
    revoke_if (some raw) user = o.revoke_all_for_user user

    unfoldable pub enroll_tx : Option Bytes → Bytes → Field → M (Unit {0})
    enroll_tx existing user commitment = do
      query (upsert_commitment user (field_bytes commitment))
      revoke_if existing user

    unfoldable pub enroll_knowledge : Handle → Option Principal → Bytes → M Secret
    enroll_knowledge handle ctx password = do
      p ← lift (o.require ctx)
      found ← attempt (query (commitment_by_user p.user_id))
      existing ← or_absent found
      authorize_if existing p password
      secret ← generate_secret
      commitment ← lift (knowledge_commitment c secret)
      with_tx handle (enroll_tx existing p.user_id commitment)
      pure secret

    -- Without an enrolment the proof is checked against the dummy commitment.
    abbrev pub commitment_or_dummy : Option Bytes → Result Field
    commitment_or_dummy none = ok z.dummy_commitment
    commitment_or_dummy (some raw) = parse_field c raw

    abbrev pub enrolled : Option Bytes → M (Unit {0})
    enrolled none = raise (kal invalid_proof)
    enrolled (some raw) = pure tt

    unfoldable pub step_up_tx : Principal → Bytes → M Bytes
    step_up_tx p challenge = do
      consume_challenge o.tokens challenge knowledge p.session_id
      recorded ← attempt (o.record_mfa p.session_id p.user_id)
      lift (or_no_rows recorded)
      o.rotate p.session_id

    unfoldable pub verify_knowledge : Handle → Option Principal → KnowledgeRequest → M (Unit {0})
    verify_knowledge handle ctx req = do
      p ← lift (o.require ctx)
      if not (length req.proof == compressed_proof_size) then raise (kal invalid_proof) else do
        challenge ← peek_challenge o.tokens req.challenge knowledge p.session_id
        found ← attempt (query (commitment_by_user p.user_id))
        raw ← or_absent found
        commitment ← lift (commitment_or_dummy raw)
        outcome ← attempt (verify o z.knowledge req.proof (of_knowledge commitment challenge))
        lift (hide outcome)
        enrolled raw
        rotated ← with_tx handle (step_up_tx p req.challenge)
        lift (o.set_cookie z.cookie_name rotated)

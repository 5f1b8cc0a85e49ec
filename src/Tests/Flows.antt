-- ===== src/Tests/Flows.antt =====
-- The theorems on whole requests, on tables where each of them succeeds.
use kal_zk.Base.{
  ◌≡◌, ◌≢◌, refl, sym, ◌∙◌, Bytes, [], ◌∷◌, none, some, true, false, arith, be_value, replicate,
}
use kal_zk.Error.{ok, err, kal, unauthenticated, rate_limited}
use kal_zk.Hash.{field_bytes}
use kal_zk.Store.{Db, knowledge, login, claiming, recurring, one_shot, ClaimRow}
use kal_zk.Store.Exec.{World, pool}
use kal_zk.Store.Challenges.{new_challenge}
use kal_zk.Challenge.Spending.{at_time}
use kal_zk.Protocol.Interface.{Outside, Principal, MembershipRequest, KnowledgeRequest}
use kal_zk.Protocol.Membership.{prove_claim, login_by_proof}
use kal_zk.Protocol.Knowledge.{verify_knowledge, enroll_knowledge}
use kal_zk.Tree.Invariant.{solo, settled}
use kal_zk.Hash.Encoding.{parse_field-field_bytes}
use kal_zk.Protocol.Membership.Claiming.{Claimed, prove_claim-Claimed}
use kal_zk.Protocol.Membership.Rollback.{prove_claim-rollback}
use kal_zk.Protocol.Membership.Once.{prove_claim-once, prove_claim-no_replay}
use kal_zk.Protocol.Knowledge.StepUp.{SteppedUp, verify_knowledge-SteppedUp}
use kal_zk.Protocol.Knowledge.Enrolment.{MayEnroll, enroll_knowledge-MayEnroll}
use kal_zk.Protocol.Running.{IsShaped}
use kal_zk.Protocol.Overload.{verify_membership_request-overloaded}
use kal_zk.Tests.Toy.{start, toy, toy-Lawful, toy_zk, first_secret}
use kal_zk.Tests.Protocol.{toy_outside, no_holder, member}
use kal_zk.Protocol.Checking.{verify_membership_request}
use kal_zk.Protocol.Checking.{valid_claim_name}
use kal_zk.Protocol.Checking.{has_comparison}
use kal_zk.Hash.{parse_field}
use kal_zk.Base.{to_be}
use kal_zk.Protocol.Checking.{claim_or_dummy}
use kal_zk.Protocol.Checking.{read_claim}
use kal_zk.Store.Exec.{query}
use kal_zk.Store.Claims.{claim_by_name}
use kal_zk.Store.Claims.{find_claim}
use kal_zk.Base.{bytes_eq}
use kal_zk.Tree.{root_accepted}
use kal_zk.Store.Roots.{root_accepted_row}
use kal_zk.Challenge.{peek_challenge}
use kal_zk.Challenge.{challenge_field}
use kal_zk.Store.Challenges.{peek_row}
use kal_zk.Store.Roots.{one}
use kal_zk.Store.Challenges.{open_fields}
use kal_zk.Store.Challenges.{is_open}
use kal_zk.Challenge.{matching}
use kal_zk.Store.Users.{commitment_by_user}
use kal_zk.Store.Users.{find_commitment}
use kal_zk.Protocol.Knowledge.{authorize_replacement}
use kal_zk.Store.Users.{password_hash_by_user}
use kal_zk.Store.Users.{find_password}
use kal_zk.Protocol.Knowledge.{with_password}
use kal_zk.Hash.Entropy.{generate_secret}
use kal_zk.Hash.Entropy.{draw}
use kal_zk.Hash.Entropy.{all_zero}
use kal_zk.Hash.{knowledge_commitment}
use kal_zk.Hash.{hash_with_domain}
use kal_zk.Hash.{native_hash}
use kal_zk.Hash.{writes_ok}
use kal_zk.Protocol.Checking.{accepted_or_dummy}
use kal_zk.Store.Roots.{any_accepted}
use kal_zk.Protocol.Checking.{verify}
use kal_zk.Protocol.Checking.{check_proof}
use kal_zk.Store.Exec.{with_tx}
use kal_zk.Protocol.Membership.{claim_tx}
use kal_zk.Challenge.{consume_challenge}
use kal_zk.Store.Challenges.{consume_row}
use kal_zk.Protocol.Membership.{spend}
use kal_zk.Protocol.Knowledge.{step_up_tx}
use kal_zk.Hash.{element_bytes}
use kal_zk.Hash.{domain_knowledge}
use kal_zk.Hash.{secret_field}
use kal_zk.Protocol.Knowledge.{enroll_tx}
use kal_zk.Store.Users.{upsert_commitment}
use kal_zk.Store.Nullifiers.{one_shot_nullifier}
use kal_zk.Store.Nullifiers.{find_nullifier}

abbrev token : Bytes
token = first_secret

abbrev one_time : Bytes
one_time = 97 ∷ []

abbrev always : Bytes
always = 98 ∷ []

abbrev policy : ClaimRow
policy = record {
  name = one_time;
  audience = field_bytes 5;
  threshold = 18;
  kind = one_shot;
  allows_login = false;
}

-- Two policies, one root, a challenge of each purpose, and an enrolled member with a password.
abbrev tables : Db
tables = record start.db {
  claims = policy ∷ record policy { name = always; kind = recurring; allows_login = true } ∷ [];
  roots = record { root = field_bytes 3; retired_at = none } ∷ [];
  challenges =
      new_challenge token (some member.session_id) claiming (field_bytes (be_value token)) 160
      ∷ new_challenge token none login (field_bytes (be_value token)) 160
      ∷ new_challenge token (some member.session_id) knowledge (field_bytes (be_value token)) 160
      ∷ [];
  commitments = record { user_id = member.user_id; commitment = field_bytes 77 } ∷ [];
  users =
      record {
        id = member.user_id;
        email = 109 ∷ [];
        password_hash = some (1 ∷ []);
        email_verified = true;
        deleted_at = none;
      }
      ∷ [];
}

abbrev ready : World
ready = record start { db = tables; base = tables }

abbrev asks : Bytes → MembershipRequest
asks claim = record {
  proof = replicate 164 0;
  root = field_bytes 3;
  nullifier = field_bytes 9;
  challenge = token;
  claim = claim;
}

abbrev claimed : World
claimed = (prove_claim toy_outside toy toy_zk pool (some member) (asks one_time) (solo ready)).1

claim_run :
    prove_claim toy_outside toy toy_zk pool (some member) (asks one_time) (solo ready)
    ≡ (ok tt, claimed)
unfolding prove_claim verify_membership_request valid_claim_name has_comparison parse_field
    field_bytes to_be be_value claim_or_dummy read_claim query claim_by_name find_claim bytes_eq
    root_accepted root_accepted_row accepted_or_dummy any_accepted peek_challenge challenge_field
    peek_row one open_fields is_open matching verify check_proof with_tx claim_tx consume_challenge
    consume_row spend one_shot_nullifier find_nullifier
claim_run = refl

abbrev undone : World
undone = (prove_claim no_holder toy toy_zk pool (some member) (asks one_time) (solo ready)).1

undone_run :
    prove_claim no_holder toy toy_zk pool (some member) (asks one_time) (solo ready)
    ≡ (err (kal unauthenticated), undone)
unfolding prove_claim verify_membership_request valid_claim_name has_comparison parse_field
    field_bytes to_be be_value claim_or_dummy read_claim query claim_by_name find_claim bytes_eq
    root_accepted root_accepted_row accepted_or_dummy any_accepted peek_challenge challenge_field
    peek_row one open_fields is_open matching verify check_proof with_tx claim_tx consume_challenge
    consume_row spend one_shot_nullifier find_nullifier
undone_run = refl

abbrev entered : World
entered = (login_by_proof toy_outside toy toy_zk pool none (asks always) (solo ready)).1

abbrev step_up : KnowledgeRequest
step_up = record { proof = replicate 164 0; challenge = token }

abbrev stepped : World
stepped = (verify_knowledge toy_outside toy toy_zk pool (some member) step_up (solo ready)).1

step_up_run :
    verify_knowledge toy_outside toy toy_zk pool (some member) step_up (solo ready)
    ≡ (ok tt, stepped)
unfolding verify_knowledge peek_challenge challenge_field query peek_row one open_fields is_open
    bytes_eq matching field_bytes to_be be_value commitment_by_user find_commitment parse_field
    verify check_proof with_tx step_up_tx consume_challenge consume_row
step_up_run = refl

abbrev enrolled : World
enrolled = (enroll_knowledge toy_outside toy toy_zk pool (some member) [] (solo ready)).1

enroll_run :
    enroll_knowledge toy_outside toy toy_zk pool (some member) [] (solo ready)
    ≡ (ok first_secret, enrolled)
unfolding enroll_knowledge query commitment_by_user find_commitment bytes_eq authorize_replacement
    password_hash_by_user find_password with_password generate_secret draw all_zero
    knowledge_commitment hash_with_domain native_hash writes_ok element_bytes domain_knowledge
    be_value secret_field with_tx enroll_tx upsert_commitment
enroll_run = refl

prove_claim-Claimed_example :
    (d : Db) × (claimed ≡ settled ready d)
    × Claimed toy_outside toy toy_zk ready (some member) (asks one_time) d
prove_claim-Claimed_example =
    prove_claim-Claimed toy_outside toy toy_zk (some member) (asks one_time) ready claimed claim_run

prove_claim-rollback_example : undone.db ≡ tables
prove_claim-rollback_example =
    prove_claim-rollback no_holder toy toy_zk (some member) (asks one_time) ready undone
      (kal unauthenticated) undone_run

found_policy : find_claim one_time tables.claims ≡ some policy
unfolding find_claim bytes_eq
found_policy = refl

prove_claim-once_example :
    (prove_claim toy_outside toy toy_zk pool (some member) (asks always) (at_time claimed 150)).0
    ≢ ok tt
prove_claim-once_example =
    prove_claim-once toy_outside toy toy_zk (some member) (some member) (asks one_time)
      (asks always) ready claimed policy 150 claim_run found_policy refl refl

prove_claim-no_replay_example :
    (prove_claim toy_outside toy toy_zk pool (some member) (asks one_time) (at_time claimed 150)).0
    ≢ ok tt
prove_claim-no_replay_example =
    prove_claim-no_replay toy_outside toy toy_zk (some member) (asks one_time) ready claimed 150
      claim_run (omega arith)

verify_knowledge-SteppedUp_example :
    (p : Principal) × (toy_outside.require (some member) ≡ ok p)
    × SteppedUp toy_outside toy toy_zk ready p step_up
verify_knowledge-SteppedUp_example =
    verify_knowledge-SteppedUp toy_outside toy toy_zk (some member) step_up ready stepped
      step_up_run

enroll_knowledge-MayEnroll_example :
    (p : Principal) × (toy_outside.require (some member) ≡ ok p)
    × MayEnroll toy_outside toy toy_zk ready p []
enroll_knowledge-MayEnroll_example =
    enroll_knowledge-MayEnroll toy_outside toy toy_zk (some member) [] ready enrolled first_secret
      enroll_run

-- A service without a free slot, and a request for a policy that it does not have.
abbrev crowded : Outside
crowded = record toy_outside { admits = λ w. false }

shaped : (claim : Bytes) → valid_claim_name crowded claim ≡ true → IsShaped crowded toy (asks claim)
shaped claim named = record {
  root = 3;
  nullifier = 9;
  sized = refl;
  named = named;
  root_read = parse_field-field_bytes toy toy-Lawful 3 (omega arith);
  nullifier_read = parse_field-field_bytes toy toy-Lawful 9 (omega arith);
}

named_other : valid_claim_name crowded (99 ∷ []) ≡ true
unfolding valid_claim_name has_comparison
named_other = refl

unknown_here : find_claim (99 ∷ []) tables.claims ≡ none
unfolding find_claim bytes_eq
unknown_here = refl

verify_membership_request-overloaded_example :
    (verify_membership_request crowded toy toy_zk
      (asks (99 ∷ []))
      claiming
      member.session_id
      (solo ready)).0
    ≡ err (kal rate_limited)
unfolding find_claim bytes_eq
verify_membership_request-overloaded_example =
    verify_membership_request-overloaded crowded toy toy_zk ready refl (asks (99 ∷ [])) claiming
      member.session_id (shaped (99 ∷ []) named_other)
      λ row there. (let clash = sym unknown_here ∙ there in cc)

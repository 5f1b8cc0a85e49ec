-- ===== src/Tests/Protocol.antt =====
-- The theorems on claims and logins, on tables where nothing has happened yet.
use kal_zk.Base.{length, bytes_eq, map, ◌&&◌, ◌+◌, false, ◌⊎◌}
use kal_zk.Error.{invalid_proof}
use kal_zk.Store.{UserRow}
use kal_zk.Base.{◌≡◌, refl, [], ◌∷◌, none, some, true, arith, be_value, bytes_eq, to_be}
use kal_zk.Error.{ok, err, kal, unauthenticated}
use kal_zk.Hash.{field_bytes}
use kal_zk.Store.{one_shot, claiming}
use kal_zk.Store.Exec.{World, query, pure, pool, with_tx}
use kal_zk.Store.Roots.{one}
use kal_zk.Store.Challenges.{new_challenge, consume_row, open_fields, is_open, burn_rows}
use kal_zk.Challenge.{consume_challenge, challenge_field, matching}
use kal_zk.Store.Nullifiers.{
  has_account, one_shot_nullifier, find_nullifier, resolve_nullifier, resolve_user,
  create_nullifier, email_taken,
}
use kal_zk.Challenge.Spending.{at_time}
use kal_zk.Protocol.Checking.{ensure_claim, read_claim, valid_claim_name, has_comparison}
use kal_zk.Protocol.Policies.{ensure-read}
use kal_zk.Protocol.Interface.{Outside, Principal, Claim, MembershipRequest}
use kal_zk.Protocol.Membership.{spend, claim_tx, resolve, create, resolve_pseudonym, pseudonym}
use kal_zk.Protocol.Membership.Pseudonyms.{resolve_pseudonym-keeps}
use kal_zk.Tree.Invariant.{solo}
use kal_zk.Tests.Toy.{start, toy, toy-Lawful, toy_zk, first_secret}
use kal_zk.Tests.Challenges.{toy_tokens}

abbrev pub member : Principal
member = record { user_id = 1 ∷ []; session_id = 7 ∷ []; mfa_at = none }

abbrev pub toy_outside : Outside
toy_outside = record {
  tokens = toy_tokens;
  require = λ ctx. elim ctx [ none ↦ err (kal unauthenticated) | some p ↦ ok p ];
  record_mfa = λ session user. pure tt;
  rotate = λ session. pure session;
  revoke = λ session. pure tt;
  issue = λ user. pure user;
  lookup = λ token. pure (some member);
  revoke_all_for_user = λ user. pure tt;
  verify_password = λ given stored. ok true;
  verify_dummy_password = λ given. ok tt;
  set_cookie = λ name token. ok tt;
  proof_sink = λ claim. ok tt;
  admits = λ w. true;
  reads_proof = λ raw. true;
  builds_witness = λ public. true;
  accepts = λ key raw public. true;
  valid_utf8 = λ name. true;
  fresh_id = λ db. 42 ∷ [];
}

abbrev allowance : Claim
allowance = record {
  name = 97 ∷ [];
  audience = 5;
  threshold = 18;
  kind = one_shot;
  allows_login = true;
}

admitted_name : valid_claim_name toy_outside allowance.name ≡ true
unfolding valid_claim_name has_comparison
admitted_name = refl

ensure-read_example :
    let (stored, after) =
      ensure_claim toy_outside toy toy_zk (λ db row. none) allowance (solo start) in
    (stored ≡ ok tt)
    × (read_claim toy_outside toy toy_zk allowance.name (at_time after 200)
        ≡ (ok allowance, at_time after 200))
ensure-read_example =
    ensure-read toy_outside toy toy-Lawful toy_zk (λ db row. none) allowance start 200 admitted_name
      refl (omega arith) (omega arith) refl

abbrev burned : World
burned = (spend toy_outside one_shot member allowance 9 (solo start)).1

first_use : spend toy_outside one_shot member allowance 9 (solo start) ≡ (ok tt, burned)
unfolding spend query one_shot_nullifier find_nullifier
first_use = refl

abbrev logged_in : World
logged_in = (resolve_pseudonym toy_outside 9 5 (solo start)).1

first_login : resolve_pseudonym toy_outside 9 5 (solo start) ≡ (ok (42 ∷ []), logged_in)
unfolding resolve_pseudonym resolve create query resolve_nullifier resolve_user create_nullifier
    find_nullifier email_taken
first_login = refl

-- A database that numbers its users.
abbrev numbering : Outside
numbering = record toy_outside { fresh_id = λ db. (42 + length db.users) ∷ [] }

abbrev first_account : World
first_account = (resolve_pseudonym numbering 9 5 (solo start)).1

made_account : resolve_pseudonym numbering 9 5 (solo start) ≡ (ok (42 ∷ []), first_account)
unfolding resolve_pseudonym resolve create query resolve_nullifier resolve_user create_nullifier
    find_nullifier email_taken
made_account = refl

-- Later the account is deleted.
abbrev without_account : World
without_account = record (at_time first_account 200) {
  db = record first_account.db {
    users = map (λ (u : UserRow). record u { deleted_at = some 150 }) first_account.db.users;
  };
}

still_new : bytes_eq (numbering.fresh_id without_account.db) (42 ∷ []) ≡ false
unfolding resolve_pseudonym resolve create query resolve_nullifier resolve_user create_nullifier
    find_nullifier email_taken bytes_eq
still_new = refl

resolve_pseudonym-keeps_example :
    let same =
      bytes_eq (field_bytes 5) (field_bytes 5)
      && has_account (42 ∷ []) (pseudonym 9) without_account.db.users in
    (has_account (42 ∷ []) (pseudonym 9) first_account.db.users ≡ true)
    × (((same ≡ true)
          × (resolve_pseudonym numbering 9 5 (solo without_account)
              ≡ (ok (42 ∷ []), solo without_account)))
        ⊎ ((same ≡ false)
            × ((resolve_pseudonym numbering 9 5 (solo without_account)).0
                ≡ err (kal invalid_proof))))
resolve_pseudonym-keeps_example =
    resolve_pseudonym-keeps numbering 9 5 5 start without_account made_account refl still_new

-- A service whose sink refuses, and a challenge that is open for a claim.
abbrev pub no_holder : Outside
no_holder = record toy_outside { proof_sink = λ claim. err (kal unauthenticated) }

abbrev request : MembershipRequest
request = record {
  proof = [];
  root = [];
  nullifier = [];
  challenge = first_secret;
  claim = 97 ∷ [];
}

abbrev asked : World
asked = record start {
  db = record start.db {
    challenges =
        new_challenge first_secret (some member.session_id) claiming
          (field_bytes (be_value first_secret)) 160
        ∷ [];
  };
}

abbrev undone : World
undone = (with_tx pool (claim_tx no_holder member request allowance 9) (solo asked)).1

sink_refused :
    with_tx pool (claim_tx no_holder member request allowance 9) (solo asked)
    ≡ (err (kal unauthenticated), undone)
unfolding with_tx claim_tx consume_challenge challenge_field consume_row open_fields is_open
    burn_rows one matching spend query one_shot_nullifier find_nullifier bytes_eq field_bytes to_be
    be_value
sink_refused = refl

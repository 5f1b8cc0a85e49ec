-- ===== src/Tests/Served.antt =====
-- A member who is served, from a fetched path to a proven claim.
use kal_zk.Base.{
  ◌≡◌, refl, Bytes, [], ◌∷◌, none, some, true, false, inl, arith, be_value, to_be, bytes_eq,
}
use kal_zk.Error.{ok}
use kal_zk.Hash.{field_bytes}
use kal_zk.Hash.Encoding.{parse_field-field_bytes}
use kal_zk.Hash.Commitments.{pseudonym}
use kal_zk.Service.{circuit_membership}
use kal_zk.Store.{Db, ClaimRow, one_shot, claiming}
use kal_zk.Store.Exec.{World, pool, query}
use kal_zk.Store.Challenges.{new_challenge, peek_row, open_fields, is_open}
use kal_zk.Store.Claims.{find_claim}
use kal_zk.Store.Roots.{current_roots, one}
use kal_zk.Store.Nullifiers.{find_nullifier}
use kal_zk.Store.Credentials.{next_index}
use kal_zk.Tree.{MerklePath, fetch_path}
use kal_zk.Tree.Shape.{tree_root}
use kal_zk.Tree.Issue.{issued}
use kal_zk.Tree.Invariant.{IsTree, live_leaves, solo}
use kal_zk.Challenge.{challenge_field, peek_challenge, matching}
use kal_zk.Proof.{membership_witness_for}
use kal_zk.Protocol.Checking.{valid_claim_name, has_comparison}
use kal_zk.Protocol.Membership.{prove_claim}
use kal_zk.Protocol.Membership.Served.{fetch_path-prove_claim}
use kal_zk.Proving.{prove_membership}
use kal_zk.Tests.Toy.{keyed, toy, toy-Lawful, toy_zk-IsReady, first_secret, first_secret-IsSecret}
use kal_zk.Tests.Trees.{one_issued, one_issued-IsTree, later, first_row, found_first, first_fits}
use kal_zk.Tests.Protocol.{toy_outside, member}
use kal_zk.Tests.Proofs.{
  toy_gadgets, toy_gadgets-LawfulGadgets, toy_system, toy_groth16, toy_prover,
  toy_prover-CompleteGroth16,
}

abbrev pub token : Bytes
token = first_secret

abbrev pub adult : ClaimRow
adult = record {
  name = 97 ∷ [];
  audience = field_bytes 5;
  threshold = 16;
  kind = one_shot;
  allows_login = false;
}

-- The tree with one credential, its root, a policy and an open challenge.
abbrev pub open_db : Db
open_db = record one_issued {
  roots =
      record {
        root = field_bytes (tree_root toy (live_leaves one_issued.credentials));
        retired_at = none;
      }
      ∷ [];
  claims = adult ∷ [];
  nullifiers = [];
  challenges =
      new_challenge token (some member.session_id) claiming (field_bytes (be_value token)) 160 ∷ [];
}

abbrev pub open_world : World
open_world = record later { db = open_db; base = open_db }

open_db-IsTree : IsTree toy open_db
unfolding current_roots
open_db-IsTree = record {
  nodes = one_issued-IsTree.nodes;
  root = inl refl;
  canonical = one_issued-IsTree.canonical;
  bounded = one_issued-IsTree.bounded;
}

pub adult_name : valid_claim_name toy_outside adult.name ≡ true
unfolding valid_claim_name has_comparison
adult_name = refl

pub adult_there : find_claim adult.name open_db.claims ≡ some adult
unfolding find_claim bytes_eq
adult_there = refl

pub open_challenge :
    peek_challenge toy_outside.tokens token claiming member.session_id (solo open_world)
    ≡ (ok (be_value token), solo open_world)
unfolding peek_challenge challenge_field query peek_row one open_fields is_open bytes_eq matching
    field_bytes to_be be_value
open_challenge = refl

pub one_root :
    current_roots open_db.roots
    ≡ field_bytes (tree_root toy (live_leaves one_issued.credentials)) ∷ []
unfolding current_roots
one_root = refl

fetch_path-prove_claim_example :
    let nullifier = pseudonym toy first_secret 5 in
    (path : MerklePath) × (raw : Bytes) × ((fetch_path toy keyed pool 0 (solo open_world)).0
      ≡ ok path)
    × (prove_membership toy_prover
          (some (record { circuit = circuit_membership; ccs = toy_system; key = 4 ∷ [] }))
          (membership_witness_for
            (issued toy [] first_secret 18)
            path
            5
            16
            nullifier
            (be_value token))
        ≡ ok raw)
    × ((prove_claim toy_outside toy keyed pool
          (some member)
          (record {
            proof = raw;
            root = field_bytes path.root;
            nullifier = field_bytes nullifier;
            challenge = token;
            claim = 97 ∷ [];
          })
          (solo open_world)).0
        ≡ ok tt)
unfolding next_index find_nullifier
fetch_path-prove_claim_example =
    fetch_path-prove_claim toy toy-Lawful toy_gadgets toy_gadgets-LawfulGadgets toy_groth16
      toy_prover toy_outside toy_prover-CompleteGroth16 keyed toy_zk-IsReady open_world
      open_db-IsTree (issued toy [] first_secret 18) first_row toy_system (4 ∷ []) (8 ∷ [])
      (some member) member adult (97 ∷ []) token 5 (be_value token) first_secret-IsSecret
      (omega arith) (omega arith) found_first refl first_fits one_root refl refl refl adult_name
      adult_there (parse_field-field_bytes toy toy-Lawful 5 (omega arith)) (omega arith)
      (omega arith) refl refl open_challenge refl refl refl

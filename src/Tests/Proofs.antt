-- ===== src/Tests/Proofs.antt =====
-- The theorems on circuits, keys and proofs, with a small stand-in for gnark.
use kal_zk.Base.{
  ◌^◌, ◌≡◌, refl, Bytes, List, [], ◌∷◌, ◌++◌, length, some, Bool, true, false, ◌&&◌, ltb, leb, ◌==◌,
  replicate, arith, bytes_eq, ==_self,
}
use kal_zk.Error.{Result, ok}
use kal_zk.Hash.{Field}
use kal_zk.Hash.Commitments.{leaf_commitment, knowledge_hash, pseudonym, knowledge_commitment-ok}
use kal_zk.Service.{circuit_knowledge, circuit_membership, VerifyingKey}
use kal_zk.Store.Exec.{pool}
use kal_zk.Store.Credentials.{next_index}
use kal_zk.Tree.{MerklePath, fetch_path}
use kal_zk.Tree.Issue.{issued}
use kal_zk.Tree.Fetch.{tree_path}
use kal_zk.Tree.Invariant.{solo}
use kal_zk.Proof.{KnowledgeWitness, MembershipWitness, membership_witness_for, knowledge_valid}
use kal_zk.Circuit.{Gadgets, LawfulGadgets, path_root}
use kal_zk.Keys.{
  ConstraintSystem, Groth16, hex_encode, pin, sha256_size, compile_circuit, check_circuit_pin,
  check_pin, pinned_circuit, load_verifying_key, load_proving_key, setup_into, write_keys,
  membership_constraints,
}
use kal_zk.Keys.Pins.{IsPinned, load_verifying_key-IsPinned}
use kal_zk.Keys.Ceremony.{LawfulKeys, setup_into-load}
use kal_zk.Proving.{
  Prover, prove_knowledge, prove_membership, verify_knowledge_proof, verify_membership_proof,
}
use kal_zk.Proving.Complete.{CompleteGroth16, prove_knowledge-verify}
use kal_zk.Proving.Members.{fetch_path-verify}
use kal_zk.Tests.Toy.{toy, toy-Lawful, toy_zk, toy_zk-IsReady, first_secret, first_secret-IsSecret}
use kal_zk.Tests.Trees.{one_issued, one_issued-IsTree, later, first_row, found_first, first_fits}
use kal_zk.Tests.Protocol.{toy_outside}

abbrev pub toy_on_path : Field → List Field → Field → Bool
toy_on_path root [] index = false
toy_on_path root (leaf ∷ ss) index =
    ltb index (2 ^ length ss) && path_root toy.mimc_sum index (toy.mimc_sum (leaf ∷ [])) ss == root

abbrev pub toy_gadgets : Gadgets
toy_gadgets = record {
  mimc = toy.mimc_sum;
  fits = λ v n. ltb v (2 ^ n);
  on_path = toy_on_path;
  bounded_le = λ bound a b. leb a b;
}

pub toy_gadgets-LawfulGadgets : LawfulGadgets toy toy_gadgets
toy_gadgets-LawfulGadgets = record {
  mimc_lem = λ xs. refl;
  fits-ltb = λ v n. refl;
  on_path_lem = λ root leaf index siblings. refl;
  bounded_le-leb = λ bound a b h k. refl;
}

abbrev known : KnowledgeWitness
known = record {
  secret = first_secret;
  commitment = knowledge_hash toy first_secret;
  challenge = 77;
}

abbrev shown : MembershipWitness
shown =
    membership_witness_for (issued toy [] first_secret 18)
      (tree_path toy one_issued.credentials 0 (leaf_commitment toy first_secret 18)) 5 16
      (pseudonym toy first_secret 5) 77

-- The pinned membership circuit: its sum is the pinned identity.
abbrev pub toy_system : ConstraintSystem
toy_system = record { constraints = membership_constraints; written = ok (1 ∷ []) }

abbrev pub toy_sum : Bytes
toy_sum =
    99 ∷ 12 ∷ 193 ∷ 61 ∷ 43 ∷ 200 ∷ 250 ∷ 49 ∷ 59 ∷ 148 ∷ 206 ∷ 173 ∷ 63 ∷ 14 ∷ 69 ∷ 103 ∷ 76 ∷ 155
    ∷ 192 ∷ 218 ∷ 186 ∷ 40 ∷ 178 ∷ 106 ∷ 79 ∷ 224 ∷ 175 ∷ 175 ∷ 187 ∷ 158 ∷ 74 ∷ 80 ∷ []

abbrev small_key : VerifyingKey
small_key = record { circuit = circuit_membership; key = some (8 ∷ []) }

abbrev pub toy_groth16 : Groth16
toy_groth16 = record {
  compile_knowledge = ok toy_system;
  compile_membership = ok toy_system;
  setup = λ ccs. ok (4 ∷ [], 8 ∷ []);
  reads_proving_key = λ raw. true;
  reads_verifying_key = λ raw. true;
  sha256 = λ raw. toy_sum;
}

toy_groth16-LawfulKeys : LawfulKeys toy_groth16
toy_groth16-LawfulKeys = record {
  reads_back = λ ccs pk vk e. (refl, refl);
  length-sha256 = λ raw. refl;
}

-- A writer that holds what was written, as `bytes.Buffer` does.
abbrev append : Bytes → Bytes → Result (Unit {0}) × Bytes
append b w = (ok tt, w ++ b)

append_lem : (b w w2 : Bytes) → append b w ≡ (ok tt, w2) → w2 ≡ w ++ b
append_lem b w w2 e = cc

ceremony : setup_into toy_groth16 Bytes append circuit_membership [] [] ≡ (ok tt, (4 ∷ [], 8 ∷ []))
unfolding setup_into write_keys pinned_circuit compile_circuit check_circuit_pin check_pin pin
    hex_encode bytes_eq
ceremony = refl

setup_into-load_example :
    (load_verifying_key toy_groth16 circuit_membership (some (ok (8 ∷ []))) toy_sum
      ≡ ok (record { circuit = circuit_membership; key = some (8 ∷ []) }))
    × (ccs : ConstraintSystem) × (toy_groth16.setup ccs ≡ ok (4 ∷ [], 8 ∷ []))
    × (load_proving_key toy_groth16 circuit_membership (some (ok (4 ∷ [])))
        ≡ ok (record { circuit = circuit_membership; ccs = ccs; key = 4 ∷ [] }))
setup_into-load_example =
    setup_into-load toy_groth16 toy_groth16-LawfulKeys Bytes append (λ w. w) append_lem
      circuit_membership [] (4 ∷ []) [] (8 ∷ []) refl refl ceremony

loaded :
    load_verifying_key toy_groth16 circuit_membership (some (ok (8 ∷ []))) toy_sum
    ≡ ok (record { circuit = circuit_membership; key = some (8 ∷ []) })
unfolding load_verifying_key pinned_circuit compile_circuit check_circuit_pin check_pin pin
    hex_encode bytes_eq
loaded = refl

load_verifying_key-IsPinned_example :
    (raw : Bytes) × (ccs : ConstraintSystem) × (some (ok (8 ∷ [])) ≡ some (ok raw))
    × (length toy_sum ≡ sha256_size)
    × (toy_groth16.sha256 raw ≡ toy_sum)
    × (toy_groth16.reads_verifying_key raw ≡ true)
    × (small_key ≡ record { circuit = circuit_membership; key = some raw })
    × IsPinned toy_groth16 circuit_membership ccs
load_verifying_key-IsPinned_example =
    load_verifying_key-IsPinned toy_groth16 circuit_membership (some (ok (8 ∷ []))) toy_sum
      small_key loaded

abbrev pub toy_prover : Prover
toy_prover = record {
  builds_witness = λ a. true;
  prove = λ ccs pk a. ok (record { written = ok (replicate 164 3) });
}

pub toy_prover-CompleteGroth16 : CompleteGroth16 toy toy_gadgets toy_groth16 toy_prover toy_outside
toy_prover-CompleteGroth16 = record {
  builds = λ a meets. refl;
  proves = λ ccs pk vk a compiled keys meets. (
    record { written = ok (replicate 164 3) },
    replicate 164 3,
    refl,
    refl,
    refl,
    refl,
    refl,
    refl,
  );
}

known_valid : knowledge_valid toy known ≡ true
unfolding knowledge_valid
known_valid =
    rw (knowledge_valid, knowledge_commitment-ok toy toy-Lawful first_secret first_secret-IsSecret)
      (==_self (knowledge_hash toy first_secret))

prove_knowledge-verify_example :
    (raw : Bytes) × (prove_knowledge toy_prover
        (some (record { circuit = circuit_knowledge; ccs = toy_system; key = 4 ∷ [] }))
        known
      ≡ ok raw)
    × (verify_knowledge_proof toy_outside
          (some (record { circuit = circuit_knowledge; key = some (8 ∷ []) }))
          raw
          known.commitment
          77
        ≡ ok tt)
prove_knowledge-verify_example =
    prove_knowledge-verify toy toy-Lawful toy_gadgets toy_gadgets-LawfulGadgets toy_groth16
      toy_prover toy_outside toy_prover-CompleteGroth16 toy_system (4 ∷ []) (8 ∷ []) known refl refl
      first_secret-IsSecret known_valid

fetch_path-verify_example :
    (path : MerklePath) × (raw : Bytes) × ((fetch_path toy toy_zk pool 0 (solo later)).0 ≡ ok path)
    × (prove_membership toy_prover
          (some (record { circuit = circuit_membership; ccs = toy_system; key = 4 ∷ [] }))
          (membership_witness_for
            (issued toy [] first_secret 18)
            path
            5
            16
            (pseudonym toy first_secret 5)
            77)
        ≡ ok raw)
    × (verify_membership_proof toy_outside
          (some (record { circuit = circuit_membership; key = some (8 ∷ []) }))
          raw
          (record {
            root = path.root;
            audience = 5;
            nullifier = pseudonym toy first_secret 5;
            challenge = 77;
            threshold = 16;
          })
        ≡ ok tt)
unfolding next_index
fetch_path-verify_example =
    fetch_path-verify toy toy-Lawful toy_gadgets toy_gadgets-LawfulGadgets toy_groth16 toy_prover
      toy_outside toy_prover-CompleteGroth16 toy_zk toy_zk-IsReady later one_issued-IsTree
      (issued toy [] first_secret 18) first_row toy_system (4 ∷ []) (8 ∷ []) 5 16 77
      first_secret-IsSecret (omega arith) (omega arith) found_first refl first_fits refl refl
      (omega arith) (omega arith)

-- ===== src/Proving/Complete.antt =====
-- From the ceremony to a verified proof: what the oracles of zkauthn/proof.go accept, the loaded keys
-- prove and verify.
use kal_zk.Base.{Bytes, ◌≡◌, refl, true, length, some, ◌∙◌}
use kal_zk.Error.{ok}
use kal_zk.Hash.{Crypto, Lawful}
use kal_zk.Hash.Commitments.{IsSecret}
use kal_zk.Service.{Circuit, circuit_knowledge, circuit_membership, is_knowledge, is_membership}
use kal_zk.Proof.{KnowledgeWitness, MembershipWitness, knowledge_valid, membership_valid}
use kal_zk.Circuit.{
  Gadgets, LawfulGadgets, assign_knowledge, assign_membership, define_knowledge, define_membership,
  satisfied,
}
use kal_zk.Circuit.Agreement.{IsTyped, satisfied-define_knowledge, satisfied-define_membership}
use kal_zk.Keys.{ConstraintSystem, Groth16, compile_circuit}
use kal_zk.Protocol.Interface.{Outside}
use kal_zk.Protocol.Checking.{check_proof, compressed_proof_size}
use kal_zk.Proving.{
  Assignment, to_knowledge, to_membership, Proof, Prover, public_part, prove, prove_knowledge,
  prove_membership, verify_knowledge_proof, verify_membership_proof,
}

-- The constraints that the code states for an assignment.
abbrev pub ConstraintsHold : Crypto → Gadgets → Assignment → Type 0
ConstraintsHold c g (to_knowledge k) = satisfied c g (define_knowledge c g k) ≡ true
ConstraintsHold c g (to_membership m) = satisfied c g (define_membership c g m) ≡ true

abbrev pub circuit_of : Assignment → Circuit
circuit_of (to_knowledge k) = circuit_knowledge
circuit_of (to_membership m) = circuit_membership

-- gnark documents: Groth16 is complete. With the keys of one ceremony for the compiled circuit, an
-- assignment that meets the constraints has a proof, of the compressed size, and it verifies.
pub record CompleteGroth16 (c : Crypto) (g : Gadgets) (k : Groth16) (pr : Prover) (o : Outside)
    : Type 0 where
  pub builds : (a : Assignment) → ConstraintsHold c g a → pr.builds_witness a ≡ true
  pub proves :
      (ccs : ConstraintSystem) (pk vk : Bytes) (a : Assignment)
      → compile_circuit k (circuit_of a) ≡ ok ccs
      → k.setup ccs ≡ ok (pk, vk)
      → ConstraintsHold c g a
      → (proof : Proof) × (raw : Bytes) × (pr.prove ccs pk a ≡ ok proof)
        × (proof.written ≡ ok raw)
        × (length raw ≡ compressed_proof_size)
        × (o.reads_proof raw ≡ true)
        × (o.builds_witness (public_part a) ≡ true)
        × (o.accepts vk raw (public_part a) ≡ true)

module _ (c : Crypto) (laws : Lawful c) (g : Gadgets) (gnark : LawfulGadgets c g) (k : Groth16)
    (pr : Prover) (o : Outside) (complete : CompleteGroth16 c g k pr o) where
  prove-check_proof :
      (ccs : ConstraintSystem) (pk vk : Bytes) (a : Assignment)
      → compile_circuit k (circuit_of a) ≡ ok ccs
      → k.setup ccs ≡ ok (pk, vk)
      → ConstraintsHold c g a
      → (raw : Bytes) × (prove pr (record { circuit = circuit_of a; ccs = ccs; key = pk }) a
          ≡ ok raw)
        × (check_proof o
              (some (record { circuit = circuit_of a; key = some vk }))
              raw
              (public_part a)
            ≡ ok tt)
  unfolding prove check_proof
  prove-check_proof ccs pk vk a compiled keys meets =
      let built = complete.builds a meets in
      let (proof, raw, made, written, size, reads, public, accepts) =
        complete.proves ccs pk vk a compiled keys meets in
      (raw, rw (built, made, written) refl, rw (size, reads, public, accepts) refl)

  -- With the keys of one ceremony for the knowledge circuit, a witness with a 31-byte secret that
  -- KnowledgeValid accepts gets a proof from ProveKnowledge, and VerifyKnowledge accepts it for
  -- its commitment and challenge.
  pub prove_knowledge-verify :
      (ccs : ConstraintSystem) (pk vk : Bytes) (w : KnowledgeWitness)
      → k.compile_knowledge ≡ ok ccs
      → k.setup ccs ≡ ok (pk, vk)
      → IsSecret w.secret
      → knowledge_valid c w ≡ true
      → (raw : Bytes) × (prove_knowledge pr
            (some (record { circuit = circuit_knowledge; ccs = ccs; key = pk }))
            w
          ≡ ok raw)
        × (verify_knowledge_proof o
              (some (record { circuit = circuit_knowledge; key = some vk }))
              raw
              w.commitment
              w.challenge
            ≡ ok tt)
  unfolding prove_knowledge verify_knowledge_proof is_knowledge compile_circuit public_part
      assign_knowledge
  prove_knowledge-verify ccs pk vk w compiled keys secret valid =
      prove-check_proof ccs pk vk (to_knowledge (assign_knowledge w)) compiled keys
        (satisfied-define_knowledge c laws g gnark w secret ∙ valid)

  -- With the keys of one ceremony for the membership circuit, a witness of the types of Go that the
  -- oracle accepts has a proof, and VerifyMembership accepts it under the witness's root, audience,
  -- nullifier, challenge and threshold.
  pub prove_membership-verify :
      (ccs : ConstraintSystem) (pk vk : Bytes) (w : MembershipWitness)
      → k.compile_membership ≡ ok ccs
      → k.setup ccs ≡ ok (pk, vk)
      → IsTyped c w
      → membership_valid c w ≡ true
      → (raw : Bytes) × (prove_membership pr
            (some (record { circuit = circuit_membership; ccs = ccs; key = pk }))
            w
          ≡ ok raw)
        × (verify_membership_proof o
              (some (record { circuit = circuit_membership; key = some vk }))
              raw
              (record {
                root = w.root;
                audience = w.audience;
                nullifier = w.nullifier;
                challenge = w.challenge;
                threshold = w.threshold;
              })
            ≡ ok tt)
  unfolding prove_membership verify_membership_proof is_membership compile_circuit public_part
      assign_membership
  prove_membership-verify ccs pk vk w compiled keys typed valid =
      prove-check_proof ccs pk vk (to_membership (assign_membership w)) compiled keys
        (satisfied-define_membership c laws g gnark w typed ∙ valid)

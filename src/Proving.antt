-- ===== src/Proving.antt =====
-- The keys of zkauthn/proof.go at work: ProveKnowledge and ProveMembership, and the verification by
-- VerifyKnowledge and VerifyMembership. gnark's prover is the record `Prover`.
pub mod Complete
pub mod Members
use kal_zk.Base.{ℕ, Bytes, Bool, true, not, if◌then◌else◌, Option, none, some}
use kal_zk.Error.{Result, ok, err, plain, result_bind}
use kal_zk.Hash.{Field}
use kal_zk.Service.{
  Circuit, circuit_knowledge, circuit_membership, VerifyingKey, MembershipPublic, is_knowledge,
  is_membership,
}
use kal_zk.Proof.{KnowledgeWitness, MembershipWitness}
use kal_zk.Circuit.{KnowledgeCircuit, MembershipCircuit, assign_knowledge, assign_membership}
use kal_zk.Keys.{ConstraintSystem, ProvingKey}
use kal_zk.Protocol.Interface.{Outside, Public, of_knowledge, of_membership}
use kal_zk.Protocol.Checking.{check_proof}

-- `frontend.Circuit` with all its values.
pub data Assignment : Type 0 where
  to_knowledge : KnowledgeCircuit → Assignment
  to_membership : MembershipCircuit → Assignment

-- A proof is what `WriteTo` writes of it.
pub record Proof : Type 0 where
  pub written : Result Bytes

pub record Prover : Type 0 where
  -- `frontend.NewWitness` with the secret values
  pub builds_witness : Assignment → Bool
  pub prove : ConstraintSystem → Bytes → Assignment → Result Proof

-- The fields with the tag `gnark:",public"`.
unfoldable pub public_part : Assignment → Public
public_part (to_knowledge k) = of_knowledge k.commitment k.challenge
public_part (to_membership m) = of_membership (record {
  root = m.root;
  audience = m.audience;
  nullifier = m.nullifier;
  challenge = m.challenge;
  threshold = m.threshold;
})

module _ (pr : Prover) where
  unfoldable pub prove : ProvingKey → Assignment → Result Bytes
  prove p a =
      if not (pr.builds_witness a)
      then err (plain "zkauthn: build witness")
      else result_bind (pr.prove p.ccs p.key a) λ proof. proof.written

  unfoldable pub prove_knowledge : Option ProvingKey → KnowledgeWitness → Result Bytes
  prove_knowledge none w = err (plain "zkauthn: knowledge proving key required")
  prove_knowledge (some p) w = elim p.circuit [
    | circuit_knowledge ↦ prove p (to_knowledge (assign_knowledge w))
    | _ ↦ err (plain "zkauthn: knowledge proving key required")
  ]

  unfoldable pub prove_membership : Option ProvingKey → MembershipWitness → Result Bytes
  prove_membership none w = err (plain "zkauthn: membership proving key required")
  prove_membership (some p) w = elim p.circuit [
    | circuit_membership ↦ prove p (to_membership (assign_membership w))
    | _ ↦ err (plain "zkauthn: membership proving key required")
  ]

module _ (o : Outside) where
  -- `VerifyingKey.VerifyKnowledge`
  unfoldable pub verify_knowledge_proof :
      Option VerifyingKey → Bytes → Field → Field → Result (Unit {0})
  verify_knowledge_proof vk raw commitment challenge =
      if not (is_knowledge vk)
      then err (plain "zkauthn: knowledge verifying key required")
      else check_proof o vk raw (of_knowledge commitment challenge)

  -- `VerifyingKey.VerifyMembership`
  unfoldable pub verify_membership_proof :
      Option VerifyingKey → Bytes → MembershipPublic → Result (Unit {0})
  verify_membership_proof vk raw public =
      if not (is_membership vk)
      then err (plain "zkauthn: membership verifying key required")
      else check_proof o vk raw (of_membership public)

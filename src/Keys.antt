-- ===== src/Keys.antt =====
-- zkauthn/keys.go: the ceremony that makes the keys of a circuit, and the loading of keys from files.
-- gnark and SHA-256 are the record `Groth16`. A key is the bytes that it is written as.
pub mod Pins
pub mod Ceremony
use kal_zk.Base.{
  ℕ, ◌+◌, ◌/◌, ◌%◌, Bytes, List, [], ◌∷◌, length, Bool, true, false, not, ◌==◌, ltb, if◌then◌else◌,
  Option, none, some, codes, bytes_eq,
}
use kal_zk.Error.{Error, Result, ok, err, plain, result_bind}
use kal_zk.Service.{Circuit, circuit_knowledge, circuit_membership, unknown_circuit, VerifyingKey}

-- `constraint.ConstraintSystem`: its size, and what `WriteTo` writes of it.
pub record ConstraintSystem : Type 0 where
  pub constraints : ℕ
  pub written : Result Bytes

pub record ProvingKey : Type 0 where
  pub circuit : Circuit
  pub ccs : ConstraintSystem
  pub key : Bytes

pub record Groth16 : Type 0 where
  -- `frontend.Compile` of each circuit over the field of BN254
  pub compile_knowledge : Result ConstraintSystem
  pub compile_membership : Result ConstraintSystem
  -- The proving key and the verifying key of one ceremony.
  pub setup : ConstraintSystem → Result (Bytes × Bytes)
  pub reads_proving_key : Bytes → Bool
  pub reads_verifying_key : Bytes → Bool
  pub sha256 : Bytes → Bytes

abbrev pub knowledge_constraints : ℕ
knowledge_constraints = 332

abbrev pub membership_constraints : ℕ
membership_constraints = 23066

abbrev pub knowledge_circuit_id : Bytes
knowledge_circuit_id = codes "27262b1163cbc35c4fb83ec828234b98dc324f9f351681cf781ccf7529c1fe3f"

abbrev pub membership_circuit_id : Bytes
membership_circuit_id = codes "630cc13d2bc8fa313b94cead3f0e45674c9bc0daba28b26a4fe0afafbb9e4a50"

abbrev pub sha256_size : ℕ
sha256_size = 32

abbrev pub hex_digit : ℕ → ℕ
hex_digit n = if ltb n 10 then b'0' + n else 87 + n

-- `hex.EncodeToString`
unfoldable pub hex_encode : Bytes → Bytes
hex_encode [] = []
hex_encode (b ∷ bs) = hex_digit (b / 16) ∷ hex_digit (b % 16) ∷ hex_encode bs

-- The constraints and the identity that a circuit is pinned at.
unfoldable pub pin : Circuit → Option (ℕ × Bytes)
pin circuit_knowledge = some (knowledge_constraints, knowledge_circuit_id)
pin circuit_membership = some (membership_constraints, membership_circuit_id)
pin (unknown_circuit _) = none

module _ (g : Groth16) where
  unfoldable pub compile_circuit : Circuit → Result ConstraintSystem
  compile_circuit circuit_knowledge = g.compile_knowledge
  compile_circuit circuit_membership = g.compile_membership
  compile_circuit (unknown_circuit _) = err (plain "zkauthn: unknown circuit")

  -- The comparison with one pin.
  unfoldable pub check_pin : ℕ → Bytes → ConstraintSystem → Result (Unit {0})
  check_pin want_constraints want_id ccs =
      if not (ccs.constraints == want_constraints)
      then err (plain "zkauthn: circuit constraints")
      else result_bind ccs.written λ raw.
        if bytes_eq (hex_encode (g.sha256 raw)) want_id
        then ok tt
        else err (plain "zkauthn: circuit identity changed")

  unfoldable pub check_circuit_pin : Circuit → ConstraintSystem → Result (Unit {0})
  check_circuit_pin kind ccs = elim (pin kind) [
    | none ↦ err (plain "zkauthn: unknown circuit")
    | some (constraints, id) ↦ check_pin constraints id ccs
  ]

  -- `compileCircuit` and then `checkCircuitPin`, which the ceremony and both loads do.
  unfoldable pub pinned_circuit : Circuit → Result ConstraintSystem
  pinned_circuit kind =
      result_bind (compile_circuit kind) λ ccs. result_bind (check_circuit_pin kind ccs) λ _. ok ccs

  -- The reader is what `io.ReadAll` gives of it.
  unfoldable pub load_verifying_key : Circuit → Option (Result Bytes) → Bytes → Result VerifyingKey
  load_verifying_key kind none want = err (plain "zkauthn: verifying key and SHA-256 are required")
  load_verifying_key kind (some contents) want =
      if not (length want == sha256_size)
      then err (plain "zkauthn: verifying key and SHA-256 are required")
      else result_bind contents λ raw.
        if not (bytes_eq (g.sha256 raw) want)
        then err (plain "zkauthn: verifying key SHA-256 mismatch")
        else if not (g.reads_verifying_key raw)
        then err (plain "zkauthn: parse verifying key")
        else result_bind (pinned_circuit kind) λ _. ok (record { circuit = kind; key = some raw })

  unfoldable pub load_proving_key : Circuit → Option (Result Bytes) → Result ProvingKey
  load_proving_key kind none = err (plain "zkauthn: proving key is required")
  load_proving_key kind (some contents) = result_bind (pinned_circuit kind) λ ccs.
      result_bind contents λ raw.
        if g.reads_proving_key raw
        then ok (record { circuit = kind; ccs = ccs; key = raw })
        else err (plain "zkauthn: parse proving key")

  unfoldable pub circuit_info : Circuit → Result (ℕ × Bytes)
  circuit_info kind =
      result_bind (compile_circuit kind)
        λ ccs. result_bind ccs.written λ raw. ok (ccs.constraints, g.sha256 raw)

  -- A writer, and a write to it, which may fail half way.
  module _ (Writer : Type 0) (write : Bytes → Writer → Result (Unit {0}) × Writer) where
    unfoldable pub write_keys :
        Bytes → Bytes → Writer → Writer → Result (Unit {0}) × (Writer × Writer)
    write_keys pk vk pkw vkw =
        let (wrote, pkw2) = write pk pkw in
        elim wrote [
          | err e ↦ (err e, (pkw2, vkw))
          | ok _ ↦ let (wrote_vk, vkw2) = write vk vkw in (wrote_vk, (pkw2, vkw2))
        ]

    -- `Setup` with both writers there.
    unfoldable pub setup_into : Circuit → Writer → Writer → Result (Unit {0}) × (Writer × Writer)
    setup_into kind pkw vkw = elim (result_bind (pinned_circuit kind) g.setup) [
      | err e ↦ (err e, (pkw, vkw))
      | ok (pk, vk) ↦ write_keys pk vk pkw vkw
    ]

    unfoldable pub setup :
        Circuit
        → Option Writer
        → Option Writer
        → Result (Unit {0}) × (Option Writer × Option Writer)
    setup kind (some pkw) (some vkw) =
        let (result, (pkw2, vkw2)) = setup_into kind pkw vkw in (result, (some pkw2, some vkw2))
    setup kind pkw vkw = (err (plain "zkauthn: both writers are required"), (pkw, vkw))

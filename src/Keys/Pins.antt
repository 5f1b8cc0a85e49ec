-- ===== src/Keys/Pins.antt =====
-- What a successful load of zkauthn/keys.go says of the key.
use kal_zk.Base.{
  ℕ, Bytes, ◌≡◌, refl, length, ◌↔◌, inl, inr, Option-cases, ==_iff, ◌==◌, sym, true, ◌∙◌, ap,
  Option, none, some, bytes_eq, bytes_eq→eq, bytes_eq_self,
}
use kal_zk.Error.{Result, ok, result_bind-ok, ok-injective, require-ok, unless_not-ok}
use kal_zk.Service.{Circuit, VerifyingKey}
use kal_zk.Keys.{
  ConstraintSystem, Groth16, pin, hex_encode, compile_circuit, check_pin, check_circuit_pin,
  pinned_circuit, load_verifying_key, circuit_info, sha256_size,
}

-- The circuit compiles to a system of the pinned size and identity.
pub record IsPinned (g : Groth16) (kind : Circuit) (ccs : ConstraintSystem) : Type 0 where
  pub constraints : ℕ
  pub id : Bytes
  pub raw : Bytes
  pub pinned : pin kind ≡ some (constraints, id)
  pub compiled : compile_circuit g kind ≡ ok ccs
  pub size : ccs.constraints ≡ constraints
  pub written : ccs.written ≡ ok raw
  pub identity : hex_encode (g.sha256 raw) ≡ id

module _ (g : Groth16) where
  check_pin-ok :
      (n : ℕ) (id : Bytes) (ccs : ConstraintSystem)
      → check_pin g n id ccs ≡ ok tt
      → (raw : Bytes) × (ccs.constraints ≡ n)
        × (ccs.written ≡ ok raw)
        × (hex_encode (g.sha256 raw) ≡ id)
  unfolding check_pin
  check_pin-ok n id ccs h =
      let (same, rest) = unless_not-ok _ (ccs.constraints == n) _ h in
      let (raw, written, last) = result_bind-ok ccs.written _ rest in
      let (hash, _) = require-ok _ (bytes_eq (hex_encode (g.sha256 raw)) id) _ last in
      (raw, (==_iff ccs.constraints n).0 same, written, bytes_eq→eq _ id hash)

  pub pinned_circuit-IsPinned :
      (kind : Circuit) (ccs : ConstraintSystem)
      → pinned_circuit g kind ≡ ok ccs
      → IsPinned g kind ccs
  unfolding pinned_circuit check_circuit_pin
  pinned_circuit-IsPinned kind ccs h =
      let (made, compiled, rest) = result_bind-ok (compile_circuit g kind) _ h in
      let (_, checked, last) = result_bind-ok (check_circuit_pin g kind made) _ rest in
      elim (Option-cases (pin kind)) [
        | inl unknown ↦ cc (rw (check_circuit_pin, unknown) at checked)
        | inr ((constraints, id), pinned) ↦
            let (raw, size, written, identity) =
              check_pin-ok constraints id made (rw (check_circuit_pin, pinned) at checked) in
            rw (sym (ok-injective last)) (record {
              constraints = constraints;
              id = id;
              raw = raw;
              pinned = pinned;
              compiled = compiled;
              size = size;
              written = written;
              identity = identity;
            })
      ]

  -- A verifying key that LoadVerifyingKey returns is the whole file: its SHA-256 is the 32 bytes
  -- that were wanted, gnark reads it as a key, and the named circuit is a known one that compiles
  -- to the pinned size and identity.
  pub load_verifying_key-IsPinned :
      (kind : Circuit) (contents : Option (Result Bytes)) (want : Bytes) (vk : VerifyingKey)
      → load_verifying_key g kind contents want ≡ ok vk
      → (raw : Bytes) × (ccs : ConstraintSystem) × (contents ≡ some (ok raw))
        × (length want ≡ sha256_size)
        × (g.sha256 raw ≡ want)
        × (g.reads_verifying_key raw ≡ true)
        × (vk ≡ record { circuit = kind; key = some raw })
        × IsPinned g kind ccs
  unfolding load_verifying_key
  load_verifying_key-IsPinned kind none want vk h = cc
  load_verifying_key-IsPinned kind (some contents) want vk h =
      let (size, h1) = unless_not-ok _ (length want == sha256_size) _ h in
      let (raw, read, h2) = result_bind-ok contents _ h1 in
      let (hash, h3) = unless_not-ok _ (bytes_eq (g.sha256 raw) want) _ h2 in
      let (parsed, h4) = unless_not-ok _ (g.reads_verifying_key raw) _ h3 in
      let (ccs, pinned, last) = result_bind-ok (pinned_circuit g kind) _ h4 in
      (
        raw,
        ccs,
        ap some read,
        (==_iff _ sha256_size).0 size,
        bytes_eq→eq _ want hash,
        parsed,
        sym (ok-injective last),
        pinned_circuit-IsPinned kind ccs pinned,
      )

  -- For a known circuit that compiles and can be written, CircuitInfo reports its size and
  -- SHA-256, and checkCircuitPin passes exactly when the reported size and the hexadecimal form of
  -- the reported SHA-256 are the pin.
  pub circuit_info-check_circuit_pin :
      (kind : Circuit) (ccs : ConstraintSystem) (raw : Bytes) (constraints : ℕ) (id : Bytes)
      → compile_circuit g kind ≡ ok ccs
      → ccs.written ≡ ok raw
      → pin kind ≡ some (constraints, id)
      → (circuit_info g kind ≡ ok (ccs.constraints, g.sha256 raw))
        × ((check_circuit_pin g kind ccs ≡ ok tt)
            ↔ ((ccs.constraints ≡ constraints) × (hex_encode (g.sha256 raw) ≡ id)))
  unfolding circuit_info check_circuit_pin check_pin
  circuit_info-check_circuit_pin kind ccs raw constraints id compiled written pinned = (
    rw (compiled, written) refl,
    (
      (λ h.
          let (raw2, size, written2, identity) =
            check_pin-ok constraints id ccs (rw (check_circuit_pin, pinned) at h) in
          let same : raw2 ≡ raw = ok-injective (sym written2 ∙ written) in
          (size, rw same at identity)),
      (λ (size, identity).
          rw
            (
              check_circuit_pin,
              pinned,
              check_pin,
              (==_iff ccs.constraints constraints).1 size,
              written,
              identity,
              bytes_eq_self id,
            )
            refl),
    ),
  )

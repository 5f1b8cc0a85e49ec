-- ===== src/Keys/Ceremony.antt =====
-- From the ceremony of zkauthn/keys.go to its loads: the keys that Setup wrote are the ones that load.
use kal_zk.Base.{Bytes, [], ◌++◌, ◌≡◌, refl, true, length, some, bytes_eq_self, ap, inl, inr}
use kal_zk.Error.{Result, Result-cases, ok, result_bind, result_bind-ok}
use kal_zk.Service.{Circuit}
use kal_zk.Keys.{
  ConstraintSystem, Groth16, pinned_circuit, load_verifying_key, load_proving_key, setup_into,
  write_keys, sha256_size,
}

-- gnark documents that it reads what it writes, and SHA-256 that its sums have 32 bytes.
pub record LawfulKeys (g : Groth16) : Type 0 where
  pub reads_back :
      (ccs : ConstraintSystem) (pk vk : Bytes)
      → g.setup ccs ≡ ok (pk, vk)
      → (g.reads_proving_key pk ≡ true) × (g.reads_verifying_key vk ≡ true)
  pub length-sha256 : (raw : Bytes) → length (g.sha256 raw) ≡ sha256_size

module _ (g : Groth16) (laws : LawfulKeys g) (Writer : Type 0)
    (write : Bytes → Writer → Result (Unit {0}) × Writer) (written : Writer → Bytes)
    (write_lem : (b : Bytes) (w w2 : Writer)
      → write b w ≡ (ok tt, w2)
      → written w2 ≡ written w ++ b) where
  write_keys-written :
      (pk vk : Bytes) (p p2 v v2 : Writer)
      → write_keys g Writer write pk vk p v ≡ (ok tt, (p2, v2))
      → (written p2 ≡ written p ++ pk) × (written v2 ≡ written v ++ vk)
  unfolding write_keys
  write_keys-written pk vk p p2 v v2 h = elim (Result-cases (write pk p).0) [
    | inr (e, failed) ↦ cc (rw (write_keys, failed) at h)
    | inl (_, wrote) ↦
        let rest = rw (write_keys, wrote) at h in
        let first : (write pk p).1 ≡ p2 = ap (λ r. r.1.0) rest in
        let done : (write vk v).0 ≡ ok tt = ap (λ r. r.0) rest in
        let second : (write vk v).1 ≡ v2 = ap (λ r. r.1.1) rest in
        (write_lem pk p p2 (cc (wrote, first)), write_lem vk v v2 (cc (done, second)))
  ]

  setup_into-written :
      (kind : Circuit) (p p2 v v2 : Writer)
      → setup_into g Writer write kind p v ≡ (ok tt, (p2, v2))
      → (ccs : ConstraintSystem) × (pk : Bytes) × (vk : Bytes) × (pinned_circuit g kind ≡ ok ccs)
        × (g.setup ccs ≡ ok (pk, vk))
        × (written p2 ≡ written p ++ pk)
        × (written v2 ≡ written v ++ vk)
  unfolding setup_into
  setup_into-written kind p p2 v v2 h =
      elim (Result-cases (result_bind (pinned_circuit g kind) g.setup)) [
        | inr (e, failed) ↦ cc (rw (setup_into, failed) at h)
        | inl ((pk, vk), made) ↦
            let (ccs, pinned, keys) = result_bind-ok (pinned_circuit g kind) g.setup made in
            let (wp, wv) = write_keys-written pk vk p p2 v v2 (rw (setup_into, made) at h) in
            (ccs, pk, vk, pinned, keys, wp, wv)
      ]

  -- After a Setup into two empty writers that succeeds, what they hold loads: the verifying key
  -- under its SHA-256, and the proving key with the constraint system for which gnark made the
  -- two, both for the circuit of the ceremony.
  pub setup_into-load :
      (kind : Circuit) (p p2 v v2 : Writer)
      → written p ≡ []
      → written v ≡ []
      → setup_into g Writer write kind p v ≡ (ok tt, (p2, v2))
      → (load_verifying_key g kind (some (ok (written v2))) (g.sha256 (written v2))
          ≡ ok (record { circuit = kind; key = some (written v2) }))
        × (ccs : ConstraintSystem) × (g.setup ccs ≡ ok (written p2, written v2))
        × (load_proving_key g kind (some (ok (written p2)))
            ≡ ok (record { circuit = kind; ccs = ccs; key = written p2 }))
  unfolding load_verifying_key load_proving_key
  setup_into-load kind p p2 v v2 ep ev h =
      let (ccs, pk, vk, pinned, keys, wp, wv) = setup_into-written kind p p2 v v2 h in
      let pk_e : written p2 ≡ pk = rw ep at wp in
      let vk_e : written v2 ≡ vk = rw ev at wv in
      let (reads_pk, reads_vk) = laws.reads_back ccs pk vk keys in
      let size = laws.length-sha256 vk in
      let whole = bytes_eq_self (g.sha256 vk) in
      rw (pk_e, vk_e)
        (rw (size, whole, reads_vk, pinned) refl, ccs, keys, rw (pinned, reads_pk) refl)

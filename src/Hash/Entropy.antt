-- ===== src/Hash/Entropy.antt =====
-- Secrets from the random source (zkauthn/hash.go: generateSecret). Each `io.ReadFull` of 31 bytes
-- takes the next outcome of the source: the bytes, or a failure; a source at its end fails.
use kal_zk.Base.{
  ℕ, zero, suc, ◌≡◌, Bool, true, false, ◌&&◌, ◌==◌, if◌then◌else◌, Bytes, List, [], ◌∷◌, Option,
  none, some, arith, inl, inr, Bool-cases, subst,
}
use kal_zk.Error.{Result, ok, err, plain, ok-injective}
use kal_zk.Hash.{Secret}
use kal_zk.Store.Exec.{M}

abbrev pub entropy_attempts : ℕ
entropy_attempts = 3

-- `secret == (Secret{})`
unfoldable pub all_zero : Bytes → Bool
all_zero [] = true
all_zero (x ∷ xs) = x == 0 && all_zero xs

unfoldable pub draw : ℕ → List (Option Bytes) → Result Secret × List (Option Bytes)
draw zero reads = (err (plain "entropy source returned all-zero bytes"), reads)
draw (suc k) [] = (err (plain "EOF"), [])
draw (suc k) (none ∷ reads) = (err (plain "read failed"), reads)
draw (suc k) (some raw ∷ reads) =
    let rest = draw k reads in if all_zero raw then rest else (ok raw, reads)

unfoldable pub generate_secret : M Secret
generate_secret w =
    let (r, reads) = draw entropy_attempts w.entropy in (r, record w { entropy = reads })

-- A secret that is handed out was read from the source and is not all zero.
pub draw-ok :
    (k : ℕ) (reads : List (Option Bytes)) (secret : Secret)
    → (draw k reads).0 ≡ ok secret
    → all_zero secret ≡ false
unfolding draw
draw-ok zero reads secret e = cc
draw-ok (suc k) [] secret e = cc
draw-ok (suc k) (none ∷ reads) secret e = cc
draw-ok (suc k) (some raw ∷ reads) secret e = ground (arith, draw-ok k reads secret)

-- What holds of every completed read holds of the secret.
abbrev pub AllReads {ℓ} : (Bytes → Type ℓ) → List (Option Bytes) → Type ℓ
AllReads P [] = Unit
AllReads P (none ∷ reads) = AllReads P reads
AllReads P (some raw ∷ reads) = P raw × AllReads P reads

pub draw-AllReads {ℓ} :
    (P : Bytes → Type ℓ) (k : ℕ) (reads : List (Option Bytes)) (secret : Secret)
    → AllReads P reads
    → (draw k reads).0 ≡ ok secret
    → P secret
unfolding draw
draw-AllReads P zero reads secret h e = cc
draw-AllReads P (suc k) [] secret h e = cc
draw-AllReads P (suc k) (none ∷ reads) secret h e = cc
draw-AllReads P (suc k) (some raw ∷ reads) secret h e = elim (Bool-cases (all_zero raw)) [
  | inl zeros ↦ draw-AllReads P k reads secret h.1 (rw zeros at e)
  | inr fresh ↦ subst P (ok-injective (rw fresh at e)) h.0
]

-- ===== src/Base/Binary.antt =====
-- Byte strings: Go's `string` and `[]byte`, and the big-endian reading of bytes as a number.
use Prim.Native.Nat.{ℕ, zero, suc, ◌+◌, ◌*◌, ◌/◌, ◌%◌, ◌^◌, ◌<◌, ◌≤◌}
use Prim.Native.Char.{code}
use Prim.Native.String.{String}
use mathlib.Core.Path.{◌≡◌, refl, sym, ap, ◌∙◌}
use mathlib.Core.Logic.{◌≢◌, ◌↔◌}
use mathlib.Core.Bool.{Bool, true, false, ◌&&◌}
use mathlib.Core.List.{append_assoc, append-nil, List, [], ◌∷◌, ◌++◌}
use native.Mathlib.Omega.{arith}
use native.Mathlib.Nat.{pow-suc, le_trans}
use kal_zk.Base.Tests.{◌==◌}
use kal_zk.Base.Lists.{length, length-append, All}

abbrev pub Bytes : Type 0
Bytes = List ℕ

-- The bytes of an ASCII literal.
abbrev pub codes : String → Bytes
codes String.[] = []
codes (String.◌∷◌ c s) = code c ∷ codes s

-- `bytes.Equal`, and `==` on strings and arrays.
unfoldable pub bytes_eq : Bytes → Bytes → Bool
bytes_eq [] [] = true
bytes_eq (x ∷ xs) (y ∷ ys) = x == y && bytes_eq xs ys
bytes_eq _ _ = false

pub bytes_eq→eq : (xs ys : Bytes) → bytes_eq xs ys ≡ true → xs ≡ ys
unfolding bytes_eq
bytes_eq→eq [] [] h = refl
bytes_eq→eq (x ∷ xs) (y ∷ ys) h = ground (arith, bytes_eq→eq xs ys)
bytes_eq→eq [] (y ∷ ys) h = cc
bytes_eq→eq (x ∷ xs) [] h = cc

pub bytes_eq_self : (xs : Bytes) → bytes_eq xs xs ≡ true
unfolding bytes_eq
bytes_eq_self [] = refl
bytes_eq_self (x ∷ xs) = ground (arith, bytes_eq_self xs)

pub bytes_eq_iff : (xs ys : Bytes) → (bytes_eq xs ys ≡ true) ↔ (xs ≡ ys)
bytes_eq_iff xs ys = (bytes_eq→eq xs ys, λ e. rw (← e) (bytes_eq_self xs))

pub bytes_eq-ne : (xs ys : Bytes) → xs ≢ ys → bytes_eq xs ys ≡ false
bytes_eq-ne xs ys h = ground (arith, bytes_eq→eq xs ys, h)

-- `big.Int.SetBytes`: the bytes read with the most significant first.
be_from : ℕ → Bytes → ℕ
be_from acc [] = acc
be_from acc (x ∷ xs) = be_from (acc * 256 + x) xs

unfoldable pub be_value : Bytes → ℕ
unfolding be_from
be_value xs = be_from 0 xs

-- The `k` low bytes of a number, the most significant first.
unfoldable pub to_be : ℕ → ℕ → Bytes
to_be zero n = []
to_be (suc k) n = to_be k (n / 256) ++ (n % 256) ∷ []

be_from-append :
    (acc : ℕ) (xs : Bytes) (y : ℕ) → be_from acc (xs ++ y ∷ []) ≡ be_from acc xs * 256 + y
unfolding be_from
be_from-append acc [] y = refl
be_from-append acc (x ∷ xs) y = be_from-append (acc * 256 + x) xs y

pub length-to_be : (k n : ℕ) → length (to_be k n) ≡ k
unfolding to_be
length-to_be zero n = refl
length-to_be (suc k) n =
    omega (arith, length-append (to_be k (n / 256)) ((n % 256) ∷ []), length-to_be k (n / 256))

-- A number that fits is read back from its bytes.
pub be_value-to_be : (k n : ℕ) → n < 256 ^ k → be_value (to_be k n) ≡ n
unfolding be_value to_be
be_value-to_be zero n h = omega arith
be_value-to_be (suc k) n h =
    be_from-append 0 (to_be k (n / 256)) (n % 256)
    ∙ omega (arith, be_value-to_be k (n / 256) (omega (arith, pow-suc 256 k)))

-- Every element is a byte.
abbrev pub IsBytes : Bytes → Type 0
IsBytes xs = All (λ x. x < 256) xs

to_be-be_from :
    (j acc : ℕ) (xs : Bytes)
    → IsBytes xs
    → to_be (length xs + j) (be_from acc xs) ≡ to_be j acc ++ xs
unfolding be_from to_be
to_be-be_from j acc [] h =
    let size : length {A = ℕ} [] + j ≡ j = omega arith in
    ap (λ k. to_be k acc) size ∙ sym (append-nil (to_be j acc))
to_be-be_from j acc (x ∷ xs) (small, rest) =
    let size : length (x ∷ xs) + j ≡ length xs + suc j = omega arith in
    let high : (acc * 256 + x) / 256 ≡ acc = omega (arith, small) in
    let low : (acc * 256 + x) % 256 ≡ x = omega (arith, small) in
    ap (λ k. to_be k (be_from (acc * 256 + x) xs)) size
    ∙ to_be-be_from (suc j) (acc * 256 + x) xs rest
    ∙ ap (λ n. (to_be j n ++ ((acc * 256 + x) % 256) ∷ []) ++ xs) high
    ∙ ap (λ b. (to_be j acc ++ b ∷ []) ++ xs) low
    ∙ append_assoc (to_be j acc) (x ∷ []) xs

-- Bytes are the low bytes of the number that they spell.
pub to_be-be_value : (k : ℕ) (xs : Bytes) → length xs ≡ k → IsBytes xs → to_be k (be_value xs) ≡ xs
unfolding be_value to_be
to_be-be_value k xs size h =
    let all : k ≡ length xs + 0 = omega (arith, size) in
    ap (λ n. to_be n (be_from 0 xs)) all ∙ to_be-be_from 0 0 xs h

step_bound : (acc x p : ℕ) → x < 256 → (acc * 256 + x + 1) * p ≤ (acc + 1) * (p * 256)
step_bound acc x p h = grind arith

be_from-lt : (acc : ℕ) (xs : Bytes) → IsBytes xs → be_from acc xs < (acc + 1) * 256 ^ length xs
unfolding be_from
be_from-lt acc [] h = omega arith
be_from-lt acc (x ∷ xs) h =
    rw pow-suc
      (le_trans (be_from-lt (acc * 256 + x) xs h.1) (step_bound acc x (256 ^ length xs) h.0))

-- `k` bytes spell a number below 256 ^ k.
pub be_value-lt : (xs : Bytes) → IsBytes xs → be_value xs < 256 ^ length xs
unfolding be_value
be_value-lt xs h = omega (arith, be_from-lt 0 xs h)

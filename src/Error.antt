-- ===== src/Error.antt =====
-- The errors of zkauthn and zkauthz (zkauthn/service.go), and results that may be errors.
-- `fmt.Errorf` with %w keeps what `errors.Is` and `errors.As` find, so a wrapped error is the
-- error itself here; the cause inside a `kalerr.Error` is for logs only and is left out.
use kal_zk.Base.{
  Bytes, Bool, true, false, ◌≡◌, refl, String, codes, bytes_eq, not, ◌||◌, ◌⊎◌, inl, inr,
  if◌then◌else◌,
}

-- The codes of kalerr that the package uses.
pub data Code : Type 0 where
  forbidden invalid_input conflict rate_limited : Code
  invalid_proof invalid_credentials unauthenticated : Code

pub data Error : Type 0 where
  kal : Code → Error
  -- `pg.ErrNoRows`
  no_rows : Error
  -- An error of the server with its SQLSTATE.
  sql_state : Bytes → Error
  -- The connection or the server failed.
  driver : Error
  -- `errors.New` and `fmt.Errorf` with no error inside.
  plain : String → Error

pub data Result {ℓ} (A : Type ℓ) : Type ℓ where
  ok : A → Result A
  err : Error → Result A

-- `result_bind r f` goes on with the value of `r`, if it has one.
abbrev pub result_bind {ℓ κ} : {A : Type ℓ} {B : Type κ} → Result A → (A → Result B) → Result B
result_bind (ok a) f = f a
result_bind (err e) f = err e

pub Result-cases {ℓ} :
    {A : Type ℓ} (r : Result A) → ((a : A) × (r ≡ ok a)) ⊎ ((e : Error) × (r ≡ err e))
Result-cases (ok a) = inl (a, refl)
Result-cases (err e) = inr (e, refl)

-- A chain that succeeds succeeded at its first step.
pub result_bind-ok {ℓ κ} :
    {A : Type ℓ} {B : Type κ} (r : Result A) (f : A → Result B) {b : B}
    → result_bind r f ≡ ok b
    → (a : A) × (r ≡ ok a) × (f a ≡ ok b)
result_bind-ok (ok a) f h = (a, refl, h)
result_bind-ok (err e) f h = cc

-- A guard that was passed.
pub require-ok {ℓ} :
    {A : Type ℓ} {a : A} (e : Error) (b : Bool) (r : Result A)
    → (if b then r else err e) ≡ ok a
    → (b ≡ true) × (r ≡ ok a)
require-ok e true r h = (refl, h)
require-ok e false r h = cc

pub unless_not-ok {ℓ} :
    {A : Type ℓ} {a : A} (e : Error) (b : Bool) (r : Result A)
    → (if not b then err e else r) ≡ ok a
    → (b ≡ true) × (r ≡ ok a)
unless_not-ok e true r h = (refl, h)
unless_not-ok e false r h = cc

pub ok-injective {ℓ} : {A : Type ℓ} {a b : A} → ok a ≡ ok b → a ≡ b
ok-injective e = cc

-- `errors.Is(err, pg.ErrNoRows)`
abbrev pub is_no_rows : Error → Bool
is_no_rows no_rows = true
is_no_rows _ = false

unfoldable pub is_rate_limited : Error → Bool
is_rate_limited (kal rate_limited) = true
is_rate_limited _ = false

unfoldable pub no_rows_invalid : Error → Error
no_rows_invalid no_rows = kal invalid_proof
no_rows_invalid e = e

classify_state : Bytes → Error
classify_state s =
    if bytes_eq s (codes "22P02")
      || (bytes_eq s (codes "22003") || (bytes_eq s (codes "23503") || bytes_eq s (codes "23514")))
    then kal invalid_input
    else if bytes_eq s (codes "23505")
    then kal conflict
    else sql_state s

unfoldable pub classify_operator_write : Error → Error
unfolding classify_state
classify_operator_write (sql_state s) = classify_state s
classify_operator_write e = e

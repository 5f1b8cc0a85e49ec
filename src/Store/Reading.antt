-- ===== src/Store/Reading.antt =====
-- Runs that write nothing, alone on a connection that works, and what the values that they return
-- show; one rule for each way to build a run.
use kal_zk.Base.{◌≡◌, refl, ◌∙◌, subst, Bool, true, false, not, if◌then◌else◌}
use kal_zk.Error.{Error, Result, ok, err, ok-injective}
use kal_zk.Store.Exec.{World, M, pure, raise, lift, attempt, continue, ◌>>=◌}
use kal_zk.Tree.Invariant.{solo}

-- From `w`, the run leaves the world as it is, and `P` holds of a value that it returns.
pub record Shows {ℓ κ} {A : Type ℓ} (w : World) (P : A → Type κ) (m : M A) : Type (ℓ ⊔ κ) where
  pub same : (m (solo w)).1 ≡ solo w
  pub value : (a : A) → (m (solo w)).0 ≡ ok a → P a

module _ {ℓ κ} {A : Type ℓ} (w : World) (P : A → Type κ) where
  pub Shows-lift : (r : Result A) → ((a : A) → r ≡ ok a → P a) → Shows w P (lift r)
  Shows-lift r h = record { same = refl; value = h }

  pub Shows-pure : (a : A) → P a → Shows w P (pure a)
  Shows-pure a p = record { same = refl; value = λ b e. subst P (ok-injective e) p }

  pub Shows-raise : (e : Error) → Shows w P (raise e)
  Shows-raise e = record { same = refl; value = λ a h. cc }

  pub Shows-if :
      (b : Bool) (m k : M A)
      → (b ≡ true → Shows w P m)
      → (b ≡ false → Shows w P k)
      → Shows w P (if b then m else k)
  Shows-if true m k h h' = h refl
  Shows-if false m k h h' = h' refl

  -- A check that was passed.
  pub Shows-unless :
      (b : Bool) (e : Error) (k : M A)
      → (b ≡ true → Shows w P k)
      → Shows w P (if not b then raise e else k)
  Shows-unless true e k h = h refl
  Shows-unless false e k h = Shows-raise e

  pub Shows-weaken {μ} :
      (Q : A → Type μ) (m : M A) → Shows w Q m → ((a : A) → Q a → P a) → Shows w P m
  Shows-weaken Q m h k = record { same = h.same; value = λ a e. k a (h.value a e) }

-- A test that raises was passed.
pub Shows-when {κ} :
    (w : World) (P : Unit {0} → Type κ) (b : Bool) (e : Error)
    → (b ≡ true → P tt)
    → Shows w P (if b then pure tt else raise e)
Shows-when w P true e h = Shows-pure w P tt (h refl)
Shows-when w P false e h = Shows-raise w P e

module _ {ℓ κ μ} {A : Type ℓ} {B : Type μ} (w : World) (P : A → Type κ) where
  continue-Shows {ν} :
      (Q : B → Type ν) (f : A → M B)
      → ((a : A) → P a → Shows w Q (f a))
      → (r : Result A) (w' : World) → w' ≡ solo w
      → ((a : A) → r ≡ ok a → P a)
      → Shows w Q (λ _. continue f (r, w'))
  continue-Shows Q f k (ok a) w' e h = record {
    same = rw e ((k a (h a refl)).same);
    value = λ b eq. (k a (h a refl)).value b (rw e at eq);
  }
  continue-Shows Q f k (err x) w' e h = record { same = e; value = λ b eq. cc }

  pub Shows-bind {ν} :
      (Q : B → Type ν) (m : M A) (f : A → M B)
      → Shows w P m
      → ((a : A) → P a → Shows w Q (f a))
      → Shows w Q (m >>= f)
  Shows-bind Q m f h k =
      let done = continue-Shows Q f k (m (solo w)).0 (m (solo w)).1 h.same h.value in
      record { same = done.same; value = done.value }

-- The error as a value: a value that the run returned is as it shows.
pub Shows-attempt {ℓ κ} :
    {A : Type ℓ} (w : World) (P : A → Type κ) (m : M A)
    → Shows w P m
    → Shows w (λ r. (a : A) → r ≡ ok a → P a) (attempt m)
Shows-attempt w P m h = record {
  same = h.same;
  value = λ r e a ra. h.value a (ok-injective e ∙ ra);
}

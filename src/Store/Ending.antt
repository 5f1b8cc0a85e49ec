-- ===== src/Store/Ending.antt =====
-- What a run that succeeds has done; one rule for each way to build a run.
use kal_zk.Base.{
  ◌≡◌, refl, ◌∙◌, subst, sym, ap, List, [], ◌∷◌, Bool, true, false, not, if◌then◌else◌,
}
use kal_zk.Error.{Error, Result, ok, err, ok-injective}
use kal_zk.Store.Exec.{
  World, M, pure, raise, lift, finish, commit, Event, quiet, fails, commits, continue, ◌>>=◌, pool,
  with_tx,
}
use kal_zk.Store.Reading.{Shows}
use kal_zk.Tree.Invariant.{solo}

-- If the run from `w` returns a value, `P` holds of it and of the world that is left.
pub record Ends {ℓ κ} {A : Type ℓ} (w : World) (P : A → World → Type κ) (m : M A)
    : Type (ℓ ⊔ κ) where
  pub value : (a : A) (w' : World) → m w ≡ (ok a, w') → P a w'

module _ {ℓ κ} {A : Type ℓ} (w : World) (P : A → World → Type κ) where
  pub Ends-lift : (r : Result A) → ((a : A) → r ≡ ok a → P a w) → Ends w P (lift r)
  Ends-lift r h = record { value = λ a w' e. subst (P a) (ap (λ x. x.1) e) (h a (ap (λ x. x.0) e)) }

  pub Ends-pure : (a : A) → P a w → Ends w P (pure a)
  Ends-pure a p = record {
    value = λ b w' e.
        let same = ok-injective (ap (λ x. x.0) e) in
        subst (P b) (ap (λ x. x.1) e) (subst (λ x. P x w) same p);
  }

  pub Ends-raise : (e : Error) → Ends w P (raise e)
  Ends-raise x = record { value = λ a w' e. (let clash = ap (λ y. y.0) e in cc) }

  -- A run whose outcome is known.
  pub Ends-by : (m : M A) (a : A) (w' : World) → m w ≡ (ok a, w') → P a w' → Ends w P m
  Ends-by m a w' run p = record {
    value = λ b w'' e.
        let both = sym run ∙ e in
        let same = ok-injective (ap (λ x. x.0) both) in
        subst (P b) (ap (λ x. x.1) both) (subst (λ x. P x w') same p);
  }

  pub Ends-weaken {μ} :
      (Q : A → World → Type μ) (m : M A)
      → Ends w Q m
      → ((a : A) (w' : World) → Q a w' → P a w')
      → Ends w P m
  Ends-weaken Q m h k = record { value = λ a w' e. k a w' (h.value a w' e) }

  pub Ends-never : (m : M A) (x : Error) → (m w).0 ≡ err x → Ends w P m
  Ends-never m x run = record { value = λ b w'' e. (let both = sym run ∙ ap (λ y. y.0) e in cc) }

-- The world may be given by an equation.
pub Ends-at {ℓ κ} :
    {A : Type ℓ} {w w' : World} {P : A → World → Type κ} {m : M A}
    → w' ≡ w
    → Ends w P m
    → Ends w' P m
Ends-at {P = P} {m = m} e h = subst (λ x. Ends x P m) (sym e) h

module _ {ℓ κ μ ν} {A : Type ℓ} {B : Type μ} (w : World) (P : A → World → Type κ) where
  continue-Ends :
      (Q : B → World → Type ν) (f : A → M B) (r : Result A) (w' : World)
      → ((a : A) → r ≡ ok a → Ends w' Q (f a))
      → (b : B) (w'' : World) → continue f (r, w') ≡ (ok b, w'')
      → Q b w''
  continue-Ends Q f (ok a) w' k b w'' e = (k a refl).value b w'' e
  continue-Ends Q f (err x) w' k b w'' e = let clash = ap (λ y. y.0) e in cc

  pub Ends-bind :
      (Q : B → World → Type ν) (m : M A) (f : A → M B)
      → Ends w P m
      → ((a : A) (w' : World) → P a w' → Ends w' Q (f a))
      → Ends w Q (m >>= f)
  Ends-bind Q m f h k = record {
    value =
        continue-Ends Q f (m w).0 (m w).1
          (λ a e. k a (m w).1 (h.value a (m w).1 (λ i. (e i, (m w).1))));
  }

-- A run that writes nothing.
pub Ends-of_Shows {ℓ κ} :
    {A : Type ℓ} (w : World) (P : A → Type κ) (m : M A)
    → Shows w P m
    → Ends (solo w) (λ a w'. P a × (w' ≡ solo w)) m
Ends-of_Shows w P m h = record {
  value = λ a w' e. (h.value a (ap (λ x. x.0) e), sym (ap (λ x. x.1) e) ∙ h.same);
}

-- The world after a commit that nothing disturbs.
abbrev pub committed : World → World
committed w = record w { base = w.db; schedule = [] }

module _ {ℓ κ} {A : Type ℓ} (P : A → World → Type κ) where
  finish-Ends :
      (r : Result A) (w' : World)
      → ((a : A) → r ≡ ok a → (w'.schedule ≡ []) × P a (committed w'))
      → (a : A) (w'' : World) → finish (r, w') ≡ (ok a, w'')
      → P a w''
  finish-Ends (err x) w' h a w'' e = let clash = ap (λ y. y.0) e in cc
  finish-Ends (ok x) w' h a w'' e =
      let (alone, p) = h x refl in
      let run = rw alone at e in
      let same = ok-injective (ap (λ y. y.0) run) in
      subst (P a) (ap (λ y. y.1) run) (subst (λ y. P y (committed w')) same p)

  -- A transaction that succeeds has run to its end, and was committed.
  pub Ends-with_tx :
      (w : World) (m : M A)
      → Ends (committed w) (λ a w'. (w'.schedule ≡ []) × P a (committed w')) m
      → Ends (solo w) P (with_tx pool m)
  unfolding with_tx
  Ends-with_tx w m h = record {
    value = λ a w' e.
        let begun = m (committed w) in
        finish-Ends begun.0 begun.1 (λ b eq. h.value b begun.1 (λ i. (eq i, begun.1))) a w' e;
  }

module _ {ℓ} {A : Type ℓ} where
  commit-value :
      (x : A) (w : World) (events : List Event) (a : A) (w' : World)
      → commit x w events ≡ (ok a, w')
      → x ≡ a
  commit-value x w [] a w' e = ok-injective (ap (λ y. y.0) e)
  commit-value x w (quiet ∷ es) a w' e = ok-injective (ap (λ y. y.0) e)
  commit-value x w (fails ∷ es) a w' e = let clash = ap (λ y. y.0) e in cc
  commit-value x w (commits g ∷ es) a w' e = ok-injective (ap (λ y. y.0) e)

  finish-value :
      (r : Result A) (w : World) (a : A) (w' : World) → finish (r, w) ≡ (ok a, w') → r ≡ ok a
  finish-value (ok x) w a w' e = ap ok (commit-value x w w.schedule a w' e)
  finish-value (err x) w a w' e = let clash = ap (λ y. y.0) e in cc

-- What a transaction returns, whatever happens at its end.
pub Ends-with_tx_value {ℓ κ} :
    {A : Type ℓ} (P : A → Type κ) (w : World) (m : M A)
    → Ends (committed w) (λ a _. P a) m
    → Ends (solo w) (λ a _. P a) (with_tx pool m)
unfolding with_tx
Ends-with_tx_value P w m h = record {
  value = λ a w' e.
      let same = finish-value (m (committed w)).0 (m (committed w)).1 a w' e in
      h.value a (m (committed w)).1 (λ i. (same i, (m (committed w)).1));
}

-- A test that raises was passed.
pub Ends-when {κ} :
    (w : World) (P : Unit {0} → World → Type κ) (b : Bool) (e : Error)
    → (b ≡ true → P tt w)
    → Ends w P (if b then pure tt else raise e)
Ends-when w P true e h = Ends-pure w P tt (h refl)
Ends-when w P false e h = Ends-raise w P e

pub Ends-unless {ℓ κ} :
    {A : Type ℓ} (w : World) (P : A → World → Type κ) (b : Bool) (e : Error) (m : M A)
    → (b ≡ true → Ends w P m)
    → Ends w P (if not b then raise e else m)
Ends-unless w P true e m h = h refl
Ends-unless w P false e m h = Ends-raise w P e

-- All that is known of a run that comes from elsewhere.
pub Ends-self {ℓ} : {A : Type ℓ} (w : World) (m : M A) → Ends w (λ a w'. m w ≡ (ok a, w')) m
Ends-self w m = record { value = λ a w' e. e }

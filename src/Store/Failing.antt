-- ===== src/Store/Failing.antt =====
-- What a run that fails has left.
use kal_zk.Base.{◌≡◌, refl, sym, ap, ◌∙◌, subst}
use kal_zk.Error.{Error, Result, ok, err}
use kal_zk.Store.Exec.{World, M, lift, continue, ◌>>=◌, pool, with_tx}
use kal_zk.Store.Reading.{Shows}
use kal_zk.Store.Ending.{Ends}
use kal_zk.Store.Rollback.{IsTransactional, with_tx-rollback}
use kal_zk.Tree.Invariant.{solo}

-- If the run from `w` fails, `P` holds of the world that is left.
pub record Fails {ℓ κ} {A : Type ℓ} (w : World) (P : World → Type κ) (m : M A) : Type (ℓ ⊔ κ) where
  pub left : (e : Error) (w' : World) → m w ≡ (err e, w') → P w'

pub Fails-at {ℓ κ} :
    {A : Type ℓ} {w w' : World} {P : World → Type κ} {m : M A} → w' ≡ w → Fails w P m → Fails w' P m
Fails-at {P = P} {m = m} e h = subst (λ x. Fails x P m) (sym e) h

pub Fails-lift {ℓ κ} :
    {A : Type ℓ} (w : World) (P : World → Type κ) (r : Result A) → P w → Fails w P (lift r)
Fails-lift w P r p = record { left = λ e w' h. subst P (ap (λ x. x.1) h) p }

pub Fails-of_Shows {ℓ κ μ} :
    {A : Type ℓ} (w : World) (Q : A → Type μ) (P : World → Type κ) (m : M A)
    → Shows w Q m
    → P (solo w)
    → Fails (solo w) P m
Fails-of_Shows w Q P m h p = record {
  left = λ e w' run. subst P (sym h.same ∙ ap (λ x. x.1) run) p;
}

module _ {ℓ κ μ ν} {A : Type ℓ} {B : Type μ} (w : World) (Q : A → World → Type ν)
    (P : World → Type κ) where
  continue-Fails :
      (f : A → M B) (r : Result A) (w' : World)
      → ((x : Error) → r ≡ err x → P w')
      → ((a : A) → r ≡ ok a → Fails w' P (f a))
      → (e : Error) (w'' : World) → continue f (r, w') ≡ (err e, w'')
      → P w''
  continue-Fails f (ok a) w' h k e w'' run = (k a refl).left e w'' run
  continue-Fails f (err x) w' h k e w'' run = subst P (ap (λ y. y.1) run) (h x refl)

  pub Fails-bind :
      (m : M A) (f : A → M B)
      → Fails w P m
      → Ends w Q m
      → ((a : A) (w' : World) → Q a w' → Fails w' P (f a))
      → Fails w P (m >>= f)
  Fails-bind m f h g k = record {
    left =
        continue-Fails f (m w).0 (m w).1 (λ x e. h.left x (m w).1 (λ i. (e i, (m w).1)))
          (λ a e. k a (m w).1 (g.value a (m w).1 (λ i. (e i, (m w).1))));
  }

pub Fails-with_tx {ℓ} :
    {A : Type ℓ} (w : World) (m : M A)
    → IsTransactional m
    → Fails (solo w) (λ w'. w'.db ≡ w.db) (with_tx pool m)
Fails-with_tx w m h = record { left = λ e w' run. with_tx-rollback m w h run }

-- ===== src/Store/Rollback.antt =====
-- Transactions that fail (withTx of zkauthn/service.go): their statements move no point of return.
use kal_zk.Base.{◌≡◌, refl, ap, ◌∙◌, [], inl, inr}
use kal_zk.Error.{Error, Result, ok, err, Result-cases}
use kal_zk.Store.{Db}
use kal_zk.Store.Exec.{
  World, M, Statement, query, lift, attempt, finish, continue, ◌>>=◌, pool, with_tx,
}
use kal_zk.Tree.Invariant.{solo}

-- Where a rollback returns to, and that nobody else is there.
abbrev Kept : World → World → Type 0
Kept w w' = (w'.base ≡ w.base) × (w'.schedule ≡ [])

-- A run that starts alone.
pub record IsTransactional {ℓ} {A : Type ℓ} (m : M A) : Type 0 where
  pub keeps : (w : World) → w.schedule ≡ [] → Kept w (m w).1

module _ {ℓ κ} {A : Type ℓ} {B : Type κ} (f : A → M B) (k : (a : A) → IsTransactional (f a)) where
  continue-Kept :
      (w : World) (r : Result A) (w' : World) → Kept w w' → Kept w (continue f (r, w')).1
  continue-Kept w (err e) w' h = h
  continue-Kept w (ok a) w' (base, alone) =
      let (base', alone') = (k a).keeps w' alone in (base' ∙ base, alone')

  pub bind-IsTransactional : (m : M A) → IsTransactional m → IsTransactional (m >>= f)
  bind-IsTransactional m h = record {
    keeps = λ w alone. continue-Kept w (m w).0 (m w).1 (h.keeps w alone);
  }

module _ {ℓ} {A : Type ℓ} where
  pub query-IsTransactional : (q : Statement A) → IsTransactional (query q)
  unfolding query
  query-IsTransactional q = record {
    keeps = λ w alone. elim (Result-cases (q w.now w.db)) [
      | inl ((a, d), answer) ↦ rw (alone, answer) (refl, refl)
      | inr (e, answer) ↦ rw (alone, answer) (refl, refl)
    ];
  }

  pub lift-IsTransactional : (r : Result A) → IsTransactional (lift r)
  lift-IsTransactional r = record { keeps = λ w alone. (refl, alone) }

  pub attempt-IsTransactional : (m : M A) → IsTransactional m → IsTransactional (attempt m)
  attempt-IsTransactional m h = record { keeps = λ w alone. h.keeps w alone }

  finish-err :
      (d : Db) (r : Result A) (w' : World) {e : Error} {end : World}
      → (w'.base ≡ d) × (w'.schedule ≡ [])
      → finish (r, w') ≡ (err e, end)
      → end.db ≡ d
  finish-err d (err x) w' (base, alone) done = rw (← ap (λ x. x.1) done) base
  finish-err d (ok a) w' (base, alone) done = let clash = ap (λ x. x.0) (rw alone at done) in cc

  -- A transaction that fails leaves the tables as they were.
  pub with_tx-rollback :
      (m : M A) (w : World) {e : Error} {w' : World}
      → IsTransactional m
      → with_tx pool m (solo w) ≡ (err e, w')
      → w'.db ≡ w.db
  unfolding with_tx
  with_tx-rollback m w h done =
      let begun = record w { base = w.db; schedule = [] } in
      finish-err w.db (m begun).0 (m begun).1 (h.keeps begun refl) done

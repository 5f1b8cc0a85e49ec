-- ===== src/Service/Slots.antt =====
-- Verifications at the same time (zkauthn/service.go: acquire and verify). The semaphore of
-- golang.org/x/sync is the record `Weighted`, and what the code relies on is `LawfulWeighted`.
pub mod Bounded
pub mod Ending
use kal_zk.Base.{
  ℕ, suc, ◌+◌, ◌-◌, ◌≤◌, ◌<◌, ◌≡◌, Bool, true, false, if◌then◌else◌, List, [], ◌∷◌, ◌++◌, Option,
  none, some,
}
use kal_zk.Error.{Result, ok, err, kal, rate_limited}

pub record Weighted (S : Type 0) : Type 0 where
  -- How much is held.
  pub held : S → ℕ
  -- A unit that is granted at once; `none` is to wait.
  pub take : S → Option S
  pub release : S → S

-- It is documented that no more than its size is held, that a unit which is free is granted, and that
-- a release gives one back.
pub record LawfulWeighted (S : Type 0) (w : Weighted S) (limit : ℕ) : Type 0 where
  pub grants : (s t : S) → w.take s ≡ some t → (w.held t ≡ w.held s + 1) × (w.held t ≤ limit)
  pub waits : (s : S) → w.take s ≡ none → limit ≤ w.held s
  pub gives_back : (s : S) → 0 < w.held s → w.held (w.release s) + 1 ≡ w.held s

-- A call of `verify`: it asks for a slot, and its wait has expired or not; it has one, and gnark has
-- answered or not; or it has returned.
pub data Phase : Type 0 where
  asking : Bool → Phase
  verifying : Option (Result (Unit {0})) → Phase
  done : Result (Unit {0}) → Phase

-- `if err := z.acquire(ctx); err != nil`
abbrev pub after_acquire : Result (Unit {0}) → Phase
after_acquire (ok _) = verifying none
after_acquire (err e) = done (err e)

pub record System (S : Type 0) : Type 0 where
  pub sem : S
  pub calls : List Phase

module _ (S : Type 0) (w : Weighted S) where
  -- `acquire`, when its wait has expired and when it has not; `none` is to wait on.
  unfoldable pub acquire : Bool → S → Option (Result (Unit {0}) × S)
  acquire true s = some (err (kal rate_limited), s)
  acquire false s = elim (w.take s) [ none ↦ none | some t ↦ some (ok tt, t) ]

  -- A step of the code in one of the calls.
  pub data Work (s t : System S) : Type 0 where
    ask :
        (xs ys : List Phase) (expired : Bool) (answer : Result (Unit {0})) (sem : S)
        → s.calls ≡ xs ++ (asking expired ∷ ys)
        → acquire expired s.sem ≡ some (answer, sem)
        → t ≡ record { sem = sem; calls = xs ++ (after_acquire answer ∷ ys) }
        → Work s t
    -- The deferred release, and the return with what gnark answered.
    finish :
        (xs ys : List Phase) (answer : Result (Unit {0}))
        → s.calls ≡ xs ++ (verifying (some answer) ∷ ys)
        → t ≡ record { sem = w.release s.sem; calls = xs ++ (done answer ∷ ys) }
        → Work s t

  -- What happens to the calls: a wait expires, gnark answers, or the code goes on.
  pub data Change (s t : System S) : Type 0 where
    expire :
        (xs ys : List Phase)
        → s.calls ≡ xs ++ (asking false ∷ ys)
        → t ≡ record s { calls = xs ++ (asking true ∷ ys) }
        → Change s t
    reply :
        (xs ys : List Phase) (answer : Result (Unit {0}))
        → s.calls ≡ xs ++ (verifying none ∷ ys)
        → t ≡ record s { calls = xs ++ (verifying (some answer) ∷ ys) }
        → Change s t
    go_on : Work s t → Change s t

  -- Some changes in a row, without a new call.
  pub data Works (s : System S) : ℕ → System S → Type 0 where
    none_yet : Works s 0 s
    one_more : {k : ℕ} {t u : System S} → Works s k t → Change t u → Works s (suc k) u

  pub data Step (s t : System S) : Type 0 where
    arrive : t ≡ record s { calls = asking false ∷ s.calls } → Step s t
    change : Change s t → Step s t

  -- The states that a service reaches from the start.
  pub data Reach (start : S) : System S → Type 0 where
    fresh : Reach start (record { sem = start; calls = [] })
    later : {s t : System S} → Reach start s → Step s t → Reach start t

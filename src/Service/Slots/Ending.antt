-- ===== src/Service/Slots/Ending.antt =====
-- Every call of `verify` ends, and gives its slot back; none has to wait for its expiry.
use mathlib.Core.List.{append_assoc}
use kal_zk.Base.{
  ℕ, ◌+◌, ◌≤◌, ◌<◌, ◌≡◌, ◌⊎◌, inl, inr, refl, sym, ap, ◌∙◌, Bool, true, false, List, [], ◌∷◌, ◌++◌,
  Option, none, some, All, arith,
}
use kal_zk.Error.{Result, ok, err, kal, rate_limited}
use kal_zk.Service.Slots.{
  Weighted, LawfulWeighted, Phase, asking, verifying, done, after_acquire, System, acquire, Work,
  ask, finish, Change, expire, reply, go_on, Works, none_yet, one_more, change, Reach, later,
}
use kal_zk.Service.Slots.Bounded.{at_work, Reach-IsFair, Reach-admits}

-- The changes that the calls have yet to see, at most.
abbrev pub steps_left : List Phase → ℕ
steps_left [] = 0
steps_left (asking false ∷ ps) = 3 + steps_left ps
steps_left (asking true ∷ ps) = 1 + steps_left ps
steps_left (verifying none ∷ ps) = 2 + steps_left ps
steps_left (verifying (some r) ∷ ps) = 1 + steps_left ps
steps_left (done r ∷ ps) = steps_left ps

steps_left-append : (xs ys : List Phase) → steps_left (xs ++ ys) ≡ steps_left xs + steps_left ys
steps_left-append [] ys = omega arith
steps_left-append (asking false ∷ xs) ys = omega (arith, steps_left-append xs ys)
steps_left-append (asking true ∷ xs) ys = omega (arith, steps_left-append xs ys)
steps_left-append (verifying none ∷ xs) ys = omega (arith, steps_left-append xs ys)
steps_left-append (verifying (some r) ∷ xs) ys = omega (arith, steps_left-append xs ys)
steps_left-append (done r ∷ xs) ys = steps_left-append xs ys

-- A call in this phase, and what stands around it.
abbrev pub Stands : Phase → List Phase → Type 0
Stands p ps = (xs : List Phase) × (ys : List Phase) × (ps ≡ xs ++ (p ∷ ys))

-- The call has its answer.
abbrev pub IsDone : Phase → Type 0
IsDone (asking expired) = ⊥
IsDone (verifying answer) = ⊥
IsDone (done r) = Unit

-- The phases of which one call at least has no answer.
data Open (ps : List Phase) : Type 0 where
  asks : (expired : Bool) → Stands (asking expired) ps → Open ps
  verifies : (answer : Option (Result (Unit {0}))) → Stands (verifying answer) ps → Open ps

first_open : (ps xs ys : List Phase) → ps ≡ xs ++ ys → All IsDone ys ⊎ Open ps
first_open ps xs [] e = inl tt
first_open ps xs (asking expired ∷ ys) e = inr (asks expired (xs, ys, e))
first_open ps xs (verifying answer ∷ ys) e = inr (verifies answer (xs, ys, e))
first_open ps xs (done r ∷ ys) e =
    elim (first_open ps (xs ++ (done r ∷ [])) ys (e ∙ sym (append_assoc xs (done r ∷ []) ys))) [
      | inl answered ↦ inl (tt, answered)
      | inr more ↦ inr more
    ]

busy :
    (ps : List Phase)
    → 0 < at_work ps
    → (answer : Option (Result (Unit {0}))) × Stands (verifying answer) ps
busy [] h = absurd (omega (arith, h))
busy (asking expired ∷ ps) h =
    let (answer, (xs, ys, e)) = busy ps h in
    (answer, (asking expired ∷ xs, ys, ap (λ l. asking expired ∷ l) e))
busy (verifying answer ∷ ps) h = (answer, ([], ps, refl))
busy (done r ∷ ps) h =
    let (answer, (xs, ys, e)) = busy ps h in (answer, (done r ∷ xs, ys, ap (λ l. done r ∷ l) e))

at_work-done : (ps : List Phase) → All IsDone ps → at_work ps ≡ 0
at_work-done [] h = refl
at_work-done (asking expired ∷ ps) (never, h) = absurd never
at_work-done (verifying answer ∷ ps) (never, h) = absurd never
at_work-done (done r ∷ ps) (_, h) = at_work-done ps h

after_acquire-steps_left :
    (expired : Bool) (answer : Result (Unit {0})) (ys : List Phase)
    → (answer ≡ ok tt → expired ≡ false)
    → steps_left (after_acquire answer ∷ ys) < steps_left (asking expired ∷ ys)
after_acquire-steps_left false (ok _) ys h = omega arith
after_acquire-steps_left false (err e) ys h = omega arith
after_acquire-steps_left true (ok _) ys h = (let clash = h refl in cc)
after_acquire-steps_left true (err e) ys h = omega arith

module _ (S : Type 0) (w : Weighted S) where
  acquire-in_time :
      (expired : Bool) (s t : S) (answer : Result (Unit {0}))
      → acquire S w expired s ≡ some (answer, t)
      → answer ≡ ok tt
      → expired ≡ false
  unfolding acquire
  acquire-in_time false s t answer h e = refl
  acquire-in_time true s t answer h e = cc

  Change-steps_left : (s t : System S) → Change S w s t → steps_left t.calls < steps_left s.calls
  Change-steps_left s t (expire xs ys there e) =
      let before = ap steps_left there ∙ steps_left-append xs (asking false ∷ ys) in
      let after = ap (λ x. steps_left x.calls) e ∙ steps_left-append xs (asking true ∷ ys) in
      omega (arith, before, after)
  Change-steps_left s t (reply xs ys answer there e) =
      let before = ap steps_left there ∙ steps_left-append xs (verifying none ∷ ys) in
      let after =
        ap (λ x. steps_left x.calls) e ∙ steps_left-append xs (verifying (some answer) ∷ ys) in
      omega (arith, before, after)
  Change-steps_left s t (go_on (ask xs ys expired answer sem there got e)) =
      let before = ap steps_left there ∙ steps_left-append xs (asking expired ∷ ys) in
      let after =
        ap (λ x. steps_left x.calls) e ∙ steps_left-append xs (after_acquire answer ∷ ys) in
      let less =
        after_acquire-steps_left expired answer ys (acquire-in_time expired s.sem sem answer got) in
      omega (arith, before, after, less)
  Change-steps_left s t (go_on (finish xs ys answer there e)) =
      let before = ap steps_left there ∙ steps_left-append xs (verifying (some answer) ∷ ys) in
      let after = ap (λ x. steps_left x.calls) e ∙ steps_left-append xs (done answer ∷ ys) in
      omega (arith, before, after)

  Works-steps_left :
      {s t : System S} {k : ℕ} → Works S w s k t → k + steps_left t.calls ≤ steps_left s.calls
  Works-steps_left none_yet = omega arith
  Works-steps_left (one_more {k} {t} {u} ws c) =
      omega (arith, Works-steps_left ws, Change-steps_left t u c)

  Works-Reach :
      (start : S) {s t : System S} {k : ℕ} → Reach S w start s → Works S w s k t → Reach S w start t
  Works-Reach start r none_yet = r
  Works-Reach start r (one_more {k} {t} {u} ws c) = later (Works-Reach start r ws) (change c)

  finish_step :
      (t : System S) (answer : Result (Unit {0}))
      → Stands (verifying (some answer)) t.calls
      → (u : System S) × Work S w t u
  finish_step t answer (xs, ys, e) = (
    record { sem = w.release t.sem; calls = xs ++ (done answer ∷ ys) },
    finish xs ys answer e refl,
  )

  -- A verification goes on, or gnark has it.
  verifying_step :
      (t : System S) (answer : Option (Result (Unit {0})))
      → Stands (verifying answer) t.calls
      → ((u : System S) × Work S w t u) ⊎ Stands (verifying none) t.calls
  verifying_step t none there = inr there
  verifying_step t (some answer) there = inl (finish_step t answer there)

  refuse_step : (t : System S) → Stands (asking true) t.calls → (u : System S) × Work S w t u
  unfolding acquire
  refuse_step t (xs, ys, e) = (
    record { sem = t.sem; calls = xs ++ (done (err (kal rate_limited)) ∷ ys) },
    ask xs ys true (err (kal rate_limited)) t.sem e refl refl,
  )

  module _ (limit : ℕ) (laws : LawfulWeighted S w limit) (some_slot : 0 < limit) where
    open_step :
        (start : S) (t : System S)
        → w.held start ≡ 0
        → Reach S w start t
        → Open t.calls
        → ((u : System S) × Work S w t u) ⊎ Stands (verifying none) t.calls
    open_step start t empty r (asks true there) = inl (refuse_step t there)
    open_step start t empty r (asks false (xs, ys, e)) =
        elim (Reach-admits S w limit laws start t xs ys empty r e) [
          | inl (u, work, _) ↦ inl (u, work)
          | inr full ↦
              let (answer, there) = busy t.calls (omega (arith, full, some_slot)) in
              verifying_step t answer there
        ]
    open_step start t empty r (verifies answer there) = verifying_step t answer there

    -- From any state that the calls of verify reach from a semaphore with nothing held and a limit
    -- above zero, a run without new calls is no longer than three changes for each call (an expiry
    -- and a refusal, or an admission, an answer of gnark and the return); and at each point of it,
    -- either every call has its answer and no slot is held, or the code can take a step, or gnark
    -- has a proof to answer for: so no call needs the expiry of its wait to end.
    pub Works-end :
        (start : S) (s t : System S) (k : ℕ)
        → w.held start ≡ 0
        → Reach S w start s
        → Works S w s k t
        → (k + steps_left t.calls ≤ steps_left s.calls)
          × (((All IsDone t.calls) × (w.held t.sem ≡ 0))
              ⊎ (((u : System S) × Work S w t u) ⊎ Stands (verifying none) t.calls))
    Works-end start s t k empty r ws =
        let here = Works-Reach start r ws in
        let fair = Reach-IsFair S w limit laws start empty here in
        (
          Works-steps_left ws,
          elim (first_open t.calls [] t.calls refl) [
            | inl answered ↦ inl (answered, fair.held ∙ at_work-done t.calls answered)
            | inr more ↦ inr (open_step start t empty here more)
          ],
        )

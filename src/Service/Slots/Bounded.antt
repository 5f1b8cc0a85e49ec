-- ===== src/Service/Slots/Bounded.antt =====
-- No more verifications at work than the limit, in every reachable state; and none is lost.
use kal_zk.Base.{
  Bool, none, ℕ, suc, ◌+◌, ◌≤◌, ◌≡◌, ◌⊎◌, inl, inr, refl, sym, ap, ◌∙◌, subst, true, false, List,
  [], ◌∷◌, ◌++◌, some, arith, Option-cases,
}
use kal_zk.Error.{Error, Result, ok, err, kal, rate_limited}
use kal_zk.Service.Slots.{
  Weighted, LawfulWeighted, Phase, asking, verifying, done, after_acquire, System, acquire, Work,
  ask, finish, Change, expire, reply, go_on, Step, arrive, change, Reach, fresh, later,
}

-- The verifications at work.
abbrev pub at_work : List Phase → ℕ
at_work [] = 0
at_work (asking expired ∷ ps) = at_work ps
at_work (verifying answer ∷ ps) = suc (at_work ps)
at_work (done r ∷ ps) = at_work ps

pub at_work-append : (xs ys : List Phase) → at_work (xs ++ ys) ≡ at_work xs + at_work ys
at_work-append [] ys = omega arith
at_work-append (asking expired ∷ xs) ys = at_work-append xs ys
at_work-append (verifying answer ∷ xs) ys = omega (arith, at_work-append xs ys)
at_work-append (done r ∷ xs) ys = at_work-append xs ys

module _ (S : Type 0) (w : Weighted S) (limit : ℕ) (laws : LawfulWeighted S w limit) where
  -- Each verification at work holds one unit, and no other call holds any.
  pub record IsFair (s : System S) : Type 0 where
    pub held : w.held s.sem ≡ at_work s.calls
    pub within : w.held s.sem ≤ limit

  acquire-granted :
      (s t : S)
      → acquire S w false s ≡ some (ok tt, t)
      → (w.held t ≡ w.held s + 1) × (w.held t ≤ limit)
  unfolding acquire
  acquire-granted s t h = elim (Option-cases (w.take s)) [
    | inl wait ↦ cc (rw (acquire, wait) at h)
    | inr (u, granted) ↦ laws.grants s t (granted ∙ cc (rw (acquire, granted) at h))
  ]

  acquire-answers : (s t : S) (e : Error) → acquire S w false s ≡ some (err e, t) → ⊥
  unfolding acquire
  acquire-answers s t e h = elim (Option-cases (w.take s)) [
    | inl wait ↦ (let clash = rw (acquire, wait) at h in cc)
    | inr (u, granted) ↦ (let clash = rw (acquire, granted) at h in cc)
  ]

  acquire-refused :
      (s t : S) (answer : Result (Unit {0}))
      → acquire S w true s ≡ some (answer, t)
      → (t ≡ s) × (answer ≡ err (kal rate_limited))
  unfolding acquire
  acquire-refused s t answer h = (cc, cc)

  -- What a call that asks gets: a slot, or a refusal without one.
  ask-IsFair :
      (s t : System S) (xs ys : List Phase) (expired : Bool) (answer : Result (Unit {0})) (sem : S)
      → s.calls ≡ xs ++ (asking expired ∷ ys)
      → acquire S w expired s.sem ≡ some (answer, sem)
      → IsFair s
      → IsFair (record { sem = sem; calls = xs ++ (after_acquire answer ∷ ys) })
  ask-IsFair s t xs ys true (ok _) sem there got f =
      let clash = (acquire-refused s.sem sem (ok tt) got).1 in cc
  ask-IsFair s t xs ys true (err e) sem there got f =
      let same = ap w.held (acquire-refused s.sem sem (err e) got).0 in
      let before = ap at_work there ∙ at_work-append xs (asking true ∷ ys) in
      let after = at_work-append xs (done (err e) ∷ ys) in
      record {
        held = omega (arith, same, before, after, f.held);
        within = omega (arith, same, f.within);
      }
  ask-IsFair s t xs ys false (ok _) sem there got f =
      let (more, bound) = acquire-granted s.sem sem got in
      let before = ap at_work there ∙ at_work-append xs (asking false ∷ ys) in
      let after = at_work-append xs (verifying none ∷ ys) in
      record { held = omega (arith, more, before, after, f.held); within = bound }
  ask-IsFair s t xs ys false (err e) sem there got f = absurd (acquire-answers s.sem sem e got)

  Work-IsFair : (s t : System S) → Work S w s t → IsFair s → IsFair t
  Work-IsFair s t (ask xs ys expired answer sem there got e) f =
      subst IsFair (sym e) (ask-IsFair s t xs ys expired answer sem there got f)
  Work-IsFair s t (finish xs ys answer there e) f =
      let before = ap at_work there ∙ at_work-append xs (verifying (some answer) ∷ ys) in
      let after = at_work-append xs (done answer ∷ ys) in
      let freed = laws.gives_back s.sem (omega (arith, before, f.held)) in
      subst IsFair (sym e) (record {
        held = omega (arith, freed, before, after, f.held);
        within = omega (arith, freed, f.within);
      })

  Change-IsFair : (s t : System S) → Change S w s t → IsFair s → IsFair t
  Change-IsFair s t (expire xs ys there e) f =
      let before = ap at_work there ∙ at_work-append xs (asking false ∷ ys) in
      let after = at_work-append xs (asking true ∷ ys) in
      subst IsFair (sym e)
        (record { held = omega (arith, before, after, f.held); within = f.within })
  Change-IsFair s t (reply xs ys answer there e) f =
      let before = ap at_work there ∙ at_work-append xs (verifying none ∷ ys) in
      let after = at_work-append xs (verifying (some answer) ∷ ys) in
      subst IsFair (sym e)
        (record { held = omega (arith, before, after, f.held); within = f.within })
  Change-IsFair s t (go_on work) f = Work-IsFair s t work f

  Step-IsFair : (s t : System S) → Step S w s t → IsFair s → IsFair t
  Step-IsFair s t (arrive e) f = subst IsFair (sym e) (record { held = f.held; within = f.within })
  Step-IsFair s t (change c) f = Change-IsFair s t c f

  pub Reach-IsFair : (start : S) → w.held start ≡ 0 → {s : System S} → Reach S w start s → IsFair s
  Reach-IsFair start empty fresh = record { held = empty; within = omega (arith, empty) }
  Reach-IsFair start empty (later {s} {t} r step) =
      Step-IsFair s t step (Reach-IsFair start empty r)

  -- However the calls of verify interleave, from a semaphore with nothing held, there are never
  -- more of them at work than the limit, and what is held is exactly the number that is at work,
  -- so no slot is lost.
  pub Reach-at_work :
      (start : S) (s : System S)
      → w.held start ≡ 0
      → Reach S w start s
      → (at_work s.calls ≤ limit) × (w.held s.sem ≡ at_work s.calls)
  Reach-at_work start s empty r =
      let f = Reach-IsFair start empty r in (omega (arith, f.held, f.within), f.held)

  -- However the calls of verify have interleaved, from a semaphore with nothing held, a call that
  -- asks for a slot, and whose wait has not expired, can be admitted at once, unless as many calls
  -- as the limit are at work.
  pub Reach-admits :
      (start : S) (s : System S) (xs ys : List Phase)
      → w.held start ≡ 0
      → Reach S w start s
      → s.calls ≡ xs ++ (asking false ∷ ys)
      → ((t : System S) × Work S w s t × (t.calls ≡ xs ++ (verifying none ∷ ys)))
        ⊎ (at_work s.calls ≡ limit)
  unfolding acquire
  Reach-admits start s xs ys empty r there =
      let f = Reach-IsFair start empty r in
      elim (Option-cases (w.take s.sem)) [
        | inl wait ↦ inr (omega (arith, f.held, f.within, laws.waits s.sem wait))
        | inr (sem, granted) ↦ inl (
          record { sem = sem; calls = xs ++ (verifying none ∷ ys) },
          ask xs ys false (ok tt) sem there (rw (acquire, granted) refl) refl,
          refl,
        )
      ]

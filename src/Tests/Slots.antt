-- ===== src/Tests/Slots.antt =====
-- Verifications under a counting semaphore of two.
use kal_zk.Base.{
  ℕ, suc, ◌+◌, ◌-◌, ◌≤◌, ◌≡◌, ◌⊎◌, refl, List, [], ◌∷◌, ltb, if◌then◌else◌, none, some, All, arith,
}
use kal_zk.Error.{ok, err, kal, rate_limited}
use kal_zk.Service.Slots.{
  Weighted, LawfulWeighted, Phase, asking, verifying, done, System, acquire, Work, ask, finish,
  expire, reply, go_on, Works, none_yet, one_more, arrive, change, Reach, fresh, later,
}
use kal_zk.Service.Slots.Bounded.{Reach-at_work, Reach-admits}
use kal_zk.Base.{false, true, none}
use kal_zk.Service.Slots.Ending.{Stands, IsDone, Works-end}

abbrev two : Weighted ℕ
two = record {
  held = λ s. s;
  take = λ s. if ltb s 2 then some (suc s) else none;
  release = λ s. s - 1;
}

two-LawfulWeighted : LawfulWeighted ℕ two 2
two-LawfulWeighted = record {
  grants = λ s t e. (ground arith, ground arith);
  waits = λ s e. ground arith;
  gives_back = λ s h. omega arith;
}

abbrev calling : ℕ → List Phase → System ℕ
calling sem calls = record { sem = sem; calls = calls }

-- Three calls; two are admitted, and the third still asks.
abbrev three : List Phase
three = verifying none ∷ verifying none ∷ asking false ∷ []

crowded : Reach ℕ two 0 (calling 2 three)
unfolding acquire
crowded =
    later
      (later (later (later (later fresh (arrive refl)) (arrive refl)) (arrive refl))
        (change (go_on (ask [] (asking false ∷ asking false ∷ []) false (ok tt) 1 refl refl refl))))
      (change
        (go_on (ask (verifying none ∷ []) (asking false ∷ []) false (ok tt) 2 refl refl refl)))

Reach-at_work_example : (2 ≤ 2) × (◌≡◌ {A = ℕ} 2 2)
Reach-at_work_example = Reach-at_work ℕ two 2 two-LawfulWeighted 0 (calling 2 three) refl crowded

Reach-admits_example :
    let s = calling 2 three in
    ((t : System ℕ) × Work ℕ two s t
      × (t.calls ≡ verifying none ∷ verifying none ∷ verifying none ∷ []))
    ⊎ (◌≡◌ {A = ℕ} 2 2)
Reach-admits_example =
    Reach-admits ℕ two 2 two-LawfulWeighted 0 (calling 2 three)
      (verifying none ∷ verifying none ∷ []) [] refl crowded refl

-- The third gives up, gnark answers the first, and it finishes.
abbrev one_left : List Phase
one_left = done (ok tt) ∷ verifying none ∷ done (err (kal rate_limited)) ∷ []

drained : Works ℕ two (calling 2 three) 4 (calling 1 one_left)
unfolding acquire
drained =
    one_more
      (one_more
        (one_more (one_more none_yet (expire (verifying none ∷ verifying none ∷ []) [] refl refl)) (
          go_on (
            ask (verifying none ∷ verifying none ∷ []) [] true (err (kal rate_limited)) 2 refl refl
              refl)))
        (reply [] (verifying none ∷ done (err (kal rate_limited)) ∷ []) (ok tt) refl refl))
      (go_on (finish [] (verifying none ∷ done (err (kal rate_limited)) ∷ []) (ok tt) refl refl))

Works-end_example :
    let t = calling 1 one_left in
    (4 + 2 ≤ 7)
    × ((All IsDone t.calls × (◌≡◌ {A = ℕ} 1 0))
        ⊎ (((u : System ℕ) × Work ℕ two t u) ⊎ Stands (verifying none) t.calls))
Works-end_example =
    Works-end ℕ two 2 two-LawfulWeighted (omega arith) 0 (calling 2 three) (calling 1 one_left) 4
      refl crowded drained

-- ===== src/Mutation/Runner/Ids.antt =====
-- The ids of a validated manifest are different, so that a named subset is run whole if as many
-- mutations ran as ids were named (internal/cmd/zktestmutate/main.go).
use kal_zk.Base.{
  ℕ, zero, suc, ◌+◌, ◌-◌, ◌*◌, ◌/◌, ◌%◌, ◌≤◌, ◌<◌, ◌≡◌, ◌⊎◌, refl, sym, ap, ◌∙◌, true, false, ltb,
  if◌then◌else◌, Bool-cases, inl, inr, Bytes, List, [], ◌∷◌, ◌++◌, length, bytes_eq, bytes_eq→eq,
  bytes_eq-ne, arith,
}
use kal_zk.Mutation.{Mutation, decimal, want_id}
use kal_zk.Mutation.Runner.{has}

-- The number that digits spell.
abbrev value : Bytes → ℕ → ℕ
value [] acc = acc
value (d ∷ ds) acc = value ds (acc * 10 + (d - b'0'))

value-append :
    (ds : Bytes) (d acc : ℕ) → value (ds ++ (d ∷ [])) acc ≡ value ds acc * 10 + (d - b'0')
value-append [] d acc = refl
value-append (x ∷ ds) d acc = value-append ds d _

value-decimal : (fuel n : ℕ) → n ≤ fuel → value (decimal fuel n) 0 ≡ n
unfolding decimal
value-decimal zero n h = omega (arith, h)
value-decimal (suc fuel) n h = elim (Bool-cases (ltb n 10)) [
  | inl small ↦ rw small (omega arith)
  | inr large ↦
      let high = value-decimal fuel (n / 10) (ground (arith, h, large)) in
      let all = value-append (decimal fuel (n / 10)) (b'0' + n % 10) 0 in
      rw large (omega (arith, high, all))
]

abbrev read_id : Bytes → ℕ
read_id [] = 0
read_id (b ∷ ds) = value ds 0

want_id-injective : (i j : ℕ) → want_id i ≡ want_id j → i ≡ j
want_id-injective i j h =
    let left = value-decimal (suc i) (suc i) (omega arith) in
    let right = value-decimal (suc j) (suc j) (omega arith) in
    let same = ap read_id h in omega (arith, left, right, same)

-- The ids from an index on are in their places.
abbrev pub Numbered : ℕ → List Mutation → Type 0
Numbered i [] = Unit
Numbered i (m ∷ ms) = (m.id ≡ want_id i) × Numbered (suc i) ms

abbrev pub occurrences : Bytes → List Mutation → ℕ
occurrences x [] = 0
occurrences x (m ∷ ms) = let rest = occurrences x ms in if bytes_eq m.id x then suc rest else rest

-- The mutations with an id among the given.
abbrev pub hits : List Bytes → List Mutation → ℕ
hits selected [] = 0
hits selected (m ∷ ms) = let rest = hits selected ms in if has m.id selected then suc rest else rest

Numbered-later :
    (i j : ℕ) (ms : List Mutation) → i < j → Numbered j ms → occurrences (want_id i) ms ≡ 0
Numbered-later i j [] h n = refl
Numbered-later i j (m ∷ ms) h (named, rest) =
    let other : bytes_eq m.id (want_id i) ≡ false =
      bytes_eq-ne _ _ (λ e. absurd (omega (arith, h, want_id-injective j i (sym named ∙ e)))) in
    rw other (Numbered-later i (suc j) ms (omega (arith, h)) rest)

pub Numbered-once : (i : ℕ) (ms : List Mutation) (x : Bytes) → Numbered i ms → occurrences x ms ≤ 1
Numbered-once i [] x n = omega arith
Numbered-once i (m ∷ ms) x (named, rest) = elim (Bool-cases (bytes_eq m.id x)) [
  | inl same ↦
      let x_id = sym (bytes_eq→eq m.id x same) ∙ named in
      let none_later =
        ap (λ y. occurrences y ms) x_id ∙ Numbered-later i (suc i) ms (omega arith) rest in
      rw same (omega (arith, none_later))
  | inr other ↦ rw other (Numbered-once (suc i) ms x rest)
]

hits-cons :
    (x : Bytes) (selected : List Bytes) (ms : List Mutation)
    → hits (x ∷ selected) ms ≤ occurrences x ms + hits selected ms
unfolding has
hits-cons x selected [] = omega arith
hits-cons x selected (m ∷ ms) = ground (arith, hits-cons x selected ms)

hits-empty : (ms : List Mutation) → hits [] ms ≡ 0
unfolding has
hits-empty [] = refl
hits-empty (m ∷ ms) = hits-empty ms

module _ (ms : List Mutation) (once : (x : Bytes) → occurrences x ms ≤ 1) where
  hits-le : (selected : List Bytes) → hits selected ms ≤ length selected
  hits-le [] = omega (arith, hits-empty ms)
  hits-le (x ∷ selected) = omega (arith, hits-cons x selected ms, once x, hits-le selected)

  -- With an id that no mutation has, fewer mutations are hit than ids are given.
  pub hits-lt :
      (id : Bytes) (selected : List Bytes)
      → occurrences id ms ≡ 0
      → has id selected ≡ true
      → hits selected ms < length selected
  unfolding has
  hits-lt id [] unknown there = cc
  hits-lt id (x ∷ selected) unknown there = elim (Bool-cases (bytes_eq id x)) [
    | inl same ↦
        let gone = ap (λ y. occurrences y ms) (sym (bytes_eq→eq id x same)) ∙ unknown in
        omega (arith, hits-cons x selected ms, gone, hits-le selected)
    | inr other ↦
        let rest = hits-lt id selected unknown (rw (has, other) at there) in
        omega (arith, hits-cons x selected ms, once x, rest)
  ]

-- A mutation with the id, and what stands around it.
abbrev pub Occurs : Bytes → List Mutation → Type 0
Occurs id ms =
    (m : Mutation) × (xs : List Mutation) × (ys : List Mutation) × (ms ≡ xs ++ (m ∷ ys))
    × (m.id ≡ id)

pub Occurs-cases : (id : Bytes) (ms : List Mutation) → Occurs id ms ⊎ (occurrences id ms ≡ 0)
Occurs-cases id [] = inr refl
Occurs-cases id (m ∷ ms) = elim (Bool-cases (bytes_eq m.id id)) [
  | inl same ↦ inl (m, [], ms, refl, bytes_eq→eq m.id id same)
  | inr other ↦ elim (Occurs-cases id ms) [
    | inl (n, xs, ys, split, named) ↦ inl (n, m ∷ xs, ys, ap (λ l. m ∷ l) split, named)
    | inr absent ↦ inr (rw other absent)
  ]
]

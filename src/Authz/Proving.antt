-- ===== src/Authz/Proving.antt =====
-- `Proofs` (zkauthz/zkauthz.go): what it requires and what it consumes, for each name.
use kal_zk.Base.{
  ℕ, ◌+◌, ◌-◌, ◌≤◌, ◌≡◌, refl, ◌≢◌, Bytes, bytes_eq, bytes_eq_iff, bytes_eq_self, List, [], ◌∷◌,
  none, some, true, if◌then◌else◌, arith, Bool-cases, inl, inr, All, Option-cases,
}
use kal_zk.Error.{ok}
use kal_zk.Authz.{Holder, has_name, tally, covered, deduct, consume, prove_held}
use kal_zk.Authz.Counts.{
  CountMap, count, count-nil, put, bump, count-put, count-bump, IsKeyed, bump-IsKeyed,
}

-- How often a name is asked for.
unfoldable pub occurrences : Bytes → List Bytes → ℕ
occurrences name [] = 0
occurrences name (n ∷ ns) = (if bytes_eq n name then 1 else 0) + occurrences name ns

-- The one-shot grants that a request for `claims` takes for a name.
abbrev pub required_of : List Bytes → List Bytes → Bytes → ℕ
required_of recurring claims name = if has_name name recurring then 0 else occurrences name claims

tally-count :
    (recurring : List Bytes) (name : Bytes) (claims : List Bytes) (start required : CountMap)
    → tally recurring start claims ≡ some required
    → count name required ≡ count name start + required_of recurring claims name
unfolding tally occurrences
tally-count recurring name [] start required e = ground arith
tally-count recurring name (c ∷ cs) start required e = ground (
  arith,
  bytes_eq_iff c name,
  count-bump c name start,
  tally-count recurring name cs start required,
  tally-count recurring name cs (bump c start) required,
)

tally-IsKeyed :
    (recurring claims : List Bytes) (start required : CountMap)
    → IsKeyed start
    → tally recurring start claims ≡ some required
    → IsKeyed required
unfolding tally
tally-IsKeyed recurring [] start required keyed e = ground arith
tally-IsKeyed recurring (c ∷ cs) start required keyed e = elim (Bool-cases (has_name c recurring)) [
  | inl held ↦ tally-IsKeyed recurring cs start required keyed (ground arith)
  | inr fresh ↦
      tally-IsKeyed recurring cs (bump c start) required (bump-IsKeyed c start keyed) (ground arith)
]

-- Counting succeeds where no name is empty.
tally-some :
    (recurring claims : List Bytes) (start : CountMap)
    → All (λ name. name ≢ []) claims
    → (required : CountMap) × (tally recurring start claims ≡ some required)
unfolding tally
tally-some recurring [] start h = (start, refl)
tally-some recurring ([] ∷ cs) start h = absurd (h.0 refl)
tally-some recurring ((b ∷ bs) ∷ cs) start h =
    tally-some recurring cs (if has_name (b ∷ bs) recurring then start else bump (b ∷ bs) start) h.1

covered-true :
    (required grants : CountMap)
    → IsKeyed required
    → ((name : Bytes) → count name required ≤ count name grants)
    → covered required grants ≡ true
unfolding covered count
covered-true [] grants keyed h = refl
covered-true ((n, k) ∷ rest) grants keyed h =
    let here : k ≤ count n grants = ground (arith, h n, bytes_eq_self n) in
    let there : covered rest grants ≡ true =
      covered-true rest grants keyed.2
        (λ name. ground (arith, h name, bytes_eq_iff n name, keyed.0)) in
    ground arith

covered-le :
    (required grants : CountMap)
    → covered required grants ≡ true
    → (name : Bytes) → count name required ≤ count name grants
unfolding covered count
covered-le [] grants h name = omega arith
covered-le ((n, k) ∷ rest) grants h name =
    let later : covered rest grants ≡ true = ground arith in
    ground (arith, bytes_eq_iff n name, covered-le rest grants later name)

count-deduct :
    (required grants : CountMap) (name : Bytes)
    → IsKeyed required
    → count name (deduct required grants) ≡ count name grants - count name required
unfolding deduct count
count-deduct [] grants name keyed = omega arith
count-deduct ((n, k) ∷ rest) grants name keyed = ground (
  arith,
  bytes_eq_iff n name,
  count-put n name (count n grants - k) grants,
  count-deduct rest (put n (count n grants - k) grants) name keyed.2,
)

-- Every name that is asked for is named, and has the grants that the request takes.
abbrev pub IsCovered : Holder → List Bytes → Type 0
IsCovered h claims = (name : Bytes) → required_of h.recurring claims name ≤ count name h.grants

-- A call has taken these grants and nothing else.
abbrev pub Takes : List Bytes → Holder → Holder → Type 0
Takes claims h h' =
    (h'.recurring ≡ h.recurring)
    × (h'.load_err ≡ none)
    × ((name : Bytes)
        → count name h'.grants ≡ count name h.grants - required_of h.recurring claims name)

-- With a holder that has every grant, a request for named claims is allowed, and takes one grant
-- for each mention of a claim that is not recurring.
pub prove_held-Takes :
    (claims : List Bytes) (h : Holder)
    → h.load_err ≡ none
    → All (λ name. name ≢ []) claims
    → IsCovered h claims
    → (h' : Holder) × (prove_held claims h ≡ (ok tt, h')) × Takes claims h h'
unfolding prove_held consume
prove_held-Takes claims h loaded named enough =
    let (required, e) = tally-some h.recurring claims [] named in
    let counted = λ (name : Bytes). tally-count h.recurring name claims [] required e in
    let keyed = tally-IsKeyed h.recurring claims [] required tt e in
    let passes =
      covered-true required h.grants keyed
        (λ name. ground (arith, counted name, enough name, count-nil name)) in
    (
      record h { grants = deduct required h.grants },
      ground (arith, e, passes),
      (
        refl,
        loaded,
        λ name.
            ground (arith, counted name, count-nil name, count-deduct required h.grants name keyed),
      ),
    )

consume-Takes :
    (claims : List Bytes) (h h' : Holder) (required : CountMap)
    → h.load_err ≡ none
    → tally h.recurring [] claims ≡ some required
    → consume h (some required) ≡ (ok tt, h')
    → IsCovered h claims × Takes claims h h'
unfolding consume
consume-Takes claims h h' required loaded e run =
    let passes : covered required h.grants ≡ true = ground arith in
    let same : h' ≡ record h { grants = deduct required h.grants } = ground arith in
    let counted = λ (name : Bytes). tally-count h.recurring name claims [] required e in
    let keyed = tally-IsKeyed h.recurring claims [] required tt e in
    (
      λ name.
          ground (arith, counted name, count-nil name, covered-le required h.grants passes name),
      (
        ground arith,
        ground arith,
        λ name.
            ground (arith, counted name, count-nil name, count-deduct required h.grants name keyed),
      ),
    )

consume-none : (h h' : Holder) → consume h none ≢ (ok tt, h')
unfolding consume
consume-none h h' = ground arith

-- And a request that is allowed had every grant, and has taken one for each mention.
pub prove_held-allowed :
    (claims : List Bytes) (h h' : Holder)
    → prove_held claims h ≡ (ok tt, h')
    → IsCovered h claims × Takes claims h h'
unfolding prove_held
prove_held-allowed claims h h' run = elim (Option-cases h.load_err) [
  | inr (e, failed) ↦ absurd (ground (arith, failed))
  | inl loaded ↦ elim (Option-cases (tally h.recurring [] claims)) [
    | inl e ↦ absurd (consume-none h h' (ground (arith, e)))
    | inr (required, e) ↦ consume-Takes claims h h' required loaded e (ground (arith, e))
  ]
]

-- A request that is refused takes nothing.
pub prove_held-refused :
    (claims : List Bytes) (h : Holder)
    → (prove_held claims h).0 ≢ ok tt
    → (prove_held claims h).1 ≡ h
unfolding prove_held consume
prove_held-refused claims h refused = ground arith

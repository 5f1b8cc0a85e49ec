-- ===== src/Authz/Counts.antt =====
-- `map[string]int` as an association list, with 0 for a missing key.
use kal_zk.Base.{
  ℕ, ◌+◌, ◌<◌, ◌≡◌, refl, Bytes, bytes_eq, bytes_eq_iff, List, [], ◌∷◌, if◌then◌else◌, arith,
}

abbrev pub CountMap : Type 0
CountMap = List (Bytes × ℕ)

unfoldable pub count : Bytes → CountMap → ℕ
count name [] = 0
count name ((n, k) ∷ rest) = if bytes_eq n name then k else count name rest

pub count-nil : (name : Bytes) → count name [] ≡ 0
unfolding count
count-nil name = refl

unfoldable pub put : Bytes → ℕ → CountMap → CountMap
put name v [] = (name, v) ∷ []
put name v ((n, k) ∷ rest) = if bytes_eq n name then (n, v) ∷ rest else (n, k) ∷ put name v rest

-- `m[name]++`
unfoldable pub bump : Bytes → CountMap → CountMap
bump name m = put name (count name m + 1) m

pub count-put :
    (name other : Bytes) (v : ℕ) (m : CountMap)
    → count other (put name v m) ≡ (if bytes_eq name other then v else count other m)
unfolding count put
count-put name other v [] = refl
count-put name other v ((n, k) ∷ rest) = ground (
  arith,
  bytes_eq_iff n name,
  bytes_eq_iff n other,
  bytes_eq_iff name other,
  count-put name other v rest,
)

pub count-bump :
    (name other : Bytes) (m : CountMap)
    → count other (bump name m) ≡ (if bytes_eq name other then count other m + 1 else count other m)
unfolding bump
count-bump name other m =
    ground (arith, bytes_eq_iff name other, count-put name other (count name m + 1) m)

-- No name stands twice, and every count is positive.
abbrev pub IsKeyed : CountMap → Type 0
IsKeyed [] = Unit {0}
IsKeyed ((n, k) ∷ rest) = (count n rest ≡ 0) × (0 < k) × IsKeyed rest

pub put-IsKeyed : (name : Bytes) (v : ℕ) (m : CountMap) → 0 < v → IsKeyed m → IsKeyed (put name v m)
unfolding put count
put-IsKeyed name v [] h keyed = (refl, h, tt)
put-IsKeyed name v ((n, k) ∷ rest) h keyed = ground (
  arith,
  bytes_eq_iff name n,
  bytes_eq_iff n name,
  count-put name n v rest,
  put-IsKeyed name v rest h keyed.2,
)

pub bump-IsKeyed : (name : Bytes) (m : CountMap) → IsKeyed m → IsKeyed (bump name m)
unfolding bump
bump-IsKeyed name m keyed = put-IsKeyed name (count name m + 1) m (omega arith) keyed

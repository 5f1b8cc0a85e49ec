-- ===== src/Store/Credentials/Owned.antt =====
-- The leaves that a user owns (zkauthn/sql.go: credentialsByUser).
use kal_zk.Base.{
  ℕ, ◌≡◌, ◌⊎◌, inl, inr, refl, sym, ap, ◌∙◌, subst, Bool, true, false, ◌||◌, ◌==◌, ==_self,
  Bool-cases, Bytes, List, [], ◌∷◌, All, arith,
}
use kal_zk.Store.{CredentialRow}
use kal_zk.Base.{ltb, some, ◌&&◌, ==_iff}
use kal_zk.Store.Credentials.{
  Uuid, live_commitment, is_live, owned_by, insert_sorted, owned_indices,
}

or-true : (b : Bool) → (b || true) ≡ true
or-true true = refl
or-true false = refl

abbrev pub holds : ℕ → List ℕ → Bool
holds i [] = false
holds i (j ∷ js) = i == j || holds i js

insert_sorted-holds :
    (i j : ℕ) (js : List ℕ) → holds i (insert_sorted j js) ≡ (i == j || holds i js)
unfolding insert_sorted
insert_sorted-holds i j [] = refl
insert_sorted-holds i j (k ∷ ks) = ground (arith, insert_sorted-holds i j ks)

-- Every row that the user owns is listed.
abbrev pub IsListed : Uuid → Bytes → List ℕ → CredentialRow → Type 0
IsListed uuid user is r = (owned_by uuid user r ≡ false) ⊎ (holds r.leaf_index is ≡ true)

IsListed-insert :
    (uuid : Uuid) (user : Bytes) (j : ℕ) (is : List ℕ) (rows : List CredentialRow)
    → All (IsListed uuid user is) rows
    → All (IsListed uuid user (insert_sorted j is)) rows
IsListed-insert uuid user j is [] h = tt
IsListed-insert uuid user j is (r ∷ rs) (first, rest) = (
  elim first [
    | inl foreign ↦ inl foreign
    | inr listed ↦ inr (rw (insert_sorted-holds r.leaf_index j is, listed) (or-true _))
  ],
  IsListed-insert uuid user j is rs rest,
)

pub owned_indices-IsListed :
    (uuid : Uuid) (user : Bytes) (rows : List CredentialRow)
    → All (IsListed uuid user (owned_indices uuid user rows)) rows
unfolding owned_indices
owned_indices-IsListed uuid user [] = tt
owned_indices-IsListed uuid user (r ∷ rs) = elim (Bool-cases (owned_by uuid user r)) [
  | inr foreign ↦
      let same : owned_indices uuid user (r ∷ rs) ≡ owned_indices uuid user rs = rw foreign refl in
      subst (λ is. All (IsListed uuid user is) (r ∷ rs)) (sym same)
        (inl foreign, owned_indices-IsListed uuid user rs)
  | inl own ↦
      let is = owned_indices uuid user rs in
      let same : owned_indices uuid user (r ∷ rs) ≡ insert_sorted r.leaf_index is = rw own refl in
      subst (λ js. All (IsListed uuid user js) (r ∷ rs)) (sym same)
        (
          inr (
              insert_sorted-holds r.leaf_index r.leaf_index is
              ∙ ap (λ b. b || holds r.leaf_index is) (==_self r.leaf_index)),
          IsListed-insert uuid user r.leaf_index is rs (owned_indices-IsListed uuid user rs),
        )
]

-- The leaf index is the key of the table.
abbrev pub has_index : ℕ → List CredentialRow → Bool
has_index i [] = false
has_index i (r ∷ rs) = i == r.leaf_index || has_index i rs

abbrev pub IsKeyed : List CredentialRow → Type 0
IsKeyed [] = Unit
IsKeyed (r ∷ rs) = (has_index r.leaf_index rs ≡ false) × IsKeyed rs

abbrev pub IsDistinct : List ℕ → Type 0
IsDistinct [] = Unit
IsDistinct (i ∷ is) = (holds i is ≡ false) × IsDistinct is

insert_sorted-IsDistinct :
    (i : ℕ) (is : List ℕ) → holds i is ≡ false → IsDistinct is → IsDistinct (insert_sorted i is)
unfolding insert_sorted
insert_sorted-IsDistinct i [] new d = (refl, tt)
insert_sorted-IsDistinct i (k ∷ ks) new (first, rest) = elim (Bool-cases (ltb i k)) [
  | inl less ↦ rw less (new, (first, rest))
  | inr more ↦ rw more (
    insert_sorted-holds k i ks ∙ ground (arith, new, first, ==_iff i k, ==_iff k i),
    insert_sorted-IsDistinct i ks (ground (arith, new)) rest,
  )
]

owned_indices-holds :
    (uuid : Uuid) (user : Bytes) (i : ℕ) (rows : List CredentialRow)
    → has_index i rows ≡ false
    → holds i (owned_indices uuid user rows) ≡ false
unfolding owned_indices
owned_indices-holds uuid user i [] h = refl
owned_indices-holds uuid user i (r ∷ rs) h = ground (
  arith,
  owned_indices-holds uuid user i rs,
  insert_sorted-holds i r.leaf_index (owned_indices uuid user rs),
)

pub owned_indices-IsDistinct :
    (uuid : Uuid) (user : Bytes) (rows : List CredentialRow)
    → IsKeyed rows
    → IsDistinct (owned_indices uuid user rows)
unfolding owned_indices
owned_indices-IsDistinct uuid user [] k = tt
owned_indices-IsDistinct uuid user (r ∷ rs) (new, rest) = elim (Bool-cases (owned_by uuid user r)) [
  | inr foreign ↦ rw foreign (owned_indices-IsDistinct uuid user rs rest)
  | inl own ↦ rw own (
      insert_sorted-IsDistinct r.leaf_index (owned_indices uuid user rs)
        (owned_indices-holds uuid user r.leaf_index rs new)
        (owned_indices-IsDistinct uuid user rs rest))
]

-- Every listed index has a live row.
abbrev pub IsLiveAt : List CredentialRow → ℕ → Type 0
IsLiveAt rows i = (raw : Bytes) × (live_commitment i rows ≡ some raw)

insert_sorted-All :
    (P : ℕ → Type 0) (i : ℕ) (is : List ℕ) → P i → All P is → All P (insert_sorted i is)
unfolding insert_sorted
insert_sorted-All P i [] p h = (p, tt)
insert_sorted-All P i (k ∷ ks) p (first, rest) = elim (Bool-cases (ltb i k)) [
  | inl less ↦ rw less (p, (first, rest))
  | inr more ↦ rw more (first, insert_sorted-All P i ks p rest)
]

IsLiveAt-cons :
    (r : CredentialRow) (rs : List CredentialRow) (is : List ℕ)
    → All (IsLiveAt rs) is
    → All (IsLiveAt (r ∷ rs)) is
unfolding live_commitment
IsLiveAt-cons r rs [] h = tt
IsLiveAt-cons r rs (i ∷ is) ((raw, live), rest) = (
  elim (Bool-cases (r.leaf_index == i && is_live r)) [
    | inl here ↦ (r.commitment, rw here refl)
    | inr there ↦ (raw, rw there live)
  ],
  IsLiveAt-cons r rs is rest,
)

pub owned_indices-IsLiveAt :
    (uuid : Uuid) (user : Bytes) (rows : List CredentialRow)
    → All (IsLiveAt rows) (owned_indices uuid user rows)
unfolding owned_indices live_commitment
owned_indices-IsLiveAt uuid user [] = tt
owned_indices-IsLiveAt uuid user (r ∷ rs) =
    let rest =
      IsLiveAt-cons r rs (owned_indices uuid user rs) (owned_indices-IsLiveAt uuid user rs) in
    elim (Bool-cases (owned_by uuid user r)) [
      | inr foreign ↦ rw foreign rest
      | inl own ↦
          let live : is_live r ≡ true = ground (arith, own) in
          let same : owned_indices uuid user (r ∷ rs)
              ≡ insert_sorted r.leaf_index (owned_indices uuid user rs) =
            rw own refl in
          subst (All (IsLiveAt (r ∷ rs))) (sym same) (
            insert_sorted-All (IsLiveAt (r ∷ rs)) r.leaf_index (owned_indices uuid user rs)
              (r.commitment, rw (==_self r.leaf_index, live) refl) rest)
    ]

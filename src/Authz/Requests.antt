-- ===== src/Authz/Requests.antt =====
-- A request as the sequence of its calls of `Add` and `Proofs` (zkauthz/zkauthz.go), in the order
-- in which they take the holder's lock.
use kal_zk.Base.{
  ℕ, ◌+◌, ◌≡◌, refl, Bytes, bytes_eq, bytes_eq_iff, List, [], ◌∷◌, none, some, if◌then◌else◌, arith,
  inl, inr,
}
use kal_zk.Error.{Result, ok, err, Result-cases}
use kal_zk.Store.{one_shot}
use kal_zk.Service.{VerifiedClaim}
use kal_zk.Authz.{Holder, Context, grant, add_claim, prove_held, prove_in, proofs}
use kal_zk.Authz.Counts.{count, count-bump}
use kal_zk.Authz.Proving.{required_of, occurrences, prove_held-allowed, prove_held-refused}

pub data Call : Type 0 where
  adding : VerifiedClaim → Call
  proving : List Bytes → Call

unfoldable pub after_call : Call → Context → Context
after_call (adding claim) ctx = (add_claim claim ctx).1
after_call (proving claims) ctx = (proofs claims ctx).1

unfoldable pub after_calls : List Call → Context → Context
after_calls [] ctx = ctx
after_calls (call ∷ calls) ctx = after_calls calls (after_call call ctx)

-- The grants of a name that a context holds.
abbrev pub held : Bytes → Context → ℕ
held name none = 0
held name (some h) = count name h.grants

-- The one-shot grants of a name that a call adds to a mounted context.
abbrev pub added : Bytes → Call → ℕ
added name (adding claim) = elim claim.kind [
  | one_shot ↦ (if bytes_eq claim.name name then 1 else 0)
  | _ ↦ 0
]
added name (proving claims) = 0

abbrev pub taken_if : Result (Unit {0}) → ℕ → ℕ
taken_if (ok _) k = k
taken_if (err _) k = 0

-- The grants of a name for which a call was allowed.
abbrev pub taken : Bytes → Call → Context → ℕ
taken name (adding claim) ctx = 0
taken name (proving claims) none = 0
taken name (proving claims) (some h) =
    taken_if (proofs claims (some h)).0 (required_of h.recurring claims name)

unfoldable pub total_added : Bytes → List Call → ℕ
total_added name [] = 0
total_added name (call ∷ calls) = added name call + total_added name calls

unfoldable pub total_taken : Bytes → List Call → Context → ℕ
total_taken name [] ctx = 0
total_taken name (call ∷ calls) ctx =
    taken name call ctx + total_taken name calls (after_call call ctx)

prove_in-conserves :
    (name : Bytes) (claims : List Bytes) (h : Holder)
    → count name (prove_in claims h).1.grants
        + taken_if (prove_in claims h).0 (required_of h.recurring claims name)
      ≡ count name h.grants
unfolding prove_in occurrences
prove_in-conserves name [] h = ground arith
prove_in-conserves name (c ∷ cs) h = elim (Result-cases (prove_held (c ∷ cs) h).0) [
  | inl (u, allowed) ↦
      let h' = (prove_held (c ∷ cs) h).1 in
      let (enough, takes) = prove_held-allowed (c ∷ cs) h h' (ground (arith, allowed)) in
      rw allowed (omega (arith, enough name, takes.2 name))
  | inr (e, refused) ↦
      rw (prove_held-refused (c ∷ cs) h (λ p. ground (arith, p, refused)), refused) (omega arith)
]

proofs-conserves :
    (name : Bytes) (claims : List Bytes) (h : Holder)
    → held name (after_call (proving claims) (some h)) + taken name (proving claims) (some h)
      ≡ count name h.grants
unfolding after_call proofs
proofs-conserves name [] h = prove_in-conserves name [] h
proofs-conserves name (c ∷ cs) h = prove_in-conserves name (c ∷ cs) h

grant-conserves :
    (name : Bytes) (claim : VerifiedClaim) (h : Holder)
    → count name (grant claim h).grants ≡ count name h.grants + added name (adding claim)
unfolding grant
grant-conserves name claim h =
    ground (arith, count-bump claim.name name h.grants, bytes_eq_iff claim.name name)

-- The holder after a call on a mounted context.
unfoldable pub holder_after : Call → Holder → Holder
holder_after (adding claim) h = grant claim h
holder_after (proving claims) h = (prove_in claims h).1

after_call-some : (call : Call) (h : Holder) → after_call call (some h) ≡ some (holder_after call h)
unfolding after_call holder_after add_claim proofs
after_call-some (adding claim) h = refl
after_call-some (proving []) h = refl
after_call-some (proving (c ∷ cs)) h = refl

call-conserves :
    (name : Bytes) (call : Call) (h : Holder)
    → count name (holder_after call h).grants + taken name call (some h)
      ≡ count name h.grants + added name call
unfolding holder_after
call-conserves name (adding claim) h = omega (arith, grant-conserves name claim h)
call-conserves name (proving claims) h =
    omega (arith, rw (after_call-some (proving claims) h) at (proofs-conserves name claims h))

-- Over any sequence of calls, the grants of a name that are left and those for which a check was
-- allowed are together those of the start and those added: none is used twice, and none is lost.
pub after_calls-conserves :
    (name : Bytes) (calls : List Call) (h : Holder)
    → held name (after_calls calls (some h)) + total_taken name calls (some h)
      ≡ count name h.grants + total_added name calls
unfolding after_calls total_taken total_added
after_calls-conserves name [] h = omega arith
after_calls-conserves name (call ∷ calls) h = rw (after_call-some call h) (
    omega
      (arith, call-conserves name call h, after_calls-conserves name calls (holder_after call h)))

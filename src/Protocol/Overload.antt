-- ===== src/Protocol/Overload.antt =====
-- What an overloaded service answers to a membership request (zkauthn/protocol.go:
-- verifyMembershipRequest, and the dummy verifications of zkauthn/service.go).
use kal_zk.Base.{
  ◌≡◌, ap, true, false, if◌then◌else◌, Bytes, Option, none, some, Bool-cases, Option-cases, inl,
  inr, ◌&&◌,
}
use kal_zk.Error.{
  Result, ok, err, kal, rate_limited, no_rows_invalid, is_rate_limited, Result-cases,
}
use kal_zk.Hash.{Field, Crypto, parse_field, field_bytes}
use kal_zk.Service.{Zk, VerifyingKey}
use kal_zk.Store.{Purpose, ClaimRow}
use kal_zk.Store.Exec.{World}
use kal_zk.Store.Claims.{find_claim}
use kal_zk.Store.Roots.{any_accepted}
use kal_zk.Tree.Invariant.{solo}
use kal_zk.Challenge.{peek_challenge}
use kal_zk.Challenge.Spending.{peek-consume}
use kal_zk.Store.Credentials.{is_some}
use kal_zk.Protocol.Interface.{Outside, Public, MembershipRequest}
use kal_zk.Protocol.Running.{IsShaped, read_claim-none, read_claim-some, root_accepted-run}
use kal_zk.Protocol.Checking.{
  verify, verify_dummy_membership, claim_or_dummy, accepted_or_dummy, verify_membership_request,
}

-- The answer once a verification has found no slot.
abbrev pub refused_after : {A : Type 0} → Result Field → Result A
refused_after (ok challenge) = err (kal rate_limited)
refused_after (err e) = err e

module _ (o : Outside) (c : Crypto) (z : Zk) (w : World) (busy : o.admits (solo w) ≡ false) where
  verify_busy :
      (vk : Option VerifyingKey) (raw : Bytes) (public : Public)
      → verify o vk raw public (solo w) ≡ (err (kal rate_limited), solo w)
  unfolding verify
  verify_busy vk raw public = rw busy

  module _ (req : MembershipRequest) (purpose : Purpose) (session : Bytes)
      (s : IsShaped o c req) where
    unknown_claim :
        find_claim req.claim w.db.claims ≡ none
        → verify_membership_request o c z req purpose session (solo w)
          ≡ (err (kal rate_limited), solo w)
    unfolding verify_membership_request claim_or_dummy verify_dummy_membership no_rows_invalid
        is_rate_limited
    unknown_claim absent = rw (
      s.sized,
      s.named,
      s.root_read,
      s.nullifier_read,
      read_claim-none o c z w req.claim absent,
      verify_busy z.membership req.proof _,
    )

    module _ (row : ClaimRow) (audience : Field)
        (there : find_claim req.claim w.db.claims ≡ some row)
        (read : parse_field c row.audience ≡ ok audience) where
      retired_root :
          any_accepted w.now z.root_grace (field_bytes s.root) w.db.roots ≡ false
          → verify_membership_request o c z req purpose session (solo w)
            ≡ (err (kal rate_limited), solo w)
      unfolding verify_membership_request claim_or_dummy accepted_or_dummy verify_dummy_membership
          is_rate_limited
      retired_root stale = rw (
        s.sized,
        s.named,
        s.root_read,
        s.nullifier_read,
        read_claim-some o c z w req.claim row audience there read,
        root_accepted-run o c z w s.root,
        stale,
        verify_busy z.membership req.proof _,
      )

      live_root :
          any_accepted w.now z.root_grace (field_bytes s.root) w.db.roots ≡ true
          → (verify_membership_request o c z req purpose session (solo w)).0
            ≡ refused_after (peek_challenge o.tokens req.challenge purpose session (solo w)).0
      unfolding verify_membership_request claim_or_dummy accepted_or_dummy is_rate_limited
      live_root fresh =
          let peek = peek_challenge o.tokens req.challenge purpose session (solo w) in
          let still = ap (λ x. x.1) (peek-consume o.tokens req.challenge purpose session w) in
          elim (Result-cases peek.0) [
            | inl (challenge, found) ↦
                let peeked : peek ≡ (ok challenge, solo w) = λ i. (found i, still i) in
                rw (
                  s.sized,
                  s.named,
                  s.root_read,
                  s.nullifier_read,
                  read_claim-some o c z w req.claim row audience there read,
                  root_accepted-run o c z w s.root,
                  fresh,
                  peeked,
                  verify_busy z.membership req.proof _,
                )
            | inr (e, missing) ↦
                let peeked : peek ≡ (err e, solo w) = λ i. (missing i, still i) in
                rw (
                  s.sized,
                  s.named,
                  s.root_read,
                  s.nullifier_read,
                  read_claim-some o c z w req.claim row audience there read,
                  root_accepted-run o c z w s.root,
                  fresh,
                  peeked,
                )
          ]

    -- Without a free slot, on a connection that works and is alone, a membership request whose
    -- size, name, root and nullifier are well formed, for a policy that is unknown or has a
    -- readable audience, is RATE_LIMITED, except that a known policy with an accepted root and no
    -- open challenge answers the error of the challenge.
    pub verify_membership_request-overloaded :
        ((row : ClaimRow)
          → find_claim req.claim w.db.claims ≡ some row
          → (audience : Field) × (parse_field c row.audience ≡ ok audience))
        → (verify_membership_request o c z req purpose session (solo w)).0 ≡ (
            if is_some (find_claim req.claim w.db.claims)
              && any_accepted w.now z.root_grace (field_bytes s.root) w.db.roots
            then refused_after (peek_challenge o.tokens req.challenge purpose session (solo w)).0
            else err (kal rate_limited))
    verify_membership_request-overloaded readable =
        elim (Option-cases (find_claim req.claim w.db.claims)) [
          | inl absent ↦ rw absent (ap (λ x. x.0) (unknown_claim absent))
          | inr (row, there) ↦
              let (audience, read) = readable row there in
              elim (Bool-cases (any_accepted w.now z.root_grace (field_bytes s.root) w.db.roots)) [
                | inl fresh ↦ rw (there, fresh) (live_root row audience there read fresh)
                | inr stale ↦
                    rw (there, stale) (ap (λ x. x.0) (retired_root row audience there read stale))
              ]
        ]

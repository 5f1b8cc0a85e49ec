-- ===== src/Protocol/Reading.antt =====
-- The first two phases of a membership request (zkauthn/protocol.go: verifyMembershipRequest) write
-- nothing, and what a request that passes them has shown.
use kal_zk.Base.{
  ◌≡◌, refl, ap, ◌∙◌, ◌≢◌, Bool, true, false, ◌==◌, Bytes, length, Option, some, Bool-cases,
  Option-cases, inl, inr, arith,
}
use kal_zk.Error.{Error, Result, ok, err, ok-injective}
use kal_zk.Hash.{Field, Crypto, parse_field, field_bytes}
use kal_zk.Service.{Zk, VerifyingKey}
use kal_zk.Store.{Purpose, ClaimRow}
use kal_zk.Store.Exec.{World, query, lift, attempt, ◌>>=◌}
use kal_zk.Store.Reading.{
  Shows, Shows-lift, Shows-pure, Shows-raise, Shows-if, Shows-unless, Shows-bind, Shows-attempt,
}
use kal_zk.Store.Claims.{claim_by_name, find_claim}
use kal_zk.Store.Roots.{root_accepted_row, any_accepted}
use kal_zk.Tree.{root_accepted}
use kal_zk.Tree.Invariant.{solo}
use kal_zk.Challenge.{peek_challenge, or_invalid, or_no_rows}
use kal_zk.Challenge.Spending.{peek-consume}
use kal_zk.Protocol.Interface.{Outside, Public, Claim, MembershipRequest}
use kal_zk.Protocol.Checking.{
  verify, check_proof, verify_dummy_membership, read_claim, claim_or_dummy, accepted_or_dummy,
  unless_limited, verify_membership_request, compressed_proof_size, valid_claim_name, public_of,
  hide, is_invalid_proof,
}

abbrev Anything : {A : Type 0} → A → Type 0
Anything a = Unit

module _ (o : Outside) (w : World) where
  -- A verification shows that the proof checks.
  pub verify-Shows :
      (vk : Option VerifyingKey) (raw : Bytes) (public : Public)
      → Shows w (λ _. check_proof o vk raw public ≡ ok tt) (verify o vk raw public)
  unfolding verify
  verify-Shows vk raw public = elim (Bool-cases (o.admits (solo w))) [
    | inl free ↦ record { same = rw free; value = λ a e. rw free at e }
    | inr busy ↦ record { same = rw busy; value = λ a e. (let clash = rw busy at e in cc) }
  ]

  pub peek_challenge-Shows :
      (token : Bytes) (purpose : Purpose) (session : Bytes)
      → Shows w
          (λ f. peek_challenge o.tokens token purpose session (solo w) ≡ (ok f, solo w))
          (peek_challenge o.tokens token purpose session)
  peek_challenge-Shows token purpose session =
      let still = ap (λ x. x.1) (peek-consume o.tokens token purpose session w) in
      record { same = still; value = λ f e i. (e i, still i) }

  module _ (c : Crypto) (z : Zk) where
    -- What a policy that was read says.
    abbrev pub IsPolicy : Claim → Type 0
    IsPolicy claim =
        (row : ClaimRow) × (find_claim claim.name w.db.claims ≡ some row)
        × (parse_field c row.audience ≡ ok claim.audience)
        × (claim.threshold ≡ row.threshold)
        × (claim.kind ≡ row.kind)
        × (claim.allows_login ≡ row.allows_login)

    claim_by_name-Shows :
        (name : Bytes)
        → Shows w (λ row. find_claim name w.db.claims ≡ some row) (query (claim_by_name name))
    unfolding claim_by_name query
    claim_by_name-Shows name = elim (Option-cases (find_claim name w.db.claims)) [
      | inl absent ↦ record {
        same = rw (absent, claim_by_name);
        value = λ a e. (let clash = rw (absent, claim_by_name) at e in cc);
      }
      | inr (row, found) ↦ record {
        same = rw (found, claim_by_name);
        value = λ a e. found ∙ ap some (ok-injective (rw (found, claim_by_name) at e));
      }
    ]

    or_no_rows-ok : (r : Result ClaimRow) {row : ClaimRow} → or_no_rows r ≡ ok row → r ≡ ok row
    or_no_rows-ok (ok row) e = e
    or_no_rows-ok (err x) e = cc

    read_claim-Shows :
        (name : Bytes)
        → Shows w (λ claim. (claim.name ≡ name) × IsPolicy claim) (read_claim o c z name)
    unfolding read_claim
    read_claim-Shows name =
        Shows-bind w _ _ _ _ (Shows-attempt w _ _ (claim_by_name-Shows name)) λ found looked.
          Shows-bind w _ _ _ _
            (Shows-lift w (λ row. find_claim name w.db.claims ≡ some row) _
              (λ row e. looked row (or_no_rows-ok found e)))
            λ row there.
              Shows-bind w (λ audience. parse_field c row.audience ≡ ok audience) _ _ _
                (Shows-lift w _ _ (λ audience e. e))
                λ audience parsed. Shows-pure w _ _ (refl, (row, there, parsed, refl, refl, refl))

    unless_limited-ne {ℓ} :
        {A : Type ℓ} (e : Error) (r : Result (Unit {0})) {a : A} → unless_limited e r ≢ ok a
    unless_limited-ne e (ok _) h = cc
    unless_limited-ne e (err x) h = ground arith

    dummy-Shows {ℓ} :
        {A : Type ℓ} (P : A → Type 0) (proof : Bytes) (e : Error)
        → Shows w P (
            attempt (verify_dummy_membership o z proof)
            >>= (λ outcome. lift (unless_limited e outcome)))
    unfolding verify_dummy_membership
    dummy-Shows P proof e =
        Shows-bind w _ _ _ _ (Shows-attempt w _ _ (verify-Shows z.membership proof _))
          λ outcome _. Shows-lift w _ _ λ a h. absurd (unless_limited-ne e outcome h)

    claim_or_dummy-Shows :
        (P : Claim → Type 0) (proof : Bytes) (r : Result Claim)
        → ((claim : Claim) → r ≡ ok claim → P claim)
        → Shows w P (claim_or_dummy o c z proof r)
    unfolding claim_or_dummy
    claim_or_dummy-Shows P proof (ok claim) h = Shows-pure w P claim (h claim refl)
    claim_or_dummy-Shows P proof (err e) h =
        Shows-if w P (is_invalid_proof e) _ _ (λ _. dummy-Shows P proof e) λ _. Shows-raise w P e

    accepted_or_dummy-Shows :
        (proof : Bytes) (accepted : Bool)
        → Shows w (λ _. accepted ≡ true) (accepted_or_dummy o c z proof accepted)
    unfolding accepted_or_dummy
    accepted_or_dummy-Shows proof true = Shows-pure w _ tt refl
    accepted_or_dummy-Shows proof false = dummy-Shows _ proof _

    root_accepted-Shows :
        (root : Field)
        → Shows w
            (λ accepted. any_accepted w.now z.root_grace (field_bytes root) w.db.roots ≡ accepted)
            (root_accepted c z root)
    unfolding root_accepted root_accepted_row query
    root_accepted-Shows root = record { same = refl; value = λ a e. ok-injective e }

    -- What a request has shown that passed: its bytes are a root, a nullifier and a known policy;
    -- the root is accepted; and the proof checks for them and for the field of an open challenge.
    pub record Verified (req : MembershipRequest) (purpose : Purpose) (session : Bytes)
        (claim : Claim) (root nullifier : Field) : Type 0 where
      pub sized : (length req.proof == compressed_proof_size) ≡ true
      pub named : valid_claim_name o req.claim ≡ true
      pub policy : (claim.name ≡ req.claim) × IsPolicy claim
      pub root_read : parse_field c req.root ≡ ok root
      pub nullifier_read : parse_field c req.nullifier ≡ ok nullifier
      pub accepted : any_accepted w.now z.root_grace (field_bytes root) w.db.roots ≡ true
      pub challenge : Field
      pub peeked :
          peek_challenge o.tokens req.challenge purpose session (solo w) ≡ (ok challenge, solo w)
      pub proven :
          check_proof o z.membership req.proof (public_of o c z root claim nullifier challenge)
          ≡ ok tt

    or_invalid-ok : (r : Result Field) {x : Field} → or_invalid r ≡ ok x → r ≡ ok x
    or_invalid-ok (ok x) e = e
    or_invalid-ok (err x) e = cc

    pub hide-ok : (r : Result (Unit {0})) → hide r ≡ ok tt → r ≡ ok tt
    hide-ok (ok x) e = refl
    hide-ok (err x) e = ground arith

    parse-Shows :
        (raw : Bytes)
        → Shows w (λ x. parse_field c raw ≡ ok x) (lift (or_invalid (parse_field c raw)))
    parse-Shows raw = Shows-lift w _ _ λ x e. or_invalid-ok (parse_field c raw) e

    -- The first two phases write nothing, whatever they answer.
    pub verify_membership_request-Shows :
        (req : MembershipRequest) (purpose : Purpose) (session : Bytes)
        → Shows w
            (λ x. Verified req purpose session x.0 x.1 x.2)
            (verify_membership_request o c z req purpose session)
    unfolding verify_membership_request
    verify_membership_request-Shows req purpose session =
        Shows-unless w _ (length req.proof == compressed_proof_size) _ _ λ sized.
          Shows-unless w _ (valid_claim_name o req.claim) _ _ λ named.
            Shows-bind w _ _ _ _ (parse-Shows req.root) λ root root_read.
              Shows-bind w _ _ _ _ (parse-Shows req.nullifier) λ nullifier nullifier_read.
                Shows-bind w _ _ _ _ (Shows-attempt w _ _ (read_claim-Shows req.claim))
                  λ found looked.
                    Shows-bind w _ _ _ _ (claim_or_dummy-Shows _ req.proof found looked)
                      λ claim policy.
                        Shows-bind w _ _ _ _ (root_accepted-Shows root) λ accepted fresh.
                          Shows-bind w _ _ _ _ (accepted_or_dummy-Shows req.proof accepted)
                            λ _ yes_it_is.
                              Shows-bind w _ _ _ _
                                (peek_challenge-Shows req.challenge purpose session)
                                λ challenge peeked.
                                  Shows-bind w _ _ _ _
                                    (Shows-attempt w _ _ (verify-Shows z.membership req.proof _))
                                    λ outcome checked.
                                      Shows-bind w (λ _. outcome ≡ ok tt) _ _ _
                                        (Shows-lift w _ _ (λ _ e. hide-ok outcome e))
                                        λ _ passed. Shows-pure w _ _ (record {
                                          sized = sized;
                                          named = named;
                                          policy = policy;
                                          root_read = root_read;
                                          nullifier_read = nullifier_read;
                                          accepted = fresh ∙ yes_it_is;
                                          challenge = challenge;
                                          peeked = peeked;
                                          proven = checked tt passed;
                                        })

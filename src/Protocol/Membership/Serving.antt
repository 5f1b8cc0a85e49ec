-- ===== src/Protocol/Membership/Serving.antt =====
-- A membership request that has everything it needs is served (zkauthn/protocol.go: ProveClaim).
use kal_zk.Base.{◌≡◌, refl, sym, ap, ◌∙◌, true, Bytes, ◌∷◌, Option, none, subst, inl, inr}
use kal_zk.Error.{ok, Result-cases}
use kal_zk.Hash.{Field, Crypto, field_bytes}
use kal_zk.Service.{Zk}
use kal_zk.Store.{Purpose, Db, ClaimKind, recurring, one_shot, unknown_kind, claiming}
use kal_zk.Store.Exec.{World, query, pool, with_tx}
use kal_zk.Store.Claims.{put_session_claim, store_session_claim}
use kal_zk.Store.Nullifiers.{find_nullifier, bind_recurring_nullifier, bound_row, burned_row}
use kal_zk.Store.Nullifiers.Burning.{one_shot_nullifier-fresh}
use kal_zk.Tree.Invariant.{solo}
use kal_zk.Store.Challenges.{open_fields, consume_row}
use kal_zk.Store.Roots.{one}
use kal_zk.Store.Credentials.{null_if_empty}
use kal_zk.Challenge.{challenge_field, peek_challenge, consume_challenge}
use kal_zk.Challenge.Spending.{peek-consume}
use kal_zk.Protocol.Interface.{Outside, Principal, Claim, MembershipRequest}
use kal_zk.Protocol.Checking.{
  verify, read_claim, claim_or_dummy, accepted_or_dummy, verify_membership_request, known_kind,
}
use kal_zk.Protocol.Reading.{Verified}
use kal_zk.Protocol.Running.{read_claim-some, root_accepted-run}
use kal_zk.Protocol.Membership.{spend, claim_tx, prove_claim}
use kal_zk.Protocol.Membership.Claiming.{without_challenge, consume_challenge-Ends}

module _ (o : Outside) (c : Crypto) (z : Zk) (w : World) where
  read_claim-Verified :
      (req : MembershipRequest) (purpose : Purpose) (session : Bytes) (claim : Claim)
      (root nullifier : Field)
      → Verified o w c z req purpose session claim root nullifier
      → read_claim o c z req.claim (solo w) ≡ (ok claim, solo w)
  read_claim-Verified req purpose session claim root nullifier v =
      let (named, (row, there, read, t, k, l)) = v.policy in
      subst (λ name. read_claim o c z name (solo w) ≡ (ok claim, solo w)) named
        (read_claim-some o c z w claim.name row claim.audience there read ∙ (λ i. (
          ok (record {
            name = claim.name;
            audience = claim.audience;
            threshold = sym t i;
            kind = sym k i;
            allows_login = sym l i;
          }),
          solo w,
        )))

  -- A request that shows what verifyMembershipRequest asks for passes it, when a slot is free.
  pub verify_membership_request-Verified :
      (req : MembershipRequest) (purpose : Purpose) (session : Bytes) (claim : Claim)
      (root nullifier : Field)
      → o.admits (solo w) ≡ true
      → Verified o w c z req purpose session claim root nullifier
      → verify_membership_request o c z req purpose session (solo w)
        ≡ (ok (claim, root, nullifier), solo w)
  unfolding verify_membership_request claim_or_dummy accepted_or_dummy verify
  verify_membership_request-Verified req purpose session claim root nullifier free v =
      rw
        (
          v.sized,
          v.named,
          v.root_read,
          v.nullifier_read,
          read_claim-Verified req purpose session claim root nullifier v,
          root_accepted-run o c z w root,
          v.accepted,
          v.peeked,
          free,
          v.proven,
        )
        refl

  -- An unused nullifier is accepted for either kind of policy.
  spend-fresh :
      (kind : ClaimKind) (p : Principal) (claim : Claim) (n : Field) (v : World)
      → known_kind kind ≡ true
      → find_nullifier (field_bytes n) v.db.nullifiers ≡ none
      → (d : Db) × (spend o kind p claim n (solo v) ≡ (ok tt, record (solo v) { db = d }))
  unfolding spend query store_session_claim bind_recurring_nullifier
  spend-fresh recurring p claim n v known unused = (
    record v.db {
      nullifiers =
          bound_row (field_bytes n) (field_bytes claim.audience) p.user_id ∷ v.db.nullifiers;
      session_claims = put_session_claim p.session_id claim.name v.db.session_claims;
    },
    rw (bind_recurring_nullifier, unused) refl,
  )
  spend-fresh one_shot p claim n v known unused = (
    record v.db {
      nullifiers = burned_row v.now (field_bytes n) (field_bytes claim.audience) ∷ v.db.nullifiers;
    },
    rw (one_shot_nullifier-fresh (field_bytes n) (field_bytes claim.audience) v.now v.db unused)
        refl,
  )
  spend-fresh (unknown_kind s) p claim n v known unused = cc

  -- What a challenge answers does not depend on where the transaction began.
  consume-begun :
      (token : Bytes) (purpose : Purpose) (session : Bytes)
      → (consume_challenge o.tokens token purpose session (solo (record w { base = w.db }))).0
        ≡ (consume_challenge o.tokens token purpose session (solo w)).0
  unfolding consume_challenge query consume_row
  consume-begun token purpose session = elim (Result-cases (challenge_field o.tokens token)) [
    | inr (e, bad) ↦ rw bad refl
    | inl ((field, hash), good) ↦
        elim (Result-cases
          (one (open_fields w.now hash purpose (null_if_empty session) w.db.challenges))) [
            | inl (stored, found) ↦ rw (good, found) refl
            | inr (e, none_found) ↦ rw (good, none_found) refl
          ]
  ]

  consume-peeked :
      (token : Bytes) (session : Bytes) (challenge : Field)
      → peek_challenge o.tokens token claiming session (solo w) ≡ (ok challenge, solo w)
      → consume_challenge o.tokens token claiming session (solo (record w { base = w.db })) ≡ (
        ok challenge,
        record (solo (record w { base = w.db })) {
          db = without_challenge o.tokens token claiming session w.now w.db;
        },
      )
  consume-peeked token session challenge peeked =
      let begun = record w { base = w.db } in
      let read = ap (λ x. x.0) (sym (peek-consume o.tokens token claiming session w) ∙ peeked) in
      let spent = consume-begun token claiming session ∙ read in
      let ran = consume_challenge o.tokens token claiming session (solo begun) in
      let world =
        (consume_challenge-Ends o.tokens token claiming session begun).value challenge ran.1
          (λ i. (spent i, ran.1)) in
      λ i. (spent i, world i)

  -- ProveClaim serves every request that shows what it asks for: an authenticated caller, a verified
  -- request for a policy of a known kind, an unused nullifier, a free slot, and a sink that takes the claim.
  pub prove_claim-serves :
      (ctx : Option Principal) (req : MembershipRequest) (p : Principal) (claim : Claim)
      (root nullifier : Field)
      → o.require ctx ≡ ok p
      → o.admits (solo w) ≡ true
      → Verified o w c z req claiming p.session_id claim root nullifier
      → known_kind claim.kind ≡ true
      → find_nullifier (field_bytes nullifier) w.db.nullifiers ≡ none
      → o.proof_sink (record { name = claim.name; kind = claim.kind }) ≡ ok tt
      → (prove_claim o c z pool ctx req (solo w)).0 ≡ ok tt
  unfolding prove_claim with_tx claim_tx
  prove_claim-serves ctx req p claim root nullifier known free v kind unused sinks =
      let verified =
        verify_membership_request-Verified req claiming p.session_id claim root nullifier free v in
      let begun = record w { base = w.db } in
      let burned = consume-peeked req.challenge p.session_id v.challenge v.peeked in
      let between = without_challenge o.tokens req.challenge claiming p.session_id w.now w.db in
      let (d, spent) =
        spend-fresh claim.kind p claim nullifier (record begun { db = between }) kind unused in
      rw (known, verified, burned, spent, sinks) refl

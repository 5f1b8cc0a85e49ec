-- ===== src/Protocol/Membership/Rollback.antt =====
-- A claim that is refused inside of its transaction leaves no trace (zkauthn/protocol.go: the
-- transaction of ProveClaim).
use kal_zk.Base.{◌≡◌, refl, Bytes, Option}
use kal_zk.Error.{Error, Result, ok, err}
use kal_zk.Hash.{Field, field_bytes}
use kal_zk.Store.{Purpose, claiming, ClaimKind, recurring, one_shot, unknown_kind}
use kal_zk.Store.Exec.{World, M, query, lift, attempt, ◌>>=◌, ◌>>◌, pool, with_tx}
use kal_zk.Store.Challenges.{consume_row}
use kal_zk.Store.Credentials.{null_if_empty}
use kal_zk.Store.Rollback.{
  IsTransactional, bind-IsTransactional, query-IsTransactional, lift-IsTransactional,
  attempt-IsTransactional, with_tx-rollback,
}
use kal_zk.Store.Claims.{store_session_claim}
use kal_zk.Store.Nullifiers.{one_shot_nullifier, bind_recurring_nullifier}
use kal_zk.Challenge.{Tokens, challenge_field, consume_challenge, matching, or_invalid, or_no_rows}
use kal_zk.Protocol.Interface.{Outside, Principal, Claim, MembershipRequest}
use kal_zk.Hash.{Crypto}
use kal_zk.Service.{Zk}
use kal_zk.Store.Ending.{Ends-lift, Ends-weaken, Ends-of_Shows}
use kal_zk.Store.Failing.{Fails, Fails-at, Fails-lift, Fails-bind, Fails-of_Shows, Fails-with_tx}
use kal_zk.Protocol.Reading.{verify_membership_request-Shows}
use kal_zk.Protocol.Membership.{spend, claim_tx, prove_claim}
use kal_zk.Tree.Invariant.{solo}

consume_challenge-IsTransactional :
    (t : Tokens) (token : Bytes) (purpose : Purpose) (session : Bytes)
    → IsTransactional (consume_challenge t token purpose session)
unfolding consume_challenge
consume_challenge-IsTransactional t token purpose session =
    let compare : Field → Bytes → M Field = λ field stored. lift (matching t field stored) in
    let answer : Field → Result Bytes → M Field =
      λ field found. lift (or_no_rows found) >>= compare field in
    let burn : Bytes → M (Result Bytes) =
      λ hash. attempt (query (consume_row hash purpose (null_if_empty session))) in
    bind-IsTransactional (λ x. burn x.1 >>= answer x.0)
      (λ x.
        bind-IsTransactional (answer x.0)
          (λ found.
            bind-IsTransactional (compare x.0) (λ stored. lift-IsTransactional _)
              (lift (or_no_rows found)) (lift-IsTransactional _))
          (burn x.1) (attempt-IsTransactional _ (query-IsTransactional _)))
      (lift (or_invalid (challenge_field t token))) (lift-IsTransactional _)

module _ (o : Outside) where
  store-IsTransactional :
      (session name : Bytes) → IsTransactional (query (store_session_claim session name))
  store-IsTransactional session name = query-IsTransactional _

  spend-IsTransactional :
      (kind : ClaimKind) (p : Principal) (claim : Claim) (nullifier : Field)
      → IsTransactional (spend o kind p claim nullifier)
  unfolding spend
  spend-IsTransactional recurring p claim nullifier =
      let bind =
        bind_recurring_nullifier (field_bytes nullifier) (field_bytes claim.audience) p.user_id in
      let store : M (Unit {0}) = query (store_session_claim p.session_id claim.name) in
      bind-IsTransactional (λ bound. lift (or_no_rows bound) >> store)
        (λ bound.
          bind-IsTransactional (λ _. store) (λ _. query-IsTransactional _) (lift (or_no_rows bound))
            (lift-IsTransactional _))
        (attempt (query bind)) (attempt-IsTransactional _ (query-IsTransactional bind))
  spend-IsTransactional one_shot p claim nullifier =
      let burn = one_shot_nullifier (field_bytes nullifier) (field_bytes claim.audience) in
      let done : M (Unit {0}) = lift (ok tt) in
      bind-IsTransactional (λ burned. lift (or_no_rows burned) >> done)
        (λ burned.
          bind-IsTransactional (λ _. done) (λ _. lift-IsTransactional _) (lift (or_no_rows burned))
            (lift-IsTransactional _))
        (attempt (query burn)) (attempt-IsTransactional _ (query-IsTransactional burn))
  spend-IsTransactional (unknown_kind s) p claim nullifier = lift-IsTransactional _

  claim_tx-IsTransactional :
      (p : Principal) (req : MembershipRequest) (claim : Claim) (nullifier : Field)
      → IsTransactional (claim_tx o p req claim nullifier)
  unfolding claim_tx
  claim_tx-IsTransactional p req claim nullifier =
      let sink : M (Unit {0}) =
        lift (o.proof_sink (record { name = claim.name; kind = claim.kind })) in
      let spending = spend o claim.kind p claim nullifier in
      bind-IsTransactional (λ _. spending >> sink)
        (λ _.
          bind-IsTransactional (λ _. sink) (λ _. lift-IsTransactional _) spending
            (spend-IsTransactional claim.kind p claim nullifier))
        (consume_challenge o.tokens req.challenge claiming p.session_id)
        (consume_challenge-IsTransactional o.tokens req.challenge claiming p.session_id)

  -- If the transaction of ProveClaim fails, at the challenge, the claim or the sink, on a connection
  -- that is alone, no table has changed: neither the challenge nor the allowance is burned.
  pub claim_tx-rollback :
      (p : Principal) (req : MembershipRequest) (claim : Claim) (nullifier : Field) (w w' : World)
      (e : Error)
      → with_tx pool (claim_tx o p req claim nullifier) (solo w) ≡ (err e, w')
      → w'.db ≡ w.db
  claim_tx-rollback p req claim nullifier w w' e failed =
      with_tx-rollback (claim_tx o p req claim nullifier) w
        (claim_tx-IsTransactional p req claim nullifier) failed

module _ (o : Outside) (c : Crypto) (z : Zk) where
  prove_claim-Fails :
      (ctx : Option Principal) (req : MembershipRequest) (w : World)
      → Fails (solo w) (λ w'. w'.db ≡ w.db) (prove_claim o c z pool ctx req)
  unfolding prove_claim
  prove_claim-Fails ctx req w =
      Fails-bind _ (λ p w₁. w₁ ≡ solo w) _ _ _ (Fails-lift _ _ _ refl) (Ends-lift _ _ _ λ _ _. refl)
        λ p w₁ here.
          let reads = verify_membership_request-Shows o w c z req claiming p.session_id in
          Fails-at here (
            Fails-bind _ (λ _ w₂. w₂ ≡ solo w) _ _ _ (Fails-of_Shows w _ _ _ reads refl)
              (Ends-weaken _ _ _ _ (Ends-of_Shows w _ _ reads) λ _ _ x. x.1)
              λ x w₂ still.
                Fails-at still (Fails-with_tx w _ (claim_tx-IsTransactional o p req x.0 x.2)))

  -- A ProveClaim that fails for whatever reason, on a connection that works and is alone, changes
  -- no table: the challenge is not spent and nothing is burned, bound or recorded.
  pub prove_claim-rollback :
      (ctx : Option Principal) (req : MembershipRequest) (w w' : World) (e : Error)
      → prove_claim o c z pool ctx req (solo w) ≡ (err e, w')
      → w'.db ≡ w.db
  prove_claim-rollback ctx req w w' e run = (prove_claim-Fails ctx req w).left e w' run

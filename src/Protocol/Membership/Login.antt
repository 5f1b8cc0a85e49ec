-- ===== src/Protocol/Membership/Login.antt =====
-- What a successful `Login` (zkauthn/protocol.go) has shown.
use kal_zk.Base.{◌≡◌, refl, subst, ◌∙◌, true, Bytes, [], Option, none, some}
use kal_zk.Error.{ok}
use kal_zk.Hash.{Field, Crypto}
use kal_zk.Service.{Zk}
use kal_zk.Store.{recurring, one_shot, unknown_kind, login, ClaimKind}
use kal_zk.Store.Exec.{World, query, lift, pool}
use kal_zk.Store.Claims.{store_session_claim}
use kal_zk.Store.Nullifiers.{has_account}
use kal_zk.Store.Ending.{
  Ends, Ends-pure, Ends-raise, Ends-bind, Ends-at, Ends-self, Ends-of_Shows, Ends-with_tx_value,
  Ends-when,
}
use kal_zk.Protocol.Interface.{Outside, Principal, Claim, MembershipRequest}
use kal_zk.Protocol.Reading.{Verified, verify_membership_request-Shows}
use kal_zk.Protocol.Membership.{
  resolve_pseudonym, pseudonym, end_prior, found_principal, login_tx, may_login, login_by_proof,
}
use kal_zk.Protocol.Membership.Claiming.{consume_challenge-Ends, without_challenge}
use kal_zk.Protocol.Membership.Pseudonyms.{resolve_pseudonym-stable}
use kal_zk.Tree.Invariant.{solo}

module _ (o : Outside) where
  -- A session of kal was issued for this account, and is the one that the caller gets.
  pub record SessionFor (user : Bytes) (principal : Principal) : Type 0 where
    pub token : Bytes
    pub before : World
    pub between : World
    pub issued : o.issue user before ≡ (ok token, between)
    pub after : World
    pub looked : o.lookup token between ≡ (ok (some principal), after)

  -- The account has the e-mail of the nullifier's pseudonym.
  pub record IsPseudonymous (n audience : Field) (user : Bytes) : Type 0 where
    pub before : World
    pub after : World
    pub resolved : resolve_pseudonym o n audience before ≡ (ok user, after)
    pub account : has_account user (pseudonym n) after.db.users ≡ true

  found_principal-Ends :
      (w : World) (p : Option Principal)
      → Ends w (λ q w'. (p ≡ some q) × (w' ≡ w)) (found_principal o p)
  found_principal-Ends w none = Ends-raise _ _ _
  found_principal-Ends w (some p) = Ends-pure _ _ p (refl, refl)

  login_tx-Ends :
      (ctx : Option Principal) (req : MembershipRequest) (claim : Claim) (n : Field) (w : World)
      → Ends
          (solo w)
          (λ x w'. (user : Bytes) × IsPseudonymous n claim.audience user × SessionFor user x.1)
          (login_tx o ctx req claim n)
  unfolding login_tx
  login_tx-Ends ctx req claim n w =
      let spent = record w { db = without_challenge o.tokens req.challenge login [] w.now w.db } in
      Ends-bind _ _ _ _ _ (consume_challenge-Ends o.tokens req.challenge login [] w) λ f w₁ burned.
        Ends-bind _ _ _ _ _
          (Ends-at burned (Ends-self (solo spent) (resolve_pseudonym o n claim.audience)))
          λ user w₂ resolved. Ends-bind _ _ _ _ _ (Ends-self w₂ (end_prior o ctx)) λ _ w₃ _.
            Ends-bind _ _ _ _ _ (Ends-self w₃ (o.issue user)) λ token w₄ issued.
              Ends-bind _ _ _ _ _ (Ends-self w₄ (o.lookup token)) λ looked w₅ found.
                Ends-bind _ _ _ _ _ (found_principal-Ends w₅ looked) λ principal w₆ (same, _).
                  Ends-bind _ _ _ _ _
                    (Ends-self w₆ (query (store_session_claim principal.session_id claim.name)))
                    λ _ w₇ _.
                      Ends-pure _ _ (token, principal)
                        (
                          user,
                          record {
                            before = solo spent;
                            after = w₂;
                            resolved = resolved;
                            account =
                                (resolve_pseudonym-stable o n claim.audience spent 0 resolved).0;
                          },
                          record {
                            token = token;
                            before = w₃;
                            between = w₄;
                            issued = issued;
                            after = w₅;
                            looked = subst (λ q. o.lookup token w₄ ≡ (ok q, w₅)) same found;
                          },
                        )

  may_login-Ends :
      (w : World) (claim : Claim)
      → Ends w
          (λ _ w'. (claim.kind ≡ recurring) × (claim.allows_login ≡ true) × (w' ≡ w))
          (may_login o claim)
  unfolding may_login
  may_login-Ends w claim = allow claim.kind refl
    where
      allow :
          (kind : ClaimKind)
          → claim.kind ≡ kind
          → Ends w
              (λ _ w'. (claim.kind ≡ recurring) × (claim.allows_login ≡ true) × (w' ≡ w))
              (may_login o claim)
      allow recurring e = rw e (Ends-when _ _ _ _ λ allowed. (refl, allowed, refl))
      allow one_shot e = rw e (Ends-raise _ _ _)
      allow (unknown_kind s) e = rw e (Ends-raise _ _ _)

  module _ (c : Crypto) (z : Zk) where
    -- What a successful Login has shown.
    pub record LoggedIn (w : World) (req : MembershipRequest) (principal : Principal) : Type 0 where
      pub claim : Claim
      pub root : Field
      pub nullifier : Field
      pub verified : Verified o w c z req login [] claim root nullifier
      pub recurs : claim.kind ≡ recurring
      pub allowed : claim.allows_login ≡ true
      pub user : Bytes
      pub account : IsPseudonymous nullifier claim.audience user
      pub session : SessionFor user principal

    login_by_proof-Ends :
        (ctx : Option Principal) (req : MembershipRequest) (w : World)
        → Ends
            (solo w)
            (λ principal w'. LoggedIn w req principal)
            (login_by_proof o c z pool ctx req)
    unfolding login_by_proof
    login_by_proof-Ends ctx req w =
        Ends-bind _ _ _ _ _
          (Ends-of_Shows w _ _ (verify_membership_request-Shows o w c z req login []))
          λ x w₁ (verified, still).
            Ends-bind _ _ _ _ _ (may_login-Ends w₁ x.0) λ _ w₂ (recurs, allowed, same).
              Ends-bind _
                (λ y _. (user : Bytes) × IsPseudonymous x.2 x.0.audience user × SessionFor user y.1)
                _ _ _
                (Ends-at (same ∙ still) (
                  Ends-with_tx_value _ w _
                    (login_tx-Ends ctx req x.0 x.2 (record w { base = w.db }))))
                λ y w₃ (user, account, session).
                  Ends-bind _ _ _ _ _ (Ends-self w₃ (lift (o.set_cookie z.cookie_name y.0)))
                    λ _ w₄ _. Ends-pure _ _ y.1 (record {
                      claim = x.0;
                      root = x.1;
                      nullifier = x.2;
                      verified = verified;
                      recurs = recurs;
                      allowed = allowed;
                      user = user;
                      account = account;
                      session = session;
                    })

    pub login_by_proof-LoggedIn :
        (ctx : Option Principal) (req : MembershipRequest) (w w' : World) (principal : Principal)
        → login_by_proof o c z pool ctx req (solo w) ≡ (ok principal, w')
        → LoggedIn w req principal
    login_by_proof-LoggedIn ctx req w w' principal run =
        (login_by_proof-Ends ctx req w).value principal w' run

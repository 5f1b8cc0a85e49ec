-- ===== src/Protocol/Membership/Claiming.antt =====
-- What a successful `ProveClaim` (zkauthn/protocol.go) has shown, and what it has written.
use kal_zk.Base.{
  arith, ℕ, ◌≡◌, refl, sym, ap, Bytes, List, ◌∷◌, Option, none, inl, inr, Option-cases,
}
use kal_zk.Error.{ok, Result-cases}
use kal_zk.Hash.{Field, Crypto, field_bytes}
use kal_zk.Service.{Zk}
use kal_zk.Store.{Db, ClaimKind, recurring, one_shot, unknown_kind, Purpose, claiming, NullifierRow}
use kal_zk.Store.Exec.{World, query, pool}
use kal_zk.Store.Challenges.{burn_rows, consume_row, open_fields}
use kal_zk.Store.Credentials.{null_if_empty}
use kal_zk.Store.Roots.{one}
use kal_zk.Store.Claims.{put_session_claim, store_session_claim}
use kal_zk.Store.Nullifiers.{find_nullifier, burned_row}
use kal_zk.Store.Nullifiers.Burning.{
  Binds, bind_recurring_nullifier-cases, one_shot_nullifier-fresh, one_shot_nullifier-taken,
}
use kal_zk.Store.Ending.{
  Ends, Ends-lift, Ends-raise, Ends-bind, Ends-weaken, Ends-at, Ends-of_Shows, Ends-with_tx,
  committed,
}
use kal_zk.Challenge.{Tokens, challenge_field, consume_challenge}
use kal_zk.Protocol.Interface.{Outside, Principal, Claim, MembershipRequest}
use kal_zk.Protocol.Reading.{Verified, verify_membership_request-Shows}
use kal_zk.Protocol.Membership.{spend, claim_tx, prove_claim}
use kal_zk.Tree.Invariant.{solo, settled}

-- The tables after a challenge was spent.
abbrev pub without_challenge : Tokens → Bytes → Purpose → Bytes → ℕ → Db → Db
without_challenge t token purpose session now db = record db {
  challenges = burn_rows now (t.sha256 token) purpose (null_if_empty session) db.challenges;
}

pub challenge_field-hash :
    (t : Tokens) (token : Bytes) {f : Field} {hash : Bytes}
    → challenge_field t token ≡ ok (f, hash)
    → hash ≡ t.sha256 token
unfolding challenge_field
challenge_field-hash t token e = ground arith

pub consume_challenge-Ends :
    (t : Tokens) (token : Bytes) (purpose : Purpose) (session : Bytes) (w : World)
    → Ends
        (solo w)
        (λ f w'. w' ≡ record (solo w) { db = without_challenge t token purpose session w.now w.db })
        (consume_challenge t token purpose session)
unfolding consume_challenge query consume_row
consume_challenge-Ends t token purpose session w = elim (Result-cases (challenge_field t token)) [
  | inr (x, bad) ↦ record { value = λ f w' e. (let clash = ap (λ y. y.0) (rw bad at e) in cc) }
  | inl ((field, hash), good) ↦
      let same = challenge_field-hash t token good in
      elim (Result-cases
        (one (open_fields w.now hash purpose (null_if_empty session) w.db.challenges))) [
          | inl (stored, found) ↦ record {
            value = λ f w' e. rw (← same) (sym (ap (λ y. y.1) (rw (good, found) at e)));
          }
          | inr (x, none_found) ↦ record {
            value = λ f w' e. (let clash = ap (λ y. y.0) (rw (good, none_found) at e) in cc);
          }
        ]
]

-- What a claim of each kind that succeeded has written.
abbrev pub Spent : ℕ → ClaimKind → Principal → Claim → Field → Db → Db → Type 0
Spent now recurring p claim n before after =
    (rows : List NullifierRow) × Binds (field_bytes n) (field_bytes claim.audience) p.user_id
      before.nullifiers rows
    × (after ≡ record before {
      nullifiers = rows;
      session_claims = put_session_claim p.session_id claim.name before.session_claims;
    })
Spent now one_shot p claim n before after =
    (find_nullifier (field_bytes n) before.nullifiers ≡ none)
    × (after ≡ record before {
      nullifiers = burned_row now (field_bytes n) (field_bytes claim.audience) ∷ before.nullifiers;
    })
Spent now (unknown_kind s) p claim n before after = ⊥

module _ (o : Outside) where
  -- A claim that succeeds has written what its kind asks for, and nothing else.
  spend-Ends :
      (kind : ClaimKind) (p : Principal) (claim : Claim) (n : Field) (w : World)
      → Ends
          (solo w)
          (λ _ w'. (d : Db) × (w' ≡ record (solo w) { db = d }) × Spent w.now kind p claim n w.db d)
          (spend o kind p claim n)
  unfolding spend query store_session_claim
  spend-Ends recurring p claim n w =
      let run =
        bind_recurring_nullifier-cases (field_bytes n) (field_bytes claim.audience) p.user_id w.now
          w.db in
      elim run [
        | inl refused ↦ record {
          value = λ a w' e. (let clash = ap (λ y. y.0) (rw refused at e) in cc);
        }
        | inr (rows, binds, done) ↦ record {
          value = λ a w' e. (_, sym (ap (λ y. y.1) (rw done at e)), (rows, binds, refl));
        }
      ]
  spend-Ends one_shot p claim n w =
      elim (Option-cases (find_nullifier (field_bytes n) w.db.nullifiers)) [
        | inr (r, taken) ↦ record {
          value = λ a w' e.
              (let clash =
                  ap (λ y. y.0)
                    (rw
                      (one_shot_nullifier-taken (field_bytes n) (field_bytes claim.audience) w.now
                        w.db taken)
                      at e) in
                cc);
        }
        | inl unused ↦ record {
          value = λ a w' e. (
            _,
            sym (
                ap (λ y. y.1)
                  (rw
                    (one_shot_nullifier-fresh (field_bytes n) (field_bytes claim.audience) w.now
                      w.db unused)
                    at e)),
            (unused, refl),
          );
        }
      ]
  spend-Ends (unknown_kind s) p claim n w = Ends-raise _ _ _

  -- The transaction of ProveClaim.
  claim_tx-Ends :
      (p : Principal) (req : MembershipRequest) (claim : Claim) (n : Field) (w : World)
      → Ends
          (solo w)
          (λ _ w'.
            (d : Db) × (w' ≡ record (solo w) { db = d })
            × Spent w.now claim.kind p claim n
                (without_challenge o.tokens req.challenge claiming p.session_id w.now w.db)
                d)
          (claim_tx o p req claim n)
  unfolding claim_tx
  claim_tx-Ends p req claim n w =
      let between = without_challenge o.tokens req.challenge claiming p.session_id w.now w.db in
      Ends-bind _ _ _ _ _ (consume_challenge-Ends o.tokens req.challenge claiming p.session_id w)
        λ f w₁ burned.
          Ends-bind _ _ _ _ _
            (Ends-at burned (spend-Ends claim.kind p claim n (record w { db = between })))
            λ _ w₂ (d, world, spent). Ends-lift _ _ _ λ _ _. (d, world, spent)

  module _ (c : Crypto) (z : Zk) where
    -- What a successful ProveClaim has shown of the request and done to the tables.
    pub record Claimed (w : World) (ctx : Option Principal) (req : MembershipRequest) (after : Db)
        : Type 0 where
      pub principal : Principal
      pub claim : Claim
      pub root : Field
      pub nullifier : Field
      pub authenticated : o.require ctx ≡ ok principal
      pub verified : Verified o w c z req claiming principal.session_id claim root nullifier
      pub spent :
          Spent w.now claim.kind principal claim nullifier
            (without_challenge o.tokens req.challenge claiming principal.session_id w.now w.db)
            after

    prove_claim-Ends :
        (ctx : Option Principal) (req : MembershipRequest) (w : World)
        → Ends
            (solo w)
            (λ _ w'. (d : Db) × (w' ≡ settled w d) × Claimed w ctx req d)
            (prove_claim o c z pool ctx req)
    unfolding prove_claim
    prove_claim-Ends ctx req w =
        Ends-bind _ (λ p w₁. (o.require ctx ≡ ok p) × (w₁ ≡ solo w)) _ _ _
          (Ends-lift _ _ _ λ p known. (known, refl))
          λ p w₁ (known, here).
            Ends-bind _ _ _ _ _
              (Ends-at here (
                Ends-of_Shows w _ _
                  (verify_membership_request-Shows o w c z req claiming p.session_id)))
              λ x w₂ (verified, still). Ends-at still (
                Ends-with_tx _ w _ (
                  Ends-weaken _ _ _ _ (claim_tx-Ends p req x.0 x.2 (record w { base = w.db }))
                    λ _ w₃ (d, world, spent). (
                      ap (λ v. v.schedule) world,
                      (
                        d,
                        ap committed world,
                        record {
                          principal = p;
                          claim = x.0;
                          root = x.1;
                          nullifier = x.2;
                          authenticated = known;
                          verified = verified;
                          spent = spent;
                        },
                      ),
                    )))

    -- A ProveClaim that succeeds, on a connection that works and is alone, had an authenticated
    -- caller and a verified request; it has spent the challenge and written what the kind of the
    -- policy asks for, a bound nullifier with a session claim or a burned nullifier that was
    -- unused, and nothing else.
    pub prove_claim-Claimed :
        (ctx : Option Principal) (req : MembershipRequest) (w w' : World)
        → prove_claim o c z pool ctx req (solo w) ≡ (ok tt, w')
        → (d : Db) × (w' ≡ settled w d) × Claimed w ctx req d
    prove_claim-Claimed ctx req w w' run = (prove_claim-Ends ctx req w).value tt w' run

-- ===== src/Protocol/Knowledge/StepUp.antt =====
-- What a successful `VerifyKnowledge` (zkauthn/protocol.go) has shown.
use kal_zk.Base.{
  ◌≡◌, refl, subst, ap, ◌∙◌, ◌==◌, length, Bytes, Option, none, some, Option-cases, inl, inr,
}
use kal_zk.Error.{Result, ok, err, no_rows, ok-injective}
use kal_zk.Hash.{Field, Crypto, parse_field}
use kal_zk.Service.{Zk}
use kal_zk.Store.{knowledge}
use kal_zk.Store.Exec.{World, query, lift, pool, with_tx}
use kal_zk.Store.Users.{commitment_by_user, find_commitment}
use kal_zk.Store.Reading.{Shows, Shows-lift, Shows-pure, Shows-raise, Shows-attempt}
use kal_zk.Store.Ending.{
  Ends, Ends-lift, Ends-bind, Ends-at, Ends-unless, Ends-self, Ends-weaken, Ends-of_Shows,
}
use kal_zk.Challenge.{peek_challenge}
use kal_zk.Protocol.Interface.{Outside, Principal, of_knowledge, KnowledgeRequest}
use kal_zk.Protocol.Checking.{check_proof, compressed_proof_size}
use kal_zk.Protocol.Reading.{verify-Shows, peek_challenge-Shows, hide-ok}
use kal_zk.Protocol.Knowledge.{
  or_absent, commitment_or_dummy, enrolled, step_up_tx, verify_knowledge,
}
use kal_zk.Tree.Invariant.{solo}

module _ (o : Outside) (c : Crypto) (z : Zk) where
  -- What a successful step-up has shown for the principal.
  pub record SteppedUp (w : World) (p : Principal) (req : KnowledgeRequest) : Type 0 where
    pub stored : Bytes
    pub commitment : Field
    pub challenge : Field
    pub enrolled_as : find_commitment p.user_id w.db.commitments ≡ some stored
    pub read : parse_field c stored ≡ ok commitment
    pub peeked :
        peek_challenge o.tokens req.challenge knowledge p.session_id (solo w)
        ≡ (ok challenge, solo w)
    pub proven : check_proof o z.knowledge req.proof (of_knowledge commitment challenge) ≡ ok tt

  commitment-Shows :
      (w : World) (user : Bytes)
      → Shows w
          (λ raw. find_commitment user w.db.commitments ≡ some raw)
          (query (commitment_by_user user))
  unfolding commitment_by_user query
  commitment-Shows w user = elim (Option-cases (find_commitment user w.db.commitments)) [
    | inl absent ↦ record {
      same = rw (absent, commitment_by_user);
      value = λ a e. (let clash = rw (absent, commitment_by_user) at e in cc);
    }
    | inr (raw, found) ↦ record {
      same = rw (found, commitment_by_user);
      value = λ a e. found ∙ ap some (ok-injective (rw (found, commitment_by_user) at e));
    }
  ]

  or_absent-Shows :
      (w : World) (r : Result Bytes)
      → Shows w (λ raw. (x : Bytes) → raw ≡ some x → r ≡ ok x) (or_absent r)
  or_absent-Shows w (ok a) = Shows-pure w _ _ λ x e. (cc)
  or_absent-Shows w (err no_rows) = Shows-pure w _ _ λ x e. (cc)
  or_absent-Shows w (err e) = Shows-raise w _ e

  enrolled-Shows :
      (w : World) (raw : Option Bytes)
      → Shows w (λ _. (x : Bytes) × (raw ≡ some x)) (enrolled o c z raw)
  enrolled-Shows w none = Shows-raise w _ _
  enrolled-Shows w (some x) = Shows-pure w _ tt (x, refl)

  verify_knowledge-Ends :
      (ctx : Option Principal) (req : KnowledgeRequest) (w : World)
      → Ends
          (solo w)
          (λ _ _. (p : Principal) × (o.require ctx ≡ ok p) × SteppedUp w p req)
          (verify_knowledge o c z pool ctx req)
  unfolding verify_knowledge
  verify_knowledge-Ends ctx req w =
      Ends-bind _ (λ p w₁. (o.require ctx ≡ ok p) × (w₁ ≡ solo w)) _ _ _
        (Ends-lift _ _ _ λ p known. (known, refl))
        λ p w₁ (known, s₁). Ends-at s₁ (
          Ends-unless _ _ (length req.proof == compressed_proof_size) _ _ λ _.
            Ends-bind _ _ _ _ _
              (Ends-of_Shows w _ _ (peek_challenge-Shows o w req.challenge knowledge p.session_id))
              λ challenge w₂ (peeked, s₂).
                Ends-bind _ _ _ _ _
                  (Ends-at s₂
                    (Ends-of_Shows w _ _ (Shows-attempt w _ _ (commitment-Shows w p.user_id))))
                  λ found w₃ (looked, s₃).
                    Ends-bind _ _ _ _ _ (Ends-at s₃ (Ends-of_Shows w _ _ (or_absent-Shows w found)))
                      λ raw w₄ (there, s₄).
                        Ends-bind _ _ _ _ _
                          (Ends-at s₄ (
                            Ends-of_Shows w
                              (λ commitment. commitment_or_dummy o c z raw ≡ ok commitment) _
                              (Shows-lift w _ _ λ x e. e)))
                          λ commitment w₅ (read, s₅).
                            Ends-bind _ _ _ _ _
                              (Ends-at s₅ (
                                Ends-of_Shows w _ _ (
                                  Shows-attempt w _ _ (
                                    verify-Shows o w z.knowledge req.proof
                                      (of_knowledge commitment challenge)))))
                              λ outcome w₆ (checked, s₆).
                                Ends-bind _ _ _ _ _
                                  (Ends-at s₆ (
                                    Ends-of_Shows w (λ _. outcome ≡ ok tt) _
                                      (Shows-lift w _ _ λ _ e. hide-ok o w c z outcome e)))
                                  λ _ w₇ (passed, s₇).
                                    Ends-bind _ _ _ _ _
                                      (Ends-at s₇ (Ends-of_Shows w _ _ (enrolled-Shows w raw)))
                                      λ _ w₈ ((x, is), s₈).
                                        Ends-bind _ _ _ _ _
                                          (Ends-self w₈
                                            (with_tx pool (step_up_tx o c z p req.challenge)))
                                          λ rotated w₉ _.
                                            Ends-weaken _ _ _ _
                                              (Ends-self w₉
                                                (lift (o.set_cookie z.cookie_name rotated)))
                                              λ _ _ _. (
                                                p,
                                                known,
                                                record {
                                                  stored = x;
                                                  commitment = commitment;
                                                  challenge = challenge;
                                                  enrolled_as = looked x (there x is);
                                                  read =
                                                      subst
                                                        (λ r.
                                                          commitment_or_dummy o c z r
                                                          ≡ ok commitment)
                                                        is read;
                                                  peeked = peeked;
                                                  proven = checked tt passed;
                                                },
                                              ))

  -- A VerifyKnowledge that succeeds, on a connection that works and is alone, had an authenticated
  -- caller who is enrolled, and a proof that checks for the commitment of that enrolment and for
  -- the field of an open challenge of the caller's session.
  pub verify_knowledge-SteppedUp :
      (ctx : Option Principal) (req : KnowledgeRequest) (w w' : World)
      → verify_knowledge o c z pool ctx req (solo w) ≡ (ok tt, w')
      → (p : Principal) × (o.require ctx ≡ ok p) × SteppedUp w p req
  verify_knowledge-SteppedUp ctx req w w' run = (verify_knowledge-Ends ctx req w).value tt w' run

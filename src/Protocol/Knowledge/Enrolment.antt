-- ===== src/Protocol/Knowledge/Enrolment.antt =====
-- The decision table of `EnrollKnowledge` (zkauthn/protocol.go).
use kal_zk.Base.{
  ℕ, ◌≡◌, ◌⊎◌, refl, sym, ap, ◌∙◌, true, Bytes, [], ◌∷◌, Option, none, some, Option-cases,
  Bool-cases, if◌then◌else◌, inl, inr,
}
use kal_zk.Error.{
  Error, Result, ok, err, kal, no_rows, invalid_credentials, unauthenticated, ok-injective,
}
use kal_zk.Hash.{Crypto, Secret, knowledge_commitment}
use kal_zk.Hash.Entropy.{generate_secret}
use kal_zk.Service.{Zk}
use kal_zk.Store.Exec.{World, query, lift, raise, attempt, pool, with_tx}
use kal_zk.Store.Users.{commitment_by_user, find_commitment, password_hash_by_user, find_password}
use kal_zk.Store.Reading.{
  Shows, Shows-lift, Shows-pure, Shows-raise, Shows-when, Shows-weaken, Shows-bind,
}
use kal_zk.Store.Ending.{Ends, Ends-lift, Ends-bind, Ends-at, Ends-self, Ends-pure, Ends-of_Shows}
use kal_zk.Tree.{on_no_rows}
use kal_zk.Protocol.Interface.{Outside, Principal}
use kal_zk.Protocol.Knowledge.{
  or_absent, is_recent, without_password, with_password, replace_by, authorize_replacement,
  authorize_if, enroll_tx, enroll_knowledge,
}
use kal_zk.Tree.Invariant.{solo}

-- What `QueryOne` answers for a row that may be there.
abbrev answer_of {ℓ} : {A : Type ℓ} → Option A → Result A
answer_of none = err no_rows
answer_of (some a) = ok a

commitment-Shows :
    (w : World) (user : Bytes)
    → Shows w
        (λ r. r ≡ answer_of (find_commitment user w.db.commitments))
        (attempt (query (commitment_by_user user)))
unfolding commitment_by_user query
commitment-Shows w user = elim (Option-cases (find_commitment user w.db.commitments)) [
  | inl absent ↦ record {
    same = rw (absent, commitment_by_user);
    value = λ r e. rw absent (sym (ok-injective (rw (absent, commitment_by_user) at e)));
  }
  | inr (raw, there) ↦ record {
    same = rw (there, commitment_by_user);
    value = λ r e. rw there (sym (ok-injective (rw (there, commitment_by_user) at e)));
  }
]

password-Shows :
    (w : World) (user : Bytes)
    → Shows w
        (λ r. r ≡ answer_of (find_password user w.db.users))
        (attempt (query (password_hash_by_user user)))
unfolding password_hash_by_user query
password-Shows w user = elim (Option-cases (find_password user w.db.users)) [
  | inl absent ↦ record {
    same = rw (absent, password_hash_by_user);
    value = λ r e. rw absent (sym (ok-injective (rw (absent, password_hash_by_user) at e)));
  }
  | inr (raw, there) ↦ record {
    same = rw (there, password_hash_by_user);
    value = λ r e. rw there (sym (ok-injective (rw (there, password_hash_by_user) at e)));
  }
]

or_absent-Shows :
    (w : World) (found : Option Bytes) (r : Result Bytes)
    → r ≡ answer_of found
    → Shows w (λ raw. raw ≡ found) (or_absent r)
or_absent-Shows w none r e = rw e (Shows-pure w _ none refl)
or_absent-Shows w (some x) r e = rw e (Shows-pure w _ (some x) refl)

found-Shows :
    (w : World) (found : Option Bytes) (r : Result Bytes) (e : Error)
    → r ≡ answer_of found
    → Shows w (λ raw. found ≡ some raw) (on_no_rows r (raise e))
found-Shows w none r e eq = rw eq (Shows-raise w _ e)
found-Shows w (some x) r e eq = rw eq (Shows-pure w _ x refl)

module _ (o : Outside) (c : Crypto) (z : Zk) (w : World) (p : Principal) (password : Bytes) where
  -- An account with this password hash may replace its credential.
  abbrev pub MayReplace : Bytes → Type 0
  MayReplace [] = is_recent w.now z.mfa_window p.mfa_at ≡ true
  MayReplace (b ∷ bs) = o.verify_password password (b ∷ bs) ≡ ok true

  -- The three rows of the table.
  abbrev pub MayEnroll : Type 0
  MayEnroll =
      (find_commitment p.user_id w.db.commitments ≡ none)
      ⊎ ((hash : Bytes) × (find_password p.user_id w.db.users ≡ some hash) × MayReplace hash)

  recent-Shows :
      Shows {A = Unit {0}} w
        (λ _. is_recent w.now z.mfa_window p.mfa_at ≡ true)
        (λ v.
          if is_recent v.now z.mfa_window p.mfa_at
          then (ok tt, v)
          else (err (kal invalid_credentials), v))
  recent-Shows = elim (Bool-cases (is_recent w.now z.mfa_window p.mfa_at)) [
    | inl recent ↦ record { same = rw recent; value = λ a e. recent }
    | inr old ↦ record { same = rw old; value = λ a e. (let clash = rw old at e in cc) }
  ]

  without_password-Shows :
      Shows w
        (λ _. is_recent w.now z.mfa_window p.mfa_at ≡ true)
        (without_password o c z p password)
  unfolding without_password
  without_password-Shows =
      Shows-bind w (λ _. Unit {0}) _ _ _ (Shows-lift w _ _ λ _ _. tt) λ _ _. recent-Shows

  with_password-Shows :
      (b : ℕ) (bs : Bytes)
      → Shows w
          (λ _. o.verify_password password (b ∷ bs) ≡ ok true)
          (with_password o c z password (b ∷ bs))
  unfolding with_password
  with_password-Shows b bs =
      Shows-bind w (λ same. o.verify_password password (b ∷ bs) ≡ ok same) _ _ _
        (Shows-lift w _ _ λ _ e. e)
        λ same checked. Shows-when w _ same _ λ matches. checked ∙ ap ok matches

  replace_by-Shows :
      (hash : Bytes) → Shows w (λ _. MayReplace hash) (replace_by o c z p password hash)
  replace_by-Shows [] = without_password-Shows
  replace_by-Shows (b ∷ bs) = with_password-Shows b bs

  authorize_replacement-Shows :
      Shows w
        (λ _. (hash : Bytes) × (find_password p.user_id w.db.users ≡ some hash) × MayReplace hash)
        (authorize_replacement o c z p password)
  unfolding authorize_replacement
  authorize_replacement-Shows = Shows-bind w _ _ _ _ (password-Shows w p.user_id) λ r answered.
      Shows-bind w _ _ _ _
        (found-Shows w (find_password p.user_id w.db.users) r (kal unauthenticated) answered)
        λ hash there. Shows-weaken w _ _ _ (replace_by-Shows hash) λ _ may. (hash, there, may)

  authorize_if-Shows :
      (existing : Option Bytes)
      → existing ≡ find_commitment p.user_id w.db.commitments
      → Shows w (λ _. MayEnroll) (authorize_if o c z existing p password)
  authorize_if-Shows none e = Shows-pure w _ tt (inl (sym e))
  authorize_if-Shows (some raw) e =
      Shows-weaken w _ _ _ authorize_replacement-Shows λ _ may. inr may

module _ (o : Outside) (c : Crypto) (z : Zk) where
  enroll_knowledge-Ends :
      (ctx : Option Principal) (password : Bytes) (w : World)
      → Ends
          (solo w)
          (λ _ _. (p : Principal) × (o.require ctx ≡ ok p) × MayEnroll o c z w p password)
          (enroll_knowledge o c z pool ctx password)
  unfolding enroll_knowledge
  enroll_knowledge-Ends ctx password w =
      Ends-bind _ (λ p w₁. (o.require ctx ≡ ok p) × (w₁ ≡ solo w)) _ _ _
        (Ends-lift _ _ _ λ p known. (known, refl))
        λ p w₁ (known, s₁).
          Ends-bind _ _ _ _ _ (Ends-at s₁ (Ends-of_Shows w _ _ (commitment-Shows w p.user_id)))
            λ found w₂ (answered, s₂).
              Ends-bind _ _ _ _ _
                (Ends-at s₂ (
                  Ends-of_Shows w _ _ (
                    or_absent-Shows w (find_commitment p.user_id w.db.commitments) found answered)))
                λ existing w₃ (there, s₃).
                  Ends-bind _ _ _ _ _
                    (Ends-at s₃
                      (Ends-of_Shows w _ _ (authorize_if-Shows o c z w p password existing there)))
                    λ _ w₄ (may, _).
                      Ends-bind _ _ _ _ _ (Ends-self w₄ generate_secret) λ secret w₅ _.
                        Ends-bind _ _ _ _ _ (Ends-self w₅ (lift (knowledge_commitment c secret)))
                          λ commitment w₆ _.
                            Ends-bind _ _ _ _ _
                              (Ends-self w₆
                                (with_tx pool (enroll_tx o c z existing p.user_id commitment)))
                              λ _ w₇ _. Ends-pure _ _ secret (p, known, may)

  -- An EnrollKnowledge that succeeds, on a connection that works and is alone, had an
  -- authenticated caller whose account has no commitment yet, or whose password was verified, or
  -- who has no password and showed a recent second factor.
  pub enroll_knowledge-MayEnroll :
      (ctx : Option Principal) (password : Bytes) (w w' : World) (secret : Secret)
      → enroll_knowledge o c z pool ctx password (solo w) ≡ (ok secret, w')
      → (p : Principal) × (o.require ctx ≡ ok p) × MayEnroll o c z w p password
  enroll_knowledge-MayEnroll ctx password w w' secret run =
      (enroll_knowledge-Ends ctx password w).value secret w' run

-- ===== src/Protocol/Checking.antt =====
-- The checks that write nothing: proofs (zkauthn/proof.go and zkauthn/service.go: verify), claim
-- policies (zkauthn/tree.go: EnsureClaim, claim) and verifyMembershipRequest of protocol.go.
use kal_zk.Base.{
  ℕ, Bool, true, false, not, ◌&&◌, ◌||◌, ltb, leb, ◌==◌, if◌then◌else◌, Bytes, [], ◌∷◌, Option,
  none, some, length,
}
use kal_zk.Error.{
  Error, Result, ok, err, kal, plain, invalid_proof, invalid_input, rate_limited, is_rate_limited,
}
use kal_zk.Hash.{Field, Crypto, parse_field, field_bytes}
use kal_zk.Service.{Zk, VerifyingKey}
use kal_zk.Store.{Purpose, ClaimKind, recurring, one_shot, unknown_kind}
use kal_zk.Store.Exec.{M, query, pure, raise, lift, attempt, ◌>>=◌, ◌>>◌}
use kal_zk.Store.Claims.{Refusal, upsert_claim, claim_by_name}
use kal_zk.Tree.{root_accepted, operator_write}
use kal_zk.Challenge.{or_invalid, or_no_rows, peek_challenge}
use kal_zk.Protocol.Interface.{Outside, Public, of_membership, Claim, MembershipRequest}

-- `math.MaxInt64`
abbrev pub max_int64 : ℕ
max_int64 = 9223372036854775807

abbrev pub compressed_proof_size : ℕ
compressed_proof_size = 164

-- One of the comparison signs < = >.
unfoldable pub has_comparison : Bytes → Bool
has_comparison [] = false
has_comparison (b ∷ bs) = (leb b'<' b && leb b b'>') || has_comparison bs

abbrev pub known_kind : ClaimKind → Bool
known_kind recurring = true
known_kind one_shot = true
known_kind (unknown_kind s) = false

-- A refusal that is told apart from an invalid proof only when the service is overloaded.
abbrev pub hide {ℓ} : {A : Type ℓ} → Result A → Result A
hide (ok a) = ok a
hide (err e) = if is_rate_limited e then err e else err (kal invalid_proof)

abbrev pub is_invalid_proof : Error → Bool
is_invalid_proof (kal invalid_proof) = true
is_invalid_proof _ = false

-- After a dummy verification: its overload, or else the error that was to be.
abbrev pub unless_limited {ℓ} : {A : Type ℓ} → Error → Result (Unit {0}) → Result A
unless_limited e (ok _) = err e
unless_limited e (err limited) = if is_rate_limited limited then err limited else err e

module _ (o : Outside) where
  unfoldable pub valid_claim_name : Bytes → Bool
  valid_claim_name name =
      ltb 0 (length name)
      && (leb (length name) 128 && (o.valid_utf8 name && not (has_comparison name)))

  -- `VerifyingKey.verify`
  unfoldable pub check_proof : Option VerifyingKey → Bytes → Public → Result (Unit {0})
  check_proof none raw public = err (plain "zkauthn: verifying key required")
  check_proof (some vk) raw public = elim vk.key [
    | none ↦ err (plain "zkauthn: verifying key required")
    | some key ↦
        if not (length raw == compressed_proof_size)
        then err (plain "zkauthn: proof length")
        else if not (o.reads_proof raw)
        then err (plain "zkauthn: parse proof")
        else if not (o.builds_witness public)
        then err (plain "zkauthn: build public witness")
        else if o.accepts key raw public
        then ok tt
        else err (plain "zkauthn: verify proof")
  ]

  -- `ZK.verify`: the slot is given back whatever the outcome.
  unfoldable pub verify : Option VerifyingKey → Bytes → Public → M (Unit {0})
  verify vk raw public w =
      if o.admits w then (check_proof vk raw public, w) else (err (kal rate_limited), w)

  unfoldable pub verify_dummy_membership : Zk → Bytes → M (Unit {0})
  verify_dummy_membership z raw = verify z.membership raw (of_membership z.dummy_membership)

  module _ (c : Crypto) (z : Zk) where
    unfoldable pub ensure_claim : Refusal → Claim → M (Unit {0})
    ensure_claim refusal claim =
        if not (valid_claim_name claim.name)
        then raise (kal invalid_input)
        else if not (known_kind claim.kind)
        then raise (kal invalid_input)
        else if ltb max_int64 claim.threshold
        then raise (kal invalid_input)
        else attempt (
            query (
              upsert_claim refusal (record {
                name = claim.name;
                audience = field_bytes claim.audience;
                threshold = claim.threshold;
                kind = claim.kind;
                allows_login = claim.allows_login;
              })))
          >>= operator_write

    unfoldable pub read_claim : Bytes → M Claim
    read_claim name = do
      found ← attempt (query (claim_by_name name))
      row ← lift (or_no_rows found)
      audience ← lift (parse_field c row.audience)
      pure (record {
        name = name;
        audience = audience;
        threshold = row.threshold;
        kind = row.kind;
        allows_login = row.allows_login;
      })

    -- An unknown claim costs a verification before it is refused.
    unfoldable pub claim_or_dummy : Bytes → Result Claim → M Claim
    claim_or_dummy proof (ok claim) = pure claim
    claim_or_dummy proof (err e) =
        if is_invalid_proof e
        then attempt (verify_dummy_membership z proof)
          >>= (λ outcome. lift (unless_limited e outcome))
        else raise e

    -- So does a root that is not accepted.
    unfoldable pub accepted_or_dummy : Bytes → Bool → M (Unit {0})
    accepted_or_dummy proof true = pure tt
    accepted_or_dummy proof false =
        attempt (verify_dummy_membership z proof)
        >>= (λ outcome. lift (unless_limited (kal invalid_proof) outcome))

    abbrev pub public_of : Field → Claim → Field → Field → Public
    public_of root claim nullifier challenge = of_membership (record {
      root = root;
      audience = claim.audience;
      nullifier = nullifier;
      challenge = challenge;
      threshold = claim.threshold;
    })

    -- The claim, the root and the nullifier of a request whose proof was verified.
    unfoldable pub verify_membership_request :
        MembershipRequest → Purpose → Bytes → M (Claim × Field × Field)
    verify_membership_request req purpose session =
        if not (length req.proof == compressed_proof_size)
        then raise (kal invalid_proof)
        else if not (valid_claim_name req.claim)
        then raise (kal invalid_proof)
        else do
          root ← lift (or_invalid (parse_field c req.root))
          nullifier ← lift (or_invalid (parse_field c req.nullifier))
          found ← attempt (read_claim req.claim)
          claim ← claim_or_dummy req.proof found
          accepted ← root_accepted c z root
          accepted_or_dummy req.proof accepted
          challenge ← peek_challenge o.tokens req.challenge purpose session
          outcome ←
              attempt (verify z.membership req.proof (public_of root claim nullifier challenge))
          lift (hide outcome)
          pure (claim, root, nullifier)

-- ===== src/Protocol/Membership.antt =====
-- Login and claims by membership (zkauthn/protocol.go: Login, resolvePseudonym, ProveClaim).
pub mod Burning
pub mod Rollback
pub mod Claiming
pub mod Serving
pub mod Served
pub mod Sound
pub mod Recent
pub mod Once
pub mod Login
pub mod Pseudonyms
use kal_zk.Base.{
  ℕ, ◌+◌, ◌-◌, ◌/◌, ◌%◌, Bool, true, false, not, ltb, if◌then◌else◌, Bytes, List, [], ◌∷◌, ◌++◌,
  Option, none, some, codes,
}
use kal_zk.Error.{Error, Result, ok, err, kal, invalid_proof, no_rows, plain}
use kal_zk.Hash.{Field, Crypto, field_bytes}
use kal_zk.Service.{Zk}
use kal_zk.Store.{ClaimKind, recurring, one_shot, unknown_kind, login, claiming}
use kal_zk.Store.Exec.{M, Handle, query, pure, raise, lift, attempt, ◌>>=◌, ◌>>◌, with_tx}
use kal_zk.Store.Claims.{store_session_claim}
use kal_zk.Store.Nullifiers.{
  resolve_nullifier, create_nullifier, one_shot_nullifier, bind_recurring_nullifier,
}
use kal_zk.Tree.{on_no_rows}
use kal_zk.Challenge.{or_no_rows, consume_challenge}
use kal_zk.Protocol.Interface.{Outside, Principal, Claim, MembershipRequest}
use kal_zk.Protocol.Checking.{verify_membership_request}

unfoldable pub hex_digit : ℕ → ℕ
hex_digit d = if ltb d 10 then b'0' + d else b'a' + d - 10

unfoldable pub hex : Bytes → Bytes
hex [] = []
hex (b ∷ bs) = hex_digit (b / 16) ∷ hex_digit (b % 16) ∷ hex bs

-- The e-mail of the account that a recurring nullifier names.
unfoldable pub pseudonym : Field → Bytes
pseudonym nullifier = codes "zk-" ++ hex (field_bytes nullifier) ++ codes "@invalid"

module _ (o : Outside) where
  unfoldable pub resolve : Field → Field → M Bytes
  resolve nullifier audience =
      query (resolve_nullifier (field_bytes nullifier) (field_bytes audience) (pseudonym nullifier))

  -- No row from the insert: one more look, and then a refusal.
  abbrev pub created_or_again : Field → Field → Option Bytes → M Bytes
  created_or_again nullifier audience (some id) = pure id
  created_or_again nullifier audience none =
      attempt (resolve nullifier audience) >>= (λ again. lift (or_no_rows again))

  unfoldable pub create : Field → Field → M Bytes
  create nullifier audience = do
    made ← query (
        create_nullifier o.fresh_id (pseudonym nullifier) (field_bytes nullifier)
          (field_bytes audience))
    created_or_again nullifier audience made

  unfoldable pub resolve_pseudonym : Field → Field → M Bytes
  resolve_pseudonym nullifier audience = do
    found ← attempt (resolve nullifier audience)
    on_no_rows found (create nullifier audience)

  -- The session that the request came with ends.
  abbrev pub end_prior : Option Principal → M (Unit {0})
  end_prior none = pure tt
  end_prior (some prior) = o.revoke prior.session_id

  abbrev pub found_principal : Option Principal → M Principal
  found_principal none = raise (plain "zkauthn: freshly issued ZK session did not resolve")
  found_principal (some p) = pure p

  unfoldable pub login_tx :
      Option Principal → MembershipRequest → Claim → Field → M (Bytes × Principal)
  login_tx ctx req claim nullifier = do
    consume_challenge o.tokens req.challenge login []
    user ← resolve_pseudonym nullifier claim.audience
    end_prior ctx
    issued ← o.issue user
    looked ← o.lookup issued
    principal ← found_principal looked
    query (store_session_claim principal.session_id claim.name)
    pure (issued, principal)

  unfoldable pub may_login : Claim → M (Unit {0})
  may_login claim = elim claim.kind [
    | recurring ↦ if claim.allows_login then pure tt else raise (kal invalid_proof)
    | one_shot ↦ raise (kal invalid_proof)
    | unknown_kind s ↦ raise (kal invalid_proof)
  ]

  -- The effect of a verified claim on the tables, by its kind.
  unfoldable pub spend : ClaimKind → Principal → Claim → Field → M (Unit {0})
  spend recurring p claim nullifier = do
    bound ← attempt (
        query
          (bind_recurring_nullifier (field_bytes nullifier) (field_bytes claim.audience) p.user_id))
    lift (or_no_rows bound)
    query (store_session_claim p.session_id claim.name)
  spend one_shot p claim nullifier = do
    burned ←
        attempt (query (one_shot_nullifier (field_bytes nullifier) (field_bytes claim.audience)))
    lift (or_no_rows burned)
    pure tt
  spend (unknown_kind s) p claim nullifier = raise (kal invalid_proof)

  unfoldable pub claim_tx : Principal → MembershipRequest → Claim → Field → M (Unit {0})
  claim_tx p req claim nullifier = do
    consume_challenge o.tokens req.challenge claiming p.session_id
    spend claim.kind p claim nullifier
    lift (o.proof_sink (record { name = claim.name; kind = claim.kind }))

  module _ (c : Crypto) (z : Zk) where
    -- `Login`
    unfoldable pub login_by_proof : Handle → Option Principal → MembershipRequest → M Principal
    login_by_proof handle ctx req = do
      (claim, root, nullifier) ← verify_membership_request o c z req login []
      may_login claim
      (issued, principal) ← with_tx handle (login_tx ctx req claim nullifier)
      lift (o.set_cookie z.cookie_name issued)
      pure principal

    -- `ProveClaim`
    unfoldable pub prove_claim : Handle → Option Principal → MembershipRequest → M (Unit {0})
    prove_claim handle ctx req = do
      p ← lift (o.require ctx)
      (claim, root, nullifier) ← verify_membership_request o c z req claiming p.session_id
      with_tx handle (claim_tx p req claim nullifier)

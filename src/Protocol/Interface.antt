-- ===== src/Protocol/Interface.antt =====
-- What the protocol of zkauthn/protocol.go uses from outside of the repository, and the requests
-- and policies that it handles.
use kal_zk.Base.{ℕ, Bool, Bytes, Option}
use kal_zk.Error.{Result}
use kal_zk.Hash.{Field}
use kal_zk.Service.{MembershipPublic, VerifiedClaim}
use kal_zk.Store.{Db, ClaimKind}
use kal_zk.Store.Exec.{World, M}
use kal_zk.Challenge.{Tokens}

-- `authz.Principal`: the fields that the package reads.
pub record Principal : Type 0 where
  pub user_id : Bytes
  pub session_id : Bytes
  pub mfa_at : Option ℕ

-- The public inputs of the two circuits.
pub data Public : Type 0 where
  of_knowledge : Field → Field → Public
  of_membership : MembershipPublic → Public

pub record Claim : Type 0 where
  pub name : Bytes
  pub audience : Field
  pub threshold : ℕ
  pub kind : ClaimKind
  pub allows_login : Bool

pub record KnowledgeRequest : Type 0 where
  pub proof : Bytes
  pub challenge : Bytes

pub record MembershipRequest : Type 0 where
  pub proof : Bytes
  pub root : Bytes
  pub nullifier : Bytes
  pub challenge : Bytes
  pub claim : Bytes

-- The request's context is the principal that kal put there, if it did.
pub record Outside : Type 0 where
  pub tokens : Tokens
  -- `authz.Require`
  pub require : Option Principal → Result Principal
  -- kal's session manager; its tables are `kal_rows`.
  pub record_mfa : Bytes → Bytes → M (Unit {0})
  pub rotate : Bytes → M Bytes
  pub revoke : Bytes → M (Unit {0})
  pub issue : Bytes → M Bytes
  pub lookup : Bytes → M (Option Principal)
  pub revoke_all_for_user : Bytes → M (Unit {0})
  -- kal's hasher
  pub verify_password : Bytes → Bytes → Result Bool
  pub verify_dummy_password : Bytes → Result (Unit {0})
  pub set_cookie : Bytes → Bytes → Result (Unit {0})
  pub proof_sink : VerifiedClaim → Result (Unit {0})
  -- A slot of the semaphore comes free in time.
  pub admits : World → Bool
  -- gnark reads a proof from the bytes, builds the public witness, and accepts the proof.
  pub reads_proof : Bytes → Bool
  pub builds_witness : Public → Bool
  pub accepts : Bytes → Bytes → Public → Bool
  pub valid_utf8 : Bytes → Bool
  pub fresh_id : Db → Bytes

-- ===== src/Service.antt =====
-- zkauthn/service.go: the service that `New` builds, its options and its checks.
pub mod Ready
pub mod Slots
use kal_zk.Base.{
  ℕ, zero, suc, Bytes, List, [], ◌∷◌, Option, none, some, Bool, true, false, ◌&&◌, ◌||◌, not, ltb,
  leb, if◌then◌else◌, length, ◌++◌, codes, ◌==◌,
}
use kal_zk.Base.Int.{ℤ, pos, negsuc}
use kal_zk.Error.{Error, Result, ok, err, kal, invalid_input, plain, result_bind}
use kal_zk.Store.{ClaimKind}
use kal_zk.Hash.{Field, Crypto, native_hash, empty_leaf, knowledge_commitment}
use kal_zk.Base.{replicate, get_or}

pub data Circuit : Type 0 where
  circuit_knowledge circuit_membership : Circuit
  unknown_circuit : Bytes → Circuit

-- A parsed key is the bytes that gnark read it from.
pub record VerifyingKey : Type 0 where
  pub circuit : Circuit
  pub key : Option Bytes

pub record MembershipPublic : Type 0 where
  pub root : Field
  pub audience : Field
  pub nullifier : Field
  pub challenge : Field
  pub threshold : ℕ

pub record VerifiedClaim : Type 0 where
  pub name : Bytes
  pub kind : ClaimKind

-- `some e` refuses the issuance.
abbrev pub Authorizer : Type 0
Authorizer = Bytes → ℕ → Option Error

-- Lengths of time are signed, and in the unit of the timestamps. A pointer or an interface that
-- may be nil, and whose value the checks do not look into, is a Boolean: it is there.
pub record Options : Type 0 where
  pub knowledge_vk : Option VerifyingKey
  pub membership_vk : Option VerifyingKey
  pub has_sessions : Bool
  pub has_hasher : Bool
  pub has_proof_sink : Bool
  pub cookie_name : Bytes
  pub schema : Bytes
  pub root_grace : ℤ
  pub mfa_window : ℤ
  pub max_concurrent_verifications : ℤ
  pub authorize_credential_issue : Option Authorizer

pub record Zk : Type 0 where
  pub knowledge : Option VerifyingKey
  pub membership : Option VerifyingKey
  pub authorize_issue : Option Authorizer
  pub cookie_name : Bytes
  pub schema : Bytes
  pub root_grace : ℕ
  pub mfa_window : ℕ
  pub limit : ℕ
  pub verify_wait : ℕ
  pub challenge_ttl : ℕ
  pub zeros : List Field
  pub dummy_commitment : Field
  pub dummy_membership : MembershipPublic
  pub sql_prefix : Bytes

-- The values that come from elsewhere: GOMAXPROCS, kal's defaults, go-pg's quoting of an
-- identifier, and the lengths of `ChallengeTTL` and `defaultVerifyWait` in the timestamps' unit.
pub record Environment : Type 0 where
  pub processors : ℕ
  pub default_mfa_window : ℕ
  pub default_cookie_name : Bytes
  pub append_ident : Bytes → Bytes
  pub minute : ℕ
  pub two_seconds : ℕ

unfoldable pub is_knowledge : Option VerifyingKey → Bool
is_knowledge none = false
is_knowledge (some vk) = elim vk.circuit [ circuit_knowledge ↦ true | _ ↦ false ]

unfoldable pub is_membership : Option VerifyingKey → Bool
is_membership none = false
is_membership (some vk) = elim vk.circuit [ circuit_membership ↦ true | _ ↦ false ]

lower_or_underscore : ℕ → Bool
lower_or_underscore b = (leb b'a' b && leb b b'z') || b == b'_'

ident_tail : Bytes → Bool
unfolding lower_or_underscore
ident_tail [] = true
ident_tail (b ∷ bs) = (lower_or_underscore b || (leb b'0' b && leb b b'9')) && ident_tail bs

-- The expression ^[a-z_][a-z0-9_]*$ of `identRe`.
unfoldable pub matches_ident : Bytes → Bool
unfolding lower_or_underscore ident_tail
matches_ident [] = false
matches_ident (b ∷ bs) = lower_or_underscore b && ident_tail bs

-- The prefix of the tables, for a schema that may be empty.
unfoldable pub schema_prefix : Environment → Bytes → Result Bytes
schema_prefix env [] = ok []
schema_prefix env (b ∷ bs) =
    if ltb 63 (length (b ∷ bs)) || not (matches_ident (b ∷ bs))
    then err (kal invalid_input)
    else ok (env.append_ident (b ∷ bs) ++ codes ".")

unfoldable pub is_negative : ℤ → Bool
is_negative (pos n) = false
is_negative (negsuc n) = true

-- A value that is positive, or else a default.
abbrev pub positive_or : ℕ → ℤ → ℕ
positive_or d (pos zero) = d
positive_or d (pos (suc n)) = suc n
positive_or d (negsuc n) = d

abbrev pub non_empty_or : Bytes → Bytes → Bytes
non_empty_or d [] = d
non_empty_or d (b ∷ bs) = b ∷ bs

abbrev pub as_duration : ℤ → ℕ
as_duration (pos n) = n
as_duration (negsuc n) = 0

module _ (c : Crypto) where
  -- The empty subtrees above one whose hash is `last`, `k` levels of them.
  unfoldable pub zeros_above : ℕ → Field → Result (List Field)
  zeros_above zero last = ok []
  zeros_above (suc k) last =
      result_bind (native_hash c (last ∷ last ∷ []))
        λ next. result_bind (zeros_above k next) λ rest. ok (next ∷ rest)

  unfoldable pub tree_zeros : Result (List Field)
  tree_zeros = result_bind (empty_leaf c) λ z. result_bind (zeros_above 32 z) λ rest. ok (z ∷ rest)

  -- The checks of `New`, in its order.
  unfoldable pub check_options : Options → Result (Unit {0})
  check_options o =
      if not (is_knowledge o.knowledge_vk)
      then err (plain "zkauthn: a knowledge verifying key is required")
      else if not (is_membership o.membership_vk)
      then err (plain "zkauthn: a membership verifying key is required")
      else if not o.has_sessions || not o.has_proof_sink
      then err (plain "zkauthn: Sessions and ProofSink are required")
      else if not o.has_hasher
      then err (plain "zkauthn: Hasher is required")
      else if is_negative o.root_grace
      then err (kal invalid_input)
      else ok tt

  -- The service that `New` fills in once its checks have passed.
  abbrev pub build : Environment → Options → Bytes → List Field → Field → Zk
  build env o prefix zeros dummy = record {
    knowledge = o.knowledge_vk;
    membership = o.membership_vk;
    authorize_issue = o.authorize_credential_issue;
    cookie_name = non_empty_or env.default_cookie_name o.cookie_name;
    schema = o.schema;
    root_grace = as_duration o.root_grace;
    mfa_window = positive_or env.default_mfa_window o.mfa_window;
    limit = positive_or env.processors o.max_concurrent_verifications;
    verify_wait = env.two_seconds;
    challenge_ttl = env.minute;
    zeros = zeros;
    dummy_commitment = dummy;
    dummy_membership = record {
      root = get_or zeros 32 0;
      audience = dummy;
      nullifier = dummy;
      challenge = dummy;
      threshold = 0;
    };
    sql_prefix = prefix;
  }

  -- `New`
  unfoldable pub new_zk : Environment → Options → Result Zk
  new_zk env o = result_bind (check_options o) λ _.
      result_bind (schema_prefix env o.schema) λ prefix. result_bind tree_zeros λ zeros.
        result_bind (knowledge_commitment c (replicate 31 0))
          λ dummy. ok (build env o prefix zeros dummy)

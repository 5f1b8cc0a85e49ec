-- ===== src/Protocol/Membership/Sound.antt =====
-- What a proven claim and a login (zkauthn/protocol.go) mean for the credential tree.
use kal_zk.Base.{
  ◌≤◌, ◌≡◌, ◌⊎◌, refl, sym, ap, subst, ◌∙◌, Bytes, [], ◌∷◌, length, Option, some, true, ◌==◌,
}
use kal_zk.Error.{ok, ok-injective, require-ok, unless_not-ok}
use kal_zk.Hash.{Field, Crypto, Lawful, parse_field, field_bytes, domain_leaf, domain_nullifier}
use kal_zk.Hash.Encoding.{parse_field-field_bytes}
use kal_zk.Service.{Zk, circuit_membership, MembershipPublic}
use kal_zk.Store.{Purpose, ClaimRow, claiming, login}
use kal_zk.Store.Exec.{World, pool}
use kal_zk.Store.Claims.{find_claim}
use kal_zk.Tree.Shape.{Leaves, tree_root}
use kal_zk.Tree.Fetch.{tree_root-lt}
use kal_zk.Tree.Invariant.{solo}
use kal_zk.Proof.{rest_of}
use kal_zk.Proof.Walk.{Breaks}
use kal_zk.Circuit.{
  MembershipCircuit, Gadgets, LawfulGadgets, define_membership, satisfied, max_uint64,
}
use kal_zk.Circuit.Binding.{satisfied-IsMember}
use kal_zk.Proving.{to_membership, public_part}
use kal_zk.Protocol.Interface.{Outside, Principal, Public, Claim, MembershipRequest, of_membership}
use kal_zk.Protocol.Checking.{check_proof, public_of, compressed_proof_size}
use kal_zk.Protocol.Reading.{Verified}
use kal_zk.Protocol.Membership.{prove_claim, login_by_proof}
use kal_zk.Protocol.Membership.Claiming.{prove_claim-Claimed}
use kal_zk.Protocol.Membership.Login.{login_by_proof-LoggedIn}

-- gnark documents: Groth16 is an argument of knowledge. The extractor gives, for each
-- accepted proof, values of all the variables of the circuit that agree with the public ones and
-- meet the constraints.
pub record SoundGroth16 (c : Crypto) (g : Gadgets) (o : Outside) (key : Bytes) : Type 0 where
  pub extract : Bytes → MembershipPublic → MembershipCircuit
  pub agrees :
      (raw : Bytes) (m : MembershipPublic)
      → o.accepts key raw (of_membership m) ≡ true
      → public_part (to_membership (extract raw m)) ≡ of_membership m
  pub meets :
      (raw : Bytes) (m : MembershipPublic)
      → o.accepts key raw (of_membership m) ≡ true
      → (length (extract raw m).path ≡ 33)
        × (satisfied c g (define_membership c g (extract raw m)) ≡ true)

-- The values `a` extracted from a request: a secret and an attribute behind a leaf of the tree, where
-- the attribute reaches the policy's threshold, and the nullifier is the secret's for the policy's
-- audience.
pub record ShowsMember (c : Crypto) (leaves : Leaves)
    (extract : Bytes → MembershipPublic → MembershipCircuit) (w : World) (req : MembershipRequest)
    : Type 0 where
  pub policy : ClaimRow
  pub public : MembershipPublic
  pub there : find_claim req.claim w.db.claims ≡ some policy
  pub audience_read : parse_field c policy.audience ≡ ok public.audience
  pub nullifier_read : parse_field c req.nullifier ≡ ok public.nullifier
  pub threshold : public.threshold ≡ policy.threshold
  pub root : public.root ≡ tree_root c leaves
  pub a : MembershipCircuit
  pub extracted : a ≡ extract req.proof public
  pub reached : policy.threshold ≤ a.attribute
  pub bounded : a.attribute ≤ max_uint64
  pub nullifier :
      public.nullifier ≡ c.mimc_sum (c.reduce domain_nullifier ∷ a.secret ∷ public.audience ∷ [])
  pub leaf :
      let leaf = c.mimc_sum (c.reduce domain_leaf ∷ a.secret ∷ a.attribute ∷ []) in
      (leaves a.index ≡ some leaf) ⊎ Breaks c leaves a.index leaf (rest_of a.path)

public-injective :
    (a b : MembershipPublic)
    → of_membership a ≡ of_membership b
    → (a.root ≡ b.root)
      × (a.audience ≡ b.audience)
      × (a.nullifier ≡ b.nullifier)
      × (a.threshold ≡ b.threshold)
public-injective a b e = (cc, cc, cc, cc)

check_proof-accepts :
    (o : Outside) (key raw : Bytes) (public : Public)
    → check_proof o (some (record { circuit = circuit_membership; key = some key })) raw public
      ≡ ok tt
    → o.accepts key raw public ≡ true
unfolding check_proof
check_proof-accepts o key raw public h =
    let (_, h1) = unless_not-ok _ (length raw == compressed_proof_size) _ h in
    let (_, h2) = unless_not-ok _ (o.reads_proof raw) _ h1 in
    let (_, h3) = unless_not-ok _ (o.builds_witness public) _ h2 in
    (require-ok _ (o.accepts key raw public) _ h3).0

module _ (o : Outside) (c : Crypto) (laws : Lawful c) (g : Gadgets) (gnark : LawfulGadgets c g)
    (z : Zk) (key : Bytes) (sound : SoundGroth16 c g o key)
    (loaded : z.membership ≡ some (record { circuit = circuit_membership; key = some key })) where
  pub Verified-ShowsMember :
      (leaves : Leaves) (w : World) (req : MembershipRequest) (purpose : Purpose) (session : Bytes)
      (claim : Claim) (root nullifier : Field)
      → root ≡ tree_root c leaves
      → Verified o w c z req purpose session claim root nullifier
      → ShowsMember c leaves sound.extract w req
  unfolding public_part
  Verified-ShowsMember leaves w req purpose session claim root nullifier at_root v =
      let (named, (row, there, read, t, _, _)) = v.policy in
      let proven =
        ap (λ vk. check_proof o vk req.proof (public_of o c z root claim nullifier v.challenge))
          (sym loaded)
        ∙ v.proven in
      let public : MembershipPublic = record {
        root = root;
        audience = claim.audience;
        nullifier = nullifier;
        challenge = v.challenge;
        threshold = claim.threshold;
      } in
      let accepted = check_proof-accepts o key req.proof (of_membership public) proven in
      let a = sound.extract req.proof public in
      let (size, meets) = sound.meets req.proof public accepted in
      let (root_e, audience_e, nullifier_e, threshold_e) =
        public-injective _ _ (sound.agrees req.proof public accepted) in
      let member = satisfied-IsMember c leaves g gnark a size (root_e ∙ at_root) meets in
      record {
        policy = row;
        public = public;
        there = ap (λ name. find_claim name w.db.claims) (sym named) ∙ there;
        audience_read = read;
        nullifier_read = v.nullifier_read;
        threshold = t;
        root = at_root;
        a = a;
        extracted = refl;
        reached = subst (λ n. n ≤ a.attribute) (threshold_e ∙ t) member.reached;
        bounded = member.bounded;
        nullifier =
            sym nullifier_e
            ∙ member.nullifier
            ∙ ap (λ f. c.mimc_sum (c.reduce domain_nullifier ∷ a.secret ∷ f ∷ [])) audience_e;
        leaf = member.leaf;
      }

  read_root :
      (leaves : Leaves) (raw : Bytes) (root : Field)
      → raw ≡ field_bytes (tree_root c leaves)
      → parse_field c raw ≡ ok root
      → root ≡ tree_root c leaves
  read_root leaves raw root same read =
      let known =
        parse_field-field_bytes c laws (tree_root c leaves) (tree_root-lt c laws leaves) in
      ok-injective (sym read ∙ ap (parse_field c) same ∙ known)

  -- If Groth16 is sound for the loaded membership key, a ProveClaim that succeeds, on a connection
  -- that works and is alone, for a request whose root is that of a tree with some leaves, shows a
  -- member: the policy is known, the values that the extractor gives for the proof have a secret
  -- and a 64-bit attribute that reaches the threshold of the policy, the nullifier of the request
  -- is the pseudonym of the secret for the audience of the policy, and the leaf of the two is in
  -- the tree, at the index of the values, or else MiMC fails their walk: the leaf, or a pair that
  -- their path hashes, has the hash of the different input which the tree has there, or the leaf
  -- is the constant of an empty place.
  pub prove_claim-ShowsMember :
      (leaves : Leaves) (ctx : Option Principal) (req : MembershipRequest) (w w' : World)
      → req.root ≡ field_bytes (tree_root c leaves)
      → prove_claim o c z pool ctx req (solo w) ≡ (ok tt, w')
      → ShowsMember c leaves sound.extract w req
  prove_claim-ShowsMember leaves ctx req w w' same run =
      let (_, _, claimed) = prove_claim-Claimed o c z ctx req w w' run in
      Verified-ShowsMember leaves w req claiming claimed.principal.session_id claimed.claim
        claimed.root claimed.nullifier
        (read_root leaves req.root claimed.root same claimed.verified.root_read) claimed.verified

  -- A Login that succeeds shows a member under the same conditions.
  pub login_by_proof-ShowsMember :
      (leaves : Leaves) (ctx : Option Principal) (req : MembershipRequest) (w w' : World)
      (principal : Principal)
      → req.root ≡ field_bytes (tree_root c leaves)
      → login_by_proof o c z pool ctx req (solo w) ≡ (ok principal, w')
      → ShowsMember c leaves sound.extract w req
  login_by_proof-ShowsMember leaves ctx req w w' principal same run =
      let logged = login_by_proof-LoggedIn o c z ctx req w w' principal run in
      Verified-ShowsMember leaves w req login [] logged.claim logged.root logged.nullifier
        (read_root leaves req.root logged.root same logged.verified.root_read) logged.verified

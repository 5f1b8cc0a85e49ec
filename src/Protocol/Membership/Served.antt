-- ===== src/Protocol/Membership/Served.antt =====
-- A member from the tree to a proven claim: Path and the witness (zkauthn/tree.go, zkauthn/proof.go), the
-- proof, and ProveClaim (zkauthn/protocol.go).
use kal_zk.Base.{
  ℕ, ◌≤◌, ◌<◌, ◌≡◌, refl, ap, ◌∙◌, true, Bytes, List, [], ◌∷◌, Option, none, some, length, ◌==◌,
  be_value, bytes_eq_iff, arith,
}
use kal_zk.Error.{ok, unless_not-ok}
use kal_zk.Hash.{Field, Crypto, Lawful, parse_field, field_bytes}
use kal_zk.Hash.Encoding.{parse_field-field_bytes}
use kal_zk.Hash.Commitments.{IsSecret, leaf_commitment, pseudonym}
use kal_zk.Service.{Zk, circuit_membership, is_membership}
use kal_zk.Store.{ClaimRow, CredentialRow, RootRow, claiming}
use kal_zk.Store.Exec.{World, pool}
use kal_zk.Store.Claims.{find_claim}
use kal_zk.Store.Credentials.{find_credential}
use kal_zk.Store.Roots.{any_accepted, is_accepted, current_roots}
use kal_zk.Store.Nullifiers.{find_nullifier}
use kal_zk.Tree.{Credential, MerklePath, fetch_path, max_uint32}
use kal_zk.Tree.Shape.{tree_root}
use kal_zk.Tree.Climb.{IsReady}
use kal_zk.Tree.Fetch.{tree_root-lt, tree_path}
use kal_zk.Tree.Invariant.{IsTree, live_leaves, solo}
use kal_zk.Challenge.{peek_challenge}
use kal_zk.Proof.{membership_witness_for}
use kal_zk.Circuit.{Gadgets, LawfulGadgets, max_uint64}
use kal_zk.Keys.{ConstraintSystem, Groth16}
use kal_zk.Protocol.Interface.{Outside, Principal, Claim, Public}
use kal_zk.Protocol.Checking.{
  check_proof, compressed_proof_size, known_kind, valid_claim_name, public_of,
}
use kal_zk.Protocol.Reading.{Verified}
use kal_zk.Protocol.Membership.{prove_claim}
use kal_zk.Protocol.Membership.Serving.{prove_claim-serves}
use kal_zk.Proving.{Prover, prove_membership, verify_membership_proof}
use kal_zk.Proving.Complete.{CompleteGroth16}
use kal_zk.Proving.Members.{tree_path-verify}

-- A current root is accepted, whatever the grace period.
any_accepted-current :
    (now grace : ℕ) (root : Bytes) (rows : List RootRow)
    → current_roots rows ≡ root ∷ []
    → any_accepted now grace root rows ≡ true
unfolding any_accepted is_accepted current_roots
any_accepted-current now grace root [] h = cc
any_accepted-current now grace root (r ∷ rs) h =
    ground (arith, bytes_eq_iff r.root root, any_accepted-current now grace root rs)

-- A proof that was checked has the compressed size.
check_proof-sized :
    (o : Outside) (key raw : Bytes) (public : Public)
    → check_proof o (some (record { circuit = circuit_membership; key = some key })) raw public
      ≡ ok tt
    → (length raw == compressed_proof_size) ≡ true
unfolding check_proof
check_proof-sized o key raw public h = (unless_not-ok _ (length raw == compressed_proof_size) _ h).0

module _ (c : Crypto) (laws : Lawful c) (g : Gadgets) (gnark : LawfulGadgets c g) (k : Groth16)
    (pr : Prover) (o : Outside) (complete : CompleteGroth16 c g k pr o) where
  -- A member whose credential is stored and not revoked, on a consistent tree with a current root,
  -- can prove the claim of every known policy with a canonical audience and a threshold that the
  -- 64-bit attribute reaches: with the keys of one ceremony, the fetched path gives a proof for an
  -- open challenge of the caller's session, and ProveClaim, on a connection that works and is
  -- alone, succeeds with it, if the caller is authenticated, the pseudonym is unused, a
  -- verification slot is free and the sink takes the claim.
  pub fetch_path-prove_claim :
      (z : Zk) (ready : IsReady c z) (w : World) (tree : IsTree c w.db) (credential : Credential)
      (row : CredentialRow) (ccs : ConstraintSystem) (pk vk : Bytes) (ctx : Option Principal)
      (p : Principal) (policy : ClaimRow) (name token : Bytes) (audience challenge : Field)
      → IsSecret credential.secret
      → credential.attribute ≤ max_uint64
      → credential.leaf_index ≤ max_uint32
      → find_credential credential.leaf_index w.db.credentials ≡ some row
      → row.revoked_at ≡ none
      → be_value row.commitment ≡ leaf_commitment c credential.secret credential.attribute
      → current_roots w.db.roots ≡ field_bytes (tree_root c (live_leaves w.db.credentials)) ∷ []
      → k.compile_membership ≡ ok ccs
      → k.setup ccs ≡ ok (pk, vk)
      → z.membership ≡ some (record { circuit = circuit_membership; key = some vk })
      → valid_claim_name o name ≡ true
      → find_claim name w.db.claims ≡ some policy
      → parse_field c policy.audience ≡ ok audience
      → audience < c.modulus
      → policy.threshold ≤ credential.attribute
      → known_kind policy.kind ≡ true
      → o.require ctx ≡ ok p
      → peek_challenge o.tokens token claiming p.session_id (solo w) ≡ (ok challenge, solo w)
      → o.admits (solo w) ≡ true
      → find_nullifier (field_bytes (pseudonym c credential.secret audience)) w.db.nullifiers ≡ none
      → o.proof_sink (record { name = name; kind = policy.kind }) ≡ ok tt
      → (path : MerklePath) × (raw : Bytes) × ((fetch_path c z pool credential.leaf_index
            (solo w)).0
          ≡ ok path)
        × (prove_membership pr
              (some (record { circuit = circuit_membership; ccs = ccs; key = pk }))
              (membership_witness_for credential path audience policy.threshold
                (pseudonym c credential.secret audience)
                challenge)
            ≡ ok raw)
        × ((prove_claim o c z pool ctx
              (record {
                proof = raw;
                root = field_bytes path.root;
                nullifier = field_bytes (pseudonym c credential.secret audience);
                challenge = token;
                claim = name;
              })
              (solo w)).0
            ≡ ok tt)
  unfolding verify_membership_proof is_membership
  fetch_path-prove_claim z ready w tree credential row ccs pk vk ctx p policy name token audience
        challenge hs attribute small found live same current compiled keys key named there read a t
        kind known peeked free unused sinks =
      let (f, raw, run, proved, checked) =
        tree_path-verify c laws g gnark k pr o complete z ready w tree credential row ccs pk vk
          audience policy.threshold challenge hs attribute small found live same compiled keys a
          t in
      let root = tree_root c (live_leaves w.db.credentials) in
      let nullifier = pseudonym c credential.secret audience in
      let claim : Claim = record {
        name = name;
        audience = audience;
        threshold = policy.threshold;
        kind = policy.kind;
        allows_login = policy.allows_login;
      } in
      let verified : Verified o w c z
          (record {
            proof = raw;
            root = field_bytes root;
            nullifier = field_bytes nullifier;
            challenge = token;
            claim = name;
          })
          claiming p.session_id claim root nullifier =
        record {
          sized = check_proof-sized o vk raw _ checked;
          named = named;
          policy = (refl, (policy, there, read, refl, refl, refl));
          root_read =
              parse_field-field_bytes c laws root
                (tree_root-lt c laws (live_leaves w.db.credentials));
          nullifier_read = parse_field-field_bytes c laws nullifier (laws.mimc_sum-lt _);
          accepted = any_accepted-current w.now z.root_grace (field_bytes root) w.db.roots current;
          challenge = challenge;
          peeked = peeked;
          proven =
              ap
                (λ loaded.
                  check_proof o loaded raw (public_of o c z root claim nullifier challenge))
                key
              ∙ checked;
        } in
      (
        tree_path c w.db.credentials credential.leaf_index f,
        raw,
        run,
        proved,
        prove_claim-serves o c z w ctx _ p claim root nullifier known free verified kind unused
            sinks,
      )

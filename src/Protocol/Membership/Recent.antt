-- ===== src/Protocol/Membership/Recent.antt =====
-- What a proven claim and a login (zkauthn/protocol.go) mean for the history of the tree.
use kal_zk.Base.{◌≡◌, sym, ap, ◌∙◌, inl, inr, Bytes, List, [], ◌∷◌, Option, some}
use kal_zk.Error.{ok, ok-injective}
use kal_zk.Hash.{Field, Crypto, Lawful, parse_field, field_bytes}
use kal_zk.Hash.Encoding.{parse_field-field_bytes, parse_field-lt}
use kal_zk.Service.{Zk, circuit_membership}
use kal_zk.Store.{Purpose, claiming, login}
use kal_zk.Store.Exec.{World, pool}
use kal_zk.Tree.Shape.{tree_root}
use kal_zk.Tree.Fetch.{tree_root-lt}
use kal_zk.Tree.Climb.{IsReady}
use kal_zk.Tree.Invariant.{solo, live_leaves}
use kal_zk.Tree.History.{Past, Any, Had}
use kal_zk.Tree.History.Reached.{Had-IsKept}
use kal_zk.Tree.History.Accepted.{IsRecent, any_accepted-IsRootOf}
use kal_zk.Circuit.{Gadgets, LawfulGadgets}
use kal_zk.Protocol.Interface.{Outside, Principal, Claim, MembershipRequest}
use kal_zk.Protocol.Reading.{Verified}
use kal_zk.Protocol.Membership.{prove_claim, login_by_proof}
use kal_zk.Protocol.Membership.Claiming.{prove_claim-Claimed}
use kal_zk.Protocol.Membership.Login.{login_by_proof-LoggedIn}
use kal_zk.Protocol.Membership.Sound.{SoundGroth16, ShowsMember, Verified-ShowsMember}

Any-imp :
    {P Q : Past → Type 0} (f : (p : Past) → P p → Q p) (past : List Past) → Any P past → Any Q past
Any-imp f [] here = elim here [ ]
Any-imp f (p ∷ past) (inl here) = inl (f p here)
Any-imp f (p ∷ past) (inr older) = inr (Any-imp f past older)

module _ (o : Outside) (c : Crypto) (laws : Lawful c) (g : Gadgets) (gnark : LawfulGadgets c g)
    (z : Zk) (ready : IsReady c z) (key : Bytes) (sound : SoundGroth16 c g o key)
    (loaded : z.membership ≡ some (record { circuit = circuit_membership; key = some key })) where
  -- The request shows a member of a state that the tree has, or had until less than the grace
  -- period ago.
  abbrev pub ShowsRecent : World → List Past → MembershipRequest → Type 0
  ShowsRecent w past req =
      Any
        (λ p.
          IsRecent (live_leaves w.db.credentials) w.now z.root_grace p
          × ShowsMember c p.leaves sound.extract w req)
        past

  Verified-ShowsRecent :
      (w : World) (past : List Past) (req : MembershipRequest) (purpose : Purpose) (session : Bytes)
      (claim : Claim) (root nullifier : Field)
      → Had c z w past
      → Verified o w c z req purpose session claim root nullifier
      → ShowsRecent w past req
  Verified-ShowsRecent w past req purpose session claim root nullifier had v =
      let kept = Had-IsKept c laws z ready had in
      let live = live_leaves w.db.credentials in
      let here =
        any_accepted-IsRootOf c live w.now z.root_grace (field_bytes root) w.db.roots past
          v.accepted kept.rows kept.dated in
      let mine =
        parse_field-field_bytes c laws root (parse_field-lt c laws req.root root v.root_read) in
      Any-imp
        (λ p (same, recent).
          let known =
            parse_field-field_bytes c laws (tree_root c p.leaves) (tree_root-lt c laws p.leaves) in
          let at_root = ok-injective (sym mine ∙ ap (parse_field c) same ∙ known) in
          (
            recent,
            Verified-ShowsMember o c laws g gnark z key sound loaded p.leaves w req purpose session
                claim root nullifier at_root v,
          ))
        past here

  -- If Groth16 is sound for the loaded membership key and the tree came from one without published
  -- roots by issuances, revocations and revocations for a user, each alone at work, then a
  -- ProveClaim that succeeds, on a connection that works and is alone, shows a member of the tree
  -- of the present live credentials, or of one that was replaced less than the grace period ago:
  -- the policy is known, the values that the extractor gives for the proof have a secret and a
  -- 64-bit attribute that reaches the threshold of the policy, the nullifier of the request is the
  -- pseudonym of the secret for the audience of the policy, and the leaf of the two is in that
  -- tree, at the index of the values, or else MiMC fails their walk: the leaf, or a pair that
  -- their path hashes, has the hash of the different input which the tree has there, or the leaf
  -- is the constant of an empty place.
  pub prove_claim-ShowsRecent :
      (past : List Past) (ctx : Option Principal) (req : MembershipRequest) (w w' : World)
      → Had c z w past
      → prove_claim o c z pool ctx req (solo w) ≡ (ok tt, w')
      → ShowsRecent w past req
  prove_claim-ShowsRecent past ctx req w w' had run =
      let (_, _, claimed) = prove_claim-Claimed o c z ctx req w w' run in
      Verified-ShowsRecent w past req claiming claimed.principal.session_id claimed.claim
        claimed.root claimed.nullifier had claimed.verified

  -- A Login that succeeds shows the same, under the same conditions.
  pub login_by_proof-ShowsRecent :
      (past : List Past) (ctx : Option Principal) (req : MembershipRequest) (w w' : World)
      (principal : Principal)
      → Had c z w past
      → login_by_proof o c z pool ctx req (solo w) ≡ (ok principal, w')
      → ShowsRecent w past req
  login_by_proof-ShowsRecent past ctx req w w' principal had run =
      let logged = login_by_proof-LoggedIn o c z ctx req w w' principal run in
      Verified-ShowsRecent w past req login [] logged.claim logged.root logged.nullifier had
        logged.verified

-- ===== src/Tests/Sound.antt =====
-- What an accepted request shows, with a stand-in for gnark that accepts one statement.
use kal_zk.Base.{sym}
use kal_zk.Tree.History.{Any, Had, elsewhere}
use kal_zk.Tree.History.Accepted.{IsRecent}
use kal_zk.Protocol.Membership.Recent.{prove_claim-ShowsRecent}
use kal_zk.Tests.Toy.{keyed}
use kal_zk.Tests.Trees.{first_state, later-Had, one_issued-roots}
use mathlib.Core.Option
use kal_zk.Base.{
  ℕ, suc, ◌≤◌, ◌≡◌, ◌⊎◌, refl, ap, ◌∙◌, Bool, true, false, ◌&&◌, ◌==◌, ==_self, [], ◌∷◌, some,
  arith, replicate, be_value,
}
use kal_zk.Error.{ok}
use kal_zk.Hash.{Field, field_bytes}
use kal_zk.Hash.Encoding.{parse_field-field_bytes}
use kal_zk.Hash.Commitments.{leaf_commitment, pseudonym}
use kal_zk.Service.{MembershipPublic}
use kal_zk.Store.{claiming}
use kal_zk.Store.Exec.{pool}
use kal_zk.Store.Credentials.{next_index, live_commitment_of_find}
use kal_zk.Store.Nullifiers.{find_nullifier}
use kal_zk.Store.Roots.{any_accepted, is_accepted}
use kal_zk.Base.{bytes_eq_self}
use kal_zk.Tree.Shape.{Leaves, tree_root}
use kal_zk.Tree.Issue.{issued}
use kal_zk.Tree.Fetch.{tree_path, tree_root-lt}
use kal_zk.Tree.Invariant.{live_leaves, solo}
use kal_zk.Proof.{MembershipWitness, membership_witness_for, membership_valid, rest_of}
use kal_zk.Proof.Issued.{tree_path-Proves}
use kal_zk.Proof.Walk.{Breaks}
use kal_zk.Proof.Binding.{membership_valid-binds}
use kal_zk.Circuit.{assign_membership}
use kal_zk.Circuit.Agreement.{IsTyped, satisfied-define_membership}
use kal_zk.Proving.{to_membership, public_part}
use kal_zk.Proving.Members.{length-sibling_hashes, tree_path-IsTyped}
use kal_zk.Protocol.Interface.{
  Outside, Claim, MembershipRequest, Public, of_knowledge, of_membership,
}
use kal_zk.Protocol.Checking.{check_proof, valid_claim_name}
use kal_zk.Protocol.Reading.{Verified}
use kal_zk.Protocol.Membership.{prove_claim}
use kal_zk.Protocol.Membership.Serving.{prove_claim-serves}
use kal_zk.Protocol.Membership.Sound.{SoundGroth16, ShowsMember}
use kal_zk.Tests.Toy.{toy, toy-Lawful, toy_zk-IsReady, first_secret, first_secret-IsSecret}
use kal_zk.Tests.Trees.{one_issued, one_issued-IsTree, later, first_row, found_first, first_fits}
use kal_zk.Tests.Protocol.{toy_outside, member}
use kal_zk.Tests.Proofs.{toy_gadgets, toy_gadgets-LawfulGadgets}
use kal_zk.Tests.Served.{token, adult, open_world, adult_name, adult_there, open_challenge}

abbrev leaves : Leaves
leaves = live_leaves one_issued.credentials

abbrev tag : Field
tag = pseudonym toy first_secret 5

abbrev opened : MembershipWitness
opened =
    membership_witness_for (issued toy [] first_secret 18)
      (tree_path toy one_issued.credentials 0 (leaf_commitment toy first_secret 18)) 5 16 tag
      (be_value token)

opened-IsTyped : IsTyped toy opened
unfolding next_index
opened-IsTyped =
    tree_path-IsTyped toy toy-Lawful one_issued.credentials (issued toy [] first_secret 18) 5 16 tag
      (be_value token) (leaf_commitment toy first_secret 18) first_secret-IsSecret (omega arith)
      (omega arith) (omega arith) (omega arith) (omega arith)

first_live : leaves 0 ≡ some (leaf_commitment toy first_secret 18)
first_live =
    ap (Option.map be_value)
      (live_commitment_of_find 0 one_issued.credentials first_row found_first refl)
    ∙ ap some first_fits

opened_valid : membership_valid toy opened ≡ true
unfolding next_index
opened_valid =
    tree_path-Proves toy toy-Lawful keyed toy_zk-IsReady later one_issued-IsTree
      (issued toy [] first_secret 18) (leaf_commitment toy first_secret 18) first_secret-IsSecret
      (omega arith) first_live refl 5 16 (be_value token) (omega arith) (omega arith)

membership_valid-binds_example :
    (16 ≤ 18)
    × (tag ≡ pseudonym toy first_secret 5)
    × ((leaves 0 ≡ some (leaf_commitment toy first_secret 18))
        ⊎ Breaks toy leaves 0 (leaf_commitment toy first_secret 18) (rest_of opened.path))
unfolding membership_witness_for next_index
membership_valid-binds_example =
    membership_valid-binds toy leaves opened refl (length-sibling_hashes toy leaves 32 0 0)
      (omega arith) opened_valid

-- The one statement: the public values of that witness.
abbrev is_opened : Public → Bool
is_opened (of_knowledge a b) = false
is_opened (of_membership m) =
    m.root == tree_root toy leaves
    && (m.audience == 5
        && (m.nullifier == tag && (m.challenge == be_value token && m.threshold == 16)))

abbrev sound_outside : Outside
sound_outside = record toy_outside { accepts = λ key raw public. is_opened public }

same_public :
    (r a n ch t : ℕ) (m : MembershipPublic)
    → (m.root == r
        && (m.audience == a && (m.nullifier == n && (m.challenge == ch && m.threshold == t))))
      ≡ true
    → of_membership
        (record { root = r; audience = a; nullifier = n; challenge = ch; threshold = t })
      ≡ of_membership m
same_public r a n ch t m h = ground arith

opened_only :
    (m : MembershipPublic)
    → is_opened (of_membership m) ≡ true
    → public_part (to_membership (assign_membership opened)) ≡ of_membership m
unfolding public_part assign_membership membership_witness_for
opened_only m h = same_public (tree_root toy leaves) 5 tag (be_value token) 16 m h

sound_outside-SoundGroth16 : SoundGroth16 toy toy_gadgets sound_outside (8 ∷ [])
unfolding assign_membership membership_witness_for
sound_outside-SoundGroth16 = record {
  extract = λ raw m. assign_membership opened;
  agrees = λ raw m h. opened_only m h;
  meets = λ raw m h. (
    ap (λ n. suc n) (length-sibling_hashes toy leaves 32 0 0),
    satisfied-define_membership toy toy-Lawful toy_gadgets toy_gadgets-LawfulGadgets opened
          opened-IsTyped
        ∙ opened_valid,
  );
}

abbrev known_claim : Claim
known_claim = record {
  name = 97 ∷ [];
  audience = 5;
  threshold = 16;
  kind = adult.kind;
  allows_login = false;
}

abbrev request : MembershipRequest
request = record {
  proof = replicate 164 3;
  root = field_bytes (tree_root toy leaves);
  nullifier = field_bytes tag;
  challenge = token;
  claim = 97 ∷ [];
}

root_known :
    any_accepted open_world.now keyed.root_grace
      (field_bytes (tree_root toy leaves))
      open_world.db.roots
    ≡ true
unfolding any_accepted is_accepted
root_known = rw (bytes_eq_self (field_bytes (tree_root toy leaves))) refl

checked :
    check_proof sound_outside keyed.membership request.proof (
      of_membership (record {
        root = tree_root toy leaves;
        audience = 5;
        nullifier = tag;
        challenge = be_value token;
        threshold = 16;
      }))
    ≡ ok tt
unfolding check_proof
checked = rw (==_self (tree_root toy leaves), ==_self tag, ==_self (be_value token)) refl

request-Verified :
    Verified sound_outside open_world toy keyed request claiming member.session_id known_claim
      (tree_root toy leaves)
      tag
unfolding valid_claim_name
request-Verified = record {
  sized = refl;
  named = adult_name;
  policy = (
    refl,
    (adult, adult_there, parse_field-field_bytes toy toy-Lawful 5 (omega arith), refl, refl, refl),
  );
  root_read =
      parse_field-field_bytes toy toy-Lawful (tree_root toy leaves)
        (tree_root-lt toy toy-Lawful leaves);
  nullifier_read = parse_field-field_bytes toy toy-Lawful tag (omega arith);
  accepted = root_known;
  challenge = be_value token;
  peeked = open_challenge;
  proven = checked;
}

served :
    (prove_claim sound_outside toy keyed pool (some member) request (solo open_world)).0 ≡ ok tt
unfolding find_nullifier
served =
    prove_claim-serves sound_outside toy keyed open_world (some member) request member known_claim
      (tree_root toy leaves) tag refl refl request-Verified refl refl refl

-- The challenge and the policy were stored after the credential was issued.
open_world-Had : Had toy keyed open_world first_state
open_world-Had = elsewhere later open_world first_state later-Had refl refl (sym one_issued-roots)

prove_claim-ShowsRecent_example :
    Any
      (λ p.
        IsRecent (live_leaves open_world.db.credentials) open_world.now keyed.root_grace p
        × ShowsMember toy p.leaves sound_outside-SoundGroth16.extract open_world request)
      first_state
prove_claim-ShowsRecent_example =
    prove_claim-ShowsRecent sound_outside toy toy-Lawful toy_gadgets toy_gadgets-LawfulGadgets keyed
      toy_zk-IsReady (8 ∷ []) sound_outside-SoundGroth16 refl first_state (some member) request
      open_world
      (prove_claim sound_outside toy keyed pool (some member) request (solo open_world)).1
      open_world-Had
      (λ i. (
        served i,
        (prove_claim sound_outside toy keyed pool (some member) request (solo open_world)).1,
      ))

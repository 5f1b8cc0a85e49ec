-- ===== src/Protocol/Membership/Once.antt =====
-- What a second `ProveClaim` (zkauthn/protocol.go) cannot do after a first one.
use kal_zk.Base.{ℕ, ◌≤◌, ◌≡◌, ◌≢◌, sym, ap, ◌∙◌, subst, Bytes, List, [], Option, some, inl, inr}
use kal_zk.Error.{ok, Result-cases, ok-injective}
use kal_zk.Hash.{Field, Crypto, field_bytes, parse_field}
use kal_zk.Service.{Zk}
use kal_zk.Store.{
  Db, ChallengeRow, ClaimRow, ClaimKind, recurring, one_shot, unknown_kind, Purpose, claiming,
}
use kal_zk.Store.Exec.{World, pool, query}
use kal_zk.Store.Challenges.{burn_rows, peek_row}
use kal_zk.Store.Claims.{find_claim}
use kal_zk.Store.Credentials.{null_if_empty}
use kal_zk.Store.Roots.{one}
use kal_zk.Store.Nullifiers.{find_nullifier}
use kal_zk.Store.Nullifiers.Burning.{IsBurned, find_nullifier-burned}
use kal_zk.Challenge.{Tokens, challenge_field, peek_challenge}
use kal_zk.Challenge.Spending.{at_time, open_fields-burn_rows}
use kal_zk.Protocol.Interface.{Outside, Principal, Claim, MembershipRequest}
use kal_zk.Protocol.Membership.{prove_claim}
use kal_zk.Protocol.Membership.Claiming.{Spent, Claimed, prove_claim-Claimed, challenge_field-hash}
use kal_zk.Tree.Invariant.{solo, settled}

Spent-one_shot :
    (now : ℕ) (kind : ClaimKind) (p : Principal) (claim : Claim) (n : Field) (before after : Db)
    → kind ≡ one_shot
    → Spent now kind p claim n before after
    → IsBurned (field_bytes n) after
Spent-one_shot now recurring p claim n before after e h = cc
Spent-one_shot now one_shot p claim n before after e (unused, same) =
    let audience = field_bytes claim.audience in
    (now, audience, rw same (find_nullifier-burned now (field_bytes n) audience before.nullifiers))
Spent-one_shot now (unknown_kind s) p claim n before after e h = absurd h

-- Nothing is spent with a nullifier that was burned.
Spent-burned :
    (now : ℕ) (kind : ClaimKind) (p : Principal) (claim : Claim) (n : Field) (before after : Db)
    → IsBurned (field_bytes n) before
    → ¬ Spent now kind p claim n before after
Spent-burned now recurring p claim n before after (t, a, row)
      (rows, ((r, there, _, owned), kept), _) =
    elim kept [ inl same ↦ cc (ap (find_nullifier (field_bytes n)) same) | inr (unused, _) ↦ cc ]
Spent-burned now one_shot p claim n before after (t, a, row) (unused, _) = cc
Spent-burned now (unknown_kind s) p claim n before after burned h = h

-- Whatever its kind, a claim leaves the challenges as the spending of its own left them.
Spent-challenges :
    (now : ℕ) (kind : ClaimKind) (p : Principal) (claim : Claim) (n : Field) (before after : Db)
    → Spent now kind p claim n before after
    → after.challenges ≡ before.challenges
Spent-challenges now recurring p claim n before after (rows, binds, same) =
    ap (λ d. d.challenges) same
Spent-challenges now one_shot p claim n before after (unused, same) = ap (λ d. d.challenges) same
Spent-challenges now (unknown_kind s) p claim n before after h = absurd h

peek-burned :
    (t : Tokens) (token : Bytes) (purpose : Purpose) (session : Bytes) (w : World) (now : ℕ)
    (rows : List ChallengeRow)
    → w.db.challenges ≡ burn_rows now (t.sha256 token) purpose (null_if_empty session) rows
    → now ≤ w.now
    → (f : Field) → (peek_challenge t token purpose session (solo w)).0 ≢ ok f
unfolding peek_challenge query peek_row one
peek-burned t token purpose session w now rows burned late f found =
    elim (Result-cases (challenge_field t token)) [
      | inr (x, bad) ↦ (let clash = rw bad at found in cc)
      | inl ((field, hash), good) ↦
          let gone = rw (← burned) at (
            open_fields-burn_rows now w.now (t.sha256 token) purpose (null_if_empty session) rows
              late) in
          let clash = rw (good, challenge_field-hash t token good, gone) at found in cc
    ]

module _ (o : Outside) (c : Crypto) (z : Zk) where
  second_claim :
      (ctx : Option Principal) (req : MembershipRequest) (w w' : World) (d : Db) (later : ℕ)
      → w' ≡ settled w d
      → (prove_claim o c z pool ctx req (at_time w' later)).0 ≡ ok tt
      → (d' : Db) × Claimed o c z (at_time (settled w d) later) ctx req d'
  second_claim ctx req w w' d later world again =
      let run = rw world at again in
      let v = at_time (settled w d) later in
      let (d', _, second) =
        prove_claim-Claimed o c z ctx req v _
          (λ i. (run i, (prove_claim o c z pool ctx req v).1)) in
      (d', second)

  -- Once ProveClaim has succeeded for a one-shot policy, on connections that work and are alone,
  -- no ProveClaim on the tables that it left succeeds with the same nullifier: not for another
  -- policy or kind, nor by another caller, nor with another proof or challenge, nor at another
  -- time.
  pub prove_claim-once :
      (ctx ctx' : Option Principal) (req req' : MembershipRequest) (w w' : World) (row : ClaimRow)
      (later : ℕ)
      → prove_claim o c z pool ctx req (solo w) ≡ (ok tt, w')
      → find_claim req.claim w.db.claims ≡ some row
      → row.kind ≡ one_shot
      → req'.nullifier ≡ req.nullifier
      → (prove_claim o c z pool ctx' req' (at_time w' later)).0 ≢ ok tt
  prove_claim-once ctx ctx' req req' w w' row later run policy kind same again =
      let (d, world, first) = prove_claim-Claimed o c z ctx req w w' run in
      let v = record w { db = d; base = d; now = later; schedule = [] } in
      let (d', second) = second_claim ctx' req' w w' d later world again in
      let (_, before, _, _, stored, _) = first.verified.policy.1 in
      let row_read = ap (λ name. find_claim name w.db.claims) first.verified.policy.0 in
      let is_one_shot : first.claim.kind ≡ one_shot = cc in
      let burned =
        Spent-one_shot w.now first.claim.kind first.principal first.claim first.nullifier _ d
          is_one_shot first.spent in
      let nullifiers = ok-injective (
        sym second.verified.nullifier_read
        ∙ ap (parse_field c) same
        ∙ first.verified.nullifier_read) in
      Spent-burned later second.claim.kind second.principal second.claim second.nullifier _ _
        (subst (λ n. IsBurned (field_bytes n) d) (sym nullifiers) burned) second.spent

  -- A request that ProveClaim has accepted is not accepted again for the same caller, then or
  -- later, on the tables that it left and on connections that work and are alone.
  pub prove_claim-no_replay :
      (ctx : Option Principal) (req : MembershipRequest) (w w' : World) (later : ℕ)
      → prove_claim o c z pool ctx req (solo w) ≡ (ok tt, w')
      → w.now ≤ later
      → (prove_claim o c z pool ctx req (at_time w' later)).0 ≢ ok tt
  prove_claim-no_replay ctx req w w' later run late again =
      let (d, world, first) = prove_claim-Claimed o c z ctx req w w' run in
      let v = record w { db = d; base = d; now = later; schedule = [] } in
      let (d', second) = second_claim ctx req w w' d later world again in
      let caller = ok-injective (sym second.authenticated ∙ first.authenticated) in
      let burned =
        Spent-challenges w.now first.claim.kind first.principal first.claim first.nullifier _ d
          first.spent in
      let session = ap (λ p. p.session_id) caller in
      peek-burned o.tokens req.challenge claiming second.principal.session_id v w.now
        w.db.challenges (rw session burned) late second.verified.challenge
        (ap (λ x. x.0) second.verified.peeked)

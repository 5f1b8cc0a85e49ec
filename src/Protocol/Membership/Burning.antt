-- ===== src/Protocol/Membership/Burning.antt =====
-- One-shot nullifiers are spent once (zkauthn/protocol.go: the transaction of ProveClaim).
use kal_zk.Base.{ℕ, ◌≡◌, refl, ap, Bytes, [], ◌∷◌, inl, inr, Option-cases}
use kal_zk.Error.{ok, err, kal, invalid_proof, no_rows_invalid}
use kal_zk.Hash.{Field, field_bytes}
use kal_zk.Store.{ClaimKind, recurring, one_shot, unknown_kind}
use kal_zk.Store.Exec.{World, query}
use kal_zk.Store.Nullifiers.{find_nullifier, burned_row}
use kal_zk.Store.Nullifiers.Burning.{
  IsBurned, bind_recurring_nullifier-burned, one_shot_nullifier-burned, one_shot_nullifier-fresh,
  one_shot_nullifier-taken, find_nullifier-burned,
}
use kal_zk.Challenge.Spending.{at_time}
use kal_zk.Protocol.Interface.{Outside, Principal, Claim}
use kal_zk.Protocol.Membership.{spend}
use kal_zk.Tree.Invariant.{solo}

-- A world in which the nullifier was just burned.
abbrev burnt : World → Bytes → Bytes → ℕ → World
burnt w n audience later = record w {
  db = record w.db { nullifiers = burned_row w.now n audience ∷ w.db.nullifiers };
  now = later;
  schedule = [];
}

module _ (o : Outside) where
  spend-burned :
      (kind : ClaimKind) (q : Principal) (claim : Claim) (nullifier : Field) (w : World)
      → IsBurned (field_bytes nullifier) w.db
      → spend o kind q claim nullifier (solo w) ≡ (err (kal invalid_proof), solo w)
  unfolding spend query no_rows_invalid
  spend-burned recurring q claim nullifier w burned = rw (
      bind_recurring_nullifier-burned (field_bytes nullifier) (field_bytes claim.audience) q.user_id
        w.now w.db burned)
  spend-burned one_shot q claim nullifier w burned = rw (
      one_shot_nullifier-burned (field_bytes nullifier) (field_bytes claim.audience) w.now w.db
        burned)
  spend-burned (unknown_kind s) q claim nullifier w burned = refl

  -- A one-shot claim that succeeded has burned its nullifier: no claim of any kind, user, audience
  -- and time succeeds with it afterwards.
  pub spend-once :
      (p q : Principal) (claim another : Claim) (nullifier : Field) (w w' : World)
      (kind : ClaimKind) (later : ℕ)
      → spend o one_shot p claim nullifier (solo w) ≡ (ok tt, w')
      → spend o kind q another nullifier (at_time w' later)
        ≡ (err (kal invalid_proof), at_time w' later)
  unfolding spend query no_rows_invalid
  spend-once p q claim another nullifier w w' kind later done =
      let n = field_bytes nullifier in
      let audience = field_bytes claim.audience in
      elim (Option-cases (find_nullifier n w.db.nullifiers)) [
        | inr (row, taken) ↦
            (let clash =
                ap (λ x. x.0) (rw (one_shot_nullifier-taken n audience w.now w.db taken) at done) in
              cc)
        | inl unused ↦
            let world =
              ap (λ x. x.1) (rw (one_shot_nullifier-fresh n audience w.now w.db unused) at done) in
            rw (← world) (
              spend-burned kind q another nullifier (burnt w n audience later)
                (w.now, audience, find_nullifier-burned w.now n audience w.db.nullifiers))
      ]

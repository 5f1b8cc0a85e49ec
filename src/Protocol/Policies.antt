-- ===== src/Protocol/Policies.antt =====
-- The claim policies of a deployment (zkauthn/tree.go: EnsureClaim, Claim).
use kal_zk.Base.{ℕ, ◌≤◌, ◌<◌, ◌≡◌, refl, true, false, ltb, none, arith}
use kal_zk.Error.{ok}
use kal_zk.Hash.{Crypto, Lawful, field_bytes}
use kal_zk.Hash.Encoding.{parse_field-field_bytes}
use kal_zk.Service.{Zk}
use kal_zk.Store.{ClaimRow}
use kal_zk.Store.Exec.{World, query}
use kal_zk.Store.Claims.{
  Refusal, put_claim, upsert_claim-ok, claim_by_name-ok, find_claim-put_claim,
}
use kal_zk.Challenge.Spending.{at_time}
use kal_zk.Protocol.Interface.{Outside, Claim}
use kal_zk.Protocol.Checking.{ensure_claim, read_claim, valid_claim_name, known_kind, max_int64}
use kal_zk.Tree.Invariant.{solo}

abbrev pub claim_row : Claim → ClaimRow
claim_row claim = record {
  name = claim.name;
  audience = field_bytes claim.audience;
  threshold = claim.threshold;
  kind = claim.kind;
  allows_login = claim.allows_login;
}

-- A policy with a valid name, a known kind, a threshold that fits a bigint and a canonical audience
-- is stored if the constraints accept it, and is read back unchanged at any later time.
pub ensure-read :
    (o : Outside) (c : Crypto) (laws : Lawful c) (z : Zk) (refusal : Refusal) (claim : Claim)
    (w : World) (later : ℕ)
    → valid_claim_name o claim.name ≡ true
    → known_kind claim.kind ≡ true
    → claim.threshold ≤ max_int64
    → claim.audience < c.modulus
    → refusal w.db (claim_row claim) ≡ none
    → let (stored, w') = ensure_claim o c z refusal claim (solo w) in
      (stored ≡ ok tt)
      × (read_claim o c z claim.name (at_time w' later) ≡ (ok claim, at_time w' later))
unfolding ensure_claim read_claim query
ensure-read o c laws z refusal claim w later named known small canonical accepted =
    let row = claim_row claim in
    let fits : ltb max_int64 claim.threshold ≡ false = ground arith in
    let stored = upsert_claim-ok refusal row w.now w.db accepted in
    let after = record w.db { claims = put_claim row w.db.claims } in
    let found =
      claim_by_name-ok claim.name row later after (find_claim-put_claim row w.db.claims) in
    rw (named, known, fits, stored, found, parse_field-field_bytes c laws claim.audience canonical)
      (refl, refl)

-- ===== src/Protocol/Running.antt =====
-- How the reading phases of zkauthn/protocol.go run on a connection that works and is alone.
use kal_zk.Base.{◌≡◌, refl, true, ◌==◌, Bytes, length, none, some}
use kal_zk.Error.{ok, err, no_rows_invalid, no_rows}
use kal_zk.Hash.{Field, Crypto, parse_field, field_bytes}
use kal_zk.Service.{Zk}
use kal_zk.Store.{ClaimRow}
use kal_zk.Store.Exec.{World, query}
use kal_zk.Store.Claims.{claim_by_name, claim_by_name-ok, find_claim}
use kal_zk.Store.Roots.{root_accepted_row, any_accepted}
use kal_zk.Tree.{root_accepted}
use kal_zk.Tree.Invariant.{solo}
use kal_zk.Protocol.Interface.{Outside, MembershipRequest}
use kal_zk.Protocol.Checking.{read_claim, compressed_proof_size, valid_claim_name}

-- The bytes of the request pass the checks of their shape.
pub record IsShaped (o : Outside) (c : Crypto) (req : MembershipRequest) : Type 0 where
  pub root : Field
  pub nullifier : Field
  pub sized : (length req.proof == compressed_proof_size) ≡ true
  pub named : valid_claim_name o req.claim ≡ true
  pub root_read : parse_field c req.root ≡ ok root
  pub nullifier_read : parse_field c req.nullifier ≡ ok nullifier

module _ (o : Outside) (c : Crypto) (z : Zk) (w : World) where
  pub read_claim-none :
      (name : Bytes)
      → find_claim name w.db.claims ≡ none
      → read_claim o c z name (solo w) ≡ (err (no_rows_invalid no_rows), solo w)
  unfolding read_claim query claim_by_name
  read_claim-none name absent = rw (absent, claim_by_name)

  pub read_claim-some :
      (name : Bytes) (row : ClaimRow) (audience : Field)
      → find_claim name w.db.claims ≡ some row
      → parse_field c row.audience ≡ ok audience
      → read_claim o c z name (solo w) ≡ (
        ok (record {
          name = name;
          audience = audience;
          threshold = row.threshold;
          kind = row.kind;
          allows_login = row.allows_login;
        }),
        solo w,
      )
  unfolding read_claim query
  read_claim-some name row audience there read =
      rw (claim_by_name-ok name row w.now w.db there, read)

  pub root_accepted-run :
      (root : Field)
      → root_accepted c z root (solo w)
        ≡ (ok (any_accepted w.now z.root_grace (field_bytes root) w.db.roots), solo w)
  unfolding root_accepted root_accepted_row query
  root_accepted-run root = refl

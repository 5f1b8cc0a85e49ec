-- ===== src/Authz.antt =====
-- zkauthz/zkauthz.go: the claims that a request has proven, kept in a holder in its context, and
-- the check of `@auth(proves:)`. The holder's lock makes each call one step.
pub mod Counts
pub mod Proving
pub mod Requests
use kal_zk.Base.{
  ℕ, ◌+◌, ◌-◌, Bytes, bytes_eq, List, [], ◌∷◌, Option, none, some, Bool, true, false, ◌||◌, ◌&&◌,
  leb, if◌then◌else◌,
}
use kal_zk.Error.{Error, Result, ok, err, kal, invalid_proof, plain, result_bind}
use kal_zk.Service.{Environment, VerifiedClaim, schema_prefix}
use kal_zk.Store.{Db, ClaimKind, one_shot, SessionClaimRow}
use kal_zk.Store.Exec.{Statement, M, World, query, pure, attempt, ◌>>=◌, ◌>>◌}
use Counts.{CountMap, count, put, bump}

-- `map[string]bool` that only ever gets the value true is the list of its keys.
pub record Holder : Type 0 where
  pub recurring : List Bytes
  pub grants : CountMap
  pub load_err : Option Error

abbrev pub empty_holder : Holder
empty_holder = record { recurring = []; grants = []; load_err = none }

unfoldable pub has_name : Bytes → List Bytes → Bool
has_name name [] = false
has_name name (n ∷ ns) = bytes_eq n name || has_name name ns

-- `New`: the prefix of the tables in the one statement of the package.
unfoldable pub new_claims : Environment → Bytes → Result Bytes
new_claims env schema = schema_prefix env schema

claims_of : Bytes → List SessionClaimRow → List Bytes
claims_of session [] = []
claims_of session (r ∷ rs) =
    let rest = claims_of session rs in
    if bytes_eq r.session_id session then r.claim ∷ rest else rest

-- The claims of a session (zkauthz/sql.go); their order is lost in the holder.
unfoldable pub for_session : Bytes → Statement (List Bytes)
unfolding claims_of
for_session session now db = ok (claims_of session db.session_claims, db)

unfoldable pub loaded : Result (List Bytes) → Holder
loaded (ok names) = record { recurring = names; grants = []; load_err = none }
loaded (err e) = record { recurring = []; grants = []; load_err = some e }

-- `Middleware`: the holder of a new request, by the session of its principal if there is one.
unfoldable pub middleware : Option Bytes → M Holder
middleware none = pure empty_holder
middleware (some session) = do names ← attempt (query (for_session session)); pure (loaded names)

-- A context has a holder if the middleware is mounted.
abbrev pub Context : Type 0
Context = Option Holder

unfoldable pub grant : VerifiedClaim → Holder → Holder
grant claim h = elim claim.kind [
  | one_shot ↦ record h { grants = bump claim.name h.grants }
  | _ ↦ record h { recurring = claim.name ∷ h.recurring }
]

-- `Add`
unfoldable pub add_claim : VerifiedClaim → Context → Result (Unit {0}) × Context
unfolding grant
add_claim claim none = (err (plain "zkauthz: middleware not mounted"), none)
add_claim claim (some h) = (ok tt, some (grant claim h))

is_empty : Bytes → Bool
is_empty [] = true
is_empty (b ∷ bs) = false

-- The loop that counts what is required beyond the recurring claims; `none` is an empty name.
unfoldable pub tally : List Bytes → CountMap → List Bytes → Option CountMap
unfolding is_empty
tally recurring required [] = some required
tally recurring required (claim ∷ claims) =
    let rest =
      tally recurring (if has_name claim recurring then required else bump claim required) claims in
    if is_empty claim then none else rest

-- Every required count is there. The order in which Go visits a map does not matter here, nor in
-- `deduct`: each name stands once.
unfoldable pub covered : CountMap → CountMap → Bool
covered [] grants = true
covered ((name, k) ∷ required) grants = leb k (count name grants) && covered required grants

unfoldable pub deduct : CountMap → CountMap → CountMap
deduct [] grants = grants
deduct ((name, k) ∷ required) grants = deduct required (put name (count name grants - k) grants)

unfoldable pub consume : Holder → Option CountMap → Result (Unit {0}) × Holder
consume h none = (err (kal invalid_proof), h)
consume h (some required) =
    if covered required h.grants
    then (ok tt, record h { grants = deduct required h.grants })
    else (err (kal invalid_proof), h)

unfoldable pub prove_held : List Bytes → Holder → Result (Unit {0}) × Holder
prove_held claims h = elim h.load_err [
  | some e ↦ (err e, h)
  | none ↦ consume h (tally h.recurring [] claims)
]

-- Asking for nothing is allowed before the holder is looked at.
unfoldable pub prove_in : List Bytes → Holder → Result (Unit {0}) × Holder
prove_in [] h = (ok tt, h)
prove_in (claim ∷ claims) h = prove_held (claim ∷ claims) h

-- `Proofs`
unfoldable pub proofs : List Bytes → Context → Result (Unit {0}) × Context
proofs [] none = (ok tt, none)
proofs (claim ∷ claims) none = (err (kal invalid_proof), none)
proofs claims (some h) = let (r, h') = prove_in claims h in (r, some h')

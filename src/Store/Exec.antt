-- ===== src/Store/Exec.antt =====
-- Statements on the database, one after another (`orm.DB`, and `withTx` of zkauthn/service.go).
-- Before each statement the schedule may let the connection fail, or let another transaction
-- commit; an empty schedule is a connection that works and is alone.
use kal_zk.Base.{ℕ, Bytes, List, [], ◌∷◌, Option}
use kal_zk.Error.{Error, Result, ok, err, driver, plain}
use kal_zk.Store.{Db}

pub data Event : Type 0 where
  quiet fails : Event
  commits : (Db → Db) → Event

-- `base` is what a rollback returns to: the tables with what others have committed and without
-- this transaction's writes. `entropy` holds the outcomes of the reads of the random source.
pub record World : Type 0 where
  pub db : Db
  pub base : Db
  pub now : ℕ
  pub schedule : List Event
  pub entropy : List (Option Bytes)

abbrev pub M {ℓ} : Type ℓ → Type ℓ
M A = World → Result A × World

module _ {ℓ} {A : Type ℓ} where
  abbrev pub pure : A → M A
  pure a w = (ok a, w)

  abbrev pub raise : Error → M A
  raise e w = (err e, w)

  abbrev pub lift : Result A → M A
  lift r w = (r, w)

module _ {ℓ κ} {A : Type ℓ} {B : Type κ} where
  abbrev pub continue : (A → M B) → Result A × World → Result B × World
  continue f (ok a, w) = f a w
  continue f (err e, w) = (err e, w)

  infixl 5 ◌>>=◌ ◌>>◌
  abbrev pub ◌>>=◌ : M A → (A → M B) → M B
  ◌>>=◌ m f w = continue f (m w)

  abbrev pub ◌>>◌ : M A → M B → M B
  m >> k = m >>= λ _. k

-- The error as a value, for the code that looks at it.
abbrev pub attempt {ℓ} : {A : Type ℓ} → M A → M (Result A)
attempt m w = let (r, w') = m w in (ok r, w')

-- A statement sees the time and the tables; one that fails writes nothing.
abbrev pub Statement {ℓ} : Type ℓ → Type ℓ
Statement A = ℕ → Db → Result (A × Db)

module _ {ℓ} {A : Type ℓ} where
  abbrev answer : World → Result (A × Db) → Result A × World
  answer w (ok (a, d)) = (ok a, record w { db = d })
  answer w (err e) = (err e, w)

  abbrev arrive : Statement A → World → List Event → Result A × World
  arrive q w [] = answer w (q w.now w.db)
  arrive q w (quiet ∷ es) = answer (record w { schedule = es }) (q w.now w.db)
  arrive q w (fails ∷ es) = (err driver, record w { schedule = es })
  arrive q w (commits g ∷ es) =
      answer (record w { db = g w.db; base = g w.base; schedule = es }) (q w.now (g w.db))

  unfoldable pub query : Statement A → M A
  query q w = arrive q w w.schedule

  -- COMMIT may fail too, and is a rollback then.
  abbrev pub commit : A → World → List Event → Result A × World
  commit a w [] = (ok a, record w { base = w.db })
  commit a w (quiet ∷ es) = (ok a, record w { base = w.db; schedule = es })
  commit a w (fails ∷ es) = (err driver, record w { db = w.base; schedule = es })
  commit a w (commits g ∷ es) = (ok a, record w { db = g w.db; base = g w.db; schedule = es })

  abbrev pub finish : Result A × World → Result A × World
  finish (ok a, w) = commit a w w.schedule
  finish (err e, w) = (err e, record w { db = w.base })

-- What a caller hands over as `orm.DB`: a pool or connection, an open transaction, or a handle that
-- is neither.
pub data Handle : Type 0 where
  pool transaction neither : Handle

unfoldable pub with_tx {ℓ} : {A : Type ℓ} → Handle → M A → M A
with_tx transaction m = m
with_tx pool m = λ w. finish (m (record w { base = w.db }))
with_tx neither m = raise (plain "zkauthn: database handle cannot start a transaction")

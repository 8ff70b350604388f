-- ===== src/Service/Methods.antt =====
-- The service's state and its methods. A method opens several transactions, one after another: what
-- one of them committed stays when a later step raises, so the state comes back beside the error.
use synode.Prelude.{String}
use synode.Store.{Db, Error, Result, ok, err, M}

-- The database, and the state of what a method works on beside it: the run queue transport, or what
-- the tools act on.
pub record World (Q : Type 0) : Type 0 where
  pub db : Db
  pub outside : Q

-- The transport's `enqueue_run`; an error means that it raised.
abbrev pub Transport : Type 0 → Type 0
Transport Q = String → Q → Result Q

abbrev pub Method : Type 0 → Type 0 → Type 0
Method Q A = World Q → Result A × World Q

module _ {Q A : Type 0} where
  abbrev pub done : A → Method Q A
  done a w = (ok a, w)

  abbrev pub throw : Error → Method Q A
  throw e w = (err e, w)

  abbrev pub committed : World Q → Result (A × Db) → Result A × World Q
  committed w (ok (a, db)) = (ok a, record w { db = db })
  committed w (err e) = (err e, w)

  -- `async with database.session()`: commit, or roll back and raise.
  abbrev pub transact : M A → Method Q A
  transact m w = committed w (m w.db)

abbrev pub enqueued : {Q : Type 0} → World Q → Result Q → Result (Unit {0}) × World Q
enqueued w (ok q) = (ok tt, record w { outside = q })
enqueued w (err e) = (err e, w)

abbrev pub enqueue : {Q : Type 0} → Transport Q → String → Method Q (Unit {0})
enqueue transport id w = enqueued w (transport id w.outside)

module _ {Q A B : Type 0} where
  abbrev pub go_on : Result A → (A → Method Q B) → Method Q B
  go_on (ok a) f w = f a w
  go_on (err e) f w = (err e, w)

  infixl 5 ◌>>=◌ ◌>>◌
  abbrev pub ◌>>=◌ : Method Q A → (A → Method Q B) → Method Q B
  ◌>>=◌ m f w = let (r, w') = m w in go_on r f w'

  abbrev pub ◌>>◌ : Method Q A → Method Q B → Method Q B
  m >> k = m >>= λ _. k

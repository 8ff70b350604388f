-- ===== src/Store/Monad.antt =====
-- A transaction: what runs inside one `async with database.session()` of
-- src/synode/infrastructure/persistence/database.py. It reads and writes the database and may
-- raise; a raise rolls all of it back, so no database comes with an error.
use synode.Prelude.{
  String, Option, none, some, ◌≡◌, refl, subst, Bool, true, false, if◌then◌else◌, List, [], ◌∷◌,
}
use synode.Store.Records.{Db}

-- The exceptions that the modelled code raises, by what they report.
pub data Error : Type 0 where
  thread_not_found run_not_found approval_not_found request_not_found : String → Error
  blank_message : Error
  duplicate_key : String → Error
  run_is_terminal run_is_active cannot_queue : String → Error
  has_pending_approvals has_pending_requests : String → Error
  approval_already_decided request_already_decided waiting_for_operator : String → Error
  unknown_tool unknown_role : String → Error
  queue_unavailable graph_failed : String → Error
  task_cancelled bad_interrupt : Error

pub data Result {ℓ} (A : Type ℓ) : Type ℓ where
  ok : A → Result A
  err : Error → Result A

abbrev pub M : Type 0 → Type 0
M A = Db → Result (A × Db)

module _ {A : Type 0} where
  unfoldable pub pure : A → M A
  pure a db = ok (a, db)

  unfoldable pub raise : Error → M A
  raise e db = err e

  unfoldable pub gets : (Db → A) → M A
  gets f db = ok (f db, db)

-- The object that was found, or the `LookupError` that it is missing.
module _ {A : Type 0} where
  unfoldable pub or_raise : Option A → Error → M A
  unfolding pure raise
  or_raise none e = raise e
  or_raise (some a) e = pure a

unfoldable pub modify : (Db → Db) → M (Unit {0})
modify f db = ok (tt, f db)

-- `if b: raise e`
unfoldable pub raise_if : Bool → Error → M (Unit {0})
raise_if b e db = if b then err e else ok (tt, db)

module _ {A B : Type 0} where
  abbrev pub continue : Result (A × Db) → (A → M B) → Result (B × Db)
  continue (ok (a, db)) f = f a db
  continue (err e) f = err e

  infixl 5 ◌>>=◌
  -- Opening this opens the other combinators too.
  unfoldable pub ◌>>=◌ : M A → (A → M B) → M B
  unfolding pure raise gets or_raise modify raise_if
  ◌>>=◌ m f db = continue (m db) f

infixl 5 ◌>>◌
abbrev pub ◌>>◌ : {A B : Type 0} → M A → M B → M B
m >> k = m >>= λ _. k

-- `if b: m`
unfoldable pub when : Bool → M (Unit {0}) → M (Unit {0})
when b m = if b then m else pure tt

-- What holds of the value and the database when a transaction commits.
abbrev pub Commits : {A : Type 0} → (A → Db → Type 0) → Result (A × Db) → Type 0
Commits Q (ok (a, db)) = Q a db
Commits Q (err e) = Unit

pub record Triple {A : Type 0} (P : Db → Type 0) (m : M A) (Q : A → Db → Type 0) : Type 0 where
  pub at : (db : Db) → P db → Commits Q (m db)

-- `m` keeps `P`, where it commits.
abbrev pub Keeps : {A : Type 0} → (Db → Type 0) → M A → Type 0
Keeps P m = Triple P m (λ _. P)

pub continue_rule :
    {A B : Type 0} (Q : A → Db → Type 0) (R : B → Db → Type 0) (r : Result (A × Db)) (f : A → M B)
    → Commits Q r
    → ((a : A) → Triple (Q a) (f a) R)
    → Commits R (continue r f)
continue_rule Q R (ok (a, db)) f q k = (k a).at db q
continue_rule Q R (err e) f q k = tt

module _ {A B : Type 0} {P : Db → Type 0} where
  pub Triple-bind :
      (Q : A → Db → Type 0) (R : B → Db → Type 0) (m : M A) (f : A → M B)
      → Triple P m Q
      → ((a : A) → Triple (Q a) (f a) R)
      → Triple P (m >>= f) R
  unfolding ◌>>=◌
  Triple-bind Q R m f t k = record { at = λ db p. continue_rule Q R (m db) f (t.at db p) k }

  pub Keeps-bind :
      (step : M A) (rest : A → M B)
      → Keeps P step
      → ((x : A) → Keeps P (rest x))
      → Keeps P (step >>= rest)
  Keeps-bind step rest first next = Triple-bind (λ _. P) (λ _. P) step rest first next

-- A triple under a stronger condition on the database.
pub Triple-given :
    {A : Type 0} {P P' : Db → Type 0} {m : M A} {Q : A → Db → Type 0}
    → ((db : Db) → P' db → P db)
    → Triple P m Q
    → Triple P' m Q
Triple-given f t = record { at = λ db p. t.at db (f db p) }

-- A weaker claim about what a transaction leaves.
pub Triple-post :
    {A : Type 0} {P : Db → Type 0} {m : M A} (Q R : A → Db → Type 0)
    → ((a : A) (db : Db) → Q a db → R a db)
    → Triple P m Q
    → Triple P m R
Triple-post {m = m} Q R f t = record { at = λ db p. go (m db) (t.at db p) }
  where
    go : (r : Result (_ × Db)) → Commits Q r → Commits R r
    go (ok (a, db)) q = f a db q
    go (err e) q = tt

-- What a triple says of a transaction that committed.
pub committed :
    {A : Type 0} {P : Db → Type 0} {m : M A} {Q : A → Db → Type 0}
    → Triple P m Q
    → (db : Db) (a : A) (db' : Db) → P db
    → m db ≡ ok (a, db')
    → Q a db'
committed {Q = Q} t db a db' p e = subst (Commits Q) e (t.at db p)

-- A fact that the condition gives, whatever the database.
pub fact_rule :
    {A F : Type 0} {P : Db → Type 0} {m : M A} {Q : A → Db → Type 0}
    → ((db : Db) → P db → F)
    → (F → Triple P m Q)
    → Triple P m Q
fact_rule f t = record { at = λ db p. (t (f db p)).at db p }

module _ {A : Type 0} {P : Db → Type 0} where
  pub Keeps-pure : (a : A) → Keeps P (pure a)
  unfolding pure
  Keeps-pure a = record { at = λ db p. p }

  pub Keeps-raise : (e : Error) → Keeps P (raise {A = A} e)
  unfolding raise
  Keeps-raise e = record { at = λ db p. tt }

  pub Keeps-gets : (f : Db → A) → Keeps P (gets f)
  unfolding gets
  Keeps-gets f = record { at = λ db p. p }

  pub Keeps-or_raise : (o : Option A) (e : Error) → Keeps P (or_raise o e)
  unfolding or_raise
  Keeps-or_raise none e = Keeps-raise e
  Keeps-or_raise (some a) e = Keeps-pure a

-- What a lookup finds is known to be there.
pub lookup_rule :
    {A : Type 0} {P : Db → Type 0} (f : Db → Option A) (e : Error)
    → Triple P (gets f >>= λ o. or_raise o e) (λ a db. P db × (f db ≡ some a))
unfolding ◌>>=◌
lookup_rule {A} {P} f e = record { at = λ db p. go db p (f db) refl }
  where
    go :
        (db : Db)
        → P db
        → (o : Option A) → f db ≡ o
        → Commits (λ a db'. P db' × (f db' ≡ some a)) (or_raise o e db)
    go db p none eq = tt
    go db p (some a) eq = (p, eq)

module _ {P : Db → Type 0} where
  pub Keeps-when : (b : Bool) (m : M (Unit {0})) → (b ≡ true → Keeps P m) → Keeps P (when b m)
  unfolding when
  Keeps-when true m k = k refl
  Keeps-when false m k = Keeps-pure tt

  pub Keeps-raise_if : (b : Bool) (e : Error) → Keeps P (raise_if b e)
  unfolding raise_if
  Keeps-raise_if true e = record { at = λ db p. tt }
  Keeps-raise_if false e = record { at = λ db p. p }

  -- Behind a test that did not raise.
  pub raise_if_rule :
      {A : Type 0} (Q : A → Db → Type 0) (b : Bool) (e : Error) (rest : M A)
      → (b ≡ false → Triple P rest Q)
      → Triple P (raise_if b e >> rest) Q
  unfolding ◌>>=◌
  raise_if_rule Q true e rest k = record { at = λ db p. tt }
  raise_if_rule Q false e rest k = record { at = (k refl).at }

  pub Triple-when :
      (Q : Db → Type 0) (b : Bool) (m : M (Unit {0}))
      → ((db : Db) → P db → Q db)
      → (b ≡ true → Triple P m (λ _. Q))
      → Triple P (when b m) (λ _. Q)
  unfolding when pure
  Triple-when Q true m f k = k refl
  Triple-when Q false m f k = record { at = f }

  pub Triple-if :
      {A : Type 0} (Q : A → Db → Type 0) (b : Bool) (m n : M A)
      → (b ≡ true → Triple P m Q)
      → (b ≡ false → Triple P n Q)
      → Triple P (if b then m else n) Q
  Triple-if Q true m n km kn = km refl
  Triple-if Q false m n km kn = kn refl

  pub Keeps-if :
      {A : Type 0} (test : Bool) (left right : M A)
      → (test ≡ true → Keeps P left)
      → (test ≡ false → Keeps P right)
      → Keeps P (if test then left else right)
  Keeps-if test left right ky kn = Triple-if (λ _. P) test left right ky kn

  -- An insertion that is refused where the key is taken.
  pub insert_rule :
      (Q : Db → Type 0) (taken : Db → Bool) (e : Error) (f : Db → Db)
      → ((db : Db) → P db → taken db ≡ false → Q (f db))
      → Triple P (gets taken >>= λ b. raise_if b e >> modify f) (λ _. Q)
  unfolding ◌>>=◌
  insert_rule Q taken e f keep = record { at = λ db p. go db p (taken db) refl }
    where
      go :
          (db : Db)
          → P db
          → (b : Bool) → taken db ≡ b
          → Commits (λ _. Q) ((raise_if b e >> modify f) db)
      go db p true eq = tt
      go db p false eq = keep db p eq

  -- What is read is known to be there.
  pub gets_rule :
      {A B : Type 0} (Q : B → Db → Type 0) (f : Db → A) (k : A → M B)
      → ((a : A) → Triple (λ db. P db × (f db ≡ a)) (k a) Q)
      → Triple P (gets f >>= k) Q
  unfolding ◌>>=◌
  gets_rule Q f k t = record { at = λ db p. (t (f db)).at db (p, refl) }

  -- A step that keeps `P`, and then the rest.
  pub then_rule :
      {A B : Type 0} (Q : B → Db → Type 0) (m : M A) (f : A → M B)
      → Keeps P m
      → ((a : A) → Triple P (f a) Q)
      → Triple P (m >>= f) Q
  then_rule Q m f k t = Triple-bind (λ _. P) Q m f k t

  pub Keeps-modify : (f : Db → Db) → ((db : Db) → P db → P (f db)) → Keeps P (modify f)
  unfolding modify
  Keeps-modify f keep = record { at = keep }

-- `for x in xs: f(x)`
unfoldable pub for_each : {A : Type 0} → List A → (A → M (Unit {0})) → M (Unit {0})
for_each [] f = pure tt
for_each (x ∷ xs) f = f x >> for_each xs f

pub Keeps-for_each :
    {A : Type 0} {P : Db → Type 0} (xs : List A) (f : A → M (Unit {0}))
    → ((x : A) → Keeps P (f x))
    → Keeps P (for_each xs f)
unfolding for_each
Keeps-for_each [] f k = Keeps-pure tt
Keeps-for_each (x ∷ xs) f k =
    Keeps-bind (f x) (λ _. for_each xs f) (k x) (λ _. Keeps-for_each xs f k)

-- A loop whose invariant speaks of the items that are left.
pub for_each_rule :
    {A : Type 0} (I : List A → Db → Type 0) (f : A → M (Unit {0}))
    → ((x : A) (xs : List A) → Triple (I (x ∷ xs)) (f x) (λ _. I xs))
    → (xs : List A) → Triple (I xs) (for_each xs f) (λ _. I [])
unfolding for_each
for_each_rule I f step [] = Keeps-pure tt
for_each_rule I f step (x ∷ xs) =
    Triple-bind (λ _. I xs) (λ _. I []) (f x) (λ _. for_each xs f) (step x xs)
      (λ _. for_each_rule I f step xs)

pub ruleset keeps_rules = (
  Keeps-for_each, Keeps-or_raise, Keeps-when, Keeps-pure, Keeps-raise, Keeps-gets, Keeps-if,
  Keeps-raise_if, Keeps-bind,
)

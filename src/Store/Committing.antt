-- ===== src/Store/Committing.antt =====
-- Transactions that commit: the proof rules with which no step may raise.
use synode.Prelude.{Bool, true, false, ◌≡◌, refl, Option, some, List, [], ◌∷◌}
use synode.Store.Records.{Db}
use synode.Store.Monad.{
  Error, Result, ok, err, M, continue, pure, gets, or_raise, raise_if, modify, ◌>>=◌, ◌>>◌,
  for_each,
}

abbrev pub Returns : {A : Type 0} → (A → Db → Type 0) → Result (A × Db) → Type 0
Returns Q (ok (a, db)) = Q a db
Returns Q (err e) = ⊥

-- From a database where `P` holds, `m` commits, and `Q` holds of what it returns and leaves.
pub record Total {A : Type 0} (P : Db → Type 0) (m : M A) (Q : A → Db → Type 0) : Type 0 where
  pub at : (db : Db) → P db → Returns Q (m db)

pub Returns-mono :
    {A : Type 0} (Q R : A → Db → Type 0) (r : Result (A × Db))
    → ((a : A) (db : Db) → Q a db → R a db)
    → Returns Q r
    → Returns R r
Returns-mono Q R (ok (a, db)) f q = f a db q
Returns-mono Q R (err e) f q = absurd q

continue_total :
    {A B : Type 0} (Q : A → Db → Type 0) (R : B → Db → Type 0) (r : Result (A × Db)) (f : A → M B)
    → Returns Q r
    → ((a : A) → Total (Q a) (f a) R)
    → Returns R (continue r f)
continue_total Q R (ok (a, db)) f q k = (k a).at db q
continue_total Q R (err e) f q k = absurd q

module _ {A B : Type 0} {P : Db → Type 0} where
  pub Total-bind :
      (Q : A → Db → Type 0) (R : B → Db → Type 0) (m : M A) (f : A → M B)
      → Total P m Q
      → ((a : A) → Total (Q a) (f a) R)
      → Total P (m >>= f) R
  unfolding ◌>>=◌
  Total-bind Q R m f t k = record { at = λ db p. continue_total Q R (m db) f (t.at db p) k }

  -- A step that changes nothing, and what it reads.
  pub Total-gets :
      (R : B → Db → Type 0) (f : Db → A) (k : A → M B)
      → ((a : A) → Total (λ db. P db × (f db ≡ a)) (k a) R)
      → Total P (gets f >>= k) R
  unfolding ◌>>=◌
  Total-gets R f k t = record { at = λ db p. (t (f db)).at db (p, refl) }

  -- A lookup of what is known to be there.
  pub Total-found :
      (R : B → Db → Type 0) (f : Db → Option A) (e : Error) (a : A) (k : A → M B)
      → ((db : Db) → P db → f db ≡ some a)
      → Total P (k a) R
      → Total P ((gets f >>= λ o. or_raise o e) >>= k) R
  unfolding ◌>>=◌
  Total-found R f e a k known t = record { at = λ db p. rw (known db p) (t.at db p) }

module _ {P : Db → Type 0} where
  pub Total-modify :
      (Q : Db → Type 0) (f : Db → Db) → ((db : Db) → P db → Q (f db)) → Total P (modify f) (λ _. Q)
  unfolding modify
  Total-modify Q f k = record { at = k }

  pub Total-pass :
      {B : Type 0} (R : B → Db → Type 0) (b : Bool) (e : Error) (k : M B)
      → b ≡ false
      → Total P k R
      → Total P (raise_if b e >> k) R
  unfolding ◌>>=◌
  Total-pass R true e k h t = cc
  Total-pass R false e k h t = record { at = t.at }

  pub Total-given :
      {A : Type 0} {P' : Db → Type 0} {m : M A} {Q : A → Db → Type 0}
      → ((db : Db) → P' db → P db)
      → Total P m Q
      → Total P' m Q
  Total-given f t = record { at = λ db p. t.at db (f db p) }

pub Total-for_each :
    {A : Type 0} (I : List A → Db → Type 0) (f : A → M (Unit {0}))
    → ((x : A) (xs : List A) → Total (I (x ∷ xs)) (f x) (λ _. I xs))
    → (xs : List A) → Total (I xs) (for_each xs f) (λ _. I [])
unfolding for_each pure
Total-for_each I f step [] = record { at = λ db p. p }
Total-for_each I f step (x ∷ xs) =
    Total-bind (λ _. I xs) (λ _. I []) (f x) (λ _. for_each xs f) (step x xs)
      (λ _. Total-for_each I f step xs)

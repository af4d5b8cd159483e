-- ===== src/Program/Rules.antt =====
-- What a program promises of its two ways to end, and the rules that prove it step by step.
use qa_lab.Base.{◌≡◌, refl, sym, subst, Bool, true, false, Option, none, some}
use qa_lab.Schema.{Db}
use qa_lab.Program.{
  Action, Outcome, ok, err, Exception, gets, modify, or_throw, throw_if, continue, ◌>>=◌, after,
}

-- A value comes with what `Good` says of it and of the database, an exception with `Bad`.
pub data Ends {A : Type 0} (Good : A → Db → Type 0) (Bad : Exception → Db → Type 0)
    : Outcome A → Type 0 where
  done : (a : A) (db : Db) → Good a db → Ends Good Bad (ok a db)
  failed : (e : Exception) (db : Db) → Bad e db → Ends Good Bad (err e db)

-- A call that throws has written nothing.
abbrev pub Unchanged : Db → Exception → Db → Type 0
Unchanged db e db' = db' ≡ db

-- A program that only reads: its value is as `Q` says, and nothing is written either way.
abbrev pub Reads : {A : Type 0} → Db → (A → Type 0) → Outcome A → Type 0
Reads db Q r = Ends (λ a db'. Q a × (db' ≡ db)) (Unchanged db) r

module _ {A : Type 0} {Good : A → Db → Type 0} {Bad : Exception → Db → Type 0} where
  Ends-good_gen : {r : Outcome A} {a : A} {db : Db} → Ends Good Bad r → r ≡ ok a db → Good a db
  Ends-good_gen (done a db h) e = subst (λ r. GoodOf r) e h
    where
      GoodOf : Outcome A → Type 0
      GoodOf (ok a db) = Good a db
      GoodOf (err e db) = Unit
  Ends-good_gen (failed x db h) e = cc

  pub Ends-good : (r : Outcome A) {a : A} {db : Db} → Ends Good Bad r → r ≡ ok a db → Good a db
  Ends-good r h e = Ends-good_gen h e

  -- Two promises of the same program hold together, and either may be weakened.
  pub Ends-mono :
      {Good' : A → Db → Type 0} {Bad' : Exception → Db → Type 0} {r : Outcome A}
      → ((a : A) (db : Db) → Good a db → Good' a db)
      → ((e : Exception) (db : Db) → Bad e db → Bad' e db)
      → Ends Good Bad r
      → Ends Good' Bad' r
  Ends-mono g b (done a db h) = done a db (g a db h)
  Ends-mono g b (failed e db h) = failed e db (b e db h)

  -- What is known of a run that throws joins its promise.
  pub Ends-also :
      {Also : Exception → Db → Type 0} {r : Outcome A}
      → Ends Good Bad r
      → ((e : Exception) (db : Db) → r ≡ err e db → Also e db)
      → Ends Good (λ e db. Bad e db × Also e db) r
  Ends-also (done a db h) k = done a db h
  Ends-also (failed e db h) k = failed e db (h, k e db refl)

  -- What both endings give of the database holds of it afterwards.
  pub Ends-after :
      (P : Db → Type 0) {r : Outcome A}
      → Ends Good Bad r
      → ((a : A) (db : Db) → Good a db → P db)
      → ((e : Exception) (db : Db) → Bad e db → P db)
      → P (after r)
  Ends-after P (done a db h) g b = g a db h
  Ends-after P (failed e db h) g b = b e db h

-- An exception at this point, where nothing has been written.
pub refuse :
    {A : Type 0} {Good : A → Db → Type 0} (e : Exception) (db : Db)
    → Ends {A = A} Good (Unchanged db) (err e db)
refuse e db = failed e db refl

module _ {A B : Type 0} {Good : B → Db → Type 0} {Bad : Exception → Db → Type 0} where
  pub bind_ok :
      (m : Action A) (f : A → Action B) (db : Db) {a : A} {db' : Db}
      → m db ≡ ok a db'
      → Ends Good Bad (f a db')
      → Ends Good Bad ((m >>= f) db)
  unfolding ◌>>=◌
  bind_ok m f db q h = subst (λ r. Ends Good Bad (continue f r)) (sym q) h

  pub bind_err :
      (m : Action A) (f : A → Action B) (db : Db) {e : Exception} {db' : Db}
      → m db ≡ err e db'
      → Bad e db'
      → Ends Good Bad ((m >>= f) db)
  unfolding ◌>>=◌
  bind_err m f db {e} {db'} q h = subst (λ r. Ends Good Bad (continue f r)) (sym q) (failed e db' h)

  -- The composition rule: what the first program promises is what the rest starts from.
  pub bind_rule :
      {Mid : A → Db → Type 0} {Fail : Exception → Db → Type 0} (m : Action A) (f : A → Action B)
      (db : Db)
      → Ends Mid Fail (m db)
      → ((e : Exception) (d : Db) → Fail e d → Bad e d)
      → ((a : A) (d : Db) → Mid a d → Ends Good Bad (f a d))
      → Ends Good Bad ((m >>= f) db)
  unfolding ◌>>=◌
  bind_rule {Mid} {Fail} m f db h bad good = go (m db) h
    where
      go : (r : Outcome A) → Ends Mid Fail r → Ends Good Bad (continue f r)
      go r (done a d k) = good a d k
      go r (failed e d k) = failed e d (bad e d k)

  pub read_rule :
      {Q : A → Type 0} (m : Action A) (f : A → Action B) (db : Db)
      → Reads db Q (m db)
      → ((e : Exception) → Bad e db)
      → ((a : A) → Q a → Ends Good Bad (f a db))
      → Ends Good Bad ((m >>= f) db)
  read_rule m f db h bad good =
      bind_rule m f db h (λ e d same. subst (Bad e) (sym same) (bad e))
        λ a d (q, same). subst (λ x. Ends Good Bad (f a x)) (sym same) (good a q)

  pub gets_rule :
      (g : Db → A) (f : A → Action B) (db : Db)
      → Ends Good Bad (f (g db) db)
      → Ends Good Bad ((gets g >>= f) db)
  unfolding ◌>>=◌
  gets_rule g f db h = h

  pub or_throw_rule :
      (o : Option A) (e : Exception) (f : A → Action B) (db : Db)
      → (o ≡ none → Bad e db)
      → ((a : A) → o ≡ some a → Ends Good Bad (f a db))
      → Ends Good Bad ((or_throw o e >>= f) db)
  unfolding ◌>>=◌
  or_throw_rule none e f db missing found = failed e db (missing refl)
  or_throw_rule (some a) e f db missing found = found a refl

module _ {B : Type 0} {Good : B → Db → Type 0} {Bad : Exception → Db → Type 0} where
  pub throw_if_rule :
      (b : Bool) (e : Exception) (f : Unit {0} → Action B) (db : Db)
      → (b ≡ true → Bad e db)
      → (b ≡ false → Ends Good Bad (f tt db))
      → Ends Good Bad ((throw_if b e >>= f) db)
  unfolding ◌>>=◌
  throw_if_rule true e f db thrown passed = failed e db (thrown refl)
  throw_if_rule false e f db thrown passed = passed refl

  pub modify_rule :
      (g : Db → Db) (f : Unit {0} → Action B) (db : Db)
      → Ends Good Bad (f tt (g db))
      → Ends Good Bad ((modify g >>= f) db)
  unfolding ◌>>=◌
  modify_rule g f db h = h

-- A guard that stands last.
pub throw_if-Reads :
    (b : Bool) (e : Exception) (db : Db) → Reads db (λ _. b ≡ false) (throw_if b e db)
throw_if-Reads true e db = failed e db refl
throw_if-Reads false e db = done tt db (refl, refl)

-- A promise that follows from what a program read.
pub Reads-mono :
    {A : Type 0} {Q R : A → Type 0} {r : Outcome A} (db : Db)
    → ((a : A) → Q a → R a)
    → Reads db Q r
    → Reads db R r
Reads-mono db k h = Ends-mono (λ a d (q, same). (k a q, same)) (λ e d same. same) h

-- What holds of the database afterwards, as a promise of both endings.
pub Ends-of_after :
    {A : Type 0} (P : Db → Type 0) (r : Outcome A) → P (after r) → Ends (λ a d. P d) (λ e d. P d) r
Ends-of_after P (ok a d) h = done a d h
Ends-of_after P (err e d) h = failed e d h

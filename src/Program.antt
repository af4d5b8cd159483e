-- ===== src/Program.antt =====
-- Service methods as programs over the database: a method takes the database and returns its
-- outcome with the database as it leaves it. A query that is awaited is one step of the program;
-- what other requests do between two queries is modelled only where a module says so.
pub mod Errors
pub mod Rules
pub use Errors.*
use qa_lab.Base.{Text, Bool, true, false, Option, none, some, ◌≡◌}
use qa_lab.Schema.{Db}

-- A value, or the exception that was thrown, each with the database as it stands: what was
-- written before a throw stays written.
pub data Outcome (A : Type 0) : Type 0 where
  ok : A → Db → Outcome A
  err : Exception → Db → Outcome A

abbrev pub Action : Type 0 → Type 0
Action A = Db → Outcome A

module _ {A : Type 0} where
  abbrev pub after : Outcome A → Db
  after (ok a db) = db
  after (err e db) = db

  abbrev pub pure : A → Action A
  pure a db = ok a db

  abbrev pub throw : Exception → Action A
  throw e db = err e db

  abbrev pub gets : (Db → A) → Action A
  gets f db = ok (f db) db

  -- `if (!row) throw e`
  abbrev pub or_throw : Option A → Exception → Action A
  or_throw none e = throw e
  or_throw (some a) e = pure a

-- What runs behind a step, on how the step ended.
abbrev pub continue : {A B : Type 0} → (A → Action B) → Outcome A → Outcome B
continue f (ok a db) = f a db
continue f (err e db) = err e db

-- Shut, so that a proof goes step by step (Program/Rules.antt).
infixl 5 ◌>>=◌ ◌>>◌
unfoldable pub ◌>>=◌ : {A B : Type 0} → Action A → (A → Action B) → Action B
◌>>=◌ m f db = continue f (m db)

abbrev pub ◌>>◌ : {A B : Type 0} → Action A → Action B → Action B
m >> k = m >>= λ _. k

abbrev pub throw_if : Bool → Exception → Action (Unit {0})
throw_if true e = throw e
throw_if false e = pure tt

abbrev pub modify : (Db → Db) → Action (Unit {0})
modify f db = ok tt (f db)

-- The functions of JavaScript's strings that the services call on what users type.
pub record TextOps : Type 0 where
  pub lower_case : Text → Text
  pub trim : Text → Text

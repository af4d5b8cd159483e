-- ===== src/Scanner/Runs.antt =====
-- How an asynchronous function of the scanner ends: with a value, or with what it throws.
use qa_lab.Base.{Bool, true, false, Option, none, some, ◌≡◌, ◌⊎◌, inl, inr, refl}

-- Why a URL is not requested.
pub data Refusal : Type 0 where
  empty_url not_a_url bad_scheme plain_http credentials no_hostname : Refusal
  blocked_hostname blocked_port blocked_address unresolved : Refusal
  too_many_redirects downgrade redirect_scheme : Refusal

pub data Fault : Type 0 where
  abort_error invalid_url request_failed invalid_rule type_error out_of_fuel : Fault
  refused : Refusal → Fault

pub data Run (A : Type 0) : Type 0 where
  returned : A → Run A
  threw : Fault → Run A

infixl 5 ◌>>=◌
abbrev pub ◌>>=◌ : {A B : Type 0} → Run A → (A → Run B) → Run B
returned a >>= f = f a
threw e >>= f = threw e

module _ {A : Type 0} where
  -- `new URL(…)`: an invalid one throws.
  abbrev pub or_invalid : Option A → Run A
  or_invalid none = threw invalid_url
  or_invalid (some a) = returned a

  pub Run-cases : (r : Run A) → ((a : A) × (r ≡ returned a)) ⊎ ((e : Fault) × (r ≡ threw e))
  Run-cases (returned a) = inl (a, refl)
  Run-cases (threw e) = inr (e, refl)

  -- What holds of a value that was returned.
  abbrev pub Returns : (A → Type 0) → Run A → Type 0
  Returns P (returned a) = P a
  Returns P (threw e) = Unit

  -- What holds of the value, and what of the exception.
  abbrev pub Ensures : (A → Type 0) → (Fault → Type 0) → Run A → Type 0
  Ensures P Q (returned a) = P a
  Ensures P Q (threw e) = Q e

  -- `if (test) throw e;` before the rest.
  unfoldable pub refuse_if : Bool → Fault → Run A → Run A
  refuse_if true e r = threw e
  refuse_if false e r = r

  pub refuse_if-Returns :
      (P : A → Type 0) (b : Bool) (e : Fault) (r : Run A)
      → ((b ≡ false) → Returns P r)
      → Returns P (refuse_if b e r)
  unfolding refuse_if
  refuse_if-Returns P true e r k = tt
  refuse_if-Returns P false e r k = k refl

-- `if (test) throw e`
abbrev pub throw_if : Bool → Fault → Run (Unit {0})
throw_if true e = threw e
throw_if false e = returned tt

-- A promise of the first step, and one of the rest from what the first returns.
pub Returns-bind :
    {A B : Type 0} (P : A → Type 0) (Q : B → Type 0) (r : Run A) (f : A → Run B)
    → Returns P r
    → ((a : A) → P a → Returns Q (f a))
    → Returns Q (r >>= f)
Returns-bind P Q (returned a) f h k = k a h
Returns-bind P Q (threw e) f h k = tt

pub Ensures-bind :
    {A B : Type 0} (P : A → Type 0) (P' : B → Type 0) (Q : Fault → Type 0) (r : Run A)
    (f : A → Run B)
    → Ensures P Q r
    → ((a : A) → P a → Ensures P' Q (f a))
    → Ensures P' Q (r >>= f)
Ensures-bind P P' Q (returned a) f h k = k a h
Ensures-bind P P' Q (threw e) f h k = h

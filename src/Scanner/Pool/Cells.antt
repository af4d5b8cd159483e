-- ===== src/Scanner/Pool/Cells.antt =====
-- Cells of a list, by their number.
use qa_lab.Base.{
  ℕ, zero, suc, List, [], ◌∷◌, Option, none, some, ◌≡◌, ◌≢◌, refl, arith, length, ◌<◌, ap,
}

module _ {A : Type 0} where
  abbrev pub get : ℕ → List A → Option A
  get n [] = none
  get zero (x ∷ xs) = some x
  get (suc n) (x ∷ xs) = get n xs

  abbrev pub set : ℕ → A → List A → List A
  set n a [] = []
  set zero a (x ∷ xs) = a ∷ xs
  set (suc n) a (x ∷ xs) = x ∷ set n a xs

  abbrev pub repeat : A → ℕ → List A
  repeat a zero = []
  repeat a (suc n) = a ∷ repeat a n

  pub length-set : (n : ℕ) (a : A) (xs : List A) → length (set n a xs) ≡ length xs
  length-set n a [] = refl
  length-set zero a (x ∷ xs) = refl
  length-set (suc n) a (x ∷ xs) = ap (λ (k : ℕ). suc k) (length-set n a xs)

  pub length-repeat : (a : A) (n : ℕ) → length (repeat a n) ≡ n
  length-repeat a zero = refl
  length-repeat a (suc n) = ap (λ (k : ℕ). suc k) (length-repeat a n)

  pub get-set_same : (n : ℕ) (a : A) (xs : List A) → n < length xs → get n (set n a xs) ≡ some a
  get-set_same n a [] h = absurd (omega (arith, h))
  get-set_same zero a (x ∷ xs) h = refl
  get-set_same (suc n) a (x ∷ xs) h = get-set_same n a xs (omega (arith, h))

  pub get-set_other : (n m : ℕ) (a : A) (xs : List A) → n ≢ m → get n (set m a xs) ≡ get n xs
  get-set_other n m a [] h = refl
  get-set_other zero zero a (x ∷ xs) h = absurd (h refl)
  get-set_other zero (suc m) a (x ∷ xs) h = refl
  get-set_other (suc n) zero a (x ∷ xs) h = refl
  get-set_other (suc n) (suc m) a (x ∷ xs) h =
      get-set_other n m a xs (λ e. h (ap (λ (k : ℕ). suc k) e))

  pub get-length : (n : ℕ) (xs : List A) (a : A) → get n xs ≡ some a → n < length xs
  get-length n [] a h = absurd (cc)
  get-length zero (x ∷ xs) a h = omega arith
  get-length (suc n) (x ∷ xs) a h = omega (arith, get-length n xs a h)

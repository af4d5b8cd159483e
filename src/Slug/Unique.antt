-- ===== src/Slug/Unique.antt =====
-- What the search for a free slug returns.
use qa_lab.Base.{
  ℕ, subst, zero, suc, ◌+◌, ◌≤◌, ◌<◌, ◌≡◌, refl, inl, inr, Bool, true, false, Option, none, some,
  ◌∷◌, ◌++◌, Text, arith, Bool-cases,
}
use native.Mathlib.Decide.{ℕ_discrete}
use native.Mathlib.Nat.{le_refl, le_of_lt}
use qa_lab.Slug.{unique_from, unique_slug}

-- The n-th candidate: the base itself, then the base with the suffix drawn before.
abbrev pub candidate_at : (ℕ → Text) → Text → ℕ → Text
candidate_at draw base zero = base
candidate_at draw base (suc n) = base ++ (45 ∷ draw n)

-- The n-th candidate is free, and all before it, from `start` on, are taken.
pub record IsFirstFree (taken : Text → Bool) (draw : ℕ → Text) (base : Text) (start n : ℕ)
    : Type 0 where
  pub late : start ≤ n
  pub free : taken (candidate_at draw base n) ≡ false
  pub skipped : (m : ℕ) → start ≤ m → m < n → taken (candidate_at draw base m) ≡ true

module _ (taken : Text → Bool) (draw : ℕ → Text) (base : Text) where
  abbrev pub Searched : ℕ → ℕ → Option Text → Type 0
  Searched left start none =
      (m : ℕ) → start ≤ m → m < start + left → taken (candidate_at draw base m) ≡ true
  Searched left start (some s) =
      (n : ℕ) × (n < start + left)
      × IsFirstFree taken draw base start n
      × (s ≡ candidate_at draw base n)

  skip :
      (start m : ℕ)
      → taken (candidate_at draw base start) ≡ true
      → start ≤ m
      → (suc start ≤ m → taken (candidate_at draw base m) ≡ true)
      → taken (candidate_at draw base m) ≡ true
  skip start m e lo later = elim (ℕ_discrete m start) [
    | yes same ↦ rw same e
    | no other ↦ later (omega arith)
  ]

  extend-Searched :
      (left start : ℕ) (r : Option Text)
      → taken (candidate_at draw base start) ≡ true
      → Searched left (suc start) r
      → Searched (suc left) start r
  extend-Searched left start none e h =
      λ m lo hi. skip start m e lo (λ late. h m late (omega arith))
  extend-Searched left start (some s) e (n, lt, first, same) = (
    n,
    omega arith,
    record {
      late = le_of_lt first.late;
      free = first.free;
      skipped = λ m lo hi. skip start m e lo (λ late. first.skipped m late hi);
    },
    same,
  )

  unique_from-Searched :
      (left start : ℕ)
      → Searched left start (unique_from left taken draw base start (candidate_at draw base start))
  unfolding unique_from
  unique_from-Searched zero start = λ m lo hi. absurd (omega arith)
  unique_from-Searched (suc left) start = elim (Bool-cases (taken (candidate_at draw base start))) [
    | inl e ↦ rw e (
        extend-Searched left start _ e (
          subst
            (λ k.
              Searched left (suc start)
                (unique_from left taken draw base k (base ++ (45 ∷ draw start))))
            (omega arith) (unique_from-Searched left (suc start))))
    | inr e ↦ rw e (
      start,
      omega arith,
      record { late = le_refl start; free = e; skipped = λ m lo hi. absurd (omega arith) },
      refl,
    )
  ]

-- The search for a slug returns the first of its twenty candidates that no row has, and gives up
-- exactly when all twenty are taken.
unique_slug_lem :
    (taken : Text → Bool) (draw : ℕ → Text) (base : Text)
    → Searched taken draw base 20 0 (unique_slug taken draw base)
unfolding unique_slug
unique_slug_lem taken draw base = unique_from-Searched taken draw base 20 0

pub unique_slug-free :
    (taken : Text → Bool) (draw : ℕ → Text) (base : Text) {s : Text}
    → unique_slug taken draw base ≡ some s
    → taken s ≡ false
unique_slug-free taken draw base {s} e =
    let (n, lt, first, same) =
      subst (Searched taken draw base 20 0) e (unique_slug_lem taken draw base) in
    rw same first.free

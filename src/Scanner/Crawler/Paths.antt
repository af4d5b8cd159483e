-- ===== src/Scanner/Crawler/Paths.antt =====
-- Lists of paths without repetition, next to the items they stand for.
use qa_lab.Base.{
  ℕ, zero, suc, List, [], ◌∷◌, ◌++◌, true, false, ◌≡◌, refl, Text, arith, take, Bool-cases, inl,
  inr,
}
use qa_lab.Base.Tests.{All}
use qa_lab.Base.Texts.{text_eq, text_eq_iff, text_eq_refl}
use qa_lab.Scanner.Findings.{mem_text}

-- No path stands twice in the list.
unfoldable pub NoDup : List Text → Type 0
NoDup [] = Unit
NoDup (p ∷ ps) = (mem_text p ps ≡ false) × NoDup ps

abbrev pub AllIn : List Text → List Text → Type 0
AllIn visited = All (λ p. mem_text p visited ≡ true)

mem_text-append :
    (x p : Text) (xs : List Text)
    → mem_text x xs ≡ false
    → text_eq x p ≡ false
    → mem_text x (xs ++ p ∷ []) ≡ false
unfolding mem_text
mem_text-append x p [] h k = ground (arith, k)
mem_text-append x p (y ∷ xs) h k = ground (arith, mem_text-append x p xs)

differ :
    (p q : Text) (vs : List Text)
    → mem_text p vs ≡ false
    → mem_text q vs ≡ true
    → text_eq p q ≡ false
differ p q vs h k = elim (Bool-cases (text_eq p q)) [
  | inl e ↦ absurd (cc (h, k, (text_eq_iff p q).0 e))
  | inr e ↦ e
]

-- What is not among the visited is none of the visited.
pub fresh :
    (p : Text) (vs xs : List Text) → AllIn vs xs → mem_text p vs ≡ false → mem_text p xs ≡ false
unfolding mem_text
fresh p vs [] h k = refl
fresh p vs (x ∷ xs) h k = rw (differ p x vs k h.0) (fresh p vs xs h.1 k)

text_eq_flip : (p q : Text) → text_eq p q ≡ false → text_eq q p ≡ false
text_eq_flip p q h = elim (Bool-cases (text_eq q p)) [
  | inl e ↦ absurd (cc (h, (text_eq_iff q p).0 e, text_eq_refl p))
  | inr e ↦ e
]

pub NoDup-append :
    (xs : List Text) (p : Text) → NoDup xs → mem_text p xs ≡ false → NoDup (xs ++ p ∷ [])
unfolding NoDup mem_text
NoDup-append [] p h k = (refl, tt)
NoDup-append (x ∷ xs) p h k = elim (Bool-cases (text_eq p x)) [
  | inl e ↦ absurd (ground (arith, e, k))
  | inr e ↦ (
    mem_text-append x p xs h.0 (text_eq_flip p x e),
    NoDup-append xs p h.1 (ground (arith, e, k)),
  )
]

-- A visited path stays visited.
pub AllIn-visit : (p : Text) (vs xs : List Text) → AllIn vs xs → AllIn (p ∷ vs) xs
unfolding mem_text
AllIn-visit p vs [] h = tt
AllIn-visit p vs (x ∷ xs) h = (rw (h.0) (ground arith), AllIn-visit p vs xs h.1)

pub mem_text_self : (p : Text) (vs : List Text) → mem_text p (p ∷ vs) ≡ true
unfolding mem_text
mem_text_self p vs = rw (text_eq_refl p) refl

-- A list cut short keeps what it had of these properties.
mem_text-take :
    (x : Text) (ps qs : List Text) (k : ℕ)
    → mem_text x (ps ++ qs) ≡ false
    → mem_text x (ps ++ take k qs) ≡ false
unfolding mem_text
mem_text-take x [] [] k h = refl
mem_text-take x [] (q ∷ qs) zero h = refl
mem_text-take x [] (q ∷ qs) (suc k) h = ground (arith, mem_text-take x [] qs k)
mem_text-take x (p ∷ ps) qs k h = ground (arith, mem_text-take x ps qs k)

pub NoDup-take : (ps qs : List Text) (k : ℕ) → NoDup (ps ++ qs) → NoDup (ps ++ take k qs)
unfolding NoDup
NoDup-take [] [] k h = tt
NoDup-take [] (q ∷ qs) zero h = tt
NoDup-take [] (q ∷ qs) (suc k) h = (mem_text-take q [] qs k h.0, NoDup-take [] qs k h.1)
NoDup-take (p ∷ ps) qs k h = (mem_text-take p ps qs k h.0, NoDup-take ps qs k h.1)

mem_text-left :
    (x : Text) (ps qs : List Text) → mem_text x (ps ++ qs) ≡ false → mem_text x ps ≡ false
unfolding mem_text
mem_text-left x [] qs h = refl
mem_text-left x (p ∷ ps) qs h = ground (arith, mem_text-left x ps qs)

pub NoDup-left : (ps qs : List Text) → NoDup (ps ++ qs) → NoDup ps
unfolding NoDup
NoDup-left [] qs h = tt
NoDup-left (p ∷ ps) qs h = (mem_text-left p ps qs h.0, NoDup-left ps qs h.1)

pub All-append_take :
    (P : Text → Type 0) (ps qs : List Text) (k : ℕ) → All P (ps ++ qs) → All P (ps ++ take k qs)
All-append_take P [] [] k h = tt
All-append_take P [] (q ∷ qs) zero h = tt
All-append_take P [] (q ∷ qs) (suc k) h = (h.0, All-append_take P [] qs k h.1)
All-append_take P (p ∷ ps) qs k h = (h.0, All-append_take P ps qs k h.1)

-- The paths and what stands for them, in the same order.
module _ {B : Type 0} (R : Text → B → Type 0) where
  unfoldable pub Along : List Text → List B → Type 0
  Along [] [] = Unit
  Along [] (b ∷ bs) = ⊥
  Along (p ∷ ps) [] = ⊥
  Along (p ∷ ps) (b ∷ bs) = R p b × Along ps bs

  pub Along-append :
      (ps qs : List Text) (xs ys : List B) → Along ps xs → Along qs ys → Along (ps ++ qs) (xs ++ ys)
  unfolding Along
  Along-append [] qs [] ys h k = k
  Along-append [] qs (x ∷ xs) ys h k = absurd h
  Along-append (p ∷ ps) qs [] ys h k = absurd h
  Along-append (p ∷ ps) qs (x ∷ xs) ys h k = (h.0, Along-append ps qs xs ys h.1 k)

  pub Along-take :
      (k : ℕ) (ps : List Text) (xs : List B) → Along ps xs → Along (take k ps) (take k xs)
  unfolding Along
  Along-take k [] [] h = tt
  Along-take k [] (x ∷ xs) h = absurd h
  Along-take k (p ∷ ps) [] h = absurd h
  Along-take zero (p ∷ ps) (x ∷ xs) h = tt
  Along-take (suc k) (p ∷ ps) (x ∷ xs) h = (h.0, Along-take k ps xs h.1)

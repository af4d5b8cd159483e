-- ===== src/Slug/Shape.antt =====
-- The shape of what `slugify` returns.
use mathlib.Core.List.{reverse, reverse_aux}
use qa_lab.Base.{
  ap, subst, sym, ℕ, ◌+◌, ◌≤◌, ◌≡◌, refl, ◌⊎◌, inl, inr, Bool, true, false, List, [], ◌∷◌, Text,
  arith, ltb, length, Bool-cases,
}
use qa_lab.Slug.{is_alnum, slug_step, slug_from, pop_dashes, or_else, slugify}

-- One or more runs of lower-case letters and digits, with a single dash between two runs.
mutual
  pub data Starts : Text → Type 0 where
    run : (c : ℕ) (s : Text) → is_alnum c ≡ true → Follows s → Starts (c ∷ s)

  pub data Follows : Text → Type 0 where
    stop : Follows []
    more : (c : ℕ) (s : Text) → is_alnum c ≡ true → Follows s → Follows (c ∷ s)
    dash : (s : Text) → Starts s → Follows (45 ∷ s)

abbrev TopIsAlnum : List ℕ → Type 0
TopIsAlnum [] = ⊥
TopIsAlnum (c ∷ out) = is_alnum c ≡ true

-- The same read from the end: every dash stands on a letter or digit.
abbrev IsStacked : List ℕ → Type 0
IsStacked [] = Unit
IsStacked (c ∷ out) = ((is_alnum c ≡ true) ⊎ ((c ≡ 45) × TopIsAlnum out)) × IsStacked out

-- `prevDash` is set exactly when the last character is a dash.
abbrev Tracks : List ℕ → Bool → Type 0
Tracks [] prev_dash = prev_dash ≡ false
Tracks (c ∷ out) true = c ≡ 45
Tracks (c ∷ out) false = is_alnum c ≡ true

step-IsStacked :
    (c : ℕ) (out : List ℕ) (prev_dash : Bool)
    → IsStacked out
    → Tracks out prev_dash
    → IsStacked (slug_step c out prev_dash).0
      × Tracks (slug_step c out prev_dash).0 (slug_step c out prev_dash).1
unfolding slug_step
step-IsStacked c [] prev_dash h t = ground arith
step-IsStacked c (d ∷ out) true h t = ground arith
step-IsStacked c (d ∷ out) false h t = ground arith

slug_from-IsStacked :
    (s : Text) (out : List ℕ) (prev_dash : Bool)
    → IsStacked out
    → Tracks out prev_dash
    → IsStacked (slug_from s out prev_dash)
unfolding slug_from
slug_from-IsStacked [] out prev_dash h t = h
slug_from-IsStacked (c ∷ s) out prev_dash h t =
    let (h', t') = step-IsStacked c out prev_dash h t in
    elim (Bool-cases (ltb (length out) 60)) [
      | inl e ↦ rw e (slug_from-IsStacked s _ _ h' t')
      | inr e ↦ rw e h
    ]

step-length :
    (c : ℕ) (out : List ℕ) (prev_dash : Bool)
    → length (slug_step c out prev_dash).0 ≤ length out + 1
unfolding slug_step
step-length c out prev_dash = ground arith

slug_from-length :
    (s : Text) (out : List ℕ) (prev_dash : Bool)
    → length out ≤ 60
    → length (slug_from s out prev_dash) ≤ 60
unfolding slug_from
slug_from-length [] out prev_dash h = h
slug_from-length (c ∷ s) out prev_dash h = elim (Bool-cases (ltb (length out) 60)) [
  | inl e ↦ rw e (slug_from-length s _ _ (ground (arith, step-length c out prev_dash)))
  | inr e ↦ rw e h
]

pop_dashes-IsStacked :
    (out : List ℕ)
    → IsStacked out
    → (pop_dashes out ≡ []) ⊎ (TopIsAlnum (pop_dashes out) × IsStacked (pop_dashes out))
unfolding pop_dashes
pop_dashes-IsStacked [] h = inl refl
pop_dashes-IsStacked (c ∷ out) h = ground (arith, pop_dashes-IsStacked out h.1)

pop_dashes-length : (out : List ℕ) → length (pop_dashes out) ≤ length out
unfolding pop_dashes
pop_dashes-length [] = omega arith
pop_dashes-length (c ∷ out) = ground (arith, pop_dashes-length out)

-- What may stand in front of text `acc`: a letter or digit before anything that follows, a dash
-- before a run.
abbrev Fits : List ℕ → Text → Type 0
Fits [] acc = Starts acc
Fits (c ∷ out) acc = ((is_alnum c ≡ true) × Follows acc) ⊎ ((c ≡ 45) × Starts acc)

dash_not_alnum : is_alnum 45 ≡ false
unfolding is_alnum
dash_not_alnum = refl

top_of_dash : (c : ℕ) (out : List ℕ) → IsStacked (c ∷ out) → c ≡ 45 → TopIsAlnum out
top_of_dash c out (inl a, h) e = absurd (cc (a, ap is_alnum e, dash_not_alnum))
top_of_dash c out (inr (e', t), h) e = t

Follows-cons_dash : (c : ℕ) (s : Text) → c ≡ 45 → Starts s → Follows (c ∷ s)
Follows-cons_dash c s e h = subst (λ d. Follows (d ∷ s)) (sym e) (dash s h)

reverse_aux-Starts :
    (out : List ℕ) (acc : Text) → IsStacked out → Fits out acc → Starts (reverse_aux out acc)
reverse_aux-Starts [] acc h f = f
reverse_aux-Starts (c ∷ []) acc h (inl (a, f)) = run c acc a f
reverse_aux-Starts (c ∷ []) acc h (inr (e, s)) = absurd (top_of_dash c [] h e)
reverse_aux-Starts (c ∷ d ∷ out) acc h (inl (a, f)) =
    reverse_aux-Starts (d ∷ out) (c ∷ acc) h.1
      (elim h.1.0 [ inl a' ↦ inl (a', more c acc a f) | inr (e', t) ↦ inr (e', run c acc a f) ])
reverse_aux-Starts (c ∷ d ∷ out) acc h (inr (e, s)) =
    reverse_aux-Starts (d ∷ out) (c ∷ acc) h.1
      (inl (top_of_dash c (d ∷ out) h e, Follows-cons_dash c acc e s))

length-reverse_aux : (out acc : List ℕ) → length (reverse_aux out acc) ≡ length out + length acc
length-reverse_aux [] acc = omega arith
length-reverse_aux (c ∷ out) acc = omega (arith, length-reverse_aux out (c ∷ acc))

-- What `slugify` promises of its result: the fallback, or a well-shaped text of at most 60
-- characters.
abbrev pub IsSlugOr : Text → Text → Type 0
IsSlugOr fallback s = (s ≡ fallback) ⊎ (Starts s × (length s ≤ 60))

popped-IsSlugOr :
    (fallback : Text) (out : List ℕ)
    → length out ≤ 60
    → (out ≡ []) ⊎ (TopIsAlnum out × IsStacked out)
    → IsSlugOr fallback (or_else (reverse out) fallback)
popped-IsSlugOr fallback [] l h = inl refl
popped-IsSlugOr fallback (c ∷ out) l (inl e) = absurd (cc e)
popped-IsSlugOr fallback (c ∷ out) l (inr (t, h)) =
    let starts = reverse_aux-Starts (c ∷ out) [] h (inl (t, stop)) in
    subst (IsSlugOr fallback) (sym (or_else_of_Starts _ fallback starts))
      (inr (starts, omega (arith, length-reverse_aux (c ∷ out) [])))
  where
    or_else_of_Starts : (s f : Text) → Starts s → or_else s f ≡ s
    or_else_of_Starts s f (run d r a k) = refl

-- Whatever the input, and whatever lower-casing and trimming do to it, a slug is the service's
-- fallback word, or at most 60 lower-case letters, digits and single dashes with a letter or digit
-- at each end.
slugify-IsSlugOr :
    (norm : Text → Text) (fallback input : Text) → IsSlugOr fallback (slugify norm fallback input)
unfolding slugify
slugify-IsSlugOr norm fallback input =
    let out = slug_from (norm input) [] false in
    popped-IsSlugOr fallback (pop_dashes out)
      (omega (arith, pop_dashes-length out, slug_from-length (norm input) [] false (omega arith)))
      (pop_dashes-IsStacked out (slug_from-IsStacked (norm input) [] false tt refl))

-- ===== src/Base/Rows.antt =====
-- A database table is the list of its rows. These are the readings of the query forms that the
-- services call on the Prisma client: `findUnique`/`findFirst`, `update`/`updateMany`, `count`,
-- `deleteMany`, each with its `where` as a test on a row.
use Prim.Native.Nat.{ℕ, suc, ◌+◌}
use mathlib.Core.Path.{◌≡◌, refl, ap, subst}
use mathlib.Core.Logic.{inl, inr}
use mathlib.Core.Bool.{Bool, true, false}
use mathlib.Core.Option.{Option, none, some}
use mathlib.Core.List.{List, [], ◌∷◌, ◌++◌}
use native.Mathlib.Omega.{arith}
use qa_lab.Base.Tests.{if◌then◌else◌, All, is_some, or_default, Bool-cases}

module _ {A : Type 0} where
  -- The first row that passes the test.
  unfoldable pub find : (A → Bool) → List A → Option A
  find p [] = none
  find p (r ∷ rs) = if p r then some r else find p rs

  unfoldable pub update_where : (A → Bool) → (A → A) → List A → List A
  update_where p f [] = []
  update_where p f (r ∷ rs) = (if p r then f r else r) ∷ update_where p f rs

  unfoldable pub count_where : (A → Bool) → List A → ℕ
  count_where p [] = 0
  count_where p (r ∷ rs) = let n = count_where p rs in if p r then suc n else n

  unfoldable pub delete_where : (A → Bool) → List A → List A
  delete_where p [] = []
  delete_where p (r ∷ rs) = let rest = delete_where p rs in if p r then rest else r ∷ rest

  unfoldable pub select_where : (A → Bool) → List A → List A
  select_where p [] = []
  select_where p (r ∷ rs) = let rest = select_where p rs in if p r then r ∷ rest else rest

  -- The row that a query returns passes its test.
  pub find_passes : (p : A → Bool) (rs : List A) {r : A} → find p rs ≡ some r → p r ≡ true
  unfolding find
  find_passes p [] h = cc
  find_passes p (x ∷ rs) h = elim (Bool-cases (p x)) [
    | inl e ↦ ground arith
    | inr e ↦ find_passes p rs (ground arith)
  ]

  -- An update that keeps the key finds the same row, changed.
  pub find-update_where_self :
      (p : A → Bool) (f : A → A) (rs : List A) {r : A}
      → find p rs ≡ some r
      → p (f r) ≡ true
      → find p (update_where p f rs) ≡ some (f r)
  unfolding find update_where
  find-update_where_self p f [] h k = cc
  find-update_where_self p f (x ∷ rs) h k = elim (Bool-cases (p x)) [
    | inl e ↦ ground arith
    | inr e ↦ rw (e, e) (find-update_where_self p f rs (ground arith) k)
  ]

  -- An update by another test, which neither makes nor breaks `p`, leaves what `p` finds alone.
  pub find-update_where_other :
      (p q : A → Bool) (f : A → A) (rs : List A)
      → ((r : A) → q r ≡ true → p r ≡ false)
      → ((r : A) → q r ≡ true → p (f r) ≡ false)
      → find p (update_where q f rs) ≡ find p rs
  unfolding find update_where
  find-update_where_other p q f [] out keep = refl
  find-update_where_other p q f (x ∷ rs) out keep = elim (Bool-cases (q x)) [
    | inl e ↦ rw (e, keep x e, out x e) (find-update_where_other p q f rs out keep)
    | inr e ↦ rw e (ground (arith, find-update_where_other p q f rs out keep))
  ]

  pub All-update_where {κ} :
      (P : A → Type κ) (p : A → Bool) (f : A → A) (rs : List A)
      → ((r : A) → P r → p r ≡ true → P (f r))
      → All P rs
      → All P (update_where p f rs)
  unfolding update_where
  All-update_where P p f [] k h = tt
  All-update_where P p f (x ∷ rs) k h = elim (Bool-cases (p x)) [
    | inl e ↦ rw e (k x h.0 e, All-update_where P p f rs k h.1)
    | inr e ↦ rw e (h.0, All-update_where P p f rs k h.1)
  ]

  -- What holds of every row holds of the one that is found.
  pub All-find {κ} :
      (P : A → Type κ) (p : A → Bool) (rs : List A) {r : A} → All P rs → find p rs ≡ some r → P r
  unfolding find
  All-find P p [] h e = absurd (cc)
  All-find P p (x ∷ rs) h e = elim (Bool-cases (p x)) [
    | inl t ↦ subst P (ap (λ o. or_default o x) (rw t at e)) h.0
    | inr t ↦ All-find P p rs h.1 (rw t at e)
  ]

  pub count_where-append :
      (p : A → Bool) (rs : List A) (r : A)
      → count_where p (rs ++ r ∷ []) ≡ count_where p rs + (if p r then 1 else 0)
  unfolding count_where
  count_where-append p [] r = ground arith
  count_where-append p (x ∷ rs) r = ground (arith, count_where-append p rs r)

  -- Counting by what an update leaves alone.
  pub count_where-update_where :
      (p q : A → Bool) (f : A → A) (rs : List A)
      → ((r : A) → p (f r) ≡ p r)
      → count_where p (update_where q f rs) ≡ count_where p rs
  unfolding count_where update_where
  count_where-update_where p q f [] keep = refl
  count_where-update_where p q f (x ∷ rs) keep =
      ground (arith, keep x, count_where-update_where p q f rs keep)

  -- A row added behind those that the test passes over.
  pub find-append_new :
      (p : A → Bool) (rs : List A) (r : A)
      → find p rs ≡ none
      → p r ≡ true
      → find p (rs ++ r ∷ []) ≡ some r
  unfolding find
  find-append_new p [] r h e = ground arith
  find-append_new p (x ∷ rs) r h e = ground (arith, find-append_new p rs r)

  abbrev pub Passes : (A → Bool) → List A → Type 0
  Passes p = All (λ r. p r ≡ true)

  pub select_where-Passes : (p : A → Bool) (rs : List A) → Passes p (select_where p rs)
  unfolding select_where
  select_where-Passes p [] = tt
  select_where-Passes p (x ∷ rs) = elim (Bool-cases (p x)) [
    | inl e ↦ rw e (e, select_where-Passes p rs)
    | inr e ↦ rw e (select_where-Passes p rs)
  ]

  -- A row added at the end hides none that was found.
  pub find-append_some :
      (p : A → Bool) (rs : List A) (r : A)
      → is_some (find p rs) ≡ true
      → is_some (find p (rs ++ r ∷ [])) ≡ true
  unfolding find
  find-append_some p [] r h = absurd (cc)
  find-append_some p (x ∷ rs) r h = ground (arith, find-append_some p rs r)

  pub find-append_hit :
      (p : A → Bool) (rs : List A) (r : A) → p r ≡ true → is_some (find p (rs ++ r ∷ [])) ≡ true
  unfolding find
  find-append_hit p [] r h = ground arith
  find-append_hit p (x ∷ rs) r h = ground (arith, find-append_hit p rs r)

  -- An update by any test, of what the query does not look at, finds the same row, changed or not.
  pub find-update_where :
      (p q : A → Bool) (f : A → A) (rs : List A) {r : A}
      → ((x : A) → p (f x) ≡ p x)
      → find p rs ≡ some r
      → find p (update_where q f rs) ≡ some (if q r then f r else r)
  unfolding find update_where
  find-update_where p q f [] keep h = cc
  find-update_where p q f (x ∷ rs) {r} keep h =
      ground (arith, keep x, find-update_where p q f rs {r = r} keep)

  pub find-update_where_empty :
      (p q : A → Bool) (f : A → A) (rs : List A)
      → ((x : A) → p (f x) ≡ p x)
      → find p rs ≡ none
      → find p (update_where q f rs) ≡ none
  unfolding find update_where
  find-update_where_empty p q f [] keep h = refl
  find-update_where_empty p q f (x ∷ rs) keep h =
      ground (arith, keep x, find-update_where_empty p q f rs keep)

  pub find-append_old :
      (p : A → Bool) (rs : List A) (x : A) {r : A}
      → find p rs ≡ some r
      → find p (rs ++ x ∷ []) ≡ some r
  unfolding find
  find-append_old p [] x h = cc
  find-append_old p (y ∷ rs) x {r} h = ground (arith, find-append_old p rs x {r = r})

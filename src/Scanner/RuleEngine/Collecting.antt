-- ===== src/Scanner/RuleEngine/Collecting.antt =====
-- What the final pass of a rule is given.
use Prim.Native.String.{String}
use text.Mathlib.Text.{◌==◌ as str_eq}
use text.Mathlib.TextEquality.{eq_iff}
use mathlib.Core.List.{append-nil, append_assoc}
use qa_lab.Base.{
  List, [], ◌∷◌, ◌++◌, true, false, Option, none, some, ◌≡◌, refl, sym, ap, subst, ◌∙◌, arith,
  Bool-cases, inl, inr, ◌⊎◌, if◌then◌else◌, or_default,
}
use qa_lab.Scanner.RuleEngine.{
  Rule, Entry, mem_id, ids_of, summaries_at, put_summaries, collected, collect_one,
  collect_summaries, collect_pages,
}
use qa_lab.Scanner.RuleEngine.Ids.{DistinctIds}

-- The summaries of an id, [] where there are none.
unfoldable pub given_to : {S : Type 0} → String → List (Entry S) → List S
given_to id es = or_default (summaries_at id es) []

-- Two texts that differ are not both a third.
apart : (a b j : String) → str_eq a b ≡ false → str_eq a j ≡ true → str_eq b j ≡ false
apart a b j h k = elim (Bool-cases (str_eq b j)) [
  | inl e ↦ absurd (cc (h, (eq_iff a b).1 ((eq_iff a j).0 k ∙ sym ((eq_iff b j).0 e))))
  | inr e ↦ e
]

summaries_at-put_summaries :
    {S : Type 0} (j id : String) (v : List S) (es : List (Entry S))
    → summaries_at j (put_summaries id v es) ≡ (if str_eq id j then some v else summaries_at j es)
unfolding summaries_at put_summaries
summaries_at-put_summaries j id v [] = refl
summaries_at-put_summaries j id v (e ∷ es) = elim (Bool-cases (str_eq e.rule_id id)) [
  | inl h ↦ rw (h, (eq_iff e.rule_id id).0 h) (ground arith)
  | inr h ↦ ground (arith, h, summaries_at-put_summaries j id v es, apart e.rule_id id j h)
]

-- All that a rule's `collectSummary` returns on a list of pages.
pub returned_on : {P S : Type 0} → Option (P → Option (Option S)) → List P → List S
returned_on none pages = []
returned_on (some f) [] = []
returned_on (some f) (page ∷ pages) = collected (f page) ++ returned_on (some f) pages

given_to-collect_one_same :
    {P S : Type 0} (page : P) (id : String) (f : P → Option (Option S)) (es : List (Entry S))
    → given_to id (collect_one page id (some f) es) ≡ given_to id es ++ collected (f page)
unfolding given_to
given_to-collect_one_same page id f es =
    rw
      (
        summaries_at-put_summaries id id (or_default (summaries_at id es) [] ++ collected (f page))
            es,
        (eq_iff id id).1 refl,
      )
      refl

given_to-collect_one_other :
    {P S : Type 0} (page : P) (j id : String) (o : Option (P → Option (Option S)))
    (es : List (Entry S))
    → str_eq id j ≡ false
    → given_to j (collect_one page id o es) ≡ given_to j es
unfolding given_to
given_to-collect_one_other page j id none es h = refl
given_to-collect_one_other page j id (some f) es h =
    rw
      (
        summaries_at-put_summaries j id (or_default (summaries_at id es) [] ++ collected (f page))
            es,
        h,
      )
      refl

other :
    (a b : String) (xs : List String)
    → mem_id a xs ≡ false
    → mem_id b xs ≡ true
    → str_eq a b ≡ false
other a b xs h k = elim (Bool-cases (str_eq a b)) [
  | inl e ↦ absurd (cc (h, k, (eq_iff a b).0 e))
  | inr e ↦ e
]

module _ {P C S : Type 0} where
  -- The rule is one of the list.
  unfoldable pub Has : Rule P C S → List (Rule P C S) → Type 0
  Has rule [] = ⊥
  Has rule (r ∷ rs) = (r ≡ rule) ⊎ Has rule rs

  mem_id-Has :
      (rule : Rule P C S) (rs : List (Rule P C S)) → Has rule rs → mem_id rule.id (ids_of rs) ≡ true
  unfolding Has mem_id
  mem_id-Has rule [] h = absurd h
  mem_id-Has rule (r ∷ rs) (inl e) =
      rw ((eq_iff r.id rule.id).1 (ap (λ (x : Rule P C S). x.id) e)) refl
  mem_id-Has rule (r ∷ rs) (inr h) = ground (arith, mem_id-Has rule rs h)

  given_to-collect_summaries_other :
      (page : P) (j : String) (rules : List (Rule P C S)) (es : List (Entry S))
      → mem_id j (ids_of rules) ≡ false
      → given_to j (collect_summaries page rules es) ≡ given_to j es
  unfolding collect_summaries mem_id
  given_to-collect_summaries_other page j [] es h = refl
  given_to-collect_summaries_other page j (r ∷ rs) es h =
      given_to-collect_summaries_other page j rs (collect_one page r.id r.collect_summary es)
        (ground (arith, h))
      ∙ given_to-collect_one_other page j r.id r.collect_summary es (ground (arith, h))

  given_to-collect_summaries :
      (page : P) (rule : Rule P C S) (f : P → Option (Option S)) (rules : List (Rule P C S))
      (es : List (Entry S))
      → Has rule rules
      → DistinctIds (ids_of rules)
      → rule.collect_summary ≡ some f
      → given_to rule.id (collect_summaries page rules es)
        ≡ given_to rule.id es ++ collected (f page)
  unfolding collect_summaries Has DistinctIds
  given_to-collect_summaries page rule f [] es h d c = absurd h
  given_to-collect_summaries page rule f (r ∷ rs) es (inl e) d c =
      given_to-collect_summaries_other page rule.id rs (collect_one page r.id r.collect_summary es)
        (subst (λ (x : Rule P C S). mem_id x.id (ids_of rs) ≡ false) e d.0)
      ∙ subst
          (λ (x : Rule P C S).
            given_to rule.id (collect_one page x.id x.collect_summary es)
            ≡ given_to rule.id es ++ collected (f page))
          (sym e)
          (subst
            (λ o.
              given_to rule.id (collect_one page rule.id o es)
              ≡ given_to rule.id es ++ collected (f page))
            (sym c) (given_to-collect_one_same page rule.id f es))
  given_to-collect_summaries page rule f (r ∷ rs) es (inr h) d c =
      given_to-collect_summaries page rule f rs (collect_one page r.id r.collect_summary es) h d.1 c
      ∙ ap (λ x. x ++ collected (f page))
          (given_to-collect_one_other page rule.id r.id r.collect_summary es
            (other r.id rule.id (ids_of rs) d.0 (mem_id-Has rule rs h)))

  given_to-collect_from :
      (pages : List P) (rule : Rule P C S) (f : P → Option (Option S)) (rules : List (Rule P C S))
      (es : List (Entry S))
      → Has rule rules
      → DistinctIds (ids_of rules)
      → rule.collect_summary ≡ some f
      → given_to rule.id (collect_pages pages rules es)
        ≡ given_to rule.id es ++ returned_on (some f) pages
  unfolding collect_pages returned_on
  given_to-collect_from [] rule f rules es h d c = sym (append-nil (given_to rule.id es))
  given_to-collect_from (page ∷ pages) rule f rules es h d c =
      given_to-collect_from pages rule f rules (collect_summaries page rules es) h d c
      ∙ ap (λ x. x ++ returned_on (some f) pages)
          (given_to-collect_summaries page rule f rules es h d c)
      ∙ append_assoc (given_to rule.id es) (collected (f page)) (returned_on (some f) pages)

  -- If the ids of the rules differ, then after any pages a rule with a function that collects is
  -- given just what that function returned on the pages, in their order: nothing of other rules,
  -- and nothing where it threw or gave nothing.
  pub given_to-collect_pages :
      (pages : List P) (rule : Rule P C S) (f : P → Option (Option S)) (rules : List (Rule P C S))
      → Has rule rules
      → DistinctIds (ids_of rules)
      → rule.collect_summary ≡ some f
      → given_to rule.id (collect_pages pages rules []) ≡ returned_on (some f) pages
  given_to-collect_pages pages rule f rules h d c =
      given_to-collect_from pages rule f rules [] h d c ∙ unfold given_to summaries_at in refl

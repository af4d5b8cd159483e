-- ===== src/Scanner/RuleEngine/Streaming.antt =====
-- The engine on all pages at once, against the one that goes page by page.
use Prim.Native.String.{String}
use text.Mathlib.Text.{◌==◌ as str_eq}
use qa_lab.Base.{
  ℕ, List, [], ◌∷◌, ◌++◌, Bool, true, false, ◌||◌, Option, none, some, if◌then◌else◌, ◌≡◌, refl,
  ◌+◌, arith,
}
use qa_lab.Base.Rows.{count_where}
use qa_lab.Scanner.Findings.{Finding}
use qa_lab.Scanner.Findings.Groups.{findings_with}
use qa_lab.Scanner.RuleEngine.{
  PageCheck, page_rules, joined, check_all, or_skipped, run_rules, run_per_page_rules, stream_pages,
}

abbrev pub throws : Option (List Finding) → Bool
throws none = true
throws (some fs) = false

count_where-join :
    (p : Finding → Bool) (xs ys : List Finding)
    → count_where p (xs ++ ys) ≡ count_where p xs + count_where p ys
unfolding count_where
count_where-join p [] ys = omega arith
count_where-join p (x ∷ xs) ys = ground (arith, count_where-join p xs ys)

joined-throws :
    (first rest : Option (List Finding)) {b : Bool}
    → throws rest ≡ b
    → throws (joined first rest) ≡ (throws first || b)
joined-throws none rest h = refl
joined-throws (some fs) none h = h
joined-throws (some fs) (some gs) h = h

-- One more page, where `b` says whether the check throws on a later one and `n` counts what it
-- returns there.
joined-count :
    (id : String) (first rest : Option (List Finding)) (b : Bool) (n : ℕ)
    → throws rest ≡ b
    → findings_with id (or_skipped rest) + (if b then n else 0) ≡ n
    → findings_with id (or_skipped (joined first rest))
        + (if throws first || b then findings_with id (or_skipped first) + n else 0)
      ≡ findings_with id (or_skipped first) + n
joined-count id none rest b n same h = unfold count_where in omega arith
joined-count id (some fs) none true n same h = unfold count_where in omega arith
joined-count id (some fs) none false n same h = cc
joined-count id (some fs) (some gs) true n same h = cc
joined-count id (some fs) (some gs) false n same h =
    omega (arith, count_where-join (λ (f : Finding). str_eq f.id id) fs gs, h)

module _ {P : Type 0} where
  -- Whether a check throws on one of the pages.
  unfoldable pub throws_on : (P → Option (List Finding)) → List P → Bool
  throws_on f [] = false
  throws_on f (page ∷ pages) = throws (f page) || throws_on f pages

  -- How many findings of one id the check returns on the pages on which it does not throw.
  unfoldable pub returned_with : String → (P → Option (List Finding)) → List P → ℕ
  returned_with id f [] = 0
  returned_with id f (page ∷ pages) =
      findings_with id (or_skipped (f page)) + returned_with id f pages

  -- The findings of one id that the checks with a throw on one page return on the others.
  unfoldable pub lost_with : String → List P → List (PageCheck P) → ℕ
  unfolding throws_on returned_with
  lost_with id pages [] = 0
  lost_with id pages (c ∷ cs) =
      (if throws_on c.check pages then returned_with id c.check pages else 0)
      + lost_with id pages cs

  -- The same over several checks.
  unfoldable returned_by : String → List P → List (PageCheck P) → ℕ
  unfolding returned_with
  returned_by id pages [] = 0
  returned_by id pages (c ∷ cs) = returned_with id c.check pages + returned_by id pages cs

  check_all-throws :
      (f : P → Option (List Finding)) (pages : List P)
      → throws (check_all f pages) ≡ throws_on f pages
  unfolding check_all throws_on
  check_all-throws f [] = refl
  check_all-throws f (page ∷ pages) =
      joined-throws (f page) (check_all f pages) (check_all-throws f pages)

  -- One rule: `run` returns what the pages give, or all of it is lost.
  check_all-count :
      (id : String) (f : P → Option (List Finding)) (pages : List P)
      → findings_with id (or_skipped (check_all f pages))
          + (if throws_on f pages then returned_with id f pages else 0)
        ≡ returned_with id f pages
  unfolding check_all throws_on returned_with
  check_all-count id f [] = unfold count_where in omega arith
  check_all-count id f (page ∷ pages) =
      joined-count id (f page) (check_all f pages) (throws_on f pages) (returned_with id f pages)
        (check_all-throws f pages) (check_all-count id f pages)

module _ (P C S : Type 0) (id : String) (site : C) where
  run_rules-count :
      (pages : List P) (cs : List (PageCheck P))
      → findings_with id (run_rules pages (page_rules {C = C} {S = S} cs)) + lost_with id pages cs
        ≡ returned_by id pages cs
  unfolding run_rules lost_with returned_by
  run_rules-count pages [] = unfold count_where in omega arith
  run_rules-count pages (c ∷ cs) = omega (
    arith,
    count_where-join (λ (f : Finding). str_eq f.id id) (or_skipped (check_all c.check pages))
        (run_rules pages (page_rules {C = C} {S = S} cs)),
    check_all-count id c.check pages,
    run_rules-count pages cs,
  )

  -- One more page adds what the checks return on it.
  returned_by-page :
      (page : P) (pages : List P) (cs : List (PageCheck P))
      → returned_by id (page ∷ pages) cs
        ≡ findings_with id (run_per_page_rules page site (page_rules {C = C} {S = S} cs))
          + returned_by id pages cs
  unfolding run_per_page_rules returned_by returned_with
  returned_by-page page pages [] = unfold count_where in omega arith
  returned_by-page page pages (c ∷ cs) = omega (
    arith,
    count_where-join (λ (f : Finding). str_eq f.id id) (or_skipped (c.check page))
        (run_per_page_rules page site (page_rules {C = C} {S = S} cs)),
    returned_by-page page pages cs,
  )

  returned_by-none : (cs : List (PageCheck P)) → returned_by id [] cs ≡ 0
  unfolding returned_by returned_with
  returned_by-none [] = refl
  returned_by-none (c ∷ cs) = omega (arith, returned_by-none cs)

  stream_pages-count :
      (pages : List P) (cs : List (PageCheck P))
      → findings_with id (stream_pages pages site (page_rules {C = C} {S = S} cs))
        ≡ returned_by id pages cs
  unfolding stream_pages
  stream_pages-count [] cs = unfold count_where in omega (arith, returned_by-none cs)
  stream_pages-count (page ∷ pages) cs = omega (
    arith,
    count_where-join (λ (f : Finding). str_eq f.id id)
        (run_per_page_rules page site (page_rules {C = C} {S = S} cs))
        (stream_pages pages site (page_rules {C = C} {S = S} cs)),
    returned_by-page page pages cs,
    stream_pages-count pages cs,
  )

-- For rules that look at one page at a time, as those on security, forms, performance,
-- accessibility, links and functionality do, and that may throw on any page, running them page by
-- page as the crawl goes gives as many findings of each id as running each over all pages gives,
-- and besides those that a rule with a throw on one page returns on the others.
pub stream_pages-run_rules :
    (P C S : Type 0) (site : C) (pages : List P) (cs : List (PageCheck P)) (id : String)
    → findings_with id (stream_pages pages site (page_rules {C = C} {S = S} cs))
      ≡ findings_with id (run_rules pages (page_rules {C = C} {S = S} cs)) + lost_with id pages cs
stream_pages-run_rules P C S site pages cs id =
    omega (arith, stream_pages-count P C S id site pages cs, run_rules-count P C S id site pages cs)

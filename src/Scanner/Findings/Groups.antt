-- ===== src/Scanner/Findings/Groups.antt =====
-- The grouping of findings by their id: src/findingAggregator.js.
use Prim.Native.String.{String}
use text.Mathlib.Text.{◌==◌ as str_eq}
use text.Mathlib.TextEquality.{eq_iff}
use qa_lab.Base.{
  ℕ, ◌+◌, ◌≤◌, ◌≡◌, List, [], ◌∷◌, true, Bool-cases, inl, inr, if◌then◌else◌, length-append, min,
  arith, ◌∙◌, sym, ap,
}
use qa_lab.Base.Rows.{count_where}
use qa_lab.Scanner.Findings.{Finding, Group, Issue, add_finding, group_from, issues_of, aggregate}

-- How many findings have the id.
abbrev pub findings_with : String → List Finding → ℕ
findings_with id = count_where (λ (f : Finding). str_eq f.id id)

-- How many issues have the id.
abbrev pub issues_with : String → List Issue → ℕ
issues_with id = count_where (λ (i : Issue). str_eq i.id id)

-- The occurrences that the issues of the id count together.
unfoldable pub occurrences_with : String → List Issue → ℕ
occurrences_with id [] = 0
occurrences_with id (i ∷ is) =
    (if str_eq i.id id then i.occurrence_count else 0) + occurrences_with id is

same_id : (a b id : String) → str_eq a b ≡ true → str_eq a id ≡ str_eq b id
same_id a b id h = ap (λ x. str_eq x id) ((eq_iff a b).0 h)

shared_id : (a b id : String) → str_eq a id ≡ true → str_eq b id ≡ true → str_eq a b ≡ true
shared_id a b id h k = (eq_iff a b).1 ((eq_iff a id).0 h ∙ sym ((eq_iff b id).0 k))

occurrences_with-add_finding :
    (id : String) (gs : List Group) (f : Finding)
    → occurrences_with id (issues_of (add_finding gs f))
      ≡ occurrences_with id (issues_of gs) + (if str_eq f.id id then 1 else 0)
unfolding occurrences_with add_finding
occurrences_with-add_finding id [] f = ground arith
occurrences_with-add_finding id (g ∷ gs) f = elim (Bool-cases (str_eq g.id f.id)) [
  | inl e ↦ rw (e, length-append g.occurrences (f ∷ [])) (ground (arith, same_id g.id f.id id e))
  | inr e ↦ rw e (omega (arith, occurrences_with-add_finding id gs f))
]

issues_with-add_finding :
    (id : String) (gs : List Group) (f : Finding)
    → issues_with id (issues_of gs) ≤ 1
    → issues_with id (issues_of (add_finding gs f))
      ≡ min (issues_with id (issues_of gs) + (if str_eq f.id id then 1 else 0)) 1
unfolding add_finding count_where
issues_with-add_finding id [] f h = ground arith
issues_with-add_finding id (g ∷ gs) f h = elim (Bool-cases (str_eq g.id f.id)) [
  | inl e ↦ rw e (ground (arith, same_id g.id f.id id e))
  | inr e ↦ rw e (ground (arith, issues_with-add_finding id gs f, shared_id g.id f.id id))
]

group_from-counts :
    (id : String) (gs : List Group) (fs : List Finding)
    → issues_with id (issues_of gs) ≤ 1
    → (issues_with id (issues_of (group_from gs fs))
        ≡ min (issues_with id (issues_of gs) + findings_with id fs) 1)
      × (occurrences_with id (issues_of (group_from gs fs))
          ≡ occurrences_with id (issues_of gs) + findings_with id fs)
unfolding group_from count_where
group_from-counts id gs [] h = (ground arith, omega arith)
group_from-counts id gs (f ∷ fs) h =
    let a = issues_with-add_finding id gs f h in
    let b = occurrences_with-add_finding id gs f in
    let ih = group_from-counts id (add_finding gs f) fs (ground (arith, a)) in
    (ih.0 ∙ rw a (ground arith), ih.1 ∙ rw b (ground arith))

-- For every id, there is one issue if some finding has the id and none otherwise, and the
-- occurrences that the issues of the id count are the findings that have it.
pub aggregate-counts :
    (fs : List Finding) (id : String)
    → (issues_with id (aggregate fs) ≡ min (findings_with id fs) 1)
      × (occurrences_with id (aggregate fs) ≡ findings_with id fs)
unfolding aggregate occurrences_with count_where
aggregate-counts fs id =
    let h = group_from-counts id [] fs (omega arith) in (h.0 ∙ ground arith, h.1 ∙ omega arith)

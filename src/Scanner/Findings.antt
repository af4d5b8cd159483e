-- ===== src/Scanner/Findings.antt =====
-- Findings and their groups: src/core/finding.js and src/findingAggregator.js. The texts for the
-- reader (details, documentation, evidence) are left out; the recommendation is kept, since the
-- code looks whether there is one.
pub mod Groups
use Prim.Native.String.{String}
use text.Mathlib.Text.{◌==◌ as str_eq}
use qa_lab.Base.{
  ℕ, Bool, true, false, List, [], ◌∷◌, ◌++◌, Option, none, some, Text, if◌then◌else◌, length, take,
}
use qa_lab.Base.Texts.{text_eq}

-- src/constants/severity.js
pub data Severity : Type 0 where
  critical high medium low info : Severity

-- src/constants/categories.js
pub data Category : Type 0 where
  accessibility assets forms functionality links performance security seo best_practices : Category

pub record Finding : Type 0 where
  pub id : String
  pub title : String
  pub category : Category
  pub severity : Severity
  pub confidence : ℕ
  pub page : Text
  pub recommendation : String

-- The findings of one `id`, with what the first of them says.
pub record Group : Type 0 where
  pub id : String
  pub title : String
  pub category : Category
  pub severity : Severity
  pub recommendation : String
  pub occurrences : List Finding

abbrev pub new_group : Finding → Group
new_group f = record {
  id = f.id;
  title = f.title;
  category = f.category;
  severity = f.severity;
  recommendation = f.recommendation;
  occurrences = f ∷ [];
}

abbrev pub push : Finding → Group → Group
push f g = record g { occurrences = g.occurrences ++ f ∷ [] }

-- The body of the loop: the map keeps the order in which the ids came.
unfoldable pub add_finding : List Group → Finding → List Group
add_finding [] f = new_group f ∷ []
add_finding (g ∷ gs) f =
    let rest = add_finding gs f in if str_eq g.id f.id then push f g ∷ gs else g ∷ rest

unfoldable pub group_from : List Group → List Finding → List Group
unfolding add_finding
group_from gs [] = gs
group_from gs (f ∷ fs) = group_from (add_finding gs f) fs

-- `[...new Set(xs)]`
unfoldable pub mem_text : Text → List Text → Bool
unfolding text_eq
mem_text x [] = false
mem_text x (y ∷ ys) = if text_eq x y then true else mem_text x ys

unfoldable pub unique_from : List Text → List Text → List Text
unfolding mem_text
unique_from seen [] = []
unique_from seen (x ∷ xs) =
    let old = unique_from seen xs in
    let new = unique_from (x ∷ seen) xs in if mem_text x seen then old else x ∷ new

-- `filter(Boolean)`
unfoldable pub non_empty : List Text → List Text
non_empty [] = []
non_empty ([] ∷ xs) = non_empty xs
non_empty ((c ∷ s) ∷ xs) = (c ∷ s) ∷ non_empty xs

abbrev pub pages_of : List Finding → List Text
pages_of [] = []
pages_of (f ∷ fs) = f.page ∷ pages_of fs

-- One issue of the report.
pub record Issue : Type 0 where
  pub id : String
  pub title : String
  pub category : Category
  pub severity : Severity
  pub recommendation : String
  pub occurrence_count : ℕ
  pub affected_pages : List Text
  pub examples : List Text

abbrev pub max_examples : ℕ
max_examples = 5

abbrev pub issue_of : Group → Issue
issue_of g = record {
  id = g.id;
  title = g.title;
  category = g.category;
  severity = g.severity;
  recommendation = g.recommendation;
  occurrence_count = length g.occurrences;
  affected_pages = unique_from [] (non_empty (pages_of g.occurrences));
  examples = pages_of (take max_examples g.occurrences);
}

abbrev pub issues_of : List Group → List Issue
issues_of [] = []
issues_of (g ∷ gs) = issue_of g ∷ issues_of gs

-- `aggregateFindings`
unfoldable pub aggregate : List Finding → List Issue
unfolding group_from unique_from non_empty
aggregate fs = issues_of (group_from [] fs)

-- ===== src/Scanner/Comparison.antt =====
-- What changed between two scans of a site: src/scanComparison.js, and the recommendations that a
-- report lists: src/recommendations/index.js.
pub mod Patch
use Prim.Native.String.{String}
use qa_lab.Base.{
  ℕ, List, [], ◌∷◌, ◌++◌, Bool, not, Option, none, some, Text, codes, ◌-◌, leb, if◌then◌else◌,
}
use qa_lab.Base.Rows.{select_where}
use qa_lab.Scanner.Findings.{
  Severity, critical, high, medium, low, info, Category, Finding, Issue, mem_text,
}

-- An integer, for a difference of scores.
pub data ℤ : Type 0 where
  pos : ℕ → ℤ
  negsuc : ℕ → ℤ

abbrev pub difference : ℕ → ℕ → ℤ
difference a b = if leb b a then pos (a - b) else negsuc (b - a - 1)

-- `findingKey`
unfoldable pub finding_key : Finding → Text
finding_key f = codes f.id ++ codes "::" ++ f.page

abbrev pub keys : List Finding → List Text
keys [] = []
keys (f ∷ fs) = finding_key f ∷ keys fs

-- The parts of a report that the comparison reads; a list or a score may be missing.
pub record Report : Type 0 where
  pub timestamp : Option ℕ
  pub score : Option ℕ
  pub findings : List Finding

abbrev pub is_missing_in : List Text → Finding → Bool
is_missing_in seen f = not (mem_text (finding_key f) seen)

abbrev pub score_delta : Option ℕ → Option ℕ → Option ℤ
score_delta none current = none
score_delta (some p) none = none
score_delta (some p) (some c) = some (difference c p)

pub record Comparison : Type 0 where
  pub previous_timestamp : Option ℕ
  pub current_timestamp : Option ℕ
  pub previous_score : Option ℕ
  pub current_score : Option ℕ
  pub delta : Option ℤ
  pub new_issues : List Finding
  pub resolved_issues : List Finding

-- `compareScans`
unfoldable pub compare_scans : Report → Report → Comparison
unfolding mem_text finding_key select_where
compare_scans previous current = record {
  previous_timestamp = previous.timestamp;
  current_timestamp = current.timestamp;
  previous_score = previous.score;
  current_score = current.score;
  delta = score_delta previous.score current.score;
  new_issues = select_where (is_missing_in (keys previous.findings)) current.findings;
  resolved_issues = select_where (is_missing_in (keys current.findings)) previous.findings;
}

pub data Priority : Type 0 where
  critical_priority high_priority medium_priority low_priority : Priority

-- PRIORITY_BY_SEVERITY
unfoldable pub priority_of : Severity → Priority
priority_of critical = critical_priority
priority_of high = high_priority
priority_of medium = medium_priority
priority_of low = low_priority
priority_of info = low_priority

pub record Recommendation : Type 0 where
  pub priority : Priority
  pub category : Category
  pub issue : String
  pub fix : String

abbrev pub recommendation_of : Issue → Recommendation
recommendation_of i = record {
  priority = priority_of i.severity;
  category = i.category;
  issue = i.title;
  fix = i.recommendation;
}

abbrev pub has_text : String → Bool
has_text String.[] = Bool.false
has_text (String.◌∷◌ c s) = Bool.true

-- `generateRecommendations`, as the scan calls it: on the issues
unfoldable pub generate_recommendations : List Issue → List Recommendation
unfolding priority_of
generate_recommendations [] = []
generate_recommendations (i ∷ is) =
    let rest = generate_recommendations is in
    if has_text i.recommendation then recommendation_of i ∷ rest else rest

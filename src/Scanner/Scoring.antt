-- ===== src/Scanner/Scoring.antt =====
-- The score of a scan: src/scoring.js, on double-precision numbers in units of 2^-55
-- (Scanner/Scoring/Doubles). The code lets the sum go below zero and clamps it at the end; here
-- the subtraction stops at zero at once, which is the same, since the sum only falls.
pub mod Doubles
pub mod Bounds
pub mod Penalties
use qa_lab.Base.{ℕ, List, [], ◌∷◌, ◌+◌, ◌-◌, ◌*◌, ◌/◌, ◌^◌, leb, if◌then◌else◌, min}
use qa_lab.Scanner.Findings.{Severity, critical, high, medium, low, info, Finding, Issue, aggregate}
use qa_lab.Scanner.Scoring.Doubles.{round}

-- SEVERITY_WEIGHT
unfoldable pub weight : Severity → ℕ
weight critical = 20
weight high = 10
weight medium = 5
weight low = 2
weight info = 0

-- 1 as a number of units
abbrev pub one : ℕ
one = 2 ^ 55

-- BREADTH_FACTOR: the double nearest to 0.1.
abbrev pub breadth_factor : ℕ
breadth_factor = 3602879701896397

abbrev pub breadth_cap : ℕ
breadth_cap = 20

-- weight * (1 + extraOccurrences * BREADTH_FACTOR)
unfoldable pub penalty : ℕ → ℕ → ℕ
unfolding round
penalty w extra = round (w * round (one + round (extra * breadth_factor)))

unfoldable pub deduction : Issue → ℕ
unfolding weight penalty
deduction issue = penalty (weight issue.severity) (min (issue.occurrence_count - 1) breadth_cap)

-- The loop over the issues.
unfoldable pub deduct : ℕ → List Issue → ℕ
unfolding deduction round
deduct score [] = score
deduct score (issue ∷ rest) = deduct (round (score - deduction issue)) rest

-- Math.round
abbrev pub to_integer : ℕ → ℕ
to_integer score = (score + 2 ^ 54) / one

pub data Grade : Type 0 where
  a_grade b_grade c_grade d_grade f_grade : Grade

unfoldable pub grade_of : ℕ → Grade
grade_of score =
    if leb 90 score
    then a_grade
    else if leb 80 score
    then b_grade
    else if leb 70 score
    then c_grade
    else if leb 60 score
    then d_grade
    else f_grade

-- The issues of each level that the report counts; informational ones are in none.
pub record SeverityCounts : Type 0 where
  pub critical_count : ℕ
  pub high_count : ℕ
  pub medium_count : ℕ
  pub low_count : ℕ

abbrev pub count_severity : Severity → SeverityCounts → SeverityCounts
count_severity critical c = record c { critical_count = c.critical_count + 1 }
count_severity high c = record c { high_count = c.high_count + 1 }
count_severity medium c = record c { medium_count = c.medium_count + 1 }
count_severity low c = record c { low_count = c.low_count + 1 }
count_severity info c = c

unfoldable pub count_severities : SeverityCounts → List Issue → SeverityCounts
count_severities c [] = c
count_severities c (issue ∷ rest) = count_severities (count_severity issue.severity c) rest

abbrev pub no_counts : SeverityCounts
no_counts = record { critical_count = 0; high_count = 0; medium_count = 0; low_count = 0 }

pub record Score : Type 0 where
  pub score : ℕ
  pub grade : Grade
  pub severity : SeverityCounts

unfoldable pub final_score : List Issue → ℕ
unfolding deduct
final_score issues = to_integer (deduct (100 * one) issues)

-- `calculateScore`
unfoldable pub calculate_score : List Finding → Score
unfolding aggregate final_score grade_of count_severities
calculate_score findings =
    let issues = aggregate findings in
    record {
      score = final_score issues;
      grade = grade_of (final_score issues);
      severity = count_severities no_counts issues;
    }

-- ===== src/Scanner/QualityGate.antt =====
-- The gate that fails a build: src/qualityGate.js. The texts of the reasons are left out, their
-- numbers are kept. A minimum score is a natural number.
pub mod Laws
use qa_lab.Base.{
  ℕ, List, [], ◌∷◌, ◌++◌, Bool, true, false, Option, none, some, Text, codes, ◌+◌, leb, ltb,
  if◌then◌else◌,
}
use qa_lab.Base.Texts.{text_eq}
use qa_lab.Scanner.Findings.{Severity, critical, high, medium, low, info}
use qa_lab.Scanner.Scoring.{Score, SeverityCounts}

-- SEVERITY_RANK
abbrev pub rank : Severity → ℕ
rank info = 0
rank low = 1
rank medium = 2
rank high = 3
rank critical = 4

-- SEVERITY_RANK[name], where the table has the name.
unfoldable pub rank_of : Text → Option ℕ
unfolding text_eq
rank_of name =
    if text_eq name (codes "info")
    then some 0
    else if text_eq name (codes "low")
    then some 1
    else if text_eq name (codes "medium")
    then some 2
    else if text_eq name (codes "high")
    then some 3
    else if text_eq name (codes "critical")
    then some 4
    else none

-- counts[level] || 0: the score counts no informational issues.
abbrev pub count_at : SeverityCounts → Severity → ℕ
count_at c critical = c.critical_count
count_at c high = c.high_count
count_at c medium = c.medium_count
count_at c low = c.low_count
count_at c info = 0

abbrev pub at_or_above_from : ℕ → SeverityCounts → List Severity → ℕ
at_or_above_from threshold c [] = 0
at_or_above_from threshold c (level ∷ levels) =
    (if leb threshold (rank level) then count_at c level else 0)
    + at_or_above_from threshold c levels

-- The loop over the table; no rank is at or above an unknown one.
unfoldable pub at_or_above : Option ℕ → SeverityCounts → ℕ
at_or_above none c = 0
at_or_above (some threshold) c =
    at_or_above_from threshold c (info ∷ low ∷ medium ∷ high ∷ critical ∷ [])

pub data Reason : Type 0 where
  severity_reason : ℕ → Reason
  score_reason : ℕ → ℕ → Reason

pub record Gate : Type 0 where
  pub passed : Bool
  pub reasons : List Reason

pub record GateOptions : Type 0 where
  pub fail_on_severity : Option Text
  pub min_score : Option ℕ

abbrev pub is_empty : List Reason → Bool
is_empty [] = true
is_empty (r ∷ rs) = false

unfoldable pub score_reasons : Score → Option ℕ → List Reason
score_reasons score none = []
score_reasons score (some m) = if ltb score.score m then score_reason score.score m ∷ [] else []

-- `normalize` is the runtime's `trim` followed by `toLowerCase`.
module _ (normalize : Text → Text) where
  unfoldable pub is_valid_severity : Text → Bool
  unfolding rank_of
  is_valid_severity value = elim (rank_of (normalize value)) [ none ↦ false | some r ↦ true ]

  unfoldable pub severity_reasons : Score → Option Text → List Reason
  unfolding at_or_above rank_of
  severity_reasons score none = []
  severity_reasons score (some []) = []
  severity_reasons score (some (c ∷ value)) =
      let count = at_or_above (rank_of (normalize (c ∷ value))) score.severity in
      if ltb 0 count then severity_reason count ∷ [] else []

  -- `evaluateQualityGate`
  unfoldable pub evaluate_quality_gate : Score → GateOptions → Gate
  unfolding severity_reasons score_reasons
  evaluate_quality_gate score o =
      let reasons = severity_reasons score o.fail_on_severity ++ score_reasons score o.min_score in
      record { passed = is_empty reasons; reasons = reasons }

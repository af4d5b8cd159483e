-- ===== src/Scanner/QualityGate/Laws.antt =====
-- What the gate's verdict says of the issues behind the score.
use qa_lab.Base.{
  ℕ, List, [], ◌∷◌, ◌++◌, Bool, true, false, ◌&&◌, some, Text, ◌+◌, ◌≡◌, leb, ltb, ◌==◌,
  if◌then◌else◌, arith,
}
use qa_lab.Base.Rows.{count_where}
use qa_lab.Scanner.Findings.{Severity, critical, high, medium, low, info, Issue, Finding, aggregate}
use qa_lab.Scanner.Scoring.{
  SeverityCounts, count_severity, count_severities, no_counts, calculate_score,
}
use qa_lab.Scanner.QualityGate.{
  rank, rank_of, at_or_above, evaluate_quality_gate, severity_reasons, score_reasons, is_empty,
  severity_reason, score_reason,
}

-- An issue that is not informational.
abbrev pub is_counted : Severity → Bool
is_counted critical = true
is_counted high = true
is_counted medium = true
is_counted low = true
is_counted info = false

-- A counted issue whose severity is at or above the rank.
unfoldable pub is_grave : ℕ → Issue → Bool
is_grave threshold i = is_counted i.severity && leb threshold (rank i.severity)

at_or_above-count_severity :
    (t : ℕ) (c : SeverityCounts) (s : Severity)
    → at_or_above (some t) (count_severity s c)
      ≡ at_or_above (some t) c + (if is_counted s && leb t (rank s) then 1 else 0)
unfolding at_or_above
at_or_above-count_severity t c critical = ground arith
at_or_above-count_severity t c high = ground arith
at_or_above-count_severity t c medium = ground arith
at_or_above-count_severity t c low = ground arith
at_or_above-count_severity t c info = ground arith

at_or_above-count_severities :
    (t : ℕ) (c : SeverityCounts) (is : List Issue)
    → at_or_above (some t) (count_severities c is)
      ≡ at_or_above (some t) c + count_where (is_grave t) is
unfolding count_severities count_where is_grave
at_or_above-count_severities t c [] = omega arith
at_or_above-count_severities t c (i ∷ is) = ground (
  arith,
  at_or_above-count_severity t c i.severity,
  at_or_above-count_severities t (count_severity i.severity c) is,
)

pub at_or_above-calculate_score :
    (t : ℕ) (fs : List Finding)
    → at_or_above (some t) ((calculate_score fs).severity) ≡ count_where (is_grave t) (aggregate fs)
unfolding calculate_score at_or_above
at_or_above-calculate_score t fs =
    ground (arith, at_or_above-count_severities t no_counts (aggregate fs))

verdict :
    (n s m : ℕ)
    → is_empty (
        (if ltb 0 n then severity_reason n ∷ [] else [])
        ++ (if ltb s m then score_reason s m ∷ [] else []))
      ≡ ((n == 0) && leb m s)
verdict n s m = ground arith

-- With a threshold that names a severity and with a minimum score, the gate on a computed score
-- passes exactly when no issue that is not informational is at or above the threshold, and the
-- score reaches the minimum.
pub evaluate_quality_gate-calculate_score :
    (normalize : Text → Text) (fs : List Finding) (c : ℕ) (value : Text) (t m : ℕ)
    → rank_of (normalize (c ∷ value)) ≡ some t
    → (evaluate_quality_gate normalize
        (calculate_score fs)
        (record { fail_on_severity = some (c ∷ value); min_score = some m })).passed
      ≡ ((count_where (is_grave t) (aggregate fs) == 0) && leb m ((calculate_score fs).score))
unfolding evaluate_quality_gate severity_reasons score_reasons
evaluate_quality_gate-calculate_score normalize fs c value t m h =
    rw (h, at_or_above-calculate_score t fs)
      (verdict (count_where (is_grave t) (aggregate fs)) ((calculate_score fs).score) m)

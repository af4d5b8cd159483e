-- ===== src/Tests/Scanner.antt =====
-- The scanner's findings, score, rules and crawl at example data.
use qa_lab.Base.{
  List, [], ◌∷◌, ◌&&◌, some, Text, codes, ◌≡◌, ◌≤◌, ◌-◌, ◌*◌, refl, arith, min, leb, ◌==◌,
}
use qa_lab.Base.Tests.{All}
use qa_lab.Base.Rows.{count_where}
use qa_lab.Scanner.Findings.{Finding, Severity, high, medium, seo, security, aggregate}
use qa_lab.Scanner.Findings.Groups.{issues_with, findings_with, occurrences_with, aggregate-counts}
use qa_lab.Scanner.Scoring.{calculate_score}
use qa_lab.Scanner.Scoring.Bounds.{total_weight, calculate_score-between, calculate_score-Isolated}
use qa_lab.Scanner.QualityGate.{evaluate_quality_gate, rank_of}
use qa_lab.Scanner.QualityGate.Laws.{is_grave, evaluate_quality_gate-calculate_score}
use qa_lab.Scanner.Comparison.{Report}
use qa_lab.Scanner.RobotsTxt.{parse_robots_txt, is_space}
use qa_lab.Scanner.RobotsTxt.RoundTrip.{IsPath, print_robots_txt, parse_robots_txt-print}

abbrev finding_at : Severity → Text → Finding
finding_at s page = record {
  id = "SEO001";
  title = "Missing title";
  category = seo;
  severity = s;
  confidence = 100;
  page = page;
  recommendation = "Add a title";
}

abbrev header_at : Text → Finding
header_at page = record {
  id = "SEC001";
  title = "Missing header";
  category = security;
  severity = high;
  confidence = 100;
  page = page;
  recommendation = "Send the header";
}

abbrev found : List Finding
found = header_at (codes "/") ∷ finding_at medium (codes "/a") ∷ header_at (codes "/b") ∷ []

abbrev isolated : List Finding
isolated = header_at (codes "/") ∷ finding_at medium (codes "/a") ∷ []

calculate_score-between_example :
    (100 - 3 * total_weight (aggregate found) ≤ (calculate_score found).score)
    × ((calculate_score found).score ≤ 100)
calculate_score-between_example = calculate_score-between found

calculate_score-Isolated_example :
    (calculate_score isolated).score ≡ 100 - total_weight (aggregate isolated)
unfolding aggregate
calculate_score-Isolated_example = calculate_score-Isolated isolated (refl, (refl, tt))

aggregate-counts_example :
    (issues_with "SEC001" (aggregate found) ≡ min (findings_with "SEC001" found) 1)
    × (occurrences_with "SEC001" (aggregate found) ≡ findings_with "SEC001" found)
aggregate-counts_example = aggregate-counts found "SEC001"

abbrev as_it_is : Text → Text
as_it_is t = t

evaluate_quality_gate-calculate_score_example :
    (evaluate_quality_gate as_it_is
      (calculate_score found)
      (record { fail_on_severity = some (codes "high"); min_score = some 70 })).passed
    ≡ ((count_where (is_grave 3) (aggregate found) == 0) && leb 70 ((calculate_score found).score))
unfolding rank_of
evaluate_quality_gate-calculate_score_example =
    evaluate_quality_gate-calculate_score as_it_is found 104 (codes "igh") 3 70 refl

abbrev report_of : List Finding → Report
report_of fs = record { timestamp = some 1; score = some 80; findings = fs }

paths_lem : All IsPath (codes "/admin" ∷ codes "/tmp/" ∷ [])
unfolding IsPath is_space
paths_lem = ground arith

parse_robots_txt-print_example :
    (parse_robots_txt (print_robots_txt (codes "/admin" ∷ codes "/tmp/" ∷ []))).disallowed
    ≡ codes "/admin" ∷ codes "/tmp/" ∷ []
parse_robots_txt-print_example =
    parse_robots_txt-print (codes "/admin" ∷ codes "/tmp/" ∷ []) paths_lem

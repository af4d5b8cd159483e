-- ===== src/Scanner/Rules/Checks.antt =====
-- The rules that look at one page at a time, in the order in which their files are loaded.
use Prim.Native.String.{String}
use qa_lab.Base.{List, [], ◌∷◌, some}
use qa_lab.Scanner.Findings.{Finding}
use qa_lab.Scanner.RuleEngine.{PageCheck}
use qa_lab.Scanner.Rules.{RulePage}
use qa_lab.Scanner.Rules.Security.{security_findings}
use qa_lab.Scanner.Rules.Forms.{form_findings}
use qa_lab.Scanner.Rules.Performance.{performance_findings}
use qa_lab.Scanner.Rules.Availability.{link_findings, functionality_findings}
use qa_lab.Scanner.Rules.Accessibility.{accessibility_findings}

abbrev page_check : String → (RulePage → List Finding) → PageCheck RulePage
page_check id f = record { id = id; check = λ page. some (f page) }

unfoldable pub page_checks : List (PageCheck RulePage)
unfolding link_findings functionality_findings security_findings form_findings performance_findings
    accessibility_findings
page_checks =
    page_check "ACCESSIBILITY" accessibility_findings
    ∷ page_check "FORMS" form_findings
    ∷ page_check "FUNCTIONALITY" functionality_findings
    ∷ page_check "LINKS" link_findings
    ∷ page_check "PERFORMANCE" performance_findings
    ∷ page_check "SECURITY" security_findings
    ∷ []

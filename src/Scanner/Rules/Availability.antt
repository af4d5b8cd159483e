-- ===== src/Scanner/Rules/Availability.antt =====
-- src/rules/linkRules.js and src/rules/functionalityRules.js
use qa_lab.Base.{ℕ, List, [], not, Option, none, some, Text, leb, ◌==◌}
use qa_lab.Scanner.Findings.{Finding, high, links, functionality}
use qa_lab.Scanner.Rules.{RulePage, when}

abbrev pub link001 : Text → Finding
link001 url = record {
  id = "LINK001";
  title = "Broken Link Detected";
  category = links;
  severity = high;
  confidence = 100;
  page = url;
  recommendation =
      "Verify that the URL exists, correct broken references, or configure proper redirects.";
}

abbrev pub func001 : Text → Finding
func001 url = record {
  id = "FUNC001";
  title = "Page Failed to Load";
  category = functionality;
  severity = high;
  confidence = 100;
  page = url;
  recommendation =
      "Investigate the page, verify routing and server configuration, and ensure the page responds with HTTP 200 when expected.";
}

abbrev link_status : Text → Option ℕ → List Finding
link_status url none = []
link_status url (some status) = when (leb 400 status) (link001 url)

abbrev functionality_status : Text → Option ℕ → List Finding
functionality_status url none = []
functionality_status url (some status) = when (not (status == 200)) (func001 url)

-- `runPerPage` of the link rules
unfoldable pub link_findings : RulePage → List Finding
link_findings page = link_status page.url page.status

-- `runPerPage` of the functionality rules
unfoldable pub functionality_findings : RulePage → List Finding
functionality_findings page = functionality_status page.url page.status

-- ===== src/Tests/Engine.antt =====
-- The rule engine and a whole scan at example data.
use qa_lab.Base.{
  ℕ, List, [], ◌∷◌, true, false, Option, none, some, Text, codes, ◌≡◌, inl, inr, refl, length, ◌+◌,
  if◌then◌else◌,
}
use qa_lab.Base.Rows.{count_where}
use qa_lab.DomainVerify.{starts_with}
use qa_lab.Scanner.Findings.{Finding, high, security}
use qa_lab.Scanner.Runs.{◌>>=◌}
use qa_lab.Scanner.Crawler.{crawl_site}
use qa_lab.Scanner.Crawler.Laws.{collect}
use qa_lab.Scanner.RuleEngine.{
  PageCheck, Rule, collect_pages, ids_of, mem_id, stream_pages, run_rules, page_rules,
  load_rules_with_plugins, enabled_rules, plugin_rules, new_rules,
}
use qa_lab.Scanner.RuleEngine.Streaming.{
  throws_on, returned_with, lost_with, stream_pages-run_rules,
}
use qa_lab.Scanner.Findings.Groups.{findings_with}
use qa_lab.Scanner.Rules.{RulePage}
use qa_lab.Scanner.Rules.Checks.{page_checks}
use qa_lab.Scanner.RuleEngine.Ids.{DistinctIds}
use qa_lab.Scanner.RuleEngine.Collecting.{given_to, returned_on, Has, given_to-collect_pages}
use qa_lab.Scanner.Scan.{Host, ScanRequest, SiteContext, limited, finish_scan, try_scan}
use qa_lab.Scanner.Scan.Results.{with_batch, try_scan-batch}
use qa_lab.Tests.Network.{web, options, root}

abbrev finding : Finding
finding = record {
  id = "SEC001";
  title = "Missing header";
  category = security;
  severity = high;
  confidence = 100;
  page = [];
  recommendation = "Send the header";
}

abbrev Site : Type 0
Site = SiteContext ℕ

abbrev count_letters : Text → Option (Option ℕ)
count_letters page = some (some (length page))

-- A rule that looks at each page, and one that counts across pages.
abbrev header_rule : Rule Text Site ℕ
header_rule = record {
  id = "headers";
  enabled = true;
  run = λ page. some [];
  run_per_page = some (λ page site. some (finding ∷ []));
  collect_summary = none;
  run_final = none;
}

abbrev length_rule : Rule Text Site ℕ
length_rule = record {
  id = "lengths";
  enabled = true;
  run = λ page. some [];
  run_per_page = none;
  collect_summary = some count_letters;
  run_final = some (λ lengths site. none);
}

abbrev rules : List (Rule Text Site ℕ)
rules = header_rule ∷ length_rule ∷ []

abbrev pages : List Text
pages = codes "/" ∷ codes "/a" ∷ []

distinct_lem : DistinctIds (ids_of rules)
unfolding DistinctIds mem_id
distinct_lem = (refl, (refl, tt))

has_lem : Has length_rule rules
unfolding Has
has_lem = inr (inl refl)

given_to-collect_pages_example :
    given_to "lengths" (collect_pages pages rules []) ≡ returned_on (some count_letters) pages
given_to-collect_pages_example =
    given_to-collect_pages pages length_rule count_letters rules has_lem distinct_lem refl

abbrev host : Host Text ℕ ℕ
host = record {
  web = web;
  start_path = root;
  crawl_options = options;
  normalize = λ page. page.url;
  built_in = rules;
  plugins = [];
  probe = 0;
  aborted = false;
  aborted_on = λ n. false;
  aborted_at_end = false;
}

abbrev request : ScanRequest
request = record {
  start_url = root;
  max_pages = some 3;
  max_depth = none;
  check_assets = false;
  check_exposed_paths = false;
}

loaded_lem : load_rules_with_plugins host.built_in host.plugins ≡ some rules
unfolding load_rules_with_plugins enabled_rules plugin_rules new_rules
loaded_lem = refl

try_scan-batch_example : try_scan host request ≡ (
    crawl_site web (limited host request) root collect root [] >>= λ c.
    finish_scan host request rules (with_batch host request rules c))
try_scan-batch_example = try_scan-batch host request rules (λ n. refl) refl loaded_lem

abbrev rule_page : Text → RulePage
rule_page path = record {
  url = path;
  status = some 200;
  response_time = some 2500;
  html_size = 4000;
  headers = some [];
  cookies = [];
  mixed_content_count = 0;
  has_disclosed_error = false;
  scripts = [];
  missing_alt = 1;
  heading_sequence = 1 ∷ 3 ∷ [];
  label_fors = [];
  lang = [];
  fields = [];
  forms = [];
}

abbrev rule_pages : List RulePage
rule_pages = rule_page (codes "http://a") ∷ rule_page (codes "https://b") ∷ []

-- Throws on a page that is not served over HTTPS, and has one finding on any other.
abbrev fragile_check : PageCheck RulePage
fragile_check = record {
  id = "FRAGILE";
  check = λ page. if starts_with (codes "https:") page.url then some (finding ∷ []) else none;
}

abbrev checks : List (PageCheck RulePage)
checks = fragile_check ∷ page_checks

-- The one finding that is lost.
lost_with_lem : lost_with "SEC001" rule_pages (fragile_check ∷ []) ≡ 1
unfolding lost_with throws_on returned_with starts_with count_where
lost_with_lem = refl

stream_pages-run_rules_example :
    findings_with "SEC001"
      (stream_pages rule_pages 0 (page_rules {P = RulePage} {C = ℕ} {S = ℕ} checks))
    ≡ findings_with "SEC001"
        (run_rules rule_pages (page_rules {P = RulePage} {C = ℕ} {S = ℕ} checks))
      + lost_with "SEC001" rule_pages checks
stream_pages-run_rules_example = stream_pages-run_rules RulePage ℕ ℕ 0 rule_pages checks "SEC001"

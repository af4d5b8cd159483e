-- ===== src/Scanner/Scan.antt =====
-- A whole scan: src/lib/scan.js. The guard, the crawler, the rules, the grouping and the score are
-- those of the other modules. Turning a fetched page into the rules' page (src/normalizer.js) and
-- the probe of well-known paths are parameters; reports, progress events and clocks are left out.
pub mod Results
use qa_lab.Base.{
  ℕ, List, [], ◌∷◌, ◌++◌, Bool, true, false, not, ◌&&◌, ◌||◌, Option, none, some, Text,
  if◌then◌else◌, ltb, leb, ◌+◌, length, or_default,
}
use qa_lab.Scanner.Findings.{Finding, Issue, aggregate}
use qa_lab.Scanner.Scoring.{Score, Grade, f_grade, grade_of, calculate_score}
use qa_lab.Scanner.Comparison.{Recommendation, generate_recommendations}
use qa_lab.Scanner.Runs.{
  Run, returned, threw, ◌>>=◌, throw_if, Fault, abort_error, invalid_url, request_failed,
  invalid_rule, type_error, out_of_fuel, refused,
}
use qa_lab.Scanner.SsrfGuard.{Net, GuardOptions, assert_safe_scan_url}
use qa_lab.Scanner.Crawler.{Web, Page, CrawlOptions, Crawl, crawl_site}
use qa_lab.Scanner.RuleEngine.{
  Rule, Entry, run_per_page_rules, collect_summaries, run_final_rules, load_rules_with_plugins,
}

pub data ScanStatus : Type 0 where
  completed partial failed cancelled : ScanStatus

-- A JavaScript value that a score field holds.
pub data ScoreValue : Type 0 where
  number : ℕ → ScoreValue
  object : Score → ScoreValue

-- `scoreToGrade`: an object compared with a number is never greater.
unfoldable pub score_to_grade : ScoreValue → Grade
unfolding grade_of
score_to_grade (number n) = grade_of n
score_to_grade (object s) = f_grade

pub record ScanResult : Type 0 where
  pub status : ScanStatus
  pub pages_scanned : ℕ
  pub overall_score : ScoreValue
  pub grade : Grade
  pub findings : List Issue
  pub raw_findings : List Finding
  pub recommendations : List Recommendation
  pub was_truncated : Bool
  pub robots_blocked : ℕ

-- What the request asks for besides the limits of the crawl.
pub record ScanRequest : Type 0 where
  pub start_url : Text
  pub max_pages : Option ℕ
  pub max_depth : Option ℕ
  pub check_assets : Bool
  pub check_exposed_paths : Bool

-- Math.max(1, request.maxPages ?? 100)
unfoldable pub page_limit : ScanRequest → ℕ
page_limit r = let n = or_default r.max_pages 100 in if ltb n 1 then 1 else n

pub record SiteContext (E : Type 0) : Type 0 where
  pub url : Text
  pub exposed_paths : Option E

-- What `onPage` keeps.
pub record Progress (S : Type 0) : Type 0 where
  pub page_count : ℕ
  pub findings : List Finding
  pub summaries : List (Entry S)

abbrev pub no_progress : {S : Type 0} → Progress S
no_progress = record { page_count = 0; findings = []; summaries = [] }

-- The scanner's surroundings: the start of the crawl with its options, the pages of the rules, the
-- rule modules, the probe of paths, and whether the caller's signal is aborted: at the start, at
-- the page of a number, and when an exception is caught.
pub record Host (P S E : Type 0) : Type 0 where
  pub web : Web
  pub start_path : Text
  pub crawl_options : CrawlOptions
  pub normalize : Page → P
  pub built_in : List (Rule P (SiteContext E) S)
  pub plugins : List (Option (List (Rule P (SiteContext E) S)))
  pub probe : E
  pub aborted : Bool
  pub aborted_on : ℕ → Bool
  pub aborted_at_end : Bool

-- What `scan` asks of the guard.
abbrev pub scan_guard : GuardOptions
scan_guard = record {
  allow_http = true;
  resolve_dns = true;
  allow_private_network = false;
  allowed_ports = none;
}

module _ {P S E : Type 0} (host : Host P S E) (request : ScanRequest) where
  -- The crawl's options with the limits of the request.
  abbrev pub limited : CrawlOptions
  limited = record host.crawl_options {
    max_pages = page_limit request;
    max_depth = or_default request.max_depth 2;
  }

  abbrev pub site : Option E → SiteContext E
  site found = record { url = request.start_url; exposed_paths = found }

  -- The body of `onPage`, past its test of the signal.
  unfoldable pub record_page : List (Rule P (SiteContext E) S) → Progress S → Page → Progress S
  unfolding run_per_page_rules collect_summaries
  record_page rules s raw =
      let page = host.normalize raw in
      record {
        page_count = s.page_count + 1;
        findings = s.findings ++ run_per_page_rules page (site none) rules;
        summaries = collect_summaries page rules s.summaries;
      }

  unfoldable pub on_page : List (Rule P (SiteContext E) S) → Progress S → Page → Run (Progress S)
  unfolding record_page
  on_page rules s raw = throw_if (host.aborted_on s.page_count) abort_error >>= λ _.
      returned (record_page rules s raw)

  abbrev pub loaded :
      Option (List (Rule P (SiteContext E) S)) → Run (List (Rule P (SiteContext E) S))
  loaded none = threw invalid_rule
  loaded (some rules) = returned rules

  -- The call of `checkAssets` hands over the list of pages, where `checkAssets` looks for a model
  -- with a field `pages` and throws on the missing one.
  abbrev pub asset_step : Run (Unit {0})
  asset_step = throw_if request.check_assets type_error

  abbrev pub final_site : SiteContext E
  final_site = site (if request.check_exposed_paths then some host.probe else none)

  unfoldable pub result_of : List (Rule P (SiteContext E) S) → Crawl (Progress S) → ScanResult
  unfolding run_final_rules aggregate calculate_score score_to_grade generate_recommendations
  result_of rules c =
      let all = c.handed.findings ++ run_final_rules c.handed.summaries final_site rules in
      record {
        status = if c.truncated then partial else completed;
        pages_scanned = c.handed.page_count;
        overall_score = object (calculate_score all);
        grade = score_to_grade (object (calculate_score all));
        findings = aggregate all;
        raw_findings = all;
        recommendations = generate_recommendations (aggregate all);
        was_truncated = c.truncated;
        robots_blocked = c.robots_blocked;
      }

  abbrev pub finish_scan : List (Rule P (SiteContext E) S) → Crawl (Progress S) → Run ScanResult
  finish_scan rules c = asset_step >>= λ _. returned (result_of rules c)

  abbrev pub crawl_pages : List (Rule P (SiteContext E) S) → Run (Crawl (Progress S))
  crawl_pages rules =
      crawl_site host.web limited request.start_url (on_page rules) host.start_path no_progress

  -- The `try` block.
  unfoldable pub try_scan : Run ScanResult
  unfolding load_rules_with_plugins crawl_site on_page page_limit result_of
  try_scan = throw_if host.aborted abort_error >>= λ _.
      (loaded (load_rules_with_plugins host.built_in host.plugins) >>= λ rules.
      (crawl_pages rules >>= λ c. finish_scan rules c))

  abbrev pub is_abort : Fault → Bool
  is_abort abort_error = true
  is_abort invalid_url = false
  is_abort request_failed = false
  is_abort invalid_rule = false
  is_abort type_error = false
  is_abort out_of_fuel = false
  is_abort (refused r) = false

  -- The `catch` block; the signal is looked at again.
  abbrev pub failure : Fault → ScanResult
  failure e = record {
    status = if is_abort e || host.aborted_at_end then cancelled else failed;
    pages_scanned = 0;
    overall_score = number 0;
    grade = f_grade;
    findings = [];
    raw_findings = [];
    recommendations = [];
    was_truncated = false;
    robots_blocked = 0;
  }

  abbrev pub catching : Run ScanResult → ScanResult
  catching (returned r) = r
  catching (threw e) = failure e

  -- `scan`: the guard runs before the `try`, so that its refusal reaches the caller.
  unfoldable pub scan : {Ip : Type 0} → Net Ip → Run ScanResult
  unfolding try_scan assert_safe_scan_url
  scan net =
      assert_safe_scan_url net scan_guard request.start_url >>= λ url. returned (catching try_scan)

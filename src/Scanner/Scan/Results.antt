-- ===== src/Scanner/Scan/Results.antt =====
-- What a scan reports of the pages that it crawled.
use mathlib.Core.Path.{fun_ext}
use mathlib.Core.List.{append_assoc, append-nil}
use qa_lab.Base.{
  ℕ, List, [], ◌∷◌, ◌++◌, map, Bool, true, false, none, some, ◌≡◌, refl, sym, ap, ◌∙◌, ◌+◌, arith,
  length,
}
use qa_lab.Scanner.Findings.{Finding}
use qa_lab.Scanner.Runs.{Run, returned, threw, ◌>>=◌, throw_if, abort_error}
use qa_lab.Scanner.Crawler.{Page, Crawl, crawl_site}
use qa_lab.Scanner.Crawler.Laws.{collect}
use qa_lab.Scanner.Crawler.Streaming.{crawl_site-folded, fold, folded, calls, map_run}
use qa_lab.Scanner.RuleEngine.{Rule, run_per_page_rules, collect_pages, load_rules_with_plugins}
use qa_lab.Scanner.Scan.{
  Host, ScanRequest, ScanResult, SiteContext, Progress, no_progress, record_page, on_page, try_scan,
  limited, crawl_pages, finish_scan, site, loaded,
}

module _ {P S E : Type 0} (host : Host P S E) (request : ScanRequest)
    (rules : List (Rule P (SiteContext E) S)) where
  -- The findings of all pages, in their order.
  unfoldable pub all_page_findings : List P → List Finding
  all_page_findings [] = []
  all_page_findings (page ∷ pages) =
      run_per_page_rules page (site host request none) rules ++ all_page_findings pages

  -- The pages taken together, after the crawl.
  pub batch : List Page → Progress S
  batch pages = record {
    page_count = length pages;
    findings = all_page_findings (map host.normalize pages);
    summaries = collect_pages (map host.normalize pages) rules [];
  }

  pub with_batch : Crawl (List Page) → Crawl (Progress S)
  with_batch c = record {
    visited = c.visited;
    level = c.level;
    page_count = c.page_count;
    truncated = c.truncated;
    robots_blocked = c.robots_blocked;
    handed = batch c.handed;
  }

  abbrev step : Progress S → Page → Progress S
  step s page = record_page host request rules s page

  fold-record_page :
      (s : Progress S) (pages : List Page)
      → fold host.web (limited host request) request.start_url step no_progress s pages ≡ record {
        page_count = s.page_count + length pages;
        findings = s.findings ++ all_page_findings (map host.normalize pages);
        summaries = collect_pages (map host.normalize pages) rules s.summaries;
      }
  unfolding record_page all_page_findings collect_pages
  fold-record_page s [] =
      let n : s.page_count ≡ s.page_count + length {A = Page} [] = omega arith in
      let fs = sym (append-nil s.findings) in
      λ i. record { page_count = n i; findings = fs i; summaries = s.summaries }
  fold-record_page s (page ∷ pages) =
      let found = run_per_page_rules (host.normalize page) (site host request none) rules in
      let n : s.page_count + 1 + length pages ≡ s.page_count + length (page ∷ pages) =
        omega arith in
      let fs = append_assoc s.findings found (all_page_findings (map host.normalize pages)) in
      fold-record_page (step s page) pages ∙ (λ i. record {
        page_count = n i;
        findings = fs i;
        summaries = collect_pages (map host.normalize (page ∷ pages)) rules s.summaries;
      })

  zero_start :
      (pages : List Page)
      → ◌≡◌ {A = Progress S}
          (record {
            page_count = 0 + length pages;
            findings = [] ++ all_page_findings (map host.normalize pages);
            summaries = collect_pages (map host.normalize pages) rules [];
          })
          (batch pages)
  unfolding batch
  zero_start pages =
      let n : 0 + length pages ≡ length pages = omega arith in
      λ i. record {
        page_count = n i;
        findings = all_page_findings (map host.normalize pages);
        summaries = collect_pages (map host.normalize pages) rules [];
      }

  -- Without an abort the callback never throws.
  on_page-calls :
      ((n : ℕ) → host.aborted_on n ≡ false)
      → on_page host request rules
        ≡ calls host.web (limited host request) request.start_url step no_progress
  unfolding on_page
  on_page-calls h = fun_ext (λ s. fun_ext (λ raw. rw (h s.page_count) refl))

  crawled :
      (r : Run (Crawl (List Page)))
      → (map_run (folded host.web (limited host request) request.start_url step no_progress) r
          >>= λ c. finish_scan host request rules c)
        ≡ (r >>= λ c. finish_scan host request rules (with_batch c))
  unfolding with_batch batch
  crawled (threw e) = refl
  crawled (returned c) =
      ap
        (λ p. finish_scan host request rules (record {
          visited = c.visited;
          level = c.level;
          page_count = c.page_count;
          truncated = c.truncated;
          robots_blocked = c.robots_blocked;
          handed = p;
        }))
        (fold-record_page no_progress c.handed ∙ zero_start c.handed)

  pass : (b : Bool) (r : Run ScanResult) → b ≡ false → (throw_if b abort_error >>= λ u. r) ≡ r
  pass true r h = absurd (cc h)
  pass false r h = refl

  -- If the signal is never aborted and the rules can be loaded, the scan is the same as crawling
  -- all pages first and then taking them together: it counts them, runs the rules page by page,
  -- collects the summaries of all of them, and ends as the scan does.
  pub try_scan-batch :
      ((n : ℕ) → host.aborted_on n ≡ false)
      → host.aborted ≡ false
      → load_rules_with_plugins host.built_in host.plugins ≡ some rules
      → try_scan host request ≡ (
          crawl_site host.web (limited host request) request.start_url collect host.start_path []
          >>= λ c. finish_scan host request rules (with_batch c))
  unfolding try_scan
  try_scan-batch h quiet l =
      let o = limited host request in
      let web = host.web in
      let url = request.start_url in
      pass host.aborted
        (loaded host request (load_rules_with_plugins host.built_in host.plugins) >>= λ rs.
          (crawl_pages host request rs >>= λ c. finish_scan host request rs c))
        quiet
      ∙ ap
          (λ x. loaded host request x >>= λ rs.
            (crawl_pages host request rs >>= λ c. finish_scan host request rs c))
          l
      ∙ ap
          (λ f. crawl_site web o url f host.start_path no_progress >>= λ c.
            finish_scan host request rules c)
          (on_page-calls h)
      ∙ ap (λ r. r >>= λ c. finish_scan host request rules c)
          (crawl_site-folded web o url step no_progress host.start_path)
      ∙ crawled (crawl_site web o url collect host.start_path [])

-- ===== src/Scanner/Rules/Performance.antt =====
-- src/rules/performanceRules.js
pub mod Cards
use qa_lab.Base.{
  ℕ, List, [], ◌∷◌, ◌++◌, Bool, false, not, ◌&&◌, ◌||◌, Option, none, some, Text, codes,
  if◌then◌else◌, ltb, ◌*◌,
}
use qa_lab.Scanner.Findings.{Finding}
use qa_lab.Scanner.Rules.{RulePage, Header, Script, header_value, is_empty, when}
use qa_lab.Scanner.Rules.Performance.Cards.{perf001, perf002, perf003, perf004, perf005, perf006}

-- COMPRESSION_MIN_SIZE_BYTES
abbrev pub compression_min_size_bytes : ℕ
compression_min_size_bytes = 1024

-- LARGE_PAGE_THRESHOLD_BYTES
abbrev pub large_page_threshold_bytes : ℕ
large_page_threshold_bytes = 500 * 1024

abbrev check_time : Text → Option ℕ → List Finding
check_time url none = []
check_time url (some t) = if ltb 5000 t then perf001 url ∷ [] else when (ltb 2000 t) (perf002 url)

-- `page.headers || {}`
abbrev given_headers : Option (List Header) → List Header
given_headers none = []
given_headers (some hs) = hs

abbrev is_blocking : Script → Bool
is_blocking s = s.in_head && not (is_empty s.src) && not s.is_async && not s.is_defer

abbrev any_blocking : List Script → Bool
any_blocking [] = false
any_blocking (s ∷ ss) = is_blocking s || any_blocking ss

-- `runPerPage` of the performance rules
unfoldable pub performance_findings : RulePage → List Finding
unfolding header_value
performance_findings page =
    let hs = given_headers page.headers in
    check_time page.url page.response_time
    ++ when
        (ltb compression_min_size_bytes page.html_size
          && is_empty (header_value (codes "content-encoding") hs))
        (perf003 page.url)
    ++ when (is_empty (header_value (codes "cache-control") hs)) (perf004 page.url)
    ++ when (ltb large_page_threshold_bytes page.html_size) (perf005 page.url)
    ++ when (any_blocking page.scripts) (perf006 page.url)

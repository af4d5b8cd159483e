-- ===== src/Tests/Network.antt =====
-- The crawl, a scan, the guard of requests and the pool at example data.
use qa_lab.Base.{
  ℕ, List, [], ◌∷◌, Bool, true, false, Option, none, some, Text, codes, ◌≡◌, ◌≤◌, ◌<◌, ◌+◌, ◌*◌,
  inl, inr, refl, arith, if◌then◌else◌, length, ltb, ◌==◌, ◌%◌, ◌/◌, ◌&&◌, Bool-cases, or_default,
  subst, ap,
}
use qa_lab.Base.Texts.{text_eq}
use qa_lab.Scanner.Runs.{Run, returned, Returns, Ensures}
use qa_lab.Scanner.Urls.{Url, UrlParser}
use qa_lab.Scanner.Crawler.{Web, Page, CrawlOptions, crawl_site}
use qa_lab.Scanner.Crawler.Laws.{collect, HasOwnPaths, crawl_site-HasOwnPaths}
use qa_lab.Scanner.Crawler.Ending.{IsReported, NotFuel, crawl_site-ends}
use qa_lab.Scanner.SsrfGuard.{
  IpLibrary, Net, assert_safe_scan_url, is_blocked_ip, is_blocked_within, embedded_ipv4, dotted,
  private_allowed, is_blocked_parsed,
}
use qa_lab.Scanner.SsrfGuard.Safety.{IsSafe, assert_safe_scan_url-IsSafe}
use qa_lab.Scanner.SsrfGuard.Addresses.{IsIpv4, is_blocked_ip-inner}
use qa_lab.Scanner.SafeHttp.{Response, Connection, HttpOptions, guard_options, safe_request}
use qa_lab.Scanner.SafeHttp.Pinning.{AllGood, safe_request-pinned}
use qa_lab.Scanner.Pool.{
  start, run, mapped, all_finished, worker_count, step, move, take_next, store,
}
use qa_lab.Scanner.Pool.Cells.{get}
use qa_lab.Scanner.Pool.Order.{run-map}
use qa_lab.Scanner.Pool.Progress.{Effective, run-ends}

-- A URL of the example site: its path is the text itself.
abbrev pub url_at : Text → Url
url_at path = record {
  href = path;
  protocol = codes "https:";
  username = [];
  password = [];
  hostname = codes "shop.example";
  port = [];
  pathname = path;
  search = [];
}

abbrev pub urls : UrlParser
urls = record { parse = λ t. some (url_at t); resolve = λ link base. some (url_at link) }

-- Three pages that link to each other.
abbrev pub links : Text → List Text
links body =
    if text_eq body (codes "/") then codes "/a" ∷ codes "/b/" ∷ [] else codes "/" ∷ codes "/c" ∷ []

abbrev pub web : Web
web = record {
  urls = urls;
  get = λ url. some url;
  links_in = links;
  aborted = λ n. false;
  aborted_at = λ url. false;
}

abbrev pub options : CrawlOptions
options = record {
  max_depth = 2;
  max_pages = 3;
  includes = [];
  excludes = [];
  is_allowed = λ path. true;
  sitemap_urls = [];
}

abbrev pub root : Text
root = codes "/"

crawl_site-HasOwnPaths_example :
    Returns
      (λ c. HasOwnPaths web options root root c.handed)
      (crawl_site web options root collect root [])
crawl_site-HasOwnPaths_example = crawl_site-HasOwnPaths web options root root

abbrev tally : ℕ → Page → ℕ
tally n page = n + 1

abbrev tally_run : ℕ → Page → Run ℕ
tally_run n page = returned (n + 1)

crawl_site-ends_example :
    Ensures
      (IsReported web options root tally_run (λ s page. tt))
      NotFuel
      (crawl_site web options root tally_run root 0)
crawl_site-ends_example = crawl_site-ends web options root tally_run (λ s page. tt) root 0

-- Addresses by their first character: one that starts with a colon is an IPv6 address that holds
-- 10.0.0.1, and 10.0.0.1 lies in the range of 10.0.0.0.
abbrev parse_ip : Text → Option Text
parse_ip [] = none
parse_ip (c ∷ t) = some (c ∷ t)

abbrev starts_with_colon : Text → Bool
starts_with_colon [] = false
starts_with_colon (c ∷ t) = c == 58

abbrev ip_library : IpLibrary Text
ip_library = record {
  parse = parse_ip;
  is_ipv4 = λ ip. if starts_with_colon ip then false else true;
  matches = λ ip base prefix. text_eq base (codes "10.0.0.0") && text_eq ip (codes "10.0.0.1");
  mapped_ipv4 = λ ip. if starts_with_colon ip then some (codes "10.0.0.1") else none;
  part = λ ip i. 0;
}

mapped_lem : (ip t : Text) → ip_library.mapped_ipv4 ip ≡ some t → IsIpv4 ip_library t
mapped_lem [] t h = absurd (cc h)
mapped_lem (c ∷ ip) t h = elim (Bool-cases (c == 58)) [
  | inl e ↦
      subst (IsIpv4 ip_library) (ap (λ o. or_default o t) (rw e at h))
        (codes "10.0.0.1", refl, refl)
  | inr e ↦ absurd (cc (rw e at h))
]

digit : (n : ℕ) (t : Text) → n < 10 → IsIpv4 ip_library ((48 + n) ∷ t)
digit n t h =
    let e : ((48 + n) == 58) ≡ false = ground (arith, h) in ((48 + n) ∷ t, refl, rw e refl)

dotted_lem : (hi lo : ℕ) → IsIpv4 ip_library (dotted hi lo)
unfolding dotted
dotted_lem hi lo =
    let n = hi / 256 % 256 in
    elim (Bool-cases (ltb n 10)) [
      | inl a ↦ rw a (digit n _ (ground (arith, a)))
      | inr a ↦ elim (Bool-cases (ltb n 100)) [
        | inl b ↦ rw (a, b) (digit (n / 10) _ (ground (arith, b)))
        | inr b ↦ rw (a, b) (digit (n / 100) _ (omega arith))
      ]
    ]

blocked_lem : is_blocked_ip ip_library (codes "10.0.0.1") ≡ true
unfolding is_blocked_ip is_blocked_within is_blocked_parsed text_eq
blocked_lem = refl

is_blocked_ip-inner_example : is_blocked_ip ip_library (codes ":1") ≡ true
unfolding embedded_ipv4
is_blocked_ip-inner_example =
    is_blocked_ip-inner ip_library mapped_lem dotted_lem (codes ":1") (codes "10.0.0.1")
      (codes ":1") refl refl (inl refl) blocked_lem

-- A host whose name resolves to one address.
abbrev net : Net Text
net = record {
  ips = ip_library;
  urls = urls;
  lookup = λ host. some (codes "93.184.216.34" ∷ []);
  is_ip = λ host. false;
  lower_case = λ t. t;
  number = λ t. 0;
  is_blank = λ t. false;
  is_production = true;
  private_network_flag = false;
}

abbrev http_options : HttpOptions
http_options = record {
  max_redirects = 5;
  allow_http = true;
  allowed_ports = none;
  allow_https_downgrade = false;
}

public_lem : (hop : ℕ) → private_allowed net (guard_options http_options) ≡ false
unfolding private_allowed
public_lem hop = refl

assert_safe_scan_url-IsSafe_example :
    Returns
      (IsSafe net (guard_options http_options))
      (assert_safe_scan_url net (guard_options http_options) root)
assert_safe_scan_url-IsSafe_example =
    assert_safe_scan_url-IsSafe net (guard_options http_options) (public_lem 0) refl root

-- The first answer redirects, the next does not.
abbrev answer : ℕ → Connection → Option Response
answer hop c =
    some (record { status = if hop == 0 then 302 else 200; location = codes "/login"; body = [] })

abbrev nets : ℕ → Net Text
nets hop = net

abbrev never : ℕ → Bool
never hop = false

safe_request-pinned_example :
    AllGood nets never answer http_options public_lem 0
      ((safe_request nets never answer http_options root).opened)
    × (length ((safe_request nets never answer http_options root).opened) ≤ 6)
safe_request-pinned_example = safe_request-pinned nets never answer http_options public_lem root

abbrev add : ℕ → ℕ → ℕ
add a i = a + i

abbrev items : List ℕ
items = 10 ∷ 20 ∷ 30 ∷ []

-- Two workers, the second of which ends its first item before the first does.
abbrev schedule : List ℕ
schedule = 0 ∷ 1 ∷ 1 ∷ 1 ∷ 0 ∷ 0 ∷ 1 ∷ 1 ∷ []

all_done : all_finished ((run add items schedule (start add items 2)).workers) ≡ true
unfolding run start all_finished worker_count step move take_next store
all_done = refl

run-map_example :
    (length ((run add items schedule (start add items 2)).results) ≡ 3)
    × ((i : ℕ)
        → i < 3
        → get i ((run add items schedule (start add items 2)).results)
          ≡ some (mapped add items i (get i items)))
run-map_example = run-map add items 2 schedule all_done

effective_lem : Effective add items schedule (start add items 2)
unfolding Effective start worker_count step move take_next store
effective_lem = (refl, (refl, (refl, (refl, (refl, (refl, (refl, (refl, tt))))))))

run-ends_example :
    (length schedule ≤ 2 * length items + worker_count 2 (length items))
    × ((length schedule ≡ 2 * length items + worker_count 2 (length items))
        → all_finished ((run add items schedule (start add items 2)).workers) ≡ true)
run-ends_example = run-ends add items 2 schedule effective_lem

-- ===== src/Scanner/Crawler.antt =====
-- The breadth-first crawl: src/siteCrawler.js with src/pageFetcher.js. One level is fetched by
-- src/utils/concurrency.js, which keeps the order of its items; here its pages are fetched in that
-- order. The waits between requests change no result and are left out.
pub mod Paths
pub mod Invariant
pub mod Laws
pub mod Ending
pub mod Streaming
use qa_lab.Base.{
  ℕ, zero, suc, List, [], ◌∷◌, ◌++◌, Bool, true, false, not, ◌&&◌, ◌||◌, Option, none, some, Text,
  if◌then◌else◌, ltb, leb, ◌==◌, ◌+◌, ◌-◌, length, take,
}
use qa_lab.Scanner.Findings.{mem_text}
use qa_lab.Scanner.Runs.{
  Run, returned, threw, ◌>>=◌, throw_if, or_invalid, abort_error, out_of_fuel,
}
use qa_lab.Scanner.Urls.{Url, UrlParser, normalize_url}

-- A page that waits to be fetched.
pub record Item : Type 0 where
  pub url : Text
  pub depth : ℕ

pub record Page : Type 0 where
  pub url : Text
  pub depth : ℕ
  pub raw_links : List Text

-- What the crawl meets outside of this code: the URL parser, the HTTP client (none where the
-- request fails), the HTML parser, and when the caller's signal is aborted: by the number of pages
-- fetched at the head of the loop, and by the URL where a request is about to start.
pub record Web : Type 0 where
  pub urls : UrlParser
  pub get : Text → Option Text
  pub links_in : Text → List Text
  pub aborted : ℕ → Bool
  pub aborted_at : Text → Bool

-- The options of the crawl; `includes` and `excludes` are the tests of the patterns.
pub record CrawlOptions : Type 0 where
  pub max_depth : ℕ
  pub max_pages : ℕ
  pub includes : List (Text → Bool)
  pub excludes : List (Text → Bool)
  -- `isAllowed(robotsRules, path)`, always true where robots.txt is not respected.
  pub is_allowed : Text → Bool
  pub sitemap_urls : List Text

abbrev pub matches_any : List (Text → Bool) → Text → Bool
matches_any [] path = false
matches_any (p ∷ ps) path = p path || matches_any ps path

abbrev pub is_none_given : List (Text → Bool) → Bool
is_none_given [] = true
is_none_given (p ∷ ps) = false

unfoldable pub passes_filters : CrawlOptions → Text → Bool
passes_filters o path =
    not (matches_any o.excludes path) && (is_none_given o.includes || matches_any o.includes path)

abbrev pub links_of : Web → Option Text → List Text
links_of web none = []
links_of web (some body) = web.links_in body

-- `fetchPage`: a request that fails gives a page without links.
unfoldable pub fetch_page : Web → Item → Page
fetch_page web item = record {
  url = item.url;
  depth = item.depth;
  raw_links = links_of web (web.get item.url);
}

unfoldable pub fetch_level : Web → List Item → Run (List Page)
unfolding fetch_page
fetch_level web [] = returned []
fetch_level web (item ∷ items) = throw_if (web.aborted_at item.url) abort_error >>= λ _.
    fetch_level web items >>= λ pages. returned (fetch_page web item ∷ pages)

-- What the search for the next level changes.
pub record Frontier : Type 0 where
  pub visited : List Text
  pub next : List Item
  pub robots_blocked : ℕ

module _ (web : Web) (o : CrawlOptions) (start_url : Text) where
  -- The path of a candidate, where there is one that is new and passes the filters.
  unfoldable pub candidate : Frontier → Option Text → Option Text
  unfolding mem_text passes_filters
  candidate fr none = none
  candidate fr (some []) = none
  candidate fr (some (c ∷ p)) =
      if leb o.max_pages (length fr.next)
      then none
      else if mem_text (c ∷ p) fr.visited
      then none
      else if not (passes_filters o (c ∷ p))
      then none
      else some (c ∷ p)

  abbrev pub visit : Text → Frontier → Frontier
  visit path fr = record fr { visited = path ∷ fr.visited }

  abbrev pub enqueue : Frontier → ℕ → Url → Frontier
  enqueue fr depth url = record fr {
    next = fr.next ++ (record { url = url.href; depth = depth }) ∷ [];
  }

  unfoldable pub admit : Frontier → Text → ℕ → Run Frontier
  admit fr path depth =
      if o.is_allowed path
      then (or_invalid (web.urls.resolve path start_url) >>= λ url.
          returned (enqueue (visit path fr) depth url))
      else returned (visit path (record fr { robots_blocked = fr.robots_blocked + 1 }))

  abbrev pub admit_found : Frontier → ℕ → Option Text → Run Frontier
  admit_found fr depth none = returned fr
  admit_found fr depth (some path) = admit fr path depth

  -- `addCandidate`
  unfoldable pub add_candidate : Frontier → Option Text → ℕ → Run Frontier
  unfolding candidate admit
  add_candidate fr path depth = admit_found fr depth (candidate fr path)

  -- The loop over the links of one base URL.
  unfoldable pub add_links : Frontier → Text → ℕ → List Text → Run Frontier
  unfolding add_candidate normalize_url
  add_links fr base depth [] = returned fr
  add_links fr base depth (link ∷ links) =
      if leb o.max_pages (length fr.next)
      then returned fr
      else add_candidate fr (normalize_url web.urls base link) depth >>= λ fr'.
          add_links fr' base depth links

  -- The loop over the pages of the level.
  unfoldable pub add_pages : Frontier → List Page → Run Frontier
  unfolding add_links
  add_pages fr [] = returned fr
  add_pages fr (page ∷ pages) =
      (if leb o.max_depth page.depth
        then returned fr
        else add_links fr page.url (page.depth + 1) page.raw_links)
      >>= λ fr'. add_pages fr' pages

  -- The sitemap's URLs join the first level.
  unfoldable pub add_sitemap : Frontier → ℕ → Run Frontier
  unfolding add_links
  add_sitemap fr depth =
      if depth == 0 && leb 1 o.max_depth
      then add_links fr start_url 1 o.sitemap_urls
      else returned fr

-- `for (const page of fetchedLevel) await onPage(page)`
unfoldable pub hand_over : {S : Type 0} → (S → Page → Run S) → S → List Page → Run S
hand_over on_page s [] = returned s
hand_over on_page s (page ∷ pages) = on_page s page >>= λ s'. hand_over on_page s' pages

-- The state of the crawl's loop, with the state of the caller's `onPage`.
pub record Crawl (S : Type 0) : Type 0 where
  pub visited : List Text
  pub level : List Item
  pub page_count : ℕ
  pub truncated : Bool
  pub robots_blocked : ℕ
  pub handed : S

abbrev pub is_nil : List Item → Bool
is_nil [] = true
is_nil (i ∷ is) = false

abbrev pub depth_of : List Item → ℕ
depth_of [] = 0
depth_of (i ∷ is) = i.depth

module _ {S : Type 0} (web : Web) (o : CrawlOptions) (start_url : Text)
    (on_page : S → Page → Run S) where
  -- `while (currentLevel.length > 0 && pageCount < maxPages)`
  abbrev pub goes_on : Crawl S → Bool
  goes_on c = not (is_nil c.level) && ltb c.page_count o.max_pages

  -- `currentLevel.slice(0, remainingBudget)`
  abbrev pub to_fetch : Crawl S → List Item
  to_fetch c = take (o.max_pages - c.page_count) c.level

  abbrev pub empty_frontier : Crawl S → Frontier
  empty_frontier c = record { visited = c.visited; next = []; robots_blocked = c.robots_blocked }

  -- The search for the next level, from the pages of this one.
  unfoldable pub frontier : Crawl S → List Page → Run Frontier
  unfolding add_pages add_sitemap
  frontier c pages = add_pages web o start_url (empty_frontier c) pages >>= λ fr.
      add_sitemap web o start_url fr (depth_of (to_fetch c))

  abbrev pub next_state : Crawl S → List Page → S → Frontier → Crawl S
  next_state c pages s fr = record {
    visited = fr.visited;
    level = fr.next;
    page_count = c.page_count + length pages;
    truncated = c.truncated || ltb (length (to_fetch c)) (length c.level);
    robots_blocked = fr.robots_blocked;
    handed = s;
  }

  -- What is left to do with a level that is fetched.
  abbrev pub search_links : Crawl S → List Page → S → Run (Crawl S)
  search_links c pages s = frontier c pages >>= λ fr. returned (next_state c pages s fr)

  abbrev pub process_level : Crawl S → List Page → Run (Crawl S)
  process_level c pages = hand_over on_page c.handed pages >>= λ s. search_links c pages s

  -- The body of the loop.
  unfoldable pub crawl_level : Crawl S → Run (Crawl S)
  unfolding fetch_level hand_over frontier
  crawl_level c = throw_if (web.aborted c.page_count) abort_error >>= λ _.
      (fetch_level web (to_fetch c) >>= λ pages. process_level c pages)

  unfoldable pub crawl_from : ℕ → Crawl S → Run (Crawl S)
  unfolding crawl_level
  crawl_from zero c = if goes_on c then threw out_of_fuel else returned c
  crawl_from (suc fuel) c =
      if goes_on c then (crawl_level c >>= λ c'. crawl_from fuel c') else returned c

  -- `if (currentLevel.length > 0) truncated = true`
  abbrev pub finish : Crawl S → Crawl S
  finish c = record c { truncated = c.truncated || not (is_nil c.level) }

  -- The state before the loop: the seed waits, and is visited.
  abbrev pub start : Text → S → Crawl S
  start start_path s = record {
    visited = start_path ∷ [];
    level = (record { url = start_url; depth = 0 }) ∷ [];
    page_count = 0;
    truncated = false;
    robots_blocked = 0;
    handed = s;
  }

  -- `crawlSite`: each round fetches a page, so that the bound on pages is fuel enough.
  unfoldable pub crawl_site : Text → S → Run (Crawl S)
  unfolding crawl_from
  crawl_site start_path s = crawl_from o.max_pages (start start_path s) >>= λ c. returned (finish c)

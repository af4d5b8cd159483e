-- ===== src/Scanner/Crawler/Ending.antt =====
-- The crawl ends within its bound on pages, whatever the site and the callback do.
use qa_lab.Base.{
  ℕ, zero, suc, List, [], ◌∷◌, true, false, ◌&&◌, ◌≡◌, ◌≢◌, refl, Text, arith, length, take,
  Bool-cases, inl, inr, ◌≤◌, ◌<◌, ◌+◌, ◌-◌, if◌then◌else◌, leb, ◌==◌, Option,
}
use qa_lab.Base.Tests.{length-take, Option-cases}
use qa_lab.Scanner.Urls.{normalize_url}
use qa_lab.Scanner.Runs.{
  Run, Fault, returned, ◌>>=◌, abort_error, invalid_url, out_of_fuel, Ensures, Ensures-bind,
}
use qa_lab.Scanner.Crawler.{
  Web, Item, Page, CrawlOptions, Frontier, Crawl, fetch_page, fetch_level, hand_over, frontier,
  to_fetch, goes_on, empty_frontier, crawl_level, crawl_from, crawl_site, add_pages, add_sitemap,
  add_links, add_candidate, admit, depth_of, finish, start, next_state, process_level, is_nil,
  search_links, candidate,
}

abbrev pub NotFuel : Fault → Type 0
NotFuel e = e ≢ out_of_fuel

-- It may throw, but not for want of fuel.
abbrev pub Ends : {A : Type 0} → Run A → Type 0
Ends r = Ensures (λ a. Unit {0}) NotFuel r

Ends-bind :
    {A B : Type 0} (r : Run A) (f : A → Run B) → Ends r → ((a : A) → Ends (f a)) → Ends (r >>= f)
Ends-bind r f h k = Ensures-bind (λ a. Unit {0}) (λ b. Unit {0}) NotFuel r f h (λ a u. k a)

invalid_lem : NotFuel invalid_url
invalid_lem h = cc

abort_lem : NotFuel abort_error
abort_lem h = cc

module _ (web : Web) (o : CrawlOptions) (start_url : Text) where
  admit-Ends : (fr : Frontier) (p : Text) (depth : ℕ) → Ends (admit web o start_url fr p depth)
  unfolding admit
  admit-Ends fr p depth = elim (Bool-cases (o.is_allowed p)) [
    | inl a ↦ elim (Option-cases (web.urls.resolve p start_url)) [
      | inl n ↦ rw (a, n) invalid_lem
      | inr (url, r) ↦ rw (a, r) tt
    ]
    | inr b ↦ rw b tt
  ]

  add_candidate-Ends :
      (fr : Frontier) (path : Option Text) (depth : ℕ)
      → Ends (add_candidate web o start_url fr path depth)
  unfolding add_candidate
  add_candidate-Ends fr path depth = elim (Option-cases (candidate web o start_url fr path)) [
    | inl n ↦ rw n tt
    | inr (p, e) ↦ rw e (admit-Ends fr p depth)
  ]

  add_links-Ends :
      (fr : Frontier) (base : Text) (depth : ℕ) (links : List Text)
      → Ends (add_links web o start_url fr base depth links)
  unfolding add_links
  add_links-Ends fr base depth [] = tt
  add_links-Ends fr base depth (link ∷ links) =
      elim (Bool-cases (leb o.max_pages (length fr.next))) [
        | inl full ↦ rw full tt
        | inr room ↦ rw room (
            Ends-bind (add_candidate web o start_url fr (normalize_url web.urls base link) depth)
              (λ fr'. add_links web o start_url fr' base depth links)
              (add_candidate-Ends fr (normalize_url web.urls base link) depth)
              (λ fr'. add_links-Ends fr' base depth links))
      ]

  add_pages-Ends : (fr : Frontier) (pages : List Page) → Ends (add_pages web o start_url fr pages)
  unfolding add_pages
  add_pages-Ends fr [] = tt
  add_pages-Ends fr (page ∷ pages) =
      Ends-bind
        (if leb o.max_depth page.depth
          then returned fr
          else add_links web o start_url fr page.url (page.depth + 1) page.raw_links)
        (λ fr'. add_pages web o start_url fr' pages)
        (elim (Bool-cases (leb o.max_depth page.depth)) [
          | inl deep ↦ rw deep tt
          | inr e ↦ rw e (add_links-Ends fr page.url (page.depth + 1) page.raw_links)
        ])
        (λ fr'. add_pages-Ends fr' pages)

  add_sitemap-Ends : (fr : Frontier) (depth : ℕ) → Ends (add_sitemap web o start_url fr depth)
  unfolding add_sitemap
  add_sitemap-Ends fr depth = elim (Bool-cases (depth == 0 && leb 1 o.max_depth)) [
    | inl e ↦ rw e (add_links-Ends fr start_url 1 o.sitemap_urls)
    | inr e ↦ rw e tt
  ]

  fetch_level-length :
      (items : List Item)
      → Ensures (λ pages. length pages ≡ length items) NotFuel (fetch_level web items)
  unfolding fetch_level
  fetch_level-length [] = refl
  fetch_level-length (i ∷ items) = elim (Bool-cases (web.aborted_at i.url)) [
    | inl e ↦ rw e abort_lem
    | inr e ↦ rw e (
        Ensures-bind (λ pages. length pages ≡ length items)
          (λ pages. length pages ≡ suc (length items)) NotFuel (fetch_level web items)
          (λ pages. returned (fetch_page web i ∷ pages)) (fetch_level-length items)
          (λ pages h. omega (arith, h)))
  ]

module _ {S : Type 0} (web : Web) (o : CrawlOptions) (start_url : Text) (on_page : S → Page → Run S)
    (ends : (s : S) (page : Page) → Ends (on_page s page)) where
  hand_over-Ends : (s : S) (pages : List Page) → Ends (hand_over on_page s pages)
  unfolding hand_over
  hand_over-Ends s [] = tt
  hand_over-Ends s (page ∷ pages) =
      Ends-bind (on_page s page) (λ s'. hand_over on_page s' pages) (ends s page)
        (λ s'. hand_over-Ends s' pages)

  -- A round fetches at least one page, and no more than are left.
  Advances : Crawl S → Crawl S → Type 0
  Advances c c' = (c.page_count < c'.page_count) × (c'.page_count ≤ o.max_pages)

  advance :
      (k : ℕ) (level : List Item)
      → 0 < k
      → is_nil level ≡ false
      → (0 < length (take k level)) × (length (take k level) ≤ k)
  advance zero level h e = absurd (omega arith)
  advance (suc k) [] h e = absurd (cc)
  advance (suc k) (i ∷ level) h e = (omega arith, length-take (suc k) (i ∷ level))

  process_level-Advances :
      (c : Crawl S) (pages : List Page)
      → goes_on web o start_url on_page c ≡ true
      → length pages ≡ length (to_fetch web o start_url on_page c)
      → Ensures (Advances c) NotFuel (process_level web o start_url on_page c pages)
  unfolding frontier Advances
  process_level-Advances c pages g e =
      let a =
        advance (o.max_pages - c.page_count) c.level (ground (arith, g)) (ground (arith, g)) in
      Ensures-bind (λ s. Unit {0}) (Advances c) NotFuel (hand_over on_page c.handed pages)
        (λ s. search_links web o start_url on_page c pages s) (hand_over-Ends c.handed pages)
        (λ s u.
          Ensures-bind (λ fr. Unit {0}) (Advances c) NotFuel
            (frontier web o start_url on_page c pages)
            (λ fr. returned (next_state web o start_url on_page c pages s fr))
            (Ends-bind (add_pages web o start_url (empty_frontier web o start_url on_page c) pages)
              (λ fr. add_sitemap web o start_url fr (depth_of (to_fetch web o start_url on_page c)))
              (add_pages-Ends web o start_url (empty_frontier web o start_url on_page c) pages)
              (λ fr.
                add_sitemap-Ends web o start_url fr
                  (depth_of (to_fetch web o start_url on_page c))))
            (λ fr v. (omega (arith, a.0, e), ground (arith, a.1, e, g))))

  crawl_level-Advances :
      (c : Crawl S)
      → goes_on web o start_url on_page c ≡ true
      → Ensures (Advances c) NotFuel (crawl_level web o start_url on_page c)
  unfolding crawl_level
  crawl_level-Advances c g =
      let items = to_fetch web o start_url on_page c in
      elim (Bool-cases (web.aborted c.page_count)) [
        | inl e ↦ rw e abort_lem
        | inr e ↦ rw e (
            Ensures-bind (λ pages. length pages ≡ length items) (Advances c) NotFuel
              (fetch_level web items) (λ pages. process_level web o start_url on_page c pages)
              (fetch_level-length web o start_url items)
              (λ pages k. process_level-Advances c pages g k))
      ]

  -- Within the bound, and at an end of the loop.
  Over : Crawl S → Type 0
  Over c = (c.page_count ≤ o.max_pages) × (goes_on web o start_url on_page c ≡ false)

  crawl_from-Over :
      (fuel : ℕ) (c : Crawl S)
      → c.page_count ≤ o.max_pages
      → o.max_pages ≤ fuel + c.page_count
      → Ensures Over NotFuel (crawl_from web o start_url on_page fuel c)
  unfolding crawl_from Over Advances
  crawl_from-Over zero c le enough = elim (Bool-cases (goes_on web o start_url on_page c)) [
    | inl e ↦ absurd (ground (arith, e, enough))
    | inr e ↦ rw e (le, e)
  ]
  crawl_from-Over (suc fuel) c le enough = elim (Bool-cases (goes_on web o start_url on_page c)) [
    | inl e ↦ rw e (
        Ensures-bind (Advances c) Over NotFuel (crawl_level web o start_url on_page c)
          (λ c'. crawl_from web o start_url on_page fuel c') (crawl_level-Advances c e)
          (λ c' a. crawl_from-Over fuel c' a.1 (omega (arith, a.0, enough))))
    | inr e ↦ rw e (le, e)
  ]

  -- What the result says of its own end.
  pub IsReported : Crawl S → Type 0
  IsReported c =
      (c.page_count ≤ o.max_pages)
      × ((c.truncated ≡ false) → is_nil c.level ≡ true)
      × ((is_nil c.level ≡ false) → c.page_count ≡ o.max_pages)

  -- With a callback that never reports a lack of fuel, the crawl never runs out of the fuel that
  -- its bound on pages gives; if it returns, it has fetched at most that many pages, nothing waits
  -- unless it says that it was cut short, and if something waits it has fetched exactly that many.
  pub crawl_site-ends :
      (start_path : Text) (s : S)
      → Ensures IsReported NotFuel (crawl_site web o start_url on_page start_path s)
  unfolding crawl_site Over IsReported
  crawl_site-ends start_path s =
      let c0 = start web o start_url on_page start_path s in
      Ensures-bind Over IsReported NotFuel (crawl_from web o start_url on_page o.max_pages c0)
        (λ c. returned (finish web o start_url on_page c))
        (crawl_from-Over o.max_pages c0 (omega arith) (omega arith))
        (λ c h. (h.0, λ t. ground (arith, t), λ t. ground (arith, t, h)))

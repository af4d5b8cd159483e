-- ===== src/Scanner/Crawler/Laws.antt =====
-- The whole crawl: no page twice, and none that the filters or robots.txt forbid.
use mathlib.Core.List.{append-nil, append_assoc}
use qa_lab.Base.{
  ℕ, zero, suc, List, [], ◌∷◌, ◌++◌, map, true, ◌≡◌, refl, Text, arith, take, Bool-cases, inl, inr,
  sym, subst, ◌-◌,
}
use qa_lab.Scanner.Findings.{mem_text}
use qa_lab.Scanner.Runs.{Run, returned, Returns, Returns-bind}
use qa_lab.Scanner.Crawler.{
  Web, Item, Page, CrawlOptions, Crawl, fetch_page, fetch_level, hand_over, frontier, to_fetch,
  goes_on, empty_frontier, crawl_level, crawl_from, crawl_site, add_pages, add_sitemap, depth_of,
  finish, start, next_state, process_level,
}
use qa_lab.Scanner.Crawler.Paths.{
  NoDup, AllIn, Along, Along-append, Along-take, NoDup-take, NoDup-left, mem_text_self,
  All-append_take,
}
use qa_lab.Scanner.Crawler.Invariant.{Source, seed, Sound, add_pages-Sound, add_sitemap-Sound}

-- `pages.push(...fetchedLevel)`, the crawl without a callback.
abbrev pub collect : List Page → Page → Run (List Page)
collect pages page = returned (pages ++ page ∷ [])

pub hand_over-collect : (s pages : List Page) → hand_over collect s pages ≡ returned (s ++ pages)
unfolding hand_over
hand_over-collect s [] = rw (append-nil s) refl
hand_over-collect s (p ∷ pages) =
    rw (hand_over-collect (s ++ p ∷ []) pages) (simp append_assoc refl)

module _ (web : Web) where
  fetch_level-map :
      (items : List Item)
      → Returns (λ pages. pages ≡ map (fetch_page web) items) (fetch_level web items)
  unfolding fetch_level
  fetch_level-map [] = refl
  fetch_level-map (i ∷ items) = elim (Bool-cases (web.aborted_at i.url)) [
    | inl e ↦ rw e tt
    | inr e ↦ rw e (
        Returns-bind (λ pages. pages ≡ map (fetch_page web) items)
          (λ pages. pages ≡ fetch_page web i ∷ map (fetch_page web) items) (fetch_level web items)
          (λ pages. returned (fetch_page web i ∷ pages)) (fetch_level-map items)
          (λ pages h. rw h refl))
  ]

module _ (web : Web) (o : CrawlOptions) (start_url start_path : Text) where
  -- A page of the result: what the request for an item of that path gave.
  pub record Fetched (p : Text) (page : Page) : Type 0 where
    pub item : Item
    pub source : Source web o start_url start_path p item
    pub answer : page ≡ fetch_page web item

  Fetched-map :
      (ps : List Text) (items : List Item)
      → Along (Source web o start_url start_path) ps items
      → Along Fetched ps (map (fetch_page web) items)
  unfolding Along
  Fetched-map [] [] h = tt
  Fetched-map [] (i ∷ items) h = absurd h
  Fetched-map (p ∷ ps) [] h = absurd h
  Fetched-map (p ∷ ps) (i ∷ items) h =
      (record { item = i; source = h.0; answer = refl }, Fetched-map ps items h.1)

  -- The paths of the pages fetched so far, and of those that wait.
  pub record Kept (c : Crawl (List Page)) : Type 0 where
    pub fetched : List Text
    pub waiting : List Text
    pub along_fetched : Along Fetched fetched c.handed
    pub along_waiting : Along (Source web o start_url start_path) waiting c.level
    pub apart : NoDup (fetched ++ waiting)
    pub seen : AllIn c.visited (fetched ++ waiting)

  frontier-Sound :
      (before : List Text) (c : Crawl (List Page)) (pages : List Page)
      → NoDup before
      → AllIn c.visited before
      → Returns (Sound web o start_url start_path before) (frontier web o start_url collect c pages)
  unfolding frontier
  frontier-Sound before c pages apart seen =
      let P = Sound web o start_url start_path before in
      Returns-bind P P (add_pages web o start_url (empty_frontier web o start_url collect c) pages)
        (λ fr. add_sitemap web o start_url fr (depth_of (to_fetch web o start_url collect c)))
        (add_pages-Sound web o start_url start_path before
          (empty_frontier web o start_url collect c) pages
          (record {
            paths = [];
            along = unfold Along in tt;
            apart = subst NoDup (sym (append-nil before)) apart;
            seen = subst (AllIn c.visited) (sym (append-nil before)) seen;
          }))
        (λ fr h.
          add_sitemap-Sound web o start_url start_path before fr
            (depth_of (to_fetch web o start_url collect c)) h)

  process_level-Kept :
      (c : Crawl (List Page)) (pages : List Page)
      → Kept c
      → pages ≡ map (fetch_page web) (to_fetch web o start_url collect c)
      → Returns Kept (process_level web o start_url collect c pages)
  process_level-Kept c pages h e =
      let k = o.max_pages - c.page_count in
      let before = h.fetched ++ take k h.waiting in
      let items = to_fetch web o start_url collect c in
      let from =
        Along-take (Source web o start_url start_path) k h.waiting c.level h.along_waiting in
      let s = c.handed ++ pages in
      rw (hand_over-collect c.handed pages) (
        Returns-bind (Sound web o start_url start_path before) Kept
          (frontier web o start_url collect c pages)
          (λ fr. returned (next_state web o start_url collect c pages s fr))
          (frontier-Sound before c pages (NoDup-take h.fetched h.waiting k h.apart)
            (All-append_take (λ p. mem_text p c.visited ≡ true) h.fetched h.waiting k h.seen))
          (λ fr n. record {
            fetched = before;
            waiting = n.paths;
            along_fetched =
                Along-append Fetched h.fetched (take k h.waiting) c.handed pages h.along_fetched
                  (rw e (Fetched-map (take k h.waiting) items from));
            along_waiting = n.along;
            apart = n.apart;
            seen = n.seen;
          }))

  crawl_level-Kept :
      (c : Crawl (List Page)) → Kept c → Returns Kept (crawl_level web o start_url collect c)
  unfolding crawl_level
  crawl_level-Kept c h =
      let items = to_fetch web o start_url collect c in
      elim (Bool-cases (web.aborted c.page_count)) [
        | inl e ↦ rw e tt
        | inr e ↦ rw e (
            Returns-bind (λ pages. pages ≡ map (fetch_page web) items) Kept (fetch_level web items)
              (λ pages. process_level web o start_url collect c pages) (fetch_level-map web items)
              (λ pages k. process_level-Kept c pages h k))
      ]

  crawl_from-Kept :
      (fuel : ℕ) (c : Crawl (List Page))
      → Kept c
      → Returns Kept (crawl_from web o start_url collect fuel c)
  unfolding crawl_from
  crawl_from-Kept zero c h = elim (Bool-cases (goes_on web o start_url collect c)) [
    | inl e ↦ rw e tt
    | inr e ↦ rw e h
  ]
  crawl_from-Kept (suc fuel) c h = elim (Bool-cases (goes_on web o start_url collect c)) [
    | inl e ↦ rw e (
        Returns-bind Kept Kept (crawl_level web o start_url collect c)
          (λ c'. crawl_from web o start_url collect fuel c') (crawl_level-Kept c h)
          (λ c' h'. crawl_from-Kept fuel c' h'))
    | inr e ↦ rw e h
  ]

  -- Each page of the result has a path of its own, from which it was fetched.
  pub HasOwnPaths : List Page → Type 0
  HasOwnPaths pages = (paths : List Text) × NoDup paths × Along Fetched paths pages

  -- In a crawl that returns, the pages were fetched from pairwise different paths: each page is
  -- the answer for the seed, or for a URL that the parser made of a path that the filters and
  -- robots.txt let pass, and none is deeper than the bound on depth.
  pub crawl_site-HasOwnPaths :
      Returns (λ c. HasOwnPaths c.handed) (crawl_site web o start_url collect start_path [])
  unfolding crawl_site HasOwnPaths
  crawl_site-HasOwnPaths =
      let c0 = start web o start_url collect start_path [] in
      Returns-bind Kept (λ c. HasOwnPaths c.handed)
        (crawl_from web o start_url collect o.max_pages c0)
        (λ c. returned (finish web o start_url collect c))
        (crawl_from-Kept o.max_pages c0 (record {
          fetched = [];
          waiting = start_path ∷ [];
          along_fetched = unfold Along in tt;
          along_waiting = unfold Along in (seed refl refl (omega arith), tt);
          apart = unfold NoDup mem_text in (refl, tt);
          seen = (mem_text_self start_path [], tt);
        }))
        (λ c h. (h.fetched, NoDup-left h.fetched h.waiting h.apart, h.along_fetched))

-- ===== src/Scanner/Crawler/Streaming.antt =====
-- The crawl that hands its pages to a callback, against the one that collects them.
use qa_lab.Base.{ℕ, zero, suc, List, [], ◌∷◌, ◌++◌, ◌≡◌, refl, Text, Bool-cases, inl, inr}
use qa_lab.Scanner.Runs.{Run, returned, threw, ◌>>=◌}
use qa_lab.Scanner.Crawler.{
  Web, Page, CrawlOptions, Crawl, Frontier, fetch_level, hand_over, frontier, to_fetch, goes_on,
  crawl_level, crawl_from, crawl_site, finish, start, next_state, process_level,
}
use qa_lab.Scanner.Crawler.Laws.{collect, hand_over-collect}

abbrev pub map_run : {A B : Type 0} → (A → B) → Run A → Run B
map_run g (returned a) = returned (g a)
map_run g (threw e) = threw e

module _ {S : Type 0} (web : Web) (o : CrawlOptions) (start_url : Text) (f : S → Page → S)
    (s0 : S) where
  -- A callback that never throws.
  abbrev pub calls : S → Page → Run S
  calls s page = returned (f s page)

  abbrev pub fold : S → List Page → S
  fold s [] = s
  fold s (page ∷ pages) = fold (f s page) pages

  -- The same state of the loop, with what the callback has made of the pages.
  abbrev pub folded : Crawl (List Page) → Crawl S
  folded c = record {
    visited = c.visited;
    level = c.level;
    page_count = c.page_count;
    truncated = c.truncated;
    robots_blocked = c.robots_blocked;
    handed = fold s0 c.handed;
  }

  fold-append : (s : S) (xs ys : List Page) → fold s (xs ++ ys) ≡ fold (fold s xs) ys
  fold-append s [] ys = refl
  fold-append s (x ∷ xs) ys = fold-append (f s x) xs ys

  hand_over-calls : (s : S) (pages : List Page) → hand_over calls s pages ≡ returned (fold s pages)
  unfolding hand_over
  hand_over-calls s [] = refl
  hand_over-calls s (page ∷ pages) = hand_over-calls (f s page) pages

  search :
      (r : Run Frontier) (c : Crawl (List Page)) (pages : List Page)
      → (r >>= λ fr.
          returned
            (next_state web o start_url calls (folded c) pages (fold (fold s0 c.handed) pages) fr))
        ≡ map_run folded (
            r >>= λ fr.
            returned (next_state web o start_url collect c pages (c.handed ++ pages) fr))
  search (threw e) c pages = refl
  search (returned fr) c pages = rw (fold-append s0 c.handed pages) refl

  process_level-folded :
      (c : Crawl (List Page)) (pages : List Page)
      → process_level web o start_url calls (folded c) pages
        ≡ map_run folded (process_level web o start_url collect c pages)
  process_level-folded c pages =
      rw (hand_over-calls (fold s0 c.handed) pages, hand_over-collect c.handed pages)
        (unfold frontier in search (frontier web o start_url collect c pages) c pages)

  bind_folded :
      {A : Type 0} (r : Run A) (g : A → Run (Crawl S)) (h : A → Run (Crawl (List Page)))
      → ((a : A) → g a ≡ map_run folded (h a))
      → (r >>= g) ≡ map_run folded (r >>= h)
  bind_folded (threw e) g h k = refl
  bind_folded (returned a) g h k = k a

  crawl_level-folded :
      (c : Crawl (List Page))
      → crawl_level web o start_url calls (folded c)
        ≡ map_run folded (crawl_level web o start_url collect c)
  unfolding crawl_level
  crawl_level-folded c = elim (Bool-cases (web.aborted c.page_count)) [
    | inl e ↦ rw e refl
    | inr e ↦ rw e (
        bind_folded (fetch_level web (to_fetch web o start_url collect c))
          (λ pages. process_level web o start_url calls (folded c) pages)
          (λ pages. process_level web o start_url collect c pages)
          (λ pages. process_level-folded c pages))
  ]

  after_level :
      (r : Run (Crawl (List Page))) (g : Crawl S → Run (Crawl S))
      (h : Crawl (List Page) → Run (Crawl (List Page)))
      → ((c : Crawl (List Page)) → g (folded c) ≡ map_run folded (h c))
      → (map_run folded r >>= g) ≡ map_run folded (r >>= h)
  after_level (threw e) g h k = refl
  after_level (returned c) g h k = k c

  finish_lem :
      (r : Run (Crawl (List Page)))
      → (map_run folded r >>= λ c. returned (finish web o start_url calls c))
        ≡ map_run folded (r >>= λ c. returned (finish web o start_url collect c))
  finish_lem (threw e) = refl
  finish_lem (returned c) = refl

  crawl_from-folded :
      (fuel : ℕ) (c : Crawl (List Page))
      → crawl_from web o start_url calls fuel (folded c)
        ≡ map_run folded (crawl_from web o start_url collect fuel c)
  unfolding crawl_from
  crawl_from-folded zero c = elim (Bool-cases (goes_on web o start_url collect c)) [
    | inl e ↦ rw e refl
    | inr e ↦ rw e refl
  ]
  crawl_from-folded (suc fuel) c = elim (Bool-cases (goes_on web o start_url collect c)) [
    | inl e ↦
        rw (e, crawl_level-folded c)
          (after_level (crawl_level web o start_url collect c)
            (λ c'. crawl_from web o start_url calls fuel c')
            (λ c'. crawl_from web o start_url collect fuel c') (λ c'. crawl_from-folded fuel c'))
    | inr e ↦ rw e refl
  ]

  pub crawl_site-folded :
      (start_path : Text)
      → crawl_site web o start_url calls start_path s0
        ≡ map_run folded (crawl_site web o start_url collect start_path [])
  unfolding crawl_site
  crawl_site-folded start_path =
      let c0 = start web o start_url collect start_path [] in
      rw (crawl_from-folded o.max_pages c0)
        (finish_lem (crawl_from web o start_url collect o.max_pages c0))

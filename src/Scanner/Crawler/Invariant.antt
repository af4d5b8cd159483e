-- ===== src/Scanner/Crawler/Invariant.antt =====
-- What the search for the next level keeps: each item it queues comes from a path of its own.
use mathlib.Core.List.{append_assoc}
use qa_lab.Base.{
  ℕ, List, [], ◌∷◌, ◌++◌, true, false, ◌&&◌, Option, none, some, ◌≡◌, refl, Text, arith, length,
  Bool-cases, inl, inr, subst, ◌≤◌, ◌+◌, leb, ◌==◌, if◌then◌else◌,
}
use qa_lab.Base.Tests.{All-append, Option-cases}
use qa_lab.Scanner.Findings.{mem_text}
use qa_lab.Scanner.Runs.{returned, Returns, Returns-bind}
use qa_lab.Scanner.Urls.{Url, normalize_url}
use qa_lab.Scanner.Crawler.{
  Web, Item, Page, CrawlOptions, Frontier, passes_filters, candidate, admit, add_candidate,
  add_links, add_pages, add_sitemap, visit, enqueue,
}
use qa_lab.Scanner.Crawler.Paths.{
  NoDup, NoDup-append, AllIn, AllIn-visit, mem_text_self, fresh, Along, Along-append,
}

module _ (web : Web) (o : CrawlOptions) (start_url start_path : Text) where
  -- Where an item comes from: it is the seed, or a link to a path that the filters and
  -- robots.txt let pass; and it is not deeper than the options say.
  pub data Source (p : Text) (item : Item) : Type 0 where
    seed : p ≡ start_path → item.url ≡ start_url → item.depth ≤ o.max_depth → Source p item
    linked :
        (url : Url)
        → passes_filters o p ≡ true
        → o.is_allowed p ≡ true
        → web.urls.resolve p start_url ≡ some url
        → item.url ≡ url.href
        → item.depth ≤ o.max_depth
        → Source p item

  -- The items queued have paths that differ from each other and from those before, all visited.
  pub record Sound (before : List Text) (fr : Frontier) : Type 0 where
    pub paths : List Text
    pub along : Along Source paths fr.next
    pub apart : NoDup (before ++ paths)
    pub seen : AllIn fr.visited (before ++ paths)

  -- What a candidate that is taken up has passed.
  candidate_passes :
      (fr : Frontier) (path : Option Text) (p : Text)
      → candidate web o start_url fr path ≡ some p
      → (mem_text p fr.visited ≡ false) × (passes_filters o p ≡ true)
  unfolding candidate
  candidate_passes fr none p h = absurd (cc)
  candidate_passes fr (some []) p h = absurd (cc)
  candidate_passes fr (some (c ∷ q)) p h = (ground arith, ground arith)

  visit-Sound :
      (before : List Text) (fr : Frontier) (p : Text) (n : ℕ)
      → Sound before fr
      → Sound before (visit web o start_url p (record fr { robots_blocked = n }))
  visit-Sound before fr p n h = record {
    paths = h.paths;
    along = h.along;
    apart = h.apart;
    seen = AllIn-visit p fr.visited (before ++ h.paths) h.seen;
  }

  enqueue-Sound :
      (before : List Text) (fr : Frontier) (p : Text) (depth : ℕ) (url : Url)
      → Sound before fr
      → mem_text p fr.visited ≡ false
      → passes_filters o p ≡ true
      → o.is_allowed p ≡ true
      → web.urls.resolve p start_url ≡ some url
      → depth ≤ o.max_depth
      → Sound before (enqueue web o start_url (visit web o start_url p fr) depth url)
  enqueue-Sound before fr p depth url h new pass allowed r le =
      let e = append_assoc before h.paths (p ∷ []) in
      record {
        paths = h.paths ++ p ∷ [];
        along =
            Along-append Source h.paths (p ∷ []) fr.next
              (record { url = url.href; depth = depth } ∷ []) h.along
              (unfold Along in (linked url pass allowed r refl le, tt));
        apart = subst NoDup e (
            NoDup-append (before ++ h.paths) p h.apart
              (fresh p fr.visited (before ++ h.paths) h.seen new));
        seen = subst (AllIn (p ∷ fr.visited)) e (
            All-append (λ q. mem_text q (p ∷ fr.visited) ≡ true) (before ++ h.paths) (p ∷ [])
              (AllIn-visit p fr.visited (before ++ h.paths) h.seen)
              (mem_text_self p fr.visited, tt));
      }

  admit-Sound :
      (before : List Text) (fr : Frontier) (p : Text) (depth : ℕ)
      → Sound before fr
      → mem_text p fr.visited ≡ false
      → passes_filters o p ≡ true
      → depth ≤ o.max_depth
      → Returns (Sound before) (admit web o start_url fr p depth)
  unfolding admit
  admit-Sound before fr p depth h new pass le = elim (Bool-cases (o.is_allowed p)) [
    | inl a ↦ elim (Option-cases (web.urls.resolve p start_url)) [
      | inl n ↦ rw (a, n) tt
      | inr (url, r) ↦ rw (a, r) (enqueue-Sound before fr p depth url h new pass a r le)
    ]
    | inr b ↦ rw b (visit-Sound before fr p (fr.robots_blocked + 1) h)
  ]

  add_candidate-Sound :
      (before : List Text) (fr : Frontier) (path : Option Text) (depth : ℕ)
      → Sound before fr
      → depth ≤ o.max_depth
      → Returns (Sound before) (add_candidate web o start_url fr path depth)
  unfolding add_candidate
  add_candidate-Sound before fr path depth h le =
      elim (Option-cases (candidate web o start_url fr path)) [
        | inl n ↦ rw n h
        | inr (p, e) ↦
            let k = candidate_passes fr path p e in
            rw e (admit-Sound before fr p depth h k.0 k.1 le)
      ]

  pub add_links-Sound :
      (before : List Text) (fr : Frontier) (base : Text) (depth : ℕ) (links : List Text)
      → Sound before fr
      → depth ≤ o.max_depth
      → Returns (Sound before) (add_links web o start_url fr base depth links)
  unfolding add_links
  add_links-Sound before fr base depth [] h le = h
  add_links-Sound before fr base depth (link ∷ links) h le =
      elim (Bool-cases (leb o.max_pages (length fr.next))) [
        | inl full ↦ rw full h
        | inr room ↦ rw room (
            Returns-bind (Sound before) (Sound before)
              (add_candidate web o start_url fr (normalize_url web.urls base link) depth)
              (λ fr'. add_links web o start_url fr' base depth links)
              (add_candidate-Sound before fr (normalize_url web.urls base link) depth h le)
              (λ fr' h'. add_links-Sound before fr' base depth links h' le))
      ]

  pub add_pages-Sound :
      (before : List Text) (fr : Frontier) (pages : List Page)
      → Sound before fr
      → Returns (Sound before) (add_pages web o start_url fr pages)
  unfolding add_pages
  add_pages-Sound before fr [] h = h
  add_pages-Sound before fr (page ∷ pages) h =
      Returns-bind (Sound before) (Sound before)
        (if leb o.max_depth page.depth
          then returned fr
          else add_links web o start_url fr page.url (page.depth + 1) page.raw_links)
        (λ fr'. add_pages web o start_url fr' pages)
        (elim (Bool-cases (leb o.max_depth page.depth)) [
          | inl deep ↦ rw deep h
          | inr e ↦ rw e (
              add_links-Sound before fr page.url (page.depth + 1) page.raw_links h
                (ground (arith, e)))
        ])
        (λ fr' h'. add_pages-Sound before fr' pages h')

  pub add_sitemap-Sound :
      (before : List Text) (fr : Frontier) (depth : ℕ)
      → Sound before fr
      → Returns (Sound before) (add_sitemap web o start_url fr depth)
  unfolding add_sitemap
  add_sitemap-Sound before fr depth h = elim (Bool-cases (depth == 0 && leb 1 o.max_depth)) [
    | inl e ↦ rw e (add_links-Sound before fr start_url 1 o.sitemap_urls h (ground (arith, e)))
    | inr e ↦ rw e h
  ]

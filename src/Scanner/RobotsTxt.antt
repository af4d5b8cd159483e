-- ===== src/Scanner/RobotsTxt.antt =====
-- robots.txt and sitemaps: src/robotsTxt.js and src/sitemapParser.js. The regular expressions are
-- written out as functions on texts.
pub mod RoundTrip
use qa_lab.Base.{
  ℕ, zero, suc, List, [], ◌∷◌, ◌++◌, Bool, true, false, not, ◌&&◌, ◌||◌, Option, none, some, Text,
  codes, if◌then◌else◌, ltb, leb, ◌==◌, ◌+◌, take,
}

-- `\s`, and what `trim` takes away.
unfoldable pub is_space : ℕ → Bool
is_space c =
    (leb 9 c && leb c 13)
    || (c == 32)
    || (c == 160)
    || (c == 5760)
    || (leb 8192 c && leb c 8202)
    || (c == 8232)
    || (c == 8233)
    || (c == 8239)
    || (c == 8287)
    || (c == 12288)
    || (c == 65279)

-- What `.` does not match.
unfoldable pub is_terminator : ℕ → Bool
is_terminator c = (c == 10) || (c == 13) || (c == 8232) || (c == 8233)

unfoldable pub has_terminator : Text → Bool
unfolding is_terminator
has_terminator [] = false
has_terminator (c ∷ s) = is_terminator c || has_terminator s

unfoldable pub skip_space : Text → Text
unfolding is_space
skip_space [] = []
skip_space (c ∷ s) = let rest = skip_space s in if is_space c then rest else c ∷ s

abbrev pub keep_back : ℕ → Text → Text
keep_back c [] = if is_space c then [] else c ∷ []
keep_back c (d ∷ s) = c ∷ d ∷ s

unfoldable pub trim_end : Text → Text
unfolding is_space
trim_end [] = []
trim_end (c ∷ s) = keep_back c (trim_end s)

unfoldable pub trim : Text → Text
unfolding skip_space trim_end
trim s = trim_end (skip_space s)

abbrev pub add_to_first : ℕ → List Text → List Text
add_to_first c [] = (c ∷ []) ∷ []
add_to_first c (l ∷ ls) = (c ∷ l) ∷ ls

-- `text.split("\n")`
unfoldable pub split_lines : Text → List Text
split_lines [] = [] ∷ []
split_lines (c ∷ s) = let rest = split_lines s in if c == 10 then [] ∷ rest else add_to_first c rest

-- A letter in lower case, for the flag `i`.
abbrev pub fold_case : ℕ → ℕ
fold_case c = if leb 65 c && leb c 90 then c + 32 else c

-- What follows the prefix, which is given in lower case.
unfoldable pub after_prefix : Text → Text → Option Text
after_prefix [] s = some s
after_prefix (p ∷ ps) [] = none
after_prefix (p ∷ ps) (c ∷ s) =
    let rest = after_prefix ps s in if fold_case c == p then rest else none

abbrev pub is_empty : Text → Bool
is_empty [] = true
is_empty (c ∷ s) = false

-- The group of `\s*(.+)$` or `\s*(.*)$`, none where it does not match or is empty.
abbrev pub value_in : Option Text → Option Text
value_in none = none
value_in (some rest) =
    let v = skip_space rest in if is_empty v || has_terminator v then none else some (trim v)

abbrev pub sitemap_value : Text → Option Text
sitemap_value line = value_in (after_prefix (codes "sitemap:") line)

abbrev pub disallow_value : Text → Option Text
disallow_value line = value_in (after_prefix (codes "disallow:") line)

-- `\s*\*\s*$`
abbrev pub is_star : Text → Bool
is_star [] = false
is_star (c ∷ s) = (c == 42) && is_empty (skip_space s)

abbrev pub is_wildcard : Option Text → Bool
is_wildcard none = false
is_wildcard (some rest) = is_star (skip_space rest)

abbrev pub is_given : Option Text → Bool
is_given none = false
is_given (some rest) = true

pub record RobotsRules : Type 0 where
  pub disallowed : List Text
  pub sitemaps : List Text
  pub in_wildcard_block : Bool

abbrev pub add_disallowed : Option Text → RobotsRules → RobotsRules
add_disallowed none r = r
add_disallowed (some v) r = record r { disallowed = r.disallowed ++ v ∷ [] }

abbrev pub read_rule : Text → RobotsRules → RobotsRules
read_rule line r =
    let agent = after_prefix (codes "user-agent:") line in
    if is_wildcard agent
    then record r { in_wildcard_block = true }
    else if is_given agent
    then record r { in_wildcard_block = false }
    else if r.in_wildcard_block
    then add_disallowed (disallow_value line) r
    else r

abbrev pub read_found : Text → RobotsRules → Option Text → RobotsRules
read_found line r none = read_rule line r
read_found line r (some v) = record r { sitemaps = r.sitemaps ++ v ∷ [] }

-- The body of the loop over the lines.
unfoldable pub read_line : Text → RobotsRules → RobotsRules
unfolding skip_space has_terminator trim after_prefix
read_line line r = read_found line r (sitemap_value line)

unfoldable pub read_lines : List Text → RobotsRules → RobotsRules
unfolding read_line trim
read_lines [] r = r
read_lines (line ∷ lines) r = read_lines lines (read_line (trim line) r)

abbrev pub no_rules : RobotsRules
no_rules = record { disallowed = []; sitemaps = []; in_wildcard_block = false }

-- `parseRobotsTxt`
unfoldable pub parse_robots_txt : Text → RobotsRules
unfolding split_lines read_lines
parse_robots_txt text = read_lines (split_lines text) no_rules

-- `fetchRobotsRules`, by the body that came, none where the request failed
unfoldable pub fetch_robots_rules : Option Text → RobotsRules
unfolding parse_robots_txt
fetch_robots_rules none = no_rules
fetch_robots_rules (some body) = parse_robots_txt body

-- `path.startsWith(prefix)`
unfoldable pub starts_with : Text → Text → Bool
starts_with [] path = true
starts_with (p ∷ ps) [] = false
starts_with (p ∷ ps) (c ∷ path) = (c == p) && starts_with ps path

abbrev pub is_disallowed : List Text → Text → Bool
is_disallowed [] path = false
is_disallowed (p ∷ ps) path = (not (is_empty p) && starts_with p path) || is_disallowed ps path

-- `isAllowed`
unfoldable pub is_allowed : RobotsRules → Text → Bool
unfolding starts_with
is_allowed r path = not (is_disallowed r.disallowed path)

-- MAX_SITEMAP_URLS, and the sub-sitemaps that are followed.
abbrev pub max_sitemap_urls : ℕ
max_sitemap_urls = 500

abbrev pub max_sub_sitemaps : ℕ
max_sub_sitemaps = 10

-- The documents of a site: none where the request or the XML parser fails; `sub_sitemaps` and
-- `locations` are the selections of the two kinds of `loc`.
pub record Sitemap : Type 0 where
  pub sub_sitemaps : List Text
  pub locations : List Text

module _ (load : Text → Option Sitemap) where
  abbrev pub flat_with : (Text → List Text) → List Text → List Text
  flat_with f [] = []
  flat_with f (x ∷ xs) = f x ++ flat_with f xs

  abbrev pub urls_of : (Text → List Text) → List Text → List Text → List Text
  urls_of sub [] locations = take max_sitemap_urls locations
  urls_of sub (s ∷ ss) locations =
      take max_sitemap_urls (flat_with sub (take max_sub_sitemaps (s ∷ ss)))

  abbrev pub urls_in : (Text → List Text) → Option Sitemap → List Text
  urls_in sub none = []
  urls_in sub (some doc) = urls_of sub doc.sub_sitemaps doc.locations

  -- `fetchSitemapUrls`, by the levels that are left: two, and then none.
  unfoldable pub fetch_sitemap_urls : ℕ → Text → List Text
  fetch_sitemap_urls zero url = []
  fetch_sitemap_urls (suc left) url = urls_in (fetch_sitemap_urls left) (load url)

  abbrev pub first_found : List Text → List Text → List Text
  first_found [] rest = rest
  first_found (u ∷ us) rest = u ∷ us

  -- `discoverSitemapUrls`: those that robots.txt names, then the conventional one.
  unfoldable pub discover_sitemap_urls : List Text → List Text
  unfolding fetch_sitemap_urls
  discover_sitemap_urls [] = []
  discover_sitemap_urls (candidate ∷ rest) =
      first_found (fetch_sitemap_urls 2 candidate) (discover_sitemap_urls rest)

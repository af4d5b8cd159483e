-- ===== src/Scanner/RobotsTxt/RoundTrip.antt =====
-- Reading back a robots.txt that disallows given paths, and the bound on sitemaps.
use qa_lab.Base.{
  ℕ, List, [], ◌∷◌, ◌++◌, true, false, some, Text, codes, ◌≡◌, refl, arith, ap, ◌∙◌, ◌==◌,
}
use qa_lab.Base.Tests.{All, All-append, All-map}
use mathlib.Core.List.{append-nil, append_assoc}
use qa_lab.Scanner.RobotsTxt.{
  is_space, is_terminator, has_terminator, skip_space, trim_end, trim, split_lines, after_prefix,
  value_in, read_line, read_lines, parse_robots_txt, RobotsRules, is_empty, add_disallowed,
  keep_back,
}

-- A path without white space in it.
unfoldable pub IsPath : Text → Type 0
IsPath p = (is_empty p ≡ false) × All (λ c. is_space c ≡ false) p

-- The file that disallows the paths.
unfoldable pub print_rules : List Text → Text
print_rules [] = []
print_rules (p ∷ ps) = codes "Disallow: " ++ (p ++ 10 ∷ print_rules ps)

unfoldable pub print_robots_txt : List Text → Text
unfolding print_rules
print_robots_txt ps = codes "User-agent: *" ++ 10 ∷ print_rules ps

no_terminator : (c : ℕ) → is_space c ≡ false → (is_terminator c ≡ false)
unfolding is_space is_terminator
no_terminator c h = ground (arith, h)

no_newline : (c : ℕ) → is_space c ≡ false → (c == 10) ≡ false
unfolding is_space
no_newline c h = ground (arith, h)

-- A line that has none of its own newlines is the first of the split.
split_lines-path :
    (p rest : Text)
    → All (λ c. (c == 10) ≡ false) p
    → split_lines (p ++ 10 ∷ rest) ≡ p ∷ split_lines rest
unfolding split_lines
split_lines-path [] rest h = refl
split_lines-path (c ∷ p) rest h = rw (h.0, split_lines-path p rest h.1) refl

keep : (c : ℕ) (p : Text) → is_space c ≡ false → keep_back c p ≡ c ∷ p
keep c [] h = rw h refl
keep c (d ∷ p) h = refl

trim_end-path : (p : Text) → All (λ c. is_space c ≡ false) p → trim_end p ≡ p
unfolding trim_end
trim_end-path [] h = refl
trim_end-path (c ∷ p) h = rw (trim_end-path p h.1) (keep c p h.0)

skip_space-path : (p : Text) → IsPath p → skip_space p ≡ p
unfolding skip_space IsPath
skip_space-path [] h = refl
skip_space-path (c ∷ p) h = rw (h.1.0) refl

has_terminator-path : (p : Text) → All (λ c. is_space c ≡ false) p → has_terminator p ≡ false
unfolding has_terminator
has_terminator-path [] h = refl
has_terminator-path (c ∷ p) h = rw (no_terminator c h.0) (has_terminator-path p h.1)

trim-path : (p : Text) → IsPath p → trim p ≡ p
unfolding trim IsPath
trim-path p h = rw (skip_space-path p h) (trim_end-path p h.1)

value_in-path : (p : Text) → IsPath p → value_in (some (32 ∷ p)) ≡ some p
unfolding IsPath
value_in-path p h =
    let e : skip_space (32 ∷ p) ≡ p = unfold skip_space is_space in skip_space-path p h in
    rw (e, h.0, has_terminator-path p h.1, trim-path p h) refl

trim-line : (p : Text) → IsPath p → trim (codes "Disallow: " ++ p) ≡ codes "Disallow: " ++ p
unfolding trim IsPath skip_space trim_end is_space
trim-line [] h = absurd (cc h.0)
trim-line (c ∷ p) h = rw (trim_end-path (c ∷ p) h.1) refl

-- The rules read so far, in the block for every agent.
abbrev in_block : List Text → List Text → RobotsRules
in_block ds ss = record { disallowed = ds; sitemaps = ss; in_wildcard_block = true }

read_line-disallow :
    (p : Text) (ds ss : List Text)
    → IsPath p
    → read_line (codes "Disallow: " ++ p) (in_block ds ss) ≡ in_block (ds ++ p ∷ []) ss
unfolding read_line after_prefix
read_line-disallow p ds ss h =
    let e : value_in (some (32 ∷ p)) ≡ some p = value_in-path p h in
    ap (λ v. add_disallowed v (in_block ds ss)) e

no_break_lem : (p : Text) → IsPath p → All (λ c. (c == 10) ≡ false) (codes "Disallow: " ++ p)
unfolding IsPath
no_break_lem p h =
    All-append (λ c. (c == 10) ≡ false) (codes "Disallow: ") p
      (refl, (refl, (refl, (refl, (refl, (refl, (refl, (refl, (refl, (refl, tt))))))))))
      (All-map (λ c. is_space c ≡ false) (λ c. (c == 10) ≡ false) p no_newline h.1)

read_lines-print :
    (ps ds ss : List Text)
    → All IsPath ps
    → read_lines (split_lines (print_rules ps)) (in_block ds ss) ≡ in_block (ds ++ ps) ss
unfolding read_lines print_rules
read_lines-print [] ds ss h =
    unfold split_lines read_line trim skip_space trim_end after_prefix in rw (append-nil ds) refl
read_lines-print (p ∷ ps) ds ss h =
    let line = codes "Disallow: " ++ p in
    let no_break = no_break_lem p h.0 in
    let split : split_lines (line ++ 10 ∷ print_rules ps) ≡ line ∷ split_lines (print_rules ps) =
      split_lines-path line (print_rules ps) no_break in
    let rest = split_lines (print_rules ps) in
    ap (λ ls. read_lines ls (in_block ds ss)) split
    ∙ ap (λ l. read_lines rest (read_line l (in_block ds ss))) (trim-line p h.0)
    ∙ ap (read_lines rest) (read_line-disallow p ds ss h.0)
    ∙ read_lines-print ps (ds ++ p ∷ []) ss h.1
    ∙ ap (λ xs. in_block xs ss) (append_assoc ds (p ∷ []) ps)

-- A robots.txt that disallows a list of paths for every agent, each not empty and without white
-- space, is read back as just these paths in their order.
pub parse_robots_txt-print :
    (ps : List Text) → All IsPath ps → (parse_robots_txt (print_robots_txt ps)).disallowed ≡ ps
unfolding parse_robots_txt print_robots_txt
parse_robots_txt-print ps h = ap (λ (r : RobotsRules). r.disallowed) (read_lines-print ps [] [] h)

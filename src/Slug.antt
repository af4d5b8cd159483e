-- ===== src/Slug.antt =====
-- Slugs: `slugify` and `uniqueSlug`, which AuthService, OrganizationsService and ProjectsService
-- each carry a copy of (auth/auth.service.ts, organizations/organizations.service.ts and
-- projects/projects.service.ts in qa-lab-backend/src).
pub mod Shape
pub mod Unique
use qa_lab.Base.{
  ℕ, zero, suc, ◌+◌, Bool, true, false, ◌&&◌, ◌||◌, not, List, [], ◌∷◌, ◌++◌, Option, none, some,
  Text, ltb, leb, ◌==◌, if◌then◌else◌, length,
}
use mathlib.Core.List.{reverse}

unfoldable pub is_alnum : ℕ → Bool
is_alnum c = (leb 97 c && leb c 122) || (leb 48 c && leb c 57)

-- One round of the loop, on `out` with its last character at the head, and on `prevDash`.
unfoldable pub slug_step : ℕ → List ℕ → Bool → List ℕ × Bool
slug_step c out prev_dash =
    if is_alnum c
    then (c ∷ out, false)
    else if not prev_dash && ltb 0 (length out)
    then (45 ∷ out, true)
    else (out, prev_dash)

unfoldable pub slug_from : Text → List ℕ → Bool → List ℕ
slug_from [] out prev_dash = out
slug_from (c ∷ s) out prev_dash =
    let next = slug_step c out prev_dash in
    let rest = slug_from s next.0 next.1 in if ltb (length out) 60 then rest else out

-- `while (out.length && out[out.length - 1] === '-') out.pop()`
unfoldable pub pop_dashes : List ℕ → List ℕ
pop_dashes [] = []
pop_dashes (c ∷ out) = let rest = pop_dashes out in if c == 45 then rest else c ∷ out

-- `s || fallback`
abbrev pub or_else : Text → Text → Text
or_else [] fallback = fallback
or_else (c ∷ s) fallback = c ∷ s

-- `norm` stands for JavaScript's `toLowerCase` followed by `trim`.
unfoldable pub slugify : (Text → Text) → Text → Text → Text
unfolding slug_from slug_step is_alnum pop_dashes
slugify norm fallback input =
    or_else (reverse (pop_dashes (slug_from (norm input) [] false))) fallback

-- The loop of `uniqueSlug`: `taken` is the query for a row with this slug, and `draw n` is the
-- random suffix of the n-th attempt. The first argument counts the attempts that are left.
unfoldable pub unique_from : ℕ → (Text → Bool) → (ℕ → Text) → Text → ℕ → Text → Option Text
unique_from zero taken draw base attempt candidate = none
unique_from (suc left) taken draw base attempt candidate =
    let rest = unique_from left taken draw base (attempt + 1) (base ++ (45 ∷ draw attempt)) in
    if taken candidate then rest else some candidate

unfoldable pub unique_slug : (Text → Bool) → (ℕ → Text) → Text → Option Text
unfolding unique_from
unique_slug taken draw base = unique_from 20 taken draw base 0 base

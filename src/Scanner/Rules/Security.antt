-- ===== src/Scanner/Rules/Security.antt =====
-- src/rules/securityRules.js
pub mod Cards
use qa_lab.Base.{
  ℕ, List, [], ◌∷◌, ◌++◌, Bool, true, false, not, ◌&&◌, ◌||◌, Option, none, some, Text, codes,
  if◌then◌else◌, leb, ltb, ◌==◌,
}
use qa_lab.Scanner.Findings.{Finding}
use qa_lab.Scanner.Rules.{
  RulePage, Header, Cookie, header_value, is_empty, when, starts_with, contains,
}
use qa_lab.Scanner.RobotsTxt.{is_space}
use qa_lab.Scanner.Rules.Security.Cards.{
  sec005, sec001, sec006, sec002, sec003, sec004, sec007, sec008, sec009, sec010,
}

-- `(\s|;|$)`
abbrev ends_source : Text → Bool
ends_source [] = true
ends_source (c ∷ s) = is_space c || (c == 59)

-- `(^|\s)\*(\s|;|$)`, where the flag says that the place is one for a source to begin.
unfoldable pub has_wildcard : Bool → Text → Bool
unfolding is_space
has_wildcard begins [] = false
has_wildcard begins (c ∷ s) = (begins && (c == 42) && ends_source s) || has_wildcard (is_space c) s

unfoldable pub is_weak_csp : Text → Bool
unfolding contains has_wildcard
is_weak_csp csp =
    contains (codes "unsafe-inline") csp
    || contains (codes "unsafe-eval") csp
    || has_wildcard true csp

abbrev is_digit : ℕ → Bool
is_digit c = leb 48 c && leb c 57

-- SERVER_VERSION_PATTERN: somewhere a digit, a point and a digit.
unfoldable pub discloses_version : Text → Bool
discloses_version (a ∷ b ∷ c ∷ s) =
    (is_digit a && (b == 46) && is_digit c) || discloses_version (b ∷ c ∷ s)
discloses_version (a ∷ b ∷ []) = false
discloses_version (a ∷ []) = false
discloses_version [] = false

abbrev lacks_flag : List Cookie → Bool
lacks_flag [] = false
lacks_flag (c ∷ cs) = not c.secure || not c.http_only || lacks_flag cs

abbrev check_csp : Text → Text → List Finding
check_csp url csp = if is_empty csp then sec001 url ∷ [] else when (is_weak_csp csp) (sec006 url)

abbrev check_server : Text → Text → List Finding
check_server url server = when (not (is_empty server) && discloses_version server) (sec007 url)

-- The checks that want the headers.
unfoldable pub check_headers : RulePage → List Header → List Finding
unfolding header_value is_weak_csp discloses_version
check_headers page hs =
    check_csp page.url (header_value (codes "content-security-policy") hs)
    ++ when (is_empty (header_value (codes "x-frame-options") hs)) (sec002 page.url)
    ++ when (is_empty (header_value (codes "strict-transport-security") hs)) (sec003 page.url)
    ++ when (is_empty (header_value (codes "x-content-type-options") hs)) (sec004 page.url)
    ++ check_server page.url (header_value (codes "server") hs)
    ++ when (lacks_flag page.cookies) (sec008 page.url)
    ++ when (ltb 0 page.mixed_content_count) (sec009 page.url)
    ++ when page.has_disclosed_error (sec010 page.url)

abbrev check_given : RulePage → Option (List Header) → List Finding
check_given page none = []
check_given page (some hs) = check_headers page hs

-- `runPerPage` of the security rules
unfoldable pub security_findings : RulePage → List Finding
unfolding starts_with check_headers
security_findings page =
    when (starts_with (codes "http://") page.url) (sec005 page.url) ++ check_given page page.headers

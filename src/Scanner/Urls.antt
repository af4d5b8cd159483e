-- ===== src/Scanner/Urls.antt =====
-- URLs: the parser that the runtime provides, and src/utils/urlNormalizer.js.
use qa_lab.Base.{
  [], ◌∷◌, ◌++◌, Bool, false, not, ◌&&◌, Option, none, some, Text, if◌then◌else◌, ltb, ◌==◌, length,
}
use qa_lab.Base.Texts.{text_eq}

-- The parts of the runtime's URL object that the scanner reads.
pub record Url : Type 0 where
  pub href : Text
  pub protocol : Text
  pub username : Text
  pub password : Text
  pub hostname : Text
  pub port : Text
  pub pathname : Text
  pub search : Text

-- `new URL(text)` and `new URL(link, base)`, which throw on an invalid URL.
pub record UrlParser : Type 0 where
  pub parse : Text → Option Url
  pub resolve : Text → Text → Option Url

-- `s.endsWith("/")`
abbrev pub ends_in_slash : Text → Bool
ends_in_slash [] = false
ends_in_slash (c ∷ []) = c == 47
ends_in_slash (c ∷ d ∷ s) = ends_in_slash (d ∷ s)

-- `s.slice(0, -1)`
abbrev pub drop_last : Text → Text
drop_last [] = []
drop_last (c ∷ []) = []
drop_last (c ∷ d ∷ s) = c ∷ drop_last (d ∷ s)

abbrev pub without_slash : Text → Text
without_slash path = if ltb 1 (length path) && ends_in_slash path then drop_last path else path

-- `normalizeUrl`: none is `null`.
unfoldable pub normalize_url : UrlParser → Text → Text → Option Text
unfolding text_eq
normalize_url urls base_url link = elim (urls.parse base_url) [
  | none ↦ none
  | some base ↦ elim (urls.resolve link base_url) [
    | none ↦ none
    | some url ↦
        if not (text_eq url.hostname base.hostname)
        then none
        else some (without_slash url.pathname ++ url.search)
  ]
]

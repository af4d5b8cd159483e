-- ===== src/Scanner/Rules.antt =====
-- The rules on a single page, src/rules: what they read of a normalized page. A missing text is the
-- empty one, since the rules only ask whether it is truthy.
pub mod Security
pub mod Forms
pub mod Performance
pub mod Accessibility
pub mod Availability
pub mod Checks
use qa_lab.Base.{
  ℕ, List, [], ◌∷◌, ◌++◌, Bool, true, false, not, ◌&&◌, ◌||◌, Option, none, some, Text,
  if◌then◌else◌, leb, ◌==◌, ◌+◌,
}
use qa_lab.Base.Texts.{text_eq}
use qa_lab.Scanner.Findings.{Finding}

-- An `<input>`.
pub record Field : Type 0 where
  pub kind : Text
  pub name : Text
  pub id : Text
  pub autocomplete : Text
  pub aria_label : Text
  pub aria_labelledby : Text
  pub minlength : Text
  pub pattern_text : Text
  pub accept : Text

-- A `<form>`.
pub record Form : Type 0 where
  pub method : Text
  pub has_csrf_token : Bool
  pub fields : List Field

pub record Script : Type 0 where
  pub in_head : Bool
  pub src : Text
  pub is_async : Bool
  pub is_defer : Bool

pub record Cookie : Type 0 where
  pub secure : Bool
  pub http_only : Bool

pub record Header : Type 0 where
  pub name : Text
  pub value : Text

pub record RulePage : Type 0 where
  pub url : Text
  -- The HTTP status, none where it is not a number.
  pub status : Option ℕ
  pub response_time : Option ℕ
  pub html_size : ℕ
  pub headers : Option (List Header)
  pub cookies : List Cookie
  pub mixed_content_count : ℕ
  pub has_disclosed_error : Bool
  pub scripts : List Script
  pub missing_alt : ℕ
  pub heading_sequence : List ℕ
  pub label_fors : List Text
  pub lang : Text
  pub fields : List Field
  pub forms : List Form

abbrev pub is_empty : Text → Bool
is_empty [] = true
is_empty (c ∷ s) = false

-- `headers[name]`, empty where it is missing.
unfoldable pub header_value : Text → List Header → Text
unfolding text_eq
header_value name [] = []
header_value name (h ∷ hs) = if text_eq h.name name then h.value else header_value name hs

-- `if (test) findings.push(createFinding(…))`
abbrev pub when : Bool → Finding → List Finding
when true f = f ∷ []
when false f = []

unfoldable pub starts_with : Text → Text → Bool
starts_with [] s = true
starts_with (p ∷ ps) [] = false
starts_with (p ∷ ps) (c ∷ s) = (c == p) && starts_with ps s

-- A regular expression that is one text.
unfoldable pub contains : Text → Text → Bool
unfolding starts_with
contains p [] = starts_with p []
contains p (c ∷ s) = starts_with p (c ∷ s) || contains p s

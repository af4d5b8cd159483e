-- ===== src/Scanner/Rules/Forms.antt =====
-- src/rules/formRules.js
pub mod Cards
use qa_lab.Base.{
  ℕ, List, [], ◌∷◌, ◌++◌, Bool, true, false, not, ◌&&◌, ◌||◌, Text, codes, if◌then◌else◌, leb, ◌==◌,
  ◌+◌,
}
use qa_lab.Base.Texts.{text_eq}
use qa_lab.Scanner.Findings.{Finding}
use qa_lab.Scanner.Rules.{RulePage, Field, Form, is_empty, when}
use qa_lab.Scanner.Rules.Forms.Cards.{form001, form002, form003, form004, form007, form005, form006}

abbrev lower_code : ℕ → ℕ
lower_code c = if leb 65 c && leb c 90 then c + 32 else c

unfoldable pub starts_with_folded : Text → Text → Bool
starts_with_folded [] s = true
starts_with_folded (p ∷ ps) [] = false
starts_with_folded (p ∷ ps) (c ∷ s) = (lower_code c == p) && starts_with_folded ps s

-- EMAIL_NAME_PATTERN, `/email/i`
unfoldable pub names_email : Text → Bool
unfolding starts_with_folded
names_email [] = false
names_email (c ∷ s) = starts_with_folded (codes "email") (c ∷ s) || names_email s

abbrev is_kind : Text → Field → Bool
is_kind kind f = text_eq f.kind kind

abbrev misses_name : List Field → Bool
misses_name [] = false
misses_name (f ∷ fs) = is_empty f.name || misses_name fs

-- The body of the loop over the fields.
unfoldable pub field_findings : Text → Field → List Finding
unfolding text_eq names_email
field_findings url f =
    when (is_kind (codes "password") f && is_empty f.autocomplete) (form002 url)
    ++ when (is_kind (codes "password") f && is_empty f.minlength && is_empty f.pattern_text)
        (form003 url)
    ++ when (not (is_kind (codes "email") f) && not (is_empty f.name) && names_email f.name)
        (form004 url)
    ++ when (is_kind (codes "file") f && is_empty f.accept) (form007 url)

unfoldable pub all_fields : Text → List Field → List Finding
unfolding field_findings
all_fields url [] = []
all_fields url (f ∷ fs) = field_findings url f ++ all_fields url fs

abbrev has_password : List Field → Bool
has_password [] = false
has_password (f ∷ fs) = is_kind (codes "password") f || has_password fs

-- The body of the loop over the forms.
unfoldable pub form_findings_of : Text → Form → List Finding
unfolding text_eq
form_findings_of url form =
    when (has_password form.fields && text_eq form.method (codes "get")) (form005 url)
    ++ when (text_eq form.method (codes "post") && not form.has_csrf_token) (form006 url)

unfoldable pub all_forms : Text → List Form → List Finding
unfolding form_findings_of
all_forms url [] = []
all_forms url (f ∷ fs) = form_findings_of url f ++ all_forms url fs

-- `runPerPage` of the form rules
unfoldable pub form_findings : RulePage → List Finding
unfolding all_fields all_forms
form_findings page =
    when (misses_name page.fields) (form001 page.url)
    ++ all_fields page.url page.fields
    ++ all_forms page.url page.forms

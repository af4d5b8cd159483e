-- ===== src/Scanner/Rules/Accessibility.antt =====
-- src/rules/accessibilityRules.js. A heading is given by its level.
pub mod Cards
use qa_lab.Base.{ℕ, List, [], ◌∷◌, ◌++◌, Bool, false, not, ◌&&◌, ◌||◌, Text, codes, ltb, ◌+◌}
use qa_lab.Scanner.Findings.{Finding, mem_text}
use qa_lab.Scanner.Rules.{RulePage, Field, is_empty, when}
use qa_lab.Scanner.Rules.Accessibility.Cards.{acc001, acc002, acc003, acc004}

-- NON_LABELABLE_TYPES
abbrev pub non_labelable_types : List Text
non_labelable_types =
    codes "hidden" ∷ codes "submit" ∷ codes "button" ∷ codes "reset" ∷ codes "image" ∷ []

-- The loop over neighbouring headings.
unfoldable pub skips_level : List ℕ → Bool
skips_level [] = false
skips_level (a ∷ []) = false
skips_level (a ∷ b ∷ levels) = ltb (a + 1) b || skips_level (b ∷ levels)

unfoldable pub is_unlabeled : List Text → Field → Bool
unfolding mem_text
is_unlabeled label_fors f =
    not (mem_text f.kind non_labelable_types)
    && is_empty f.aria_label
    && is_empty f.aria_labelledby
    && (is_empty f.id || not (mem_text f.id label_fors))

abbrev any_unlabeled : List Text → List Field → Bool
any_unlabeled label_fors [] = false
any_unlabeled label_fors (f ∷ fs) = is_unlabeled label_fors f || any_unlabeled label_fors fs

-- `runPerPage` of the accessibility rules
unfoldable pub accessibility_findings : RulePage → List Finding
unfolding skips_level is_unlabeled
accessibility_findings page =
    when (ltb 0 page.missing_alt) (acc001 page.url)
    ++ when (skips_level page.heading_sequence) (acc002 page.url)
    ++ when (any_unlabeled page.label_fors page.fields) (acc003 page.url)
    ++ when (is_empty page.lang) (acc004 page.url)

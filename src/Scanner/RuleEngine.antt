-- ===== src/Scanner/RuleEngine.antt =====
-- The rules and the engine that runs them: src/ruleEngine.js and src/core/ruleRegistry.js. A rule is
-- given by what it exports; a function that throws gives none, one that returns nothing gives [].
pub mod Ids
pub mod Collecting
pub mod Streaming
use Prim.Native.String.{String}
use text.Mathlib.Text.{◌==◌ as str_eq}
use qa_lab.Base.{
  ℕ, List, [], ◌∷◌, ◌++◌, Bool, true, false, not, ◌||◌, Option, none, some, Text, if◌then◌else◌,
  or_default,
}
use qa_lab.Scanner.Findings.{Finding}

module _ (P C S : Type 0) where
  pub record Rule : Type 0 where
    pub id : String
    pub enabled : Bool
    pub run : List P → Option (List Finding)
    pub run_per_page : Option (P → C → Option (List Finding))
    pub collect_summary : Option (P → Option (Option S))
    pub run_final : Option (List S → C → Option (List Finding))

-- A function that throws is skipped.
abbrev pub or_skipped : Option (List Finding) → List Finding
or_skipped none = []
or_skipped (some fs) = fs

-- `runRules`, on the pages of the model
unfoldable pub run_rules : {P C S : Type 0} → List P → List (Rule P C S) → List Finding
run_rules model [] = []
run_rules model (rule ∷ rules) = or_skipped (rule.run model) ++ run_rules model rules

abbrev pub page_findings :
    {P C : Type 0} → P → C → Option (P → C → Option (List Finding)) → List Finding
page_findings page site none = []
page_findings page site (some f) = or_skipped (f page site)

-- `runPerPageRules`
unfoldable pub run_per_page_rules : {P C S : Type 0} → P → C → List (Rule P C S) → List Finding
run_per_page_rules page site [] = []
run_per_page_rules page site (rule ∷ rules) =
    page_findings page site rule.run_per_page ++ run_per_page_rules page site rules

-- The summaries: an object from rule ids to lists.
pub record Entry (S : Type 0) : Type 0 where
  pub rule_id : String
  pub summaries : List S

unfoldable pub summaries_at : {S : Type 0} → String → List (Entry S) → Option (List S)
summaries_at id [] = none
summaries_at id (e ∷ es) = if str_eq e.rule_id id then some e.summaries else summaries_at id es

-- `summaries[id] = value`
unfoldable pub put_summaries : {S : Type 0} → String → List S → List (Entry S) → List (Entry S)
put_summaries id value [] = (record { rule_id = id; summaries = value }) ∷ []
put_summaries id value (e ∷ es) =
    if str_eq e.rule_id id
    then record e { summaries = value } ∷ es
    else e ∷ put_summaries id value es

-- What one call adds: nothing where it throws, or returns undefined or null.
abbrev pub collected : {S : Type 0} → Option (Option S) → List S
collected none = []
collected (some none) = []
collected (some (some s)) = s ∷ []

abbrev pub collect_one :
    {P S : Type 0} → P → String → Option (P → Option (Option S)) → List (Entry S) → List (Entry S)
collect_one page id none es = es
collect_one page id (some f) es =
    put_summaries id (or_default (summaries_at id es) [] ++ collected (f page)) es

-- `collectSummaries`
unfoldable pub collect_summaries :
    {P C S : Type 0} → P → List (Rule P C S) → List (Entry S) → List (Entry S)
unfolding summaries_at put_summaries
collect_summaries page [] es = es
collect_summaries page (rule ∷ rules) es =
    collect_summaries page rules (collect_one page rule.id rule.collect_summary es)

abbrev pub final_findings :
    {S C : Type 0} → List S → C → Option (List S → C → Option (List Finding)) → List Finding
final_findings summaries site none = []
final_findings summaries site (some f) = or_skipped (f summaries site)

-- `runFinalRules`
unfoldable pub run_final_rules :
    {P C S : Type 0} → List (Entry S) → C → List (Rule P C S) → List Finding
unfolding summaries_at
run_final_rules es site [] = []
run_final_rules es site (rule ∷ rules) =
    final_findings (or_default (summaries_at rule.id es) []) site rule.run_final
    ++ run_final_rules es site rules

unfoldable pub mem_id : String → List String → Bool
mem_id id [] = false
mem_id id (x ∷ xs) = str_eq x id || mem_id id xs

-- `.filter(rule => rule.enabled !== false)`
unfoldable pub enabled_rules : {P C S : Type 0} → List (Rule P C S) → List (Rule P C S)
enabled_rules [] = []
enabled_rules (r ∷ rs) = let rest = enabled_rules rs in if r.enabled then r ∷ rest else rest

abbrev pub ids_of : {P C S : Type 0} → List (Rule P C S) → List String
ids_of [] = []
ids_of (r ∷ rs) = r.id ∷ ids_of rs

-- The rules of one plugin directory whose id is new; with those seen.
unfoldable pub new_rules : {P C S : Type 0} → List String → List (Rule P C S) → List (Rule P C S)
unfolding mem_id
new_rules seen [] = []
new_rules seen (r ∷ rs) =
    let old = new_rules seen rs in
    let new = new_rules (r.id ∷ seen) rs in if mem_id r.id seen then old else r ∷ new

-- A directory that cannot be read, or has an invalid rule, gives none.
unfoldable pub plugin_rules :
    {P C S : Type 0} → List (Option (List (Rule P C S))) → Option (List (Rule P C S))
unfolding enabled_rules
plugin_rules [] = some []
plugin_rules (none ∷ dirs) = none
plugin_rules (some rules ∷ dirs) = elim (plugin_rules dirs) [
  | none ↦ none
  | some rest ↦ some (enabled_rules rules ++ rest)
]

abbrev pub with_built_in :
    {P C S : Type 0} → List (Rule P C S) → Option (List (Rule P C S)) → Option (List (Rule P C S))
with_built_in built_in none = none
with_built_in built_in (some plugins) = some (built_in ++ new_rules (ids_of built_in) plugins)

-- `loadRulesWithPlugins`, from the modules of the directories as they are read.
unfoldable pub load_rules_with_plugins :
    {P C S : Type 0}
    → List (Rule P C S)
    → List (Option (List (Rule P C S)))
    → Option (List (Rule P C S))
unfolding enabled_rules plugin_rules new_rules
load_rules_with_plugins built_in dirs = with_built_in (enabled_rules built_in) (plugin_rules dirs)

-- The scan's calls of `collectSummaries`, page by page.
unfoldable pub collect_pages :
    {P C S : Type 0} → List P → List (Rule P C S) → List (Entry S) → List (Entry S)
unfolding collect_summaries
collect_pages [] rules es = es
collect_pages (page ∷ pages) rules es = collect_pages pages rules (collect_summaries page rules es)

-- The scan's calls of `runPerPageRules`, page by page.
unfoldable pub stream_pages : {P C S : Type 0} → List P → C → List (Rule P C S) → List Finding
unfolding run_per_page_rules
stream_pages [] site rules = []
stream_pages (page ∷ pages) site rules =
    run_per_page_rules page site rules ++ stream_pages pages site rules

-- A rule that looks at one page at a time, as the rules on a page are written: `run` goes through
-- the pages and delegates to `runPerPage`, so a throw on one page leaves both.
pub record PageCheck (P : Type 0) : Type 0 where
  pub id : String
  pub check : P → Option (List Finding)

abbrev pub joined : Option (List Finding) → Option (List Finding) → Option (List Finding)
joined none rest = none
joined (some fs) none = none
joined (some fs) (some gs) = some (fs ++ gs)

unfoldable pub check_all :
    {P : Type 0} → (P → Option (List Finding)) → List P → Option (List Finding)
check_all f [] = some []
check_all f (page ∷ pages) = joined (f page) (check_all f pages)

abbrev pub page_rule : {P C S : Type 0} → PageCheck P → Rule P C S
page_rule c = record {
  id = c.id;
  enabled = true;
  run = check_all c.check;
  run_per_page = some (λ page site. c.check page);
  collect_summary = none;
  run_final = none;
}

abbrev pub page_rules : {P C S : Type 0} → List (PageCheck P) → List (Rule P C S)
page_rules [] = []
page_rules (c ∷ cs) = page_rule c ∷ page_rules cs

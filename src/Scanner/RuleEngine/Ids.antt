-- ===== src/Scanner/RuleEngine/Ids.antt =====
-- The ids of the loaded rules.
use Prim.Native.String.{String}
use text.Mathlib.Text.{◌==◌ as str_eq}
use text.Mathlib.TextEquality.{eq_iff}
use qa_lab.Base.{
  List, [], ◌∷◌, ◌++◌, true, false, ◌||◌, Option, some, ◌≡◌, refl, ap, subst, ◌∙◌, arith,
  Bool-cases, inl, inr, or_default,
}
use qa_lab.Base.Tests.{Option-cases}
use qa_lab.Scanner.RuleEngine.{
  Rule, mem_id, ids_of, new_rules, enabled_rules, plugin_rules, load_rules_with_plugins,
}

unfoldable pub DistinctIds : List String → Type 0
DistinctIds [] = Unit
DistinctIds (x ∷ xs) = (mem_id x xs ≡ false) × DistinctIds xs

self : (x : String) (xs : List String) → mem_id x (x ∷ xs) ≡ true
unfolding mem_id
self x xs = rw ((eq_iff x x).1 refl) refl

later : (x y : String) (xs : List String) → mem_id x xs ≡ true → mem_id x (y ∷ xs) ≡ true
unfolding mem_id
later x y xs h = ground (arith, h)

-- A seen id is not that of a new rule.
differs :
    (x y : String) (seen : List String)
    → mem_id x seen ≡ true
    → mem_id y seen ≡ false
    → str_eq y x ≡ false
differs x y seen h k = elim (Bool-cases (str_eq y x)) [
  | inl e ↦ absurd (cc (h, k, (eq_iff y x).0 e))
  | inr e ↦ e
]

module _ {P C S : Type 0} where
  mem_id-append :
      (x : String) (a b : List (Rule P C S))
      → mem_id x (ids_of (a ++ b)) ≡ (mem_id x (ids_of a) || mem_id x (ids_of b))
  unfolding mem_id
  mem_id-append x [] b = refl
  mem_id-append x (r ∷ a) b = ground (arith, mem_id-append x a b)

  -- An id that was seen is not among the new rules' ids.
  mem_id-new_rules :
      (x : String) (seen : List String) (rs : List (Rule P C S))
      → mem_id x seen ≡ true
      → mem_id x (ids_of (new_rules seen rs)) ≡ false
  unfolding mem_id new_rules
  mem_id-new_rules x seen [] h = refl
  mem_id-new_rules x seen (r ∷ rs) h = elim (Bool-cases (mem_id r.id seen)) [
    | inl old ↦ rw old (mem_id-new_rules x seen rs h)
    | inr new ↦
        rw new (ground (arith, mem_id-new_rules x (r.id ∷ seen) rs, differs x r.id seen h new, h))
  ]

  new_rules-DistinctIds :
      (seen : List String) (rs : List (Rule P C S)) → DistinctIds (ids_of (new_rules seen rs))
  unfolding new_rules DistinctIds mem_id
  new_rules-DistinctIds seen [] = tt
  new_rules-DistinctIds seen (r ∷ rs) = elim (Bool-cases (mem_id r.id seen)) [
    | inl old ↦ rw old (new_rules-DistinctIds seen rs)
    | inr new ↦ rw new (
      mem_id-new_rules r.id (r.id ∷ seen) rs (self r.id seen),
      new_rules-DistinctIds (r.id ∷ seen) rs,
    )
  ]

  append-DistinctIds :
      (a b : List (Rule P C S))
      → DistinctIds (ids_of a)
      → DistinctIds (ids_of b)
      → ((x : String) → mem_id x (ids_of a) ≡ true → mem_id x (ids_of b) ≡ false)
      → DistinctIds (ids_of (a ++ b))
  unfolding DistinctIds
  append-DistinctIds [] b h k d = k
  append-DistinctIds (r ∷ a) b h k d = (
    mem_id-append r.id a b ∙ rw (h.0, d r.id (unfold mem_id in self r.id (ids_of a))) refl,
    append-DistinctIds a b h.1 k (λ x m. d x (later x r.id (ids_of a) m)),
  )

  -- The ids of what is loaded differ, where those of the built-in rules do.
  pub load_rules_with_plugins-DistinctIds :
      (built_in : List (Rule P C S)) (dirs : List (Option (List (Rule P C S))))
      (rules : List (Rule P C S))
      → DistinctIds (ids_of (enabled_rules built_in))
      → load_rules_with_plugins built_in dirs ≡ some rules
      → DistinctIds (ids_of rules)
  unfolding load_rules_with_plugins
  load_rules_with_plugins-DistinctIds built_in dirs rules h e =
      elim (Option-cases (plugin_rules dirs)) [
        | inl n ↦ absurd (cc (rw n at e))
        | inr (plugins, f) ↦
            let b = enabled_rules built_in in
            subst (λ rs. DistinctIds (ids_of rs)) (ap (λ o. or_default o rules) (rw f at e))
              (append-DistinctIds b (new_rules (ids_of b) plugins) h
                (new_rules-DistinctIds (ids_of b) plugins)
                (λ x m. mem_id-new_rules x (ids_of b) plugins m))
      ]

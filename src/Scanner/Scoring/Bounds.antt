-- ===== src/Scanner/Scoring/Bounds.antt =====
-- Bounds of the score: between the clean site's 100 and what the weights of the issues leave.
use qa_lab.Base.{ℕ, List, [], ◌∷◌, ◌+◌, ◌-◌, ◌*◌, ◌≤◌, ◌≡◌, arith}
use qa_lab.Base.Tests.{All}
use text.Mathlib.Text.{◌==◌ as str_eq}
use qa_lab.Scanner.Findings.{Finding, Issue, aggregate}
use qa_lab.Scanner.Scoring.{deduct, deduction, weight, one, final_score, calculate_score}
use qa_lab.Scanner.Scoring.Doubles.{round, round_mono, round_idem, round_whole}
use qa_lab.Scanner.Scoring.Penalties.{deduction-Isolated, deduction_bound}

deduct_mono : (s t : ℕ) (is : List Issue) → s ≤ t → deduct s is ≤ deduct t is
unfolding deduct
deduct_mono s t [] h = h
deduct_mono s t (i ∷ is) h =
    deduct_mono (round (s - deduction i)) (round (t - deduction i)) is
      (round_mono (s - deduction i) (t - deduction i) (omega (arith, h)))

-- A score that is a double only falls.
deduct_falls : (s : ℕ) (is : List Issue) → round s ≡ s → deduct s is ≤ s
unfolding deduct
deduct_falls s [] h = omega arith
deduct_falls s (i ∷ is) h = omega (
  arith,
  deduct_falls (round (s - deduction i)) is (round_idem (s - deduction i)),
  round_mono (s - deduction i) s (omega arith),
  h,
)

-- The weights of the issues together.
unfoldable pub total_weight : List Issue → ℕ
total_weight [] = 0
total_weight (i ∷ is) = weight i.severity + total_weight is

-- Every issue occurs once.
abbrev pub Isolated : List Issue → Type 0
Isolated = All (λ i. i.occurrence_count ≡ 1)

deduct-Isolated :
    (k : ℕ) (is : List Issue)
    → k ≤ 100
    → Isolated is
    → deduct (k * one) is ≡ (k - total_weight is) * one
unfolding deduct total_weight
deduct-Isolated k [] le h = omega arith
deduct-Isolated k (i ∷ is) le h =
    let e : k * one - deduction i ≡ (k - weight i.severity) * one =
      omega (arith, deduction-Isolated i h.0) in
    let ih = deduct-Isolated (k - weight i.severity) is (omega (arith, le)) h.1 in
    let r = round_whole (k - weight i.severity) (omega (arith, le)) in rw (e, r, ih) (omega arith)

deduct_bound :
    (k : ℕ) (is : List Issue) → k ≤ 100 → (k - 3 * total_weight is) * one ≤ deduct (k * one) is
unfolding deduct total_weight
deduct_bound k [] le = omega arith
deduct_bound k (i ∷ is) le =
    let left = k - 3 * weight i.severity in
    let r = round_whole left (omega (arith, le)) in
    let ih = deduct_bound left is (omega (arith, le)) in
    let up = round_mono (left * one) (k * one - deduction i) (omega (arith, deduction_bound i)) in
    let low = deduct_mono (left * one) (round (k * one - deduction i)) is (omega (arith, r, up)) in
    omega (arith, ih, low)

-- The score is at most 100, and at least 100 less three times the weights of the issues: breadth
-- costs an issue at most twice its weight more.
pub calculate_score-between :
    (fs : List Finding)
    → (100 - 3 * total_weight (aggregate fs) ≤ (calculate_score fs).score)
      × ((calculate_score fs).score ≤ 100)
unfolding calculate_score final_score
calculate_score-between fs = (
  omega (arith, deduct_bound 100 (aggregate fs) (omega arith)),
  omega (arith, deduct_falls (100 * one) (aggregate fs) (round_whole 100 (omega arith))),
)

-- Where every issue occurs once, the score is 100 less the weights of the issues, and 0 where
-- these come to more.
pub calculate_score-Isolated :
    (fs : List Finding)
    → Isolated (aggregate fs)
    → (calculate_score fs).score ≡ 100 - total_weight (aggregate fs)
unfolding calculate_score final_score
calculate_score-Isolated fs h = omega (arith, deduct-Isolated 100 (aggregate fs) (omega arith) h)

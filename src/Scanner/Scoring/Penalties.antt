-- ===== src/Scanner/Scoring/Penalties.antt =====
-- What an issue costs: its weight at one occurrence, more for a wider issue, at most three times it.
use qa_lab.Base.{ℕ, ◌+◌, ◌-◌, ◌*◌, ◌≤◌, ◌≡◌, refl, arith, min}
use qa_lab.Scanner.Findings.{Severity, critical, high, medium, low, info, Issue}
use qa_lab.Scanner.Scoring.{penalty, breadth_factor, breadth_cap, one, deduction, weight}
use qa_lab.Scanner.Scoring.Doubles.{round, round_mono}

weight_bound : (s : Severity) → weight s ≤ 20
unfolding weight
weight_bound critical = omega arith
weight_bound high = omega arith
weight_bound medium = omega arith
weight_bound low = omega arith
weight_bound info = omega arith

abbrev breadth : ℕ → ℕ
breadth extra = round (one + round (extra * breadth_factor))

breadth_mono : (a b : ℕ) → a ≤ b → breadth a ≤ breadth b
breadth_mono a b h =
    round_mono (one + round (a * breadth_factor)) (one + round (b * breadth_factor))
      (omega (arith, round_mono (a * breadth_factor) (b * breadth_factor) (omega (arith, h))))

breadth_flat : breadth 0 ≡ one
unfolding round
breadth_flat = refl

breadth_three : breadth 20 ≡ 3 * one
unfolding round
breadth_three = refl

pub penalty_mono : (s : Severity) (a b : ℕ) → a ≤ b → penalty (weight s) a ≤ penalty (weight s) b
unfolding penalty weight
penalty_mono critical a b h =
    round_mono (20 * breadth a) (20 * breadth b) (omega (arith, breadth_mono a b h))
penalty_mono high a b h =
    round_mono (10 * breadth a) (10 * breadth b) (omega (arith, breadth_mono a b h))
penalty_mono medium a b h =
    round_mono (5 * breadth a) (5 * breadth b) (omega (arith, breadth_mono a b h))
penalty_mono low a b h =
    round_mono (2 * breadth a) (2 * breadth b) (omega (arith, breadth_mono a b h))
penalty_mono info a b h = round_mono (0 * breadth a) (0 * breadth b) (omega arith)

penalty_flat : (s : Severity) → penalty (weight s) 0 ≡ weight s * one
unfolding penalty weight round
penalty_flat critical = refl
penalty_flat high = refl
penalty_flat medium = refl
penalty_flat low = refl
penalty_flat info = refl

penalty_three : (s : Severity) → penalty (weight s) 20 ≡ 3 * weight s * one
unfolding penalty weight round
penalty_three critical = refl
penalty_three high = refl
penalty_three medium = refl
penalty_three low = refl
penalty_three info = refl

pub deduction-Isolated :
    (i : Issue) → i.occurrence_count ≡ 1 → deduction i ≡ weight i.severity * one
unfolding deduction
deduction-Isolated i h = rw h (penalty_flat i.severity)

pub deduction_bound : (i : Issue) → deduction i ≤ 3 * weight i.severity * one
unfolding deduction
deduction_bound i = omega (
  arith,
  penalty_three i.severity,
  penalty_mono i.severity (min (i.occurrence_count - 1) breadth_cap) 20 (ground arith),
)

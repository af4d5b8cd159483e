-- ===== src/Scanner/Scoring/Doubles.antt =====
-- Double-precision numbers as the scoring uses them: a number is given in units of 2^-55, and a
-- result is rounded to the nearest of 53 significant bits, ties to even. In that unit every number
-- below 2^53 is exact, and none of the score's reaches 2^62.
use qa_lab.Base.{
  ℕ, ◌+◌, ◌*◌, ◌/◌, ◌%◌, ◌^◌, ◌≤◌, ◌<◌, ◌≡◌, refl, ◌==◌, ltb, if◌then◌else◌, arith, inl, inr,
  Bool-cases,
}

-- The multiple of `d` nearest to `n`; of two as near, the even one.
abbrev pub nearest : ℕ → ℕ → ℕ
nearest d n =
    let q = n / d in
    let r = 2 * (n % d) in
    if ltb r d
    then q * d
    else if ltb d r
    then (q + 1) * d
    else if q % 2 == 0
    then q * d
    else (q + 1) * d

-- Below `b` one function, from `b` on another.
unfoldable pub below : ℕ → (ℕ → ℕ) → (ℕ → ℕ) → ℕ → ℕ
below b f g n = if ltb n b then f n else g n

-- Rounding to a double, below 2^62: the last place counts 2 from 2^53 on, 4 from 2^54 on, and so on.
abbrev places_512 : ℕ → ℕ
places_512 = nearest 512

abbrev places_256 : ℕ → ℕ
places_256 = below (2 ^ 61) (nearest 256) places_512

abbrev places_128 : ℕ → ℕ
places_128 = below (2 ^ 60) (nearest 128) places_256

abbrev places_64 : ℕ → ℕ
places_64 = below (2 ^ 59) (nearest 64) places_128

abbrev places_32 : ℕ → ℕ
places_32 = below (2 ^ 58) (nearest 32) places_64

abbrev places_16 : ℕ → ℕ
places_16 = below (2 ^ 57) (nearest 16) places_32

abbrev places_8 : ℕ → ℕ
places_8 = below (2 ^ 56) (nearest 8) places_16

abbrev places_4 : ℕ → ℕ
places_4 = below (2 ^ 55) (nearest 4) places_8

abbrev places_2 : ℕ → ℕ
places_2 = below (2 ^ 54) (nearest 2) places_4

unfoldable pub round : ℕ → ℕ
unfolding below
round = below (2 ^ 53) (λ n. n) places_2

-- A rounding that keeps the order, keeps what it has rounded, and does not cross `lo` downwards.
pub record IsRounding (lo : ℕ) (f : ℕ → ℕ) : Type 0 where
  pub mono : (n m : ℕ) → n ≤ m → f n ≤ f m
  pub floor : (n : ℕ) → lo ≤ n → lo ≤ f n
  pub idem : (n : ℕ) → lo ≤ n → f (f n) ≡ f n
  pub kept : f lo ≡ lo

module _ (lo b : ℕ) (f g : ℕ → ℕ) (le : lo < b) (mono : (n m : ℕ) → n ≤ m → f n ≤ f m)
    (floor : (n : ℕ) → lo ≤ n → lo ≤ f n) (top : (n : ℕ) → n < b → f n ≤ b)
    (idem : (n : ℕ) → f (f n) ≡ f n) (kept : f lo ≡ lo) (h : IsRounding b g) where
  below_mono : (n m : ℕ) → n ≤ m → below b f g n ≤ below b f g m
  unfolding below
  below_mono n m k = elim (Bool-cases (ltb n b)) [
    | inl small ↦ elim (Bool-cases (ltb m b)) [
      | inl small' ↦ rw (small, small') (mono n m k)
      | inr big ↦
          rw (small, big)
            (omega (arith, top n (ground (arith, small)), h.floor m (ground (arith, big))))
    ]
    | inr big ↦ elim (Bool-cases (ltb m b)) [
      | inl small' ↦ absurd (ground (arith, big, small', k))
      | inr big' ↦ rw (big, big') (h.mono n m k)
    ]
  ]

  below_floor : (n : ℕ) → lo ≤ n → lo ≤ below b f g n
  unfolding below
  below_floor n k = elim (Bool-cases (ltb n b)) [
    | inl small ↦ rw small (floor n k)
    | inr big ↦ rw big (omega (arith, le, h.floor n (ground (arith, big))))
  ]

  below_idem : (n : ℕ) → below b f g (below b f g n) ≡ below b f g n
  unfolding below
  below_idem n = elim (Bool-cases (ltb n b)) [
    | inl small ↦ rw small (ground (arith, top n (ground (arith, small)), idem n, h.kept))
    | inr big ↦
        let over : b ≤ n = ground (arith, big) in
        rw big (ground (arith, h.floor n over, h.idem n over))
  ]

  below-IsRounding : IsRounding lo (below b f g)
  below-IsRounding = record {
    mono = below_mono;
    floor = below_floor;
    idem = λ n k. below_idem n;
    kept = below_kept;
  }
    where
      below_kept : below b f g lo ≡ lo
      below_kept = unfold below in ground (arith, kept, le)

-- The multiples of each power of two, from its bound on.
from_512 : IsRounding (2 ^ 61) places_512
from_512 = record {
  mono = λ n m k. ground (arith, k);
  floor = λ n k. ground (arith, k);
  idem = λ n k. ground arith;
  kept = ground arith;
}

from_256 : IsRounding (2 ^ 60) places_256
from_256 =
    below-IsRounding (2 ^ 60) (2 ^ 61) (nearest 256) places_512 (omega arith)
      (λ n m k. ground (arith, k)) (λ n k. ground (arith, k)) (λ n k. ground (arith, k))
      (λ n. ground arith) (ground arith) from_512

from_128 : IsRounding (2 ^ 59) places_128
from_128 =
    below-IsRounding (2 ^ 59) (2 ^ 60) (nearest 128) places_256 (omega arith)
      (λ n m k. ground (arith, k)) (λ n k. ground (arith, k)) (λ n k. ground (arith, k))
      (λ n. ground arith) (ground arith) from_256

from_64 : IsRounding (2 ^ 58) places_64
from_64 =
    below-IsRounding (2 ^ 58) (2 ^ 59) (nearest 64) places_128 (omega arith)
      (λ n m k. ground (arith, k)) (λ n k. ground (arith, k)) (λ n k. ground (arith, k))
      (λ n. ground arith) (ground arith) from_128

from_32 : IsRounding (2 ^ 57) places_32
from_32 =
    below-IsRounding (2 ^ 57) (2 ^ 58) (nearest 32) places_64 (omega arith)
      (λ n m k. ground (arith, k)) (λ n k. ground (arith, k)) (λ n k. ground (arith, k))
      (λ n. ground arith) (ground arith) from_64

from_16 : IsRounding (2 ^ 56) places_16
from_16 =
    below-IsRounding (2 ^ 56) (2 ^ 57) (nearest 16) places_32 (omega arith)
      (λ n m k. ground (arith, k)) (λ n k. ground (arith, k)) (λ n k. ground (arith, k))
      (λ n. ground arith) (ground arith) from_32

from_8 : IsRounding (2 ^ 55) places_8
from_8 =
    below-IsRounding (2 ^ 55) (2 ^ 56) (nearest 8) places_16 (omega arith)
      (λ n m k. ground (arith, k)) (λ n k. ground (arith, k)) (λ n k. ground (arith, k))
      (λ n. ground arith) (ground arith) from_16

from_4 : IsRounding (2 ^ 54) places_4
from_4 =
    below-IsRounding (2 ^ 54) (2 ^ 55) (nearest 4) places_8 (omega arith)
      (λ n m k. ground (arith, k)) (λ n k. ground (arith, k)) (λ n k. ground (arith, k))
      (λ n. ground arith) (ground arith) from_8

from_2 : IsRounding (2 ^ 53) places_2
from_2 =
    below-IsRounding (2 ^ 53) (2 ^ 54) (nearest 2) places_4 (omega arith)
      (λ n m k. ground (arith, k)) (λ n k. ground (arith, k)) (λ n k. ground (arith, k))
      (λ n. ground arith) (ground arith) from_4

round-IsRounding : IsRounding 0 round
unfolding round
round-IsRounding =
    below-IsRounding 0 (2 ^ 53) (λ n. n) places_2 (omega arith) (λ n m k. k) (λ n k. omega arith)
      (λ n k. omega (arith, k)) (λ n. refl) refl from_2

-- Rounding keeps the order.
pub round_mono : (n m : ℕ) → n ≤ m → round n ≤ round m
round_mono = round-IsRounding.mono

pub round_idem : (n : ℕ) → round (round n) ≡ round n
round_idem n = round-IsRounding.idem n (omega arith)

-- The whole numbers of the score are doubles.
pub round_whole : (k : ℕ) → k ≤ 100 → round (k * 2 ^ 55) ≡ k * 2 ^ 55
unfolding round below
round_whole k h = ground (arith, h)

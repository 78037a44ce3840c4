-- ===== src/Egg/Decimal/Halving.antt =====
-- Dividing decimal digits by two, as egg/egg-decimal.c does.
use mathlib.Core.Bool.{true≢false}
use gcr.Shared.{
  ℕ, ◌+◌, ◌*◌, ◌/◌, ◌%◌, ◌<◌, ◌≡◌, refl, sym, ap, ◌∙◌, inl, inr, Bool, true, false, List, [], ◌∷◌,
  ◌==◌, if◌then◌else◌, arith, Bool-cases,
}
use gcr.Egg.Asn1x.Digits.{be_value, be_value_grows}
use gcr.Egg.Decimal.{last_bit, halve}

-- No digit, or a first one that is not zero.
abbrev pub IsLed : List ℕ → Type 0
IsLed [] = Unit
IsLed (d ∷ ds) = 0 < d

carry : (d : ℕ) → (if d % 2 == 1 then 5 else 0) ≡ 5 * (d % 2)
carry d = ground arith

pub last_bit-be_value : (acc d : ℕ) (ds : List ℕ) → last_bit (d ∷ ds) ≡ be_value 10 acc (d ∷ ds) % 2
last_bit-be_value acc d [] = omega arith
last_bit-be_value acc d (e ∷ ds) = last_bit-be_value (acc * 10 + d) e ds

same_carry :
    (in_front : Bool) (acc d : ℕ) (ds : List ℕ)
    → be_value 10 ((acc * 10 + d) / 2) (halve in_front (5 * (d % 2)) ds)
      ≡ be_value 10 ((acc * 10 + d) / 2) (halve in_front (5 * ((acc * 10 + d) % 2)) ds)
same_carry in_front acc d ds =
    ap (λ r. be_value 10 ((acc * 10 + d) / 2) (halve in_front (5 * r) ds)) (omega arith)

half_step :
    (in_front : Bool) (acc d : ℕ) (ds : List ℕ)
    → be_value 10 (acc / 2 * 10 + (d / 2 + 5 * (acc % 2))) (halve in_front (5 * (d % 2)) ds)
      ≡ be_value 10 ((acc * 10 + d) / 2) (halve in_front (5 * ((acc * 10 + d) % 2)) ds)
half_step in_front acc d ds =
    ap (λ q. be_value 10 q (halve in_front (5 * (d % 2)) ds)) (omega arith)
    ∙ same_carry in_front acc d ds

pub halve-be_value :
    (in_front : Bool) (acc : ℕ) (ds : List ℕ)
    → (in_front ≡ true → acc / 2 ≡ 0)
    → be_value 10 (acc / 2) (halve in_front (5 * (acc % 2)) ds) ≡ be_value 10 acc ds / 2
unfolding halve
halve-be_value in_front acc [] h = refl
halve-be_value false acc (d ∷ ds) h = rw (carry d) (
    half_step false acc d ds
    ∙ halve-be_value false (acc * 10 + d) ds (λ z. absurd (true≢false (sym z))))
halve-be_value true acc (d ∷ ds) h = elim (Bool-cases (d / 2 + 5 * (acc % 2) == 0)) [
  | inl gone ↦
      let none_left : acc / 2 ≡ (acc * 10 + d) / 2 = ground (arith, gone, h refl) in
      rw (gone, carry d)
        (ap (λ q. be_value 10 q (halve true (5 * (d % 2)) ds)) none_left
          ∙ same_carry true acc d ds
          ∙ halve-be_value true (acc * 10 + d) ds (λ z. omega (arith, none_left, h refl)))
  | inr stays ↦
      rw (stays, carry d)
        (half_step false acc d ds
          ∙ halve-be_value false (acc * 10 + d) ds (λ z. absurd (true≢false (sym z))))
]

pub IsLed-halve : (c : ℕ) (ds : List ℕ) → IsLed (halve true c ds)
unfolding halve
IsLed-halve c [] = tt
IsLed-halve c (d ∷ ds) = elim (Bool-cases (d / 2 + c == 0)) [
  | inl gone ↦ rw gone (IsLed-halve (if d % 2 == 1 then 5 else 0) ds)
  | inr stays ↦ rw stays (ground (arith, stays))
]

pub led_value : (d : ℕ) (ds : List ℕ) → 0 < d → 0 < be_value 10 0 (d ∷ ds)
led_value d ds h = omega (arith, h, be_value_grows 10 (0 * 10 + d) ds (omega arith))

-- ===== src/Egg/Asn1x/Digits.antt =====
-- The digits of tags and lengths in egg/egg-asn1x.c: what the writer's loops make, the parser's read.
use native.Mathlib.Nat.{pow-suc}
use gcr.Shared.{
  ℕ, zero, suc, ◌+◌, ◌*◌, ◌/◌, ◌%◌, ◌^◌, ◌≤◌, ◌<◌, ◌≡◌, inl, inr, ap, ◌∙◌, List, [], ◌∷◌, ◌++◌,
  length, ◌==◌, arith, All, Bool-cases,
}
use gcr.Egg.Asn1x.Tlv.{ok, tag_loop, length_loop}
use gcr.Egg.Asn1x.Unparse.{base_digits, mark_digits}

-- The number that digits stand for, the most significant first, behind the digits of `acc`.
abbrev pub be_value : ℕ → ℕ → List ℕ → ℕ
be_value base acc [] = acc
be_value base acc (d ∷ ds) = be_value base (acc * base + d) ds

pub be_value_grows : (base acc : ℕ) (ds : List ℕ) → 0 < base → acc ≤ be_value base acc ds
be_value_grows base acc [] h = omega arith
be_value_grows base acc (d ∷ ds) h =
    let more : acc ≤ acc * base = grind arith in
    omega (arith, more, be_value_grows base (acc * base + d) ds h)

quotient_less : (n base : ℕ) → 0 < n → 1 < base → n / base < n
quotient_less n base h k = grind arith

divided : (n base : ℕ) → 1 < base → n / base * base + n % base ≡ n
divided n base h = grind arith

module _ (base : ℕ) (big : 1 < base) where
  pub be_value-base_digits :
      (fuel n : ℕ) (acc : List ℕ)
      → n ≤ fuel
      → be_value base 0 (base_digits base fuel n acc) ≡ be_value base n acc
  unfolding base_digits
  be_value-base_digits zero n acc h = ap (λ k. be_value base k acc) (omega arith)
  be_value-base_digits (suc fuel) n acc h = elim (Bool-cases (n == 0)) [
    | inl z ↦ rw z (ap (λ k. be_value base k acc) (ground (arith, z)))
    | inr more ↦
        let less : n / base < n = quotient_less n base (ground (arith, more)) big in
        rw more (
          be_value-base_digits fuel (n / base) (n % base ∷ acc) (omega (arith, less, h))
          ∙ ap (λ k. be_value base k acc) (divided n base big))
  ]

  pub All-base_digits :
      (fuel n : ℕ) (acc : List ℕ)
      → All (λ d. d < base) acc
      → All (λ d. d < base) (base_digits base fuel n acc)
  unfolding base_digits
  All-base_digits zero n acc h = h
  All-base_digits (suc fuel) n acc h = elim (Bool-cases (n == 0)) [
    | inl z ↦ rw z h
    | inr more ↦ rw more (All-base_digits fuel (n / base) (n % base ∷ acc) (grind arith, h))
  ]

  pub length-base_digits_le :
      (fuel n : ℕ) (acc : List ℕ) → length acc ≤ length (base_digits base fuel n acc)
  unfolding base_digits
  length-base_digits_le zero n acc = omega arith
  length-base_digits_le (suc fuel) n acc =
      ground (arith, length-base_digits_le fuel (n / base) (n % base ∷ acc))

  pub length-base_digits_pos :
      (fuel n : ℕ) → 0 < n → n ≤ fuel → 0 < length (base_digits base fuel n [])
  unfolding base_digits
  length-base_digits_pos zero n h k = absurd (omega arith)
  length-base_digits_pos (suc fuel) n h k =
      ground (arith, length-base_digits_le fuel (n / base) (n % base ∷ []))

pub length-base_digits_256 :
    (k fuel n : ℕ) (acc : List ℕ)
    → n < 256 ^ k
    → length (base_digits 256 fuel n acc) ≤ k + length acc
unfolding base_digits
length-base_digits_256 k zero n acc h = omega arith
length-base_digits_256 zero (suc fuel) zero acc h = omega arith
length-base_digits_256 zero (suc fuel) (suc n) acc h = absurd (omega arith)
length-base_digits_256 (suc k) (suc fuel) n acc h =
    let small : n / 256 < 256 ^ k = omega (arith, pow-suc 256 k) in
    ground (arith, length-base_digits_256 k fuel (n / 256) (n % 256 ∷ acc))

-- The loop of a long tag reads marked digits, where the tag has 32 bits.
pub tag_loop-mark_digits :
    (n punt ris d : ℕ) (ds rest : List ℕ)
    → All (λ x. x < 128) (d ∷ ds)
    → be_value 128 ris (d ∷ ds) < 2 ^ 32
    → punt + length ds ≤ n
    → tag_loop n punt ris (mark_digits (d ∷ ds) ++ rest)
      ≡ ok (be_value 128 ris (d ∷ ds), punt + 1 + length ds)
unfolding tag_loop mark_digits
tag_loop-mark_digits n punt ris d [] rest h small fits = ground arith
tag_loop-mark_digits n punt ris d (e ∷ ds) rest h small fits =
    let grows : ris * 128 + d ≤ be_value 128 (ris * 128 + d) (e ∷ ds) =
      be_value_grows 128 (ris * 128 + d) (e ∷ ds) (omega arith) in
    let same : (ris * 128 % 2 ^ 32 + (d + 128) % 128) % 2 ^ 32 ≡ ris * 128 + d =
      omega (arith, grows, small, h.0) in
    let first : ris * 128 % 2 ^ 32 ≡ ris * 128 = omega (arith, grows, small) in
    rw (same, first)
      (ground (
        arith,
        tag_loop-mark_digits n (punt + 1) (ris * 128 + d) e ds rest h.1 small (omega arith),
      ))

-- The loop of a long length reads as many digits as are announced, where the length has 32 bits.
pub length_loop-digits :
    (n k punt ans : ℕ) (ds rest : List ℕ)
    → All (λ x. x < 256) ds
    → be_value 256 ans ds < 2 ^ 32
    → punt + length ds ≡ k + 1
    → k < n
    → length_loop n k punt ans (ds ++ rest) ≡ ok (be_value 256 ans ds, k + 1)
unfolding length_loop
length_loop-digits n k punt ans [] [] h small all fits = ground arith
length_loop-digits n k punt ans [] (x ∷ rest) h small all fits = ground arith
length_loop-digits n k punt ans (d ∷ ds) rest h small all fits =
    let grows : ans * 256 + d ≤ be_value 256 (ans * 256 + d) ds =
      be_value_grows 256 (ans * 256 + d) ds (omega arith) in
    let same : (ans * 256 % 2 ^ 32 + d) % 2 ^ 32 ≡ ans * 256 + d =
      omega (arith, grows, small, h.0) in
    let first : ans * 256 % 2 ^ 32 ≡ ans * 256 = omega (arith, grows, small) in
    rw (same, first)
      (ground (
        arith,
        length_loop-digits n k (punt + 1) (ans * 256 + d) ds rest h.1 small (omega arith) fits,
      ))

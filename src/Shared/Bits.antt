-- ===== src/Shared/Bits.antt =====
-- `|` of a shifted field and a lower one is a sum, at every width.
use Prim.Native.Nat.{
  ℕ, zero, suc, ◌+◌, ◌*◌, ◌/◌, ◌%◌, ◌^◌, ◌≤◌, ◌<◌, max, bit_or, digits, bit_or-bitwise,
}
use mathlib.Core.Path.{◌≡◌, refl, ap, ◌∙◌}
use native.Mathlib.Nat.{pow-suc}
use native.Mathlib.Omega.{arith}

-- What `bit_or` stands for, with its fuel.
abbrev or_digits : ℕ → ℕ → ℕ → ℕ
or_digits fuel a b = digits (λ b. b) max fuel a b

or_digits_zero_left : (fuel b : ℕ) → or_digits fuel 0 b ≡ b
or_digits_zero_left zero b = refl
or_digits_zero_left (suc fuel) b = refl

-- One binary digit of each number.
or_digits_step :
    (fuel a b : ℕ)
    → or_digits (suc fuel) a b ≡ or_digits fuel (a / 2) (b / 2) * 2 + max (a % 2) (b % 2)
or_digits_step fuel zero b = omega (arith, or_digits_zero_left fuel (b / 2))
or_digits_step fuel (suc a) b = refl

or_digits_zero_right : (fuel a : ℕ) → a ≤ fuel → or_digits fuel a 0 ≡ a
or_digits_zero_right zero zero h = refl
or_digits_zero_right zero (suc a) h = absurd (omega arith)
or_digits_zero_right (suc fuel) zero h = refl
or_digits_zero_right (suc fuel) (suc a) h =
    omega (arith, or_digits_zero_right fuel (suc a / 2) (omega arith))

double_shift : (q k : ℕ) → q * 2 ^ suc k ≡ 2 * (q * 2 ^ k)
double_shift q k = omega (arith, ap (λ (t : ℕ). q * t) (pow-suc 2 k))

or_digits_shift :
    (k fuel q r : ℕ) → q * 2 ^ k ≤ fuel → r < 2 ^ k → or_digits fuel (q * 2 ^ k) r ≡ q * 2 ^ k + r
or_digits_shift zero fuel q zero room fits =
    omega (arith, or_digits_zero_right fuel (q * 2 ^ zero) room)
or_digits_shift zero fuel q (suc r) room fits = absurd (omega arith)
or_digits_shift (suc k) zero q r room fits = omega arith
or_digits_shift (suc k) (suc fuel) q r room fits = ground (
  arith,
  or_digits_step fuel (q * 2 ^ suc k) r,
  double_shift q k,
  pow-suc 2 k,
  or_digits_shift k fuel q (r / 2),
)

-- The fields `q << k` and `r` have no digit in common.
pub bit_or_shifted : (k q r : ℕ) → r < 2 ^ k → bit_or (q * 2 ^ k) r ≡ q * 2 ^ k + r
bit_or_shifted k q r fits =
    bit_or-bitwise (q * 2 ^ k) r ∙ or_digits_shift k (q * 2 ^ k) q r (omega arith) fits

-- So too where the upper field is written as any multiple of `2 ^ k`.
pub bit_or-add : (k q a r : ℕ) → a ≡ q * 2 ^ k → r < 2 ^ k → bit_or a r ≡ a + r
bit_or-add k q a r e fits = rw e (bit_or_shifted k q r fits)

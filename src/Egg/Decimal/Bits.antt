-- ===== src/Egg/Decimal/Bits.antt =====
-- The bits that egg/egg-decimal.c writes, from the last one on.
use native.Mathlib.Nat.{pow-suc}
use mathlib.Core.Option
use mathlib.Core.Path.{subst}
use gcr.Shared.{
  ℕ, zero, suc, ◌+◌, ◌-◌, ◌*◌, ◌^◌, ◌≤◌, ◌<◌, ◌≡◌, refl, sym, ap, ◌∙◌, inl, inr, true, Option, some,
  List, [], ◌∷◌, ◌==◌, All, arith, Bool-cases, ==_iff,
}
use gcr.Egg.Asn1x.Digits.{be_value}
use gcr.Egg.Decimal.{last_bit, halve, Output, put_bit, rounds, finish}
use gcr.Egg.Decimal.Halving.{IsLed, last_bit-be_value, halve-be_value, IsLed-halve, led_value}

-- The number that a run stands for when `rest` is still to be written.
abbrev pub total : Output → ℕ → ℕ
total out rest = be_value 256 (rest * 2 ^ out.at_bit + out.byte) (out.bytes)

-- That there is room for the bits of `rest`.
abbrev pub Fits : Output → ℕ → Type 0
Fits out rest =
    (out.at_bit < 8) × (out.byte < 2 ^ out.at_bit) × (rest * 2 ^ out.at_bit < 128 * 256 ^ out.room)

abbrev pub AllBytes : List ℕ → Type 0
AllBytes = All (λ byte. byte < 256)

abbrev pub Writes : Option Output → ℕ → ℕ → Type 0
Writes result rest value =
    (out : Output) × (result ≡ some out)
    × Fits out rest
    × AllBytes (out.bytes)
    × (total out rest ≡ value)

distributed : (rest bit t : ℕ) → (rest * 2 + bit) * t ≡ rest * (t * 2) + bit * t
distributed rest bit t = omega arith

bit_times : (bit t : ℕ) → bit < 2 → bit * t ≤ t
bit_times zero t h = omega arith
bit_times (suc zero) t h = omega arith
bit_times (suc (suc bit)) t h = absurd (omega arith)

pub pow_next : (base k n : ℕ) → n ≡ suc k → base ^ n ≡ base ^ k * base
pow_next base k n e = ap (λ m. base ^ m) e ∙ pow-suc base k

put_bit-Writes :
    (rest bit : ℕ) (out : Output)
    → bit < 2
    → 0 < rest * 2 + bit
    → Fits out (rest * 2 + bit)
    → AllBytes (out.bytes)
    → Writes (put_bit bit out) rest (total out (rest * 2 + bit))
unfolding put_bit
put_bit-Writes rest bit out two more fits narrow =
    let spread = distributed rest bit (2 ^ out.at_bit) in
    let low = bit_times bit (2 ^ out.at_bit) two in
    elim (Bool-cases (out.at_bit == 7)) [
      | inl full ↦
          let power : 2 ^ out.at_bit ≡ 128 = ap (λ a. 2 ^ a) ((==_iff (out.at_bit) 7).0 full) in
          let scaled = ap (λ t. (rest * 2 + bit) * t) power in
          let scaled_bit = ap (λ t. bit * t) power in
          elim (Bool-cases (out.room == 0)) [
            | inl none_left ↦
                let one : 256 ^ out.room ≡ 1 =
                  ap (λ r. 256 ^ r) ((==_iff (out.room) 0).0 none_left) in
                absurd (omega (arith, fits.2, scaled, one, more))
            | inr some_left ↦
                let size = pow_next 256 (out.room - 1) (out.room) (ground (arith, some_left)) in
                (
                  record {
                    bytes = (out.byte + bit * 2 ^ out.at_bit) ∷ out.bytes;
                    byte = 0;
                    at_bit = 0;
                    room = out.room - 1;
                  },
                  rw (full, some_left) refl,
                  (omega arith, omega arith, omega (arith, fits.2, scaled, size)),
                  (omega (arith, fits.1, low, power), narrow),
                  ap (λ x. be_value 256 x (out.bytes)) (omega (arith, scaled, scaled_bit)),
                )
          ]
      | inr open_byte ↦
          let power = pow_next 2 (out.at_bit) (out.at_bit + 1) (omega arith) in
          let scaled = ap (λ t. rest * t) power in
          (
            record out { byte = out.byte + bit * 2 ^ out.at_bit; at_bit = out.at_bit + 1 },
            rw open_byte refl,
            (
              ground (arith, open_byte, fits.0),
              omega (arith, fits.1, low, power),
              omega (arith, fits.2, scaled, spread),
            ),
            narrow,
            ap (λ x. be_value 256 x (out.bytes)) (omega (arith, scaled, spread)),
          )
    ]

pub finish-be_value :
    (out : Output) → out.byte < 2 ^ out.at_bit → be_value 256 0 (finish out) ≡ total out 0
finish-be_value out small = elim (Bool-cases (out.at_bit == 0)) [
  | inl done ↦
      let power : 2 ^ out.at_bit ≡ 1 = ap (λ a. 2 ^ a) ((==_iff (out.at_bit) 0).0 done) in
      rw done (ap (λ x. be_value 256 x (out.bytes)) (omega (arith, small, power)))
  | inr part ↦ rw part (ap (λ x. be_value 256 x (out.bytes)) (omega arith))
]

two_pow_le : (a : ℕ) → a < 8 → 2 ^ a ≤ 128
two_pow_le zero h = omega arith
two_pow_le (suc zero) h = omega arith
two_pow_le (suc (suc zero)) h = omega arith
two_pow_le (suc (suc (suc zero))) h = omega arith
two_pow_le (suc (suc (suc (suc zero)))) h = omega arith
two_pow_le (suc (suc (suc (suc (suc zero))))) h = omega arith
two_pow_le (suc (suc (suc (suc (suc (suc zero)))))) h = omega arith
two_pow_le (suc (suc (suc (suc (suc (suc (suc zero))))))) h = omega arith
two_pow_le (suc (suc (suc (suc (suc (suc (suc (suc a)))))))) h = absurd (omega (arith, h))

pub finish-AllBytes :
    (out : Output) (rest : ℕ) → Fits out rest → AllBytes (out.bytes) → AllBytes (finish out)
finish-AllBytes out rest fits narrow = elim (Bool-cases (out.at_bit == 0)) [
  | inl done ↦ rw done narrow
  | inr part ↦ rw part (omega (arith, fits.1, two_pow_le (out.at_bit) fits.0), narrow)
]

pub rounds-Writes :
    (fuel : ℕ) (digits : List ℕ) (out : Output)
    → IsLed digits
    → be_value 10 0 digits < 2 ^ fuel
    → Fits out (be_value 10 0 digits)
    → AllBytes (out.bytes)
    → Writes (rounds fuel digits out) 0 (total out (be_value 10 0 digits))
unfolding rounds Option.bind
rounds-Writes fuel [] out led enough fits narrow = (out, refl, fits, narrow, refl)
rounds-Writes zero (d ∷ ds) out led enough fits narrow =
    absurd (omega (arith, enough, led_value d ds led))
rounds-Writes (suc fuel) (d ∷ ds) out led enough fits narrow =
    let value = be_value 10 0 (d ∷ ds) in
    let half = halve-be_value true 0 (d ∷ ds) (λ z. refl) in
    let left = be_value 10 0 (halve true 0 (d ∷ ds)) in
    let bit = last_bit-be_value 0 d ds in
    let split : value ≡ left * 2 + last_bit (d ∷ ds) = omega (arith, half, bit) in
    let (next, e, fits', narrow', same) =
      put_bit-Writes left (last_bit (d ∷ ds)) out (omega (arith, bit))
        (omega (arith, split, led_value d ds led)) (subst (Fits out) split fits) narrow in
    let (out', e', fits'', narrow'', same') =
      rounds-Writes fuel (halve true 0 (d ∷ ds)) next (IsLed-halve 0 (d ∷ ds))
        (omega (arith, split, enough, pow-suc 2 fuel)) fits' narrow' in
    (out', rw e e', fits'', narrow'', same' ∙ same ∙ ap (total out) (sym split))

-- ===== src/Egg/Decimal.antt =====
-- egg_decimal_decode of egg/egg-decimal.c: a number in decimal text to its bytes, the most significant
-- first. A character is its code.

pub mod Halving
pub mod Bits
pub mod Leading
pub mod Value
use mathlib.Core.Option
use gcr.Shared.{
  ℕ, zero, suc, ◌+◌, ◌-◌, ◌*◌, ◌/◌, ◌%◌, ◌^◌, Bool, true, false, ◌&&◌, ◌||◌, not, Option, none,
  some, List, [], ◌∷◌, length, ltb, ◌==◌, if◌then◌else◌,
}

-- The digits from the first one on that is not zero; `none` for any other character.
unfoldable pub to_digits : Bool → List ℕ → Option (List ℕ)
to_digits saw_non_zero [] = some []
to_digits saw_non_zero (ch ∷ text) =
    let kept = not (ch == 48) || saw_non_zero in
    let rest = to_digits kept text in
    if ltb ch 48 || ltb 57 ch
    then none
    else (if kept then Option.map (λ digits. (ch - 48) ∷ digits) rest else rest)

-- digits[n_digits - 1] % 2
abbrev pub last_bit : List ℕ → ℕ
last_bit [] = 0
last_bit (d ∷ []) = d % 2
last_bit (d ∷ e ∷ ds) = last_bit (e ∷ ds)

-- The loop that divides by two, without the digits that are cleared: those in front of which all are
-- zero, as they become zero themselves.
unfoldable pub halve : Bool → ℕ → List ℕ → List ℕ
halve in_front carry [] = []
halve in_front carry (d ∷ ds) =
    let digit = d / 2 + carry in
    let next = if d % 2 == 1 then 5 else 0 in
    let cleared = halve true next ds in
    let rest = halve false next ds in if in_front && digit == 0 then cleared else digit ∷ rest

-- The bytes: those that are done, the one at `at_byte` with the bits it has so far, the place of the next
-- bit, and the number of bytes in front of it.
pub record Output : Type 0 where
  pub bytes : List ℕ
  pub byte : ℕ
  pub at_bit : ℕ
  pub room : ℕ

-- `none` where the assertion fails.
unfoldable pub put_bit : ℕ → Output → Option Output
put_bit bit out =
    let byte = out.byte + bit * 2 ^ out.at_bit in
    if out.at_bit == 7
    then (if out.room == 0
        then none
        else some (record { bytes = byte ∷ out.bytes; byte = 0; at_bit = 0; room = out.room - 1 }))
    else some (record out { byte = byte; at_bit = out.at_bit + 1 })

-- The rounds, for digits of which the first one is not zero. A fuel of four rounds for a digit of the
-- text is enough; `none` also where it is not.
unfoldable pub rounds : ℕ → List ℕ → Output → Option Output
rounds fuel [] out = some out
rounds zero (d ∷ ds) out = none
rounds (suc fuel) (d ∷ ds) out =
    Option.bind (put_bit (last_bit (d ∷ ds)) out) (rounds fuel (halve true 0 (d ∷ ds)))

abbrev pub finish : Output → List ℕ
finish out = if out.at_bit == 0 then out.bytes else out.byte ∷ out.bytes

unfoldable pub egg_decimal_decode : List ℕ → Option (List ℕ)
egg_decimal_decode text = Option.bind (to_digits false text) (λ digits. Option.map finish (
    rounds (4 * length text) digits
      (record { bytes = []; byte = 0; at_bit = 0; room = length text - 1 })))

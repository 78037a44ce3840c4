-- ===== src/Egg/Decimal/Value.antt =====
-- That egg/egg-decimal.c decodes decimal text to the bytes of the same number.
use mathlib.Core.Option
use gcr.Shared.{ℕ, ◌-◌, ◌≤◌, ◌≡◌, Option, some, List, [], length, map}
use gcr.Egg.Asn1x.Digits.{be_value}
use gcr.Egg.Decimal.{Output}
use gcr.Egg.Decimal.Halving.{IsLed}

abbrev pub IsDecimal : ℕ → Type 0
IsDecimal ch = (48 ≤ ch) × (ch ≤ 57)

abbrev pub numbers : List ℕ → List ℕ
numbers = map (λ ch. ch - 48)

abbrev Digits : Option (List ℕ) → ℕ → Type 0
Digits result value =
    (digits : List ℕ) × (result ≡ some digits) × IsLed digits × (be_value 10 0 digits ≡ value)

abbrev initial : List ℕ → Output
initial text = record { bytes = []; byte = 0; at_bit = 0; room = length text - 1 }

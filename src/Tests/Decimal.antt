-- ===== src/Tests/Decimal.antt =====
-- egg/egg-decimal.c on short texts.
use mathlib.Core.Option
use gcr.Shared.{◌≡◌, refl, none, some, [], ◌∷◌}
use gcr.Egg.Decimal.{egg_decimal_decode, to_digits, rounds, put_bit, halve}

decode-257 : egg_decimal_decode (48 ∷ 50 ∷ 53 ∷ 55 ∷ []) ≡ some (1 ∷ 1 ∷ [])
unfolding egg_decimal_decode to_digits rounds put_bit halve Option.bind
decode-257 = refl

-- The number 0 has no bytes.
decode-zero_digit : egg_decimal_decode (48 ∷ []) ≡ some []
unfolding egg_decimal_decode to_digits rounds Option.bind
decode-zero_digit = refl

decode-letter : egg_decimal_decode (49 ∷ 97 ∷ []) ≡ none
unfolding egg_decimal_decode to_digits Option.bind
decode-letter = refl

-- ===== src/Tests/Hex.antt =====
-- egg/egg-hex.c on a few bytes.
use gcr.Shared.{◌≡◌, refl, true, some, [], ◌∷◌, arith}
use gcr.Egg.Hex.{upper_index, decode_rounds, decode_full, decode_group, decode, encode_full}
use gcr.Egg.Hex.RoundTrip.{decode_full-encode_full}

decode_full-encode_full_example :
    decode_full (encode_full (10 ∷ 255 ∷ []) true (some (58 ∷ [])) 1) (some (58 ∷ [])) 1
    ≡ some (10 ∷ 255 ∷ [])
decode_full-encode_full_example =
    decode_full-encode_full (10 ∷ 255 ∷ []) true (some (58 ∷ [])) (omega arith, (omega arith, tt))

-- A zero byte is taken for the digit 0.
decode-zero : decode (48 ∷ 0 ∷ []) ≡ some (0 ∷ [])
unfolding decode decode_full decode_group decode_rounds upper_index
decode-zero = refl

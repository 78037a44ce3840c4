-- ===== src/Egg/Hex.antt =====
-- egg/egg-hex.c: bytes as hexadecimal digits, in groups between delimiters. The number of bytes of the
-- data is always given; a delimiter that is NULL is `none`.
pub mod RoundTrip
pub mod Rounds
use mathlib.Core.Option
use gcr.Shared.{
  ℕ, zero, suc, ◌+◌, ◌-◌, ◌*◌, ◌/◌, ◌%◌, Bool, true, false, ◌&&◌, ◌||◌, not, Option, none, some,
  List, [], ◌∷◌, ◌++◌, length, take, drop, ltb, leb, ◌==◌, if◌then◌else◌, same_bytes,
}

-- HEXC_UPPER or HEXC_LOWER
unfoldable pub hexc : Bool → ℕ → ℕ
hexc upper_case n = if ltb n 10 then 48 + n else if upper_case then 55 + n else 87 + n

-- The place of a character in HEXC_UPPER, after g_ascii_toupper; strchr also finds the terminator.
unfoldable pub upper_index : ℕ → Option ℕ
upper_index c =
    if leb 48 c && leb c 57
    then some (c - 48)
    else if leb 65 c && leb c 70
    then some (c - 55)
    else if leb 97 c && leb c 102
    then some (c - 87)
    else if c == 0
    then some 16
    else none

-- Two digits, of which four bits each are taken.
abbrev pub byte_of : Option ℕ → Option ℕ → Option ℕ
byte_of none lo = none
byte_of (some h) none = none
byte_of (some h) (some l) = some (h % 16 * 16 + l % 16)

abbrev pub with_byte : Option ℕ → Option (List ℕ × List ℕ) → Option (List ℕ × List ℕ)
with_byte none rest = none
with_byte (some b) none = none
with_byte (some b) (some (bytes, rest)) = some (b ∷ bytes, rest)

-- The inner loop: at most `group` bytes, and what is left of the data. A digit without a second one is
-- an error.
unfoldable pub decode_group : ℕ → List ℕ → Option (List ℕ × List ℕ)
decode_group zero bytes_in = some ([], bytes_in)
decode_group (suc group) [] = some ([], [])
decode_group (suc group) (c ∷ []) = none
decode_group (suc group) (c ∷ d ∷ rest) =
    with_byte (byte_of (upper_index c) (upper_index d)) (decode_group group rest)

-- The data behind the delimiter, which stands before every group but the first.
unfoldable pub skip_delim : Option (List ℕ) → List ℕ → Option (List ℕ)
skip_delim none bytes_in = some bytes_in
skip_delim (some delim) bytes_in =
    if ltb (length bytes_in) (length delim)
    then none
    else if same_bytes (take (length delim) bytes_in) delim
    then some (drop (length delim) bytes_in)
    else none

abbrev pub bytes_before : List ℕ → Option (List ℕ) → Option (List ℕ)
bytes_before bytes rest = Option.map (λ more. bytes ++ more) rest

-- The outer loop, behind the first group. The fuel is the number of rounds.
unfoldable pub decode_rounds : ℕ → Option (List ℕ) → ℕ → List ℕ → Option (List ℕ)
decode_rounds fuel delim group [] = some []
decode_rounds zero delim group (c ∷ cs) = none
decode_rounds (suc fuel) delim group (c ∷ cs) = elim (skip_delim delim (c ∷ cs)) [
  | none ↦ none
  | some behind ↦ elim (decode_group group behind) [
    | none ↦ none
    | some (bytes, rest) ↦ bytes_before bytes (decode_rounds fuel delim group rest)
  ]
]

-- Every round takes a byte of the data at least, so that their number is enough fuel.
unfoldable pub decode_full : List ℕ → Option (List ℕ) → ℕ → Option (List ℕ)
decode_full bytes_in delim group = if group == 0 then none else elim (decode_group group bytes_in) [
  | none ↦ none
  | some (bytes, rest) ↦ bytes_before bytes (decode_rounds (length bytes_in) delim group rest)
]

unfoldable pub decode : List ℕ → Option (List ℕ)
decode bytes_in = decode_full bytes_in none 1

abbrev pub delim_text : Option (List ℕ) → List ℕ
delim_text none = []
delim_text (some delim) = delim

-- The loop over the data, of which `bytes` bytes are written.
unfoldable pub encode_from : Bool → Option (List ℕ) → ℕ → ℕ → List ℕ → List ℕ
encode_from upper_case delim group bytes [] = []
encode_from upper_case delim group bytes (b ∷ bs) =
    (if not (group == 0) && (not (bytes == 0) && bytes % group == 0) then delim_text delim else [])
    ++ (hexc upper_case (b / 16 % 16)
        ∷ hexc upper_case (b % 16)
        ∷ encode_from upper_case delim group (bytes + 1) bs)

unfoldable pub encode_full : List ℕ → Bool → Option (List ℕ) → ℕ → List ℕ
encode_full bytes_in upper_case delim group = encode_from upper_case delim group 0 bytes_in

unfoldable pub encode : List ℕ → List ℕ
encode bytes_in = encode_full bytes_in true none 0

-- ===== src/Gcr/Record/Escape.antt =====
-- The escapes in the columns of gcr/gcr-record.c, and the strings that are read and set through them.
-- A character is a byte; the escapes of three octal digits wrap in eight bits, as gchar does.
use mathlib.Core.Option
use gcr.Shared.{
  ℕ, ◌+◌, ◌-◌, ◌*◌, ◌/◌, ◌%◌, ◌^◌, Bool, true, false, ◌&&◌, ◌||◌, not, Option, none, some, [], ◌∷◌,
  ◌++◌, ltb, leb, ◌==◌, if◌then◌else◌,
}
use gcr.Gcr.Record.{Text, Record, backslash, get_raw, take_column}

-- HEXC_LOWER
unfoldable pub hexc_lower : ℕ → ℕ
hexc_lower n = if ltb n 10 then 48 + n else 87 + n

-- The place of a character in HEXC_LOWER, after g_ascii_tolower; strchr also finds the terminator.
unfoldable pub hexc_index : ℕ → Option ℕ
hexc_index c =
    if leb 48 c && leb c 57
    then some (c - 48)
    else if leb 97 c && leb c 102
    then some (c - 87)
    else if leb 65 c && leb c 70
    then some (c - 55)
    else if c == 0
    then some 16
    else none

-- The switch of c_colons_escape: the letter of an escape, and 0 where there is none.
unfoldable pub escape_letter : ℕ → ℕ
escape_letter c =
    if c == 8
    then 98
    else if c == 12
    then 102
    else if c == 10
    then 110
    else if c == 13
    then 114
    else if c == 9
    then 116
    else if c == backslash
    then backslash
    else if c == 34
    then 34
    else 0

-- Whether a byte is escaped. The test against 0x127 is never true of a byte.
unfoldable pub is_escaped : ℕ → ℕ → Bool
unfolding escape_letter
is_escaped extra c = not (escape_letter c == 0) || (ltb c 32 || (leb 0x127 c || c == extra))

unfoldable pub escape_byte : ℕ → ℕ → Text
unfolding escape_letter is_escaped hexc_lower
escape_byte extra c =
    if is_escaped extra c
    then (if escape_letter c == 0
        then backslash ∷ 120 ∷ hexc_lower (c / 16 % 16) ∷ hexc_lower (c % 16) ∷ []
        else backslash ∷ escape_letter c ∷ [])
    else c ∷ []

unfoldable pub escape_bytes : ℕ → Text → Text
escape_bytes extra [] = []
escape_bytes extra (c ∷ cs) = escape_byte extra c ++ escape_bytes extra cs

unfoldable pub needs_escape : ℕ → Text → Bool
needs_escape extra [] = false
needs_escape extra (c ∷ cs) = is_escaped extra c || needs_escape extra cs

-- `none` where no escape is needed.
unfoldable pub c_colons_escape : Text → ℕ → Option Text
c_colons_escape source extra =
    if needs_escape extra source then some (escape_bytes extra source) else none

-- Where the loop of c_colons_unescape stands: between characters, behind a backslash, behind `k`
-- octal digits of the value `v`, or behind the first of the two characters that are read as
-- hexadecimal digits.
pub data Place : Type 0 where
  between : Place
  escape : Place
  octal : (k v : ℕ) → Place
  hexadecimal : (v : ℕ) → Place

abbrev pub is_octal : ℕ → Bool
is_octal c = leb 48 c && leb c 55

-- The character that a letter behind a backslash stands for.
unfoldable pub letter_value : ℕ → ℕ
letter_value c =
    if c == 98
    then 8
    else if c == 102
    then 12
    else if c == 110
    then 10
    else if c == 114
    then 13
    else if c == 116
    then 9
    else c

abbrev pub push : ℕ → Option Text → Option Text
push c rest = Option.map (λ cs. c ∷ cs) rest

-- The two hexadecimal digits are taken from the `x` on, which is none: what a text that ends behind
-- the first of them would do is not reached.
unfoldable pub unescape_from : Place → Text → Option Text
unescape_from between [] = some []
unescape_from between (c ∷ cs) = elim (c == backslash) [
  | true ↦ unescape_from escape cs
  | false ↦ push c (unescape_from between cs)
]
unescape_from escape [] = none
unescape_from escape (c ∷ cs) = elim (is_octal c) [
  | true ↦ unescape_from (octal 1 (c - 48)) cs
  | false ↦ elim (c == 120) [
    | true ↦ elim (hexc_index c) [ none ↦ none | some v ↦ unescape_from (hexadecimal v) cs ]
    | false ↦ push (letter_value c) (unescape_from between cs)
  ]
]
unescape_from (octal k v) [] = some (v ∷ [])
unescape_from (octal k v) (c ∷ cs) = elim (ltb k 3 && is_octal c) [
  | true ↦ unescape_from (octal (k + 1) ((v * 8 + (c - 48)) % 2 ^ 8)) cs
  | false ↦ elim (c == backslash) [
    | true ↦ push v (unescape_from escape cs)
    | false ↦ push v (push c (unescape_from between cs))
  ]
]
unescape_from (hexadecimal v) [] = none
unescape_from (hexadecimal v) (c ∷ cs) = elim (hexc_index c) [
  | none ↦ none
  | some d ↦ push ((v * 16 + d) % 2 ^ 8) (unescape_from between cs)
]

unfoldable pub has_backslash : Text → Bool
has_backslash [] = false
has_backslash (c ∷ cs) = c == backslash || has_backslash cs

-- `none` where an escape is invalid, or where there is none.
unfoldable pub c_colons_unescape : Text → Option Text
c_colons_unescape source = if has_backslash source then unescape_from between source else none

-- Up to the terminator that an escape may have put in.
abbrev pub c_string : Text → Text
c_string [] = []
c_string (c ∷ cs) = if c == 0 then [] else c ∷ c_string cs

abbrev pub or_value : Text → Option Text → Text
or_value value none = value
or_value value (some text) = c_string text

-- `is_utf8` is g_utf8_validate, and `from_latin1` g_convert from ISO-8859-1.
module _ (is_utf8 : Text → Bool) (from_latin1 : Text → Option Text) where
  abbrev pub as_utf8 : Text → Option Text
  as_utf8 value = if is_utf8 value then some value else from_latin1 value

  abbrev pub string_of : Option Text → Option Text
  string_of none = none
  string_of (some value) = as_utf8 (or_value value (c_colons_unescape value))

  unfoldable pub get_string : Record → ℕ → Option Text
  unfolding c_colons_unescape
  get_string r column = string_of (get_raw r column)

abbrev pub escaped_or : Text → Option Text → Text
escaped_or string none = string
escaped_or string (some escaped) = escaped

unfoldable pub set_string : Record → ℕ → Text → Record
set_string r column string =
    take_column r column (escaped_or string (c_colons_escape string r.delimiter))

-- ===== src/Gcr/Record/Strings.antt =====
-- What becomes of a string that is set in a column of gcr/gcr-record.c, and read again.
use gcr.Shared.{
  ℕ, zero, suc, ◌<◌, ◌≡◌, ◌≢◌, inl, inr, refl, sym, ap, ◌∙◌, Bool, true, false, ◌&&◌, ◌||◌, Option,
  none, some, List, [], ◌∷◌, ◌++◌, length, get_elem?, ◌==◌, arith, Bool-cases, ne→==_false, lt→ltb,
}
use gcr.Gcr.Record.{Text, Record, backslash, get_raw, take_column, replace_column}
use gcr.Gcr.Record.Columns.{Without}
use gcr.Gcr.Record.Escape.{
  escape_letter, is_escaped, escape_byte, escape_bytes, needs_escape, c_colons_escape, between,
  is_octal, letter_value, push, hexc_index, unescape_from, has_backslash, c_colons_unescape,
  c_string, or_value, as_utf8, string_of, get_string, escaped_or, set_string,
}

-- Whether a byte is written as a backslash, an `x` and two hexadecimal digits.
abbrev pub in_hex : ℕ → ℕ → Bool
in_hex extra c = is_escaped extra c && escape_letter c == 0

letter_back :
    (c : ℕ)
    → escape_letter c ≢ 0
    → (is_octal (escape_letter c) ≡ false)
      × (((escape_letter c == 120) ≡ false) × (letter_value (escape_letter c) ≡ c))
unfolding escape_letter letter_value
letter_back c h = ground arith

kept_plain : (extra c : ℕ) → is_escaped extra c ≡ false → (c == backslash) ≡ false
unfolding is_escaped escape_letter
kept_plain extra c h = ground arith

x_is_no_digit : hexc_index 120 ≡ none
unfolding hexc_index
x_is_no_digit = refl

unescape-letter :
    (letter : ℕ) (rest : Text)
    → is_octal letter ≡ false
    → (letter == 120) ≡ false
    → unescape_from between (backslash ∷ letter ∷ rest)
      ≡ push (letter_value letter) (unescape_from between rest)
unfolding unescape_from
unescape-letter letter rest h k = rw (unescape_from, h, k) refl

unescape-hex : (rest : Text) → unescape_from between (backslash ∷ 120 ∷ rest) ≡ none
unfolding unescape_from
unescape-hex rest = rw (unescape_from, x_is_no_digit) refl

unescape-plain :
    (c : ℕ) (rest : Text)
    → (c == backslash) ≡ false
    → unescape_from between (c ∷ rest) ≡ push c (unescape_from between rest)
unfolding unescape_from
unescape-plain c rest h = rw (unescape_from, h) refl

-- The character that was escaped comes back, unless it is in hexadecimal digits.
unescape-escape_byte :
    (extra c : ℕ) (rest : Text)
    → in_hex extra c ≡ false
    → unescape_from between (escape_byte extra c ++ rest) ≡ push c (unescape_from between rest)
unfolding escape_byte
unescape-escape_byte extra c rest h = elim (Bool-cases (is_escaped extra c)) [
  | inr plain ↦ rw plain (unescape-plain c rest (kept_plain extra c plain))
  | inl escaped ↦
      let letter : (escape_letter c == 0) ≡ false = ground (arith, h, escaped) in
      let back = letter_back c (ground arith) in
      rw (escaped, letter)
        (unescape-letter (escape_letter c) rest back.0 back.1.0
          ∙ ap (λ x. push x (unescape_from between rest)) back.1.1)
]

unescape-in_hex :
    (extra c : ℕ) (rest : Text)
    → in_hex extra c ≡ true
    → unescape_from between (escape_byte extra c ++ rest) ≡ none
unfolding escape_byte
unescape-in_hex extra c rest h =
    let both : (is_escaped extra c ≡ true) × ((escape_letter c == 0) ≡ true) = ground arith in
    rw both.0 (rw both.1 (unescape-hex _))

unescape_end : unescape_from between [] ≡ some []
unfolding unescape_from
unescape_end = refl

-- Whether some byte of a text is written in hexadecimal digits.
abbrev pub any_in_hex : ℕ → Text → Bool
any_in_hex extra [] = false
any_in_hex extra (c ∷ cs) = in_hex extra c || any_in_hex extra cs

unescape-escape_bytes :
    (extra : ℕ) (s : Text)
    → any_in_hex extra s ≡ false
    → unescape_from between (escape_bytes extra s) ≡ some s
unfolding escape_bytes
unescape-escape_bytes extra [] h = unescape_end
unescape-escape_bytes extra (c ∷ cs) h =
    unescape-escape_byte extra c (escape_bytes extra cs) (ground arith)
    ∙ ap (push c) (unescape-escape_bytes extra cs (ground arith))

unescape-any_in_hex :
    (extra : ℕ) (s : Text)
    → any_in_hex extra s ≡ true
    → unescape_from between (escape_bytes extra s) ≡ none
unfolding escape_bytes
unescape-any_in_hex extra [] h = cc
unescape-any_in_hex extra (c ∷ cs) h = elim (Bool-cases (in_hex extra c)) [
  | inl now ↦ unescape-in_hex extra c (escape_bytes extra cs) now
  | inr later ↦
      unescape-escape_byte extra c (escape_bytes extra cs) later
      ∙ ap (push c) (unescape-any_in_hex extra cs (ground arith))
]

has_backslash-escape_byte :
    (extra c : ℕ) (rest : Text)
    → has_backslash (escape_byte extra c ++ rest) ≡ (is_escaped extra c || has_backslash rest)
unfolding escape_byte has_backslash
has_backslash-escape_byte extra c rest = elim (Bool-cases (is_escaped extra c)) [
  | inr plain ↦ rw (plain, kept_plain extra c plain) refl
  | inl escaped ↦ elim (Bool-cases (escape_letter c == 0)) [
    | inl none_fits ↦ rw (escaped, none_fits) refl
    | inr letter ↦ rw (escaped, letter) refl
  ]
]

has_backslash-escape_bytes :
    (extra : ℕ) (s : Text) → has_backslash (escape_bytes extra s) ≡ needs_escape extra s
unfolding escape_bytes needs_escape
has_backslash-escape_bytes extra [] = unfold has_backslash in refl
has_backslash-escape_bytes extra (c ∷ cs) =
    has_backslash-escape_byte extra c (escape_bytes extra cs)
    ∙ ap (λ b. is_escaped extra c || b) (has_backslash-escape_bytes extra cs)

escape_bytes-plain :
    (extra : ℕ) (s : Text) → needs_escape extra s ≡ false → escape_bytes extra s ≡ s
unfolding escape_bytes needs_escape escape_byte
escape_bytes-plain extra [] h = refl
escape_bytes-plain extra (c ∷ cs) h =
    let plain : is_escaped extra c ≡ false = ground arith in
    rw plain (ap (λ r. c ∷ r) (escape_bytes-plain extra cs (ground arith)))

c_string_all : (s : Text) → Without 0 s → c_string s ≡ s
c_string_all [] h = refl
c_string_all (c ∷ cs) h = rw (ne→==_false c 0 h.0) (ap (λ r. c ∷ r) (c_string_all cs h.1))

-- What set_string stores, whether it was escaped or not.
pub stored : (extra : ℕ) (s : Text) → escaped_or s (c_colons_escape s extra) ≡ escape_bytes extra s
unfolding c_colons_escape
stored extra s = elim (Bool-cases (needs_escape extra s)) [
  | inl yes_it_does ↦ rw yes_it_does refl
  | inr plain ↦ rw plain (sym (escape_bytes-plain extra s plain))
]

get_elem-replace_column :
    (cs : List Text) (column : ℕ) (value : Text)
    → column < length cs
    → get_elem? (replace_column cs column value) column ≡ some value
get_elem-replace_column [] column value h = absurd (omega arith)
get_elem-replace_column (c ∷ cs) zero value h = refl
get_elem-replace_column (c ∷ cs) (suc column) value h =
    get_elem-replace_column cs column value (omega arith)

get_raw-set_string :
    (r : Record) (column : ℕ) (s : Text)
    → column < length r.columns
    → get_raw (set_string r column s) column ≡ some (escape_bytes r.delimiter s)
unfolding get_raw set_string take_column
get_raw-set_string r column s h =
    rw (lt→ltb column (length r.columns) h)
      (get_elem-replace_column r.columns column _ h ∙ ap some (stored r.delimiter s))

value_back :
    (extra : ℕ) (s : Text)
    → Without 0 s
    → any_in_hex extra s ≡ false
    → or_value (escape_bytes extra s) (c_colons_unescape (escape_bytes extra s)) ≡ s
unfolding c_colons_unescape
value_back extra s h free = elim (Bool-cases (needs_escape extra s)) [
  | inl escaped ↦
      rw (has_backslash-escape_bytes extra s, escaped, unescape-escape_bytes extra s free)
        (c_string_all s h)
  | inr plain ↦ rw (has_backslash-escape_bytes extra s, plain) (escape_bytes-plain extra s plain)
]

value_escaped :
    (extra : ℕ) (s : Text)
    → any_in_hex extra s ≡ true
    → or_value (escape_bytes extra s) (c_colons_unescape (escape_bytes extra s))
      ≡ escape_bytes extra s
unfolding c_colons_unescape
value_escaped extra s h = elim (Bool-cases (needs_escape extra s)) [
  | inl escaped ↦
      rw (has_backslash-escape_bytes extra s, escaped, unescape-any_in_hex extra s h) refl
  | inr plain ↦ rw (has_backslash-escape_bytes extra s, plain) refl
]

module _ (is_utf8 : Text → Bool) (from_latin1 : Text → Option Text) (r : Record) (column : ℕ)
    (s : Text) (inside : column < length r.columns) where
  -- A string that was set in a column of the record is read from it again, as UTF-8, where it holds no
  -- zero byte and no byte that is escaped in hexadecimal digits.
  pub get_string-set_string :
      Without 0 s
      → any_in_hex r.delimiter s ≡ false
      → get_string is_utf8 from_latin1 (set_string r column s) column
        ≡ as_utf8 is_utf8 from_latin1 s
  unfolding get_string
  get_string-set_string h free =
      ap (string_of is_utf8 from_latin1) (get_raw-set_string r column s inside)
      ∙ ap (as_utf8 is_utf8 from_latin1) (value_back r.delimiter s h free)

  -- A string of which some byte is escaped in hexadecimal digits, and that was set in a column of the
  -- record, is read from it with its escapes, as UTF-8.
  pub get_string-set_string_in_hex :
      any_in_hex r.delimiter s ≡ true
      → get_string is_utf8 from_latin1 (set_string r column s) column
        ≡ as_utf8 is_utf8 from_latin1 (escape_bytes r.delimiter s)
  unfolding get_string
  get_string-set_string_in_hex hex =
      ap (string_of is_utf8 from_latin1) (get_raw-set_string r column s inside)
      ∙ ap (as_utf8 is_utf8 from_latin1) (value_escaped r.delimiter s hex)

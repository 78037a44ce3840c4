-- ===== src/Tests/Record.antt =====
-- gcr/gcr-record.c on a record of two columns.
use gcr.Shared.{◌≡◌, refl, true, Bool, Option, none, some, List, [], ◌∷◌, ◌++◌, map, arith}
use gcr.Gcr.Record.{
  Text, Record, colon, print_columns, format, records_format, records_parse_colons,
}
use gcr.Gcr.Record.Lines.{IsPrintable, closed, empty_line, records_parse_colons-records_format}
use gcr.Gcr.Record.Escape.{escape_letter, is_escaped, escape_bytes, as_utf8, get_string, set_string}
use gcr.Gcr.Record.Strings.{get_string-set_string, get_string-set_string_in_hex}

abbrev two_columns : List Text
two_columns = (112 ∷ 117 ∷ []) ∷ (65 ∷ []) ∷ []

abbrev two : Record
two = record { columns = two_columns; delimiter = colon }

two-IsPrintable : IsPrintable two
two-IsPrintable = record {
  by_colons = refl;
  no_colon = ((omega arith, (omega arith, tt)), ((omega arith, tt), tt));
  no_newline = ((omega arith, (omega arith, tt)), ((omega arith, tt), tt));
  few = omega arith;
}

format-two : format two ≡ 112 ∷ 117 ∷ 58 ∷ 65 ∷ 58 ∷ []
unfolding format print_columns
format-two = refl

abbrev line : Text
line = 112 ∷ 58 ∷ 65 ∷ []

records_parse_colons-records_format_example :
    records_parse_colons (records_format (two ∷ two ∷ []))
    ≡ some (map closed (two ∷ two ∷ []) ++ (empty_line ∷ []))
records_parse_colons-records_format_example =
    records_parse_colons-records_format two (two ∷ []) (two-IsPrintable, (two-IsPrintable, tt))

-- Every text is taken for UTF-8.
abbrev any_text : Text → Bool
any_text text = true

abbrev no_text : Text → Option Text
no_text text = none

-- A line feed and a quote.
abbrev quoted : Text
quoted = 65 ∷ 10 ∷ 34 ∷ []

get_string-set_string_example :
    get_string any_text no_text (set_string two 1 quoted) 1 ≡ as_utf8 any_text no_text quoted
unfolding is_escaped escape_letter
get_string-set_string_example =
    get_string-set_string any_text no_text two 1 quoted (omega arith)
      (omega arith, (omega arith, (omega arith, tt))) refl

-- A colon.
abbrev timed : Text
timed = 49 ∷ 58 ∷ 50 ∷ []

get_string-set_string_in_hex_example :
    get_string any_text no_text (set_string two 1 timed) 1
    ≡ as_utf8 any_text no_text (escape_bytes colon timed)
unfolding is_escaped escape_letter
get_string-set_string_in_hex_example =
    get_string-set_string_in_hex any_text no_text two 1 timed (omega arith) refl

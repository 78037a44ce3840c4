-- ===== src/Gcr/Record/Lines.antt =====
-- Parsing and printing of several records in gcr/gcr-record.c.
use gcr.Shared.{ℕ, ◌<◌, ◌≡◌, refl, ap, ◌∙◌, some, List, [], ◌∷◌, ◌++◌, map, length, arith, All}
use gcr.Gcr.Record.{
  Text, Record, max_columns, colon, newline, print_columns, format, stretches, parse_colons,
  take_and_parse, parse_columns, records_format, strnsplit, parse_lines, records_parse_colons,
}
use gcr.Gcr.Record.Columns.{Without, stretches-append, parse_colons-format}

-- A record that a line can hold: its columns hold no colon and no newline, and they are fewer than 32.
pub record IsPrintable (r : Record) : Type 0 where
  pub by_colons : r.delimiter ≡ colon
  pub no_colon : All (Without colon) r.columns
  pub no_newline : All (Without newline) r.columns
  pub few : length r.columns < max_columns

-- What a record becomes on its way through a line: an empty column stands behind the others.
abbrev pub closed : Record → Record
closed r = record r { columns = r.columns ++ ([] ∷ []) }

-- The record of an empty line.
abbrev pub empty_line : Record
empty_line = record { columns = [] ∷ []; delimiter = colon }

pub Without-append : (d : ℕ) (xs ys : Text) → Without d xs → Without d ys → Without d (xs ++ ys)
Without-append d [] ys h k = k
Without-append d (x ∷ xs) ys h k = (h.0, Without-append d xs ys h.1 k)

Without-print_columns :
    (cs : List Text) → All (Without newline) cs → Without newline (print_columns colon cs)
unfolding print_columns
Without-print_columns [] h = tt
Without-print_columns (c ∷ cs) h =
    Without-append newline c (colon ∷ print_columns colon cs) h.0
      (omega arith, Without-print_columns cs h.1)

line-parsed : (r : Record) → IsPrintable r → parse_colons (format r) ≡ some (closed r)
unfolding format
line-parsed r p = rw (p.by_colons) (parse_colons-format r.columns p.no_colon p.few)

lines-split :
    (r : Record) (rest : Text)
    → IsPrintable r
    → stretches newline (format r ++ (newline ∷ rest)) ≡ format r ∷ stretches newline rest
unfolding format
lines-split r rest p =
    stretches-append newline (format r) rest
      (rw (p.by_colons) (Without-print_columns r.columns p.no_newline))

parsed_empty : parse_lines (stretches newline []) ≡ some (empty_line ∷ [])
unfolding parse_lines stretches parse_colons take_and_parse parse_columns
parsed_empty = refl

strnsplit_some :
    (xs : Text) (y : ℕ) (ys : Text) (d : ℕ)
    → strnsplit (xs ++ (y ∷ ys)) d ≡ stretches d (xs ++ (y ∷ ys))
unfolding strnsplit
strnsplit_some [] y ys d = refl
strnsplit_some (x ∷ xs) y ys d = refl

parse_lines-records_format :
    (rs : List Record)
    → All IsPrintable rs
    → parse_lines (stretches newline (records_format rs))
      ≡ some (map closed rs ++ (empty_line ∷ []))
unfolding records_format parse_lines
parse_lines-records_format [] h = parsed_empty
parse_lines-records_format (r ∷ rs) h =
    rw (lines-split r (records_format rs) h.0)
      (rw (line-parsed r h.0) (rw (parse_lines-records_format rs h.1) refl))

strnsplit-records_format :
    (r : Record) (rs : List Record)
    → strnsplit (records_format (r ∷ rs)) newline ≡ stretches newline (records_format (r ∷ rs))
unfolding records_format
strnsplit-records_format r rs = strnsplit_some (format r) newline (records_format rs) newline

-- Records, at least one, that lines can hold are printed to a text that is parsed to the same records
-- with an empty column behind the others of each, and one record of an empty column at the end.
pub records_parse_colons-records_format :
    (r : Record) (rs : List Record)
    → All IsPrintable (r ∷ rs)
    → records_parse_colons (records_format (r ∷ rs))
      ≡ some (map closed (r ∷ rs) ++ (empty_line ∷ []))
unfolding records_parse_colons
records_parse_colons-records_format r rs h =
    ap parse_lines (strnsplit-records_format r rs) ∙ parse_lines-records_format (r ∷ rs) h

-- ===== src/Gcr/Record.antt =====
-- gcr/gcr-record.c: the records that GnuPG prints with a delimiter between the columns. A string is
-- the list of its bytes before the terminator, so that it holds no zero byte; the blocks of memory
-- that hold the columns are not told apart from them.
pub mod Columns
pub mod Lines
pub mod Escape
pub mod Strings
pub mod Keeps
use mathlib.Core.Option
use gcr.Shared.{
  ℕ, zero, suc, ◌+◌, ◌-◌, ◌*◌, ◌/◌, ◌%◌, Bool, true, false, ◌&&◌, ◌||◌, not, Option, none, some,
  List, [], ◌∷◌, ◌++◌, length, replicate, get_elem?, ltb, leb, ◌==◌, if◌then◌else◌, same_bytes,
}

abbrev pub Text : Type 0
Text = List ℕ

-- `n_columns` is the number of columns; a record has room for `max_columns`.
pub record Record : Type 0 where
  pub columns : List Text
  pub delimiter : ℕ

abbrev pub max_columns : ℕ
max_columns = 32

abbrev pub colon : ℕ
colon = 58

abbrev pub newline : ℕ
newline = 10

abbrev pub backslash : ℕ
backslash = 92

-- For at most `max_columns` columns. Without a column the schema is not part of the record.
unfoldable pub new : Text → ℕ → ℕ → Record
new schema zero delimiter = record { columns = []; delimiter = delimiter }
new schema (suc n) delimiter = record { columns = schema ∷ replicate n []; delimiter = delimiter }

unfoldable pub print_columns : ℕ → List Text → Text
print_columns delimiter [] = []
print_columns delimiter (c ∷ cs) = c ++ (delimiter ∷ print_columns delimiter cs)

unfoldable pub format : Record → Text
format r = print_columns r.delimiter r.columns

-- A column before those that come behind it.
abbrev pub in_front : ℕ → List Text → List Text
in_front x [] = (x ∷ []) ∷ []
in_front x (f ∷ fs) = (x ∷ f) ∷ fs

-- The stretches of text between delimiters, as strchr finds them.
unfoldable pub stretches : ℕ → Text → List Text
stretches delimiter [] = [] ∷ []
stretches delimiter (x ∷ xs) =
    let rest = stretches delimiter xs in if x == delimiter then [] ∷ rest else in_front x rest

-- The loop over the columns, of which `n` are counted already. The end of the last one is taken one
-- byte before the end of the text.
unfoldable pub parse_columns : Bool → ℕ → List Text → Option (List Text)
parse_columns allow_empty n [] = some []
parse_columns allow_empty n (f ∷ []) =
    if leb max_columns n
    then none
    else if allow_empty || ltb 1 (length f)
    then some (f ∷ [])
    else some []
parse_columns allow_empty n (f ∷ g ∷ fs) = elim (leb max_columns n) [
  | true ↦ none
  | false ↦ elim (allow_empty || ltb 0 (length f)) [
    | true ↦ Option.map (λ cs. f ∷ cs) (parse_columns allow_empty (n + 1) (g ∷ fs))
    | false ↦ parse_columns allow_empty n (g ∷ fs)
  ]
]

unfoldable pub take_and_parse : ℕ → Bool → Text → Option Record
take_and_parse delimiter allow_empty value =
    Option.map (λ cs. record { columns = cs; delimiter = delimiter })
      (parse_columns allow_empty 0 (stretches delimiter value))

unfoldable pub parse_colons : Text → Option Record
parse_colons line = take_and_parse colon true line

unfoldable pub parse_spaces : Text → Option Record
parse_spaces line = take_and_parse 32 false line

unfoldable pub get_count : Record → ℕ
get_count r = length r.columns

unfoldable pub get_raw : Record → ℕ → Option Text
get_raw r column = get_elem? r.columns column

abbrev pub replace_column : List Text → ℕ → Text → List Text
replace_column [] column value = []
replace_column (c ∷ cs) zero value = value ∷ cs
replace_column (c ∷ cs) (suc column) value = c ∷ replace_column cs column value

-- record_take_column. The setters return before it where the column does not exist.
unfoldable pub take_column : Record → ℕ → Text → Record
take_column r column value =
    if ltb column (length r.columns)
    then record r { columns = replace_column r.columns column value }
    else r

unfoldable pub set_raw : Record → ℕ → Text → Record
set_raw r column value = take_column r column value

-- 0 where the column is not a single character.
unfoldable pub get_char : Record → ℕ → ℕ
get_char r column = elim (get_raw r column) [ some (c ∷ []) ↦ c | _ ↦ 0 ]

unfoldable pub set_char : Record → ℕ → ℕ → Record
set_char r column value = if value == 0 then r else take_column r column (value ∷ [])

unfoldable pub records_format : List Record → Text
records_format [] = []
records_format (r ∷ rs) = format r ++ (newline ∷ records_format rs)

-- strnsplit: no string at all where the text is empty.
unfoldable pub strnsplit : Text → ℕ → List Text
strnsplit [] delimiter = []
strnsplit (x ∷ xs) delimiter = stretches delimiter (x ∷ xs)

abbrev pub with_record : Option Record → Option (List Record) → Option (List Record)
with_record none rest = none
with_record (some r) rest = Option.map (λ rs. r ∷ rs) rest

-- The loop over the lines: a line that is refused ends it, and the records are dropped.
unfoldable pub parse_lines : List Text → Option (List Record)
parse_lines [] = some []
parse_lines (line ∷ lines) = with_record (parse_colons line) (parse_lines lines)

unfoldable pub records_parse_colons : Text → Option (List Record)
records_parse_colons text = parse_lines (strnsplit text newline)

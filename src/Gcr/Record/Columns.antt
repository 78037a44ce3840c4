-- ===== src/Gcr/Record/Columns.antt =====
-- Parsing and printing of one line of columns in gcr/gcr-record.c.
use mathlib.Core.Option
use gcr.Shared.{
  ℕ, suc, ◌+◌, ◌≤◌, ◌<◌, ◌≡◌, ◌≢◌, ◌⊎◌, inl, inr, refl, ap, ◌∙◌, true, none, some, List, [], ◌∷◌,
  ◌++◌, length, ltb, leb, ◌==◌, if◌then◌else◌, arith, length-append, All, ne→==_false, ==_refl,
  Bool-cases, lt→leb_false, le→leb,
}
use gcr.Gcr.Record.{
  Text, Record, max_columns, colon, print_columns, format, in_front, stretches, parse_columns,
  take_and_parse, parse_colons,
}

-- A text without the byte `d`.
abbrev pub Without : ℕ → Text → Type 0
Without d = All (λ x. x ≢ d)

pub stretches-append :
    (d : ℕ) (f rest : Text) → Without d f → stretches d (f ++ (d ∷ rest)) ≡ f ∷ stretches d rest
unfolding stretches
stretches-append d [] rest h = rw (==_refl d) refl
stretches-append d (x ∷ f) rest h =
    rw (ne→==_false x d h.0) (ap (in_front x) (stretches-append d f rest h.1))

stretches-print_columns :
    (d : ℕ) (cs : List Text)
    → All (Without d) cs
    → stretches d (print_columns d cs) ≡ cs ++ ([] ∷ [])
unfolding print_columns
stretches-print_columns d [] h = unfold stretches in refl
stretches-print_columns d (c ∷ cs) h =
    stretches-append d c (print_columns d cs) h.0
    ∙ ap (λ fs. c ∷ fs) (stretches-print_columns d cs h.1)

-- Where empty columns count, every stretch is a column, up to the limit.
parse_columns-all :
    (n : ℕ) (f : Text) (fs : List Text)
    → n + length fs < max_columns
    → parse_columns true n (f ∷ fs) ≡ some (f ∷ fs)
unfolding parse_columns
parse_columns-all n f [] h = rw (lt→leb_false max_columns n (omega arith)) refl
parse_columns-all n f (g ∷ fs) h =
    rw (parse_columns, lt→leb_false max_columns n (omega arith))
      (ap (Option.map (λ cs. f ∷ cs)) (parse_columns-all (n + 1) g fs (omega arith)))

parse_columns-full :
    (n : ℕ) (f : Text) (fs : List Text)
    → max_columns ≤ n + length fs
    → parse_columns true n (f ∷ fs) ≡ none
unfolding parse_columns
parse_columns-full n f [] h = rw (le→leb max_columns n (omega arith)) refl
parse_columns-full n f (g ∷ fs) h = elim (Bool-cases (leb max_columns n)) [
  | inl over ↦ rw (parse_columns, over) refl
  | inr under ↦ rw (parse_columns, under, parse_columns-full (n + 1) g fs (omega arith)) refl
]

-- How often the byte `d` is in a text.
abbrev pub count : ℕ → Text → ℕ
count d [] = 0
count d (x ∷ xs) = if x == d then suc (count d xs) else count d xs

length-in_front : (x : ℕ) (fs : List Text) → 0 < length fs → length (in_front x fs) ≡ length fs
length-in_front x [] h = absurd (omega arith)
length-in_front x (f ∷ fs) h = refl

length-stretches : (d : ℕ) (xs : Text) → length (stretches d xs) ≡ suc (count d xs)
unfolding stretches
length-stretches d [] = refl
length-stretches d (x ∷ xs) =
    let rest = length-stretches d xs in
    ground (arith, rest, length-in_front x (stretches d xs) (omega arith))

print-in_front :
    (d x : ℕ) (fs : List Text)
    → 0 < length fs
    → print_columns d (in_front x fs) ≡ x ∷ print_columns d fs
unfolding print_columns
print-in_front d x [] h = absurd (omega arith)
print-in_front d x (f ∷ fs) h = refl

print_empty : (d : ℕ) (fs : List Text) → print_columns d ([] ∷ fs) ≡ d ∷ print_columns d fs
unfolding print_columns
print_empty d fs = refl

print_columns-stretches : (d : ℕ) (xs : Text) → print_columns d (stretches d xs) ≡ xs ++ (d ∷ [])
unfolding stretches
print_columns-stretches d [] = unfold print_columns in refl
print_columns-stretches d (x ∷ xs) =
    let rest = print_columns-stretches d xs in
    let some_left : 0 < length (stretches d xs) = omega (arith, length-stretches d xs) in
    elim (Bool-cases (x == d)) [
      | inl same ↦
          let eq : x ≡ d = ground arith in
          rw (stretches, same, eq) (print_empty d (stretches d xs) ∙ ap (λ r. d ∷ r) rest)
      | inr other ↦
          rw (stretches, other)
            (print-in_front d x (stretches d xs) some_left ∙ ap (λ r. x ∷ r) rest)
    ]

All-in_front :
    (d x : ℕ) (fs : List Text) → x ≢ d → All (Without d) fs → All (Without d) (in_front x fs)
All-in_front d x [] h all = ((h, tt), tt)
All-in_front d x (f ∷ fs) h all = ((h, all.0), all.1)

stretches-Without : (d : ℕ) (xs : Text) → All (Without d) (stretches d xs)
unfolding stretches
stretches-Without d [] = (tt, tt)
stretches-Without d (x ∷ xs) = elim (Bool-cases (x == d)) [
  | inl same ↦ rw (stretches, same) (tt, stretches-Without d xs)
  | inr other ↦
      rw (stretches, other)
        (All-in_front d x (stretches d xs) (ground arith) (stretches-Without d xs))
]

parse_list :
    (fs : List Text) → 0 < length fs → length fs ≤ max_columns → parse_columns true 0 fs ≡ some fs
parse_list [] h small = absurd (omega arith)
parse_list (f ∷ fs) h small = parse_columns-all 0 f fs (omega arith)

full_list : (fs : List Text) → max_columns < length fs → parse_columns true 0 fs ≡ none
full_list [] h = absurd (omega arith)
full_list (f ∷ fs) h = parse_columns-full 0 f fs (omega arith)

-- A record whose columns hold no colon, and of which there are fewer than 32, is printed as a line
-- that is parsed to the same columns and an empty one behind them.
pub parse_colons-format :
    (columns : List Text)
    → All (Without colon) columns
    → length columns < max_columns
    → parse_colons (format (record { columns = columns; delimiter = colon }))
      ≡ some (record { columns = columns ++ ([] ∷ []); delimiter = colon })
unfolding parse_colons take_and_parse format
parse_colons-format columns clean few =
    rw
      (
        stretches-print_columns colon columns clean,
        parse_list (columns ++ ([] ∷ [])) (omega (arith, length-append columns ([] ∷ [])))
            (omega (arith, length-append columns ([] ∷ []))),
      )
      refl

-- A line of fewer than 32 colons is parsed to columns without a colon that are printed as the line
-- with a colon behind it, one column more than there are colons. A line with more colons is refused.
pub parse_colons_lem :
    (line : Text)
    → ((count colon line < max_columns)
        × ((r : Record) × ((parse_colons line ≡ some r)
              × ((format r ≡ line ++ (colon ∷ []))
                  × ((length r.columns ≡ count colon line + 1) × All (Without colon) r.columns)))))
      ⊎ ((max_columns ≤ count colon line) × (parse_colons line ≡ none))
unfolding parse_colons take_and_parse format
parse_colons_lem line =
    let size = length-stretches colon line in
    elim (Bool-cases (ltb (count colon line) max_columns)) [
      | inl few ↦
          let few' : count colon line < max_columns = ground arith in
          inl (
            few',
            (
              record { columns = stretches colon line; delimiter = colon },
              (
                rw
                    (parse_list (stretches colon line) (omega (arith, size))
                      (omega (arith, size, few')))
                    refl,
                (
                  print_columns-stretches colon line,
                  (omega (arith, size), stretches-Without colon line),
                ),
              ),
            ),
          )
      | inr many ↦
          let many' : max_columns ≤ count colon line = ground arith in
          inr (many', rw (full_list (stretches colon line) (omega (arith, size, many'))) refl)
    ]

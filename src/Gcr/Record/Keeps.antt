-- ===== src/Gcr/Record/Keeps.antt =====
-- The setters of gcr/gcr-record.c keep a record such that a line can hold it.
use gcr.Shared.{
  ℕ, zero, suc, ◌/◌, ◌%◌, ◌<◌, ◌≡◌, ◌≢◌, inl, inr, refl, ap, ◌∙◌, false, List, [], ◌∷◌, length, ltb,
  ◌==◌, arith, All, Bool-cases,
}
use gcr.Gcr.Record.{Text, Record, colon, newline, take_column, replace_column}
use gcr.Gcr.Record.Columns.{Without}
use gcr.Gcr.Record.Lines.{IsPrintable, Without-append}
use gcr.Gcr.Record.Escape.{
  escape_letter, is_escaped, escape_byte, escape_bytes, hexc_lower, set_string, escaped_or,
  c_colons_escape,
}
use gcr.Gcr.Record.Strings.{stored}

-- A byte that a line of columns can hold.
abbrev pub IsClean : ℕ → Type 0
IsClean c = (c ≢ colon) × (c ≢ newline)

digit-IsClean : (n : ℕ) → n < 16 → IsClean (hexc_lower n)
unfolding hexc_lower
digit-IsClean n h = ground arith

letter-IsClean : (c : ℕ) → IsClean (escape_letter c)
unfolding escape_letter
letter-IsClean c = ground arith

plain-IsClean : (c : ℕ) → is_escaped colon c ≡ false → IsClean c
unfolding is_escaped escape_letter
plain-IsClean c h = ground arith

mod_small : (n : ℕ) → n % 16 < 16
mod_small n = omega arith

byte-IsClean : (c : ℕ) → All IsClean (escape_byte colon c)
unfolding escape_byte
byte-IsClean c = elim (Bool-cases (is_escaped colon c)) [
  | inr plain ↦ rw plain (plain-IsClean c plain, tt)
  | inl escaped ↦ elim (Bool-cases (escape_letter c == 0)) [
    | inl hex ↦
        rw (escaped, hex)
          (
            omega arith,
            (
              omega arith,
              (
                digit-IsClean (c / 16 % 16) (mod_small (c / 16)),
                (digit-IsClean (c % 16) (mod_small c), tt),
              ),
            ),
          )
    | inr letter ↦ rw (escaped, letter) (omega arith, (letter-IsClean c, tt))
  ]
]

without : (d : ℕ) (xs : Text) → ((c : ℕ) → IsClean c → c ≢ d) → All IsClean xs → Without d xs
without d [] f h = tt
without d (x ∷ xs) f h = (f x h.0, without d xs f h.1)

-- An escaped text holds no byte `d` that is not clean.
escaped-Without :
    (d : ℕ) (s : Text) → ((c : ℕ) → IsClean c → c ≢ d) → Without d (escape_bytes colon s)
unfolding escape_bytes
escaped-Without d [] f = tt
escaped-Without d (c ∷ cs) f =
    Without-append d (escape_byte colon c) (escape_bytes colon cs)
      (without d (escape_byte colon c) f (byte-IsClean c)) (escaped-Without d cs f)

All-replace_column :
    (P : Text → Type 0) (cs : List Text) (column : ℕ) (value : Text)
    → All P cs
    → P value
    → All P (replace_column cs column value)
All-replace_column P [] column value h p = tt
All-replace_column P (c ∷ cs) zero value h p = (p, h.1)
All-replace_column P (c ∷ cs) (suc column) value h p =
    (h.0, All-replace_column P cs column value h.1 p)

length-replace_column :
    (cs : List Text) (column : ℕ) (value : Text)
    → length (replace_column cs column value) ≡ length cs
length-replace_column [] column value = refl
length-replace_column (c ∷ cs) zero value = refl
length-replace_column (c ∷ cs) (suc column) value = ap suc (length-replace_column cs column value)

-- A value without a colon and a newline that is put in a column, also one that does not exist.
take_column-IsPrintable :
    (r : Record) (column : ℕ) (value : Text)
    → IsPrintable r
    → Without colon value
    → Without newline value
    → IsPrintable (take_column r column value)
unfolding take_column
take_column-IsPrintable r column value p h k = elim (Bool-cases (ltb column (length r.columns))) [
  | inr outside ↦ rw outside p
  | inl inside ↦ rw inside (record {
    by_colons = p.by_colons;
    no_colon = All-replace_column (Without colon) r.columns column value p.no_colon h;
    no_newline = All-replace_column (Without newline) r.columns column value p.no_newline k;
    few = omega (arith, length-replace_column r.columns column value, p.few);
  })
]

-- Whatever string is set in whatever column, a record that a line can hold stays one.
pub set_string-IsPrintable :
    (r : Record) (column : ℕ) (s : Text) → IsPrintable r → IsPrintable (set_string r column s)
unfolding set_string
set_string-IsPrintable r column s p =
    let value : escaped_or s (c_colons_escape s r.delimiter) ≡ escape_bytes colon s =
      ap (λ d. escaped_or s (c_colons_escape s d)) p.by_colons ∙ stored colon s in
    rw value (
      take_column-IsPrintable r column (escape_bytes colon s) p
        (escaped-Without colon s (λ c clean. clean.0))
        (escaped-Without newline s (λ c clean. clean.1)))

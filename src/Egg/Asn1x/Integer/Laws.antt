-- ===== src/Egg/Asn1x/Integer/Laws.antt =====
-- What the integers of egg/egg-asn1x.c lose, and which ones come back.
use gcr.Shared.{
  ℕ, zero, suc, ◌+◌, ◌*◌, ◌/◌, ◌%◌, ◌≤◌, ◌<◌, ◌≡◌, inl, inr, refl, ap, ◌∙◌, false, ◌&&◌, List, [],
  ◌∷◌, length, leb, ◌==◌, arith, All, Bool-cases, ne→==_false,
}
use gcr.Egg.Asn1x.Integer.{
  value, joined, sign_bit, read_integer_ulong, le_bytes, until_zero, or_one_byte, unsigned,
  write_integer_ulong,
}

-- A number of the bytes `digits`, the least significant first, of a zero byte above them, and of any
-- part `high` above that.
abbrev pub above_zero : ℕ → List ℕ → ℕ
above_zero high [] = high * 256
above_zero high (d ∷ digits) = above_zero high digits * 256 + d

-- A byte that is not zero.
abbrev pub IsDigit : ℕ → Type 0
IsDigit d = (0 < d) × (d < 256)

abbrev pub turned : List ℕ → List ℕ → List ℕ
turned [] acc = acc
turned (d ∷ digits) acc = turned digits (d ∷ acc)

until_zero-le_bytes :
    (k high : ℕ) (digits acc : List ℕ)
    → All IsDigit digits
    → length digits < k
    → until_zero (le_bytes k (above_zero high digits)) acc ≡ turned digits acc
unfolding until_zero le_bytes
until_zero-le_bytes zero high digits acc h fits = absurd (omega arith)
until_zero-le_bytes (suc k) high [] acc h fits = ground arith
until_zero-le_bytes (suc k) high (d ∷ digits) acc h fits =
    let rest = above_zero high digits in
    let low : (rest * 256 + d) % 256 ≡ d = omega (arith, h.0) in
    let up : (rest * 256 + d) / 256 ≡ rest = omega (arith, h.0) in
    rw (low, up)
      (rw (ne→==_false d 0 (λ z. omega (arith, z, h.0)))
        (until_zero-le_bytes k high digits (d ∷ acc) h.1 (omega arith)))

-- A value is written as the bytes below its lowest zero byte, least significant ones first here, and
-- what stands above is lost; 0 is written where there are none, and a zero byte in front of a first
-- byte that has the sign bit.
pub write_integer_ulong_lem :
    (high : ℕ) (digits : List ℕ)
    → All IsDigit digits
    → length digits < 8
    → write_integer_ulong (above_zero high digits) ≡ unsigned (or_one_byte (turned digits []))
unfolding write_integer_ulong
write_integer_ulong_lem high digits h fits =
    ap (λ bytes. unsigned (or_one_byte bytes)) (until_zero-le_bytes 8 high digits [] h fits)

joined-turned :
    (digits acc : List ℕ) → joined 0 (turned digits acc) ≡ joined (above_zero 0 digits) acc
joined-turned [] acc = refl
joined-turned (d ∷ digits) acc = joined-turned digits (d ∷ acc)

length-turned : (digits acc : List ℕ) → length (turned digits acc) ≡ length digits + length acc
length-turned [] acc = omega arith
length-turned (d ∷ digits) acc = omega (arith, length-turned digits (d ∷ acc))

joined-unsigned : (bytes : List ℕ) → joined 0 (unsigned (or_one_byte bytes)) ≡ joined 0 bytes
joined-unsigned [] = refl
joined-unsigned (x ∷ xs) = ground arith

length-unsigned :
    (bytes : List ℕ)
    → (1 ≤ length (unsigned (or_one_byte bytes)))
      × (length (unsigned (or_one_byte bytes)) ≤ length bytes + 1)
length-unsigned [] = omega arith
length-unsigned (x ∷ xs) = elim (Bool-cases (leb 128 x)) [
  | inl e ↦ rw e (omega arith)
  | inr e ↦ rw e (omega arith)
]

-- The sign bit of four bytes is not set, where `unsigned` made them.
four_bytes :
    (bytes : List ℕ)
    → length bytes ≤ 3
    → (length (unsigned (or_one_byte bytes)) == 4 && sign_bit (unsigned (or_one_byte bytes)))
      ≡ false
four_bytes [] h = refl
four_bytes (x ∷ xs) h = elim (Bool-cases (leb 128 x)) [
  | inl e ↦ rw e (ground arith)
  | inr e ↦ rw (e, e) (ground arith)
]

read_done :
    (bytes : List ℕ)
    → 1 ≤ length bytes
    → length bytes ≤ 4
    → (length bytes == 4 && sign_bit bytes) ≡ false
    → read_integer_ulong bytes ≡ value (joined 0 bytes)
unfolding read_integer_ulong
read_done bytes one four sign = ground arith

-- A value of at most three bytes, of which none is zero, is read as it was written.
pub read_integer_ulong-write_integer_ulong :
    (digits : List ℕ)
    → All IsDigit digits
    → length digits ≤ 3
    → read_integer_ulong (write_integer_ulong (above_zero 0 digits)) ≡ value (above_zero 0 digits)
read_integer_ulong-write_integer_ulong digits h few =
    let bytes = turned digits [] in
    let size : length bytes ≡ length digits + 0 = length-turned digits [] in
    let range = length-unsigned bytes in
    rw (write_integer_ulong_lem 0 digits h (omega arith)) (
      read_done (unsigned (or_one_byte bytes)) range.0 (omega (arith, range.1, size, few))
        (four_bytes bytes (omega (arith, size, few)))
      ∙ ap value (joined-unsigned bytes ∙ joined-turned digits []))

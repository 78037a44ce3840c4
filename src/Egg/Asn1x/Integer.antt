-- ===== src/Egg/Asn1x/Integer.antt =====
-- The integers and booleans of egg/egg-asn1x.c as C values. A gulong has 64 bits, an int has 32.
pub mod Laws
use gcr.Shared.{
  ℕ, zero, suc, ◌+◌, ◌-◌, ◌*◌, ◌/◌, ◌%◌, ◌^◌, Bool, true, false, ◌&&◌, ◌||◌, List, [], ◌∷◌, ◌++◌,
  length, ltb, leb, ◌==◌, if◌then◌else◌,
}

-- A read that is refused, a value, or a shift that C leaves undefined: by 32 or more, or of a byte into
-- the sign of an int.
pub data Reading {ℓ} (A : Type ℓ) : Type ℓ where
  refused : Reading A
  value : A → Reading A
  undefined : Reading A

-- The fields that the shifted bytes are put in do not overlap.
abbrev pub joined : ℕ → List ℕ → ℕ
joined acc [] = acc
joined acc (x ∷ xs) = joined (acc * 256 + x) xs

abbrev pub sign_bit : List ℕ → Bool
sign_bit [] = false
sign_bit (x ∷ xs) = leb 128 x

unfoldable pub read_integer_ulong : List ℕ → Reading ℕ
read_integer_ulong bytes =
    if ltb (length bytes) 1 || ltb 8 (length bytes)
    then refused
    else if ltb 4 (length bytes) || (length bytes == 4 && sign_bit bytes)
    then undefined
    else value (joined 0 bytes)

-- `buf` of the writer, the last byte first: `k` bytes of a value.
unfoldable pub le_bytes : ℕ → ℕ → List ℕ
le_bytes zero v = []
le_bytes (suc k) v = v % 256 ∷ le_bytes k (v / 256)

-- The loop from the last byte on stops at the first one that is zero; what it passed comes out in the
-- order of the buffer, in front of `acc`.
unfoldable pub until_zero : List ℕ → List ℕ → List ℕ
until_zero [] acc = acc
until_zero (x ∷ xs) acc = let rest = until_zero xs (x ∷ acc) in if x == 0 then acc else rest

-- One byte at least.
abbrev pub or_one_byte : List ℕ → List ℕ
or_one_byte [] = 0 ∷ []
or_one_byte (x ∷ xs) = x ∷ xs

-- A first byte that would make the number negative gets a zero byte in front.
abbrev pub unsigned : List ℕ → List ℕ
unsigned bytes = if sign_bit bytes then 0 ∷ bytes else bytes

unfoldable pub write_integer_ulong : ℕ → List ℕ
unfolding le_bytes until_zero
write_integer_ulong v = unsigned (or_one_byte (until_zero (le_bytes 8 v) []))

-- A byte that is neither 0x00 nor 0xFF does not pass the validation before; it is refused here, too.
unfoldable pub read_boolean : List ℕ → Reading Bool
read_boolean (x ∷ []) = if x == 0 then value false else if x == 255 then value true else refused
read_boolean _ = refused

unfoldable pub write_boolean : Bool → List ℕ
write_boolean v = (if v then 255 else 0) ∷ []

-- ===== src/Gck/Attributes/Finds.antt =====
-- The readers of a builder's attributes as numbers and booleans (gck/gck-attributes.c), on the values of
-- gck/gck-misc.c.
pub mod RoundTrip
use gcr.Shared.{
  ℕ, zero, suc, ◌+◌, ◌*◌, Bool, true, false, not, Option, none, some, List, [], ◌∷◌, take, ◌==◌,
  if◌then◌else◌,
}
use gcr.Gck.Attributes.{Heap, Attribute, is_invalid, bytes_at, find_attribute}
use gcr.Gck.Attributes.Builder.{Builder}

-- memcpy of a CK_ULONG, on a machine that has the least significant byte first.
abbrev pub le_value : List ℕ → ℕ
le_value [] = 0
le_value (x ∷ xs) = x + 256 * le_value xs

unfoldable pub value_to_ulong : List ℕ → ℕ → Option ℕ
value_to_ulong bytes length = if length == 8 then some (le_value (take 8 bytes)) else none

abbrev pub is_set : List ℕ → Bool
is_set [] = false
is_set (x ∷ xs) = not (x == 0)

unfoldable pub value_to_boolean : List ℕ → ℕ → Option Bool
value_to_boolean bytes length = if length == 1 then some (is_set bytes) else none

-- A reader of the value, where there is one that is not invalid.
abbrev pub read_value {ℓ} :
    {A : Type ℓ} → (List ℕ → ℕ → Option A) → Heap → Bool → Option ℕ → ℕ → Option A
read_value reader heap true value len = none
read_value reader heap false none len = none
read_value reader heap false (some p) len = reader (bytes_at heap p) len

abbrev pub read_attribute {ℓ} :
    {A : Type ℓ} → (List ℕ → ℕ → Option A) → Heap → Option Attribute → Option A
read_attribute reader heap none = none
read_attribute reader heap (some attr) =
    read_value reader heap (is_invalid attr) (attr.value) (attr.len)

unfoldable pub find_ulong : ℕ → Builder → Option ℕ
find_ulong attr_type builder =
    read_attribute value_to_ulong (builder.heap) (find_attribute (builder.attrs) attr_type)

unfoldable pub find_boolean : ℕ → Builder → Option Bool
find_boolean attr_type builder =
    read_attribute value_to_boolean (builder.heap) (find_attribute (builder.attrs) attr_type)

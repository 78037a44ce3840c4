-- ===== src/Egg/Asn1x/ObjectId.antt =====
-- The object identifiers of egg/egg-asn1x.c, as the list of their numbers: how the numbers are printed
-- and scanned as decimal text is left out. A number that is written is a gint of at least 0.
pub mod Laws
use mathlib.Core.Option
use gcr.Shared.{
  ℕ, zero, suc, ◌+◌, ◌-◌, ◌*◌, ◌/◌, ◌%◌, ◌^◌, Bool, true, false, ◌&&◌, ◌||◌, not, Option, none,
  some, List, [], ◌∷◌, ◌++◌, length, ltb, leb, ◌==◌, if◌then◌else◌,
}

-- The loop over the bytes behind the first: `val` is 32 bits wide. The flag `lead` is never cleared, so
-- that every byte 0x80 is refused. Bits that no byte ends are dropped.
unfoldable pub read_arcs : ℕ → List ℕ → Option (List ℕ)
read_arcs val [] = some []
read_arcs val (x ∷ xs) =
    let joined = val * 128 % 2 ^ 32 + x % 128 in
    let ended = Option.map (λ arcs. joined ∷ arcs) (read_arcs 0 xs) in
    let continued = read_arcs joined xs in
    if x == 128
    then none
    else if ltb joined val
    then none
    else if ltb x 128
    then ended
    else continued

-- The first byte is read without a look at the length; `none` stands for the failure, and an empty
-- value is not looked at here.
unfoldable pub read_object_id : ℕ → List ℕ → Option (List ℕ)
read_object_id first bytes =
    Option.map (λ arcs. first / 40 ∷ (first - first / 40 * 40) ∷ arcs) (read_arcs 0 bytes)

-- The digits of a number for k = 4 down to 0.
abbrev pub arc_digits : ℕ → List ℕ
arc_digits num =
    num / 2 ^ 28 % 128
    ∷ num / 2 ^ 21 % 128
    ∷ num / 2 ^ 14 % 128
    ∷ num / 2 ^ 7 % 128
    ∷ num % 128
    ∷ []

-- The loop over the digits: zeros in front are left out, and all bytes but the last have the high bit.
unfoldable pub arc_bytes : Bool → List ℕ → List ℕ
arc_bytes had [] = []
arc_bytes had (d ∷ []) = d ∷ []
arc_bytes had (d ∷ e ∷ ds) =
    let used = not (d == 0) || had in
    let rest = arc_bytes used (e ∷ ds) in if used then (d + 128) ∷ rest else rest

unfoldable pub write_arcs : List ℕ → List ℕ
write_arcs [] = []
write_arcs (num ∷ arcs) = arc_bytes false (arc_digits num) ++ write_arcs arcs

-- Less than two bytes are refused.
unfoldable pub write_object_id : List ℕ → Option (List ℕ)
write_object_id (num1 ∷ num ∷ arc ∷ arcs) = some ((40 * num1 + num) % 256 ∷ write_arcs (arc ∷ arcs))
write_object_id _ = none

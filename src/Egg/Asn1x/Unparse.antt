-- ===== src/Egg/Asn1x/Unparse.antt =====
-- The writer of tags, lengths and values in egg/egg-asn1x.c. A tag is below 2^56, since the buffer for
-- its digits has eight bytes, and a length is not negative.
use gcr.Shared.{
  ℕ, zero, suc, ◌+◌, ◌*◌, ◌/◌, ◌%◌, ◌^◌, List, [], ◌∷◌, ◌++◌, length, ltb, ◌==◌, if◌then◌else◌,
}
use gcr.Egg.Asn1x.Tlv.{
  Len, definite, Value, plain, bit_string, zero_prefixed, Atlv, Atlvs, leaf, parent, nil, cons,
}

-- The digits of `n`, the most significant first, before those of `acc`: the loop fills its buffer from
-- the least significant one on, and it is copied backwards. The fuel is the number of rounds; `n` of
-- them are enough.
unfoldable pub base_digits : ℕ → ℕ → ℕ → List ℕ → List ℕ
base_digits base zero n acc = acc
base_digits base (suc fuel) n acc =
    let rest = base_digits base fuel (n / base) (n % base ∷ acc) in if n == 0 then acc else rest

unfoldable pub unparse_len : ℕ → List ℕ
unparse_len len =
    if ltb len 128
    then len ∷ []
    else (let bytes = base_digits 256 len len [] in (length bytes % 128 + 128) ∷ bytes)

-- All digits but the last one have the high bit.
unfoldable pub mark_digits : List ℕ → List ℕ
mark_digits [] = []
mark_digits (d ∷ []) = d ∷ []
mark_digits (d ∷ e ∷ ds) = (d + 128) ∷ mark_digits (e ∷ ds)

unfoldable pub unparse_cls_tag : ℕ → ℕ → List ℕ
unparse_cls_tag cls tag =
    if ltb tag 31
    then (cls / 32 * 32 + tag) ∷ []
    else (cls / 32 * 32 + 31) ∷ mark_digits (base_digits 128 tag tag [])

unfoldable pub unparse_cls_tag_len : ℕ → ℕ → ℕ → List ℕ
unparse_cls_tag_len cls tag len = unparse_cls_tag cls tag ++ unparse_len len

-- `p[len] &= ~mask`: the empty bits of the last byte are zero.
unfoldable pub clear_last : ℕ → List ℕ → List ℕ
clear_last empty [] = []
clear_last empty (x ∷ []) = x / 2 ^ empty * 2 ^ empty ∷ []
clear_last empty (x ∷ y ∷ xs) = x ∷ clear_last empty (y ∷ xs)

unfoldable pub content : Value → List ℕ
content (plain bytes) = bytes
content (bit_string empty bytes) = empty ∷ clear_last empty bytes
content (zero_prefixed bytes) = 0 ∷ bytes

-- The length that is written; a negative one fails an assertion of the writer.
abbrev pub written_len : Len → ℕ
written_len (definite len) = len
written_len _ = 0

unfoldable mutual
  pub unparse_der : Atlv → List ℕ
  unparse_der (leaf cls tag off len value) = unparse_cls_tag_len cls tag len ++ content value
  unparse_der (parent cls tag off len children) =
      unparse_cls_tag_len cls tag (written_len len) ++ unparse_children children

  pub unparse_children : Atlvs → List ℕ
  unparse_children nil = []
  unparse_children (cons child children) = unparse_der child ++ unparse_children children

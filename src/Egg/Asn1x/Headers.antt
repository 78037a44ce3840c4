-- ===== src/Egg/Asn1x/Headers.antt =====
-- The headers that the writer of egg/egg-asn1x.c makes are read by its parser.
use gcr.Shared.{
  ℕ, suc, ◌+◌, ◌-◌, ◌*◌, ◌/◌, ◌%◌, ◌^◌, ◌≤◌, ◌<◌, ◌≡◌, inl, inr, refl, ap, ◌∙◌, true, false, List,
  [], ◌∷◌, ◌++◌, length, ltb, ◌==◌, arith, All, Bool-cases, le→ltb_false, lt→ltb, append_assoc,
  length-append, drop-append,
}
use gcr.Egg.Asn1x.Tlv.{
  ok, ◌>>=◌, definite, tag_loop, tag_end, parse_cls_tag, parse_length, parse_cls_tag_len,
}
use gcr.Egg.Asn1x.Unparse.{
  base_digits, mark_digits, unparse_len, unparse_cls_tag, unparse_cls_tag_len,
}
use gcr.Egg.Asn1x.Digits.{
  be_value, be_value-base_digits, All-base_digits, length-base_digits_pos, length-base_digits_256,
  tag_loop-mark_digits, length_loop-digits,
}

length-mark_digits : (ds : List ℕ) → length (mark_digits ds) ≡ length ds
unfolding mark_digits
length-mark_digits [] = refl
length-mark_digits (d ∷ []) = refl
length-mark_digits (d ∷ e ∷ ds) = ap suc (length-mark_digits (e ∷ ds))

-- A long tag, for digits that are not none.
long_tag :
    (n first : ℕ) (ds rest : List ℕ)
    → All (λ x. x < 128) ds
    → 0 < length ds
    → be_value 128 0 ds < 2 ^ 32
    → 1 + length ds < n
    → (tag_loop n 1 0 (mark_digits ds ++ rest) >>= tag_end n first)
      ≡ ok (first / 32 * 32, be_value 128 0 ds, 1 + length ds)
long_tag n first [] rest h pos small fits = absurd (omega arith)
long_tag n first (d ∷ ds) rest h pos small fits =
    rw (tag_loop-mark_digits n 1 0 d ds rest h small (omega arith)) (ground arith)

parse_cls_tag-unparse_cls_tag :
    (n cls tag : ℕ) (rest : List ℕ)
    → tag < 2 ^ 32
    → length (unparse_cls_tag cls tag) < n
    → parse_cls_tag n (unparse_cls_tag cls tag ++ rest)
      ≡ ok (cls / 32 * 32, tag, length (unparse_cls_tag cls tag))
unfolding parse_cls_tag unparse_cls_tag
parse_cls_tag-unparse_cls_tag n cls tag rest small fits = elim (Bool-cases (ltb tag 31)) [
  | inl short ↦ rw short (ground (arith, fits, short))
  | inr long ↦
      let ds = base_digits 128 tag tag [] in
      let value : be_value 128 0 ds ≡ tag =
        be_value-base_digits 128 (omega arith) tag tag [] (omega arith) in
      let size : length (mark_digits ds) ≡ length ds = length-mark_digits ds in
      let pos : 0 < length ds =
        length-base_digits_pos 128 (omega arith) tag tag (ground (arith, long)) (omega arith) in
      let room : 1 + length ds < n = ground (arith, fits, long, size) in
      let first = cls / 32 * 32 + 31 in
      let is_long : (first % 32 == 31) ≡ true = ground arith in
      rw (long, le→ltb_false n 2 (omega (arith, room, pos)), is_long)
        (long_tag n first ds rest (All-base_digits 128 (omega arith) tag tag [] tt) pos
            (omega (arith, value, small)) room
          ∙ ground (arith, value, size))
]

length-unparse_len_short : (len : ℕ) → len < 2 ^ 31 → length (base_digits 256 len len []) ≤ 4
length-unparse_len_short len h = omega (arith, length-base_digits_256 4 len len [] (omega arith))

parse_length-unparse_len :
    (n len : ℕ) (rest : List ℕ)
    → len < 2 ^ 31
    → length (unparse_len len) ≤ n
    → parse_length n (unparse_len len ++ rest) ≡ ok (definite len, length (unparse_len len))
unfolding parse_length unparse_len
parse_length-unparse_len n len rest small fits = elim (Bool-cases (ltb len 128)) [
  | inl short ↦ rw short (ground (arith, short))
  | inr long ↦
      let ds = base_digits 256 len len [] in
      let value : be_value 256 0 ds ≡ len =
        be_value-base_digits 256 (omega arith) len len [] (omega arith) in
      let pos : 0 < length ds =
        length-base_digits_pos 256 (omega arith) len len (ground (arith, long)) (omega arith) in
      let few : length ds ≤ 4 = length-unparse_len_short len small in
      let k = length ds in
      let is_long : ltb (k % 128 + 128) 128 ≡ false = ground arith in
      let count : (k % 128 + 128) % 128 ≡ k = omega (arith, few) in
      let some_digits : (k == 0) ≡ false = ground (arith, pos) in
      let room : k < n = ground (arith, fits, long) in
      rw
        (
          long,
          is_long,
          count,
          some_digits,
          length_loop-digits n k 1 0 ds rest (All-base_digits 256 (omega arith) len len [] tt)
              (omega (arith, value, small)) (omega arith) room,
          value,
          lt→ltb len (2 ^ 31) small,
        )
        (ground arith)
]

length-unparse_len_pos : (len : ℕ) → 0 < length (unparse_len len)
unfolding unparse_len
length-unparse_len_pos len = ground arith

-- A header that was written is read, where what it announces is there.
pub parse_cls_tag_len-unparse_cls_tag_len :
    (n cls tag len : ℕ) (rest : List ℕ)
    → tag < 2 ^ 32
    → len < 2 ^ 31
    → length (unparse_cls_tag_len cls tag len) + len ≤ n
    → parse_cls_tag_len n (unparse_cls_tag_len cls tag len ++ rest)
      ≡ ok (record {
        cls = cls / 32 * 32;
        tag = tag;
        off = length (unparse_cls_tag_len cls tag len);
        len = definite len;
      })
unfolding parse_cls_tag_len unparse_cls_tag_len
parse_cls_tag_len-unparse_cls_tag_len n cls tag len rest tag32 len31 fits =
    let tag_bytes = unparse_cls_tag cls tag in
    let len_bytes = unparse_len len in
    let total : length (tag_bytes ++ len_bytes) ≡ length tag_bytes + length len_bytes =
      length-append tag_bytes len_bytes in
    let pos : 0 < length len_bytes = length-unparse_len_pos len in
    rw
      (
        append_assoc tag_bytes len_bytes rest,
        parse_cls_tag-unparse_cls_tag n cls tag (len_bytes ++ rest) tag32
            (omega (arith, fits, total, pos)),
        drop-append (length tag_bytes) tag_bytes (len_bytes ++ rest) refl,
        parse_length-unparse_len (n - length tag_bytes) len rest len31 (omega (arith, fits, total)),
      )
      (rw (← total) (ground (arith, fits)))

length-unparse_cls_tag_pos : (cls tag : ℕ) → 0 < length (unparse_cls_tag cls tag)
unfolding unparse_cls_tag
length-unparse_cls_tag_pos cls tag = ground arith

pub length-unparse_cls_tag_len_two :
    (cls tag len : ℕ) → 2 ≤ length (unparse_cls_tag_len cls tag len)
unfolding unparse_cls_tag_len
length-unparse_cls_tag_len_two cls tag len = omega (
  arith,
  length-append (unparse_cls_tag cls tag) (unparse_len len),
  length-unparse_cls_tag_pos cls tag,
  length-unparse_len_pos len,
)

-- ===== src/Egg/Asn1x/Overread.antt =====
-- A long tag that does not end within the block, in egg/egg-asn1x.c.
use gcr.Shared.{
  ℕ, ◌+◌, ◌*◌, ◌%◌, ◌^◌, ◌≤◌, ◌<◌, ◌≡◌, refl, List, [], ◌∷◌, length, arith, All, map, le→ltb_false,
}
use gcr.Egg.Asn1x.Tlv.{overread, tag_loop, parse_cls_tag, parse_cls_tag_len, parse_der}
use gcr.Egg.Asn1x.Digits.{be_value, be_value_grows}

-- The seven bits of each byte that count.
abbrev pub low_bits : List ℕ → List ℕ
low_bits = map (λ x. x % 128)

tag_loop_overread :
    (n punt ris : ℕ) (mem : List ℕ)
    → All (λ x. 128 ≤ x) mem
    → be_value 128 ris (low_bits mem) < 2 ^ 32
    → punt + length mem ≡ n
    → tag_loop n punt ris mem ≡ overread
unfolding tag_loop
tag_loop_overread n punt ris [] h small all = ground arith
tag_loop_overread n punt ris (x ∷ mem) h small all =
    let grows : ris * 128 + x % 128 ≤ be_value 128 (ris * 128 + x % 128) (low_bits mem) =
      be_value_grows 128 (ris * 128 + x % 128) (low_bits mem) (omega arith) in
    let same : (ris * 128 % 2 ^ 32 + x % 128) % 2 ^ 32 ≡ ris * 128 + x % 128 =
      omega (arith, grows, small) in
    let first : ris * 128 % 2 ^ 32 ≡ ris * 128 = omega (arith, grows, small) in
    rw (same, first)
      (ground
        (arith, tag_loop_overread n (punt + 1) (ris * 128 + x % 128) mem h.1 small (omega arith)))

-- A block of a first byte that announces a long tag, and one or more bytes that all continue it, is
-- read behind its end, where the tag so far has 32 bits.
pub parse_der_overread :
    (first c : ℕ) (cs : List ℕ)
    → first % 32 ≡ 31
    → All (λ x. 128 ≤ x) (c ∷ cs)
    → be_value 128 0 (low_bits (c ∷ cs)) < 2 ^ 32
    → parse_der (first ∷ c ∷ cs) ≡ overread
unfolding parse_der parse_cls_tag_len parse_cls_tag
parse_der_overread first c cs long h small =
    let n = length (first ∷ c ∷ cs) in
    let loop : tag_loop n 1 0 (c ∷ cs) ≡ overread =
      tag_loop_overread n 1 0 (c ∷ cs) h small (omega arith) in
    rw (le→ltb_false n 2 (omega arith), long, loop) refl

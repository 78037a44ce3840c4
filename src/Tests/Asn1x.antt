-- ===== src/Tests/Asn1x.antt =====
-- The tags, lengths and values of egg/egg-asn1x.c on small blocks.
use gcr.Shared.{◌≡◌, ◌≢◌, refl, true, none, some, [], ◌∷◌, arith}
use gcr.Egg.Asn1x.Tlv.{
  Atlv, leaf, parent, nil, cons, plain, bit_string, definite, ok, overread, no_fuel, parse_der,
}
use gcr.Egg.Asn1x.Unparse.{
  unparse_der, unparse_children, unparse_cls_tag_len, unparse_cls_tag, unparse_len, content,
  clear_last,
}
use gcr.Egg.Asn1x.RoundTrip.{read_back, parse_der-unparse_der}
use gcr.Egg.Asn1x.Termination.{parse_der_ends}
use gcr.Egg.Asn1x.Overread.{parse_der_overread}
use gcr.Egg.Asn1x.Integer.{
  value, read_integer_ulong, write_integer_ulong, read_boolean, write_boolean,
}
use gcr.Egg.Asn1x.Integer.Laws.{write_integer_ulong_lem, read_integer_ulong-write_integer_ulong}
use gcr.Egg.Asn1x.ObjectId.{read_object_id, write_object_id, write_arcs, arc_bytes, read_arcs}
use gcr.Egg.Asn1x.ObjectId.Laws.{reread, read_object_id-write_object_id}

-- A sequence of an integer and of a bit string with three empty bits.
abbrev sequence : Atlv
sequence =
    parent 32 16 2 (definite 7)
      (cons (leaf 0 2 2 1 (plain (5 ∷ []))) (cons (leaf 0 3 2 2 (bit_string 3 (255 ∷ []))) nil))

parse_der-unparse_der_example : parse_der (unparse_der sequence) ≡ ok (read_back sequence)
unfolding unparse_der unparse_children unparse_cls_tag_len unparse_cls_tag unparse_len content
    clear_last
parse_der-unparse_der_example = parse_der-unparse_der sequence (
  (refl, omega arith, omega arith, refl),
  refl,
  refl,
  (
    ((refl, omega arith, omega arith, refl), refl, refl),
    (((refl, omega arith, omega arith, refl), refl, refl), tt),
  ),
)

parse_der_ends_example : parse_der (48 ∷ 128 ∷ 2 ∷ 1 ∷ 5 ∷ []) ≢ no_fuel
parse_der_ends_example = parse_der_ends (48 ∷ 128 ∷ 2 ∷ 1 ∷ 5 ∷ [])

parse_der_overread_example : parse_der (31 ∷ 129 ∷ 130 ∷ []) ≡ overread
parse_der_overread_example =
    parse_der_overread 31 129 (130 ∷ []) refl (omega arith, (omega arith, tt)) (omega arith)

write_integer_ulong_lem_example : write_integer_ulong 65537 ≡ 1 ∷ []
write_integer_ulong_lem_example =
    write_integer_ulong_lem 1 (1 ∷ []) ((omega arith, omega arith), tt) (omega arith)

read_integer_ulong-write_integer_ulong_example :
    read_integer_ulong (write_integer_ulong 513) ≡ value 513
read_integer_ulong-write_integer_ulong_example =
    read_integer_ulong-write_integer_ulong (1 ∷ 2 ∷ [])
      ((omega arith, omega arith), ((omega arith, omega arith), tt)) (omega arith)

read_object_id-write_object_id_example :
    reread (write_object_id (1 ∷ 2 ∷ 840 ∷ 113549 ∷ [])) ≡ some (1 ∷ 2 ∷ 840 ∷ 113549 ∷ [])
unfolding write_arcs arc_bytes
read_object_id-write_object_id_example =
    read_object_id-write_object_id 1 2 840 (113549 ∷ []) (omega arith) (omega arith)
      (omega arith, (omega arith, tt))

write-boolean : read_boolean (write_boolean true) ≡ value true
unfolding read_boolean write_boolean
write-boolean = refl

-- The number 16384 has a byte 0x80.
write-16384 : write_object_id (1 ∷ 2 ∷ 16384 ∷ []) ≡ some (42 ∷ 129 ∷ 128 ∷ 0 ∷ [])
unfolding write_object_id write_arcs arc_bytes
write-16384 = refl

read-16384 : read_object_id 42 (129 ∷ 128 ∷ 0 ∷ []) ≡ none
unfolding read_object_id read_arcs
read-16384 = refl

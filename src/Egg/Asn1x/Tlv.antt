-- ===== src/Egg/Asn1x/Tlv.antt =====
-- The parser of tags, lengths and values in egg/egg-asn1x.c. The data stands in one block; `mem` is
-- what is left of the block at a pointer, and `n` the number of bytes up to the end that the caller
-- gives, which may lie before the end of the block. A block is smaller than 2^31 bytes, and a byte is
-- below 256.
use gcr.Shared.{
  ℕ, zero, suc, ◌+◌, ◌-◌, ◌*◌, ◌/◌, ◌%◌, ◌^◌, Bool, true, false, ◌&&◌, not, List, [], ◌∷◌, length,
  take, drop, ltb, leb, ◌==◌, if◌then◌else◌,
}

-- The messages of the parser.
pub data Failure : Type 0 where
  not_proper : Failure
  indefinite_primitive : Failure
  trailing_data : Failure

-- A run that reads behind the end of the block ends in `overread`; `no_fuel` is no behaviour of the
-- code.
pub data Parse {ℓ} (A : Type ℓ) : Type ℓ where
  ok : A → Parse A
  failed : Failure → Parse A
  overread : Parse A
  no_fuel : Parse A

infixl 5 ◌>>=◌
abbrev pub ◌>>=◌ {ℓ κ} : {A : Type ℓ} {B : Type κ} → Parse A → (A → Parse B) → Parse B
ok a >>= f = f a
failed e >>= f = failed e
overread >>= f = overread
no_fuel >>= f = no_fuel

-- The `gint len`: -1 stands for the indefinite length.
pub data Len : Type 0 where
  definite : ℕ → Len
  indefinite : Len
  negative : Len

pub record Header : Type 0 where
  pub cls : ℕ
  pub tag : ℕ
  pub off : ℕ
  pub len : Len

-- cls & ASN1_CLASS_STRUCTURED
abbrev pub is_structured : ℕ → Bool
is_structured cls = cls / 32 % 2 == 1

-- The loop over the bytes of a long tag: `ris` is 32 bits wide. The first test lets one byte at the
-- given end be read.
unfoldable pub tag_loop : ℕ → ℕ → ℕ → List ℕ → Parse (ℕ × ℕ)
tag_loop n punt ris [] = if leb punt n then overread else ok (ris, punt)
tag_loop n punt ris (val ∷ mem) =
    let shifted = ris * 128 % 2 ^ 32 in
    let added = (shifted + val % 128) % 2 ^ 32 in
    let rest = tag_loop n (punt + 1) added mem in
    if not (leb punt n)
    then ok (ris, punt)
    else if ltb shifted ris
    then failed not_proper
    else if ltb added shifted
    then failed not_proper
    else if ltb val 128
    then ok (added, punt + 1)
    else rest

-- The test behind the loop.
abbrev pub tag_end : ℕ → ℕ → ℕ × ℕ → Parse (ℕ × ℕ × ℕ)
tag_end n first (ris, punt) =
    if leb n punt then failed not_proper else ok (first / 32 * 32, ris, punt)

-- The class, the tag and the offset behind it. FALSE is the message that every caller makes of it.
unfoldable pub parse_cls_tag : ℕ → List ℕ → Parse (ℕ × ℕ × ℕ)
parse_cls_tag n [] = if ltb n 2 then failed not_proper else overread
parse_cls_tag n (first ∷ mem) =
    if ltb n 2
    then failed not_proper
    else if not (first % 32 == 31)
    then ok (first / 32 * 32, first % 32, 1)
    else (tag_loop n 1 0 mem >>= tag_end n first)

-- The loop over the `k` bytes of a long length, `ans` is 32 bits wide.
unfoldable pub length_loop : ℕ → ℕ → ℕ → ℕ → List ℕ → Parse (ℕ × ℕ)
length_loop n k punt ans [] = if leb punt k && ltb punt n then overread else ok (ans, punt)
length_loop n k punt ans (x ∷ mem) =
    let shifted = ans * 256 % 2 ^ 32 in
    let added = (shifted + x) % 2 ^ 32 in
    let rest = length_loop n k (punt + 1) added mem in
    if not (leb punt k && ltb punt n)
    then ok (ans, punt)
    else if ltb shifted ans
    then failed not_proper
    else if ltb added shifted
    then failed not_proper
    else rest

-- (gint) ans
abbrev pub to_gint : ℕ → Len
to_gint ans =
    if ltb ans (2 ^ 31) then definite ans else if ans == 2 ^ 32 - 1 then indefinite else negative

abbrev pub long_length : ℕ × ℕ → Parse (Len × ℕ)
long_length (ans, punt) = ok (to_gint ans, punt)

-- The length and the offset behind it. Where the source returns -2, so does every caller fail.
unfoldable pub parse_length : ℕ → List ℕ → Parse (Len × ℕ)
parse_length n [] = overread
parse_length n (first ∷ mem) =
    if ltb first 128
    then ok (definite first, 1)
    else if first % 128 == 0
    then ok (indefinite, 1)
    else (length_loop n (first % 128) 1 0 mem >>= long_length)

abbrev pub checked : ℕ → Header → Len → Parse Header
checked n h negative = failed not_proper
checked n h indefinite = ok h
checked n h (definite len) = if ltb n (h.off + len) then failed not_proper else ok h

unfoldable pub parse_cls_tag_len : ℕ → List ℕ → Parse Header
parse_cls_tag_len n mem = do
  (cls, tag, cb1) ← parse_cls_tag n mem
  (len, cb2) ← parse_length (n - cb1) (drop cb1 mem)
  checked n (record { cls = cls; tag = tag; off = cb1 + cb2; len = len }) len

-- What a node holds: a value as it stands, a bit string with the number of its empty bits, or an
-- integer that gets a zero byte in front.
pub data Value : Type 0 where
  plain : List ℕ → Value
  bit_string : ℕ → List ℕ → Value
  zero_prefixed : List ℕ → Value

-- An Atlv with a value, or with children. The stretch of the block that was decoded is not kept.
mutual
  pub data Atlv : Type 0 where
    leaf : (cls tag off len : ℕ) → Value → Atlv
    parent : (cls tag off : ℕ) → Len → Atlvs → Atlv

  pub data Atlvs : Type 0 where
    nil : Atlvs
    cons : Atlv → Atlvs → Atlvs

-- The end of the children where the length is indefinite.
abbrev pub is_definite_zero : Len → Bool
is_definite_zero (definite len) = len == 0
is_definite_zero _ = false

abbrev pub ends_contents : Header → Bool
ends_contents h = h.cls == 0 && (h.tag == 0 && is_definite_zero h.len)

abbrev pub value_of : Header → List ℕ → Len → Parse (Atlv × ℕ)
value_of h body (definite len) =
    ok (leaf h.cls h.tag h.off len (plain (take len body)), h.off + len)
value_of h body _ = failed indefinite_primitive

-- Whether the children end with an end of contents, and how many bytes they have: to the end of the
-- block where the length is indefinite.
abbrev pub until_end : Len → Bool
until_end (definite len) = false
until_end _ = true

abbrev pub room : List ℕ → Len → ℕ
room body (definite len) = len
room body _ = length body

-- A node with its number of bytes, and the children of one with theirs. Each call takes one unit of
-- the fuel.
unfoldable mutual
  pub parse_der_tag : ℕ → Header → List ℕ → Parse (Atlv × ℕ)
  parse_der_tag zero h mem = no_fuel
  parse_der_tag (suc fuel) h mem = elim (is_structured h.cls) [
    | false ↦ value_of h (drop h.off mem) h.len
    | true ↦ do
      (children, used) ←
          parse_children fuel (until_end h.len) (room (drop h.off mem) h.len) (drop h.off mem)
      ok (parent h.cls h.tag h.off h.len children, h.off + used)
  ]

  pub parse_children : ℕ → Bool → ℕ → List ℕ → Parse (Atlvs × ℕ)
  parse_children zero open_ended n mem = no_fuel
  parse_children (suc fuel) open_ended n mem = elim (n == 0) [
    | true ↦ ok (nil, 0)
    | false ↦ do
      h ← parse_cls_tag_len n mem
      elim (open_ended && ends_contents h) [
        | true ↦ ok (nil, h.off)
        | false ↦ do
          (child, used) ← parse_der_tag fuel h mem
          (children, more) ← parse_children fuel open_ended (n - used) (drop used mem)
          ok (cons child children, used + more)
      ]
  ]

abbrev pub whole : ℕ → Atlv × ℕ → Parse Atlv
whole size (tlv, used) = if used == size then ok tlv else failed trailing_data

-- Every node takes two bytes, so that the size of the block is enough fuel twice over.
unfoldable pub parse_der : List ℕ → Parse Atlv
parse_der block = do
  h ← parse_cls_tag_len (length block) block
  node ← parse_der_tag (2 * length block + 1) h block
  whole (length block) node

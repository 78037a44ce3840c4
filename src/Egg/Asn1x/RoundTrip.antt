-- ===== src/Egg/Asn1x/RoundTrip.antt =====
-- A tree that the writer of egg/egg-asn1x.c can write is read by its parser.
use gcr.Shared.{
  ℕ, zero, suc, ◌+◌, ◌-◌, ◌*◌, ◌/◌, ◌^◌, ◌≤◌, ◌<◌, ◌≡◌, refl, ◌∙◌, true, false, List, [], ◌++◌,
  length, drop, ◌==◌, arith, append_assoc, length-append, drop-append, take-append, append-nil,
  ne→==_false, ==_refl,
}
use gcr.Egg.Asn1x.Tlv.{
  ok, Header, definite, plain, Atlv, Atlvs, leaf, parent, nil, cons, is_structured, parse_der_tag,
  parse_children, parse_cls_tag_len, parse_der,
}
use gcr.Egg.Asn1x.Unparse.{unparse_cls_tag_len, content, unparse_der, unparse_children}
use gcr.Egg.Asn1x.Headers.{parse_cls_tag_len-unparse_cls_tag_len, length-unparse_cls_tag_len_two}

-- What a header says fits what it is written for: the class has its three bits only, the tag has 32
-- bits and the length 31, and the offset is the number of bytes of the header.
abbrev pub Fits : (cls tag off len : ℕ) → Type 0
Fits cls tag off len =
    (cls / 32 * 32 ≡ cls)
    × (tag < 2 ^ 32)
    × (len < 2 ^ 31)
    × (off ≡ length (unparse_cls_tag_len cls tag len))

-- A tree that can be written: each header fits, a leaf has the length of its content, and a parent the
-- definite length of what is written for its children.
abbrev mutual
  pub IsDer : Atlv → Type 0
  IsDer (leaf cls tag off len value) =
      Fits cls tag off len × (is_structured cls ≡ false) × (len ≡ length (content value))
  IsDer (parent cls tag off len children) =
      Fits cls tag off (length (unparse_children children))
      × (is_structured cls ≡ true)
      × (len ≡ definite (length (unparse_children children)))
      × AreDer children

  pub AreDer : Atlvs → Type 0
  AreDer nil = Unit
  AreDer (cons child children) = IsDer child × AreDer children

-- The tree as it is read: what a value holds stands in it as it was written.
abbrev mutual
  pub read_back : Atlv → Atlv
  read_back (leaf cls tag off len value) = leaf cls tag off len (plain (content value))
  read_back (parent cls tag off len children) = parent cls tag off len (read_all_back children)

  pub read_all_back : Atlvs → Atlvs
  read_all_back nil = nil
  read_all_back (cons child children) = cons (read_back child) (read_all_back children)

abbrev header_of : Atlv → Header
header_of (leaf cls tag off len value) = record {
  cls = cls;
  tag = tag;
  off = off;
  len = definite len;
}
header_of (parent cls tag off len children) = record { cls = cls; tag = tag; off = off; len = len }

-- A header that fits, before what it announces.
read_header :
    (n cls tag off len : ℕ) (body rest : List ℕ)
    → Fits cls tag off len
    → len ≡ length body
    → length (unparse_cls_tag_len cls tag len ++ body) ≤ n
    → parse_cls_tag_len n ((unparse_cls_tag_len cls tag len ++ body) ++ rest)
      ≡ ok (record { cls = cls; tag = tag; off = off; len = definite len })
read_header n cls tag off len body rest h size fits =
    let head = unparse_cls_tag_len cls tag len in
    let total : length (head ++ body) ≡ length head + length body = length-append head body in
    rw (append_assoc head body rest) (
      parse_cls_tag_len-unparse_cls_tag_len n cls tag len (body ++ rest) h.1 h.2
        (omega (arith, total, size, fits))
      ∙ ground (arith, h.0, h.3))

behind_header :
    (off : ℕ) (head body rest : List ℕ)
    → off ≡ length head
    → drop off ((head ++ body) ++ rest) ≡ body ++ rest
behind_header off head body rest e =
    rw (append_assoc head body rest) (drop-append off head (body ++ rest) e)

header-unparse_der :
    (t : Atlv) (n : ℕ) (rest : List ℕ)
    → IsDer t
    → length (unparse_der t) ≤ n
    → parse_cls_tag_len n (unparse_der t ++ rest) ≡ ok (header_of t)
unfolding unparse_der
header-unparse_der (leaf cls tag off len value) n rest h fits =
    read_header n cls tag off len (content value) rest h.0 h.2 fits
header-unparse_der (parent cls tag off len children) n rest h fits =
    let body = unparse_children children in
    let fits' : length (unparse_cls_tag_len cls tag (length body) ++ body) ≤ n = rw h.2 at fits in
    rw h.2 (read_header n cls tag off (length body) body rest h.0 refl fits')

-- The size of a node from that of its header and its body.
sized :
    (cls tag off len : ℕ) (body : List ℕ)
    → Fits cls tag off len
    → (off + length body ≡ length (unparse_cls_tag_len cls tag len ++ body)) × (2 ≤ off)
sized cls tag off len body h = (
  omega (arith, length-append (unparse_cls_tag_len cls tag len) body, h.3),
  omega (arith, length-unparse_cls_tag_len_two cls tag len, h.3),
)

size_two : (t : Atlv) → IsDer t → 2 ≤ length (unparse_der t)
unfolding unparse_der
size_two (leaf cls tag off len value) h = omega (arith, sized cls tag off len (content value) h.0)
size_two (parent cls tag off len children) h =
    let body = unparse_children children in
    rw h.2 (omega (arith, sized cls tag off (length body) body h.0))

parent_step :
    (fuel cls tag off : ℕ) (body rest : List ℕ) (children : Atlvs)
    → Fits cls tag off (length body)
    → is_structured cls ≡ true
    → parse_children fuel false (length body) (body ++ rest) ≡ ok (children, length body)
    → parse_der_tag
        (suc fuel)
        (record { cls = cls; tag = tag; off = off; len = definite (length body) })
        ((unparse_cls_tag_len cls tag (length body) ++ body) ++ rest)
      ≡ ok (
        parent cls tag off (definite (length body)) children,
        length (unparse_cls_tag_len cls tag (length body) ++ body),
      )
unfolding parse_der_tag
parent_step fuel cls tag off body rest children h structured e =
    let head = unparse_cls_tag_len cls tag (length body) in
    rw (parse_der_tag, structured)
      (rw (behind_header off head body rest h.3)
        (rw e (ground (arith, sized cls tag off (length body) body h))))

children_step :
    (fuel : ℕ) (front back rest : List ℕ) (head : Header) (child : Atlv) (children : Atlvs)
    → 2 ≤ length front
    → parse_cls_tag_len (length (front ++ back)) (front ++ (back ++ rest)) ≡ ok head
    → parse_der_tag fuel head (front ++ (back ++ rest)) ≡ ok (child, length front)
    → parse_children fuel false (length back) (back ++ rest) ≡ ok (children, length back)
    → parse_children (suc fuel) false (length (front ++ back)) ((front ++ back) ++ rest)
      ≡ ok (cons child children, length (front ++ back))
unfolding parse_children
children_step fuel front back rest head child children two read node others =
    let total : length (front ++ back) ≡ length front + length back = length-append front back in
    let more : (length (front ++ back) == 0) ≡ false =
      ne→==_false (length (front ++ back)) 0 (λ z. omega (arith, z, total, two)) in
    let left : length (front ++ back) - length front ≡ length back = omega (arith, total) in
    rw (append_assoc front back rest) (
      rw (parse_children, more, read, node)
        (rw (left, drop-append (length front) front (back ++ rest) refl, others)
          (ground (arith, total))))

mutual
  unfolding parse_der_tag parse_children unparse_der unparse_children

  node-read :
      (t : Atlv) (fuel : ℕ) (rest : List ℕ)
      → IsDer t
      → 2 * length (unparse_der t) ≤ fuel
      → parse_der_tag fuel (header_of t) (unparse_der t ++ rest)
        ≡ ok (read_back t, length (unparse_der t))
  node-read t zero rest h enough = absurd (omega (arith, size_two t h))
  node-read (leaf cls tag off len value) (suc fuel) rest h enough =
      rw (parse_der_tag, h.1)
        (rw (behind_header off (unparse_cls_tag_len cls tag len) (content value) rest h.0.3) (
          rw (take-append len (content value) rest h.2)
            (ground (arith, sized cls tag off len (content value) h.0, h.2))))
  node-read (parent cls tag off len children) (suc fuel) rest h enough =
      let body = unparse_children children in
      let big : 2 * length body < fuel =
        let enough' : 2 * length (unparse_cls_tag_len cls tag (length body) ++ body) ≤ suc fuel =
          rw h.2 at enough in
        omega (arith, enough', sized cls tag off (length body) body h.0) in
      rw h.2 (
        parent_step fuel cls tag off body rest (read_all_back children) h.0 h.1
          (children-read children fuel rest h.3 big))

  children-read :
      (cs : Atlvs) (fuel : ℕ) (rest : List ℕ)
      → AreDer cs
      → 2 * length (unparse_children cs) < fuel
      → parse_children fuel false (length (unparse_children cs)) (unparse_children cs ++ rest)
        ≡ ok (read_all_back cs, length (unparse_children cs))
  children-read cs zero rest h enough = absurd (omega arith)
  children-read nil (suc fuel) rest h enough = refl
  children-read (cons c cs) (suc fuel) rest h enough =
      let front = unparse_der c in
      let back = unparse_children cs in
      let total : length (front ++ back) ≡ length front + length back = length-append front back in
      children_step fuel front back rest (header_of c) (read_back c) (read_all_back cs)
        (size_two c h.0)
        (header-unparse_der c (length (front ++ back)) (back ++ rest) h.0 (omega (arith, total)))
        (node-read c fuel (back ++ rest) h.0 (omega (arith, total, enough)))
        (children-read cs fuel rest h.1 (omega (arith, total, enough, size_two c h.0)))

-- A tree that can be written is written to bytes that are parsed to the same tree, with each value as
-- it was written.
pub parse_der-unparse_der : (t : Atlv) → IsDer t → parse_der (unparse_der t) ≡ ok (read_back t)
unfolding parse_der
parse_der-unparse_der t h =
    let bytes = unparse_der t in
    let read : parse_cls_tag_len (length bytes) bytes ≡ ok (header_of t) =
      rw append-nil at (header-unparse_der t (length bytes) [] h (omega arith)) in
    let node : parse_der_tag (2 * length bytes + 1) (header_of t) bytes
        ≡ ok (read_back t, length bytes) =
      rw append-nil at (node-read t (2 * length bytes + 1) [] h (omega arith)) in
    rw (read, node, ==_refl (length bytes)) refl

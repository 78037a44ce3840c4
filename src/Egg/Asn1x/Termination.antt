-- ===== src/Egg/Asn1x/Termination.antt =====
-- The parser of egg/egg-asn1x.c ends on every block of bytes.
use gcr.Shared.{
  ℕ, zero, suc, ◌+◌, ◌-◌, ◌*◌, ◌/◌, ◌%◌, ◌^◌, ◌≤◌, ◌<◌, ◌≡◌, ◌≢◌, inl, inr, refl, Bool, true, false,
  List, [], ◌∷◌, length, drop, ltb, leb, ◌==◌, if◌then◌else◌, not, ◌&&◌, arith, length-drop,
  Bool-cases,
}
use gcr.Egg.Asn1x.Tlv.{
  Parse, ok, failed, overread, no_fuel, ◌>>=◌, Header, Len, definite, indefinite, negative, Atlv,
  Atlvs, cons, nil, is_structured, ends_contents, value_of, until_end, room, tag_loop, tag_end,
  not_proper, parse_cls_tag, length_loop, long_length, parse_length, checked, parse_cls_tag_len,
  parse_der_tag, parse_children, whole, parse_der,
}

-- The run ends by the code's own means, and what it returns has the property.
abbrev pub Ended : {A : Type 0} → (A → Type 0) → Parse A → Type 0
Ended P (ok a) = P a
Ended P (failed e) = Unit
Ended P overread = Unit
Ended P no_fuel = ⊥

Ended-bind :
    {A B : Type 0} (P : A → Type 0) (Q : B → Type 0) (m : Parse A) (f : A → Parse B)
    → Ended P m
    → ((a : A) → P a → Ended Q (f a))
    → Ended Q (m >>= f)
Ended-bind P Q (ok a) f h k = k a h
Ended-bind P Q (failed e) f h k = tt
Ended-bind P Q overread f h k = tt
Ended-bind P Q no_fuel f h k = absurd h

Ended-weaken :
    {A : Type 0} (P Q : A → Type 0) (m : Parse A) → Ended P m → ((a : A) → P a → Q a) → Ended Q m
Ended-weaken P Q (ok a) h k = k a h
Ended-weaken P Q (failed e) h k = tt
Ended-weaken P Q overread h k = tt
Ended-weaken P Q no_fuel h k = absurd h

Ended-if :
    {A : Type 0} (P : A → Type 0) (c : Bool) (x y : Parse A)
    → (c ≡ true → Ended P x)
    → (c ≡ false → Ended P y)
    → Ended P (if c then x else y)
Ended-if P true x y h k = h refl
Ended-if P false x y h k = k refl

tag_loop-Ended : (n punt ris : ℕ) (mem : List ℕ) → Ended (λ r. punt ≤ r.1) (tag_loop n punt ris mem)
unfolding tag_loop
tag_loop-Ended n punt ris [] = elim (Bool-cases (leb punt n)) [
  | inl e ↦ rw e tt
  | inr e ↦ rw e (omega arith)
]
tag_loop-Ended n punt ris (x ∷ mem) =
    let P : ℕ × ℕ → Type 0 = λ r. punt ≤ r.1 in
    let added = (ris * 128 % 2 ^ 32 + x % 128) % 2 ^ 32 in
    Ended-if P (not (leb punt n)) (ok (ris, punt)) _ (λ _. omega arith)
      (λ _.
        Ended-if P (ltb (ris * 128 % 2 ^ 32) ris) (failed not_proper) _ (λ _. tt)
          (λ _.
            Ended-if P (ltb added (ris * 128 % 2 ^ 32)) (failed not_proper) _ (λ _. tt)
              (λ _.
                Ended-if P (ltb x 128) (ok (added, punt + 1)) _ (λ _. omega arith)
                  (λ _.
                    Ended-weaken (λ (r : ℕ × ℕ). punt + 1 ≤ r.1) P (tag_loop n (punt + 1) added mem)
                      (tag_loop-Ended n (punt + 1) added mem) (λ r h. omega arith)))))

length_loop-Ended :
    (n k punt ans : ℕ) (mem : List ℕ) → Ended (λ r. punt ≤ r.1) (length_loop n k punt ans mem)
unfolding length_loop
length_loop-Ended n k punt ans [] =
    Ended-if (λ (r : ℕ × ℕ). punt ≤ r.1) (leb punt k && ltb punt n) overread (ok (ans, punt))
      (λ _. tt) (λ _. omega arith)
length_loop-Ended n k punt ans (x ∷ mem) =
    let P : ℕ × ℕ → Type 0 = λ r. punt ≤ r.1 in
    let added = (ans * 256 % 2 ^ 32 + x) % 2 ^ 32 in
    Ended-if P (not (leb punt k && ltb punt n)) (ok (ans, punt)) _ (λ _. omega arith)
      (λ _.
        Ended-if P (ltb (ans * 256 % 2 ^ 32) ans) (failed not_proper) _ (λ _. tt)
          (λ _.
            Ended-if P (ltb added (ans * 256 % 2 ^ 32)) (failed not_proper) _ (λ _. tt)
              (λ _.
                Ended-weaken (λ (r : ℕ × ℕ). punt + 1 ≤ r.1) P
                  (length_loop n k (punt + 1) added mem)
                  (length_loop-Ended n k (punt + 1) added mem) (λ r h. omega arith))))

parse_cls_tag-Ended :
    (n : ℕ) (mem : List ℕ) → Ended (λ r. (0 < length mem) × (1 ≤ r.2)) (parse_cls_tag n mem)
unfolding parse_cls_tag
parse_cls_tag-Ended n [] =
    Ended-if {A = ℕ × ℕ × ℕ} (λ r. (0 < length {A = ℕ} []) × (1 ≤ r.2)) (ltb n 2)
      (failed not_proper) overread (λ _. tt) (λ _. tt)
parse_cls_tag-Ended n (x ∷ mem) =
    let P : ℕ × ℕ × ℕ → Type 0 = λ r. (0 < length (x ∷ mem)) × (1 ≤ r.2) in
    Ended-if P (ltb n 2) _ _ (λ _. tt)
      (λ _.
        Ended-if P (not (x % 32 == 31)) (ok (x / 32 * 32, x % 32, 1)) _ (λ _. omega arith)
          (λ _.
            Ended-bind (λ (r : ℕ × ℕ). 1 ≤ r.1) P (tag_loop n 1 0 mem) (tag_end n x)
              (tag_loop-Ended n 1 0 mem)
              (λ r h. Ended-if P (leb n r.1) _ _ (λ _. tt) (λ _. omega arith))))

parse_length-Ended : (n : ℕ) (mem : List ℕ) → Ended (λ r. 1 ≤ r.1) (parse_length n mem)
unfolding parse_length
parse_length-Ended n [] = tt
parse_length-Ended n (x ∷ mem) =
    let P : Len × ℕ → Type 0 = λ r. 1 ≤ r.1 in
    Ended-if P (ltb x 128) (ok (definite x, 1)) _ (λ _. omega arith)
      (λ _.
        Ended-if P (x % 128 == 0) (ok (indefinite, 1)) _ (λ _. omega arith)
          (λ _.
            Ended-bind (λ (r : ℕ × ℕ). 1 ≤ r.1) P (length_loop n (x % 128) 1 0 mem) long_length
              (length_loop-Ended n (x % 128) 1 0 mem) (λ r h. h)))

checked-Ended :
    (n : ℕ) (h : Header) (len : Len) (P : Header → Type 0) → P h → Ended P (checked n h len)
checked-Ended n h (definite len) P p = elim (Bool-cases (ltb n (h.off + len))) [
  | inl e ↦ rw e tt
  | inr e ↦ rw e p
]
checked-Ended n h indefinite P p = p
checked-Ended n h negative P p = tt

header-Ended :
    (n : ℕ) (mem : List ℕ) → Ended (λ h. (0 < length mem) × (2 ≤ h.off)) (parse_cls_tag_len n mem)
unfolding parse_cls_tag_len
header-Ended n mem =
    Ended-bind (λ r. (0 < length mem) × (1 ≤ r.2)) (λ h. (0 < length mem) × (2 ≤ h.off))
      (parse_cls_tag n mem) _ (parse_cls_tag-Ended n mem)
      (λ r h.
        Ended-bind (λ l. 1 ≤ l.1) (λ h. (0 < length mem) × (2 ≤ h.off))
          (parse_length (n - r.2) (drop r.2 mem)) _ (parse_length-Ended (n - r.2) (drop r.2 mem))
          (λ l k. checked-Ended n _ l.0 (λ h. (0 < length mem) × (2 ≤ h.off)) (omega arith)))

abbrev TwoBytes : Atlv × ℕ → Type 0
TwoBytes r = 2 ≤ r.1

value_of-Ended :
    (h : Header) (body : List ℕ) (len : Len) → 2 ≤ h.off → Ended TwoBytes (value_of h body len)
value_of-Ended h body (definite len) p = omega arith
value_of-Ended h body indefinite p = tt
value_of-Ended h body negative p = tt

abbrev AnyBytes : Atlvs × ℕ → Type 0
AnyBytes r = 0 ≤ r.1

-- One child and those behind it, from what holds of each.
child-Ended :
    (fuel : ℕ) (open_ended : Bool) (n : ℕ) (mem : List ℕ) (h : Header)
    → Ended TwoBytes (parse_der_tag fuel h mem)
    → ((used : ℕ)
        → 2 ≤ used
        → Ended AnyBytes (parse_children fuel open_ended (n - used) (drop used mem)))
    → Ended AnyBytes (elim (open_ended && ends_contents h) [
      | true ↦ ok (nil, h.off)
      | false ↦ do
        (child, used) ← parse_der_tag fuel h mem
        (children, more) ← parse_children fuel open_ended (n - used) (drop used mem)
        ok (cons child children, used + more)
    ])
child-Ended fuel open_ended n mem h node others =
    elim (Bool-cases (open_ended && ends_contents h)) [
      | inl finished ↦ rw finished (omega arith)
      | inr more ↦ rw more (
          Ended-bind TwoBytes AnyBytes (parse_der_tag fuel h mem) _ node (λ r two.
            Ended-bind AnyBytes AnyBytes (parse_children fuel open_ended (n - r.1) (drop r.1 mem)) _
              (others r.1 two) (λ c k. omega arith)))
    ]

mutual
  unfolding parse_der_tag parse_children

  node-Ended :
      (fuel : ℕ) (h : Header) (mem : List ℕ)
      → 0 < length mem
      → 2 ≤ h.off
      → 2 * length mem < fuel
      → Ended TwoBytes (parse_der_tag fuel h mem)
  node-Ended zero h mem some_left two enough = absurd (omega arith)
  node-Ended (suc fuel) h mem some_left two enough = elim (Bool-cases (is_structured h.cls)) [
    | inr plain_value ↦
        rw (parse_der_tag, plain_value) (value_of-Ended h (drop h.off mem) h.len two)
    | inl structured ↦
        rw (parse_der_tag, structured)
          (Ended-bind AnyBytes TwoBytes _ _
            (children-Ended fuel (until_end h.len) (room (drop h.off mem) h.len) (drop h.off mem)
              (omega (arith, length-drop h.off mem)))
            (λ r k. omega arith))
  ]

  children-Ended :
      (fuel : ℕ) (open_ended : Bool) (n : ℕ) (mem : List ℕ)
      → 2 * length mem + 1 < fuel
      → Ended AnyBytes (parse_children fuel open_ended n mem)
  children-Ended zero open_ended n mem enough = absurd (omega arith)
  children-Ended (suc fuel) open_ended n mem enough = elim (Bool-cases (n == 0)) [
    | inl finished ↦ rw (parse_children, finished) (omega arith)
    | inr more ↦
        rw (parse_children, more)
          (Ended-bind (λ h. (0 < length mem) × (2 ≤ h.off)) AnyBytes (parse_cls_tag_len n mem) _
            (header-Ended n mem)
            (λ h k.
              child-Ended fuel open_ended n mem h (node-Ended fuel h mem k.0 k.1 (omega arith))
                (λ used two.
                  children-Ended fuel open_ended (n - used) (drop used mem)
                    (omega (arith, length-drop used mem, k.0)))))
  ]

abbrev AnyTree : Atlv → Type 0
AnyTree t = Unit

parse_der-Ended : (block : List ℕ) → Ended AnyTree (parse_der block)
unfolding parse_der
parse_der-Ended block =
    Ended-bind (λ h. (0 < length block) × (2 ≤ h.off)) AnyTree
      (parse_cls_tag_len (length block) block) _ (header-Ended (length block) block)
      (λ h k.
        Ended-bind TwoBytes AnyTree (parse_der_tag (2 * length block + 1) h block)
          (whole (length block)) (node-Ended (2 * length block + 1) h block k.0 k.1 (omega arith))
          (λ r two. Ended-if AnyTree (r.1 == length block) _ _ (λ _. tt) (λ _. tt)))

-- The parser ends by its own means on every block: with a tree, a message, or a read behind the end.
pub parse_der_ends : (block : List ℕ) → parse_der block ≢ no_fuel
parse_der_ends block e = rw e at (parse_der-Ended block)

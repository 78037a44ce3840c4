-- ===== src/Egg/Asn1x/ObjectId/Laws.antt =====
-- Which object identifiers egg/egg-asn1x.c reads back.
use mathlib.Core.Bool.{or_assoc, true≢false}
use mathlib.Core.Option
use mathlib.Core.Path.{subst}
use gcr.Shared.{
  ℕ, zero, suc, ◌+◌, ◌-◌, ◌*◌, ◌/◌, ◌%◌, ◌^◌, ◌≤◌, ◌<◌, ◌≡◌, ◌≢◌, refl, sym, ap, ◌∙◌, Bool, true,
  false, ◌||◌, Option, none, some, List, [], ◌∷◌, ◌++◌, ◌==◌, arith, All, ne→==_false,
}
use gcr.Egg.Asn1x.Digits.{be_value, be_value_grows}
use gcr.Egg.Asn1x.ObjectId.{
  read_arcs, read_object_id, arc_digits, arc_bytes, write_arcs, write_object_id,
}

-- Whether some byte is 0x80.
abbrev pub has_0x80 : List ℕ → Bool
has_0x80 [] = false
has_0x80 (x ∷ xs) = x == 128 || has_0x80 xs

abbrev pub unless : Bool → Option (List ℕ) → Option (List ℕ)
unless true arcs = none
unless false arcs = arcs

read_arcs_next :
    (val x next : ℕ) (xs : List ℕ)
    → val * 128 % 2 ^ 32 + x % 128 ≡ next
    → val ≤ next
    → 128 < x
    → read_arcs val (x ∷ xs) ≡ read_arcs next xs
unfolding read_arcs
read_arcs_next val x next xs joined grows high = rw joined (ground arith)

has_0x80_next : (x : ℕ) (xs : List ℕ) → x ≢ 128 → has_0x80 (x ∷ xs) ≡ has_0x80 xs
has_0x80_next x xs h = rw (ne→==_false x 128 h) refl

arc_bytes_used :
    (had : Bool) (d e : ℕ) (ds : List ℕ)
    → arc_bytes had (suc d ∷ e ∷ ds) ≡ (suc d + 128) ∷ arc_bytes true (e ∷ ds)
unfolding arc_bytes
arc_bytes_used had d e ds = rw (ne→==_false (suc d) 0 (λ z. omega (arith, z))) refl

-- One number, in front of others.
read_arcs-arc_bytes :
    (had : Bool) (val d : ℕ) (ds rest : List ℕ)
    → All (λ x. x < 128) (d ∷ ds)
    → be_value 128 val (d ∷ ds) < 2 ^ 32
    → (had ≡ false → val ≡ 0)
    → read_arcs val (arc_bytes had (d ∷ ds) ++ rest)
      ≡ unless
          (has_0x80 (arc_bytes had (d ∷ ds)))
          (Option.map (λ arcs. be_value 128 val (d ∷ ds) ∷ arcs) (read_arcs 0 rest))
unfolding read_arcs arc_bytes
read_arcs-arc_bytes had val d [] rest h small start =
    let joined : val * 128 % 2 ^ 32 + d % 128 ≡ val * 128 + d = omega (arith, small, h.0) in
    rw joined (ground arith)
read_arcs-arc_bytes false val zero (e ∷ ds) rest h small start =
    let shifted : val * 128 + 0 ≡ val = omega (arith, start refl) in
    rw shifted (
      read_arcs-arc_bytes false val e ds rest h.1
        (subst (λ v. be_value 128 v (e ∷ ds) < 2 ^ 32) shifted small) start)
read_arcs-arc_bytes true val zero (e ∷ ds) rest h small start = refl
read_arcs-arc_bytes had val (suc d) (e ∷ ds) rest h small start =
    let grows : val * 128 + suc d ≤ be_value 128 (val * 128 + suc d) (e ∷ ds) =
      be_value_grows 128 (val * 128 + suc d) (e ∷ ds) (omega arith) in
    let joined : val * 128 % 2 ^ 32 + (suc d + 128) % 128 ≡ val * 128 + suc d =
      omega (arith, grows, small, h.0) in
    let bytes = arc_bytes true (e ∷ ds) in
    let used = arc_bytes_used had d e ds in
    ap (λ bytes. read_arcs val (bytes ++ rest)) used
    ∙ read_arcs_next val (suc d + 128) (val * 128 + suc d) (bytes ++ rest) joined (omega arith)
        (omega arith)
    ∙ read_arcs-arc_bytes true (val * 128 + suc d) e ds rest h.1 small (λ z. absurd (true≢false z))
    ∙ ap
        (λ found.
          unless found
            (Option.map (λ arcs. be_value 128 val (suc d ∷ e ∷ ds) ∷ arcs) (read_arcs 0 rest)))
        (sym (ap has_0x80 used ∙ has_0x80_next (suc d + 128) bytes (λ z. omega (arith, z))))

has_0x80_append : (xs ys : List ℕ) → has_0x80 (xs ++ ys) ≡ (has_0x80 xs || has_0x80 ys)
has_0x80_append [] ys = refl
has_0x80_append (x ∷ xs) ys =
    rw (has_0x80_append xs ys) (sym (or_assoc (x == 128) (has_0x80 xs) (has_0x80 ys)))

unless_or :
    (p q : Bool) (f : List ℕ → List ℕ) (arcs : Option (List ℕ))
    → unless p (Option.map f (unless q arcs)) ≡ unless (p || q) (Option.map f arcs)
unless_or true q f arcs = refl
unless_or false true f arcs = refl
unless_or false false f arcs = refl

arc_digits-be_value : (num : ℕ) → num < 2 ^ 31 → be_value 128 0 (arc_digits num) ≡ num
arc_digits-be_value num h = omega arith

digits_small : (num : ℕ) → All (λ x. x < 128) (arc_digits num)
digits_small num = (omega arith, (omega arith, (omega arith, (omega arith, (omega arith, tt)))))

read_arcs-write_arcs :
    (arcs : List ℕ)
    → All (λ num. num < 2 ^ 31) arcs
    → read_arcs 0 (write_arcs arcs) ≡ unless (has_0x80 (write_arcs arcs)) (some arcs)
unfolding read_arcs write_arcs
read_arcs-write_arcs [] h = refl
read_arcs-write_arcs (num ∷ arcs) h =
    let bytes = arc_bytes false (arc_digits num) in
    read_arcs-arc_bytes false 0 _ _ (write_arcs arcs) (digits_small num) (omega (arith, h.0))
      (λ z. refl)
    ∙ ap
        (λ value.
          unless (has_0x80 bytes)
            (Option.map (λ arcs. value ∷ arcs) (read_arcs 0 (write_arcs arcs))))
        (arc_digits-be_value num h.0)
    ∙ ap (λ arcs. unless (has_0x80 bytes) (Option.map (λ arcs. num ∷ arcs) arcs))
        (read_arcs-write_arcs arcs h.1)
    ∙ unless_or (has_0x80 bytes) (has_0x80 (write_arcs arcs)) (λ arcs. num ∷ arcs) (some arcs)
    ∙ ap (λ found. unless found (some (num ∷ arcs))) (sym (has_0x80_append bytes (write_arcs arcs)))

-- The bytes written for an identifier, read.
abbrev pub reread : Option (List ℕ) → Option (List ℕ)
reread (some (first ∷ bytes)) = read_object_id first bytes
reread _ = none

-- An identifier of at least three numbers, the second below 40, the first so small that the two fit in a
-- byte, and the others ints of at least 0, is read as it was written, unless a byte 0x80 was written for
-- one of the others: then the reader refuses it.
pub read_object_id-write_object_id :
    (num1 num arc : ℕ) (arcs : List ℕ)
    → num < 40
    → 40 * num1 + num < 256
    → All (λ arc. arc < 2 ^ 31) (arc ∷ arcs)
    → reread (write_object_id (num1 ∷ num ∷ arc ∷ arcs))
      ≡ unless (has_0x80 (write_arcs (arc ∷ arcs))) (some (num1 ∷ num ∷ arc ∷ arcs))
unfolding read_object_id write_object_id
read_object_id-write_object_id num1 num arc arcs below fits h =
    let first : (40 * num1 + num) % 256 ≡ 40 * num1 + num = omega (arith, fits) in
    let high : (40 * num1 + num) / 40 ≡ num1 = omega (arith, below) in
    let low : 40 * num1 + num - num1 * 40 ≡ num = omega arith in
    rw (first, high, low, read_arcs-write_arcs (arc ∷ arcs) h)
      (unless_or false (has_0x80 (write_arcs (arc ∷ arcs))) (λ arcs. num1 ∷ num ∷ arcs)
        (some (arc ∷ arcs)))

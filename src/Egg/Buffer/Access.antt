-- ===== src/Egg/Buffer/Access.antt =====
-- Reads and writes that stay inside of their block.
use gcr.Shared.{
  ℕ, zero, suc, ◌+◌, ◌≤◌, ◌≡◌, refl, ap, ◌∙◌, List, [], ◌∷◌, ◌++◌, length, take, drop, arith,
  append-nil, length-append, length-take, length-drop, take-take, take_all, drop_all, le→leb,
}
use gcr.Egg.Buffer.Memory.{done, peek, poke}

-- `m` with `src` over the bytes from `off` on.
abbrev pub splice : List ℕ → ℕ → List ℕ → List ℕ
splice m off src = take off m ++ (src ++ drop (length src) (drop off m))

module _ (m : List ℕ) (off : ℕ) where
  pub peek-done : (n : ℕ) → off + n ≤ length m → peek m off n ≡ done (take n (drop off m))
  unfolding peek
  peek-done n h = rw (le→leb (off + n) (length m) h)

  module _ (src : List ℕ) (h : off + length src ≤ length m) where
    pub poke-done : poke m off src ≡ done (splice m off src)
    unfolding poke
    poke-done = rw (le→leb (off + length src) (length m) h)

    pub length-splice : length (splice m off src) ≡ length m
    length-splice = omega (
      arith,
      length-append (take off m) (src ++ drop (length src) (drop off m)),
      length-append src (drop (length src) (drop off m)),
      length-take off m,
      length-drop (length src) (drop off m),
      length-drop off m,
    )

-- A prefix that covers the write is the write into the prefix.
take-splice_front :
    (len : ℕ) (m src : List ℕ)
    → length src ≤ len
    → take len (src ++ drop (length src) m) ≡ src ++ drop (length src) (take len m)
take-splice_front len m [] h = refl
take-splice_front zero m (s ∷ src) h = absurd (omega arith)
take-splice_front (suc len) [] (s ∷ src) h =
    ap (λ r. s ∷ r) (take_all len (src ++ []) (omega (arith, length-append src [])))
take-splice_front (suc len) (x ∷ m) (s ∷ src) h =
    ap (λ r. s ∷ r) (take-splice_front len m src (omega arith))

pub take-splice :
    (len off : ℕ) (m src : List ℕ)
    → off + length src ≤ len
    → take len (splice m off src) ≡ splice (take len m) off src
take-splice len zero m src h = take-splice_front len m src (omega arith)
take-splice zero (suc off) m src h = absurd (omega arith)
take-splice (suc len) (suc off) [] src h = take-splice_front (suc len) [] src (omega arith)
take-splice (suc len) (suc off) (x ∷ m) src h =
    ap (λ r. x ∷ r) (take-splice len off m src (omega arith))

-- A write at the end of the bytes in use appends to them.
pub take-splice_end :
    (len : ℕ) (m src : List ℕ)
    → len + length src ≤ length m
    → take (len + length src) (splice m len src) ≡ take len m ++ src
take-splice_end len m src h =
    take-splice (len + length src) len m src (omega arith)
    ∙ rw (take-take len (len + length src) m (omega arith), nothing_left, append-nil) refl
  where
    nothing_left : drop (length src) (drop len (take (len + length src) m)) ≡ []
    nothing_left = drop_all (length src) (drop len (take (len + length src) m)) (
        omega
          (arith, length-drop len (take (len + length src) m), length-take (len + length src) m))

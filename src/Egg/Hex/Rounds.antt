-- ===== src/Egg/Hex/Rounds.antt =====
-- The outer loop of egg_hex_decode_full in egg/egg-hex.c ends.
use gcr.Shared.{
  ℕ, zero, suc, ◌-◌, ◌≤◌, ◌≡◌, inl, inr, refl, sym, ap, ◌∙◌, Option, none, some, List, [], ◌∷◌,
  length, arith, Option-cases, length-drop,
}
use gcr.Egg.Hex.{
  upper_index, byte_of, with_byte, decode_group, skip_delim, bytes_before, decode_rounds,
}

length-skip_delim :
    (delim : Option (List ℕ)) (text behind : List ℕ)
    → skip_delim delim text ≡ some behind
    → length behind ≤ length text
unfolding skip_delim
length-skip_delim none text behind e = ground arith
length-skip_delim (some delim) text behind e = ground (arith, length-drop (length delim) text)

rest_of :
    (b : Option ℕ) (o : Option (List ℕ × List ℕ)) (bytes rest : List ℕ)
    → with_byte b o ≡ some (bytes, rest)
    → (more : List ℕ) × (o ≡ some (more, rest))
rest_of none o bytes rest e = cc
rest_of (some b) none bytes rest e = cc
rest_of (some b) (some (more, rest')) bytes rest e = (more, ground (arith, e))

length-decode_group :
    (group : ℕ) (text bytes rest : List ℕ)
    → decode_group group text ≡ some (bytes, rest)
    → length rest ≤ length text
unfolding decode_group
length-decode_group zero text bytes rest e = ground arith
length-decode_group (suc group) [] bytes rest e = ground arith
length-decode_group (suc group) (c ∷ []) bytes rest e = cc
length-decode_group (suc group) (c ∷ d ∷ text) bytes rest e =
    let inner =
      rest_of (byte_of (upper_index c) (upper_index d)) (decode_group group text) bytes rest e in
    omega (arith, length-decode_group group text inner.0 rest inner.1)

-- A group takes a byte of the data at least, where there is one.
shrinks :
    (group : ℕ) (text bytes rest : List ℕ)
    → decode_group (suc group) text ≡ some (bytes, rest)
    → length rest ≤ length text - 1
unfolding decode_group
shrinks group [] bytes rest e = ground arith
shrinks group (c ∷ []) bytes rest e = cc
shrinks group (c ∷ d ∷ text) bytes rest e =
    let inner =
      rest_of (byte_of (upper_index c) (upper_index d)) (decode_group group text) bytes rest e in
    omega (arith, length-decode_group group text inner.0 rest inner.1)

ended :
    (fuel : ℕ) (delim : Option (List ℕ)) (group : ℕ)
    → decode_rounds fuel delim (suc group) [] ≡ some []
unfolding decode_rounds
ended zero delim group = refl
ended (suc fuel) delim group = refl

-- As many rounds as the data has bytes are enough: with any two numbers of rounds that are not below
-- it, decoding in groups of one byte or more ends in the same.
pub decode_rounds_enough :
    (fuel other : ℕ) (delim : Option (List ℕ)) (group : ℕ) (text : List ℕ)
    → length text ≤ fuel
    → length text ≤ other
    → decode_rounds fuel delim (suc group) text ≡ decode_rounds other delim (suc group) text
unfolding decode_rounds
decode_rounds_enough fuel other delim group [] h k =
    ended fuel delim group ∙ sym (ended other delim group)
decode_rounds_enough zero other delim group (c ∷ cs) h k = absurd (omega arith)
decode_rounds_enough (suc fuel) zero delim group (c ∷ cs) h k = absurd (omega arith)
decode_rounds_enough (suc fuel) (suc other) delim group (c ∷ cs) h k =
    elim (Option-cases (skip_delim delim (c ∷ cs))) [
      | inl refused ↦ rw (decode_rounds, refused) refl
      | inr (behind, skipped) ↦ elim (Option-cases (decode_group (suc group) behind)) [
        | inl invalid ↦ rw (decode_rounds, skipped, invalid) refl
        | inr ((bytes, rest), decoded) ↦
            let less : length rest ≤ length cs = omega (
              arith,
              shrinks group behind bytes rest decoded,
              length-skip_delim delim (c ∷ cs) behind skipped,
            ) in
            rw (decode_rounds, skipped, decoded)
              (ap (bytes_before bytes) (
                decode_rounds_enough fuel other delim group rest (omega (arith, less, h))
                  (omega (arith, less, k))))
      ]
    ]

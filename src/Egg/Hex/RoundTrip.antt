-- ===== src/Egg/Hex/RoundTrip.antt =====
-- What egg/egg-hex.c encodes is decoded to the same bytes.
use gcr.Shared.{
  ℕ, zero, suc, ◌+◌, ◌*◌, ◌/◌, ◌%◌, ◌≤◌, ◌<◌, ◌≡◌, refl, sym, ap, ◌∙◌, Bool, true, false, ◌&&◌, not,
  Option, none, some, List, [], ◌∷◌, ◌++◌, length, ◌==◌, if◌then◌else◌, arith, All, same_bytes_refl,
  take-append, drop-append, length-append, le→ltb_false,
}
use gcr.Egg.Hex.{
  hexc, upper_index, decode_group, skip_delim, bytes_before, decode_rounds, decode_full, decode,
  delim_text, encode_from, encode_full, encode,
}

upper_index-hexc : (upper_case : Bool) (n : ℕ) → n < 16 → upper_index (hexc upper_case n) ≡ some n
unfolding upper_index hexc
upper_index-hexc true n h = ground arith
upper_index-hexc false n h = ground arith

halves : (b : ℕ) → b < 256 → b / 16 % 16 % 16 * 16 + b % 16 % 16 ≡ b
halves b h = omega arith

abbrev digits : Bool → ℕ → List ℕ → List ℕ
digits upper_case b rest = hexc upper_case (b / 16 % 16) ∷ hexc upper_case (b % 16) ∷ rest

decode_group-digits :
    (upper_case : Bool) (b : ℕ) (rest : List ℕ)
    → b < 256
    → decode_group 1 (digits upper_case b rest) ≡ some (b ∷ [], rest)
unfolding decode_group
decode_group-digits upper_case b rest h =
    rw
      (
        upper_index-hexc upper_case (b / 16 % 16) (omega arith),
        upper_index-hexc upper_case (b % 16) (omega arith),
        halves b h,
      )
      refl

skip_delim-delim_text :
    (delim : Option (List ℕ)) (rest : List ℕ)
    → skip_delim delim (delim_text delim ++ rest) ≡ some rest
unfolding skip_delim
skip_delim-delim_text none rest = refl
skip_delim-delim_text (some delim) rest =
    rw
      (
        le→ltb_false (length (delim ++ rest)) (length delim)
            (omega (arith, length-append delim rest)),
        take-append (length delim) delim rest refl,
        drop-append (length delim) delim rest refl,
        same_bytes_refl delim,
      )
      refl

-- A round on data that is not empty.
round :
    (fuel : ℕ) (delim : Option (List ℕ)) (front : List ℕ) (x : ℕ) (xs behind bytes rest : List ℕ)
    → skip_delim delim (front ++ (x ∷ xs)) ≡ some behind
    → decode_group 1 behind ≡ some (bytes, rest)
    → decode_rounds (suc fuel) delim 1 (front ++ (x ∷ xs))
      ≡ bytes_before bytes (decode_rounds fuel delim 1 rest)
unfolding decode_rounds
round fuel delim [] x xs behind bytes rest e g = rw (decode_rounds, e, g) refl
round fuel delim (f ∷ front) x xs behind bytes rest e g = rw (decode_rounds, e, g) refl

encoded_later :
    (upper_case : Bool) (delim : Option (List ℕ)) (n b : ℕ) (bs : List ℕ)
    → 0 < n
    → encode_from upper_case delim 1 n (b ∷ bs)
      ≡ delim_text delim ++ digits upper_case b (encode_from upper_case delim 1 (n + 1) bs)
unfolding encode_from
encoded_later upper_case delim n b bs h =
    let aligned : n % 1 ≡ 0 = omega arith in rw aligned (ground arith)

no_rounds :
    (upper_case : Bool) (delim : Option (List ℕ)) (fuel n : ℕ)
    → decode_rounds fuel delim 1 (encode_from upper_case delim 1 n []) ≡ some []
unfolding decode_rounds encode_from
no_rounds upper_case delim zero n = refl
no_rounds upper_case delim (suc fuel) n = refl

rounds-encode_from :
    (upper_case : Bool) (delim : Option (List ℕ)) (fuel n : ℕ) (bs : List ℕ)
    → All (λ b. b < 256) bs
    → 0 < n
    → length bs ≤ fuel
    → decode_rounds fuel delim 1 (encode_from upper_case delim 1 n bs) ≡ some bs
rounds-encode_from upper_case delim fuel n [] h pos enough = no_rounds upper_case delim fuel n
rounds-encode_from upper_case delim zero n (b ∷ bs) h pos enough = absurd (omega arith)
rounds-encode_from upper_case delim (suc fuel) n (b ∷ bs) h pos enough =
    ap (decode_rounds (suc fuel) delim 1) (encoded_later upper_case delim n b bs pos)
    ∙ round fuel delim (delim_text delim) _ _ _ (b ∷ []) (encode_from upper_case delim 1 (n + 1) bs)
        (skip_delim-delim_text delim _) (decode_group-digits upper_case b _ h.0)
    ∙ ap (bytes_before (b ∷ []))
        (rounds-encode_from upper_case delim fuel (n + 1) bs h.1 (omega arith) (omega arith))

length-encode_from :
    (upper_case : Bool) (delim : Option (List ℕ)) (group n : ℕ) (bs : List ℕ)
    → length bs ≤ length (encode_from upper_case delim group n bs)
unfolding encode_from
length-encode_from upper_case delim group n [] = omega arith
length-encode_from upper_case delim group n (b ∷ bs) =
    let front =
      if not (group == 0) && (not (n == 0) && n % group == 0) then delim_text delim else [] in
    let rest = encode_from upper_case delim group (n + 1) bs in
    omega (
      arith,
      length-append front (digits upper_case b rest),
      length-encode_from upper_case delim group (n + 1) bs,
    )

-- Bytes that are encoded one by one, in upper or in lower case, with a delimiter between them or with
-- none, are decoded to the same bytes with the same delimiter.
pub decode_full-encode_full :
    (bs : List ℕ) (upper_case : Bool) (delim : Option (List ℕ))
    → All (λ b. b < 256) bs
    → decode_full (encode_full bs upper_case delim 1) delim 1 ≡ some bs
unfolding decode_full encode_full encode_from
decode_full-encode_full [] upper_case delim h = unfold decode_group decode_rounds in refl
decode_full-encode_full (b ∷ bs) upper_case delim h =
    let rest = encode_from upper_case delim 1 1 bs in
    let enough : length bs ≤ length rest = length-encode_from upper_case delim 1 1 bs in
    rw (decode_group-digits upper_case b rest h.0) (
      ap (bytes_before (b ∷ [])) (
        rounds-encode_from upper_case delim (length (digits upper_case b rest)) 1 bs h.1
          (omega arith) (omega (arith, enough))))

same_branch : (c : Bool) (x : List ℕ) → (if c then x else x) ≡ x
same_branch true x = refl
same_branch false x = refl

ungrouped :
    (upper_case : Bool) (n : ℕ) (bs : List ℕ)
    → encode_from upper_case none 0 n bs ≡ encode_from upper_case none 1 n bs
unfolding encode_from
ungrouped upper_case n [] = refl
ungrouped upper_case n (b ∷ bs) =
    ap (digits upper_case b) (ungrouped upper_case (n + 1) bs)
    ∙ ap (λ front. front ++ digits upper_case b (encode_from upper_case none 1 (n + 1) bs))
        (sym (same_branch (not (n == 0) && n % 1 == 0) []))

-- What egg_hex_encode makes of bytes, egg_hex_decode turns into the same bytes.
pub decode-encode : (bs : List ℕ) → All (λ b. b < 256) bs → decode (encode bs) ≡ some bs
unfolding decode encode encode_full
decode-encode bs h =
    ap (λ text. decode_full text none 1) (ungrouped true 0 bs)
    ∙ decode_full-encode_full bs true none h

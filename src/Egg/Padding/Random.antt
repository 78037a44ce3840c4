-- ===== src/Egg/Padding/Random.antt =====
-- PKCS#1 padding with random bytes in egg/egg-padding.c.
use mathlib.Core.Path.{subst}
use gcr.Shared.{
  false, leb, ℕ, zero, suc, ◌+◌, ◌-◌, ◌%◌, ◌^◌, ◌<◌, ◌≡◌, ◌≢◌, inl, inr, ◌≤◌, ◌*◌, refl, sym, ap,
  ◌∙◌, Bool, true, some, List, [], ◌∷◌, length, ltb, ltb→lt, ◌==◌, arith, All, Bool-cases,
}
use gcr.Egg.Padding.{
  result, count_zeros, replace_zeros, replace_rounds, fill_random_nonzero, pkcs1_asserts,
  pkcs1_block, pkcs1_pad_02, pkcs1_unpad_02,
}
use gcr.Egg.Padding.Pkcs1.{
  one_block, unpad_pkcs1-fits, unpad_block-accepts, length-pkcs1_block, whole_blocks,
}

no_zeros : (bytes : List ℕ) → count_zeros bytes ≡ 0 → All (λ x. x ≢ 0) bytes
no_zeros [] h = tt
no_zeros (x ∷ xs) h = elim (Bool-cases (x == 0)) [
  | inl z ↦ absurd (ground (arith, h, z))
  | inr n ↦ (ground arith, no_zeros xs (ground (arith, h, n)))
]

length-replace_zeros : (bytes rnd : List ℕ) → length (replace_zeros bytes rnd) ≡ length bytes
length-replace_zeros [] rnd = refl
length-replace_zeros (x ∷ xs) [] = refl
length-replace_zeros (x ∷ xs) (r ∷ rnd) =
    ground (arith, length-replace_zeros xs rnd, length-replace_zeros xs (r ∷ rnd))

-- Where the rounds end, no byte is zero, and there are as many as before.
replaced :
    (random : ℕ → ℕ → List ℕ) (fuel i : ℕ) (bytes fill : List ℕ)
    → replace_rounds random fuel i bytes ≡ some fill
    → (count_zeros fill ≡ 0) × (length fill ≡ length bytes)
unfolding replace_rounds
replaced random zero i bytes fill e = ground (arith, e)
replaced random (suc fuel) i bytes fill e =
    let next = replace_zeros bytes (random i (count_zeros bytes)) in
    elim (Bool-cases (count_zeros bytes == 0)) [
      | inl finished ↦ ground (arith, e, finished)
      | inr on ↦
          let rest = replaced random fuel (i + 1) next fill (rw on at e) in
          (rest.0, rest.1 ∙ length-replace_zeros bytes (random i (count_zeros bytes)))
    ]

count_zeros_bound : (bytes : List ℕ) → count_zeros bytes ≤ length bytes
count_zeros_bound [] = omega arith
count_zeros_bound (x ∷ xs) = ground (arith, count_zeros_bound xs)

-- The zeros that are left are those of the bytes that were drawn.
count_zeros-replace_zeros :
    (bytes rnd : List ℕ)
    → length rnd ≡ count_zeros bytes
    → count_zeros (replace_zeros bytes rnd) ≡ count_zeros rnd
count_zeros-replace_zeros [] [] h = refl
count_zeros-replace_zeros [] (r ∷ rnd) h = absurd (omega (arith, h))
count_zeros-replace_zeros (x ∷ xs) [] h = sym h
count_zeros-replace_zeros (x ∷ xs) (r ∷ rnd) h = elim (Bool-cases (x == 0)) [
  | inl z ↦ rw z (ground (arith, count_zeros-replace_zeros xs rnd (ground (arith, h, z))))
  | inr n ↦
      let rest = count_zeros-replace_zeros xs (r ∷ rnd) (ground (arith, h, n)) in rw (n, n) rest
]

fewer : (a b s : ℕ) → a < b → a * s + s ≤ b * s
fewer a b s h =
    let split : b ≡ a + 1 + (b - a - 1) = omega arith in omega (arith, ap (λ n. n * s) split)

-- From the call `i` on, draws of `n` bytes give one that is not zero after at most `wait` others.
abbrev pub IsFair : (ℕ → ℕ → List ℕ) → ℕ → Type 0
IsFair random wait = (i n : ℕ) → 0 < n → (d : ℕ) × (d ≤ wait) × (count_zeros (random (i + d) n) < n)

module _ (random : ℕ → ℕ → List ℕ) (wait : ℕ) (fair : IsFair random wait)
    (many : (i n : ℕ) → length (random i n) ≡ n) where
  -- The next draw of bytes for `n` zeros that gives one that is not zero, from the call `i` on.
  abbrev Lucky : ℕ → ℕ → ℕ → Type 0
  Lucky i d n = 0 < n → count_zeros (random (i + d) n) < n

  lucky : (i n : ℕ) → (d : ℕ) × (d ≤ wait) × Lucky i d n
  lucky i zero = (0, omega arith, λ h. absurd (omega (arith, h)))
  lucky i (suc n) = let (d, near, luck) = fair i (suc n) (omega arith) in (d, near, λ h. luck)

  -- A draw of zeros only was not the lucky one.
  stuck :
      (i d n : ℕ)
      → Lucky i d n
      → 0 < n
      → count_zeros (random i n) ≡ n
      → (d' : ℕ) × (d ≡ suc d') × Lucky (i + 1) d' n
  stuck i zero n luck some_left none_set =
      let here : count_zeros (random (i + 0) n) ≡ count_zeros (random i n) =
        ap (λ j. count_zeros (random j n)) (omega arith) in
      absurd (omega (arith, here, none_set, luck some_left))
  stuck i (suc d) n luck some_left none_set =
      let later : i + suc d ≡ i + 1 + d = omega arith in
      (d, refl, λ h. subst (λ j. count_zeros (random j n) < n) later (luck h))

  -- For each zero there are rounds enough until a draw replaces one.
  replace_rounds-ends :
      (fuel i d : ℕ) (bytes : List ℕ)
      → Lucky i d (count_zeros bytes)
      → count_zeros bytes * (wait + 1) + d ≤ fuel + wait
      → (fill : List ℕ) × (replace_rounds random fuel i bytes ≡ some fill)
  unfolding replace_rounds
  replace_rounds-ends zero i d bytes luck enough = elim (Bool-cases (count_zeros bytes == 0)) [
    | inl finished ↦ (bytes, rw finished refl)
    | inr on ↦
        absurd (omega (arith, enough, fewer 0 (count_zeros bytes) (wait + 1) (ground (arith, on))))
  ]
  replace_rounds-ends (suc fuel) i d bytes luck enough =
      let n = count_zeros bytes in
      let next = replace_zeros bytes (random i n) in
      let left : count_zeros next ≡ count_zeros (random i n) =
        count_zeros-replace_zeros bytes (random i n) (many i n) in
      let bound : count_zeros (random i n) ≤ n =
        omega (arith, count_zeros_bound (random i n), many i n) in
      elim (Bool-cases (n == 0)) [
        | inl finished ↦ (bytes, rw finished refl)
        | inr on ↦ elim (Bool-cases (ltb (count_zeros next) n)) [
          | inl less ↦
              let (d', near, luck') = lucky (i + 1) (count_zeros next) in
              let (fill, e) = replace_rounds-ends fuel (i + 1) d' next luck' (
                omega
                  (arith, enough, near, fewer (count_zeros next) n (wait + 1) (ltb→lt _ _ less))) in
              (fill, rw (replace_rounds, on) e)
          | inr same ↦
              let not_less : n ≤ count_zeros next = ground (arith, same) in
              let again : count_zeros next ≡ n = omega (arith, left, bound, not_less) in
              let (d', one, luck') = stuck i d n luck (ground (arith, on)) (sym left ∙ again) in
              let scaled = ap (λ m. m * (wait + 1)) again in
              let (fill, e) =
                replace_rounds-ends fuel (i + 1) d' next
                  (subst (Lucky (i + 1) d') (sym again) luck')
                  (omega (arith, enough, scaled, one)) in
              (fill, rw (replace_rounds, on) e)
        ]
      ]

-- Where there are `wait + 1` rounds for each byte, and fewer than 2^31 bytes, the bytes are filled, and none
-- is zero.
fill_random_nonzero-ends :
    (random : ℕ → ℕ → List ℕ) (wait fuel n : ℕ)
    → IsFair random wait
    → ((i n : ℕ) → length (random i n) ≡ n)
    → n < 2 ^ 31
    → n * (wait + 1) ≤ fuel
    → (fill : List ℕ) × (fill_random_nonzero random fuel n ≡ some fill)
      × (count_zeros fill ≡ 0)
      × (length fill ≡ n)
unfolding fill_random_nonzero
fill_random_nonzero-ends random wait fuel n fair many small enough =
    let (d, near, luck) = lucky random wait fair many 1 (count_zeros (random 0 n)) in
    let most : count_zeros (random 0 n) ≤ n =
      omega (arith, count_zeros_bound (random 0 n), many 0 n) in
    let times = fewer (count_zeros (random 0 n)) (n + 1) (wait + 1) (omega (arith, most)) in
    let (fill, e) =
      replace_rounds-ends random wait fair many fuel 1 d (random 0 n) luck
        (omega (arith, enough, times, near)) in
    let (nonzero, size) = replaced random fuel 1 (random 0 n) fill e in
    let narrow : leb (2 ^ 32) n ≡ false = ground (arith, small) in
    (fill, rw (fill_random_nonzero, narrow) e, nonzero, size ∙ many 0 n)

-- Data that leaves three bytes or more of its last block free is padded, and unpadded to the same data,
-- where the random bytes are as many as asked for and, after at most `wait` draws of zeros only, one is
-- drawn that is not zero: the loop that replaces the zeros ends, and `wait + 1` rounds for each byte of a
-- block are enough for it. A block has 4 to 2^31 - 1 bytes, the size does not wrap, and the memory for
-- both blocks is given.
pub pkcs1_unpad_02-pkcs1_pad_02 :
    (gives : ℕ → Bool) (random : ℕ → ℕ → List ℕ) (wait fuel block : ℕ) (raw : List ℕ)
    → 3 < block
    → block < 2 ^ 31
    → length raw + block + 2 < 2 ^ 64
    → length raw % block + 2 < block
    → ((n : ℕ) → gives n ≡ true)
    → ((i n : ℕ) → length (random i n) ≡ n)
    → IsFair random wait
    → block * (wait + 1) ≤ fuel
    → (padded : List ℕ) × ((pkcs1_pad_02 gives random fuel block raw ≡ some (result padded))
        × (pkcs1_unpad_02 gives block padded ≡ result raw))
unfolding pkcs1_unpad_02 pkcs1_pad_02 pkcs1_asserts
pkcs1_unpad_02-pkcs1_pad_02 gives random wait fuel block raw big small fits free all many fair
      enough =
    let n = length raw in
    let k = block - n % block - 3 in
    let times = fewer k block (wait + 1) (omega arith) in
    let (fill, drawn, nonzero, long) =
      fill_random_nonzero-ends random wait fuel k fair many (omega arith)
        (omega (arith, times, enough)) in
    let pad : n + (block - n % block) - n ≡ block - n % block = omega arith in
    let size : length (pkcs1_block 2 fill raw) % block ≡ 0 =
      ap (λ m. m % block) (length-pkcs1_block 2 fill raw ∙ ap (λ m. n + (m + 3)) long)
      ∙ whole_blocks n block (omega arith) free in
    (
      pkcs1_block 2 fill raw,
      (
        rw (one_block block n big fits free)
            (rw (pad, drawn) (ground (arith, all (n + (block - n % block))))),
        unpad_pkcs1-fits 2 gives block (pkcs1_block 2 fill raw) (inr size)
            ∙ unpad_block-accepts 2 gives fill raw (no_zeros fill nonzero) all,
      ),
    )

-- ===== src/Tests/Padding.antt =====
-- egg/egg-padding.c on small blocks.
use gcr.Shared.{
  length, ◌%◌, ◌≢◌, All, ℕ, zero, suc, ◌+◌, false, ◌==◌, if◌then◌else◌, ◌≡◌, refl, true, Bool, List,
  [], ◌∷◌, arith, ◌⊎◌, replicate,
}
use gcr.Egg.Padding.{
  result, aborted, out_of_bounds, pkcs1_pad_01, pkcs1_unpad_01, unpad_pkcs1, read_at, unpad_block,
  pkcs7_pad, pkcs7_unpad,
}
use gcr.Shared.{some, length-replicate}
use gcr.Egg.Padding.{
  pkcs1_block, count_zeros, fill_random_nonzero, replace_rounds, pkcs1_pad_02, pkcs1_unpad_02,
}
use gcr.Egg.Padding.Random.{IsFair, pkcs1_unpad_02-pkcs1_pad_02}
use gcr.Egg.Padding.Pkcs1.{pkcs1_pad_01-aborts, pkcs1_unpad_01-pkcs1_pad_01, unpad_pkcs1_sound}
use gcr.Egg.Padding.Pkcs7.{pkcs7_unpad-pkcs7_pad}

abbrev plenty : ℕ → Bool
plenty n = true

abbrev block_size : ℕ
block_size = 4

abbrev one_block : ℕ
one_block = 5

abbrev lone_zero : List ℕ
lone_zero = 0 ∷ []

pkcs7_unpad-pkcs7_pad_example :
    (padded : List ℕ) × ((pkcs7_pad plenty 8 (5 ∷ 6 ∷ 7 ∷ []) ≡ result padded)
      × (pkcs7_unpad plenty 8 padded ≡ result (5 ∷ 6 ∷ 7 ∷ [])))
pkcs7_unpad-pkcs7_pad_example =
    pkcs7_unpad-pkcs7_pad plenty 8 (5 ∷ 6 ∷ 7 ∷ []) (omega arith) (omega arith) (omega arith)
      (λ n. refl)

unpadded : pkcs7_unpad plenty block_size (5 ∷ 6 ∷ 2 ∷ 2 ∷ []) ≡ result (5 ∷ 6 ∷ [])
unfolding pkcs7_unpad
unpadded = refl

pkcs1_unpad_01-pkcs1_pad_01_example :
    (padded : List ℕ) × ((pkcs1_pad_01 plenty 8 (5 ∷ 6 ∷ 7 ∷ []) ≡ result padded)
      × (pkcs1_unpad_01 plenty 8 padded ≡ result (5 ∷ 6 ∷ 7 ∷ [])))
pkcs1_unpad_01-pkcs1_pad_01_example =
    pkcs1_unpad_01-pkcs1_pad_01 plenty 8 (5 ∷ 6 ∷ 7 ∷ []) (omega arith) (omega arith) (omega arith)
      (λ n. refl)

pkcs1_pad_01-aborts_example : pkcs1_pad_01 plenty 4 (5 ∷ 6 ∷ 7 ∷ []) ≡ aborted
pkcs1_pad_01-aborts_example =
    pkcs1_pad_01-aborts plenty 4 (5 ∷ 6 ∷ 7 ∷ []) (omega arith) (omega arith) (omega arith)

-- The second byte of the header is behind the end.
lone_zero-read : unpad_pkcs1 1 plenty 1 lone_zero ≡ out_of_bounds
unfolding unpad_pkcs1 unpad_block read_at
lone_zero-read = refl

accepted : unpad_pkcs1 1 plenty one_block (0 ∷ 1 ∷ 9 ∷ 0 ∷ 7 ∷ []) ≡ result (7 ∷ [])
unfolding unpad_pkcs1 unpad_block read_at
accepted = refl

-- The first draw gives zeros only, and every later byte is 9.
abbrev nines_later : ℕ → ℕ → List ℕ
nines_later i n = replicate n (if i == 0 then 0 else 9)

no_zeros_later : (n : ℕ) → count_zeros (replicate n 9) ≡ 0
no_zeros_later zero = refl
no_zeros_later (suc n) = no_zeros_later n

nines_later-IsFair : IsFair nines_later 1
nines_later-IsFair i n h =
    let later : (i + 1 == 0) ≡ false = ground arith in
    (1, omega arith, rw (later, no_zeros_later n) h)

nines_later-drawn : fill_random_nonzero nines_later 1 2 ≡ some (9 ∷ 9 ∷ [])
unfolding fill_random_nonzero replace_rounds
nines_later-drawn = refl

pkcs1_unpad_02-pkcs1_pad_02_example :
    (padded : List ℕ) × ((pkcs1_pad_02 plenty nines_later 16 8 (5 ∷ 6 ∷ 7 ∷ [])
        ≡ some (result padded))
      × (pkcs1_unpad_02 plenty 8 padded ≡ result (5 ∷ 6 ∷ 7 ∷ [])))
pkcs1_unpad_02-pkcs1_pad_02_example =
    pkcs1_unpad_02-pkcs1_pad_02 plenty nines_later 1 16 8 (5 ∷ 6 ∷ 7 ∷ []) (omega arith)
      (omega arith) (omega arith) (omega arith) (λ n. refl)
      (λ i n. length-replicate n (if i == 0 then 0 else 9)) nines_later-IsFair (omega arith)

unpad_pkcs1_sound_example :
    ((one_block ≡ 0) ⊎ (length {A = ℕ} (0 ∷ 1 ∷ 9 ∷ 0 ∷ 7 ∷ []) % one_block ≡ 0))
    × ((fill : List ℕ) × (All (λ x. x ≢ 0) fill
          × (0 ∷ 1 ∷ 9 ∷ 0 ∷ 7 ∷ [] ≡ pkcs1_block 1 fill (7 ∷ []))))
unpad_pkcs1_sound_example =
    unpad_pkcs1_sound 1 plenty one_block (0 ∷ 1 ∷ 9 ∷ 0 ∷ 7 ∷ []) (7 ∷ []) accepted

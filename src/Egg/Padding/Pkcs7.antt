-- ===== src/Egg/Padding/Pkcs7.antt =====
-- PKCS#7 padding of egg/egg-padding.c: what pkcs7_pad makes, and that pkcs7_unpad undoes it.
use gcr.Shared.{
  ℕ, zero, suc, ◌+◌, ◌-◌, ◌*◌, ◌/◌, ◌%◌, ◌^◌, ◌≤◌, ◌<◌, ◌≡◌, ◌⊎◌, inr, refl, sym, ap, ◌∙◌, Bool,
  true, false, not, ◌&&◌, ◌||◌, List, [], ◌∷◌, ◌++◌, length, take, drop, replicate, ltb, ◌==◌,
  if◌then◌else◌, arith, length-append, length-replicate, take-append, drop-append, take-append-drop,
  length-drop,
}
use gcr.Egg.Buffer.Memory.{◌+size◌}
use gcr.Egg.Padding.{
  Outcome, result, refused, last_byte, all_equal, allocated, pkcs7_pad, pkcs7_unpad,
}

no_wrap : (n b : ℕ) → n + b < 2 ^ 64 → n +size b ≡ n + b
no_wrap n b h = omega arith

-- The number of bytes that are added: at least one, at most the block size.
abbrev pub missing : ℕ → ℕ → ℕ
missing block n = block - n % block

missing_pos : (b n : ℕ) → 0 < b → 0 < missing b n
missing_pos b n h = grind arith

missing_size : (n b : ℕ) → 0 < b → (n + b) / b * b ≡ n + missing b n
missing_size n b h = grind arith

-- Data of any length is padded: its bytes, and then as many bytes as are missing, each holding their
-- number. The size does not wrap, and the memory for the block is given.
pub pkcs7_pad_lem :
    (gives : ℕ → Bool) (block : ℕ) (raw : List ℕ)
    → 0 < block
    → block < 256
    → length raw + block < 2 ^ 64
    → ((n : ℕ) → gives n ≡ true)
    → pkcs7_pad gives block raw
      ≡ result (raw ++ replicate (missing block (length raw)) (missing block (length raw)))
unfolding pkcs7_pad
pkcs7_pad_lem gives block raw pos small fits all =
    let n = length raw in
    let bounds : (0 < missing block n) × (missing block n ≤ block) =
      (missing_pos block n pos, omega arith) in
    let size : (n +size block) / block * block ≡ n + missing block n =
      rw (no_wrap n block fits) (missing_size n block pos) in
    let pad : n + missing block n - n ≡ missing block n = omega arith in
    rw size (rw pad (ground (arith, all (n + missing block n), bounds.0, bounds.1)))

last_byte-replicate : (raw : List ℕ) (n x : ℕ) → 0 < n → last_byte (raw ++ replicate n x) ≡ x
last_byte-replicate [] (suc zero) x h = refl
last_byte-replicate [] (suc (suc n)) x h = last_byte-replicate [] (suc n) x (omega arith)
last_byte-replicate [] zero x h = absurd (omega arith)
last_byte-replicate (r ∷ []) (suc n) x h = last_byte-replicate [] (suc n) x h
last_byte-replicate (r ∷ []) zero x h = absurd (omega arith)
last_byte-replicate (r ∷ s ∷ raw) n x h = last_byte-replicate (s ∷ raw) n x h

all_equal-replicate : (n x : ℕ) → all_equal x (replicate n x) ≡ true
all_equal-replicate zero x = refl
all_equal-replicate (suc n) x = ground (arith, all_equal-replicate n x)

all_equal→replicate : (x : ℕ) (xs : List ℕ) → all_equal x xs ≡ true → xs ≡ replicate (length xs) x
all_equal→replicate x [] h = refl
all_equal→replicate x (y ∷ xs) h = ground (arith, all_equal→replicate x xs)

-- A block that ends in `n` bytes holding `n`, where `n` is positive and not larger than a block size
-- other than 0, is accepted, and the bytes before them are the data. The memory for them is given.
pub pkcs7_unpad_accepts :
    (gives : ℕ → Bool) (block n : ℕ) (raw : List ℕ)
    → 0 < n
    → n < 256
    → (block ≡ 0) ⊎ (n ≤ block)
    → ((k : ℕ) → gives k ≡ true)
    → pkcs7_unpad gives block (raw ++ replicate n n) ≡ result raw
unfolding pkcs7_unpad
pkcs7_unpad_accepts gives block n raw pos small fits all =
    let pads = replicate n n in
    let size : length (raw ++ pads) ≡ length raw + n =
      length-append raw pads ∙ ap (λ k. length raw + k) (length-replicate n n) in
    let last : last_byte (raw ++ pads) ≡ n = last_byte-replicate raw n n pos in
    let cut : length raw + n - n ≡ length raw = omega arith in
    rw size (
      rw last (
        rw cut (
          rw (drop-append (length raw) raw pads refl) (
            rw (take-append (length raw) raw pads refl)
              (rw (all_equal-replicate n n) (ground (arith, all (length raw + 1))))))))

-- What is padded for a block size from 1 to 255 is unpadded to the same data. The size does not wrap,
-- and the memory for both blocks is given.
pub pkcs7_unpad-pkcs7_pad :
    (gives : ℕ → Bool) (block : ℕ) (raw : List ℕ)
    → 0 < block
    → block < 256
    → length raw + block < 2 ^ 64
    → ((n : ℕ) → gives n ≡ true)
    → (padded : List ℕ) × ((pkcs7_pad gives block raw ≡ result padded)
        × (pkcs7_unpad gives block padded ≡ result raw))
pkcs7_unpad-pkcs7_pad gives block raw pos small fits all =
    let n = missing block (length raw) in
    let bound : n ≤ block = omega arith in
    (
      raw ++ replicate n n,
      (
        pkcs7_pad_lem gives block raw pos small fits all,
        pkcs7_unpad_accepts gives block n raw (missing_pos block (length raw) pos) (omega arith)
            (inr bound) all,
      ),
    )

-- A refusal is not a result.
accepted :
    (c : Bool) (o : Outcome (List ℕ)) (raw : List ℕ)
    → (if c then refused else o) ≡ result raw
    → (c ≡ false) × (o ≡ result raw)
accepted true o raw e = cc
accepted false o raw e = (refl, e)

ended :
    (n size : ℕ) (gives : ℕ → Bool) (front end raw : List ℕ)
    → (if all_equal n end then allocated gives size front else refused) ≡ result raw
    → (all_equal n end ≡ true) × (front ≡ raw)
ended n size gives front end raw e = ground arith

ltb_false→le : (a b : ℕ) → ltb a b ≡ false → b ≤ a
ltb_false→le a b h = ground arith

sub_sub_self : (m n : ℕ) → n ≤ m → m - (m - n) ≡ n
sub_sub_self m n h = omega arith

in_range : (n : ℕ) → (n == 0 || ltb 256 n) ≡ false → (0 < n) × (n ≤ 256)
in_range n h = ground arith

fits_block : (block n : ℕ) → (not (block == 0) && ltb block n) ≡ false → (block ≡ 0) ⊎ (n ≤ block)
fits_block block n h = ground arith

-- A block that pkcs7_unpad accepts is the result followed by `n` bytes that all hold `n`, where `n` is
-- from 1 to 256, and not larger than a block size other than 0.
pub pkcs7_unpad_sound :
    (gives : ℕ → Bool) (block : ℕ) (padded raw : List ℕ)
    → pkcs7_unpad gives block padded ≡ result raw
    → (n : ℕ) × ((padded ≡ raw ++ replicate n n)
        × ((0 < n) × ((n ≤ 256) × ((block ≡ 0) ⊎ (n ≤ block)))))
unfolding pkcs7_unpad
pkcs7_unpad_sound gives block padded raw e =
    let n = last_byte padded in
    let a = accepted (length padded == 0) _ raw e in
    let b = accepted (n == 0 || ltb 256 n) _ raw a.1 in
    let c = accepted (ltb (length padded) n) _ raw b.1 in
    let d = accepted (not (block == 0) && ltb block n) _ raw c.1 in
    let k = length padded - n in
    let f = ended n (k + 1) gives (take k padded) (drop k padded) raw d.1 in
    let tail : length (drop k padded) ≡ n =
      length-drop k padded ∙ sub_sub_self (length padded) n (ltb_false→le (length padded) n c.0) in
    let pads : drop k padded ≡ replicate n n =
      all_equal→replicate n (drop k padded) f.0 ∙ ap (λ m. replicate m n) tail in
    let whole : padded ≡ raw ++ replicate n n =
      sym (take-append-drop k padded) ∙ (rw f.1 (rw pads refl)) in
    let range : (0 < n) × (n ≤ 256) = in_range n b.0 in
    (n, (whole, (range.0, (range.1, fits_block block n d.0))))

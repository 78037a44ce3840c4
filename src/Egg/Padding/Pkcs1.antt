-- ===== src/Egg/Padding/Pkcs1.antt =====
-- PKCS#1 padding of egg/egg-padding.c: where pkcs1_pad_01 aborts, what it makes elsewhere, that
-- pkcs1_unpad_01 undoes it, and what unpad_pkcs1 accepts.
use gcr.Shared.{
  ℕ, zero, suc, ◌+◌, ◌-◌, ◌*◌, ◌/◌, ◌%◌, ◌^◌, ◌≤◌, ◌<◌, ◌≡◌, ◌≢◌, ◌⊎◌, inl, inr, refl, sym, ap, ◌∙◌,
  Bool, true, List, [], ◌∷◌, ◌++◌, length, replicate, ◌==◌, arith, length-append, length-replicate,
  All, ne→==_false, ==_refl, Bool-cases,
}
use gcr.Egg.Buffer.Memory.{◌+size◌}
use gcr.Egg.Padding.{
  result, aborted, behind_zero, read_at, unpad_block, pkcs1_size, pkcs1_asserts, pkcs1_block,
  pkcs1_pad_01, unpad_pkcs1, pkcs1_unpad_01,
}

size_kept : (n b : ℕ) → 3 < b → n + b + 2 < 2 ^ 64 → n +size 3 +size (b - 1) ≡ n + b + 2
size_kept n b h fits = omega arith

quotient : (m b q : ℕ) → 0 < b → q * b ≤ m → m < (q + 1) * b → m / b ≡ q
quotient m b q h lo hi = grind arith

times_suc : (q b : ℕ) → (q + 1) * b ≡ q * b + b
times_suc q b = grind arith

mod_sum : (n b : ℕ) → 0 < b → n / b * b + n % b ≡ n
mod_sum n b h = grind arith

multiple : (m b q : ℕ) → 0 < b → q * b ≤ m → m < q * b + b → m / b * b ≡ q * b
multiple m b q h lo hi = ap (λ k. k * b) (quotient m b q h lo (rw (times_suc q b) hi))

module _ (b n : ℕ) (big : 3 < b) (fits : n + b + 2 < 2 ^ 64) where
  size_lem : (q : ℕ) → q * b ≤ n + b + 2 → n + b + 2 < q * b + b → pkcs1_size b n ≡ q * b
  unfolding pkcs1_size
  size_lem q lo hi = rw (size_kept n b big fits) (multiple (n + b + 2) b q (omega arith) lo hi)

  pub one_block : n % b + 2 < b → pkcs1_size b n ≡ n + (b - n % b)
  one_block h =
      let sum = mod_sum n b (omega arith) in
      let once = times_suc (n / b) b in
      size_lem (n / b + 1) (omega arith) (omega arith) ∙ omega arith

  two_blocks : b ≤ n % b + 2 → n % b < b → pkcs1_size b n ≡ n + (b + b - n % b)
  two_blocks h less =
      let sum = mod_sum n b (omega arith) in
      let once = times_suc (n / b) b in
      let twice = times_suc (n / b + 1) b in
      size_lem (n / b + 1 + 1) (omega arith) (omega arith) ∙ omega arith

mod_less : (n b : ℕ) → 0 < b → n % b < b
mod_less n b h = grind arith

-- Where the data leaves fewer than three bytes of its last block free, pad_01 fails its assertion
-- that the padding fits a block. The size does not wrap.
pub pkcs1_pad_01-aborts :
    (gives : ℕ → Bool) (block : ℕ) (raw : List ℕ)
    → 3 < block
    → length raw + block + 2 < 2 ^ 64
    → block ≤ length raw % block + 2
    → pkcs1_pad_01 gives block raw ≡ aborted
unfolding pkcs1_pad_01 pkcs1_asserts
pkcs1_pad_01-aborts gives block raw big fits full =
    let n = length raw in
    let less = mod_less n block (omega arith) in
    let pad : n + (block + block - n % block) - n ≡ block + block - n % block = omega arith in
    rw (two_blocks block n big fits full less) (rw pad (ground arith))

pkcs1_pad_01_lem :
    (gives : ℕ → Bool) (block : ℕ) (raw : List ℕ)
    → 3 < block
    → length raw + block + 2 < 2 ^ 64
    → length raw % block + 2 < block
    → ((n : ℕ) → gives n ≡ true)
    → pkcs1_pad_01 gives block raw
      ≡ result (pkcs1_block 1 (replicate (block - length raw % block - 3) 0xff) raw)
unfolding pkcs1_pad_01 pkcs1_asserts
pkcs1_pad_01_lem gives block raw big fits free all =
    let n = length raw in
    let pad : n + (block - n % block) - n ≡ block - n % block = omega arith in
    rw (one_block block n big fits free) (rw pad (ground (arith, all (n + (block - n % block)))))

behind_zero-append :
    (gives : ℕ → Bool) (fill raw : List ℕ)
    → All (λ x. x ≢ 0) fill
    → ((n : ℕ) → gives n ≡ true)
    → behind_zero gives (fill ++ (0 ∷ raw)) ≡ result raw
behind_zero-append gives [] raw h all = ground (arith, all (length raw + 1))
behind_zero-append gives (x ∷ fill) raw h all =
    rw (ne→==_false x 0 h.0) (behind_zero-append gives fill raw h.1 all)

pub unpad_block-accepts :
    (bt : ℕ) (gives : ℕ → Bool) (fill raw : List ℕ)
    → All (λ x. x ≢ 0) fill
    → ((n : ℕ) → gives n ≡ true)
    → unpad_block bt gives (pkcs1_block bt fill raw) ≡ result raw
unfolding unpad_block read_at
unpad_block-accepts bt gives fill raw h all =
    rw (==_refl bt) (behind_zero-append gives fill raw h all)

All-replicate : (n x : ℕ) → x ≢ 0 → All (λ y. y ≢ 0) (replicate n x)
All-replicate zero x h = tt
All-replicate (suc n) x h = (h, All-replicate n x h)

pub length-pkcs1_block :
    (bt : ℕ) (fill raw : List ℕ) → length (pkcs1_block bt fill raw) ≡ length raw + (length fill + 3)
length-pkcs1_block bt fill raw = omega (arith, length-append fill (0 ∷ raw))

pub whole_blocks : (n b : ℕ) → 0 < b → n % b + 2 < b → (n + (b - n % b - 3 + 3)) % b ≡ 0
whole_blocks n b h free = grind arith

pub unpad_pkcs1-fits :
    (bt : ℕ) (gives : ℕ → Bool) (block : ℕ) (padded : List ℕ)
    → (block ≡ 0) ⊎ (length padded % block ≡ 0)
    → unpad_pkcs1 bt gives block padded ≡ unpad_block bt gives padded
unfolding unpad_pkcs1
unpad_pkcs1-fits bt gives block padded (inl zero_size) = rw zero_size refl
unpad_pkcs1-fits bt gives block padded (inr whole) = rw whole (ground arith)

-- Data that leaves three bytes or more of its last block free is padded, and unpadded to the same
-- data. The size does not wrap, and the memory for both blocks is given.
pub pkcs1_unpad_01-pkcs1_pad_01 :
    (gives : ℕ → Bool) (block : ℕ) (raw : List ℕ)
    → 3 < block
    → length raw + block + 2 < 2 ^ 64
    → length raw % block + 2 < block
    → ((n : ℕ) → gives n ≡ true)
    → (padded : List ℕ) × ((pkcs1_pad_01 gives block raw ≡ result padded)
        × (pkcs1_unpad_01 gives block padded ≡ result raw))
unfolding pkcs1_unpad_01
pkcs1_unpad_01-pkcs1_pad_01 gives block raw big fits free all =
    let n = length raw in
    let fill = replicate (block - n % block - 3) 0xff in
    let size : length (pkcs1_block 1 fill raw) % block ≡ 0 =
      ap (λ k. k % block)
        (length-pkcs1_block 1 fill raw
          ∙ ap (λ k. n + (k + 3)) (length-replicate (block - n % block - 3) 0xff))
      ∙ whole_blocks n block (omega arith) free in
    (
      pkcs1_block 1 fill raw,
      (
        pkcs1_pad_01_lem gives block raw big fits free all,
        unpad_pkcs1-fits 1 gives block (pkcs1_block 1 fill raw) (inr size)
            ∙ unpad_block-accepts 1 gives fill raw
                (All-replicate (block - n % block - 3) 0xff (omega arith)) all,
      ),
    )

behind_zero_sound :
    (gives : ℕ → Bool) (xs raw : List ℕ)
    → behind_zero gives xs ≡ result raw
    → (fill : List ℕ) × (All (λ x. x ≢ 0) fill × (xs ≡ fill ++ (0 ∷ raw)))
behind_zero_sound gives [] raw e = cc
behind_zero_sound gives (x ∷ xs) raw e = elim (Bool-cases (x == 0)) [
  | inl y ↦
      let found : (x ≡ 0) × (xs ≡ raw) = ground arith in ([], (tt, (rw found.0 (rw found.1 refl))))
  | inr n ↦
      let other : (x ≢ 0) × (behind_zero gives xs ≡ result raw) = ground arith in
      let rest = behind_zero_sound gives xs raw other.1 in
      (x ∷ rest.0, ((other.0, rest.1.0), ap (λ r. x ∷ r) rest.1.1))
]

unpad_block_sound :
    (bt : ℕ) (gives : ℕ → Bool) (padded raw : List ℕ)
    → unpad_block bt gives padded ≡ result raw
    → (fill : List ℕ) × (All (λ x. x ≢ 0) fill × (padded ≡ pkcs1_block bt fill raw))
unfolding unpad_block read_at
unpad_block_sound bt gives [] raw e = cc
unpad_block_sound bt gives (x ∷ []) raw e = absurd (ground arith)
unpad_block_sound bt gives (x ∷ y ∷ rest) raw e =
    let head : (x ≡ 0) × ((y ≡ bt) × (behind_zero gives rest ≡ result raw)) = ground arith in
    let found = behind_zero_sound gives rest raw head.1.1 in
    (found.0, (found.1.0, rw head.0 (rw head.1.0 (ap (λ r. 0 ∷ bt ∷ r) found.1.1))))

unpad_pkcs1-size :
    (bt : ℕ) (gives : ℕ → Bool) (block : ℕ) (padded raw : List ℕ)
    → unpad_pkcs1 bt gives block padded ≡ result raw
    → (block ≡ 0) ⊎ (length padded % block ≡ 0)
unfolding unpad_pkcs1
unpad_pkcs1-size bt gives block padded raw e = ground arith

-- A block that unpad_pkcs1 accepts is the header, bytes that are not zero, a zero, and the result; its
-- size is a multiple of a block size other than 0.
pub unpad_pkcs1_sound :
    (bt : ℕ) (gives : ℕ → Bool) (block : ℕ) (padded raw : List ℕ)
    → unpad_pkcs1 bt gives block padded ≡ result raw
    → ((block ≡ 0) ⊎ (length padded % block ≡ 0))
      × ((fill : List ℕ) × (All (λ x. x ≢ 0) fill × (padded ≡ pkcs1_block bt fill raw)))
unpad_pkcs1_sound bt gives block padded raw e =
    let size = unpad_pkcs1-size bt gives block padded raw e in
    (
      size,
      unpad_block_sound bt gives padded raw (sym (unpad_pkcs1-fits bt gives block padded size) ∙ e),
    )

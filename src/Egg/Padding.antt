-- ===== src/Egg/Padding.antt =====
-- egg/egg-padding.c: zero, PKCS#1 and PKCS#7 padding. A block is a list of bytes, and the out
-- parameters are always asked for. `gives n` tells whether the allocator, called with NULL and the
-- size `n`, returns a block; the bytes of the block are all written. Sizes are 64 bits wide.
pub mod Pkcs7
pub mod Pkcs1
pub mod Random
use gcr.Shared.{
  ℕ, zero, suc, ◌+◌, ◌-◌, ◌*◌, ◌/◌, ◌%◌, ◌^◌, Bool, true, false, ◌&&◌, ◌||◌, not, Option, none,
  some, List, [], ◌∷◌, ◌++◌, length, take, drop, replicate, get_elem?, ltb, leb, ◌==◌,
  if◌then◌else◌,
}
use gcr.Egg.Buffer.Memory.{◌+size◌}

-- What a call ends in: FALSE, a result, a failed g_assert, or a read outside of a block.
pub data Outcome {ℓ} (A : Type ℓ) : Type ℓ where
  refused : Outcome A
  result : A → Outcome A
  aborted : Outcome A
  out_of_bounds : Outcome A

-- A block of `n` bytes (at least one) that is filled with `out`, or FALSE where there is none.
abbrev pub allocated : (ℕ → Bool) → ℕ → List ℕ → Outcome (List ℕ)
allocated gives n out = if gives (if n == 0 then 1 else n) then result out else refused

-- Zero bytes in front, up to a multiple of the block size.
unfoldable pub zero_pad : (ℕ → Bool) → ℕ → List ℕ → Outcome (List ℕ)
zero_pad gives block raw =
    let n_raw = length raw in
    let n_padded = (n_raw +size (block - 1)) / block * block in
    let n_pad = n_padded - n_raw in
    if block == 0
    then refused
    else if leb n_raw n_padded && ltb n_pad block
    then allocated gives n_padded (replicate n_pad 0 ++ raw)
    else aborted

-- The size of what pad_01 and pad_02 make.
unfoldable pub pkcs1_size : ℕ → ℕ → ℕ
pkcs1_size block n_raw = (n_raw +size 3 +size (block - 1)) / block * block

-- The g_asserts of pad_01 and pad_02.
unfoldable pub pkcs1_asserts : ℕ → ℕ → ℕ → Bool
pkcs1_asserts block n_raw n_padded =
    leb n_raw n_padded && (leb (n_padded - n_raw) block && leb 3 (n_padded - n_raw))

-- The header, the fill, the zero that ends it, and the data.
abbrev pub pkcs1_block : ℕ → List ℕ → List ℕ → List ℕ
pkcs1_block block_type fill raw = 0 ∷ block_type ∷ (fill ++ (0 ∷ raw))

unfoldable pub pkcs1_pad_01 : (ℕ → Bool) → ℕ → List ℕ → Outcome (List ℕ)
unfolding pkcs1_size pkcs1_asserts
pkcs1_pad_01 gives block raw =
    let n_padded = pkcs1_size block (length raw) in
    if leb block 3
    then refused
    else if pkcs1_asserts block (length raw) n_padded
    then allocated gives n_padded (pkcs1_block 1 (replicate (n_padded - length raw - 3) 0xff) raw)
    else aborted

-- How many bytes are zero.
abbrev pub count_zeros : List ℕ → ℕ
count_zeros [] = 0
count_zeros (x ∷ xs) = if x == 0 then suc (count_zeros xs) else count_zeros xs

-- The zeros are replaced by the bytes of `rnd`, in order.
abbrev pub replace_zeros : List ℕ → List ℕ → List ℕ
replace_zeros [] rnd = []
replace_zeros (x ∷ xs) [] = x ∷ xs
replace_zeros (x ∷ xs) (r ∷ rnd) =
    if x == 0 then r ∷ replace_zeros xs rnd else x ∷ replace_zeros xs (r ∷ rnd)

-- `random i n` is what egg_random fills in at its call number `i`: n bytes. The fuel is the number of
-- rounds; where every round draws only zeros, the loop does not end.
unfoldable pub replace_rounds : (ℕ → ℕ → List ℕ) → ℕ → ℕ → List ℕ → Option (List ℕ)
replace_rounds random zero i bytes = if count_zeros bytes == 0 then some bytes else none
replace_rounds random (suc fuel) i bytes =
    let rest =
      replace_rounds random fuel (i + 1) (replace_zeros bytes (random i (count_zeros bytes))) in
    if count_zeros bytes == 0 then some bytes else rest

-- The counters are 32 bits wide, so that the loops over more bytes do not end. The memory for each draw is
-- given, as it can be for fewer than 2^31 bytes.
unfoldable pub fill_random_nonzero : (ℕ → ℕ → List ℕ) → ℕ → ℕ → Option (List ℕ)
fill_random_nonzero random fuel n =
    let filled = replace_rounds random fuel 1 (random 0 n) in
    if leb (2 ^ 32) n then none else filled

abbrev pub with_fill : (ℕ → Bool) → ℕ → List ℕ → Option (List ℕ) → Option (Outcome (List ℕ))
with_fill gives n raw none = none
with_fill gives n raw (some fill) = some (allocated gives n (pkcs1_block 2 fill raw))

-- `none` where the fuel runs out.
unfoldable pub pkcs1_pad_02 :
    (ℕ → Bool) → (ℕ → ℕ → List ℕ) → ℕ → ℕ → List ℕ → Option (Outcome (List ℕ))
unfolding pkcs1_size pkcs1_asserts
pkcs1_pad_02 gives random fuel block raw =
    let n_padded = pkcs1_size block (length raw) in
    if leb block 3
    then some refused
    else if pkcs1_asserts block (length raw) n_padded
    then with_fill gives n_padded raw (fill_random_nonzero random fuel (n_padded - length raw - 3))
    else some aborted

-- What stands behind the first zero byte, as memchr finds it.
-- The result has room for the zero byte that ends it.
abbrev pub behind_zero : (ℕ → Bool) → List ℕ → Outcome (List ℕ)
behind_zero gives [] = refused
behind_zero gives (x ∷ xs) =
    let rest = behind_zero gives xs in if x == 0 then allocated gives (length xs + 1) xs else rest

-- A read of the byte `i` of a block, and what is done with it.
unfoldable pub read_at : List ℕ → ℕ → (ℕ → Outcome (List ℕ)) → Outcome (List ℕ)
read_at padded i next = elim (get_elem? padded i) [ none ↦ out_of_bounds | some x ↦ next x ]

-- The two bytes of the header are read before the length is looked at.
unfoldable pub unpad_block : ℕ → (ℕ → Bool) → List ℕ → Outcome (List ℕ)
unfolding read_at
unpad_block bt gives padded = read_at padded 0 (λ x.
    if x == 0
    then read_at padded 1 (λ y. if y == bt then behind_zero gives (drop 2 padded) else refused)
    else refused)

unfoldable pub unpad_pkcs1 : ℕ → (ℕ → Bool) → ℕ → List ℕ → Outcome (List ℕ)
unfolding unpad_block
unpad_pkcs1 bt gives block padded =
    if not (block == 0) && not (length padded % block == 0)
    then refused
    else unpad_block bt gives padded

unfoldable pub pkcs1_unpad_01 : (ℕ → Bool) → ℕ → List ℕ → Outcome (List ℕ)
pkcs1_unpad_01 = unpad_pkcs1 1

unfoldable pub pkcs1_unpad_02 : (ℕ → Bool) → ℕ → List ℕ → Outcome (List ℕ)
pkcs1_unpad_02 = unpad_pkcs1 2

-- As many bytes as are missing, each holding their number.
unfoldable pub pkcs7_pad : (ℕ → Bool) → ℕ → List ℕ → Outcome (List ℕ)
pkcs7_pad gives block raw =
    let n_raw = length raw in
    let n_padded = (n_raw +size block) / block * block in
    let n_pad = n_padded - n_raw in
    if block == 0 || leb 256 block
    then refused
    else if ltb n_raw n_padded && (ltb 0 n_pad && leb n_pad block)
    then allocated gives n_padded (raw ++ replicate n_pad n_pad)
    else aborted

-- The byte at the end of a block that is not empty.
abbrev pub last_byte : List ℕ → ℕ
last_byte [] = 0
last_byte (x ∷ []) = x
last_byte (x ∷ y ∷ xs) = last_byte (y ∷ xs)

abbrev pub all_equal : ℕ → List ℕ → Bool
all_equal n [] = true
all_equal n (x ∷ xs) = x == n && all_equal n xs

unfoldable pub pkcs7_unpad : (ℕ → Bool) → ℕ → List ℕ → Outcome (List ℕ)
pkcs7_unpad gives block padded =
    let n_padded = length padded in
    let n_pad = last_byte padded in
    let n_raw = n_padded - n_pad in
    if n_padded == 0
    then refused
    else if n_pad == 0 || ltb 256 n_pad
    then refused
    else if ltb n_padded n_pad
    then refused
    else if not (block == 0) && ltb block n_pad
    then refused
    else if all_equal n_pad (drop n_raw padded)
    then allocated gives (n_raw + 1) (take n_raw padded)
    else refused

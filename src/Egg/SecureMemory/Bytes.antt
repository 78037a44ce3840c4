-- ===== src/Egg/SecureMemory/Bytes.antt =====
-- The bytes of the cells of egg/egg-secure-memory.c: what clearing and merging do to them.
use gcr.Shared.{
  ℕ, zero, suc, ◌+◌, ◌*◌, ◌≤◌, ◌<◌, ◌≡◌, refl, ap, List, [], ◌∷◌, ◌++◌, arith, All, length, take,
  drop, replicate,
}
use gcr.Egg.SecureMemory.{Byte, byte, guard, guards, clear_to, sec_size_to_words}

-- A byte that tells nothing: zero, or one of a guard word.
abbrev pub IsBlank : Byte → Type 0
IsBlank (byte n) = n ≡ 0
IsBlank guard = Unit

-- Nothing is left behind the first so many bytes.
abbrev pub IsClean : ℕ → List Byte → Type 0
IsClean n bytes = All IsBlank (drop n bytes)

pub length-clear_to : (n : ℕ) (bytes : List Byte) → length (clear_to n bytes) ≡ length bytes
length-clear_to zero bytes = refl
length-clear_to (suc n) [] = refl
length-clear_to (suc n) (b ∷ bytes) = ap suc (length-clear_to n bytes)

pub drop-clear_to : (n : ℕ) (bytes : List Byte) → drop n (clear_to n bytes) ≡ drop n bytes
drop-clear_to zero bytes = refl
drop-clear_to (suc n) [] = refl
drop-clear_to (suc n) (b ∷ bytes) = drop-clear_to n bytes

pub take-clear_to :
    (n : ℕ) (bytes : List Byte)
    → n ≤ length bytes
    → take n (clear_to n bytes) ≡ replicate n (byte 0)
take-clear_to zero bytes h = refl
take-clear_to (suc n) [] h = elim h [ ]
take-clear_to (suc n) (b ∷ bytes) h = ap (λ r. byte 0 ∷ r) (take-clear_to n bytes (omega arith))

-- Clearing what is used leaves nothing at all.
pub clear_to-IsClean : (n : ℕ) (bytes : List Byte) → IsClean n bytes → IsClean 0 (clear_to n bytes)
clear_to-IsClean zero bytes h = h
clear_to-IsClean (suc n) [] h = h
clear_to-IsClean (suc n) (b ∷ bytes) h = (refl, clear_to-IsClean n bytes h)

pub IsBlank-append : (xs ys : List Byte) → All IsBlank xs → All IsBlank ys → All IsBlank (xs ++ ys)
IsBlank-append [] ys p q = q
IsBlank-append (x ∷ xs) ys p q = (p.0, IsBlank-append xs ys p.1 q)

pub IsBlank-take : (n : ℕ) (xs : List Byte) → All IsBlank xs → All IsBlank (take n xs)
IsBlank-take zero xs p = tt
IsBlank-take (suc n) [] p = tt
IsBlank-take (suc n) (x ∷ xs) p = (p.0, IsBlank-take n xs p.1)

pub IsBlank-drop : (n : ℕ) (xs : List Byte) → All IsBlank xs → All IsBlank (drop n xs)
IsBlank-drop zero xs p = p
IsBlank-drop (suc n) [] p = tt
IsBlank-drop (suc n) (x ∷ xs) p = IsBlank-drop n xs p.1

pub guards-IsBlank : All IsBlank guards
guards-IsBlank = omega arith

pub size-le : (n : ℕ) → n ≤ 8 * sec_size_to_words n
unfolding sec_size_to_words
size-le n = ground arith

pub size-lt : (n : ℕ) → 8 * sec_size_to_words n < n + 8
unfolding sec_size_to_words
size-lt n = ground arith

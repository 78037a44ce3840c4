-- ===== src/Egg/Buffer/Memory.antt =====
-- EggBuffer and EggBufferAllocator of egg/egg-buffer.h, and the accesses to memory that
-- egg/egg-buffer.c makes by memcpy, memset and through pointers.
use gcr.Shared.{
  ℕ, ◌+◌, ◌%◌, ◌^◌, ◌<◌, ◌≡◌, Option, some, List, ◌++◌, length, take, drop, leb, if◌then◌else◌,
}

-- An allocator follows realloc: given a block and a size it returns NULL (`none`) or the new block.
-- The block at NULL is the empty list. `id` stands for the address of the function.
pub record Allocator : Type 0 where
  pub id : ℕ
  pub realloc : List ℕ → ℕ → Option (List ℕ)

-- What realloc documents: the new block has the size asked for, it begins with the old bytes, and no
-- block is larger than PTRDIFF_MAX.
pub record IsAllocator (a : Allocator) : Type 0 where
  pub sized : (old : List ℕ) (n : ℕ) (new : List ℕ) → a.realloc old n ≡ some new → length new ≡ n
  pub kept :
      (old : List ℕ) (n : ℕ) (new : List ℕ)
      → a.realloc old n ≡ some new
      → take (length old) new ≡ take n old
  pub fits : (old : List ℕ) (n : ℕ) (new : List ℕ) → a.realloc old n ≡ some new → n < 2 ^ 63

-- `buf` is the block of memory; an allocator that is NULL is `none`. `failures` is a count without
-- a bound: the int of the source overflows after 2^31 failures.
pub record Buffer : Type 0 where
  pub buf : List ℕ
  pub len : ℕ
  pub allocated_len : ℕ
  pub failures : ℕ
  pub allocator : Option Allocator

-- A run that touches memory outside of a block ends in `fault`.
pub data Run {ℓ} (A : Type ℓ) : Type ℓ where
  done : A → Run A
  fault : Run A

infixl 5 ◌>>=◌
abbrev pub ◌>>=◌ {ℓ κ} : {A : Type ℓ} {B : Type κ} → Run A → (A → Run B) → Run B
done a >>= f = f a
fault >>= f = fault

-- What holds of the value of a run that does not fault.
abbrev pub Ensures {ℓ} : {A : Type ℓ} → (A → Type 0) → Run A → Type 0
Ensures P (done a) = P a
Ensures P fault = ⊥

-- `n` bytes from `off` on.
unfoldable pub peek : List ℕ → ℕ → ℕ → Run (List ℕ)
peek m off n = if leb (off + n) (length m) then done (take n (drop off m)) else fault

-- `src` copied to `off`.
unfoldable pub poke : List ℕ → ℕ → List ℕ → Run (List ℕ)
poke m off src =
    if leb (off + length src) (length m)
    then done (take off m ++ (src ++ drop (length src) (drop off m)))
    else fault

-- size_t is 64 bits wide.
infixl 65 ◌+size◌
abbrev pub ◌+size◌ : ℕ → ℕ → ℕ
a +size b = (a + b) % 2 ^ 64

-- ===== src/Egg/Buffer/Granted.antt =====
-- Growth behind an allocator that does not refuse, as g_realloc does not: it ends the program
-- instead of returning NULL.
use gcr.Shared.{ℕ, ◌+◌, ◌*◌, ◌^◌, ◌≤◌, ◌<◌, ◌≡◌, ◌∙◌, refl, true, some, List, take, arith}
use gcr.Egg.Buffer.Memory.{Allocator, Buffer}
use gcr.Egg.Buffer.Storage.{grown_len, reserve, resize, sized_to}
use gcr.Egg.Buffer.Valid.{IsValid, contents}
use gcr.Egg.Buffer.Lifecycle.{resize-kept}

-- Every block that can be is given.
pub record IsGenerous (a : Allocator) : Type 0 where
  pub gives : (old : List ℕ) (n : ℕ) → n < 2 ^ 63 → (new : List ℕ) × (a.realloc old n ≡ some new)

grown_len_bound :
    (allocated len : ℕ)
    → allocated < 2 ^ 61
    → len < 2 ^ 61
    → grown_len allocated len ≤ allocated * 2 + len
unfolding grown_len
grown_len_bound allocated len ha hl = ground arith

module _ (len : ℕ) (b : Buffer) (a : Allocator) where
  reserve_granted :
      b.allocated_len < 2 ^ 61
      → len < 2 ^ 61
      → b.allocator ≡ some a
      → IsGenerous a
      → ((reserve len b).0 ≡ true)
        × ((reserve len b).1.allocated_len ≤ b.allocated_len * 2 + len)
        × ((reserve len b).1.allocator ≡ b.allocator)
  unfolding reserve
  reserve_granted ha hl own g =
      let bound = grown_len_bound b.allocated_len len ha hl in
      let (new, got) = g.gives b.buf (grown_len b.allocated_len len) (omega (arith, bound)) in
      ground (arith, own, got, bound)

  -- The buffer that a resize gives.
  pub resize_granted :
      b.allocated_len < 2 ^ 61
      → len < 2 ^ 61
      → b.allocator ≡ some a
      → IsGenerous a
      → ((resize len b).0 ≡ true)
        × ((resize len b).1.allocated_len ≤ b.allocated_len * 2 + len)
        × ((resize len b).1.allocator ≡ b.allocator)
  unfolding resize sized_to
  resize_granted ha hl own g = ground (arith, reserve_granted ha hl own g)

-- `n` bytes are in use now; those that were stay.
pub record IsResized (n : ℕ) (b b' : Buffer) : Type 0 where
  pub valid : IsValid b'
  pub len_set : b'.len ≡ n
  pub room : n ≤ b'.allocated_len
  pub bounded : b'.allocated_len ≤ b.allocated_len * 2 + n
  pub allocator_kept : b'.allocator ≡ b.allocator
  pub kept : (k : ℕ) → k ≤ n → k ≤ b.len → take k (contents b') ≡ take k (contents b)

pub resize-IsResized :
    (n : ℕ) (b : Buffer) (a : Allocator)
    → IsValid b
    → b.allocated_len < 2 ^ 61
    → n < 2 ^ 61
    → b.allocator ≡ some a
    → IsGenerous a
    → IsResized n b (resize n b).1
resize-IsResized n b a v ha hn own g =
    let (ok, bound, same) = resize_granted n b a ha hn own g in
    let (valid, _, size) = resize-kept n 0 b v (omega arith) (omega arith) (omega arith) in
    let len_set : (resize n b).1.len ≡ n = size ∙ rw ok refl in
    record {
      valid = valid;
      len_set = len_set;
      room = omega (arith, valid.within, len_set);
      bounded = bound;
      allocator_kept = same;
      kept = λ k below used. (resize-kept n k b v (omega arith) below used).1;
    }

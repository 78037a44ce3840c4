-- ===== src/Tests/Allocators.antt =====
-- An allocator that fills new memory with zeros and has any block below 2^63 bytes to give.
use gcr.Shared.{
  ℕ, ◌-◌, ◌^◌, ◌<◌, ◌≡◌, refl, inl, inr, none, some, List, ◌++◌, length, take, replicate, arith,
  ltb, lt→ltb, if◌then◌else◌, Bool-cases, length-append, length-take, length-replicate, take-append,
  take_all, append-nil,
}
use mathlib.Core.Option.{some-injective}
use gcr.Egg.Buffer.Memory.{Allocator, IsAllocator}
use gcr.Egg.Buffer.Granted.{IsGenerous}

abbrev pub zero_filled : List ℕ → ℕ → List ℕ
zero_filled old n = take n old ++ replicate (n - length old) 0

abbrev pub zero_filling : Allocator
zero_filling = record {
  id = 7;
  realloc = λ old n. if ltb n (2 ^ 63) then some (zero_filled old n) else none;
}

length-zero_filled : (old : List ℕ) (n : ℕ) → length (zero_filled old n) ≡ n
length-zero_filled old n = omega (
  arith,
  length-append (take n old) (replicate (n - length old) 0),
  length-take n old,
  length-replicate {A = ℕ} (n - length old) 0,
)

zero_filled-kept : (old : List ℕ) (n : ℕ) → take (length old) (zero_filled old n) ≡ take n old
zero_filled-kept old n = elim (Bool-cases (ltb n (length old))) [
  | inl shrinks ↦
      let none_added : n - length old ≡ 0 = ground arith in
      rw (none_added, append-nil)
        (take_all (length old) (take n old) (ground (arith, length-take n old)))
  | inr grows ↦
      let whole : take n old ≡ old = take_all n old (ground arith) in
      rw whole (take-append (length old) old (replicate (n - length old) 0) refl)
]

-- A block that was given is this one, and the size was below the limit.
given :
    (old : List ℕ) (n : ℕ) (new : List ℕ)
    → zero_filling.realloc old n ≡ some new
    → (n < 2 ^ 63) × (zero_filled old n ≡ new)
given old n new e = elim (Bool-cases (ltb n (2 ^ 63))) [
  | inl below ↦ (ground arith, some-injective (zero_filled old n) new (rw below at e))
  | inr above ↦ absurd (cc (rw above at e))
]

pub zero_filling-IsAllocator : IsAllocator zero_filling
zero_filling-IsAllocator = record {
  sized = λ old n new e. rw (← (given old n new e).1) (length-zero_filled old n);
  kept = λ old n new e. rw (← (given old n new e).1) (zero_filled-kept old n);
  fits = λ old n new e. (given old n new e).0;
}

pub zero_filling-IsGenerous : IsGenerous zero_filling
zero_filling-IsGenerous = record {
  gives = λ old n small. (zero_filled old n, rw (lt→ltb n (2 ^ 63) small) refl);
}

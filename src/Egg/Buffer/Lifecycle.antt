-- ===== src/Egg/Buffer/Lifecycle.antt =====
-- The buffers that the init functions of egg/egg-buffer.c make, and what reset, set_allocator,
-- resize and equal do to valid ones.
use gcr.Shared.{
  ℕ, ◌+◌, ◌^◌, ◌≤◌, ◌<◌, ◌≡◌, refl, false, true, Bool, Option, some, List, [], length, take, arith,
  ◌∙◌, sym, ap, inl, inr, replicate, length-replicate, append-nil, drop_all, take_all, take-take,
  Bool-cases, Option-cases, ◌==◌, ==_iff, if◌then◌else◌,
}
use mathlib.Core.Path.{subst}
use mathlib.Core.Option.{some-injective}
use gcr.Egg.Buffer.Memory.{Allocator, IsAllocator, Buffer, done, Ensures}
use gcr.Egg.Buffer.Storage.{
  or_default, init_full, reset, set_allocator, reserve, resize, sized_to, zeroed, failed,
  copy_block, is_current,
}
use gcr.Egg.Buffer.Valid.{IsValid, contents, IsReserved, reserve-IsReserved}
use gcr.Egg.Buffer.Access.{poke-done, peek-done}

pub owned_by : {a : Allocator} → IsAllocator a → (c : Allocator) → some a ≡ some c → IsAllocator c
owned_by {a} laws c own = subst IsAllocator (some-injective a c own) laws

-- A block straight from its allocator.
fresh :
    (a : Allocator) (block : List ℕ) (m : ℕ)
    → IsAllocator a
    → a.realloc [] m ≡ some block
    → IsValid (record zeroed { buf = block; allocated_len = m; allocator = some a })
      × (take 0 block ≡ [])
      × (◌≡◌ {A = ℕ} 0 0)
      × (m ≡ m)
fresh a block m laws got = (
  record {
    sized = laws.sized [] m block got;
    within = omega arith;
    fits = laws.fits [] m block got;
    owned = owned_by laws;
  },
  refl,
  refl,
  refl,
)

module _ (default_allocator : Allocator) where
  -- A buffer that init_full made is valid and holds nothing; its block has the size asked for, and
  -- 64 bytes where that is 0.
  pub init_full-made :
      (n : ℕ) (allocator : Option Allocator) (b : Buffer)
      → IsAllocator (or_default default_allocator allocator)
      → init_full default_allocator n allocator ≡ (true, b)
      → IsValid b
        × (contents b ≡ [])
        × (b.failures ≡ 0)
        × (b.allocated_len ≡ (if n == 0 then 64 else n))
  unfolding init_full
  init_full-made n allocator b laws e = elim (Option-cases (a.realloc [] m)) [
    | inl out ↦ absurd (cc (e, out))
    | inr (block, got) ↦
        let made : record zeroed { buf = block; allocated_len = m; allocator = some a } ≡ b =
          ground (arith, e, got) in
        rw (← made) (fresh a block m laws got)
  ]
    where
      a : Allocator
      a = or_default default_allocator allocator

      m : ℕ
      m = if n == 0 then 64 else n

  -- Where the allocator refuses, the buffer has no memory, and one failure.
  pub init_full-refused :
      (n : ℕ) (allocator : Option Allocator) (b : Buffer)
      → init_full default_allocator n allocator ≡ (false, b)
      → b ≡ failed zeroed
  unfolding init_full
  init_full-refused n allocator b e = ground arith

-- Reset empties a valid buffer: every byte of its block is 0, and block and allocator stay.
pub reset-cleared :
    (b : Buffer)
    → IsValid b
    → reset b ≡ done (record b { buf = replicate b.allocated_len 0; len = 0; failures = 0 })
unfolding reset
reset-cleared b v =
    let zeros : List ℕ = replicate b.allocated_len 0 in
    let size : length zeros ≡ length b.buf = length-replicate b.allocated_len 0 ∙ sym v.sized in
    let room : 0 + length zeros ≤ length b.buf = omega (arith, size) in
    let covers : length b.buf ≤ length zeros = omega (arith, size) in
    rw (poke-done b.buf 0 zeros room, drop_all (length zeros) b.buf covers, append-nil) refl

-- The new length; bytes that are in use before and after stay.
resized :
    (n k : ℕ) (b : Buffer) (r : Bool × Buffer)
    → IsReserved n b r
    → k ≤ n
    → k ≤ b.len
    → IsValid (sized_to n r).1
      × (take k (contents (sized_to n r).1) ≡ take k (contents b))
      × ((sized_to n r).1.len ≡ (if (sized_to n r).0 then n else b.len))
unfolding sized_to
resized n k b (true, b') w below used = (
  record {
    sized = w.valid.sized;
    within = w.room refl;
    fits = w.valid.fits;
    owned = w.valid.owned;
  },
  take-take k n b'.buf below ∙ sym (take-take k b.len b'.buf used) ∙ ap (take k) old,
  refl,
)
  where
    old : take b.len b'.buf ≡ contents b
    old = ap (λ n. take n b'.buf) (sym w.len_kept) ∙ w.kept
resized n k b (false, b') w below used = (w.valid, ap (take k) w.kept, w.len_kept)

-- Resize, on a valid buffer and a size below 2^63, keeps the buffer valid and the first `k` bytes
-- that are in use both before and after; the length is the one asked for, or the old one where
-- resize refuses.
pub resize-kept :
    (n k : ℕ) (b : Buffer)
    → IsValid b
    → n < 2 ^ 63
    → k ≤ n
    → k ≤ b.len
    → IsValid (resize n b).1
      × (take k (contents (resize n b).1) ≡ take k (contents b))
      × ((resize n b).1.len ≡ (if (resize n b).0 then n else b.len))
unfolding resize
resize-kept n k b v small below used =
    resized n k b (reserve n b) (reserve-IsReserved n b v small) below used

-- A copy of the whole block behind another allocator.
copied :
    (a : Allocator) (block : List ℕ) (b : Buffer)
    → IsValid b
    → IsAllocator a
    → a.realloc [] b.allocated_len ≡ some block
    → copy_block (some block) a b ≡ done (true, record b { allocator = some a })
unfolding copy_block
copied a block b v laws got =
    let size : length block ≡ length b.buf =
      laws.sized [] b.allocated_len block got ∙ sym v.sized in
    let whole : take b.allocated_len b.buf ≡ b.buf =
      take_all b.allocated_len b.buf (omega (arith, v.sized)) in
    let over : length block ≤ length b.buf = omega (arith, size) in
    rw
      (
        peek-done b.buf 0 b.allocated_len (omega (arith, v.sized)),
        whole,
        poke-done block 0 b.buf (omega (arith, size)),
        drop_all (length b.buf) block over,
        append-nil,
      )
      refl

module _ (default_allocator : Allocator) (allocator : Option Allocator) (b : Buffer) where
  -- set_allocator, on a valid buffer and with an allocator that does what realloc documents, does
  -- not fault; it keeps the buffer valid, its bytes, its length and its failures, also where the
  -- new allocator refuses.
  pub set_allocator-kept :
      IsValid b
      → IsAllocator (or_default default_allocator allocator)
      → Ensures
          (λ r.
            IsValid r.1
            × (contents r.1 ≡ contents b)
            × (r.1.len ≡ b.len)
            × (r.1.failures ≡ b.failures))
          (set_allocator default_allocator allocator b)
  unfolding set_allocator
  set_allocator-kept v laws =
      elim (Bool-cases (is_current b.allocator (or_default default_allocator allocator))) [
        | inl current ↦ rw current (v, refl, refl, refl)
        | inr new ↦ elim (Bool-cases (b.allocated_len == 0)) [
          | inl empty ↦
              let none_left : b.allocated_len ≡ 0 = (==_iff _ _).0 empty in
              let unused : b.len ≡ 0 = omega (arith, v.within, none_left) in
              rw (new, empty)
                (
                  record {
                    sized = omega (arith, none_left);
                    within = v.within;
                    fits = v.fits;
                    owned = owned_by laws;
                  },
                  rw unused refl,
                  refl,
                  refl,
                )
          | inr full ↦ elim (Option-cases (a.realloc [] b.allocated_len)) [
            | inl out ↦ rw (new, full, out) (unfold copy_block in (v, refl, refl, refl))
            | inr (block, got) ↦
                rw (new, full, got, copied a block b v laws got)
                  (
                    record {
                      sized = v.sized;
                      within = v.within;
                      fits = v.fits;
                      owned = owned_by laws;
                    },
                    refl,
                    refl,
                    refl,
                  )
          ]
        ]
      ]
    where
      a : Allocator
      a = or_default default_allocator allocator

-- ===== src/Egg/Buffer/Valid.antt =====
-- The invariant of a buffer of egg/egg-buffer.c, the bytes that it holds, and its growth.
use gcr.Shared.{
  ℕ, ◌+◌, ◌^◌, ◌≤◌, ◌<◌, ◌≡◌, refl, sym, ap, ◌∙◌, inl, inr, Bool, true, false, none, some, List,
  length, take, arith, ltb, if◌then◌else◌, Bool-cases, Option-cases, take-take, take_all,
}
use gcr.Egg.Buffer.Memory.{Allocator, IsAllocator, Buffer}
use gcr.Egg.Buffer.Storage.{failed, grown_len, reserve}

pub record IsValid (b : Buffer) : Type 0 where
  pub sized : length b.buf ≡ b.allocated_len
  pub within : b.len ≤ b.allocated_len
  pub fits : b.allocated_len < 2 ^ 63
  pub owned : (a : Allocator) → b.allocator ≡ some a → IsAllocator a

-- The bytes in use.
abbrev pub contents : Buffer → List ℕ
contents b = take b.len b.buf

-- What a call that asks for `len` bytes leaves behind.
pub record IsReserved (len : ℕ) (b : Buffer) (r : Bool × Buffer) : Type 0 where
  pub valid : IsValid r.1
  pub kept : contents r.1 ≡ contents b
  pub len_kept : r.1.len ≡ b.len
  pub room : r.0 ≡ true → len ≤ r.1.allocated_len
  pub counted : r.1.failures ≡ (if r.0 then b.failures else b.failures + 1)
  pub allocator_kept : r.1.allocator ≡ b.allocator
  pub grows : b.allocated_len ≤ r.1.allocated_len
  pub granted : len < b.allocated_len → r.0 ≡ true

failed-IsReserved :
    (len : ℕ) (b : Buffer)
    → IsValid b
    → ltb len b.allocated_len ≡ false
    → IsReserved len b (false, failed b)
failed-IsReserved len b v slow = record {
  valid = record { sized = v.sized; within = v.within; fits = v.fits; owned = v.owned };
  kept = refl;
  len_kept = refl;
  room = λ e. cc;
  counted = refl;
  allocator_kept = refl;
  grows = omega arith;
  granted = λ h. ground arith;
}

-- The new size covers the old one and the request, with no wrap.
grown_len_covers :
    (allocated len : ℕ)
    → allocated < 2 ^ 63
    → len < 2 ^ 63
    → allocated ≤ len
    → (len ≤ grown_len allocated len) × (allocated ≤ grown_len allocated len)
unfolding grown_len
grown_len_covers allocated len ha hl h = ground arith

module _ (len : ℕ) (b : Buffer) (v : IsValid b) (small : len < 2 ^ 63) where
  -- A block from the allocator takes the place of the old one.
  regrown-IsReserved :
      (a : Allocator) (newbuf : List ℕ)
      → b.allocator ≡ some a
      → b.allocated_len ≤ len
      → a.realloc b.buf (grown_len b.allocated_len len) ≡ some newbuf
      → IsReserved len b
          (true, record b { buf = newbuf; allocated_len = grown_len b.allocated_len len })
  regrown-IsReserved a newbuf own full got =
      let laws = v.owned a own in
      let new = grown_len b.allocated_len len in
      let covers = grown_len_covers b.allocated_len len v.fits small full in
      let same : take b.allocated_len newbuf ≡ b.buf =
        ap (λ n. take n newbuf) (sym v.sized)
        ∙ laws.kept b.buf new newbuf got
        ∙ take_all new b.buf (omega (arith, covers, v.sized)) in
      record {
        valid = record {
          sized = laws.sized b.buf new newbuf got;
          within = omega (arith, covers, v.within);
          fits = laws.fits b.buf new newbuf got;
          owned = v.owned;
        };
        kept = sym (take-take b.len b.allocated_len newbuf v.within) ∙ ap (take b.len) same;
        len_kept = refl;
        room = λ e. covers.0;
        counted = refl;
        allocator_kept = refl;
        grows = covers.1;
        granted = λ h. refl;
      }

  reserve-eq_regrown :
      (a : Allocator) (newbuf : List ℕ)
      → ltb len b.allocated_len ≡ false
      → b.allocator ≡ some a
      → a.realloc b.buf (grown_len b.allocated_len len) ≡ some newbuf
      → reserve len b
        ≡ (true, record b { buf = newbuf; allocated_len = grown_len b.allocated_len len })
  unfolding reserve
  reserve-eq_regrown a newbuf slow own got = ground arith

  reserve-eq_failed :
      (a : Allocator)
      → ltb len b.allocated_len ≡ false
      → b.allocator ≡ some a
      → a.realloc b.buf (grown_len b.allocated_len len) ≡ none
      → reserve len b ≡ (false, failed b)
  unfolding reserve
  reserve-eq_failed a slow own out = ground arith

  reserve-eq_unowned :
      ltb len b.allocated_len ≡ false → b.allocator ≡ none → reserve len b ≡ (false, failed b)
  unfolding reserve
  reserve-eq_unowned slow unowned = ground arith

  reserve-eq_fast : ltb len b.allocated_len ≡ true → reserve len b ≡ (true, b)
  unfolding reserve
  reserve-eq_fast fast = ground arith

  pub reserve-IsReserved : IsReserved len b (reserve len b)
  reserve-IsReserved = elim (Bool-cases (ltb len b.allocated_len)) [
    | inl fast ↦ rw (reserve-eq_fast fast) (record {
      valid = v;
      kept = refl;
      len_kept = refl;
      room = λ e. ground arith;
      counted = refl;
      allocator_kept = refl;
      grows = omega arith;
      granted = λ h. refl;
    })
    | inr slow ↦ elim (Option-cases b.allocator) [
      | inl unowned ↦ rw (reserve-eq_unowned slow unowned) (failed-IsReserved len b v slow)
      | inr (a, own) ↦ elim (Option-cases (a.realloc b.buf (grown_len b.allocated_len len))) [
        | inl out ↦ rw (reserve-eq_failed a slow own out) (failed-IsReserved len b v slow)
        | inr (newbuf, got) ↦
            rw (reserve-eq_regrown a newbuf slow own got)
              (regrown-IsReserved a newbuf own (ground arith) got)
      ]
    ]
  ]

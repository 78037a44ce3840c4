-- ===== src/Egg/Buffer/NumberWrites.antt =====
-- What the number writers of egg/egg-buffer.c append, and that an overwrite keeps the rest.
use gcr.Shared.{
  ℕ, ◌+◌, ◌-◌, ◌/◌, ◌%◌, ◌^◌, ◌≤◌, ◌<◌, ◌≡◌, refl, true, false, List, [], ◌∷◌, ◌++◌, length, arith,
  ◌∙◌,
}
use gcr.Egg.Buffer.Memory.{Buffer, done, Ensures, ◌+size◌}
use gcr.Egg.Buffer.Storage.{failed, copy_in}
use gcr.Egg.Buffer.Numbers.{
  is_outside, add_byte, encode_uint16, set_uint16, put_uint16, add_uint16, encode_uint32,
  set_uint32, put_uint32, add_uint32, add_uint64,
}
use gcr.Egg.Buffer.Valid.{IsValid, contents, IsReserved}
use gcr.Egg.Buffer.Access.{splice, poke-done, length-splice, take-splice}
use gcr.Egg.Buffer.Writes.{
  IsWritten, Writes, reserve-then, copy_in-written, stored, and_then-Writes,
}

pub add_byte-Writes : (val : ℕ) → Writes (val ∷ []) (add_byte val)
unfolding add_byte
add_byte-Writes val b v small =
    let n : ℕ = b.len +size 1 in
    let no_wrap : n ≡ b.len + 1 = omega arith in
    reserve-then (val ∷ []) b (copy_in (val ∷ [])) n no_wrap v small
      (λ b' w. copy_in-written (val ∷ []) b b' n no_wrap w small)

-- An offset with room behind it is not refused.
pub is_outside-false :
    (offset n : ℕ) (b : Buffer) → offset + n ≤ b.len → is_outside offset n b ≡ false
is_outside-false offset n b h = ground arith

-- One with too little is.
pub is_outside-true :
    (offset n : ℕ) (b : Buffer) → b.len < offset + n → is_outside offset n b ≡ true
is_outside-true offset n b h = ground arith

module _ (offset val : ℕ) (b : Buffer) where
  pub set_uint16-done :
      offset + 2 ≤ b.len
      → b.len ≤ length b.buf
      → set_uint16 offset val b
        ≡ done (true, record b { buf = splice b.buf offset (encode_uint16 val) })
  unfolding set_uint16 encode_uint16
  set_uint16-done h k =
      rw (is_outside-false offset 2 b h, poke-done b.buf offset (encode_uint16 val) (omega arith))
        refl

  pub set_uint16-refused : b.len < offset + 2 → set_uint16 offset val b ≡ done (false, failed b)
  unfolding set_uint16
  set_uint16-refused h = rw (is_outside-true offset 2 b h) refl

put_uint16-written :
    (val : ℕ) (b b' : Buffer) (n : ℕ)
    → n ≡ b.len + 2
    → IsReserved n b (true, b')
    → b.len + 2 < 2 ^ 63
    → Ensures (IsWritten (encode_uint16 val) b) (put_uint16 val b')
unfolding put_uint16 encode_uint16
put_uint16-written val b b' n e v small =
    let b'' = record b' { len = b'.len +size 2 } in
    let back : b''.len - 2 ≡ b'.len = omega (arith, v.len_kept) in
    let room : b''.len ≤ length b''.buf = omega (arith, v.room refl, v.valid.sized, v.len_kept) in
    rw (back, set_uint16-done b'.len val b'' (omega (arith, v.len_kept)) room)
      (stored (encode_uint16 val) b b' n e v small)

pub add_uint16-Writes : (val : ℕ) → Writes (encode_uint16 val) (add_uint16 val)
unfolding add_uint16 encode_uint16
add_uint16-Writes val b v small =
    let n : ℕ = b.len +size 2 in
    let no_wrap : n ≡ b.len + 2 = omega arith in
    reserve-then (encode_uint16 val) b (put_uint16 val) n no_wrap v small
      (λ b' w. put_uint16-written val b b' n no_wrap w small)

module _ (offset val : ℕ) (b : Buffer) where
  pub set_uint32-done :
      offset + 4 ≤ b.len
      → b.len ≤ length b.buf
      → set_uint32 offset val b
        ≡ done (true, record b { buf = splice b.buf offset (encode_uint32 val) })
  unfolding set_uint32 encode_uint32
  set_uint32-done h k =
      rw (is_outside-false offset 4 b h, poke-done b.buf offset (encode_uint32 val) (omega arith))
        refl

  pub set_uint32-refused : b.len < offset + 4 → set_uint32 offset val b ≡ done (false, failed b)
  unfolding set_uint32
  set_uint32-refused h = rw (is_outside-true offset 4 b h) refl

put_uint32-written :
    (val : ℕ) (b b' : Buffer) (n : ℕ)
    → n ≡ b.len + 4
    → IsReserved n b (true, b')
    → b.len + 4 < 2 ^ 63
    → Ensures (IsWritten (encode_uint32 val) b) (put_uint32 val b')
unfolding put_uint32 encode_uint32
put_uint32-written val b b' n e v small =
    let b'' = record b' { len = b'.len +size 4 } in
    let back : b''.len - 4 ≡ b'.len = omega (arith, v.len_kept) in
    let room : b''.len ≤ length b''.buf = omega (arith, v.room refl, v.valid.sized, v.len_kept) in
    rw (back, set_uint32-done b'.len val b'' (omega (arith, v.len_kept)) room)
      (stored (encode_uint32 val) b b' n e v small)

pub add_uint32-Writes : (val : ℕ) → Writes (encode_uint32 val) (add_uint32 val)
unfolding add_uint32 encode_uint32
add_uint32-Writes val b v small =
    let n : ℕ = b.len +size 4 in
    let no_wrap : n ≡ b.len + 4 = omega arith in
    reserve-then (encode_uint32 val) b (put_uint32 val) n no_wrap v small
      (λ b' w. put_uint32-written val b b' n no_wrap w small)

-- The high half comes first.
abbrev pub encode_uint64 : ℕ → List ℕ
encode_uint64 val = encode_uint32 (val / 2 ^ 32 % 2 ^ 32) ++ encode_uint32 (val % 2 ^ 32)

pub add_uint64-Writes : (val : ℕ) → Writes (encode_uint64 val) (add_uint64 val)
unfolding add_uint64
add_uint64-Writes val =
    let high = val / 2 ^ 32 % 2 ^ 32 in
    let low = val % 2 ^ 32 in
    and_then-Writes (encode_uint32 high) (encode_uint32 low) (add_uint32 high) (add_uint32 low)
      (add_uint32-Writes high) (add_uint32-Writes low)

-- What a number that is written over others leaves: the bytes before and behind it, and the length.
pub set_uint32-contents :
    (offset val : ℕ) (b : Buffer)
    → IsValid b
    → offset + 4 ≤ b.len
    → Ensures
        (λ r.
          (r.0 ≡ true)
          × IsValid r.1
          × (r.1.len ≡ b.len)
          × (contents r.1 ≡ splice (contents b) offset (encode_uint32 val)))
        (set_uint32 offset val b)
unfolding encode_uint32
set_uint32-contents offset val b v h =
    rw (set_uint32-done offset val b h (omega (arith, v.sized, v.within))) (
      refl,
      record {
        sized =
            length-splice b.buf offset (encode_uint32 val) (omega (arith, v.sized, v.within))
            ∙ v.sized;
        within = v.within;
        fits = v.fits;
        owned = v.owned;
      },
      refl,
      take-splice b.len offset b.buf (encode_uint32 val) h,
    )

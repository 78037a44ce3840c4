-- ===== src/Egg/Buffer/StringTrip.antt =====
-- Strings of egg/egg-buffer.c: what add_string appends, and what get_string makes of it.
use gcr.Shared.{
  ℕ, ◌+◌, ◌^◌, ◌≤◌, ◌<◌, ◌≡◌, refl, false, true, Option, none, some, List, [], ◌∷◌, ◌++◌, length,
  take, drop, drop-append, append_assoc, arith, ◌∙◌, sym, length-append, take-append, take_all,
  lt→leb_false, ne→==_false,
}
use gcr.Egg.Buffer.Memory.{Allocator, IsAllocator, Buffer, done, ◌+size◌}
use gcr.Egg.Buffer.Storage.{append}
use gcr.Egg.Buffer.Numbers.{encode_uint32, add_uint32}
use gcr.Egg.Buffer.Strings.{
  Bytes, null_len, len_limit, has_byte, string_allocator, terminate, add_string, get_string,
}
use gcr.Egg.Buffer.Valid.{IsValid, contents}
use gcr.Egg.Buffer.Access.{splice, poke-done, length-splice, take-splice_end}
use gcr.Egg.Buffer.Writes.{IsWritten, Writes, append-Writes, and_then-Writes, length-contents}
use gcr.Egg.Buffer.NumberWrites.{add_uint32-Writes, is_outside-false}
use gcr.Egg.Buffer.Reads.{peek-contents}
use gcr.Egg.Buffer.RoundTrip.{
  encode_array, IsShort, get_uint32_found, length-encode_uint32, written_behind,
}

pub add_string-Writes : (str : Bytes) → IsShort str → Writes (encode_array str) (add_string str)
unfolding add_string
add_string-Writes none h b v small = add_uint32-Writes null_len b v small
add_string-Writes (some str) h b v small = rw (lt→leb_false len_limit (length str) h) (
    and_then-Writes (encode_uint32 (length str)) str (add_uint32 (length str)) (append str)
      (add_uint32-Writes (length str)) (append-Writes str) b v small)

-- A block of one byte more than the string takes it and the terminator.
terminate-done :
    (block str : List ℕ) (next : ℕ) (b : Buffer)
    → length block ≡ length str + 1
    → terminate (some block) str next b ≡ done (some (some (str ++ (0 ∷ [])), next), b)
unfolding terminate
terminate-done block str next b room =
    rw
      (
        poke-done block 0 str (omega arith),
        poke-done (splice block 0 str) (length str) (0 ∷ []) fits,
        closed,
      )
      refl
  where
    fits : length str + 1 ≤ length (splice block 0 str)
    fits = omega (arith, length-splice block 0 str (omega arith))

    closed : splice (splice block 0 str) (length str) (0 ∷ []) ≡ str ++ (0 ∷ [])
    closed =
        sym (
          take_all (length str + 1) (splice (splice block 0 str) (length str) (0 ∷ [])) (
            omega (
              arith,
              length-splice (splice block 0 str) (length str) (0 ∷ []) fits,
              length-splice block 0 str (omega arith),
            )))
        ∙ take-splice_end (length str) (splice block 0 str) (0 ∷ []) fits
        ∙ rw (take-append (length str) str (drop (length str) block) refl) refl

-- The bytes behind a length.
payload_behind :
    (c front str rest : List ℕ) (offset : ℕ)
    → offset ≡ length front
    → c ≡ front ++ (encode_uint32 (length str) ++ (str ++ rest))
    → (offset + 4 + length str ≤ length c) × (take (length str) (drop (offset + 4) c) ≡ str)
payload_behind c front str rest offset at_front e =
    let head = front ++ encode_uint32 (length str) in
    let four : offset + 4 ≡ length head = omega (
      arith,
      length-append front (encode_uint32 (length str)),
      length-encode_uint32 (length str),
    ) in
    let e' : c ≡ head ++ (str ++ rest) =
      e ∙ sym (append_assoc front (encode_uint32 (length str)) (str ++ rest)) in
    rw e' (
      omega (arith, four, length-append head (str ++ rest), length-append str rest),
      rw (drop-append (offset + 4) head (str ++ rest) four)
          (take-append (length str) str rest refl),
    )

module _ (default_allocator : Allocator) (allocator : Option Allocator) where
  module _ (b : Buffer) (v : IsValid b) (front rest : List ℕ) where
    -- A string that stands in the buffer is copied out, with its terminator.
    pub get_string_found :
        (str block : List ℕ) (offset next : ℕ)
        → length str < len_limit
        → has_byte 0 str ≡ false
        → IsAllocator (string_allocator default_allocator allocator b.allocator)
        → (string_allocator default_allocator allocator b.allocator).realloc [] (length str + 1)
          ≡ some block
        → offset ≡ length front
        → next ≡ length front + 4 + length str
        → contents b ≡ front ++ (encode_array (some str) ++ rest)
        → get_string default_allocator allocator offset b
          ≡ done (some (some (str ++ (0 ∷ [])), next), b)
    unfolding get_string
    get_string_found str block offset next short clean laws got at_front behind e =
        let n = length str in
        let e' : contents b ≡ front ++ (encode_uint32 n ++ (str ++ rest)) =
          e ∙ rw (append_assoc (encode_uint32 n) str rest) refl in
        let number =
          get_uint32_found b v front (str ++ rest) n offset (offset + 4) (omega arith) at_front
            (omega arith) e' in
        let (fits, there) = payload_behind (contents b) front str rest offset at_front e' in
        let inside : offset + 4 + n ≤ b.len = omega (arith, fits, length-contents b v) in
        let no_wrap : (offset + 4) +size n ≡ next = omega (arith, v.within, v.fits) in
        rw
          (
            number,
            ne→==_false n null_len (omega arith),
            lt→leb_false len_limit n short,
            is_outside-false (offset + 4) n b inside,
            peek-contents (offset + 4) b v n inside,
            there,
            clean,
            got,
            no_wrap,
          )
          (terminate-done block str next b (laws.sized [] (n + 1) block got))

    -- NULL is read as NULL.
    pub get_string_null :
        (offset next : ℕ)
        → offset ≡ length front
        → next ≡ length front + 4
        → contents b ≡ front ++ (encode_array none ++ rest)
        → get_string default_allocator allocator offset b ≡ done (some (none, next), b)
    unfolding get_string
    get_string_null offset next at_front behind e =
        rw (get_uint32_found b v front rest null_len offset next (omega arith) at_front behind e)
          refl

  -- On a valid buffer with room left in a size_t, a string of less than 0x7fffffff bytes, none of
  -- them NUL, that add_string wrote is what get_string reads at the old length into the block of
  -- `length str + 1` bytes that its allocator gives: the bytes and a terminator. It returns the new
  -- length as the next offset, and does not change the buffer.
  pub get_string-add_string :
      (str block : List ℕ) (b b' : Buffer)
      → IsValid b
      → b.len + length (encode_array (some str)) < 2 ^ 63
      → length str < len_limit
      → has_byte 0 str ≡ false
      → add_string (some str) b ≡ done (true, b')
      → IsAllocator (string_allocator default_allocator allocator b'.allocator)
      → (string_allocator default_allocator allocator b'.allocator).realloc [] (length str + 1)
        ≡ some block
      → get_string default_allocator allocator b.len b'
        ≡ done (some (some (str ++ (0 ∷ [])), b'.len), b')
  get_string-add_string str block b b' v small short clean e laws got =
      let w : IsWritten (encode_array (some str)) b (true, b') =
        rw e at (add_string-Writes (some str) short b v small) in
      let (old, new, behind) = written_behind (encode_array (some str)) b b' v w in
      get_string_found b' w.valid (contents b) [] str block b.len b'.len short clean laws got
        (sym old)
        (omega (
          arith,
          old,
          new,
          length-append (encode_uint32 (length str)) str,
          length-encode_uint32 (length str),
        ))
        behind

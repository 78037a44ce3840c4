-- ===== src/Egg/Buffer/Reads.antt =====
-- The readers of egg/egg-buffer.c as functions of the bytes in use alone.
use gcr.Shared.{
  ℕ, ◌+◌, ◌≤◌, ◌≡◌, refl, inl, inr, Option, none, some, List, length, take, drop, arith, leb, ◌==◌,
  if◌then◌else◌, Bool-cases, ◌∙◌, sym, ap, take-drop-take, leb→le, leb_false→lt,
}
use gcr.Egg.Buffer.Memory.{Buffer, done, ◌>>=◌, peek, ◌+size◌}
use gcr.Egg.Buffer.Storage.{failed}
use gcr.Egg.Buffer.Numbers.{
  is_outside, get_byte, first_byte, decode_uint16, get_uint16, decode_uint32, get_uint32, on_some,
}
use gcr.Egg.Buffer.Strings.{Bytes, null_len, len_limit, get_byte_array, byte_array_at}
use gcr.Egg.Buffer.Valid.{IsValid, contents}
use gcr.Egg.Buffer.Access.{peek-done}
use gcr.Egg.Buffer.Writes.{length-contents}
use gcr.Egg.Buffer.NumberWrites.{is_outside-false, is_outside-true}

-- The `n` bytes at `offset`, decoded, and the offset behind them.
abbrev pub field_at : ℕ → (List ℕ → ℕ) → List ℕ → ℕ → Option (ℕ × ℕ)
field_at n decode c offset =
    if leb (offset + n) (length c) then some (decode (take n (drop offset c)), offset + n) else none

-- What a reader returns: a refusal counts as a failure, and a value leaves the buffer as it is.
abbrev pub answer {ℓ} : {A : Type ℓ} → Option A → Buffer → Option A × Buffer
answer none b = (none, failed b)
answer (some a) b = (some a, b)

module _ (offset : ℕ) (b : Buffer) (v : IsValid b) where
  -- A peek inside of the bytes in use reads those.
  pub peek-contents :
      (n : ℕ) → offset + n ≤ b.len → peek b.buf offset n ≡ done (take n (drop offset (contents b)))
  peek-contents n h =
      peek-done b.buf offset n (omega (arith, v.sized, v.within))
      ∙ ap done (sym (take-drop-take n offset b.len b.buf h))

  -- The shape that the readers of one number share.
  reader-answer :
      (n : ℕ) (decode : List ℕ → ℕ)
      → n ≤ 8
      → (if is_outside offset n b
          then done (none, failed b)
          else (peek b.buf offset n >>= λ bytes. done (some (decode bytes, offset +size n), b)))
        ≡ done (answer (field_at n decode (contents b) offset) b)
  reader-answer n decode small = elim (Bool-cases (leb (offset + n) (length (contents b)))) [
    | inl fits ↦
        let h : offset + n ≤ b.len = omega (arith, leb→le _ _ fits, length-contents b v) in
        let no_wrap : offset +size n ≡ offset + n = omega (arith, v.within, v.fits) in
        rw (fits, is_outside-false offset n b h, peek-contents n h, no_wrap) refl
    | inr cut ↦
        rw
          (
            cut,
            is_outside-true offset n b (omega (arith, leb_false→lt _ _ cut, length-contents b v)),
          )
          refl
  ]

  pub get_byte-answer :
      get_byte offset b ≡ done (answer (field_at 1 first_byte (contents b) offset) b)
  unfolding get_byte
  get_byte-answer = reader-answer 1 first_byte (omega arith)

  pub get_uint16-answer :
      get_uint16 offset b ≡ done (answer (field_at 2 decode_uint16 (contents b) offset) b)
  unfolding get_uint16
  get_uint16-answer = reader-answer 2 decode_uint16 (omega arith)

  pub get_uint32-answer :
      get_uint32 offset b ≡ done (answer (field_at 4 decode_uint32 (contents b) offset) b)
  unfolding get_uint32
  get_uint32-answer = reader-answer 4 decode_uint32 (omega arith)

-- A length-prefixed array in a list of bytes, and the offset behind it.
abbrev pub array_behind : List ℕ → ℕ × ℕ → Option (Bytes × ℕ)
array_behind c (n, offset) =
    if n == null_len
    then some (none, offset)
    else if leb len_limit n
    then none
    else if leb (offset + n) (length c)
    then some (some (take n (drop offset c)), offset + n)
    else none

abbrev pub array_of : List ℕ → Option (ℕ × ℕ) → Option (Bytes × ℕ)
array_of c none = none
array_of c (some head) = array_behind c head

abbrev pub array_at : List ℕ → ℕ → Option (Bytes × ℕ)
array_at c offset = array_of c (field_at 4 decode_uint32 c offset)

module _ (b : Buffer) (v : IsValid b) where
  byte_array_at-answer :
      (n offset : ℕ)
      → byte_array_at (n, offset) b ≡ done (answer (array_behind (contents b) (n, offset)) b)
  unfolding byte_array_at
  byte_array_at-answer n offset = elim (Bool-cases (n == null_len)) [
    | inl null ↦ rw null refl
    | inr some_len ↦ elim (Bool-cases (leb len_limit n)) [
      | inl long ↦ rw (some_len, long) refl
      | inr short ↦ elim (Bool-cases (leb (offset + n) (length (contents b)))) [
        | inl fits ↦
            let h : offset + n ≤ b.len = omega (arith, leb→le _ _ fits, length-contents b v) in
            let no_wrap : offset +size n ≡ offset + n = omega (arith, v.within, v.fits) in
            rw
              (
                some_len,
                short,
                fits,
                is_outside-false offset n b h,
                peek-contents offset b v n h,
                no_wrap,
              )
              refl
        | inr cut ↦
            rw
              (
                some_len,
                short,
                cut,
                is_outside-true offset n b
                    (omega (arith, leb_false→lt _ _ cut, length-contents b v)),
              )
              refl
      ]
    ]
  ]

  -- The array is read after its length, from the same buffer.
  array-answer :
      (head : Option (ℕ × ℕ))
      → on_some byte_array_at (answer head b) ≡ done (answer (array_of (contents b) head) b)
  array-answer none = refl
  array-answer (some (n, offset)) = byte_array_at-answer n offset

  -- get_byte_array reads a valid buffer as its contents are read by `array_at`, at any offset, and does
  -- not fault. It fails exactly where the field is not there, where the field announces from
  -- 0x7fffffff to 0xfffffffe bytes, or where fewer bytes stand behind it than announced. A failure is
  -- counted in the buffer, which is else as it was.
  pub get_byte_array-answer :
      (offset : ℕ) → get_byte_array offset b ≡ done (answer (array_at (contents b) offset) b)
  unfolding get_byte_array
  get_byte_array-answer offset =
      rw (get_uint32-answer offset b v)
        (array-answer (field_at 4 decode_uint32 (contents b) offset))

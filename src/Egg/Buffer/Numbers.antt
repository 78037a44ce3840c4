-- ===== src/Egg/Buffer/Numbers.antt =====
-- The bytes and big-endian numbers of egg/egg-buffer.c. Every caller's out parameters are filled: a
-- reader returns the value and the offset behind it, and `none` where the source returns 0.
-- `x >> k & 0xff` is `x / 2 ^ k % 256`.
use gcr.Shared.{
  ℕ, ◌*◌, ◌-◌, ◌/◌, ◌%◌, ◌^◌, Bool, true, false, ◌||◌, Option, none, some, List, [], ◌∷◌, ltb,
  if◌then◌else◌, bit_or,
}
use gcr.Egg.Buffer.Memory.{Buffer, Run, done, ◌>>=◌, peek, poke, ◌+size◌}
use gcr.Egg.Buffer.Storage.{failed, reserve, if_reserved, copy_in}

-- buffer->len < n || offset > buffer->len - n
abbrev pub is_outside : ℕ → ℕ → Buffer → Bool
is_outside offset n b = ltb b.len n || ltb (b.len - n) offset

-- buffer->buf[buffer->len] = val; buffer->len++
unfoldable pub add_byte : ℕ → Buffer → Run (Bool × Buffer)
add_byte val b = if_reserved (copy_in (val ∷ [])) (reserve (b.len +size 1) b)

unfoldable pub first_byte : List ℕ → ℕ
first_byte [] = 0
first_byte (x ∷ _) = x

unfoldable pub get_byte : ℕ → Buffer → Run (Option (ℕ × ℕ) × Buffer)
unfolding first_byte
get_byte offset b =
    if is_outside offset 1 b
    then done (none, failed b)
    else (do bytes ← peek b.buf offset 1; done (some (first_byte bytes, offset +size 1), b))

unfoldable pub encode_uint16 : ℕ → List ℕ
encode_uint16 val = (val / 2 ^ 8 % 256) ∷ (val % 256) ∷ []

-- The cases of other lengths do not arise: a reader takes two bytes.
unfoldable pub decode_uint16 : List ℕ → ℕ
decode_uint16 (x ∷ y ∷ []) = bit_or (x * 2 ^ 8) y % 2 ^ 16
decode_uint16 _ = 0

unfoldable pub set_uint16 : ℕ → ℕ → Buffer → Run (Bool × Buffer)
set_uint16 offset val b =
    if is_outside offset 2 b
    then done (false, failed b)
    else (do block ← poke b.buf offset (encode_uint16 val); done (true, record b { buf = block }))

-- The result of the write into the new room is dropped.
abbrev pub succeed : Bool × Buffer → Run (Bool × Buffer)
succeed (_, b) = done (true, b)

unfoldable pub put_uint16 : ℕ → Buffer → Run (Bool × Buffer)
put_uint16 val b =
    let b' = record b { len = b.len +size 2 } in set_uint16 (b'.len - 2) val b' >>= succeed

unfoldable pub add_uint16 : ℕ → Buffer → Run (Bool × Buffer)
unfolding put_uint16
add_uint16 val b = if_reserved (put_uint16 val) (reserve (b.len +size 2) b)

unfoldable pub get_uint16 : ℕ → Buffer → Run (Option (ℕ × ℕ) × Buffer)
get_uint16 offset b =
    if is_outside offset 2 b
    then done (none, failed b)
    else (do bytes ← peek b.buf offset 2; done (some (decode_uint16 bytes, offset +size 2), b))

unfoldable pub encode_uint32 : ℕ → List ℕ
encode_uint32 val =
    (val / 2 ^ 24 % 256) ∷ (val / 2 ^ 16 % 256) ∷ (val / 2 ^ 8 % 256) ∷ (val % 256) ∷ []

unfoldable pub decode_uint32 : List ℕ → ℕ
decode_uint32 (x ∷ y ∷ z ∷ w ∷ []) =
    bit_or (bit_or (bit_or (x * 2 ^ 24) (y * 2 ^ 16)) (z * 2 ^ 8)) w
decode_uint32 _ = 0

unfoldable pub set_uint32 : ℕ → ℕ → Buffer → Run (Bool × Buffer)
set_uint32 offset val b =
    if is_outside offset 4 b
    then done (false, failed b)
    else (do block ← poke b.buf offset (encode_uint32 val); done (true, record b { buf = block }))

unfoldable pub put_uint32 : ℕ → Buffer → Run (Bool × Buffer)
put_uint32 val b =
    let b' = record b { len = b.len +size 4 } in set_uint32 (b'.len - 4) val b' >>= succeed

unfoldable pub add_uint32 : ℕ → Buffer → Run (Bool × Buffer)
unfolding put_uint32
add_uint32 val b = if_reserved (put_uint32 val) (reserve (b.len +size 4) b)

unfoldable pub get_uint32 : ℕ → Buffer → Run (Option (ℕ × ℕ) × Buffer)
get_uint32 offset b =
    if is_outside offset 4 b
    then done (none, failed b)
    else (do bytes ← peek b.buf offset 4; done (some (decode_uint32 bytes, offset +size 4), b))

-- `if (!first) return 0; return second`
infixl 6 ◌and_then◌
abbrev pub ◌and_then◌ :
    (Buffer → Run (Bool × Buffer)) → (Buffer → Run (Bool × Buffer)) → Buffer → Run (Bool × Buffer)
◌and_then◌ first second b = first b >>= if_reserved second

unfoldable pub add_uint64 : ℕ → Buffer → Run (Bool × Buffer)
add_uint64 val = add_uint32 (val / 2 ^ 32 % 2 ^ 32) and_then add_uint32 (val % 2 ^ 32)

-- What a reader does with the value and the offset behind it; a failure is passed on.
abbrev pub on_some {ℓ κ} :
    {A : Type ℓ} {B : Type κ}
    → (A × ℕ → Buffer → Run (Option B × Buffer))
    → Option (A × ℕ) × Buffer
    → Run (Option B × Buffer)
on_some next (none, b) = done (none, b)
on_some next (some found, b) = next found b

unfoldable pub get_uint64 : ℕ → Buffer → Run (Option (ℕ × ℕ) × Buffer)
get_uint64 offset b =
    get_uint32 offset b
    >>= on_some (λ (x, offset') b'.
      get_uint32 offset' b'
      >>= on_some (λ (y, offset'') b''. done (some (bit_or (x * 2 ^ 32) y, offset''), b'')))

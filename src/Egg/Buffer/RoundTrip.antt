-- ===== src/Egg/Buffer/RoundTrip.antt =====
-- What the readers of egg/egg-buffer.c find where its writers wrote.
use gcr.Shared.{
  ℕ, ◌+◌, ◌*◌, ◌/◌, ◌%◌, ◌^◌, ◌<◌, ◌≡◌, refl, true, none, some, List, [], ◌∷◌, ◌++◌, length, arith,
  ne→==_false, ◌∙◌, sym, ap, bit_or-add, length-append, take-append, drop-append, append_assoc,
  append-nil, le→leb, lt→leb_false,
}
use gcr.Egg.Buffer.Memory.{Buffer, done, Ensures}
use gcr.Egg.Buffer.Numbers.{
  encode_uint16, decode_uint16, encode_uint32, decode_uint32, get_uint32, add_uint32,
}
use gcr.Egg.Buffer.Storage.{append}
use gcr.Egg.Buffer.Strings.{Bytes, null_len, len_limit, add_byte_array, get_byte_array}
use gcr.Egg.Buffer.Valid.{IsValid, contents}
use gcr.Egg.Buffer.Writes.{IsWritten, len_after, append-Writes, and_then-Writes, length-contents}
use gcr.Egg.Buffer.NumberWrites.{add_uint32-Writes}
use gcr.Egg.Buffer.Reads.{
  field_at, array_behind, array_at, get_uint32-answer, get_byte_array-answer,
}

pub decode_uint16-encode_uint16 : (val : ℕ) → val < 2 ^ 16 → decode_uint16 (encode_uint16 val) ≡ val
unfolding decode_uint16 encode_uint16
decode_uint16-encode_uint16 val h =
    let x = val / 2 ^ 8 % 256 in
    omega (arith, bit_or-add 8 x (x * 2 ^ 8) (val % 256) refl (omega arith))

-- Four bytes are the digits of their number, to the base 256.
pub decode_uint32-sum :
    (x y z w : ℕ)
    → x < 256
    → y < 256
    → z < 256
    → w < 256
    → decode_uint32 (x ∷ y ∷ z ∷ w ∷ []) ≡ x * 2 ^ 24 + y * 2 ^ 16 + z * 2 ^ 8 + w
unfolding decode_uint32
decode_uint32-sum x y z w hx hy hz hw =
    let e1 = bit_or-add 24 x (x * 2 ^ 24) (y * 2 ^ 16) refl (omega arith) in
    let e2 =
      bit_or-add 16 (x * 2 ^ 8 + y) (x * 2 ^ 24 + y * 2 ^ 16) (z * 2 ^ 8) (omega arith)
        (omega arith) in
    let e3 =
      bit_or-add 8 (x * 2 ^ 16 + y * 2 ^ 8 + z) (x * 2 ^ 24 + y * 2 ^ 16 + z * 2 ^ 8) w
        (omega arith) (omega arith) in
    rw (e1, e2) e3

pub decode_uint32-encode_uint32 : (val : ℕ) → val < 2 ^ 32 → decode_uint32 (encode_uint32 val) ≡ val
unfolding encode_uint32
decode_uint32-encode_uint32 val h =
    decode_uint32-sum (val / 2 ^ 24 % 256) (val / 2 ^ 16 % 256) (val / 2 ^ 8 % 256) (val % 256)
      (omega arith) (omega arith) (omega arith) (omega arith)
    ∙ omega arith

pub length-encode_uint32 : (val : ℕ) → length (encode_uint32 val) ≡ 4
unfolding encode_uint32
length-encode_uint32 val = refl

-- A field that stands behind `front` is found at its length.
field_behind :
    (n : ℕ) (decode : List ℕ → ℕ) (front field rest : List ℕ)
    → length field ≡ n
    → field_at n decode (front ++ (field ++ rest)) (length front)
      ≡ some (decode field, length front + n)
field_behind n decode front field rest e =
    rw
      (
        le→leb (length front + n) (length (front ++ (field ++ rest)))
            (omega (arith, length-append front (field ++ rest), length-append field rest)),
        drop-append (length front) front (field ++ rest) refl,
        take-append n field rest (sym e),
      )
      refl

pub uint32_behind :
    (front rest : List ℕ) (val : ℕ)
    → val < 2 ^ 32
    → field_at 4 decode_uint32 (front ++ (encode_uint32 val ++ rest)) (length front)
      ≡ some (val, length front + 4)
uint32_behind front rest val h =
    rw
      (
        field_behind 4 decode_uint32 front (encode_uint32 val) rest (length-encode_uint32 val),
        decode_uint32-encode_uint32 val h,
      )
      refl

-- A byte array on the wire.
abbrev pub encode_array : Bytes → List ℕ
encode_array none = encode_uint32 null_len
encode_array (some val) = encode_uint32 (length val) ++ val

-- What get_byte_array can read back.
abbrev pub IsShort : Bytes → Type 0
IsShort none = Unit {0}
IsShort (some val) = length val < len_limit

array_behind_found :
    (head val rest : List ℕ) (offset : ℕ)
    → offset ≡ length head
    → length val < len_limit
    → array_behind (head ++ (val ++ rest)) (length val, offset)
      ≡ some (some val, offset + length val)
array_behind_found head val rest offset e h =
    rw
      (
        ne→==_false (length val) null_len (omega arith),
        lt→leb_false len_limit (length val) h,
        le→leb (offset + length val) (length (head ++ (val ++ rest)))
            (omega (arith, length-append head (val ++ rest), length-append val rest)),
        drop-append offset head (val ++ rest) e,
        take-append (length val) val rest refl,
      )
      refl

array_found :
    (front rest : List ℕ) (val : Bytes)
    → IsShort val
    → array_at (front ++ (encode_array val ++ rest)) (length front)
      ≡ some (val, length front + length (encode_array val))
array_found front rest none h =
    rw (uint32_behind front rest null_len (omega arith), length-encode_uint32 null_len) refl
array_found front rest (some val) h =
    let n = length val in
    let head = front ++ encode_uint32 n in
    let whole = front ++ (encode_uint32 n ++ (val ++ rest)) in
    let four : length head ≡ length front + 4 =
      length-append front (encode_uint32 n) ∙ rw (length-encode_uint32 n) refl in
    let size : length (encode_uint32 n ++ val) ≡ 4 + n =
      length-append (encode_uint32 n) val ∙ rw (length-encode_uint32 n) refl in
    let found : array_behind whole (n, length front + 4) ≡ some (some val, length front + 4 + n) =
      rw (append_assoc front (encode_uint32 n) (val ++ rest)) at
        (array_behind_found head val rest (length front + 4) (sym four) h) in
    rw
      (
        append_assoc (encode_uint32 n) val rest,
        uint32_behind front (val ++ rest) n (omega arith),
        found,
        size,
      )
      (ap (λ (k : ℕ). some (some val, k)) (omega arith))

module _ (b : Buffer) (v : IsValid b) (front rest : List ℕ) where
  -- A number that stands in the buffer is read, and the buffer is left as it is.
  pub get_uint32_found :
      (val offset next : ℕ)
      → val < 2 ^ 32
      → offset ≡ length front
      → next ≡ length front + 4
      → contents b ≡ front ++ (encode_uint32 val ++ rest)
      → get_uint32 offset b ≡ done (some (val, next), b)
  get_uint32_found val offset next h at_front behind e =
      rw (at_front, behind)
        (get_uint32-answer (length front) b v ∙ rw (e, uint32_behind front rest val h) refl)

  -- So is a byte array, NULL included.
  pub get_byte_array_found :
      (val : Bytes) (offset next : ℕ)
      → IsShort val
      → offset ≡ length front
      → next ≡ length front + length (encode_array val)
      → contents b ≡ front ++ (encode_array val ++ rest)
      → get_byte_array offset b ≡ done (some (val, next), b)
  get_byte_array_found val offset next h at_front behind e =
      rw (at_front, behind)
        (get_byte_array-answer b v (length front) ∙ rw (e, array_found front rest val h) refl)

-- From a valid buffer, and where the total stays below 2^63, add_byte_array of an array (or NULL)
-- of less than 0x7fffffff bytes does not fault and leaves a valid buffer with the same allocator.
-- If it succeeds, exactly the length field and the bytes are appended, and no failure is counted; if
-- it fails, a front part of them is. It succeeds where the block has room for all and one byte more.
pub add_byte_array-IsWritten :
    (val : Bytes) (b : Buffer)
    → IsShort val
    → IsValid b
    → b.len + length (encode_array val) < 2 ^ 63
    → Ensures (IsWritten (encode_array val) b) (add_byte_array val b)
unfolding add_byte_array
add_byte_array-IsWritten none b h v small = add_uint32-Writes null_len b v small
add_byte_array-IsWritten (some val) b h v small = rw (lt→leb_false len_limit (length val) h) (
    and_then-Writes (encode_uint32 (length val)) val (add_uint32 (length val)) (append val)
      (add_uint32-Writes (length val)) (append-Writes val) b v small)

-- After a writer succeeded, its bytes stand at the old length.
pub written_behind :
    (s : List ℕ) (b b' : Buffer)
    → IsValid b
    → Ensures (IsWritten s b) (done (true, b'))
    → (length (contents b) ≡ b.len)
      × (b'.len ≡ b.len + length s)
      × (contents b' ≡ contents b ++ (s ++ []))
written_behind s b b' v w =
    (length-contents b v, len_after s b b' v w, w.appended.0 ∙ rw append-nil refl)

-- On a valid buffer with room left in a size_t, what add_uint32 wrote is what get_uint32 reads at
-- the old length; it returns the new length as the next offset, and does not change the buffer.
pub get_uint32-add_uint32 :
    (val : ℕ) (b b' : Buffer)
    → IsValid b
    → b.len + 4 < 2 ^ 63
    → val < 2 ^ 32
    → add_uint32 val b ≡ done (true, b')
    → get_uint32 b.len b' ≡ done (some (val, b'.len), b')
get_uint32-add_uint32 val b b' v small h e =
    let w : IsWritten (encode_uint32 val) b (true, b') =
      rw e at (add_uint32-Writes val b v (rw (length-encode_uint32 val) small)) in
    let (old, new, behind) = written_behind (encode_uint32 val) b b' v w in
    get_uint32_found b' w.valid (contents b) [] val b.len b'.len h (sym old)
      (omega (arith, old, new, length-encode_uint32 val)) behind

-- On a valid buffer with room left in a size_t, an array (or NULL) of less than 0x7fffffff bytes
-- that add_byte_array wrote is what get_byte_array reads at the old length; it returns the new
-- length as the next offset, and does not change the buffer.
pub get_byte_array-add_byte_array :
    (val : Bytes) (b b' : Buffer)
    → IsValid b
    → b.len + length (encode_array val) < 2 ^ 63
    → IsShort val
    → add_byte_array val b ≡ done (true, b')
    → get_byte_array b.len b' ≡ done (some (val, b'.len), b')
get_byte_array-add_byte_array val b b' v small h e =
    let w : IsWritten (encode_array val) b (true, b') =
      rw e at (add_byte_array-IsWritten val b h v small) in
    let (old, new, behind) = written_behind (encode_array val) b b' v w in
    get_byte_array_found b' w.valid (contents b) [] val b.len b'.len h (sym old)
      (omega (arith, old, new)) behind

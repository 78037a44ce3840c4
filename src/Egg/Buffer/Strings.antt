-- ===== src/Egg/Buffer/Strings.antt =====
-- The length-prefixed byte arrays and strings of egg/egg-buffer.c. A pointer that is NULL is `none`;
-- a C string that is written is the list of its bytes before the terminator.
use gcr.Shared.{
  ℕ, zero, suc, ◌*◌, ◌+◌, ◌-◌, ◌/◌, ◌%◌, ◌^◌, Bool, true, false, ◌||◌, Option, none, some, List, [],
  ◌∷◌, length, ltb, leb, ◌==◌, if◌then◌else◌,
}
use gcr.Egg.Buffer.Memory.{Allocator, Buffer, Run, done, fault, ◌>>=◌, peek, poke, ◌+size◌}
use gcr.Egg.Buffer.Storage.{failed, append, add_empty}
use gcr.Egg.Buffer.Numbers.{add_uint32, get_uint32, ◌and_then◌, on_some}

-- The length that stands for NULL, and the first length that is refused.
abbrev pub null_len : ℕ
null_len = 0xffffffff

abbrev pub len_limit : ℕ
len_limit = 0x7fffffff

unfoldable pub add_byte_array : Option (List ℕ) → Buffer → Run (Bool × Buffer)
add_byte_array none b = add_uint32 null_len b
add_byte_array (some val) b =
    if leb len_limit (length val)
    then done (false, failed b)
    else (add_uint32 (length val) and_then append val) b

-- The room for `vlen` bytes, by its offset.
unfoldable pub add_byte_array_empty : ℕ → Buffer → Run (Option ℕ × Buffer)
add_byte_array_empty vlen b =
    if leb len_limit vlen
    then done (none, failed b)
    else (do (ok, b') ← add_uint32 vlen b; if ok then done (add_empty vlen b') else done (none, b'))

-- buffer->len < len || offset > buffer->len - len
abbrev pub is_cut : ℕ → ℕ → Buffer → Bool
is_cut offset n b = ltb b.len n || ltb (b.len - n) offset

-- The bytes that `val` points to, with NULL as `none`, and the next offset; `vlen` is their number.
abbrev pub Bytes : Type 0
Bytes = Option (List ℕ)

unfoldable pub byte_array_at : ℕ × ℕ → Buffer → Run (Option (Bytes × ℕ) × Buffer)
byte_array_at (n, offset) b =
    if n == null_len
    then done (some (none, offset), b)
    else if leb len_limit n
    then done (none, failed b)
    else if is_cut offset n b
    then done (none, failed b)
    else (do val ← peek b.buf offset n; done (some (some val, offset +size n), b))

unfoldable pub get_byte_array : ℕ → Buffer → Run (Option (Bytes × ℕ) × Buffer)
unfolding byte_array_at
get_byte_array offset b = get_uint32 offset b >>= on_some byte_array_at

-- `failures` is left alone where the string is too long.
unfoldable pub add_string : Bytes → Buffer → Run (Bool × Buffer)
add_string none b = add_uint32 null_len b
add_string (some str) b =
    if leb len_limit (length str)
    then done (false, b)
    else (add_uint32 (length str) and_then append str) b

-- memchr (bytes, c, n) != NULL
abbrev pub has_byte : ℕ → List ℕ → Bool
has_byte c [] = false
has_byte c (x ∷ xs) = x == c || has_byte c xs

module _ (default_allocator : Allocator) where
  -- The allocator given, else the buffer's, else the default.
  abbrev pub string_allocator : Option Allocator → Option Allocator → Allocator
  string_allocator (some a) own = a
  string_allocator none (some a) = a
  string_allocator none none = default_allocator

-- The new block takes the bytes and a terminator.
unfoldable pub terminate : Option (List ℕ) → List ℕ → ℕ → Buffer → Run (Option (Bytes × ℕ) × Buffer)
terminate none bytes next b = done (none, b)
terminate (some block) bytes next b = do
  filled ← poke block 0 bytes
  closed ← poke filled (length bytes) (0 ∷ [])
  done (some (some closed, next), b)

unfoldable pub string_at : Allocator → ℕ × ℕ → Buffer → Run (Option (Bytes × ℕ) × Buffer)
unfolding terminate
string_at a (n, offset) b =
    if n == null_len
    then done (some (none, offset), b)
    else if leb len_limit n
    then done (none, b)
    else if is_cut offset n b
    then done (none, b)
    else (do
      bytes ← peek b.buf offset n
      if has_byte 0 bytes
          then done (none, b)
          else terminate (a.realloc [] (n + 1)) bytes (offset +size n) b)

module _ (default_allocator : Allocator) where
  -- The string is returned as its block, terminator included.
  unfoldable pub get_string : Option Allocator → ℕ → Buffer → Run (Option (Bytes × ℕ) × Buffer)
  unfolding string_at
  get_string allocator offset b =
      get_uint32 offset b
      >>= on_some (string_at (string_allocator default_allocator allocator b.allocator))

unfoldable pub add_strings : List (List ℕ) → Buffer → Run (Bool × Buffer)
add_strings [] b = done (true, b)
add_strings (str ∷ rest) b = (add_string (some str) and_then add_strings rest) b

-- The count is a uint32_t.
unfoldable pub add_stringv : Option (List (List ℕ)) → Buffer → Run (Bool × Buffer)
unfolding add_strings
add_stringv none b = done (false, b)
add_stringv (some strv) b = (add_uint32 (length strv % 2 ^ 32) and_then add_strings strv) b

module _ (default_allocator : Allocator) where
  -- Strings `i`, ..., of `slots` pointers; a pointer is written before the next string is read.
  get_strings : ℕ → ℕ → ℕ → Allocator → ℕ → Buffer → Run (Option (List Bytes × ℕ) × Buffer)
  get_strings zero i slots a offset b = done (some ([], offset), b)
  get_strings (suc k) i slots a offset b =
      get_string default_allocator (some a) offset b
      >>= on_some (λ (str, offset') b'.
        if ltb i slots
        then get_strings k (i + 1) slots a offset' b'
          >>= on_some (λ (rest, next) b''. done (some (str ∷ rest, next), b''))
        else fault)

  stringv_into :
      Option (List ℕ) → ℕ → Allocator → ℕ → Buffer → Run (Option (List Bytes × ℕ) × Buffer)
  unfolding get_strings
  stringv_into none n a offset b = done (none, b)
  stringv_into (some block) n a offset b = get_strings n 0 (length block / 8) a offset b

  -- `n + 1` is computed in 32 bits, the product with the size of a pointer in 64.
  unfoldable pub get_stringv :
      Option Allocator → ℕ → Buffer → Run (Option (List Bytes × ℕ) × Buffer)
  unfolding stringv_into
  get_stringv allocator offset b =
      let a = string_allocator default_allocator allocator b.allocator in
      get_uint32 offset b
      >>= on_some (λ (n, offset') b'.
        stringv_into (a.realloc [] ((n + 1) % 2 ^ 32 * 8 % 2 ^ 64)) n a offset' b')

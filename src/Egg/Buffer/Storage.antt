-- ===== src/Egg/Buffer/Storage.antt =====
-- The life of a buffer in egg/egg-buffer.c: init to uninit, and the growth of its block. A function
-- that changes the buffer returns the new one behind its result.
use gcr.Shared.{
  ℕ, ◌*◌, ◌+◌, ◌%◌, ◌^◌, Bool, true, false, Option, none, some, List, [], length, replicate, ltb,
  ◌==◌, if◌then◌else◌, same_bytes,
}
use gcr.Egg.Buffer.Memory.{Allocator, Buffer, Run, done, ◌>>=◌, peek, poke, ◌+size◌}

-- memset (buffer, 0, sizeof (*buffer))
abbrev pub zeroed : Buffer
zeroed = record { buf = []; len = 0; allocated_len = 0; failures = 0; allocator = none }

-- buffer->failures++
abbrev pub failed : Buffer → Buffer
failed b = record b { failures = b.failures + 1 }

-- buffer->allocator == allocator
unfoldable pub is_current : Option Allocator → Allocator → Bool
is_current none a = false
is_current (some c) a = c.id == a.id

unfoldable pub copy_block : Option (List ℕ) → Allocator → Buffer → Run (Bool × Buffer)
copy_block none a b = done (false, b)
copy_block (some block) a b = do
  old ← peek b.buf 0 b.allocated_len
  new ← poke block 0 old
  done (true, record b { buf = new; allocator = some a })

module _ (default_allocator : Allocator) where
  abbrev pub or_default : Option Allocator → Allocator
  or_default none = default_allocator
  or_default (some a) = a

  init_block : Option (List ℕ) → ℕ → Allocator → Bool × Buffer
  init_block none n a = (false, failed zeroed)
  init_block (some block) n a =
      (true, record zeroed { buf = block; allocated_len = n; allocator = some a })

  unfoldable pub init_full : ℕ → Option Allocator → Bool × Buffer
  unfolding init_block
  init_full reserve allocator =
      let a = or_default allocator in
      let n = if reserve == 0 then 64 else reserve in init_block (a.realloc [] n) n a

  unfoldable pub init : ℕ → Bool × Buffer
  init reserve = init_full reserve none

  unfoldable pub init_allocated : List ℕ → ℕ → Option Allocator → Buffer
  init_allocated buf len allocator = record {
    buf = buf;
    len = len;
    allocated_len = len;
    failures = 0;
    allocator = some (or_default allocator);
  }

  -- Two allocators are one if their functions are. The old block is freed, which the buffer does
  -- not show.
  unfoldable pub set_allocator : Option Allocator → Buffer → Run (Bool × Buffer)
  unfolding copy_block is_current
  set_allocator allocator b =
      let a = or_default allocator in
      if is_current b.allocator a
      then done (true, b)
      else if b.allocated_len == 0
      then done (true, record b { buf = []; allocator = some a })
      else copy_block (a.realloc [] b.allocated_len) a b

unfoldable pub init_static : List ℕ → ℕ → Buffer
init_static buf len = record zeroed { buf = buf; len = len; allocated_len = len }

unfoldable pub reset : Buffer → Run Buffer
reset b = do
  block ← poke b.buf 0 (replicate b.allocated_len 0)
  done (record b { buf = block; len = 0; failures = 0 })

-- The block is freed if the buffer has an allocator, which the buffer does not show.
unfoldable pub uninit : Buffer → Buffer
uninit b = zeroed

-- The block, and its used length in `n_result`.
unfoldable pub uninit_steal : Buffer → (List ℕ × ℕ) × Buffer
uninit_steal b = ((b.buf, b.len), zeroed)

unfoldable pub equal : Buffer → Buffer → Run Bool
equal b1 b2 =
    if b1.len == b2.len
    then (do x ← peek b1.buf 0 b1.len; y ← peek b2.buf 0 b1.len; done (same_bytes x y))
    else done false

-- Twice the size; where that is not enough, `len` more on top of it.
unfoldable pub grown_len : ℕ → ℕ → ℕ
grown_len allocated_len len =
    let newlen = allocated_len * 2 % 2 ^ 64 in if ltb newlen len then newlen +size len else newlen

regrow : Option (List ℕ) → ℕ → Buffer → Bool × Buffer
regrow none newlen b = (false, failed b)
regrow (some newbuf) newlen b = (true, record b { buf = newbuf; allocated_len = newlen })

regrow_owned : Option Allocator → ℕ → Buffer → Bool × Buffer
unfolding regrow
regrow_owned none newlen b = (false, failed b)
regrow_owned (some a) newlen b = regrow (a.realloc b.buf newlen) newlen b

unfoldable pub reserve : ℕ → Buffer → Bool × Buffer
unfolding regrow_owned
reserve len b =
    if ltb len b.allocated_len
    then (true, b)
    else regrow_owned b.allocator (grown_len b.allocated_len len) b

-- buffer->len = len, where there is room
unfoldable pub sized_to : ℕ → Bool × Buffer → Bool × Buffer
sized_to len (true, b) = (true, record b { len = len })
sized_to len (false, b) = (false, b)

unfoldable pub resize : ℕ → Buffer → Bool × Buffer
resize len b = sized_to len (reserve len b)

-- The new room begins at the offset returned; NULL is `none`.
unfoldable pub add_empty : ℕ → Buffer → Option ℕ × Buffer
add_empty n b =
    let (ok, b') = reserve (b.len +size n) b in
    if ok then (some b.len, record b' { len = b'.len +size n }) else (none, b')

-- `if (!egg_buffer_reserve (buffer, n)) return 0;` and what follows.
abbrev pub if_reserved : (Buffer → Run (Bool × Buffer)) → Bool × Buffer → Run (Bool × Buffer)
if_reserved next (true, b) = next b
if_reserved next (false, b) = done (false, b)

-- memcpy (buffer->buf + buffer->len, val, len), and the new length
unfoldable pub copy_in : List ℕ → Buffer → Run (Bool × Buffer)
copy_in val b = do
  block ← poke b.buf b.len val
  done (true, record b { buf = block; len = b.len +size length val })

unfoldable pub append : List ℕ → Buffer → Run (Bool × Buffer)
append val b = if_reserved (copy_in val) (reserve (b.len +size length val) b)

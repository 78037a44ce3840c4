-- ===== src/Tests/Buffer.antt =====
-- egg/egg-buffer.c on small buffers.
use gcr.Shared.{◌≡◌, refl, true, none, some, [], ◌∷◌, replicate, arith}
use gcr.Egg.Buffer.Memory.{Allocator, IsAllocator, Buffer, done, poke}
use gcr.Egg.Buffer.Storage.{init_full, reserve, grown_len, copy_in, append}
use gcr.Egg.Buffer.Numbers.{encode_uint32, add_uint32, set_uint32}
use gcr.Egg.Buffer.Strings.{add_byte_array, get_byte_array, add_string, get_string}
use gcr.Egg.Buffer.Valid.{IsValid, contents}
use gcr.Egg.Buffer.Lifecycle.{owned_by}
use gcr.Egg.Buffer.Reads.{answer, array_at, get_byte_array-answer}
use gcr.Egg.Buffer.RoundTrip.{get_byte_array-add_byte_array}
use gcr.Egg.Buffer.StringTrip.{get_string-add_string}
use gcr.Tests.Allocators.{zero_filled, zero_filling, zero_filling-IsAllocator}

-- Eight bytes, none in use.
abbrev pub small : Buffer
small = record {
  buf = replicate 8 0;
  len = 0;
  allocated_len = 8;
  failures = 0;
  allocator = some zero_filling;
}

pub small-IsValid : IsValid small
small-IsValid = record {
  sized = refl;
  within = omega arith;
  fits = omega arith;
  owned = owned_by zero_filling-IsAllocator;
}

abbrev with_number : Buffer
with_number = record small { buf = 1 ∷ 2 ∷ 3 ∷ 4 ∷ 0 ∷ 0 ∷ 0 ∷ 0 ∷ []; len = 4 }

add_uint32-small : add_uint32 0x01020304 small ≡ done (true, with_number)
unfolding add_uint32 reserve grown_len set_uint32 encode_uint32 poke
add_uint32-small = refl

-- Three bytes behind their length; the seven bytes fit the block.
abbrev with_array : Buffer
with_array = record small { buf = 0 ∷ 0 ∷ 0 ∷ 3 ∷ 9 ∷ 8 ∷ 7 ∷ 0 ∷ []; len = 7 }

add_byte_array-small : add_byte_array (some (9 ∷ 8 ∷ 7 ∷ [])) small ≡ done (true, with_array)
unfolding add_byte_array add_uint32 append copy_in reserve set_uint32 encode_uint32 poke
add_byte_array-small = refl

get_byte_array-add_byte_array_example :
    get_byte_array 0 with_array ≡ done (some (some (9 ∷ 8 ∷ 7 ∷ []), 7), with_array)
get_byte_array-add_byte_array_example =
    get_byte_array-add_byte_array (some (9 ∷ 8 ∷ 7 ∷ [])) small with_array small-IsValid
      (unfold encode_uint32 in omega arith) (omega arith) add_byte_array-small

add_string-small : add_string (some (9 ∷ 8 ∷ 7 ∷ [])) small ≡ done (true, with_array)
unfolding add_string add_uint32 append copy_in reserve set_uint32 encode_uint32 poke
add_string-small = refl

get_string-add_string_example :
    get_string zero_filling none 0 with_array
    ≡ done (some (some (9 ∷ 8 ∷ 7 ∷ 0 ∷ []), 7), with_array)
get_string-add_string_example =
    get_string-add_string zero_filling none (9 ∷ 8 ∷ 7 ∷ []) (replicate 4 0) small with_array
      small-IsValid (unfold encode_uint32 in omega arith) (omega arith) refl add_string-small
      zero_filling-IsAllocator refl

with_array-IsValid : IsValid with_array
with_array-IsValid = record {
  sized = refl;
  within = omega arith;
  fits = omega arith;
  owned = owned_by zero_filling-IsAllocator;
}

get_byte_array-answer_example :
    get_byte_array 4 with_array ≡ done (answer (array_at (contents with_array) 4) with_array)
get_byte_array-answer_example = get_byte_array-answer with_array with_array-IsValid 4

abbrev made : Buffer
made = record small { buf = zero_filled [] 3; allocated_len = 3 }

init_full_three : init_full zero_filling 3 none ≡ (true, made)
unfolding init_full
init_full_three = refl

-- The same allocator at another address.
abbrev other : Allocator
other = record zero_filling { id = 8 }

other-IsAllocator : IsAllocator other
other-IsAllocator = record {
  sized = zero_filling-IsAllocator.sized;
  kept = zero_filling-IsAllocator.kept;
  fits = zero_filling-IsAllocator.fits;
}

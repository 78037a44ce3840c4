-- ===== src/Gcr/SshAgent/Overflow.antt =====
-- Length fields for which _gcr_ssh_agent_read_packet makes no room, since `packet_size + 4` wraps.
use gcr.Shared.{
  ℕ, ◌+◌, ◌*◌, ◌%◌, ◌^◌, ◌≤◌, ◌<◌, ◌≡◌, ◌∙◌, refl, sym, ap, true, some, List, [], ◌++◌, length,
  arith, replicate, length-replicate, append-nil, le→ltb_false, lt→leb_false, lt→ltb, take_all,
}
use gcr.Egg.Buffer.Memory.{Allocator, Buffer, fault, poke, ◌>>=◌}
use gcr.Egg.Buffer.Storage.{reserve, resize, sized_to}
use gcr.Egg.Buffer.Numbers.{encode_uint32, get_uint32}
use gcr.Egg.Buffer.Valid.{IsValid, contents}
use gcr.Egg.Buffer.Access.{splice}
use gcr.Egg.Buffer.Writes.{length-contents}
use gcr.Egg.Buffer.Lifecycle.{reset-cleared}
use gcr.Egg.Buffer.Granted.{IsGenerous, resize-IsResized}
use gcr.Egg.Buffer.RoundTrip.{get_uint32_found, length-encode_uint32}
use gcr.Gcr.SshAgent.Packet.{Streams, IsQuiet, read_payload, read_sized, read_packet}
use gcr.Gcr.SshAgent.Framing.{delivered, overwritten}

-- A smaller size than the block's leaves the block alone.
resize-eq_fast :
    (n : ℕ) (b : Buffer) → n < b.allocated_len → resize n b ≡ (true, record b { len = n })
unfolding resize reserve sized_to
resize-eq_fast n b h = rw (lt→ltb n b.allocated_len h) refl

module _ {Conn : Type 0} (io : Streams Conn) (pending : Conn → List ℕ)
    (quiet : IsQuiet io pending) where
  flooded :
      (n : ℕ) (c : Conn) (b : Buffer) (flood : List ℕ)
      → IsValid b
      → contents b ≡ encode_uint32 n
      → n < 2 ^ 32
      → 2 ^ 32 ≤ n + 4
      → length flood ≤ n
      → b.allocated_len < length flood + 4
      → pending c ≡ flood
      → (get_uint32 0 b >>= read_sized io c) ≡ fault
  unfolding read_sized read_payload poke
  flooded n c b flood v field word wraps long past sent =
      let four : b.len ≡ 4 = omega (
        arith,
        length-contents b v,
        ap (λ (xs : List ℕ). length xs) field,
        length-encode_uint32 n,
      ) in
      let number =
        get_uint32_found b v [] [] n 0 4 word refl refl
          (field ∙ sym (append-nil (encode_uint32 n))) in
      let m : ℕ = (n + 4) % 2 ^ 32 in
      let tiny : m < b.allocated_len = omega (arith, v.within, four) in
      let arrived : (io.read_all c n).0 ≡ (true, flood) =
        quiet.arrives c n ∙ rw (sent, take_all n flood long) refl in
      rw
        (
          number,
          le→ltb_false n 1 (omega arith),
          resize-eq_fast m b tiny,
          arrived,
          lt→leb_false (4 + length flood) (length b.buf) (omega (arith, v.sized, past)),
        )
        refl

  -- From a valid buffer whose allocator does not refuse, and on a connection without errors that has
  -- a length field of 2^32 - 4 or more to come and then at most as many bytes, but more than twice
  -- the size of the buffer's block, read_packet writes past the end of a block.
  pub read_packet_overflow :
      (n : ℕ) (c : Conn) (b : Buffer) (a : Allocator) (flood : List ℕ)
      → IsValid b
      → b.allocated_len < 2 ^ 61
      → b.allocator ≡ some a
      → IsGenerous a
      → n < 2 ^ 32
      → 2 ^ 32 ≤ n + 4
      → length flood ≤ n
      → b.allocated_len * 2 < length flood
      → pending c ≡ encode_uint32 n ++ flood
      → read_packet io c b ≡ fault
  unfolding read_packet
  read_packet_overflow n c b a flood v small own g word wraps long many sent =
      let empty = record b { buf = replicate b.allocated_len 0; len = 0; failures = 0 } in
      let fresh : IsValid empty = record {
        sized = length-replicate b.allocated_len 0;
        within = omega arith;
        fits = v.fits;
        owned = v.owned;
      } in
      let four = resize-IsResized 4 empty a fresh (omega arith) (omega arith) own g in
      let (arrived, left) =
        delivered io pending quiet 4 c (encode_uint32 n) flood (length-encode_uint32 n) sent in
      let b1 = (resize 4 empty).1 in
      let (written, valid, holds) =
        overwritten b1 0 (encode_uint32 n) four.valid
          (omega (arith, length-encode_uint32 n, four.len_set)) in
      rw
        (
          reset-cleared b v,
          arrived,
          written,
          le→ltb_false (length (encode_uint32 n)) 4 (omega (arith, length-encode_uint32 n)),
        )
        (flooded n (io.read_all c 4).1 (record b1 { buf = splice b1.buf 0 (encode_uint32 n) }) flood
          valid holds word wraps long (omega (arith, four.bounded, many)) left)

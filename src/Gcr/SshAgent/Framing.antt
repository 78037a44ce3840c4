-- ===== src/Gcr/SshAgent/Framing.antt =====
-- Packets that arrive whole: what _gcr_ssh_agent_read_packet leaves in the buffer.
use gcr.Shared.{
  ℕ, ◌+◌, ◌%◌, ◌^◌, ◌≤◌, ◌<◌, ◌≡◌, refl, true, some, List, [], ◌++◌, length, take, drop, arith, ◌∙◌,
  ap, sym, replicate, length-replicate, take-append, drop-append, le→ltb_false, append-nil,
  take_all, drop_all, length-drop,
}
use gcr.Egg.Buffer.Memory.{Allocator, Buffer, done, Ensures, ◌>>=◌, poke}
use gcr.Egg.Buffer.Storage.{resize}
use gcr.Egg.Buffer.Numbers.{encode_uint32, get_uint32}
use gcr.Egg.Buffer.Valid.{IsValid, contents}
use gcr.Egg.Buffer.Access.{splice, poke-done, length-splice, take-splice}
use gcr.Egg.Buffer.Writes.{length-contents}
use gcr.Egg.Buffer.Lifecycle.{reset-cleared}
use gcr.Egg.Buffer.Granted.{IsGenerous, resize-IsResized}
use gcr.Egg.Buffer.RoundTrip.{get_uint32_found, length-encode_uint32}
use gcr.Gcr.SshAgent.Packet.{Streams, IsQuiet, packet, read_payload, read_sized, read_packet}

-- Bytes put over the used ones, which they do not outgrow.
pub overwritten :
    (b : Buffer) (off : ℕ) (bytes : List ℕ)
    → IsValid b
    → off + length bytes ≡ b.len
    → (poke b.buf off bytes ≡ done (splice b.buf off bytes))
      × IsValid (record b { buf = splice b.buf off bytes })
      × (contents (record b { buf = splice b.buf off bytes }) ≡ take off (contents b) ++ bytes)
overwritten b off bytes v e =
    let inside : off + length bytes ≤ length b.buf = omega (arith, v.sized, v.within) in
    (
      poke-done b.buf off bytes inside,
      record {
        sized = length-splice b.buf off bytes inside ∙ v.sized;
        within = v.within;
        fits = v.fits;
        owned = v.owned;
      },
      take-splice b.len off b.buf bytes (omega arith)
          ∙ ap (λ (r : List ℕ). take off (contents b) ++ (bytes ++ r)) nothing_left
          ∙ ap (λ (r : List ℕ). take off (contents b) ++ r) (append-nil bytes),
    )
  where
    nothing_left : drop (length bytes) (drop off (contents b)) ≡ []
    nothing_left =
        drop_all (length bytes) (drop off (contents b))
          (omega (arith, length-drop off (contents b), length-contents b v, e))

module _ {Conn : Type 0} (io : Streams Conn) (pending : Conn → List ℕ)
    (quiet : IsQuiet io pending) where
  -- A read of bytes that are there.
  pub delivered :
      (n : ℕ) (c : Conn) (front rest : List ℕ)
      → length front ≡ n
      → pending c ≡ front ++ rest
      → ((io.read_all c n).0 ≡ (true, front)) × (pending (io.read_all c n).1 ≡ rest)
  delivered n c front rest size e = (
    quiet.arrives c n ∙ rw (e, take-append n front rest (sym size)) refl,
    quiet.advances c n ∙ rw (e, drop-append n front rest (sym size)) refl,
  )

  -- The payload arrives whole behind the length field.
  payload_read :
      (n : ℕ) (c : Conn) (b : Buffer) (payload rest : List ℕ)
      → IsValid b
      → b.len ≡ n + 4
      → length payload ≡ n
      → pending c ≡ payload ++ rest
      → Ensures
          (λ r.
            (r.0 ≡ packet)
            × (pending r.1 ≡ rest)
            × IsValid r.2
            × (contents r.2 ≡ take 4 (contents b) ++ payload))
          (read_payload io n c b)
  unfolding read_payload
  payload_read n c b payload rest v size whole sent =
      let (arrived, left) = delivered n c payload rest whole sent in
      let (written, valid, holds) = overwritten b 4 payload v (omega (arith, whole, size)) in
      rw (arrived, written) (refl, left, valid, holds)

  -- A length field below 2^32 - 4 makes room for itself and the payload.
  sized_read :
      (n : ℕ) (c : Conn) (b : Buffer) (a : Allocator) (payload rest : List ℕ)
      → IsValid b
      → contents b ≡ encode_uint32 n
      → b.allocated_len < 2 ^ 61
      → b.allocator ≡ some a
      → IsGenerous a
      → 1 ≤ n
      → n + 4 < 2 ^ 32
      → length payload ≡ n
      → pending c ≡ payload ++ rest
      → Ensures
          (λ r.
            (r.0 ≡ packet)
            × (pending r.1 ≡ rest)
            × IsValid r.2
            × (contents r.2 ≡ encode_uint32 n ++ payload))
          (get_uint32 0 b >>= read_sized io c)
  unfolding read_sized
  sized_read n c b a payload rest v field small own g one fits whole sent =
      let four : b.len ≡ 4 = omega (
        arith,
        length-contents b v,
        ap (λ (xs : List ℕ). length xs) field,
        length-encode_uint32 n,
      ) in
      let number =
        get_uint32_found b v [] [] n 0 4 (omega arith) refl refl
          (field ∙ sym (append-nil (encode_uint32 n))) in
      let no_wrap : (n + 4) % 2 ^ 32 ≡ n + 4 = omega arith in
      let grown = resize-IsResized (n + 4) b a v small (omega arith) own g in
      let read =
        payload_read n c (resize (n + 4) b).1 payload rest grown.valid grown.len_set whole sent in
      let first : take 4 (contents (resize (n + 4) b).1) ≡ encode_uint32 n =
        grown.kept 4 (omega arith) (omega (arith, four))
        ∙ ap (take 4) field
        ∙ take_all 4 (encode_uint32 n) (omega (arith, length-encode_uint32 n)) in
      rw (number, le→ltb_false n 1 one, no_wrap) (rw first at read)

  -- From a valid buffer of less than 2^59 bytes, whose allocator does not refuse, and on a
  -- connection without errors that has a frame to come (a length field between 1 and 2^32 - 5, and
  -- as many bytes), read_packet does not fault; it returns success, takes that frame and no more
  -- from the connection, and the buffer holds exactly the frame.
  pub read_packet_frame :
      (n : ℕ) (c : Conn) (b : Buffer) (a : Allocator) (payload rest : List ℕ)
      → IsValid b
      → b.allocated_len < 2 ^ 59
      → b.allocator ≡ some a
      → IsGenerous a
      → 1 ≤ n
      → n + 4 < 2 ^ 32
      → length payload ≡ n
      → pending c ≡ encode_uint32 n ++ (payload ++ rest)
      → Ensures
          (λ r.
            (r.0 ≡ packet)
            × (pending r.1 ≡ rest)
            × IsValid r.2
            × (contents r.2 ≡ encode_uint32 n ++ payload))
          (read_packet io c b)
  unfolding read_packet
  read_packet_frame n c b a payload rest v small own g one fits whole sent =
      let empty = record b { buf = replicate b.allocated_len 0; len = 0; failures = 0 } in
      let fresh : IsValid empty = record {
        sized = length-replicate b.allocated_len 0;
        within = omega arith;
        fits = v.fits;
        owned = v.owned;
      } in
      let four = resize-IsResized 4 empty a fresh (omega arith) (omega arith) own g in
      let (arrived, left) =
        delivered 4 c (encode_uint32 n) (payload ++ rest) (length-encode_uint32 n) sent in
      let b1 = (resize 4 empty).1 in
      let (written, valid, holds) =
        overwritten b1 0 (encode_uint32 n) four.valid
          (omega (arith, length-encode_uint32 n, four.len_set)) in
      rw
        (
          reset-cleared b v,
          arrived,
          written,
          le→ltb_false (length (encode_uint32 n)) 4 (omega (arith, length-encode_uint32 n)),
        )
        (sized_read n (io.read_all c 4).1 (record b1 { buf = splice b1.buf 0 (encode_uint32 n) }) a
          payload rest valid holds (omega (arith, four.bounded)) (four.allocator_kept ∙ own) g one
          fits whole left)

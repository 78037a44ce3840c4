-- ===== src/Gcr/SshAgent/Exchange.antt =====
-- What _gcr_ssh_agent_write_packet sends, and that _gcr_ssh_agent_read_packet of the other side
-- reads it back.
use gcr.Shared.{
  ℕ, ◌+◌, ◌-◌, ◌%◌, ◌^◌, ◌≤◌, ◌<◌, ◌≡◌, refl, sym, ap, ◌∙◌, true, false, some, List, [], ◌++◌,
  length, drop, arith, length-drop, append_assoc,
}
use gcr.Egg.Buffer.Memory.{Allocator, Buffer, done, Ensures}
use gcr.Egg.Buffer.Storage.{failed}
use gcr.Egg.Buffer.Numbers.{encode_uint32}
use gcr.Egg.Buffer.Valid.{IsValid, contents}
use gcr.Egg.Buffer.Access.{splice, peek-done}
use gcr.Egg.Buffer.Writes.{length-contents}
use gcr.Egg.Buffer.NumberWrites.{set_uint32-done, set_uint32-refused, set_uint32-contents}
use gcr.Egg.Buffer.Granted.{IsGenerous}
use gcr.Egg.Buffer.RoundTrip.{length-encode_uint32}
use gcr.Gcr.SshAgent.Packet.{Streams, IsQuiet, IsPipe, packet, read_packet, write_packet}
use gcr.Gcr.SshAgent.Framing.{read_packet_frame}

-- The packet that a buffer makes: the first four bytes are the number of the others.
abbrev pub frame : Buffer → List ℕ
frame b = encode_uint32 (b.len - 4) ++ drop 4 (contents b)

module _ {Conn : Type 0} (io : Streams Conn) where
  -- From a valid buffer with at least the four bytes of the length field, and less than 2^32 bytes,
  -- write_packet does not fault; it sends the frame of the buffer in one write, answers what the
  -- write answered, and the buffer holds the frame.
  pub write_packet-frame :
      (c : Conn) (b : Buffer)
      → IsValid b
      → 4 ≤ b.len
      → b.len < 2 ^ 32
      → Ensures
          (λ r.
            ((r.0, r.1) ≡ io.write_all c (frame b))
            × IsValid r.2
            × (r.2.len ≡ b.len)
            × (contents r.2 ≡ frame b))
          (write_packet io c b)
  unfolding write_packet
  write_packet-frame c b v four word =
      let n : ℕ = b.len - 4 in
      let no_wrap : (b.len + 2 ^ 64 - 4) % 2 ^ 64 % 2 ^ 32 ≡ n = omega arith in
      let after = record b { buf = splice b.buf 0 (encode_uint32 n) } in
      let set = set_uint32-done 0 n b four (omega (arith, v.sized, v.within)) in
      let (_, valid, _, holds) = rw set at (set_uint32-contents 0 n b v four) in
      let sent : contents after ≡ frame b =
        holds ∙ ap (λ k. encode_uint32 n ++ drop k (contents b)) (length-encode_uint32 n) in
      rw (no_wrap, set, peek-done after.buf 0 after.len (omega (arith, valid.sized, valid.within)))
        (ap (io.write_all c) sent, valid, refl, sent)

  -- A buffer with no room for the length field is not sent, and a failure is counted.
  pub write_packet_refused :
      (c : Conn) (b : Buffer) → b.len < 4 → write_packet io c b ≡ done (false, c, failed b)
  unfolding write_packet
  write_packet_refused c b h =
      rw (set_uint32-refused 0 ((b.len + 2 ^ 64 - 4) % 2 ^ 64 % 2 ^ 32) b h) refl

  -- A packet that write_packet sends without an error from a valid buffer of 5 to 2^32 - 1 bytes is what
  -- read_packet of the other end leaves in its buffer: the number of bytes behind the length field, and
  -- these bytes; the sender's buffer holds the same. Nothing was on the way before; what was written arrives at the other end, in order and
  -- without errors, and what comes behind it is left there. The receiving buffer is valid and below 2^59
  -- bytes, and its allocator does not refuse.
  pub read_packet-write_packet :
      (pending : Conn → List ℕ) (peer : Conn → Conn) (b b' recv : Buffer) (c sent c' : Conn)
      (a : Allocator) (rest : List ℕ)
      → IsQuiet io pending
      → IsPipe io pending peer
      → IsValid b
      → 5 ≤ b.len
      → b.len < 2 ^ 32
      → pending (peer c) ≡ []
      → write_packet io c b ≡ done (true, sent, b')
      → pending c' ≡ pending (peer sent) ++ rest
      → IsValid recv
      → recv.allocated_len < 2 ^ 59
      → recv.allocator ≡ some a
      → IsGenerous a
      → (contents b' ≡ frame b)
        × Ensures
            (λ r. (r.0 ≡ packet) × (pending r.1 ≡ rest) × IsValid r.2 × (contents r.2 ≡ frame b))
            (read_packet io c' recv)
  read_packet-write_packet pending peer b b' recv c sent c' a rest quiet pipe v five word idle e
        later w small own g =
      let (wrote, _, _, holds) = rw e at (write_packet-frame c b v (omega arith) word) in
      let payload : List ℕ = drop 4 (contents b) in
      let size : length payload ≡ b.len - 4 =
        length-drop 4 (contents b) ∙ ap (λ n. n - 4) (length-contents b v) in
      let came : pending (peer sent) ≡ frame b =
        ap (λ r. pending (peer r.1)) wrote
        ∙ pipe.carries c (frame b) (sym (ap (λ r. r.0) wrote))
        ∙ ap (λ xs. xs ++ frame b) idle in
      let arrives : pending c' ≡ encode_uint32 (b.len - 4) ++ (payload ++ rest) =
        later
        ∙ ap (λ (xs : List ℕ). xs ++ rest) came
        ∙ append_assoc (encode_uint32 (b.len - 4)) payload rest in
      (
        holds,
        read_packet_frame io pending quiet (b.len - 4) c' recv a payload rest w small own g
            (omega arith) (omega arith) size arrives,
      )

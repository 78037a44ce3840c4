-- ===== src/Gcr/SshAgent/Packet.antt =====
-- _gcr_ssh_agent_read_packet, _gcr_ssh_agent_write_packet and _gcr_ssh_agent_call of
-- gcr/gcr-ssh-agent-util.c.
use gcr.Shared.{
  ℕ, ◌+◌, ◌-◌, ◌%◌, ◌^◌, ◌≡◌, Bool, true, false, Option, none, some, List, ◌++◌, length, take, drop,
  ltb, if◌then◌else◌,
}
use gcr.Egg.Buffer.Memory.{Buffer, Run, done, ◌>>=◌, peek, poke}
use gcr.Egg.Buffer.Storage.{reset, resize}
use gcr.Egg.Buffer.Numbers.{get_uint32, set_uint32}

-- The streams of GIO. A read of `n` bytes says whether it met no error, and gives the bytes that
-- arrived before the count was full, the peer closed or an error came.
pub record Streams (Conn : Type 0) : Type 0 where
  pub read_all : Conn → ℕ → (Bool × List ℕ) × Conn
  pub write_all : Conn → List ℕ → Bool × Conn

-- A connection on which no error comes: what the peer still sends arrives in order.
pub record IsQuiet {Conn : Type 0} (io : Streams Conn) (pending : Conn → List ℕ) : Type 0 where
  pub arrives : (c : Conn) (n : ℕ) → (io.read_all c n).0 ≡ (true, take n (pending c))
  pub advances : (c : Conn) (n : ℕ) → pending (io.read_all c n).1 ≡ drop n (pending c)

-- Two ends of a connection: what one end writes without an error arrives at the other end, which `peer`
-- gives for each state of the first, behind what is on the way already.
pub record IsPipe {Conn : Type 0} (io : Streams Conn) (pending : Conn → List ℕ) (peer : Conn → Conn)
    : Type 0 where
  pub carries :
      (c : Conn) (bytes : List ℕ)
      → (io.write_all c bytes).0 ≡ true
      → pending (peer (io.write_all c bytes).1) ≡ pending (peer c) ++ bytes

-- The result of a read: a packet, or the GError that is set.
pub data Received : Type 0 where
  packet : Received
  io_error : Received
  connection_closed : Received
  invalid_size : Received

abbrev pub is_packet : Received → Bool
is_packet packet = true
is_packet _ = false

module _ {Conn : Type 0} (io : Streams Conn) where
  -- The second read; how many bytes it gave is not looked at.
  unfoldable pub read_payload : ℕ → Conn → Buffer → Run (Received × Conn × Buffer)
  read_payload packet_size c b =
      let ((ok, bytes), c') = io.read_all c packet_size in
      poke b.buf 4 bytes >>= λ block.
      done (if ok then packet else io_error, c', record b { buf = block })

  -- `packet_size + 4` is computed in 32 bits, and the result of the resize is dropped.
  unfoldable pub read_sized : Conn → Option (ℕ × ℕ) × Buffer → Run (Received × Conn × Buffer)
  read_sized c (none, b) = done (invalid_size, c, b)
  read_sized c (some (packet_size, _), b) =
      if ltb packet_size 1
      then done (invalid_size, c, b)
      else read_payload packet_size c (resize ((packet_size + 4) % 2 ^ 32) b).1

  unfoldable pub read_packet : Conn → Buffer → Run (Received × Conn × Buffer)
  read_packet c b = do
    empty ← reset b
    let b1 = (resize 4 empty).1
    let ((ok, bytes), c') = io.read_all c 4
    block ← poke b1.buf 0 bytes
    let b2 = record b1 { buf = block }
    if ok
        then (if ltb (length bytes) 4
            then done (connection_closed, c', b2)
            else (get_uint32 0 b2 >>= read_sized c'))
        else done (io_error, c', b2)

  -- The length field is written over the first four bytes, and all bytes in use are sent.
  unfoldable pub write_packet : Conn → Buffer → Run (Bool × Conn × Buffer)
  write_packet c b = do
    (ok, b') ← set_uint32 0 ((b.len + 2 ^ 64 - 4) % 2 ^ 64 % 2 ^ 32) b
    if ok
        then (do
          bytes ← peek b'.buf 0 b'.len
          let (sent, c') = io.write_all c bytes
          done (sent, c', b'))
        else done (false, c, b')

  -- `write && read`: the request goes out, and the answer takes the place of `resp`.
  unfoldable pub call : Conn → Buffer → Buffer → Run (Bool × Conn × Buffer × Buffer)
  call c req resp = do
    (sent, c', req') ← write_packet c req
    if sent
        then (do
          (received, c'', resp') ← read_packet c' resp
          done (is_packet received, c'', req', resp'))
        else done (false, c', req', resp)

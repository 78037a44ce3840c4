-- ===== src/Tests/SshAgent.antt =====
-- The ssh agent on connections that are lists of bytes to come.
use gcr.Shared.{ℕ, ◌≡◌, refl, true, some, List, [], ◌∷◌, ◌++◌, take, drop, replicate, arith}
use gcr.Egg.Buffer.Memory.{Buffer, done, fault, Ensures, peek, poke}
use gcr.Egg.Buffer.Storage.{reset, reserve, grown_len, resize, sized_to}
use gcr.Egg.Buffer.Numbers.{encode_uint32, decode_uint32, get_uint32, set_uint32}
use gcr.Egg.Buffer.Valid.{IsValid, contents}
use gcr.Egg.Buffer.Lifecycle.{owned_by}
use gcr.Gcr.SshAgent.Packet.{
  Streams, IsQuiet, IsPipe, packet, read_payload, read_sized, read_packet, write_packet, call,
}
use gcr.Gcr.SshAgent.Service.{Session, has_key, relay_request, op_add_identity}
use gcr.Gcr.SshAgent.Framing.{read_packet_frame}
use gcr.Gcr.SshAgent.Overflow.{read_packet_overflow}
use gcr.Gcr.SshAgent.Exchange.{frame, read_packet-write_packet}
use gcr.Gcr.SshAgent.Keys.{op_add_identity-has_key}
use gcr.Tests.Allocators.{zero_filling, zero_filling-IsAllocator, zero_filling-IsGenerous}
use gcr.Tests.Buffer.{small, small-IsValid}

-- What is written goes nowhere.
abbrev pipe : Streams (List ℕ)
pipe = record { read_all = λ c n. ((true, take n c), drop n c); write_all = λ c bytes. (true, c) }

abbrev pending : List ℕ → List ℕ
pending c = c

pipe-IsQuiet : IsQuiet pipe pending
pipe-IsQuiet = record { arrives = λ c n. refl; advances = λ c n. refl }

read_packet_frame_example :
    Ensures
      (λ r.
        (r.0 ≡ packet)
        × (r.1 ≡ 5 ∷ [])
        × IsValid r.2
        × (contents r.2 ≡ encode_uint32 2 ++ (8 ∷ 9 ∷ [])))
      (read_packet pipe (0 ∷ 0 ∷ 0 ∷ 2 ∷ 8 ∷ 9 ∷ 5 ∷ []) small)
unfolding encode_uint32
read_packet_frame_example =
    read_packet_frame pipe pending pipe-IsQuiet 2 (0 ∷ 0 ∷ 0 ∷ 2 ∷ 8 ∷ 9 ∷ 5 ∷ []) small
      zero_filling (8 ∷ 9 ∷ []) (5 ∷ []) small-IsValid (omega arith) refl zero_filling-IsGenerous
      (omega arith) (omega arith) refl refl

-- 2^32 - 4 bytes are announced, and seventeen come.
abbrev flood : List ℕ
flood = replicate 17 1

read_packet_overflow_example : read_packet pipe (0xff ∷ 0xff ∷ 0xff ∷ 0xfc ∷ flood) small ≡ fault
unfolding encode_uint32
read_packet_overflow_example =
    read_packet_overflow pipe pending pipe-IsQuiet 0xfffffffc (0xff ∷ 0xff ∷ 0xff ∷ 0xfc ∷ flood)
      small zero_filling flood small-IsValid (omega arith) refl zero_filling-IsGenerous
      (omega arith) (omega arith) (omega arith) (omega arith) refl

-- A request with the operation `op` and the key 65.
abbrev request : ℕ → Buffer
request op = record small {
  buf = 0 ∷ 0 ∷ 0 ∷ 0 ∷ op ∷ 0 ∷ 0 ∷ 0 ∷ 1 ∷ 65 ∷ [];
  len = 10;
  allocated_len = 10;
}

request-IsValid : (op : ℕ) → IsValid (request op)
request-IsValid op = record {
  sized = refl;
  within = omega arith;
  fits = omega arith;
  owned = owned_by zero_filling-IsAllocator;
}

-- The agent is about to answer with success (6); the keys 66 and 65 are known.
abbrev before : ℕ → Session (List ℕ)
before op = record {
  keys = (66 ∷ []) ∷ (65 ∷ []) ∷ [];
  conn = 0 ∷ 0 ∷ 0 ∷ 1 ∷ 6 ∷ [];
  req = request op;
  resp = small;
}

abbrev relayed : ℕ → Session (List ℕ)
relayed op = record {
  keys = (66 ∷ []) ∷ (65 ∷ []) ∷ [];
  conn = [];
  req = record (request op) { buf = 0 ∷ 0 ∷ 0 ∷ 6 ∷ op ∷ 0 ∷ 0 ∷ 0 ∷ 1 ∷ 65 ∷ [] };
  resp = record small { buf = 0 ∷ 0 ∷ 0 ∷ 1 ∷ 6 ∷ 0 ∷ 0 ∷ 0 ∷ []; len = 5 };
}

relay_before : (op : ℕ) → relay_request pipe (before op) ≡ done (true, relayed op)
unfolding relay_request call write_packet read_packet read_sized read_payload set_uint32 get_uint32
    reset resize sized_to reserve grown_len peek poke encode_uint32 decode_uint32
relay_before op = refl

op_add_identity-has_key_example :
    (after : Session (List ℕ)) × (op_add_identity pipe (before 17) ≡ done (true, after))
    × (has_key (65 ∷ []) after.keys ≡ true)
unfolding decode_uint32 has_key
op_add_identity-has_key_example =
    op_add_identity-has_key pipe (before 17) (relayed 17) (some (65 ∷ [])) 10 true
      (request-IsValid 17) refl (relay_before 17) (65 ∷ [])

-- Two ends of a connection, the state of which is what is on the way.
abbrev duct : Streams (List ℕ)
duct = record {
  read_all = λ c n. ((true, take n c), drop n c);
  write_all = λ c bytes. (true, c ++ bytes);
}

duct-IsPipe : IsPipe duct pending (λ c. c)
duct-IsPipe = record { carries = λ c bytes e. refl }

write_packet-request :
    write_packet duct [] (request 17) ≡ done (true, contents (relayed 17).req, (relayed 17).req)
unfolding write_packet set_uint32 peek poke encode_uint32
write_packet-request = refl

read_packet-write_packet_example :
    (contents (relayed 17).req ≡ frame (request 17))
    × Ensures
        (λ r. (r.0 ≡ packet) × (r.1 ≡ 7 ∷ []) × IsValid r.2 × (contents r.2 ≡ frame (request 17)))
        (read_packet duct (contents (relayed 17).req ++ 7 ∷ []) small)
read_packet-write_packet_example =
    read_packet-write_packet duct pending (λ c. c) (request 17) (relayed 17).req small []
      (contents (relayed 17).req) (contents (relayed 17).req ++ 7 ∷ []) zero_filling (7 ∷ [])
      (record { arrives = λ c n. refl; advances = λ c n. refl }) duct-IsPipe (request-IsValid 17)
      (omega arith) (omega arith) refl write_packet-request refl small-IsValid (omega arith) refl
      zero_filling-IsGenerous

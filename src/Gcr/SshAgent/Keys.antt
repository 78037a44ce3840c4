-- ===== src/Gcr/SshAgent/Keys.antt =====
-- The set of known keys of gcr/gcr-ssh-agent-service.c, and what each request does to it.
use gcr.Shared.{
  ℕ, ◌≡◌, refl, Bool, true, false, not, ◌&&◌, ◌||◌, none, some, List, [], ◌∷◌, if◌then◌else◌,
  same_bytes, same_bytes_iff, arith,
}
use gcr.Egg.Buffer.Memory.{Buffer, Run, done, fault, ◌>>=◌}
use gcr.Egg.Buffer.Valid.{IsValid, contents}
use gcr.Egg.Buffer.Reads.{array_at, get_byte_array-answer}
use gcr.Egg.Buffer.Strings.{Bytes}
use gcr.Gcr.SshAgent.Packet.{Streams, call}
use gcr.Gcr.SshAgent.Service.{
  Key, KeyInfo, Session, answered, key_of, has_key, insert_key, delete_key, find_preloaded,
  relay_request, request_key, update_keys, op_add_identity, op_remove_identity,
  op_remove_all_identities, ensure_key,
}

has_key_same :
    (j k : Key) (ks : List Key) → same_bytes k j ≡ true → has_key k ks ≡ true → has_key j ks ≡ true
has_key_same j k ks e h = rw (← (same_bytes_iff k j).0 e) h

pub has_key-insert_key :
    (j k : Key) (ks : List Key) → has_key j (insert_key k ks) ≡ (same_bytes k j || has_key j ks)
unfolding insert_key has_key
has_key-insert_key j k ks = ground (arith, has_key_same j k ks)

pub has_key-delete_key :
    (j k : Key) (ks : List Key)
    → has_key j (delete_key k ks) ≡ (not (same_bytes k j) && has_key j ks)
unfolding delete_key has_key
has_key-delete_key j k [] = ground arith
has_key-delete_key j k (i ∷ ks) =
    ground
      (arith, has_key-delete_key j k ks, same_bytes_iff k j, same_bytes_iff i k, same_bytes_iff i j)

module _ (preloaded : List KeyInfo) (ssh_add : KeyInfo → Bool) where
  -- Whether a key can be loaded: it is among the preloaded ones, and ssh-add succeeds for it.
  abbrev pub can_load : Key → Bool
  can_load k = elim (find_preloaded k preloaded) [ none ↦ false | some info ↦ ssh_add info ]

  pub ensure_key-has_key :
      (j k : Key) (ks : List Key)
      → has_key j (ensure_key preloaded ssh_add k ks)
        ≡ (has_key j ks || (same_bytes k j && can_load k))
  unfolding ensure_key
  ensure_key-has_key j k ks = ground (arith, has_key-insert_key j k ks, has_key_same j k ks)

module _ {Conn : Type 0} where
  update_keys-eq :
      (change : Key → List Key → List Key) (key : Key) (ret : Bool) (s : Session Conn)
      → update_keys change (some key) (ret, s)
        ≡ done (ret, record s { keys = if ret then change key s.keys else s.keys })
  unfolding update_keys
  update_keys-eq change key true s = refl
  update_keys-eq change key false s = refl

  -- A request whose key can be read.
  parsed :
      (s : Session Conn) (k : Bytes) (next : ℕ)
      → IsValid s.req
      → array_at (contents s.req) 5 ≡ some (k, next)
      → request_key s ≡ done (some (key_of k), s)
  unfolding request_key
  parsed s k next v e = rw (get_byte_array-answer s.req v 5, e) refl

  returned_keys :
      (s s' : Session Conn) (ret : Bool) (r : Run (Bool × Conn × Buffer × Buffer))
      → (r >>= answered s) ≡ done (ret, s')
      → s'.keys ≡ s.keys
  returned_keys s s' ret (done (ok, conn, req, resp)) e = ground (arith, e)
  returned_keys s s' ret fault e = cc

module _ {Conn : Type 0} (io : Streams Conn) where
  -- The relay leaves the keys alone.
  pub relay-keys :
      (s s' : Session Conn) (ret : Bool) → relay_request io s ≡ done (ret, s') → s'.keys ≡ s.keys
  unfolding relay_request
  relay-keys s s' ret e = returned_keys s s' ret (call io s.conn s.req s.resp) e

  module _ (s s' : Session Conn) (k : Bytes) (next : ℕ) (ret : Bool) (v : IsValid s.req)
      (key : array_at (contents s.req) 5 ≡ some (k, next))
      (relayed : relay_request io s ≡ done (ret, s')) (j : Key) where
    -- A request to add a key, whose buffer is valid and in which the key can be read, is relayed; after
    -- it a key is known if it was before, or if it is the key of the request and the agent answered.
    pub op_add_identity-has_key :
        (after : Session Conn) × (op_add_identity io s ≡ done (ret, after))
        × (has_key j after.keys ≡ ((ret && same_bytes (key_of k) j) || has_key j s.keys))
    unfolding op_add_identity
    op_add_identity-has_key = (
      record s' { keys = if ret then insert_key (key_of k) s'.keys else s'.keys },
      rw (parsed s k next v key, relayed) (update_keys-eq insert_key (key_of k) ret s'),
      ground (arith, relay-keys s s' ret relayed, has_key-insert_key j (key_of k) s.keys),
    )

    -- A request to remove a key, whose buffer is valid and in which the key can be read, is relayed;
    -- after it a key is known if it was before, unless it is the key of the request and the agent
    -- answered.
    pub op_remove_identity-has_key :
        (after : Session Conn) × (op_remove_identity io s ≡ done (ret, after))
        × (has_key j after.keys ≡ (not (ret && same_bytes (key_of k) j) && has_key j s.keys))
    unfolding op_remove_identity
    op_remove_identity-has_key = (
      record s' { keys = if ret then delete_key (key_of k) s'.keys else s'.keys },
      rw (parsed s k next v key, relayed) (update_keys-eq delete_key (key_of k) ret s'),
      ground (arith, relay-keys s s' ret relayed, has_key-delete_key j (key_of k) s.keys),
    )

  forgotten :
      (ret : Bool) (s : Session Conn)
      → ◌≡◌ {A = Run (Bool × Session Conn)}
          (done (ret, if ret then record s { keys = [] } else s))
          (done (ret, record s { keys = if ret then [] else s.keys }))
  forgotten true s = refl
  forgotten false s = refl

  -- A request to remove all keys is relayed; after it no key is known if the agent answered, and the
  -- keys known are those from before if it did not.
  pub op_remove_all_identities-has_key :
      (s s' : Session Conn) (ret : Bool)
      → relay_request io s ≡ done (ret, s')
      → (j : Key)
      → (after : Session Conn) × (op_remove_all_identities io s ≡ done (ret, after))
        × (has_key j after.keys ≡ (not ret && has_key j s.keys))
  unfolding op_remove_all_identities has_key
  op_remove_all_identities-has_key s s' ret relayed j = (
    record s' { keys = if ret then [] else s'.keys },
    rw relayed (forgotten ret s'),
    ground (arith, relay-keys s s' ret relayed),
  )

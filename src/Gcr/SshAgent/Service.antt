-- ===== src/Gcr/SshAgent/Service.antt =====
-- The request handlers of gcr/gcr-ssh-agent-service.c, for one connection of a client. The lock
-- makes each access to the key set one step, so the set is part of the state.
use gcr.Shared.{
  ℕ, zero, suc, ◌+◌, ◌-◌, ◌%◌, ◌^◌, Bool, true, false, Option, none, some, List, [], ◌∷◌, length,
  ◌==◌, if◌then◌else◌, same_bytes,
}
use gcr.Egg.Buffer.Memory.{Allocator, Buffer, Run, done, ◌>>=◌}
use gcr.Egg.Buffer.Storage.{reset}
use gcr.Egg.Buffer.Numbers.{get_byte, get_uint32, set_uint32, add_uint32}
use gcr.Egg.Buffer.Strings.{Bytes, get_byte_array, get_string, add_byte_array, add_string}
use gcr.Gcr.SshAgent.Packet.{Streams, call}

-- A public key as its bytes. A GHashTable that is used as a set of them is a list without duplicates,
-- since a table keeps equal keys once; its length is g_hash_table_size.
abbrev pub Key : Type 0
Key = List ℕ

-- g_hash_table_contains
unfoldable pub has_key : Key → List Key → Bool
has_key k [] = false
has_key k (j ∷ ks) = if same_bytes j k then true else has_key k ks

-- g_hash_table_add
unfoldable pub insert_key : Key → List Key → List Key
insert_key k ks = if has_key k ks then ks else k ∷ ks

-- g_hash_table_remove
unfoldable pub delete_key : Key → List Key → List Key
delete_key k [] = []
delete_key k (j ∷ ks) = let rest = delete_key k ks in if same_bytes j k then rest else j ∷ rest

-- g_bytes_new (blob, length): no bytes at NULL.
abbrev pub key_of : Bytes → Key
key_of none = []
key_of (some k) = k

-- GcrSshAgentKeyInfo
pub record KeyInfo : Type 0 where
  pub public_key : Key
  pub comment : List ℕ
  pub filename : List ℕ

-- What a handler works on: the key set of the service, the connection to the real ssh-agent, and
-- the two buffers.
pub record Session (Conn : Type 0) : Type 0 where
  pub keys : List Key
  pub conn : Conn
  pub req : Buffer
  pub resp : Buffer

abbrev pub Handler : Type 0 → Type 0
Handler Conn = Session Conn → Run (Bool × Session Conn)

-- gcr_ssh_agent_preload_lookup_by_public_key, over the keys that the preload holds at the time.
unfoldable pub find_preloaded : Key → List KeyInfo → Option KeyInfo
find_preloaded k [] = none
find_preloaded k (info ∷ infos) =
    let rest = find_preloaded k infos in if same_bytes info.public_key k then some info else rest

abbrev pub identities_answer : ℕ
identities_answer = 12

module _ {Conn : Type 0} where
  abbrev pub answered : Session Conn → Bool × Conn × Buffer × Buffer → Run (Bool × Session Conn)
  answered s (ok, conn, req, resp) = done (ok, record s { conn = conn; req = req; resp = resp })

  -- The key of a request, at offset 5; a failure to parse counts in the request's buffer.
  unfoldable pub request_key : Session Conn → Run (Option Key × Session Conn)
  request_key s = do
    (found, req) ← get_byte_array 5 s.req
    let s' = record s { req = req }
    elim found [ none ↦ done (none, s') | some (blob, _) ↦ done (some (key_of blob), s') ]

  -- `if (key) { if (ret) update (self, key); }` after the relay
  unfoldable pub update_keys :
      (Key → List Key → List Key) → Option Key → Bool × Session Conn → Run (Bool × Session Conn)
  update_keys change none (ret, s) = done (ret, s)
  update_keys change (some key) (false, s) = done (false, s)
  update_keys change (some key) (true, s) = done (true, record s { keys = change key s.keys })

-- `ssh_add` says whether the ssh-add command of a key could be run and succeeded.
module _ (preloaded : List KeyInfo) (ssh_add : KeyInfo → Bool) where
  -- The known keys after ensure_key.
  unfoldable pub ensure_key : Key → List Key → List Key
  ensure_key key keys = if has_key key keys then keys else elim (find_preloaded key preloaded) [
    | none ↦ keys
    | some info ↦ if ssh_add info then insert_key key keys else keys
  ]

  unfoldable pub ensured : {Conn : Type 0} → Option Key → Session Conn → Session Conn
  ensured none s = s
  ensured (some key) s = record s { keys = ensure_key key s.keys }

module _ {Conn : Type 0} (io : Streams Conn) where
  unfoldable pub relay_request : Handler Conn
  relay_request s = call io s.conn s.req s.resp >>= answered s

  unfoldable pub op_add_identity : Handler Conn
  op_add_identity s = do (key, s') ← request_key s; relay_request s' >>= update_keys insert_key key

  unfoldable pub op_remove_identity : Handler Conn
  op_remove_identity s = do
    (key, s') ← request_key s
    relay_request s' >>= update_keys delete_key key

  unfoldable pub op_remove_all_identities : Handler Conn
  op_remove_all_identities s =
      relay_request s >>= λ (ret, s'). done (ret, if ret then record s' { keys = [] } else s')

  unfoldable pub op_sign_request : List KeyInfo → (KeyInfo → Bool) → Handler Conn
  op_sign_request preloaded ssh_add s = do
    (key, s') ← request_key s
    relay_request (ensured preloaded ssh_add key s')

module _ (g_realloc : Allocator) where
  -- The entries of an answer: keys, each with a comment that is not looked at again. The table keeps
  -- one entry for a key.
  unfoldable pub parse_entries : ℕ → ℕ → List Key → Buffer → Run (Option (List Key) × Buffer)
  parse_entries zero offset answer b = done (some answer, b)
  parse_entries (suc count) offset answer b = do
    (blob, b') ← get_byte_array offset b
    elim blob [
      | none ↦ done (none, b')
      | some (key, offset') ↦ get_string g_realloc (some g_realloc) offset' b' >>= λ (comment, b'').
          elim comment [
            | none ↦ done (none, b'')
            | some (_, offset'') ↦ parse_entries count offset'' (insert_key (key_of key) answer) b''
          ]
    ]

  -- Behind the operation.
  unfoldable pub parse_count : Option (ℕ × ℕ) × Buffer → Run (Option (List Key) × Buffer)
  parse_count (none, b) = done (none, b)
  parse_count (some (count, offset), b) = parse_entries count offset [] b

  unfoldable pub parse_op : Option (ℕ × ℕ) × Buffer → Run (Option (List Key) × Buffer)
  parse_op (none, b) = done (none, b)
  parse_op (some (op, offset), b) =
      if op == identities_answer then (get_uint32 offset b >>= parse_count) else done (none, b)

  unfoldable pub parse_identities_answer : Buffer → Run (Option (List Key) × Buffer)
  parse_identities_answer resp = get_byte 4 resp >>= parse_op

-- The preloaded keys that the agent did not name go behind its answer; the results of the writes
-- are dropped. Also returns how many there are.
unfoldable pub add_preloaded : List KeyInfo → List Key → ℕ → Buffer → Run (ℕ × Buffer)
add_preloaded [] answer added resp = done (added, resp)
add_preloaded (info ∷ infos) answer added resp =
    if has_key info.public_key answer then add_preloaded infos answer added resp else (do
      (_, resp') ← add_byte_array (some info.public_key) resp
      (_, resp'') ← add_string (some info.comment) resp'
      add_preloaded infos answer (added + 1) resp'')

-- The number of keys and the size of the payload, written over the agent's.
unfoldable pub patch_answer : ℕ → List Key → Buffer → Run Buffer
patch_answer added answer resp = do
  (_, resp') ← set_uint32 5 ((added + length answer) % 2 ^ 32) resp
  (_, resp'') ← set_uint32 0 ((resp'.len + 2 ^ 64 - 4) % 2 ^ 64 % 2 ^ 32) resp'
  done resp''

-- add_key for every key of the answer
unfoldable pub insert_keys : List Key → List Key → List Key
insert_keys [] keys = keys
insert_keys (k ∷ ks) keys = insert_keys ks (insert_key k keys)

module _ {Conn : Type 0} (io : Streams Conn) (g_realloc : Allocator) (preloaded : List KeyInfo)
    (ssh_add : KeyInfo → Bool) where
  unfoldable pub answer_identities : Option (List Key) → Session Conn → Run (Bool × Session Conn)
  answer_identities none s = done (true, s)
  answer_identities (some answer) s = do
    (added, resp) ← add_preloaded preloaded answer 0 s.resp
    resp' ← patch_answer added answer resp
    done (true, record s { keys = insert_keys answer s.keys; resp = resp' })

  unfoldable pub relayed_identities : Bool × Session Conn → Run (Bool × Session Conn)
  relayed_identities (false, s) = done (false, s)
  relayed_identities (true, s) = parse_identities_answer g_realloc s.resp >>= λ (answer, resp).
      answer_identities answer (record s { resp = resp })

  unfoldable pub op_request_identities : Handler Conn
  op_request_identities s = relay_request io s >>= relayed_identities

  -- operations[op], and relay_request where that is NULL
  unfoldable pub operation : ℕ → Handler Conn
  operation op =
      if op == 11
      then op_request_identities
      else if op == 13
      then op_sign_request io preloaded ssh_add
      else if op == 17
      then op_add_identity io
      else if op == 18
      then op_remove_identity io
      else if op == 19
      then op_remove_all_identities io
      else if op == 25
      then op_add_identity io
      else relay_request io

  unfoldable pub dispatch : Option (ℕ × ℕ) × Buffer → Handler Conn
  dispatch (none, req) s = relay_request io (record s { req = req })
  dispatch (some (op, _), req) s = operation op (record s { req = req })

  unfoldable pub handle_request : Handler Conn
  handle_request s = do
    empty ← reset s.resp
    (_, resp) ← add_uint32 0 empty
    found ← get_byte 4 s.req
    dispatch found (record s { resp = resp })

-- ===== src/Persist/Store.antt =====
-- The storing half of src/mqtt_server/persist_msg_pack.cpp. A file is the bytes written so far.
use mqtt_server.Prelude.{
  ℕ, ◌-◌, ◌%◌, ◌^◌, List, [], ◌∷◌, ◌++◌, Option, none, some, Bool, true, false, length, take, ltb,
  leb, ◌==◌, if◌then◌else◌,
}
use mqtt_server.Mbuf.{Mbuf, count}
use mqtt_server.Broker.{
  World, TopicNode, M, ◌>>=◌, ◌>>◌, pure, gets, get_mbuf, get_context, get_connection,
}
use mqtt_server.Broker.Session.{prepare_store}
use mqtt_server.Broker.Close.{handle_close}
use mqtt_server.Persist.{
  ChunkType, global_info, db_msg, client_msg, topic_info, chunk_code, chunk_tag, le32, Format, Disk,
}

-- Whether the operation succeeded, and the file that it left.
abbrev pub Written : Type 0
Written = Bool × List ℕ

-- `ERROR_RETURN`: what follows runs only after a success.
infixl 12 ◌&>◌
abbrev pub ◌&>◌ : Written → (List ℕ → Written) → Written
(true, file) &> k = k file
(false, file) &> k = (false, file)

abbrev pub and_then : Written → (List ℕ → M Written) → M Written
and_then (true, file) k = k file
and_then (false, file) k = pure (false, file)

module _ (disk : Disk) where
  -- `write(buf, len)`
  unfoldable pub write : (bytes file : List ℕ) → Written
  write bytes file =
      (disk.fwrite file bytes == length bytes, file ++ take (disk.fwrite file bytes) bytes)

  unfoldable pub write_chunk_info : ChunkType → (chunk_len : ℕ) → (file : List ℕ) → Written
  write_chunk_info chunk_type chunk_len file =
      write (chunk_tag ∷ []) file &> write (chunk_code chunk_type ∷ []) &> write (le32 chunk_len)

  -- The length, the header and the bytes of a packed object, as every `store_` writes them.
  unfoldable pub write_chunk : ChunkType → (packed file : List ℕ) → Written
  write_chunk chunk_type packed file =
      write_chunk_info chunk_type (length packed % 2 ^ 32) file &> write packed

module _ (format : Format) (disk : Disk) where
  unfoldable pub store_db_info : List ℕ → World → Written
  store_db_info file w =
      write_chunk disk global_info (format.pack_store w.store.last_msg_id w.store.last_update_time)
        file

  -- The walk over `msg_db`, whose pointers must be good.
  unfoldable pub store_db_msg : List (ℕ × ℕ) → (file : List ℕ) → M Written
  store_db_msg [] file = pure (true, file)
  store_db_msg ((msg_id, b) ∷ msg_db) file = do
    mbuf ← get_mbuf b
    and_then (write_chunk disk db_msg (format.pack_mbuf mbuf) file) (store_db_msg msg_db)

  -- A connection that was silent for too long is closed.
  unfoldable pub check_timeout : (idle : ℕ) → Option ℕ → M Unit
  check_timeout idle none = pure tt
  check_timeout idle (some c) = do
    conn ← get_connection c
    now ← gets (λ w. w.now)
    if ltb idle (now - conn.last_msg_time) then handle_close c else pure tt

  -- The walk over a copy of the table of client ids; `idle` is the longest silence allowed.
  unfoldable pub store_client_info : (idle : ℕ) → List (List ℕ × ℕ) → (file : List ℕ) → M Written
  store_client_info idle [] file = pure (true, file)
  store_client_info idle ((client_id, context) ∷ rest) file = do
    x ← get_context context
    check_timeout idle x.mqtt_connection
    x' ← get_context context
    let others = store_client_info idle rest
    if x'.clean_session then others file else (do
      prepare_store context
      y ← get_context context
      and_then (write_chunk disk client_msg (format.pack_context y) file) others)

  -- The topics that have a retained message that is not empty.
  unfoldable pub retain_map : List (List ℕ × TopicNode) → M (List (List ℕ × Mbuf))
  retain_map [] = pure []
  retain_map ((topic_name, node) ∷ topics) = elim node.retain_msg [
    | none ↦ retain_map topics
    | some b ↦ do
      mbuf ← get_mbuf b
      rest ← retain_map topics
      pure (if count mbuf == 0 then rest else (topic_name, mbuf) ∷ rest)
  ]

  unfoldable pub store_retain_msg : (file : List ℕ) → M Written
  store_retain_msg file = do
    topics ← gets (λ w. w.topics)
    map_retain_msg ← retain_map topics
    elim map_retain_msg [
      | [] ↦ pure (true, file)
      | kv ∷ kvs ↦ pure (write_chunk disk topic_info (format.pack_map (kv ∷ kvs)) file)
    ]

  -- The four parts in order; a failure ends the storing.
  unfoldable pub store_all : (idle : ℕ) → M Written
  store_all idle = do
    info ← gets (store_db_info [])
    msgs ← and_then info (λ file. (do db ← gets (λ w. w.store.msg_db); store_db_msg db file))
    clients ←
        and_then msgs (λ file. (do ids ← gets (λ w. w.client_ids); store_client_info idle ids file))
    and_then clients store_retain_msg

  -- `store(force_flush)`: the result, `last_db_update_time` and the file, where it was opened.
  unfoldable pub store :
      (idle : ℕ) → (force_flush : Bool) → (last_db_update_time : ℕ) → M (Bool × ℕ × Option (List ℕ))
  store idle force_flush last = do
    db_update_time ← gets (λ w. w.store.last_update_time)
    let last' : ℕ = if force_flush then last else db_update_time
    let skip : Bool = if force_flush then false else leb db_update_time last
    if skip
        then pure (true, last, none)
        else (if disk.opens
            then (do (res, file) ← store_all idle; pure (res, last', some file))
            else pure (false, last', none))

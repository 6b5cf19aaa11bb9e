-- ===== src/Persist/Restore.antt =====
-- The restoring half of src/mqtt_server/persist_msg_pack.cpp. A file that cannot be read to the
-- end for another reason than its end is left out.
use mqtt_server.Prelude.{
  ℕ, zero, suc, ◌+◌, ◌-◌, ◌*◌, List, [], ◌∷◌, ◌++◌, Option, none, some, Bool, true, false, length,
  take, drop, replicate, ltb, leb, ◌==◌, if◌then◌else◌, ◌&&◌, ◌||◌,
}
use mqtt_server.Prelude.Keyed.{find_key}
use mqtt_server.Msg.Subscribe.{Topic}
use mqtt_server.Mbuf.{Mbuf, init, copy}
use mqtt_server.MsgStore.{lookup, assign, add_msg, del_msg}
use mqtt_server.Broker.{
  World, Kernel, Context, TopicNode, M, ◌>>=◌, ◌>>◌, pure, gets, modify, deref,
}
use mqtt_server.Broker.ClientIds
use mqtt_server.Broker.Session.{add_send_msg, new_context}
use mqtt_server.Broker.Topics.{put_topic, subscribe_client, has_client}
use mqtt_server.Persist.{
  ChunkType, global_info, db_msg, client_msg, topic_info, chunk_tag, max_chunk, Format,
}

-- What a round of `restore` reads: the end, something wrong, or a chunk and what follows it.
pub data ReadChunk : Type 0 where
  finished wrong : ReadChunk
  chunk : (chunk_type : ℕ) → (buf rest : List ℕ) → ReadChunk

-- `fread` of the length and of the chunk.
unfoldable pub read_body : (chunk_type : ℕ) → List ℕ → ReadChunk
read_body chunk_type (a ∷ b ∷ c ∷ d ∷ file) =
    let chunk_len = a + 256 * b + 65536 * c + 16777216 * d in
    if ltb max_chunk chunk_len
    then wrong
    else if leb chunk_len (length file)
    then chunk chunk_type (take chunk_len file) (drop chunk_len file)
    else wrong
read_body chunk_type _ = wrong

unfoldable pub read_chunk : List ℕ → ReadChunk
read_chunk [] = finished
read_chunk (tag ∷ []) = wrong
read_chunk (tag ∷ chunk_type ∷ file) = if tag == chunk_tag then read_body chunk_type file else wrong

abbrev pub to_chunk_type : ℕ → Option ChunkType
to_chunk_type code =
    if code == 1
    then some global_info
    else if code == 2
    then some db_msg
    else if code == 3
    then some client_msg
    else if code == 4
    then some topic_info
    else none

-- `m_tmp_msg_db`
abbrev pub TmpDb : Type 0
TmpDb = List (ℕ × ℕ)

-- `restore_mbuf`: a new buffer with the bytes between the positions. Positions outside the data
-- make it read outside the memory.
unfoldable pub restored_mbuf : Mbuf → (now : ℕ) → Mbuf
restored_mbuf tmp now =
    let buf_len = tmp.write_pos - tmp.read_pos in
    let fresh : Mbuf = record (init (replicate buf_len 0) now) { msg_id = tmp.msg_id } in
    elim (copy fresh (take buf_len (drop tmp.read_pos tmp.mem))) [ none ↦ fresh | some m ↦ m ]

unfoldable pub restore_mbuf : Mbuf → M ℕ
restore_mbuf tmp w =
    if leb tmp.read_pos tmp.write_pos && leb tmp.write_pos (length tmp.mem)
    then some (length w.mbufs, record w { mbufs = w.mbufs ++ restored_mbuf tmp w.now ∷ [] })
    else none

-- The messages of `send_msg_ids` that are known go to the queue of the session.
unfoldable pub queue_msgs : TmpDb → (context : ℕ) → List ℕ → M Unit
queue_msgs tmp context [] = pure tt
queue_msgs tmp context (msg_id ∷ ids) = elim (lookup msg_id tmp) [
  | none ↦ queue_msgs tmp context ids
  | some b ↦ add_send_msg context b >> queue_msgs tmp context ids
]

-- No retained message is sent, since the session has no connection.
unfoldable pub subscribe_topics : List Topic → (context : ℕ) → World → World
subscribe_topics [] context w = w
subscribe_topics (t ∷ topics) context w =
    subscribe_topics topics context (subscribe_client t.topic_name context w)

-- The pointer to a new context is its place at the end of the list.
abbrev pub push_context : Context → M ℕ
push_context x w = some (length w.contexts, record w { contexts = w.contexts ++ x ∷ [] })

-- Each retained message is given to its topic, where there is a topic of that name.
unfoldable pub update_retains : List (List ℕ × Mbuf) → M Unit
update_retains [] = pure tt
update_retains ((topic_name, tmp) ∷ kvs) = do
  r ← restore_mbuf tmp
  found ← gets (λ w. find_key topic_name w.topics)
  elim found [
    | none ↦ pure tt
    | some node ↦ modify (put_topic topic_name (record node { retain_msg = some r }))
  ]
  update_retains kvs

-- A buffer is held while a session that the broker knows has it in its queue.
abbrev known_id : ℕ → List (List ℕ × ℕ) → Bool
known_id x [] = false
known_id x ((_, y) ∷ ids) = y == x || known_id x ids

abbrev subscribed : ℕ → List (List ℕ × TopicNode) → Bool
subscribed x [] = false
subscribed x ((_, node) ∷ topics) = has_client x node.clients || subscribed x topics

abbrev pub held_from : ℕ → List Context → (b : ℕ) → World → Bool
held_from x [] b w = false
held_from x (ctx ∷ contexts) b w =
    ((known_id x w.client_ids || subscribed x w.topics) && has_client b ctx.send_msg_queue)
    || held_from (suc x) contexts b w

-- `m_tmp_msg_db.clear()`: a buffer that nothing else holds is deleted, and leaves the store.
unfoldable pub clear_tmp : TmpDb → World → World
clear_tmp [] w = w
clear_tmp ((msg_id, b) ∷ tmp) w =
    clear_tmp tmp
      (if held_from 0 w.contexts b w then w else record w { store = del_msg w.store msg_id })

module _ (sys : Kernel) (format : Format) where
  unfoldable pub restore_db_info : List ℕ → M Unit
  restore_db_info buf = do
    (last_msg_id, last_update_time) ← deref (format.unpack_store buf)
    modify (λ w. record w {
      store = record w.store { last_msg_id = last_msg_id; last_update_time = last_update_time };
    })

  unfoldable pub restore_db_msg : List ℕ → TmpDb → M TmpDb
  restore_db_msg buf tmp = do
    obj ← deref (format.unpack_mbuf buf)
    b ← restore_mbuf obj
    if obj.msg_id == 0 then pure tmp else (do
      modify (λ w. record w { store = add_msg w.store obj.msg_id (some b) w.now })
      pure (assign obj.msg_id b tmp))

  unfoldable pub restore_client_info : List ℕ → TmpDb → M Unit
  restore_client_info buf tmp = do
    x ← deref (format.unpack_context buf (new_context sys none))
    context ← push_context x
    modify (λ w. (ClientIds.add_client_context x.client_id context w).1)
    modify (subscribe_topics x.subcribe_topics context)
    queue_msgs tmp context x.send_msg_ids

  unfoldable pub restore_retain_msg : List ℕ → M Unit
  restore_retain_msg buf = do kvs ← deref (format.unpack_map buf); update_retains kvs

  -- The switch on the type of the chunk; `none` inside is -1.
  unfoldable pub restore_chunk : Option ChunkType → (buf : List ℕ) → TmpDb → M (Option TmpDb)
  restore_chunk (some global_info) buf tmp = restore_db_info buf >> pure (some tmp)
  restore_chunk (some db_msg) buf tmp = do tmp' ← restore_db_msg buf tmp; pure (some tmp')
  restore_chunk (some client_msg) buf tmp = restore_client_info buf tmp >> pure (some tmp)
  restore_chunk (some topic_info) buf tmp = restore_retain_msg buf >> pure (some tmp)
  restore_chunk none buf tmp = pure none

  -- The loop, with the result of `restore` and `m_tmp_msg_db`. Every chunk has six bytes at least,
  -- so as many rounds as bytes and one more are enough; out of fuel has no result.
  unfoldable pub restore_chunks : (fuel : ℕ) → (file : List ℕ) → TmpDb → M (Bool × TmpDb)
  restore_chunks zero file tmp = λ w. none
  restore_chunks (suc fuel) file tmp =
      let again : List ℕ → TmpDb → M (Bool × TmpDb) = restore_chunks fuel in
      elim (read_chunk file) [
        | finished ↦ pure (true, tmp)
        | wrong ↦ pure (false, tmp)
        | chunk chunk_type buf rest ↦ do
          res ← restore_chunk (to_chunk_type chunk_type) buf tmp
          elim res [ none ↦ pure (false, tmp) | some tmp' ↦ again rest tmp' ]
      ]

  -- `restore`, of a file that is missing or has these bytes.
  unfoldable pub restore : Option (List ℕ) → M Bool
  restore none = pure true
  restore (some []) = pure true
  restore (some file) = do
    (res, tmp) ← restore_chunks (suc (length file)) file []
    modify (clear_tmp tmp)
    pure res

-- ===== src/Broker/Handlers/Input.antt =====
-- src/mqtt_server/mqtt_connection.cpp: `process`, `process_mqtt` and `handle_input`.
use mqtt_server.Prelude.{
  ℕ, zero, suc, ◌+◌, ◌-◌, ◌/◌, ◌%◌, ◌^◌, List, ◌++◌, Option, none, some, ltb, take, drop, get_elem?,
  length, [], ◌∷◌, if◌then◌else◌,
}
use mqtt_server.Prelude.Memory.{overwrite}
use mqtt_server.Pkt.{
  new_pkt, remain_length, Framed, framed, refused, out_of_bounds, failure, need_more_data,
}
use mqtt_server.Msg.{
  MqttType, to_type, connect, publish, puback, subscribe, unsubscribe, pingreq, disconnect,
}
use mqtt_server.Broker.{
  Kernel, M, ◌>>=◌, ◌>>◌, pure, gets, deref, get_context, set_context, get_connection,
  set_connection, modify, Received, received, unread,
}
use mqtt_server.Broker.Sender.{would_block}
use mqtt_server.Broker.Handlers.{
  handle_connect_msg, handle_publish_msg, handle_puback_msg, handle_subscribe_msg,
  handle_unsubscribe_msg, handle_pingreq_msg, handle_disconnect_msg,
}

module _ (sys : Kernel) where
  unfoldable pub dispatch : MqttType → (c : ℕ) → (buf : List ℕ) → (len : ℕ) → M (Option ℕ)
  dispatch connect c buf len = handle_connect_msg sys c (new_pkt buf len)
  dispatch publish c buf len = handle_publish_msg sys c (new_pkt buf len)
  dispatch puback c buf len = handle_puback_msg sys c (new_pkt buf len)
  dispatch subscribe c buf len = handle_subscribe_msg sys c (new_pkt buf len)
  dispatch unsubscribe c buf len = handle_unsubscribe_msg sys c (new_pkt buf len)
  dispatch pingreq c buf len = handle_pingreq_msg sys c
  dispatch disconnect c buf len = handle_disconnect_msg sys c >> pure none
  dispatch _ c buf len = pure none

  unfoldable pub process : (c : ℕ) → (buf : List ℕ) → (len : ℕ) → M (Option ℕ)
  process c buf len = do
    first ← deref (get_elem? buf 0)
    dispatch (to_type (first / 2 ^ 4 % 16)) c buf len

  -- `memmove` of the bytes that are left to the front.
  unfoldable pub keep_rest : (c offset len : ℕ) → M (Option ℕ)
  keep_rest c zero len = pure (some 0)
  keep_rest c (suc k) len = do
    conn ← get_connection c
    let buf = conn.recv_buffer
    set_connection c (record conn {
      recv_buffer = take (len - suc k) (drop (suc k) buf) ++ drop (len - suc k) buf;
      cur_buf_pos = len - suc k;
    })
    pure (some 0)

  -- What a round does with the packet that `remain_length` found. The rest of the loop is an
  -- argument: it is given the length of the packet that was processed.
  unfoldable pub framed_round :
      (c offset len : ℕ) → (buf : List ℕ) → (rest : ℕ → M (Option ℕ)) → Framed → M (Option ℕ)
  framed_round c offset len buf rest out_of_bounds = λ w. none
  framed_round c offset len buf rest (refused need_more_data) = keep_rest c offset len
  framed_round c offset len buf rest (refused failure) = pure none
  framed_round c offset len buf rest (framed value bytes) = do
    res ← process c buf ((value + bytes + 1) % 2 ^ 32)
    elim res [ none ↦ pure none | some _ ↦ rest ((value + bytes + 1) % 2 ^ 32) ]

  unfoldable pub round : (c offset len : ℕ) → (rest : ℕ → M (Option ℕ)) → M (Option ℕ)
  round c offset len rest = do
    conn ← get_connection c
    let buf = drop offset conn.recv_buffer
    framed_round c offset len buf rest (remain_length buf (len - offset))

  unfoldable pub all_processed : ℕ → M (Option ℕ)
  all_processed c = do
    conn ← get_connection c
    set_connection c (record conn { cur_buf_pos = 0 })
    pure (some 0)

  -- Every packet has a byte at least, so `len + 1` rounds are enough; out of fuel has no result.
  unfoldable pub process_packets : (fuel c offset len : ℕ) → M (Option ℕ)
  process_packets zero c offset len = λ w. none
  process_packets (suc fuel) c offset len =
      let rest : ℕ → M (Option ℕ) =
        λ total. process_packets fuel c ((offset + total) % 2 ^ 32) len in
      if ltb offset len then round c offset len rest else all_processed c

  -- `process_mqtt(m_recv_buffer, m_cur_buf_pos)`
  unfoldable pub process_mqtt : (c : ℕ) → M (Option ℕ)
  process_mqtt c = do
    conn ← get_connection c
    elim conn.client_context [
      | none ↦ pure tt
      | some x ↦ do
        ctx ← get_context x
        now ← gets (λ w. w.now)
        set_context x (record ctx { last_msg_time = now })
    ]
    process_packets (suc conn.cur_buf_pos) c 0 conn.cur_buf_pos

  -- MAX_BUF_SIZE
  abbrev pub max_buf_size : ℕ
  max_buf_size = 4096

  -- What `::read` answers with `room` bytes of room.
  unfoldable pub sys_read : (room : ℕ) → M Received
  sys_read room = do
    n ← gets (λ w. w.calls)
    modify (λ w. record w { calls = w.calls + 1 })
    pure (sys.read n room)

  -- The bytes that were read are behind those that were left of the last packet.
  unfoldable pub take_input : (c : ℕ) → (bytes : List ℕ) → M (Option ℕ)
  take_input c [] = pure none
  take_input c (b ∷ bytes) = do
    conn ← get_connection c
    now ← gets (λ w. w.now)
    set_connection c (record conn {
      recv_buffer = overwrite conn.recv_buffer conn.cur_buf_pos (b ∷ bytes);
      cur_buf_pos = conn.cur_buf_pos + length (b ∷ bytes);
      recv_times = (conn.recv_times + 1) % 2 ^ 64;
      recv_bytes = (conn.recv_bytes + length (b ∷ bytes)) % 2 ^ 64;
      last_msg_time = now;
    })
    process_mqtt c

  -- `none` is -1, after which the poller closes the connection.
  unfoldable pub handle_input : (c : ℕ) → M (Option ℕ)
  handle_input c = do
    conn ← get_connection c
    let room = max_buf_size - conn.cur_buf_pos
    answer ← sys_read room
    elim answer [
      | unread e ↦ do
        modify (λ w. record w { errno = e })
        if would_block e then pure (some 0) else pure none
      | received bytes ↦ take_input c (take room bytes)
    ]

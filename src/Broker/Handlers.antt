-- ===== src/Broker/Handlers.antt =====
-- src/mqtt_server/mqtt_connection.cpp, `CMqttConnection`: the packets of the receive buffer, one
-- after the other, and what each message does. `none` as a result is -1.
pub mod Input
pub mod Fuel
pub mod Stranger
use mqtt_server.Prelude.{
  ℕ, zero, suc, ◌+◌, ◌-◌, ◌/◌, ◌%◌, ◌^◌, ◌*◌, List, [], ◌∷◌, ◌++◌, Option, none, some, Bool, true,
  false, not, ◌==◌, ◌&&◌, ltb, length, replicate, set, take, if◌then◌else◌,
}
use mqtt_server.Prelude.Keyed.{same}
use mqtt_server.Pkt.{Pkt, Res, ok, err, fault, stuck, new_pkt}
use mqtt_server.Msg.{FixedHeader, plain_header, connack, puback, suback, unsuback, pingresp}
use mqtt_server.Msg.Ack.{
  AckCode, accepted, bad_version, bad_id, encode_connack, encode_puback, decode_puback,
  encode_suback, encode_unsuback, encode_pingresp,
}
use mqtt_server.Msg.Connect.{Connect, decode_connect, mqisdp, mqtt}
use mqtt_server.Msg.Publish.{Publish, decode_publish}
use mqtt_server.Msg.Subscribe.{
  Topic, Subscribe, Unsubscribe, decode_subscribe, decode_unsubscribe, topics_name, topics_qos,
}
use mqtt_server.Mbuf.{Mbuf, init, skip_write, copy}
use mqtt_server.MsgStore.{next_msg_id, add_msg}
use mqtt_server.Broker.{
  World, Kernel, Context, Connection, ClientStatus, cs_new, cs_connected, cs_disconnected, M, ◌>>=◌,
  ◌>>◌, pure, gets, modify, deref, get_context, set_context, get_connection, set_connection,
}
use mqtt_server.Broker.ClientIds
use mqtt_server.Broker.Session
use mqtt_server.Broker.Session.{new_context}
use mqtt_server.Broker.Topics
use mqtt_server.Broker.Close.{handle_close}
use mqtt_server.Broker.Sender.{put}
use mqtt_server.Broker.Reply.{decoded, client_context, reply}
use mqtt_server.Broker.Publisher
use mqtt_server.Broker.Publisher.{new_mbuf}

abbrev pub is_connected : ClientStatus → Bool
is_connected cs_connected = true
is_connected _ = false

unfoldable pub ack_code_of : Connect → AckCode
ack_code_of m =
    if not (m.proto_version == 3) && not (m.proto_version == 4)
    then bad_version
    else if m.proto_version == 3 && not (same m.proto_name mqisdp)
    then bad_version
    else if m.proto_version == 4 && not (same m.proto_name mqtt)
    then bad_version
    else accepted

module _ (sys : Kernel) where
  unfoldable pub bind_context : ℕ → Connect → M Unit
  bind_context c m = do
    known ← gets (ClientIds.find_client_context m.client_id)
    elim known [
      | some x ↦ do
        old ← get_context x
        elim old.mqtt_connection [ none ↦ pure tt | some last ↦ handle_close last ]
        ctx ← get_context x
        set_context x (record (Session.init ctx m) { mqtt_connection = some c })
        conn ← get_connection c
        set_connection c (record conn { client_context = some x })
      | none ↦ do
        x ← client_context sys c
        ctx ← get_context x
        set_context x (Session.init ctx m)
        modify (λ w. (ClientIds.add_client_context m.client_id x w).1)
    ]
    x ← client_context sys c
    ctx ← get_context x
    conn ← get_connection c
    now ← gets (λ w. w.now)
    set_context x (record ctx {
      accept_time = conn.accept_time;
      connect_time = now;
      remote_addr = conn.peer_addr;
    })

  -- The loop over the messages that were not acknowledged; it stops at the first that fails.
  unfoldable pub send_offline : (c : ℕ) → (res : Option ℕ) → List ℕ → M (Option ℕ)
  send_offline c res [] = pure res
  send_offline c res (b ∷ queue) = do
    sent ← put sys c b
    let rest = send_offline c sent queue
    elim sent [ none ↦ pure none | some _ ↦ rest ]

  abbrev pub no_id : List ℕ → Bool
  no_id [] = true
  no_id (_ ∷ _) = false

  -- What `put` answers takes the place of the -1 of a refused client.
  unfoldable pub handle_connect_msg : (c : ℕ) → Pkt → M (Option ℕ)
  handle_connect_msg c p = do
    msg ← decoded (decode_connect p)
    elim msg [
      | none ↦ pure none
      | some m ↦ do
        let code = if no_id m.client_id then bad_id else ack_code_of m
        if no_id m.client_id then pure tt else bind_context c m
        res ← reply sys c 32 (encode_connack (plain_header connack) code)
        x ← client_context sys c
        ctx ← get_context x
        send_offline c res ctx.send_msg_queue
    ]

  -- `buf[i] = v`, where `i` lies in the packet.
  abbrev pub with_msg_id : List ℕ → (offset len msg_id : ℕ) → List ℕ
  with_msg_id buf offset len msg_id =
      if ltb offset len
      then set (set buf offset (msg_id / 2 ^ 8 % 2 ^ 8)) (offset + 1) (msg_id % 2 ^ 8)
      else buf

  -- `buf` is the end of the receive buffer of the connection, and is changed there.
  unfoldable pub change_msg_id : (c : ℕ) → (old bytes : List ℕ) → M Unit
  change_msg_id c old bytes = do
    conn ← get_connection c
    let buf = conn.recv_buffer
    set_connection c (record conn { recv_buffer = take (length buf - length old) buf ++ bytes })

  -- The buffer that goes to the subscribers: the packet with the broker's message id. It is
  -- registered before the bytes are copied.
  unfoldable pub forward_publish : (c : ℕ) → Pkt → Publish → M Unit
  forward_publish c p m = do
    id ← gets (λ w. (next_msg_id w.store).0)
    modify (λ w. record w { store = (next_msg_id w.store).1 })
    now ← gets (λ w. w.now)
    b ← gets (λ w. length w.mbufs)
    if id == 0
        then pure tt
        else modify (λ w. record w { store = add_msg w.store id (some b) w.now })
    let fresh = record (init (replicate p.max_size 0) now) { msg_id = id }
    let bytes = with_msg_id p.mem m.offset_msg_id p.max_size (id % 2 ^ 16)
    change_msg_id c p.mem bytes
    let full : Mbuf = elim (copy fresh (take p.max_size bytes)) [ none ↦ fresh | some f ↦ f ]
    new_mbuf full
    Publisher.publish sys m.topic_name b m.base.fixed_header.retain_flag m.payload
    pure tt

  unfoldable pub handle_publish_msg : (c : ℕ) → Pkt → M (Option ℕ)
  handle_publish_msg c p = do
    x ← client_context sys c
    ctx ← get_context x
    if is_connected ctx.client_status
        then (do
          msg ← decoded (decode_publish p)
          elim msg [
            | none ↦ pure none
            | some m ↦ do
              res ← reply sys c 64 (encode_puback (plain_header puback) m.msg_id)
              forward_publish c p m
              pure res
          ])
        else pure none

  unfoldable pub handle_puback_msg : (c : ℕ) → Pkt → M (Option ℕ)
  handle_puback_msg c p = do
    msg ← decoded (decode_puback p)
    elim msg [
      | none ↦ pure none
      | some id ↦ do x ← client_context sys c; Session.ack_msg x id; pure (some 0)
    ]

  unfoldable pub subscribe_names : (c : ℕ) → List (List ℕ) → M Unit
  subscribe_names c [] = pure tt
  subscribe_names c (topic ∷ topics) = do
    x ← client_context sys c
    Publisher.add_client_context sys topic x
    subscribe_names c topics

  unfoldable pub handle_subscribe_msg : (c : ℕ) → Pkt → M (Option ℕ)
  handle_subscribe_msg c p = do
    x ← client_context sys c
    ctx ← get_context x
    if is_connected ctx.client_status
        then (do
          msg ← decoded (decode_subscribe p)
          elim msg [
            | none ↦ pure none
            | some m ↦ do
              set_context x (Session.add_subcribe_topics ctx m.sub_topics)
              res ←
                  reply sys c 64
                    (encode_suback (plain_header suback) m.msg_id (topics_qos m.sub_topics))
              subscribe_names c (topics_name m.sub_topics)
              pure res
          ])
        else pure none

  unfoldable pub unsubscribe_names : (c : ℕ) → List (List ℕ) → M Unit
  unsubscribe_names c [] = pure tt
  unsubscribe_names c (topic ∷ topics) = do
    x ← client_context sys c
    modify (λ w. (Topics.del_client_context topic x w).1)
    unsubscribe_names c topics

  -- The session keeps the topics in its own list.
  unfoldable pub handle_unsubscribe_msg : (c : ℕ) → Pkt → M (Option ℕ)
  handle_unsubscribe_msg c p = do
    x ← client_context sys c
    ctx ← get_context x
    if is_connected ctx.client_status
        then (do
          msg ← decoded (decode_unsubscribe p)
          elim msg [
            | none ↦ pure none
            | some m ↦ do
              unsubscribe_names c m.topics
              reply sys c 64 (encode_unsuback (plain_header unsuback) m.msg_id)
          ])
        else pure none

  unfoldable pub handle_pingreq_msg : (c : ℕ) → M (Option ℕ)
  handle_pingreq_msg c = reply sys c 4 (encode_pingresp (plain_header pingresp))

  unfoldable pub handle_disconnect_msg : (c : ℕ) → M (Option ℕ)
  handle_disconnect_msg c = do
    x ← client_context sys c
    ctx ← get_context x
    now ← gets (λ w. w.now)
    set_context x (record ctx { client_status = cs_disconnected; discon_time = now })
    pure (some 0)

-- ===== src/Bridge.antt =====
-- src/mqtt_server/tcp_client.cpp: `TCPClient`, the client of another server that hands the
-- messages of one topic to the reactor of this server. It runs in a thread of its own; its socket
-- blocks, and `write` fills the whole loop of `write_n`. In `World.wire` its sockets have numbers
-- like those of the connections.
pub mod Service
pub mod Packet
pub mod Stream
pub mod Forward
use mqtt_server.Prelude.{
  ℕ, zero, suc, ◌+◌, ◌-◌, ◌/◌, ◌%◌, ◌^◌, List, [], ◌∷◌, ◌++◌, Option, none, some, Bool, true, false,
  ◌==◌, ltb, take, drop, replicate, get_elem?, if◌then◌else◌,
}
use mqtt_server.Mbuf.{Mbuf, init, copy, msg_publish}
use mqtt_server.Pkt.{
  Pkt, Res, ok, err, fault, stuck, new_pkt, remain_length, Framed, framed, refused, out_of_bounds,
  failure, need_more_data,
}
use mqtt_server.Msg.{
  MqttType, to_type, plain_header, connect, connack, publish, puback, subscribe, suback, pingreq,
  pingresp, disconnect,
}
use mqtt_server.Msg.Ack.{encode_pingreq, encode_disconnect, encode_puback}
use mqtt_server.Msg.Connect.{encode_connect}
use mqtt_server.Msg.Publish.{Publish, decode_publish}
use mqtt_server.Msg.Subscribe.{encode_subscribe}
use mqtt_server.Broker.{Kernel, M, ◌>>=◌, ◌>>◌, pure, gets, deref}
use mqtt_server.Broker.Publisher.{new_mbuf}
use mqtt_server.Broker.Sender.WriteN.{write_n}
use mqtt_server.Broker.Notify.{Reactor, notify}

-- `reactor` is the notifying part of `m_reactor`.
pub record Client : Type 0 where
  pub client_id : List ℕ
  pub topic_name : List ℕ
  pub topic_qos : ℕ
  pub client_socket : ℕ
  pub recv_buffer : List ℕ
  pub cur_buf_pos : ℕ
  pub reactor : Reactor

-- A buffer on the stack.
abbrev pub stack_pkt : ℕ → Pkt
stack_pkt size = new_pkt (replicate size 0) size

-- `make_shared<CMbuf>(len)`, `copy`, the id of the packet and MSG_PUBLISH.
abbrev pub bridged : (buf : List ℕ) → (len msg_id now : ℕ) → Mbuf
bridged buf len msg_id now =
    let fresh = init (replicate len 0) now in
    let full : Mbuf = elim (copy fresh (take len buf)) [ none ↦ fresh | some m ↦ m ] in
    record full { msg_id = msg_id; msg_type = msg_publish }

-- `memmove` of the bytes that are left to the front.
unfoldable pub keep_rest : (offset len : ℕ) → Client → Client
keep_rest zero len t = t
keep_rest (suc k) len t = record t {
  recv_buffer = take (len - suc k) (drop (suc k) t.recv_buffer) ++ drop (len - suc k) t.recv_buffer;
  cur_buf_pos = len - suc k;
}

-- `fuel` bounds the rounds of `write_n`, `wake` is whether the eventfd can be written.
module _ (sys : Kernel) (fuel : ℕ) (wake : Bool) where
  unfoldable pub send_packet : (c : ℕ) → Res (ℕ × Pkt) → M Bool
  send_packet c (ok (zero, q)) = pure false
  send_packet c (ok (suc n, q)) = write_n sys fuel c (take (suc n) q.mem)
  send_packet c (err e q) = pure false
  send_packet c fault = λ w. none
  send_packet c stuck = λ w. none

  unfoldable pub send_connect_msg : Client → M Bool
  unfolding send_packet
  send_connect_msg t =
      send_packet t.client_socket
        (encode_connect (plain_header connect) false t.client_id (stack_pkt 256))

  unfoldable pub send_pingreq_msg : Client → M Bool
  unfolding send_packet
  send_pingreq_msg t =
      send_packet t.client_socket (encode_pingreq (plain_header pingreq) (stack_pkt 16))

  unfoldable pub send_disconnect_msg : Client → M Bool
  unfolding send_packet
  send_disconnect_msg t =
      send_packet t.client_socket (encode_disconnect (plain_header disconnect) (stack_pkt 16))

  unfoldable pub send_subscribe_msg : (msg_id : ℕ) → Client → M (Bool × Client)
  unfolding send_packet
  send_subscribe_msg msg_id t = do
    done ← send_packet t.client_socket (
        encode_subscribe (plain_header subscribe) msg_id
          (record { topic_name = t.topic_name; qos = 1 } ∷ []) (stack_pkt 256))
    pure (done, record t { topic_qos = 1 })

  unfoldable pub send_pub_ack_msg : (msg_id : ℕ) → Client → M Bool
  unfolding send_packet
  send_pub_ack_msg msg_id t =
      send_packet t.client_socket (encode_puback (plain_header puback) msg_id (stack_pkt 16))

  -- What `notify` refuses is gone with its last pointer; it is in no store.
  unfoldable pub take_publish :
      (buf : List ℕ) → (len : ℕ) → Res (Publish × Pkt) → Client → M (Bool × Client)
  take_publish buf len (ok (m, q)) t = do
    now ← gets (λ w. w.now)
    b ← new_mbuf (bridged buf len m.msg_id now)
    let reactor = (notify wake b t.reactor).1
    send_pub_ack_msg m.msg_id t
    pure (true, record t { reactor = reactor })
  take_publish buf len (err e q) t = pure (false, t)
  take_publish buf len fault t = λ w. none
  take_publish buf len stuck t = λ w. none

  -- `false` is -1.
  unfoldable pub on_packet : MqttType → (buf : List ℕ) → (len : ℕ) → Client → M (Bool × Client)
  on_packet connack buf len t = do (done, t') ← send_subscribe_msg 1 t; pure (true, t')
  on_packet publish buf len t = take_publish buf len (decode_publish (new_pkt buf len)) t
  on_packet suback buf len t = pure (true, t)
  on_packet pingresp buf len t = pure (true, t)
  on_packet _ buf len t = pure (false, t)

  unfoldable pub process_mqtt : (buf : List ℕ) → (len : ℕ) → Client → M (Bool × Client)
  process_mqtt buf len t = do
    first ← deref (get_elem? buf 0)
    on_packet (to_type (first / 2 ^ 4 % 16)) buf len t

  -- A round of the loop of `process`; `rest` is the loop behind the packet of this round.
  unfoldable pub packet_round :
      (offset len : ℕ)
      → (rest : ℕ → Client → M (Bool × Client)) → Client
      → Framed
      → M (Bool × Client)
  packet_round offset len rest t out_of_bounds = λ w. none
  packet_round offset len rest t (refused need_more_data) = pure (true, keep_rest offset len t)
  packet_round offset len rest t (refused failure) = pure (false, t)
  packet_round offset len rest t (framed value bytes) = do
    let total = (value + bytes + 1) % 2 ^ 32
    (done, t') ← process_mqtt (drop offset t.recv_buffer) total t
    if done then rest total t' else pure (false, t')

  -- Every packet has a byte at least, so `len + 1` rounds are enough; out of fuel has no result.
  unfoldable pub process_packets : (rounds offset len : ℕ) → Client → M (Bool × Client)
  process_packets zero offset len t = λ w. none
  process_packets (suc rounds) offset len t =
      let rest : ℕ → Client → M (Bool × Client) =
        λ total t'. process_packets rounds ((offset + total) % 2 ^ 32) len t' in
      if ltb offset len
      then packet_round offset len rest t (remain_length (drop offset t.recv_buffer) (len - offset))
      else pure (true, record t { cur_buf_pos = 0 })

  unfoldable pub process : Client → M (Bool × Client)
  process t = process_packets (suc t.cur_buf_pos) 0 t.cur_buf_pos t

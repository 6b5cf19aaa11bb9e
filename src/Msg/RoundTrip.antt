-- ===== src/Msg/RoundTrip.antt =====
-- A message that an encoder writes is read back by the decoder of its class.
pub mod Connect
use mqtt_server.Prelude.{
  ℕ, ◌+◌, ◌%◌, ◌<◌, ◌^◌, ◌≡◌, refl, sym, ap, ◌∙◌, arith, Bool, true, false, List, [], ◌∷◌, length,
  drop, append-nil,
}
use mqtt_server.Prelude.Memory.{overwrite, overwrite-zero}
use mqtt_server.Pkt.{Pkt, ok, new_pkt, advance}
use mqtt_server.Pkt.Read.{short_bytes}
use mqtt_server.Pkt.Fill.{fill}
use mqtt_server.Pkt.RemainLength.{remain_bytes, length-remain_bytes}
use mqtt_server.Msg.{FixedHeader, connect, subscribe, puback}
use mqtt_server.Msg.Header.{packet}
use mqtt_server.Msg.Publish.{encode_publish, decode_publish}
use mqtt_server.Msg.Subscribe.{Topic, encode_subscribe, decode_subscribe}
use mqtt_server.Msg.Ack.{encode_puback, decode_puback}
use mqtt_server.Msg.Encode.{Fresh}
use mqtt_server.Msg.Encode.Publish.{publish_body, length-publish_body, encode_publish-Fresh}
use mqtt_server.Msg.Encode.Subscribe.{subscribe_body, FitsTopics, encode_subscribe-Fresh}
use mqtt_server.Msg.Encode.Ack.{encode_msg_id-Fresh}
use mqtt_server.Msg.Encode.Connect.{
  connect_bytes, length-connect_bytes, connect_flag, encode_connect-Fresh,
}
use mqtt_server.Msg.Decode.{base_of, received}
use mqtt_server.Msg.Decode.Publish.{decode_publish-received, id_cursor}
use mqtt_server.Msg.Decode.Subscribe.{decode_subscribe-received}
use mqtt_server.Msg.Decode.Ack.{decode_puback-received}
use mqtt_server.Msg.Decode.Connect.{Fields, connect_layout, connect_of, decode_connect-received}

-- The buffer that holds the packet, as its receiver is given it.
sent :
    {p : Pkt} (h : FixedHeader) (body : List ℕ)
    → Fresh p (packet h body)
    → let q = fill p (packet h body) in
      (new_pkt q.mem q.offset ≡ received h body (drop (length (packet h body)) p.mem))
      × (length (packet h body) ≡ q.offset)
sent {p} h body f =
    let bytes = packet h body in
    let start : overwrite p.mem p.offset bytes ≡ overwrite p.mem 0 bytes =
      ap (λ (o : ℕ). overwrite p.mem o bytes) f.start in
    let mem = start ∙ overwrite-zero p.mem bytes (omega (arith, f.room.fits, f.room.backed)) in
    let count : (p.offset + length bytes) % 2 ^ 32 ≡ length bytes =
      omega (arith, f.start, f.room.fits, f.room.small) in
    (λ i. record { mem = mem i; offset = 0; max_size = count i }, sym count)

-- A publish message that is encoded into a fresh buffer with room for it, with a QoS below 4, a
-- 16-bit message id and a body below 2 ^ 14 bytes, is decoded to its header, topic, message id
-- and payload, and to the place of the message id in the packet.
pub publish_round_trip :
    {p : Pkt} (h : FixedHeader) (topic : List ℕ) (msg_id : ℕ) (payload : List ℕ)
    → h.qos < 4
    → msg_id < 2 ^ 16
    → length topic + length payload + 4 < 2 ^ 14
    → Fresh p (packet h (publish_body topic msg_id payload))
    → let body = publish_body topic msg_id payload in
      (q r : Pkt) × (encode_publish h topic msg_id payload p ≡ ok (q.offset, q))
      × (decode_publish (new_pkt q.mem q.offset)
          ≡ ok (
            record {
              base = base_of h body;
              topic_name = topic;
              payload = payload;
              msg_id = msg_id;
              offset_msg_id = 1 + length (remain_bytes (length body)) + 2 + length topic;
            },
            r,
          ))
publish_round_trip {p} h topic msg_id payload hq hm hi f =
    let body = publish_body topic msg_id payload in
    let n = length-publish_body topic msg_id payload in
    let (buffer, count) = sent h body f in
    let (_, few) = length-remain_bytes (length body) in
    let tail = drop (length (packet h body)) p.mem in
    let last = advance (advance (id_cursor h topic msg_id payload tail) 2) (length payload) in
    let e = encode_publish-Fresh h topic msg_id payload (omega (arith, n)) hm f in
    let place : (id_cursor h topic msg_id payload tail).offset
        ≡ 1 + length (remain_bytes (length body)) + 2 + length topic =
      omega (arith, n) in
    (
      fill p (packet h body),
      last,
      e ∙ ap (λ (m : ℕ). ok (m, fill p (packet h body))) count,
      ap decode_publish buffer
          ∙ decode_publish-received h topic msg_id payload tail hq hm (omega (arith, n))
          ∙ ap
              (λ (o : ℕ). ok (
                record {
                  base = base_of h body;
                  topic_name = topic;
                  payload = payload;
                  msg_id = msg_id;
                  offset_msg_id = o;
                },
                last,
              ))
              place,
    )

-- A subscribe message that is encoded into a fresh buffer with room for it, with a QoS below 4,
-- a 16-bit message id, one topic at least, topics of fewer than 2 ^ 16 bytes and a body below
-- 2 ^ 14 bytes, is decoded to its header, message id and topics.
pub subscribe_round_trip :
    {p : Pkt} (h : FixedHeader) (msg_id : ℕ) (t : Topic) (ts : List Topic)
    → h.msg_type ≡ subscribe
    → h.qos < 4
    → msg_id < 2 ^ 16
    → FitsTopics (t ∷ ts)
    → length (subscribe_body msg_id (t ∷ ts)) < 2 ^ 14
    → Fresh p (packet h (subscribe_body msg_id (t ∷ ts)))
    → (q r : Pkt) × (encode_subscribe h msg_id (t ∷ ts) p ≡ ok (q.offset, q))
      × (decode_subscribe (new_pkt q.mem q.offset)
          ≡ ok (
            record {
              base = base_of h (subscribe_body msg_id (t ∷ ts));
              msg_id = msg_id;
              sub_topics = t ∷ ts;
            },
            r,
          ))
subscribe_round_trip {p} h msg_id t ts ht hq hm fit hi f =
    let body = subscribe_body msg_id (t ∷ ts) in
    let (buffer, count) = sent h body f in
    let tail = drop (length (packet h body)) p.mem in
    let e = encode_subscribe-Fresh h msg_id t ts hm fit f in
    let (r, d) = decode_subscribe-received h msg_id (t ∷ ts) tail ht hq hm fit hi in
    (
      fill p (packet h body),
      r,
      e ∙ ap (λ (m : ℕ). ok (m, fill p (packet h body))) count,
      ap decode_subscribe buffer ∙ d,
    )

-- The acknowledgement of a publish message, encoded into a fresh buffer with room for it, with a
-- QoS below 4 in its header and a 16-bit message id, takes 4 bytes and is decoded to that id.
pub puback_round_trip :
    {p : Pkt} (h : FixedHeader) (msg_id : ℕ)
    → h.msg_type ≡ puback
    → h.qos < 4
    → msg_id < 2 ^ 16
    → Fresh p (packet h (short_bytes msg_id))
    → (q r : Pkt) × (encode_puback h msg_id p ≡ ok (4, q))
      × (decode_puback (new_pkt q.mem q.offset) ≡ ok (msg_id, r))
puback_round_trip {p} h msg_id ht hq hm f =
    let body : List ℕ = short_bytes msg_id in
    let (buffer, count) = sent h body f in
    let tail = drop (length (packet h body)) p.mem in
    let (r, d) = decode_puback-received h msg_id tail ht hq hm in
    (fill p (packet h body), r, encode_msg_id-Fresh h msg_id hm f, ap decode_puback buffer ∙ d)

-- ===== src/Runs/Codec.antt =====
-- The codec at concrete packets and buffers.
use mqtt_server.Prelude.{
  ℕ, ◌+◌, ◌≤◌, ◌≡◌, refl, arith, true, false, List, [], ◌∷◌, ◌++◌, length, replicate,
}
use mqtt_server.Pkt.{Pkt, ok, new_pkt}
use mqtt_server.Pkt.Fill.{fill}
use mqtt_server.Pkt.Read.{short_bytes}
use mqtt_server.Pkt.RemainLength.{remain_bytes, groups}
use mqtt_server.Msg.{
  FixedHeader, plain_header, connect, publish, subscribe, unsubscribe, puback, suback,
}
use mqtt_server.Msg.Header.{packet}
use mqtt_server.Msg.Ack.{encode_puback, decode_puback, decode_suback, encode_suback}
use mqtt_server.Msg.Connect.{mqisdp, encode_connect, decode_connect}
use mqtt_server.Msg.Publish.{encode_publish, decode_publish}
use mqtt_server.Msg.Subscribe.{Topic, encode_subscribe, decode_subscribe, decode_unsubscribe}
use mqtt_server.Msg.Encode.{Fresh}
use mqtt_server.Msg.Encode.Ack.{encode_suback-Fresh}
use mqtt_server.Msg.Encode.Publish.{publish_body}
use mqtt_server.Msg.Encode.Subscribe.{subscribe_body, topics_bytes}
use mqtt_server.Msg.Encode.Connect.{connect_bytes}
use mqtt_server.Msg.Decode.{base_of, received}
use mqtt_server.Msg.Decode.Ack.{decode_suback-received}
use mqtt_server.Msg.Decode.Connect.{Fields, connect_layout, connect_of, decode_connect-received}
use mqtt_server.Msg.Decode.Subscribe.{names_bytes, decode_unsubscribe-received}
use mqtt_server.Msg.RoundTrip.Connect.{connect_round_trip}
use mqtt_server.Msg.RoundTrip.{publish_round_trip, subscribe_round_trip, puback_round_trip}

-- A new message on a buffer of 64 bytes.
abbrev pub buffer : Pkt
buffer = new_pkt (replicate 64 0) 64

buffer-Fresh : (bytes : List ℕ) → length bytes ≤ 64 → Fresh buffer bytes
buffer-Fresh bytes h = record {
  start = refl;
  room = record { fits = omega arith; small = omega arith; backed = omega arith };
  memory = omega arith;
}

abbrev client : List ℕ
client = 99 ∷ 49 ∷ []

abbrev topic : List ℕ
topic = 97 ∷ 47 ∷ 98 ∷ []

abbrev pub publish_header : FixedHeader
publish_header = record { msg_type = publish; dup_flag = false; qos = 1; retain_flag = true }

publish_size : length (packet publish_header (publish_body topic 7 (1 ∷ 2 ∷ []))) ≡ 11
unfolding packet remain_bytes groups publish_body
publish_size = refl

publish_round_trip_example :
    let body = publish_body topic 7 (1 ∷ 2 ∷ []) in
    (q r : Pkt) × (encode_publish publish_header topic 7 (1 ∷ 2 ∷ []) buffer ≡ ok (q.offset, q))
    × (decode_publish (new_pkt q.mem q.offset)
        ≡ ok (
          record {
            base = base_of publish_header body;
            topic_name = topic;
            payload = 1 ∷ 2 ∷ [];
            msg_id = 7;
            offset_msg_id = 1 + length (remain_bytes (length body)) + 2 + length topic;
          },
          r,
        ))
publish_round_trip_example =
    publish_round_trip {p = buffer} publish_header topic 7 (1 ∷ 2 ∷ []) (omega arith) (omega arith)
      (omega arith)
      (buffer-Fresh (packet publish_header (publish_body topic 7 (1 ∷ 2 ∷ [])))
        (omega (arith, publish_size)))

abbrev wanted : Topic
wanted = record { topic_name = topic; qos = 1 }

subscribe_size :
    (length (packet (plain_header subscribe) (subscribe_body 7 (wanted ∷ []))) ≡ 10)
    × (length (subscribe_body 7 (wanted ∷ [])) ≡ 8)
unfolding packet remain_bytes groups subscribe_body topics_bytes
subscribe_size = (refl, refl)

subscribe_round_trip_example :
    (q r : Pkt) × (encode_subscribe (plain_header subscribe) 7 (wanted ∷ []) buffer
      ≡ ok (q.offset, q))
    × (decode_subscribe (new_pkt q.mem q.offset)
        ≡ ok (
          record {
            base = base_of (plain_header subscribe) (subscribe_body 7 (wanted ∷ []));
            msg_id = 7;
            sub_topics = wanted ∷ [];
          },
          r,
        ))
subscribe_round_trip_example =
    subscribe_round_trip {p = buffer} (plain_header subscribe) 7 wanted [] refl (omega arith)
      (omega arith) (omega arith, tt) (omega (arith, subscribe_size.1))
      (buffer-Fresh (packet (plain_header subscribe) (subscribe_body 7 (wanted ∷ [])))
        (omega (arith, subscribe_size.0)))

puback_size : length (packet (plain_header puback) (short_bytes 7)) ≡ 4
unfolding packet remain_bytes groups
puback_size = refl

puback_round_trip_example :
    (q r : Pkt) × (encode_puback (plain_header puback) 7 buffer ≡ ok (4, q))
    × (decode_puback (new_pkt q.mem q.offset) ≡ ok (7, r))
puback_round_trip_example =
    puback_round_trip {p = buffer} (plain_header puback) 7 refl (omega arith) (omega arith)
      (buffer-Fresh (packet (plain_header puback) (short_bytes 7)) (omega (arith, puback_size)))

connect_size : length (packet (plain_header connect) (connect_bytes true client)) ≡ 18
unfolding packet remain_bytes groups connect_bytes
connect_size = refl

connect_round_trip_example :
    let body = connect_bytes true client in
    (q r : Pkt) × (encode_connect (plain_header connect) true client buffer ≡ ok (q.offset, q))
    × (decode_connect (new_pkt q.mem q.offset)
        ≡ ok (
          record {
            base = base_of (plain_header connect) body;
            proto_name = mqisdp;
            proto_version = 3;
            has_user_name = false;
            has_password = false;
            has_will_retain = false;
            will_qos = 0;
            has_will = false;
            clean_session = true;
            keep_alive = 60;
            client_id = client;
            will_topic = [];
            will_message = [];
            user_name = [];
            password = [];
          },
          r,
        ))
connect_round_trip_example =
    connect_round_trip {p = buffer} (plain_header connect) true client refl (omega arith)
      (omega arith)
      (buffer-Fresh (packet (plain_header connect) (connect_bytes true client))
        (omega (arith, connect_size)))

-- A will, a user name and a password.
abbrev full_fields : Fields
full_fields = record {
  proto_name = mqisdp;
  proto_version = 3;
  flag = 0xc6;
  keep_alive = 60;
  client_id = client;
  will_topic = topic;
  will_message = 1 ∷ [];
  user_name = 2 ∷ [];
  password = 3 ∷ [];
}

full_size : length (connect_layout full_fields) ≡ 30
unfolding connect_layout
full_size = refl

decode_connect-received_example :
    (q : Pkt) × (decode_connect
        (received (plain_header connect) (connect_layout full_fields) (5 ∷ []))
      ≡ ok (connect_of (plain_header connect) full_fields, q))
decode_connect-received_example =
    decode_connect-received (plain_header connect) full_fields (5 ∷ []) refl (omega arith)
      (record {
        proto_name = omega arith;
        keep_alive = omega arith;
        client_id = omega arith;
        will_topic = omega arith;
        will_message = omega arith;
        user_name = omega arith;
        password = omega arith;
      })
      (omega (arith, full_size))

names_size : length (short_bytes 7 ++ names_bytes (topic ∷ [])) ≡ 7
unfolding names_bytes
names_size = refl

decode_unsubscribe-received_example :
    let body = short_bytes 7 ++ names_bytes (topic ∷ []) in
    (q : Pkt) × (decode_unsubscribe (received (plain_header unsubscribe) body [])
      ≡ ok (
        record { base = base_of (plain_header unsubscribe) body; msg_id = 7; topics = topic ∷ [] },
        q,
      ))
decode_unsubscribe-received_example =
    decode_unsubscribe-received (plain_header unsubscribe) 7 (topic ∷ []) [] refl (omega arith)
      (omega arith) (omega arith, tt) (omega (arith, names_size))

decode_suback-received_example :
    (q : Pkt) × (decode_suback (received (plain_header suback) (0 ∷ 7 ∷ 1 ∷ []) [])
      ≡ ok (0 ∷ 7 ∷ 1 ∷ [], q))
decode_suback-received_example =
    decode_suback-received (plain_header suback) (0 ∷ 7 ∷ 1 ∷ []) [] refl (omega arith)
      (omega arith) (omega arith)

suback_size : length (packet (plain_header suback) (short_bytes 7 ++ 1 ∷ [])) ≡ 5
unfolding packet remain_bytes groups
suback_size = refl

encode_suback-Fresh_example :
    let bytes = packet (plain_header suback) (short_bytes 7 ++ 1 ∷ []) in
    encode_suback (plain_header suback) 7 (1 ∷ []) buffer ≡ ok (length bytes, fill buffer bytes)
encode_suback-Fresh_example =
    encode_suback-Fresh {p = buffer} (plain_header suback) 7 (1 ∷ []) (omega arith) (
      buffer-Fresh (packet (plain_header suback) (short_bytes 7 ++ 1 ∷ []))
        (omega (arith, suback_size)))

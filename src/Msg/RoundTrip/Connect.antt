-- ===== src/Msg/RoundTrip/Connect.antt =====
-- A connect message that `CMqttConnect::encode` writes is read back by `CMqttConnect::decode`.
use mqtt_server.Prelude.{
  ℕ, ◌+◌, ◌<◌, ◌^◌, ◌≡◌, refl, sym, ap, ◌∙◌, arith, Bool, true, false, List, [], length, drop,
  append-nil,
}
use mqtt_server.Pkt.{Pkt, ok, new_pkt}
use mqtt_server.Pkt.Fill.{fill}
use mqtt_server.Msg.{FixedHeader, connect}
use mqtt_server.Msg.Header.{packet}
use mqtt_server.Msg.Connect.{Connect, mqisdp, encode_connect, decode_connect}
use mqtt_server.Msg.Encode.{Fresh}
use mqtt_server.Msg.Encode.Connect.{
  connect_bytes, length-connect_bytes, connect_flag, encode_connect-Fresh,
}
use mqtt_server.Msg.Decode.{base_of, received}
use mqtt_server.Msg.Decode.Connect.{Fields, connect_layout, connect_of, decode_connect-received}
use mqtt_server.Msg.RoundTrip.{sent}

-- What `CMqttConnect::encode` says of itself, as a decoder sees it.
abbrev sent_fields : Bool → List ℕ → Fields
sent_fields clean_session client_id = record {
  proto_name = mqisdp;
  proto_version = 3;
  flag = connect_flag clean_session;
  keep_alive = 60;
  client_id = client_id;
  will_topic = [];
  will_message = [];
  user_name = [];
  password = [];
}

sent_layout :
    (clean_session : Bool) (client_id : List ℕ)
    → connect_layout (sent_fields clean_session client_id) ≡ connect_bytes clean_session client_id
unfolding connect_layout connect_bytes
sent_layout true client_id = simp append-nil
sent_layout false client_id = simp append-nil

sent_message :
    (h : FixedHeader) (clean_session : Bool) (client_id : List ℕ)
    → connect_layout (sent_fields clean_session client_id) ≡ connect_bytes clean_session client_id
    → connect_of h (sent_fields clean_session client_id) ≡ record {
      base = base_of h (connect_bytes clean_session client_id);
      proto_name = mqisdp;
      proto_version = 3;
      has_user_name = false;
      has_password = false;
      has_will_retain = false;
      will_qos = 0;
      has_will = false;
      clean_session = clean_session;
      keep_alive = 60;
      client_id = client_id;
      will_topic = [];
      will_message = [];
      user_name = [];
      password = [];
    }
sent_message h true client_id e = rw e refl
sent_message h false client_id e = rw e refl

-- A connect message that is encoded into a fresh buffer with room for it, with a QoS below 4 in
-- its header and a body below 2 ^ 14 bytes, is decoded to the protocol name MQIsdp, version 3, a
-- keep-alive of 60 seconds, the client id and the clean session flag that were encoded, and no
-- will, user name or password.
pub connect_round_trip :
    {p : Pkt} (h : FixedHeader) (clean_session : Bool) (client_id : List ℕ)
    → h.msg_type ≡ connect
    → h.qos < 4
    → length client_id + 14 < 2 ^ 14
    → Fresh p (packet h (connect_bytes clean_session client_id))
    → let body = connect_bytes clean_session client_id in
      (q r : Pkt) × (encode_connect h clean_session client_id p ≡ ok (q.offset, q))
      × (decode_connect (new_pkt q.mem q.offset)
          ≡ ok (
            record {
              base = base_of h body;
              proto_name = mqisdp;
              proto_version = 3;
              has_user_name = false;
              has_password = false;
              has_will_retain = false;
              will_qos = 0;
              has_will = false;
              clean_session = clean_session;
              keep_alive = 60;
              client_id = client_id;
              will_topic = [];
              will_message = [];
              user_name = [];
              password = [];
            },
            r,
          ))
connect_round_trip {p} h clean_session client_id ht hq hi f =
    let body = connect_bytes clean_session client_id in
    let n = length-connect_bytes clean_session client_id in
    let c = sent_fields clean_session client_id in
    let layout = sent_layout clean_session client_id in
    let (buffer, count) = sent h body f in
    let tail = drop (length (packet h body)) p.mem in
    let e = encode_connect-Fresh h clean_session client_id (omega arith) f in
    let (r, d) =
      decode_connect-received h c tail ht hq
        (record {
          proto_name = omega arith;
          keep_alive = omega arith;
          client_id = omega arith;
          will_topic = omega arith;
          will_message = omega arith;
          user_name = omega arith;
          password = omega arith;
        })
        (omega (arith, n, ap length layout)) in
    (
      fill p (packet h body),
      r,
      e ∙ ap (λ (m : ℕ). ok (m, fill p (packet h body))) count,
      ap decode_connect buffer
          ∙ ap (λ (b : List ℕ). decode_connect (received h b tail)) (sym layout)
          ∙ d
          ∙ ap (λ (m : Connect). ok (m, r)) (sent_message h clean_session client_id layout),
    )

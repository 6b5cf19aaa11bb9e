-- ===== src/Msg/Decode/Publish.antt =====
-- What `CMqttPublish::decode` reads.
use mqtt_server.Prelude.{ℕ, ◌<◌, ◌^◌, ◌≡◌, refl, subst, arith, List, ◌++◌, length, append_assoc}
use mqtt_server.Pkt.{Pkt, ok, advance}
use mqtt_server.Pkt.Frame.{Holds}
use mqtt_server.Pkt.Read.{
  short_bytes, string_bytes, past_string, read_string-Holds, read_short-Res, read_payload-Holds,
}
use mqtt_server.Msg.{FixedHeader}
use mqtt_server.Msg.Publish.{decode_publish}
use mqtt_server.Msg.Encode.Publish.{publish_body, length-publish_body}
use mqtt_server.Msg.Decode.{base_of, received, past_header, decode_msg-received}

-- Where the message id of a publish packet stands, and the cursor behind it.
abbrev pub id_cursor : FixedHeader → (topic : List ℕ) → (msg_id : ℕ) → (payload tail : List ℕ) → Pkt
id_cursor h topic msg_id payload tail =
    past_string (past_header h (publish_body topic msg_id payload) tail) topic

pub decode_publish-received :
    (h : FixedHeader) (topic : List ℕ) (msg_id : ℕ) (payload tail : List ℕ)
    → h.qos < 4
    → msg_id < 2 ^ 16
    → let body = publish_body topic msg_id payload in
      length body < 2 ^ 14
      → let at_id = id_cursor h topic msg_id payload tail in
        decode_publish (received h body tail)
        ≡ ok (
          record {
            base = base_of h body;
            topic_name = topic;
            payload = payload;
            msg_id = msg_id;
            offset_msg_id = at_id.offset;
          },
          advance (advance at_id 2) (length payload),
        )
unfolding decode_publish
decode_publish-received h topic msg_id payload tail hq hm hi =
    let body = publish_body topic msg_id payload in
    let n = length-publish_body topic msg_id payload in
    let (base, at_body) = decode_msg-received h body tail hq (omega (arith, n)) hi in
    let grouped : body ≡ string_bytes topic ++ (short_bytes msg_id ++ payload) =
      unfold publish_body in append_assoc (string_bytes topic) (short_bytes msg_id) payload in
    let (str, at_id) =
      read_string-Holds topic (omega (arith, n))
        (subst (Holds (past_header h body tail)) grouped at_body) in
    let (id, at_payload) = read_short-Res msg_id hm at_id in
    let (content, _) = read_payload-Holds payload at_payload in rw (base, str, id, content) refl

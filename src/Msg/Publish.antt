-- ===== src/Msg/Publish.antt =====
-- CMqttPublish.
use mqtt_server.Prelude.{ℕ, ◌+◌, ◌%◌, ◌^◌, List, length}
use mqtt_server.Pkt.{
  Pkt, Res, ok, ◌>>=◌, settle, left_size, read_short, read_string, read_payload, write_bytes,
  write_short, write_string, write_remain_length,
}
use mqtt_server.Msg.{FixedHeader, Base, decode_msg, encode_msg, or_fail, check_length}

pub record Publish : Type 0 where
  pub base : Base
  pub topic_name : List ℕ
  pub payload : List ℕ
  pub msg_id : ℕ
  pub offset_msg_id : ℕ

-- `decode` does not look at the message type, and reads a message id at every QoS.
unfoldable pub decode_publish : Pkt → Res (Publish × Pkt)
decode_publish p = or_fail (do
  (base, p1) ← decode_msg p
  (topic, p2) ← read_string p1
  (id, p3) ← read_short p2
  (content, p4) ← read_payload p3 (left_size p3)
  ok (
    record {
      base = base;
      topic_name = topic;
      payload = content;
      msg_id = id;
      offset_msg_id = p2.offset;
    },
    p4,
  ))

unfoldable pub encode_publish :
    FixedHeader → (topic_name : List ℕ) → (msg_id : ℕ) → (payload : List ℕ) → Pkt → Res (ℕ × Pkt)
encode_publish h topic_name msg_id payload p = do
  let remain_length_value = (length topic_name + 2 + 2 + length payload) % 2 ^ 32
  p1 ← encode_msg h p
  (bytes, p2) ← write_remain_length p1 remain_length_value
  p3 ← settle (write_string p2 topic_name)
  p4 ← settle (write_short p3 msg_id)
  p5 ← settle (write_bytes p4 payload)
  check_length ((remain_length_value + bytes + 1) % 2 ^ 32) p5

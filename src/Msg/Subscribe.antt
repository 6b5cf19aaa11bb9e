-- ===== src/Msg/Subscribe.antt =====
-- CTopic, CMqttSubscribe and CMqttUnsubscribe.
use mqtt_server.Prelude.{ℕ, zero, suc, ◌+◌, ◌%◌, ◌^◌, List, [], ◌∷◌, map, length}
use mqtt_server.Pkt.{
  Pkt, Res, ok, err, fault, stuck, failure, ◌>>=◌, settle, read_byte, read_short, read_string,
  write_byte, write_short, write_string, write_remain_length,
}
use mqtt_server.Msg.{
  FixedHeader, Base, subscribe, unsubscribe, decode_msg, encode_msg, or_fail, expect_type,
  check_length,
}

pub record Topic : Type 0 where
  pub topic_name : List ℕ
  pub qos : ℕ

pub record Subscribe : Type 0 where
  pub base : Base
  pub msg_id : ℕ
  pub sub_topics : List Topic

pub record Unsubscribe : Type 0 where
  pub base : Base
  pub msg_id : ℕ
  pub topics : List (List ℕ)

-- `topics_name` and `topics_qos`
abbrev pub topics_name : List Topic → List (List ℕ)
topics_name = map (λ t. t.topic_name)

abbrev pub topics_qos : List Topic → List ℕ
topics_qos = map (λ t. t.qos)

-- The loop of `CMqttSubscribe::decode`: it ends at the first string or QoS that cannot be read.
unfoldable pub read_topics : (fuel : ℕ) → Pkt → Res (List Topic × Pkt)
read_topics zero p = stuck
read_topics (suc fuel) p = elim (read_string p) [
  | fault ↦ fault
  | stuck ↦ stuck
  | err c q ↦ ok ([], q)
  | ok (name, q) ↦ elim (read_byte q) [
    | fault ↦ fault
    | stuck ↦ stuck
    | err c r ↦ ok ([], r)
    | ok (topic_qos, r) ↦
        read_topics fuel r >>= λ (ts, s). ok (record { topic_name = name; qos = topic_qos } ∷ ts, s)
  ]
]

-- Each round takes two bytes at least, so `max_size` rounds are enough.
unfoldable pub decode_subscribe : Pkt → Res (Subscribe × Pkt)
decode_subscribe p = do
  (base, p1) ← decode_msg p
  expect_type subscribe base p1 (
      or_fail (do
        (id, p2) ← read_short p1
        (topics, p3) ← read_topics (suc p.max_size) p2
        ok (record { base = base; msg_id = id; sub_topics = topics }, p3)))

unfoldable pub payload_length : List Topic → ℕ
payload_length [] = 0
payload_length (t ∷ ts) = length t.topic_name + 2 + 1 + payload_length ts

unfoldable pub write_topics : List Topic → Pkt → Res Pkt
write_topics [] p = ok p
write_topics (t ∷ ts) p = do
  p1 ← settle (write_string p t.topic_name)
  p2 ← settle (write_byte p1 t.qos)
  write_topics ts p2

-- `encode` refuses an empty list of topics, after it has written the fixed header.
unfoldable pub encode_subscribe : FixedHeader → ℕ → List Topic → Pkt → Res (ℕ × Pkt)
encode_subscribe h msg_id [] p = encode_msg h p >>= λ p1. err failure p1
encode_subscribe h msg_id (t ∷ ts) p = do
  let remain_length_value = (payload_length (t ∷ ts) + 2) % 2 ^ 32
  p1 ← encode_msg h p
  (bytes, p2) ← write_remain_length p1 remain_length_value
  p3 ← settle (write_short p2 msg_id)
  p4 ← write_topics (t ∷ ts) p3
  check_length ((remain_length_value + bytes + 1) % 2 ^ 32) p4

-- The loop of `CMqttUnsubscribe::decode`.
unfoldable pub read_names : (fuel : ℕ) → Pkt → Res (List (List ℕ) × Pkt)
read_names zero p = stuck
read_names (suc fuel) p = elim (read_string p) [
  | fault ↦ fault
  | stuck ↦ stuck
  | err c q ↦ ok ([], q)
  | ok (name, q) ↦ read_names fuel q >>= λ (names, r). ok (name ∷ names, r)
]

unfoldable pub decode_unsubscribe : Pkt → Res (Unsubscribe × Pkt)
decode_unsubscribe p = do
  (base, p1) ← decode_msg p
  expect_type unsubscribe base p1 (
      or_fail (do
        (id, p2) ← read_short p1
        (names, p3) ← read_names (suc p.max_size) p2
        ok (record { base = base; msg_id = id; topics = names }, p3)))

-- ===== src/Msg/Decode/Subscribe.antt =====
-- What `CMqttSubscribe::decode` and `CMqttUnsubscribe::decode` read.
use mqtt_server.Prelude.{
  ℕ, zero, suc, ◌≤◌, ◌<◌, ◌^◌, ◌≡◌, refl, ◌∙◌, arith, List, [], ◌∷◌, ◌++◌, length, length-append,
  All,
}
use mqtt_server.Pkt.{Pkt, ok}
use mqtt_server.Pkt.Frame.{Holds}
use mqtt_server.Pkt.Read.{
  short_bytes, string_bytes, read_string-Holds, read_string-empty, read_byte-Holds, read_short-Res,
}
use mqtt_server.Msg.{FixedHeader, subscribe, unsubscribe}
use mqtt_server.Msg.Subscribe.{
  Topic, read_topics, decode_subscribe, read_names, decode_unsubscribe, payload_length,
}
use mqtt_server.Msg.Encode.Subscribe.{
  topics_bytes, subscribe_body, length-subscribe_body, FitsTopics,
}
use mqtt_server.Msg.Header.{length-packet}
use mqtt_server.Msg.Decode.{base_of, received, past_header, decode_msg-received, expect_type-eq}

pub read_topics-Holds :
    (fuel : ℕ) {p : Pkt} (ts : List Topic)
    → length ts < fuel
    → FitsTopics ts
    → Holds p (topics_bytes ts)
    → (q : Pkt) × (read_topics fuel p ≡ ok (ts, q))
unfolding read_topics topics_bytes
read_topics-Holds zero ts h fit k = absurd (omega arith)
read_topics-Holds (suc fuel) {p} [] h fit k =
    (p, rw (read_string-empty k (omega arith), read_topics) refl)
read_topics-Holds (suc fuel) {p} (t ∷ ts) h fit k =
    let (str, at_qos) = read_string-Holds t.topic_name fit.0 k in
    let (byte, rest) = read_byte-Holds t.qos at_qos in
    let (q, e) = read_topics-Holds fuel ts (omega arith) fit.1 rest in
    (q, rw (str, read_topics, byte, e) refl)

length-le-payload : (ts : List Topic) → length ts ≤ payload_length ts
unfolding payload_length
length-le-payload [] = omega arith
length-le-payload (t ∷ ts) = omega (arith, length-le-payload ts)

pub decode_subscribe-received :
    (h : FixedHeader) (msg_id : ℕ) (ts : List Topic) (tail : List ℕ)
    → h.msg_type ≡ subscribe
    → h.qos < 4
    → msg_id < 2 ^ 16
    → FitsTopics ts
    → let body = subscribe_body msg_id ts in
      length body < 2 ^ 14
      → (q : Pkt) × (decode_subscribe (received h body tail)
          ≡ ok (record { base = base_of h body; msg_id = msg_id; sub_topics = ts }, q))
unfolding decode_subscribe
decode_subscribe-received h msg_id ts tail ht hq hm fit hi =
    let body = subscribe_body msg_id ts in
    let n = length-subscribe_body msg_id ts in
    let (base, at_body) = decode_msg-received h body tail hq (omega (arith, n)) hi in
    let (id, at_topics) =
      read_short-Res {p = past_header h body tail} msg_id {r = topics_bytes ts} hm
        (unfold subscribe_body in at_body) in
    let (q, topics) =
      read_topics-Holds (suc (received h body tail).max_size) ts
        (omega (arith, n, length-le-payload ts, length-packet h body)) fit at_topics in
    (
      q,
      rw base (
          expect_type-eq subscribe (base_of h body) (past_header h body tail) _ ht
          ∙ rw (id, topics) refl),
    )

-- The body of an unsubscribe packet: its message id and its topics.
unfoldable pub names_bytes : List (List ℕ) → List ℕ
names_bytes [] = []
names_bytes (s ∷ ss) = string_bytes s ++ names_bytes ss

abbrev pub FitsNames : List (List ℕ) → Type 0
FitsNames = All (λ s. length s < 2 ^ 16)

pub read_names-Holds :
    (fuel : ℕ) {p : Pkt} (names : List (List ℕ))
    → length names < fuel
    → FitsNames names
    → Holds p (names_bytes names)
    → (q : Pkt) × (read_names fuel p ≡ ok (names, q))
unfolding read_names names_bytes
read_names-Holds zero names h fit k = absurd (omega arith)
read_names-Holds (suc fuel) {p} [] h fit k =
    (p, rw (read_string-empty k (omega arith), read_names) refl)
read_names-Holds (suc fuel) {p} (s ∷ ss) h fit k =
    let (str, rest) = read_string-Holds s fit.0 k in
    let (q, e) = read_names-Holds fuel ss (omega arith) fit.1 rest in
    (q, rw (str, read_names, e) refl)

length-le-names : (ss : List (List ℕ)) → length ss ≤ length (names_bytes ss)
unfolding names_bytes
length-le-names [] = omega arith
length-le-names (s ∷ ss) = omega (arith, length-le-names ss, length-append s (names_bytes ss))

-- `CMqttUnsubscribe::decode` reads the header, the message id and the topics of a packet with a
-- 16-bit message id, topics of fewer than 2 ^ 16 bytes and a body below 2 ^ 14 bytes, whatever
-- memory lies behind it.
pub decode_unsubscribe-received :
    (h : FixedHeader) (msg_id : ℕ) (names : List (List ℕ)) (tail : List ℕ)
    → h.msg_type ≡ unsubscribe
    → h.qos < 4
    → msg_id < 2 ^ 16
    → FitsNames names
    → length (short_bytes msg_id ++ names_bytes names) < 2 ^ 14
    → let body = short_bytes msg_id ++ names_bytes names in
      (q : Pkt) × (decode_unsubscribe (received h body tail)
        ≡ ok (record { base = base_of h body; msg_id = msg_id; topics = names }, q))
unfolding decode_unsubscribe
decode_unsubscribe-received h msg_id names tail ht hq hm fit hi =
    let body = short_bytes msg_id ++ names_bytes names in
    let (base, at_body) = decode_msg-received h body tail hq (omega arith) hi in
    let (id, at_names) =
      read_short-Res {p = past_header h body tail} msg_id {r = names_bytes names} hm at_body in
    let (q, topics) =
      read_names-Holds (suc (received h body tail).max_size) names
        (omega (arith, length-le-names names, length-packet h body)) fit at_names in
    (
      q,
      rw base (
          expect_type-eq unsubscribe (base_of h body) (past_header h body tail) _ ht
          ∙ rw (id, topics) refl),
    )

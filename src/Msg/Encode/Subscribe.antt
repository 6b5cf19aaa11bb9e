-- ===== src/Msg/Encode/Subscribe.antt =====
-- What `CMqttSubscribe::encode` writes.
use mqtt_server.Prelude.{
  ℕ, ◌+◌, ◌%◌, ◌≤◌, ◌<◌, ◌^◌, ◌≡◌, refl, sym, ap, ◌∙◌, arith, List, [], ◌∷◌, ◌++◌, length,
  length-append, append_assoc, append-nil, All,
}
use mqtt_server.Pkt.{Pkt, ok}
use mqtt_server.Pkt.Read.{short_bytes, string_bytes}
use mqtt_server.Pkt.Fill.{Room, fill}
use mqtt_server.Pkt.RemainLength.{remain_bytes}
use mqtt_server.Msg.{FixedHeader, encode_header}
use mqtt_server.Msg.Header.{packet, length-packet}
use mqtt_server.Msg.Append.{then_byte, then_short, then_string}
use mqtt_server.Msg.Subscribe.{Topic, encode_subscribe, write_topics, payload_length}
use mqtt_server.Msg.Encode.{Fresh, begin, finish_as}

unfoldable pub topics_bytes : List Topic → List ℕ
topics_bytes [] = []
topics_bytes (t ∷ ts) = string_bytes t.topic_name ++ t.qos ∷ topics_bytes ts

pub length-topics_bytes : (ts : List Topic) → length (topics_bytes ts) ≡ payload_length ts
unfolding topics_bytes payload_length
length-topics_bytes [] = refl
length-topics_bytes (t ∷ ts) = omega (
  arith,
  length-append (string_bytes t.topic_name) (t.qos ∷ topics_bytes ts),
  length-topics_bytes ts,
)

abbrev pub FitsTopics : List Topic → Type 0
FitsTopics = All (λ t. length t.topic_name < 2 ^ 16)

then_topics :
    {p : Pkt} (xs : List ℕ) {n : ℕ} (ts : List Topic)
    → FitsTopics ts
    → Room p n
    → length xs + payload_length ts ≤ n
    → write_topics ts (fill p xs) ≡ ok (fill p (xs ++ topics_bytes ts))
unfolding write_topics topics_bytes payload_length
then_topics {p} xs [] fit r h = ap (λ (bs : List ℕ). ok (fill p bs)) (sym (append-nil xs))
then_topics {p} xs (t ∷ ts) fit r h =
    let s = string_bytes t.topic_name in
    let l = length-append xs s in
    rw
      (
        then_string xs r t.topic_name fit.0 (omega arith),
        then_byte (xs ++ s) r t.qos (omega (arith, l)),
      )
      (then_topics ((xs ++ s) ++ t.qos ∷ []) ts fit.1 r
          (omega (arith, l, length-append (xs ++ s) (t.qos ∷ [])))
        ∙ ap (λ (bs : List ℕ). ok (fill p bs)) (simp append_assoc))

unfoldable pub subscribe_body : ℕ → List Topic → List ℕ
subscribe_body msg_id ts = short_bytes msg_id ++ topics_bytes ts

pub length-subscribe_body :
    (msg_id : ℕ) (ts : List Topic) → length (subscribe_body msg_id ts) ≡ payload_length ts + 2
unfolding subscribe_body
length-subscribe_body msg_id ts = omega (arith, length-topics_bytes ts)

subscribe_parts :
    (h : FixedHeader) (msg_id : ℕ) (ts : List Topic)
    → let body = subscribe_body msg_id ts in
      ((encode_header h ∷ remain_bytes (length body)) ++ short_bytes msg_id) ++ topics_bytes ts
      ≡ packet h body
unfolding packet subscribe_body
subscribe_parts h msg_id ts = simp append_assoc

-- `CMqttSubscribe::encode`
pub encode_subscribe-Fresh :
    {p : Pkt} (h : FixedHeader) (msg_id : ℕ) (t : Topic) (ts : List Topic)
    → msg_id < 2 ^ 16
    → FitsTopics (t ∷ ts)
    → let bytes = packet h (subscribe_body msg_id (t ∷ ts)) in
      Fresh p bytes → encode_subscribe h msg_id (t ∷ ts) p ≡ ok (length bytes, fill p bytes)
unfolding encode_subscribe
encode_subscribe-Fresh {p} h msg_id t ts hm fit f =
    let body = subscribe_body msg_id (t ∷ ts) in
    let n = length-packet h body in
    let bl = length-subscribe_body msg_id (t ∷ ts) in
    let s = begin h body f in
    let xs : List ℕ = encode_header h ∷ remain_bytes (length body) in
    let l1 = length-append xs (short_bytes msg_id) in
    let v : (payload_length (t ∷ ts) + 2) % 2 ^ 32 ≡ length body =
      omega (arith, n, bl, f.room.fits, f.room.small) in
    let total : (length body + length (remain_bytes (length body)) + 1) % 2 ^ 32
        ≡ length (packet h body) =
      omega (arith, n, f.room.fits, f.room.small) in
    rw
      (
        v,
        s.header,
        s.length_bytes,
        then_short xs f.room msg_id hm (omega (arith, n, bl)),
        then_topics (xs ++ short_bytes msg_id) (t ∷ ts) fit f.room (omega (arith, n, bl, l1)),
      )
      (finish_as _ f (subscribe_parts h msg_id (t ∷ ts)) total)

-- ===== src/Msg/Decode/Ack.antt =====
-- What the decoders of the acknowledgements read.
use mqtt_server.Prelude.{ℕ, ◌%◌, ◌≤◌, ◌<◌, ◌^◌, ◌≡◌, refl, ap, ◌∙◌, arith, List, [], ◌∷◌, length}
use mqtt_server.Pkt.{Pkt, ok, advance, left_size}
use mqtt_server.Pkt.Frame.{Holds, Holds-length}
use mqtt_server.Pkt.Read.{short_bytes, read_byte-Holds, read_short-Res}
use mqtt_server.Msg.{FixedHeader, connack, puback, suback}
use mqtt_server.Msg.Ack.{decode_puback, decode_connack, decode_suback, read_qos_list}
use mqtt_server.Msg.Decode.{base_of, received, past_header, decode_msg-received, expect_type-eq}

pub decode_puback-received :
    (h : FixedHeader) (msg_id : ℕ) (tail : List ℕ)
    → h.msg_type ≡ puback
    → h.qos < 4
    → msg_id < 2 ^ 16
    → (q : Pkt) × (decode_puback (received h (short_bytes msg_id) tail) ≡ ok (msg_id, q))
unfolding decode_puback
decode_puback-received h msg_id tail ht hq hm =
    let body : List ℕ = short_bytes msg_id in
    let (base, at_body) = decode_msg-received h body tail hq (omega arith) (omega arith) in
    let (id, _) = read_short-Res msg_id {r = []} hm at_body in
    (
      advance (past_header h body tail) 2,
      rw base (expect_type-eq puback (base_of h body) (past_header h body tail) _ ht ∙ rw id refl),
    )

pub decode_connack-received :
    (h : FixedHeader) (reserved code : ℕ) (tail : List ℕ)
    → h.msg_type ≡ connack
    → h.qos < 4
    → (q : Pkt) × (decode_connack (received h (reserved ∷ code ∷ []) tail) ≡ ok (reserved, code, q))
unfolding decode_connack
decode_connack-received h reserved code tail ht hq =
    let body : List ℕ = reserved ∷ code ∷ [] in
    let (base, at_body) = decode_msg-received h body tail hq (omega arith) (omega arith) in
    let (first, at_code) = read_byte-Holds reserved at_body in
    let (second, _) = read_byte-Holds code at_code in
    (
      advance (advance (past_header h body tail) 1) 1,
      rw base (
          expect_type-eq connack (base_of h body) (past_header h body tail) _ ht
          ∙ rw (first, second) refl),
    )

read_qos_list-Holds :
    (vs : List ℕ) (qos : ℕ) {p : Pkt}
    → Holds p vs
    → (q : Pkt) × (read_qos_list (length vs) qos p ≡ ok (vs, q))
unfolding read_qos_list
read_qos_list-Holds [] qos {p} h = (p, refl)
read_qos_list-Holds (v ∷ vs) qos h =
    let (byte, rest) = read_byte-Holds v h in
    let (q, e) = read_qos_list-Holds vs v rest in (q, rw (byte, read_qos_list, e) refl)

-- `CMqttSubAck::decode` takes the whole body of a packet, the message id included, for QoS
-- values, where the body has from 1 to 255 bytes.
pub decode_suback-received :
    (h : FixedHeader) (body tail : List ℕ)
    → h.msg_type ≡ suback
    → h.qos < 4
    → 1 ≤ length body
    → length body < 256
    → (q : Pkt) × (decode_suback (received h body tail) ≡ ok (body, q))
unfolding decode_suback
decode_suback-received h body tail ht hq lo hi =
    let (base, at_body) = decode_msg-received h body tail hq lo (omega arith) in
    let count : left_size (past_header h body tail) % 256 ≡ length body =
      omega (arith, at_body.small, Holds-length at_body) in
    let (q, qos) = read_qos_list-Holds body 0 at_body in
    (
      q,
      rw base (
          expect_type-eq suback (base_of h body) (past_header h body tail) _ ht
          ∙ ap (λ (n : ℕ). read_qos_list n 0 (past_header h body tail)) count
          ∙ qos),
    )

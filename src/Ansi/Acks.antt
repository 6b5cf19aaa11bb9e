-- ===== src/Ansi/Acks.antt =====
-- The two libraries of packets write the same acknowledgements.
use mqtt_server.Prelude.{
  ℕ, suc, ◌+◌, ◌*◌, ◌%◌, ◌^◌, ◌≤◌, ◌<◌, ◌≡◌, refl, ap, ◌∙◌, arith, List, [], ◌∷◌, ◌++◌, All, length,
  length-set, set, le→ltb,
}
use mqtt_server.Prelude.Memory.{overwrite, length-overwrite}
use mqtt_server.Pkt.{Pkt, Res, ok, new_pkt}
use mqtt_server.Pkt.Read.{short_bytes}
use mqtt_server.Pkt.Fill.{fill}
use mqtt_server.Pkt.RemainLength.{remain_bytes, groups}
use mqtt_server.Msg.{
  MqttType, type_code, plain_header, connack, puback, unsuback, suback, encode_header,
}
use mqtt_server.Msg.Header.{packet}
use mqtt_server.Msg.Ack.{
  AckCode, ack_code_byte, encode_connack, encode_msg_id, encode_puback, encode_unsuback,
  encode_suback,
}
use mqtt_server.Msg.Encode.{Fresh}
use mqtt_server.Msg.Encode.Ack.{encode_msg_id-Fresh, encode_connack-Fresh, encode_suback-Fresh}
use mqtt_server.Ansi.{Out, done}
use mqtt_server.Ansi.Encode.{
  mqtt_enc_connect_ack, mqtt_enc_id_ack, mqtt_enc_publish_ack, mqtt_enc_unsubscribe_ack,
  mqtt_enc_subscribe_ack,
}
use mqtt_server.Ansi.Layout.{poke-lt, write_short-lt, write_qos-overwrite}

remain_bytes-short : (n : ℕ) → n < 128 → remain_bytes n ≡ n ∷ []
unfolding remain_bytes groups
remain_bytes-short n small = ground (arith, small)

header_byte : (t : MqttType) → encode_header (plain_header t) ≡ type_code t * 16
unfolding encode_header
header_byte t = omega arith

suback_bytes :
    (msg_id : ℕ) (qs : List ℕ)
    → length qs < 126
    → packet (plain_header suback) (short_bytes msg_id ++ qs)
      ≡ 144 ∷ (2 + length qs) ∷ (short_bytes msg_id ++ qs)
unfolding packet encode_header
suback_bytes msg_id qs few =
    let size : suc (suc (length qs)) ≡ 2 + length qs = omega arith in
    let short = remain_bytes-short (2 + length qs) (omega (arith, few)) in rw (size, short) refl

-- Both libraries succeed with the same length and leave the same memory.
abbrev pub Agree : Res (ℕ × Pkt) → Out (ℕ × List ℕ) → Type 0
Agree r o = (n : ℕ) × (p : Pkt) × (r ≡ ok (n, p)) × (o ≡ done (n, p.mem))

module _ (mem : List ℕ) (len : ℕ) (there : len ≤ length mem) (small : length mem < 2 ^ 31) where
  fresh : (bytes : List ℕ) → length bytes ≤ len → Fresh (new_pkt mem len) bytes
  fresh bytes room = record {
    start = refl;
    room = record {
      fits = omega (arith, room);
      small = omega (arith, there, small);
      backed = there;
    };
    memory = omega (arith, small);
  }

  connack-Agree :
      (code : AckCode)
      → 4 ≤ len
      → Agree
          (encode_connack (plain_header connack) code (new_pkt mem len))
          (mqtt_enc_connect_ack mem len (ack_code_byte code))
  unfolding mqtt_enc_connect_ack packet remain_bytes encode_header overwrite
  connack-Agree code room =
      let h = plain_header connack in
      let l1 = length-set mem 0 32 in
      let l2 = length-set (set mem 0 32) 1 2 in
      let l3 = length-set (set (set mem 0 32) 1 2) 2 0 in
      let bytes = packet h (0 ∷ ack_code_byte code ∷ []) in
      (
        4,
        fill (new_pkt mem len) bytes,
        encode_connack-Fresh h code (fresh bytes room),
        rw
            (
              le→ltb len 4 room,
              poke-lt mem 0 32 (omega (arith, there, room)),
              poke-lt (set mem 0 32) 1 2 (omega (arith, l1, there, room)),
              poke-lt (set (set mem 0 32) 1 2) 2 0 (omega (arith, l1, l2, there, room)),
              poke-lt (set (set (set mem 0 32) 1 2) 2 0) 3 (ack_code_byte code)
                  (omega (arith, l1, l2, l3, there, room)),
            )
            refl,
      )

  id_ack-Agree :
      (t : MqttType) (msg_id : ℕ)
      → 4 ≤ len
      → msg_id < 2 ^ 16
      → Agree
          (encode_msg_id (plain_header t) msg_id (new_pkt mem len))
          (mqtt_enc_id_ack (type_code t * 16) mem len msg_id)
  unfolding mqtt_enc_id_ack packet remain_bytes overwrite
  id_ack-Agree t msg_id room id =
      let h = plain_header t in
      let bytes = packet h (short_bytes msg_id) in
      let b = type_code t * 16 in
      let mem2 = set (set mem 0 b) 1 2 in
      let l1 = length-set mem 0 b in
      let l2 = length-set (set mem 0 b) 1 2 in
      (
        4,
        fill (new_pkt mem len) bytes,
        encode_msg_id-Fresh h msg_id id (fresh bytes room),
        rw
            (
              header_byte t,
              le→ltb len 4 room,
              poke-lt mem 0 b (omega (arith, there, room)),
              poke-lt (set mem 0 b) 1 2 (omega (arith, l1, there, room)),
              write_short-lt mem2 len 2 msg_id room (omega (arith, l1, l2, there, room)) id,
            )
            refl,
      )

  suback-Agree :
      (msg_id : ℕ) (qs : List ℕ)
      → 4 + length qs ≤ len
      → length qs < 126
      → msg_id < 2 ^ 16
      → All (λ q. q < 256) qs
      → Agree
          (encode_suback (plain_header suback) msg_id qs (new_pkt mem len))
          (mqtt_enc_subscribe_ack mem len msg_id qs)
  unfolding mqtt_enc_subscribe_ack overwrite
  suback-Agree msg_id qs room few id bytes_only =
      let h = plain_header suback in
      let n = 2 + length qs in
      let laid : List ℕ = 144 ∷ n ∷ (short_bytes msg_id ++ qs) in
      let e = suback_bytes msg_id qs few in
      let size : length laid ≡ 4 + length qs = omega arith in
      let fits : length (packet h (short_bytes msg_id ++ qs)) ≤ len =
        omega (arith, ap length e, size, room) in
      let mem2 = set (set mem 0 144) 1 n in
      let mem3 = overwrite mem2 2 (short_bytes msg_id) in
      let l1 = length-set mem 0 144 in
      let l2 = length-set (set mem 0 144) 1 n in
      let l3 = length-overwrite mem2 2 (short_bytes msg_id) in
      let one_byte : n % 256 ≡ n = omega (arith, few) in
      (
        length laid,
        fill (new_pkt mem len) laid,
        encode_suback-Fresh h msg_id qs id (fresh _ fits)
            ∙ ap (λ (bs : List ℕ). ok (length bs, fill (new_pkt mem len) bs)) e,
        rw
            (
              le→ltb len 4 (omega (arith, room)),
              poke-lt mem 0 144 (omega (arith, there, room)),
              one_byte,
              poke-lt (set mem 0 144) 1 n (omega (arith, l1, there, room)),
              le→ltb len (4 + length qs) room,
              write_short-lt mem2 len 2 msg_id (omega (arith, room))
                  (omega (arith, l1, l2, there, room)) id,
              write_qos-overwrite mem3 4 qs (omega (arith, l1, l2, l3, there, room)) bytes_only,
              size,
            )
            refl,
      )

-- For a buffer of fewer than 2 ^ 31 bytes that is long enough, a 16-bit message id, a code, and
-- fewer than 126 QoS values of a byte each, the C functions and the encoders of the classes
-- succeed for each of the four acknowledgements, with the same length, and leave the same bytes.
pub acks-Agree :
    (mem : List ℕ) (len msg_id : ℕ) (code : AckCode) (qs : List ℕ)
    → len ≤ length mem
    → length mem < 2 ^ 31
    → 4 + length qs ≤ len
    → length qs < 126
    → msg_id < 2 ^ 16
    → All (λ q. q < 256) qs
    → let p = new_pkt mem len in
      Agree
        (encode_connack (plain_header connack) code p)
        (mqtt_enc_connect_ack mem len (ack_code_byte code))
      × Agree (encode_puback (plain_header puback) msg_id p) (mqtt_enc_publish_ack mem len msg_id)
      × Agree
          (encode_unsuback (plain_header unsuback) msg_id p)
          (mqtt_enc_unsubscribe_ack mem len msg_id)
      × Agree
          (encode_suback (plain_header suback) msg_id qs p)
          (mqtt_enc_subscribe_ack mem len msg_id qs)
acks-Agree mem len msg_id code qs there small room few id bytes_only =
    let four : 4 ≤ len = omega (arith, room) in
    (
      connack-Agree mem len there small code four,
      id_ack-Agree mem len there small puback msg_id four id,
      id_ack-Agree mem len there small unsuback msg_id four id,
      suback-Agree mem len there small msg_id qs room few id bytes_only,
    )

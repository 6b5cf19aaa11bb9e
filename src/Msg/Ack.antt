-- ===== src/Msg/Ack.antt =====
-- The messages that hold no more than a message id or a code: CMqttConnAck, CMqttSubAck,
-- CMqttUnsubAck, CMqttPublishAck, CMqttPingReq, CMqttPingResp and CMqttDisconnect.
use mqtt_server.Prelude.{ℕ, zero, suc, ◌+◌, ◌%◌, ◌^◌, List, [], ◌∷◌, length}
use mqtt_server.Pkt.{
  Pkt, Res, ok, err, fault, stuck, ◌>>=◌, settle, left_size, read_byte, read_short, write_byte,
  write_short, write_remain_length,
}
use mqtt_server.Msg.{
  FixedHeader, connack, puback, suback, decode_msg, encode_msg, or_fail, expect_type, check_length,
}

pub data AckCode : Type 0 where
  accepted bad_version bad_id server_unavailable bad_user_or_pwd no_auth : AckCode

abbrev pub ack_code_byte : AckCode → ℕ
ack_code_byte accepted = 0
ack_code_byte bad_version = 1
ack_code_byte bad_id = 2
ack_code_byte server_unavailable = 3
ack_code_byte bad_user_or_pwd = 4
ack_code_byte no_auth = 5

-- `CMqttConnAck::decode`: the reserved byte and the code, which the cast takes as it is.
unfoldable pub decode_connack : Pkt → Res (ℕ × ℕ × Pkt)
decode_connack p = do
  (base, p1) ← decode_msg p
  expect_type connack base p1 (
      or_fail
        (do (reserved, p2) ← read_byte p1; (code, p3) ← read_byte p2; ok (reserved, code, p3)))

unfoldable pub encode_connack : FixedHeader → AckCode → Pkt → Res (ℕ × Pkt)
encode_connack h code p = do
  p1 ← encode_msg h p
  (bytes, p2) ← write_remain_length p1 2
  p3 ← settle (write_byte p2 0)
  p4 ← settle (write_byte p3 (ack_code_byte code))
  check_length 4 p4

-- `CMqttPublishAck`
unfoldable pub decode_puback : Pkt → Res (ℕ × Pkt)
decode_puback p = do (base, p1) ← decode_msg p; expect_type puback base p1 (or_fail (read_short p1))

-- The encoders of CMqttPublishAck and CMqttUnsubAck have one text, but for the header.
unfoldable pub encode_msg_id : FixedHeader → ℕ → Pkt → Res (ℕ × Pkt)
encode_msg_id h msg_id p = do
  p1 ← encode_msg h p
  (bytes, p2) ← write_remain_length p1 2
  p3 ← settle (write_short p2 msg_id)
  check_length 4 p3

abbrev pub encode_puback : FixedHeader → ℕ → Pkt → Res (ℕ × Pkt)
encode_puback = encode_msg_id

abbrev pub encode_unsuback : FixedHeader → ℕ → Pkt → Res (ℕ × Pkt)
encode_unsuback = encode_msg_id

-- So have those of CMqttPingReq, CMqttPingResp and CMqttDisconnect.
unfoldable pub encode_empty : FixedHeader → Pkt → Res (ℕ × Pkt)
encode_empty h p = do p1 ← encode_msg h p; (bytes, p2) ← write_remain_length p1 0; check_length 2 p2

abbrev pub encode_pingreq : FixedHeader → Pkt → Res (ℕ × Pkt)
encode_pingreq = encode_empty

abbrev pub encode_pingresp : FixedHeader → Pkt → Res (ℕ × Pkt)
encode_pingresp = encode_empty

abbrev pub encode_disconnect : FixedHeader → Pkt → Res (ℕ × Pkt)
encode_disconnect = encode_empty

-- `CMqttSubAck::decode` reads `left_size` bytes, that count taken as a `uint8_t`; `qos` keeps its
-- value when `read_byte` fails. It does not read the message id.
unfoldable pub read_qos_list : (n qos : ℕ) → Pkt → Res (List ℕ × Pkt)
read_qos_list zero qos p = ok ([], p)
read_qos_list (suc n) qos p = elim (read_byte p) [
  | ok (v, q) ↦ read_qos_list n v q >>= λ (vs, r). ok (v ∷ vs, r)
  | err c q ↦ read_qos_list n qos q >>= λ (vs, r). ok (qos ∷ vs, r)
  | fault ↦ fault
  | stuck ↦ stuck
]

unfoldable pub decode_suback : Pkt → Res (List ℕ × Pkt)
decode_suback p = do
  (base, p1) ← decode_msg p
  expect_type suback base p1 (read_qos_list (left_size p1 % 256) 0 p1)

unfoldable pub write_qos_list : List ℕ → Pkt → Res Pkt
write_qos_list [] p = ok p
write_qos_list (v ∷ vs) p = settle (write_byte p v) >>= write_qos_list vs

unfoldable pub encode_suback : FixedHeader → ℕ → List ℕ → Pkt → Res (ℕ × Pkt)
encode_suback h msg_id sub_qos p = do
  let remain_length_value = (length sub_qos + 2) % 2 ^ 32
  p1 ← encode_msg h p
  (bytes, p2) ← write_remain_length p1 remain_length_value
  p3 ← settle (write_short p2 msg_id)
  p4 ← write_qos_list sub_qos p3
  check_length ((remain_length_value + bytes + 1) % 2 ^ 32) p4

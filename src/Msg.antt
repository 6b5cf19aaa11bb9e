-- ===== src/Msg.antt =====
-- src/mqttc++/mqtt_msg.cpp and include/mqttc++/mqtt_msg.hpp: the fixed header, and what
-- `CMqttMsg` does for every message. A `std::string` is the list of its bytes. The bit fields of
-- FixHeaderFlag and ConnectFlag lie from the lowest bit on.
pub mod Ack
pub mod Connect
pub mod Publish
pub mod Subscribe
pub mod Header
pub mod Append
pub mod Encode
pub mod Decode
pub mod RoundTrip
use mqtt_server.Prelude.{
  ℕ, ◌+◌, ◌*◌, ◌/◌, ◌%◌, ◌^◌, Bool, true, false, List, [], ◌∷◌, ◌==◌, if◌then◌else◌,
}
use mqtt_server.Pkt.{
  Pkt, Res, ok, err, fault, stuck, failure, ◌>>=◌, settle, read_byte, read_remain_length,
  read_string, write_byte, write_remain_length,
}

pub data MqttType : Type 0 where
  reserved1 connect connack publish puback pubrec pubrel pubcomp : MqttType
  subscribe suback unsubscribe unsuback pingreq pingresp disconnect reserved2 : MqttType

abbrev pub type_code : MqttType → ℕ
type_code reserved1 = 0
type_code connect = 1
type_code connack = 2
type_code publish = 3
type_code puback = 4
type_code pubrec = 5
type_code pubrel = 6
type_code pubcomp = 7
type_code subscribe = 8
type_code suback = 9
type_code unsubscribe = 10
type_code unsuback = 11
type_code pingreq = 12
type_code pingresp = 13
type_code disconnect = 14
type_code reserved2 = 15

-- The cast `(MqttType)` of a four-bit number.
abbrev pub to_type : ℕ → MqttType
to_type n =
    if n == 0
    then reserved1
    else if n == 1
    then connect
    else if n == 2
    then connack
    else if n == 3
    then publish
    else if n == 4
    then puback
    else if n == 5
    then pubrec
    else if n == 6
    then pubrel
    else if n == 7
    then pubcomp
    else if n == 8
    then subscribe
    else if n == 9
    then suback
    else if n == 10
    then unsubscribe
    else if n == 11
    then unsuback
    else if n == 12
    then pingreq
    else if n == 13
    then pingresp
    else if n == 14
    then disconnect
    else reserved2

abbrev pub is_type : MqttType → MqttType → Bool
is_type a b = type_code a == type_code b

pub record FixedHeader : Type 0 where
  pub msg_type : MqttType
  pub dup_flag : Bool
  pub qos : ℕ
  pub retain_flag : Bool

abbrev pub bit_of : Bool → ℕ
bit_of true = 1
bit_of false = 0

abbrev pub has_bit : ℕ → ℕ → Bool
has_bit v k = v / 2 ^ k % 2 == 1

-- `CMqttFixedHeader::decode` and `encode`.
unfoldable pub decode_header : ℕ → FixedHeader
decode_header value = record {
  msg_type = to_type (value / 2 ^ 4 % 16);
  dup_flag = has_bit value 3;
  qos = value / 2 % 4;
  retain_flag = has_bit value 0;
}

unfoldable pub encode_header : FixedHeader → ℕ
encode_header h =
    bit_of h.retain_flag + h.qos % 4 * 2 + bit_of h.dup_flag * 2 ^ 3 + type_code h.msg_type * 2 ^ 4

-- `CMqttFixedHeader(msg_type)`
abbrev pub plain_header : MqttType → FixedHeader
plain_header t = record { msg_type = t; dup_flag = false; qos = 0; retain_flag = false }

-- What `CMqttMsg::decode` sets.
pub record Base : Type 0 where
  pub fixed_header : FixedHeader
  pub remain_length_value : ℕ
  pub remain_length_bytes : ℕ

-- Every method of a message turns a negative code into -1.
abbrev pub or_fail {ℓ} : {A : Type ℓ} → Res A → Res A
or_fail (ok a) = ok a
or_fail (err c p) = err failure p
or_fail fault = fault
or_fail stuck = stuck

unfoldable pub decode_msg : Pkt → Res (Base × Pkt)
decode_msg p = or_fail (do
  (fixed_header, q) ← read_byte p
  (value, bytes, r) ← read_remain_length q
  ok (
    record {
      fixed_header = decode_header fixed_header;
      remain_length_value = value;
      remain_length_bytes = bytes;
    },
    r,
  ))

-- `CMqttMsg::encode` ignores what `write_byte` returns.
unfoldable pub encode_msg : FixedHeader → Pkt → Res Pkt
encode_msg h p = settle (write_byte p (encode_header h))

-- The message type test of a decoder.
abbrev pub expect_type {ℓ} : {A : Type ℓ} → MqttType → Base → Pkt → Res A → Res A
expect_type t b p rest = if is_type b.fixed_header.msg_type t then rest else err failure p

-- The last step of an encoder: the length of the packet, if it is the expected one.
abbrev pub check_length : ℕ → Pkt → Res (ℕ × Pkt)
check_length pkt_len p = if p.offset == pkt_len then ok (p.offset, p) else err failure p

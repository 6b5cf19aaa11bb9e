-- ===== src/Msg/Connect.antt =====
-- CMqttConnect.
use mqtt_server.Prelude.{ℕ, ◌+◌, ◌*◌, ◌/◌, ◌%◌, ◌^◌, Bool, true, false, List, [], ◌∷◌, length}
use mqtt_server.Pkt.{
  Pkt, Res, ok, ◌>>=◌, settle, read_byte, read_short, read_string, write_byte, write_short,
  write_string, write_remain_length,
}
use mqtt_server.Msg.{
  FixedHeader, Base, connect, decode_msg, encode_msg, or_fail, expect_type, has_bit, bit_of,
}

pub record Connect : Type 0 where
  pub base : Base
  pub proto_name : List ℕ
  pub proto_version : ℕ
  pub has_user_name : Bool
  pub has_password : Bool
  pub has_will_retain : Bool
  pub will_qos : ℕ
  pub has_will : Bool
  pub clean_session : Bool
  pub keep_alive : ℕ
  pub client_id : List ℕ
  pub will_topic : List ℕ
  pub will_message : List ℕ
  pub user_name : List ℕ
  pub password : List ℕ

-- "MQIsdp" and "MQTT"
abbrev pub mqisdp : List ℕ
mqisdp = b'M' ∷ b'Q' ∷ b'I' ∷ b's' ∷ b'd' ∷ b'p' ∷ []

abbrev pub mqtt : List ℕ
mqtt = b'M' ∷ b'Q' ∷ b'T' ∷ b'T' ∷ []

-- A field that is read only if its flag is set, and stays empty otherwise.
unfoldable pub read_string_if : Bool → Pkt → Res (List ℕ × Pkt)
read_string_if true p = read_string p
read_string_if false p = ok ([], p)

-- `CMqttConnect::decode` behind the test of the message type.
unfoldable pub connect_body : Base → Pkt → Res (Connect × Pkt)
connect_body base p1 = do
  (name, p2) ← read_string p1
  (version, p3) ← read_byte p2
  (flag, p4) ← read_byte p3
  (alive, p5) ← read_short p4
  (id, p6) ← read_string p5
  (topic, p7) ← read_string_if (has_bit flag 2) p6
  (message, p8) ← read_string_if (has_bit flag 2) p7
  (user, p9) ← read_string_if (has_bit flag 7) p8
  (pass, p10) ← read_string_if (has_bit flag 6) p9
  ok (
    record {
      base = base;
      proto_name = name;
      proto_version = version;
      has_user_name = has_bit flag 7;
      has_password = has_bit flag 6;
      has_will_retain = has_bit flag 5;
      will_qos = flag / 2 ^ 3 % 4;
      has_will = has_bit flag 2;
      clean_session = has_bit flag 1;
      keep_alive = alive;
      client_id = id;
      will_topic = topic;
      will_message = message;
      user_name = user;
      password = pass;
    },
    p10,
  )

unfoldable pub decode_connect : Pkt → Res (Connect × Pkt)
decode_connect p = do
  (base, p1) ← decode_msg p
  expect_type connect base p1 (or_fail (connect_body base p1))

-- `encode` sends the client id and the clean session flag, with fixed values for the rest.
unfoldable pub encode_connect : FixedHeader → (clean_session : Bool) → List ℕ → Pkt → Res (ℕ × Pkt)
encode_connect h clean_session client_id p = do
  let remain_length_value = (2 + 6 + 1 + 1 + 2 + (2 + length client_id)) % 2 ^ 32
  p1 ← encode_msg h p
  (bytes, p2) ← write_remain_length p1 remain_length_value
  p3 ← settle (write_string p2 mqisdp)
  p4 ← settle (write_byte p3 3)
  p5 ← settle (write_byte p4 (bit_of clean_session * 2))
  p6 ← settle (write_short p5 60)
  p7 ← settle (write_string p6 client_id)
  ok (p7.offset, p7)

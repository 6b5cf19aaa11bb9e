-- ===== src/Msg/Decode/Connect.antt =====
-- What `CMqttConnect::decode` reads.
use mqtt_server.Prelude.{
  ℕ, ◌/◌, ◌%◌, ◌≤◌, ◌<◌, ◌^◌, ◌≡◌, refl, sym, ◌∙◌, subst, arith, Bool, true, false, List, [], ◌∷◌,
  ◌++◌, length, append_assoc, append-nil,
}
use mqtt_server.Pkt.{Pkt, ok}
use mqtt_server.Pkt.Frame.{Holds}
use mqtt_server.Pkt.Read.{
  short_bytes, string_bytes, past_string, read_string-Holds, read_byte-Holds, read_short-Res,
}
use mqtt_server.Msg.{FixedHeader, connect, has_bit}
use mqtt_server.Msg.Connect.{Connect, connect_body, decode_connect, read_string_if}
use mqtt_server.Msg.Decode.{base_of, received, past_header, decode_msg-received, expect_type-eq}

-- What a client may send: a will, a user name and a password are there or not.
pub record Fields : Type 0 where
  pub proto_name : List ℕ
  pub proto_version : ℕ
  pub flag : ℕ
  pub keep_alive : ℕ
  pub client_id : List ℕ
  pub will_topic : List ℕ
  pub will_message : List ℕ
  pub user_name : List ℕ
  pub password : List ℕ

abbrev pub string_bytes_if : Bool → List ℕ → List ℕ
string_bytes_if true s = string_bytes s
string_bytes_if false s = []

abbrev pub kept_if : Bool → List ℕ → List ℕ
kept_if true s = s
kept_if false s = []

-- The body of a connect packet, the optional fields as the flag says.
unfoldable pub connect_layout : Fields → List ℕ
connect_layout c =
    string_bytes c.proto_name
    ++ (c.proto_version ∷ c.flag ∷ short_bytes c.keep_alive)
    ++ (string_bytes c.client_id
        ++ (string_bytes_if (has_bit c.flag 2) c.will_topic
            ++ (string_bytes_if (has_bit c.flag 2) c.will_message
                ++ (string_bytes_if (has_bit c.flag 7) c.user_name
                    ++ string_bytes_if (has_bit c.flag 6) c.password))))

pub record FitsFields (c : Fields) : Type 0 where
  pub proto_name : length c.proto_name < 2 ^ 16
  pub keep_alive : c.keep_alive < 2 ^ 16
  pub client_id : length c.client_id < 2 ^ 16
  pub will_topic : length c.will_topic < 2 ^ 16
  pub will_message : length c.will_message < 2 ^ 16
  pub user_name : length c.user_name < 2 ^ 16
  pub password : length c.password < 2 ^ 16

read_string_if-Holds :
    (b : Bool) {p : Pkt} (s : List ℕ) {r : List ℕ}
    → length s < 2 ^ 16
    → Holds p (string_bytes_if b s ++ r)
    → (q : Pkt) × (read_string_if b p ≡ ok (kept_if b s, q)) × Holds q r
unfolding read_string_if
read_string_if-Holds true {p} s fit h =
    let (e, k) = read_string-Holds s fit h in (past_string p s, e, k)
read_string_if-Holds false {p} s fit h = (p, refl, h)

-- What the decoder makes of such a body.
abbrev pub connect_of : FixedHeader → Fields → Connect
connect_of h c = record {
  base = base_of h (connect_layout c);
  proto_name = c.proto_name;
  proto_version = c.proto_version;
  has_user_name = has_bit c.flag 7;
  has_password = has_bit c.flag 6;
  has_will_retain = has_bit c.flag 5;
  will_qos = c.flag / 2 ^ 3 % 4;
  has_will = has_bit c.flag 2;
  clean_session = has_bit c.flag 1;
  keep_alive = c.keep_alive;
  client_id = c.client_id;
  will_topic = kept_if (has_bit c.flag 2) c.will_topic;
  will_message = kept_if (has_bit c.flag 2) c.will_message;
  user_name = kept_if (has_bit c.flag 7) c.user_name;
  password = kept_if (has_bit c.flag 6) c.password;
}

-- `connect_layout` with its parts bracketed to the right.
layout_split :
    (c : Fields)
    → connect_layout c
      ≡ string_bytes c.proto_name
        ++ (c.proto_version ∷ c.flag ∷ short_bytes c.keep_alive
            ++ (string_bytes c.client_id
                ++ (string_bytes_if (has_bit c.flag 2) c.will_topic
                    ++ (string_bytes_if (has_bit c.flag 2) c.will_message
                        ++ (string_bytes_if (has_bit c.flag 7) c.user_name
                            ++ (string_bytes_if (has_bit c.flag 6) c.password ++ []))))))
unfolding connect_layout
layout_split c = simp (append_assoc, append-nil)

-- `CMqttConnect::decode` reads all fields of a connect packet, where the will, the user name and
-- the password are there as the flag byte says and are empty otherwise, for fields that fit
-- their sizes and a body below 2 ^ 14 bytes, whatever memory lies behind it.
pub decode_connect-received :
    (h : FixedHeader) (c : Fields) (tail : List ℕ)
    → h.msg_type ≡ connect
    → h.qos < 4
    → FitsFields c
    → length (connect_layout c) < 2 ^ 14
    → (q : Pkt) × (decode_connect (received h (connect_layout c) tail) ≡ ok (connect_of h c, q))
unfolding decode_connect connect_body
decode_connect-received h c tail ht hq fit hi =
    let body = connect_layout c in
    let e = layout_split c in
    let (base, at_body) =
      decode_msg-received h body tail hq
        (subst (λ (l : List ℕ). 1 ≤ length l) (sym e) (omega arith)) hi in
    let (name, k1) =
      read_string-Holds c.proto_name fit.proto_name
        (subst (Holds (past_header h body tail)) e at_body) in
    let (version, k2) = read_byte-Holds c.proto_version k1 in
    let (flag, k3) = read_byte-Holds c.flag k2 in
    let (alive, k4) = read_short-Res c.keep_alive fit.keep_alive k3 in
    let (id, k5) = read_string-Holds c.client_id fit.client_id k4 in
    let (q6, topic, k6) = read_string_if-Holds (has_bit c.flag 2) c.will_topic fit.will_topic k5 in
    let (q7, message, k7) =
      read_string_if-Holds (has_bit c.flag 2) c.will_message fit.will_message k6 in
    let (q8, user, k8) = read_string_if-Holds (has_bit c.flag 7) c.user_name fit.user_name k7 in
    let (q9, pass, _) = read_string_if-Holds (has_bit c.flag 6) c.password fit.password k8 in
    (
      q9,
      rw base (
          expect_type-eq connect (base_of h body) (past_header h body tail) _ ht
          ∙ rw (name, version, flag, alive, id, topic, message, user, pass) refl),
    )

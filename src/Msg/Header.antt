-- ===== src/Msg/Header.antt =====
-- The fixed header in its byte, and the first bytes of every encoded packet.
use mqtt_server.Prelude.{
  ℕ, ◌+◌, ◌<◌, ◌^◌, ◌*◌, ◌/◌, ◌%◌, ◌≡◌, refl, ap, ◌∙◌, arith, Bool, true, false, List, [], ◌∷◌,
  ◌++◌, length, length-append, ◌==◌, ==_iff,
}
use mqtt_server.Prelude.Bits.{passes, passes_sound}
use mqtt_server.Prelude.Memory.{length-overwrite}
use mqtt_server.Pkt.{Pkt, ok, write_remain_length}
use mqtt_server.Pkt.Fill.{Room, Room-fill, Room-le, fill, fill-fill}
use mqtt_server.Pkt.Write.{write_byte-Room}
use mqtt_server.Pkt.RemainLength.{remain_bytes, write_remain_length-Room}
use mqtt_server.Msg.{
  MqttType, reserved1, connect, connack, publish, puback, pubrec, pubrel, pubcomp, subscribe,
  suback, unsubscribe, unsuback, pingreq, pingresp, disconnect, reserved2, FixedHeader, type_code,
  to_type, bit_of, decode_header, encode_header, encode_msg, check_length,
}

type_code-lt : (t : MqttType) → type_code t < 16
type_code-lt t = ground arith

to_type-type_code : (t : MqttType) → to_type (type_code t) ≡ t
to_type-type_code reserved1 = refl
to_type-type_code connect = refl
to_type-type_code connack = refl
to_type-type_code publish = refl
to_type-type_code puback = refl
to_type-type_code pubrec = refl
to_type-type_code pubrel = refl
to_type-type_code pubcomp = refl
to_type-type_code subscribe = refl
to_type-type_code suback = refl
to_type-type_code unsubscribe = refl
to_type-type_code unsuback = refl
to_type-type_code pingreq = refl
to_type-type_code pingresp = refl
to_type-type_code disconnect = refl
to_type-type_code reserved2 = refl

record Fields (v r q d t : ℕ) : Type 0 where
  low : v / 2 ^ 0 % 2 ≡ r
  middle : v / 2 % 4 ≡ q
  high : v / 2 ^ 3 % 2 ≡ d
  top : v / 2 ^ 4 % 16 ≡ t

fields :
    (r q d t : ℕ)
    → r < 2
    → q < 4
    → d < 2
    → t < 16
    → Fields (r + q % 4 * 2 + d * 2 ^ 3 + t * 2 ^ 4) r q d t
fields r q d t hr hq hd ht = omega arith

bit_of-lt : (b : Bool) → bit_of b < 2
bit_of-lt b = ground arith

bit_of-eq : (b : Bool) → (bit_of b == 1) ≡ b
bit_of-eq true = refl
bit_of-eq false = refl

-- A header with a two-bit QoS is read back from its byte, which is below 256.
pub decode_header-encode_header :
    (h : FixedHeader) → h.qos < 4 → (decode_header (encode_header h) ≡ h) × (encode_header h < 256)
unfolding decode_header encode_header
decode_header-encode_header h lt =
    let tl = type_code-lt h.msg_type in
    let f =
      fields (bit_of h.retain_flag) h.qos (bit_of h.dup_flag) (type_code h.msg_type)
        (bit_of-lt h.retain_flag) lt (bit_of-lt h.dup_flag) tl in
    let t = ap to_type f.top ∙ to_type-type_code h.msg_type in
    let d = ap (λ (x : ℕ). x == 1) f.high ∙ bit_of-eq h.dup_flag in
    let r = ap (λ (x : ℕ). x == 1) f.low ∙ bit_of-eq h.retain_flag in
    (
      λ i. record { msg_type = t i; dup_flag = d i; qos = f.middle i; retain_flag = r i },
      omega (arith, bit_of-lt h.retain_flag, bit_of-lt h.dup_flag, type_code-lt h.msg_type),
    )

header_table : passes (λ v. encode_header (decode_header v) == v) 256 ≡ true
unfolding passes decode_header encode_header
header_table = refl

-- Every byte is the encoding of the header that it is decoded to.
pub encode_header-decode_header :
    (v : ℕ) → v < 256 → (encode_header (decode_header v) ≡ v) × ((decode_header v).qos < 4)
unfolding decode_header
encode_header-decode_header v lt =
    ((==_iff _ _).0 (passes_sound _ 256 v lt (unfold decode_header in header_table)), omega arith)

-- The layout of a packet.
unfoldable pub packet : FixedHeader → List ℕ → List ℕ
packet h body = encode_header h ∷ remain_bytes (length body) ++ body

pub length-packet :
    (h : FixedHeader) (body : List ℕ)
    → length (packet h body) ≡ 1 + length (remain_bytes (length body)) + length body
unfolding packet
length-packet h body = omega (arith, length-append (remain_bytes (length body)) body)

-- The first two steps of every encoder.
pub record Started (h : FixedHeader) (n : ℕ) (p : Pkt) : Type 0 where
  pub header : encode_msg h p ≡ ok (fill p (encode_header h ∷ []))
  pub length_bytes :
      write_remain_length (fill p (encode_header h ∷ [])) n
      ≡ ok (length (remain_bytes n), fill p (encode_header h ∷ remain_bytes n))

pub Room-Started :
    {p : Pkt} (h : FixedHeader) (n : ℕ)
    → n < 2 ^ 32
    → length p.mem < 2 ^ 32
    → Room p (1 + length (remain_bytes n))
    → Started h n p
unfolding encode_msg
Room-Started {p} h n lt hm r = record {
  header = rw (write_byte-Room (encode_header h) (Room-le (omega arith) r));
  length_bytes =
      write_remain_length-Room n lt (Room-fill (encode_header h ∷ []) r)
        (omega (arith, hm, length-overwrite p.mem p.offset (encode_header h ∷ [])))
      ∙ ap (λ q. ok (length (remain_bytes n), q))
          (fill-fill p (encode_header h ∷ []) (remain_bytes n) (Room-le (omega arith) r));
}

pub check_length-eq : (n : ℕ) (p : Pkt) → p.offset ≡ n → check_length n p ≡ ok (n, p)
check_length-eq n p e = rw ((==_iff p.offset n).1 e) (ap (λ (m : ℕ). ok (m, p)) e)

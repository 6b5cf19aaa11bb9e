-- ===== src/Msg/Encode.antt =====
-- What the encoders write into a buffer that is large enough: the first and the last step.
pub mod Ack
pub mod Publish
pub mod Subscribe
pub mod Connect
use mqtt_server.Prelude.{
  ℕ, zero, suc, ◌+◌, ◌*◌, ◌%◌, ◌≤◌, ◌<◌, ◌^◌, ◌≡◌, refl, sym, ap, ◌∙◌, arith, Bool, true, false,
  List, [], ◌∷◌, ◌++◌, length, length-append, append_assoc, append-nil, All,
}
use mqtt_server.Pkt.{Pkt, ok}
use mqtt_server.Pkt.Read.{short_bytes, string_bytes}
use mqtt_server.Pkt.Fill.{Room, Room-le, fill}
use mqtt_server.Pkt.RemainLength.{remain_bytes, length-remain_bytes}
use mqtt_server.Msg.{FixedHeader, encode_header, check_length, bit_of}
use mqtt_server.Msg.Header.{packet, length-packet, Started, Room-Started, check_length-eq}
use mqtt_server.Msg.Append.{then_byte, then_bytes, then_short, then_string}
use mqtt_server.Msg.Publish.{encode_publish}
use mqtt_server.Msg.Connect.{encode_connect, mqisdp}
use mqtt_server.Msg.Subscribe.{Topic, encode_subscribe, write_topics, payload_length}
use mqtt_server.Msg.Ack.{
  encode_msg_id, encode_empty, encode_connack, ack_code_byte, AckCode, encode_suback,
  write_qos_list,
}

-- The buffer of a new message with room for a packet.
pub record Fresh (p : Pkt) (bytes : List ℕ) : Type 0 where
  pub start : p.offset ≡ 0
  pub room : Room p (length bytes)
  pub memory : length p.mem < 2 ^ 32

pub begin :
    {p : Pkt} (h : FixedHeader) (body : List ℕ)
    → Fresh p (packet h body)
    → Started h (length body) p
begin {p} h body f =
    let n = length-packet h body in
    Room-Started h (length body) (omega (arith, n, f.room.fits, f.room.small)) f.memory
      (Room-le (omega (arith, n)) f.room)

pub finish :
    {p : Pkt} (bytes : List ℕ) {n : ℕ}
    → Fresh p bytes
    → n ≡ length bytes
    → check_length n (fill p bytes) ≡ ok (length bytes, fill p bytes)
finish {p} bytes {n} f e =
    check_length-eq n (fill p bytes) (omega (arith, f.start, f.room.fits, f.room.small, e))
    ∙ ap (λ (m : ℕ). ok (m, fill p bytes)) e

-- The same for bytes that stand in another grouping.
pub finish_as :
    {p : Pkt} {bytes : List ℕ} (bytes' : List ℕ) {n : ℕ}
    → Fresh p bytes
    → bytes' ≡ bytes
    → n ≡ length bytes
    → check_length n (fill p bytes') ≡ ok (length bytes, fill p bytes)
finish_as {p} {bytes} bytes' {n} f e l =
    ap (λ (bs : List ℕ). check_length n (fill p bs)) e ∙ finish bytes f l

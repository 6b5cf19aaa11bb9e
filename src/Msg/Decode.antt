-- ===== src/Msg/Decode.antt =====
-- What the decoders read from the bytes of a packet: the part that all messages share.
pub mod Connect
pub mod Publish
pub mod Subscribe
pub mod Ack
use mqtt_server.Prelude.{
  ℕ, zero, suc, ◌+◌, ◌*◌, ◌%◌, ◌≤◌, ◌<◌, ◌^◌, ◌≡◌, refl, sym, ap, ◌∙◌, subst, arith, true, false,
  List, [], ◌∷◌, ◌++◌, length, length-append, append_assoc, append-nil, take-append, le→ltb,
  if◌then◌else◌, ltb, ==_iff,
}
use mqtt_server.Pkt.{
  Pkt, Res, ok, new_pkt, advance, read_byte, read_remain_length, framed, remain_length,
}
use mqtt_server.Pkt.Frame.{Holds}
use mqtt_server.Pkt.Read.{read_byte-Holds, copy_out-Holds, left_size-ge}
use mqtt_server.Pkt.RemainLength.{remain_bytes, length-remain_bytes}
use mqtt_server.Pkt.Framing.{remain_length-remain_bytes}
use mqtt_server.Msg.{
  FixedHeader, Base, MqttType, type_code, expect_type, encode_header, decode_header, decode_msg,
}
use mqtt_server.Msg.Header.{packet, length-packet, decode_header-encode_header}

-- What `CMqttMsg::decode` stores of a packet.
abbrev pub base_of : FixedHeader → List ℕ → Base
base_of h body = record {
  fixed_header = h;
  remain_length_value = length body;
  remain_length_bytes = length (remain_bytes (length body));
}

-- The buffer that a decoder is given: the packet, with other memory behind it.
abbrev pub received : FixedHeader → List ℕ → List ℕ → Pkt
received h body tail = new_pkt (packet h body ++ tail) (length (packet h body))

-- Where the cursor stands behind the fixed header.
abbrev pub past_header : FixedHeader → List ℕ → List ℕ → Pkt
past_header h body tail =
    advance (advance (received h body tail) 1) (length (remain_bytes (length body)))

-- The test of the message type passes on a header of that type.
pub expect_type-eq {ℓ} :
    {A : Type ℓ} (t : MqttType) (b : Base) (p : Pkt) (rest : Res A)
    → b.fixed_header.msg_type ≡ t
    → expect_type t b p rest ≡ rest
expect_type-eq t b p rest e =
    rw ((==_iff (type_code b.fixed_header.msg_type) (type_code t)).1 (ap type_code e)) refl

received-Holds :
    (h : FixedHeader) (body tail : List ℕ)
    → length (packet h body) < 2 ^ 31
    → Holds (received h body tail) (packet h body)
received-Holds h body tail lt = record {
  within = omega arith;
  small = lt;
  backed = omega (arith, length-append (packet h body) tail);
  rest = take-append _ (packet h body) tail (omega arith);
}

received-framed :
    (h : FixedHeader) (body tail : List ℕ)
    → length body < 2 ^ 14
    → remain_length (packet h body ++ tail) (length (packet h body))
      ≡ framed (length body) (length (remain_bytes (length body)))
received-framed h body tail hi =
    let rb = remain_bytes (length body) in
    let n = length body in
    let split : packet h body ++ tail ≡ encode_header h ∷ rb ++ (body ++ tail) =
      unfold packet in append_assoc (encode_header h ∷ rb) body tail in
    ap (λ (mem : List ℕ). remain_length mem (length (packet h body))) split
    ∙ remain_length-remain_bytes n (encode_header h) (body ++ tail) (length (packet h body)) hi
    ∙ rw (le→ltb (length (packet h body)) (1 + length rb + n) (omega (arith, length-packet h body)))
        refl

pub decode_msg-received :
    (h : FixedHeader) (body tail : List ℕ)
    → h.qos < 4
    → 1 ≤ length body
    → length body < 2 ^ 14
    → (decode_msg (received h body tail) ≡ ok (base_of h body, past_header h body tail))
      × Holds (past_header h body tail) body
unfolding decode_msg read_remain_length
decode_msg-received h body tail hq lo hi =
    let p = received h body tail in
    let rb = remain_bytes (length body) in
    let (some_bytes, few_bytes) = length-remain_bytes (length body) in
    let whole = received-Holds h body tail (omega (arith, length-packet h body)) in
    let (header, after) =
      read_byte-Holds {p = p} (encode_header h) {r = rb ++ body} (unfold packet in whole) in
    let (_, behind) = copy_out-Holds rb {p = advance p 1} {r = body} after in
    (
      rw
          (
            header,
            left_size-ge 2 after (omega (arith, length-append rb body)),
            received-framed h body tail hi,
            (decode_header-encode_header h hq).0,
          )
          refl,
      behind,
    )

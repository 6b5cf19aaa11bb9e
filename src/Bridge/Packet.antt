-- ===== src/Bridge/Packet.antt =====
-- A publish message of the other server, and what `process_mqtt` does with its packet.
use mqtt_server.Prelude.{
  ℕ, zero, suc, ◌+◌, ◌-◌, ◌/◌, ◌%◌, ◌^◌, ◌≤◌, ◌<◌, ◌≡◌, refl, sym, ap, ◌∙◌, arith, Bool, true,
  false, List, [], ◌∷◌, ◌++◌, Option, some, none, length, take, replicate, get_elem?, take-append,
  ltb, le→ltb,
}
use mqtt_server.Prelude.Memory.{overwrite, take-overwrite}
use mqtt_server.Mbuf.{Mbuf, contents, count, init, copy, msg_publish}
use mqtt_server.Pkt.Read.{short_bytes}
use mqtt_server.Pkt.RemainLength.{remain_bytes, groups}
use mqtt_server.Msg.{
  FixedHeader, publish, puback, plain_header, encode_header, decode_header, to_type,
}
use mqtt_server.Msg.Header.{packet, decode_header-encode_header}
use mqtt_server.Msg.Encode.{Fresh}
use mqtt_server.Msg.Encode.Ack.{encode_msg_id-Fresh}
use mqtt_server.Msg.Encode.Publish.{publish_body}
use mqtt_server.Msg.Decode.Publish.{decode_publish-received}
use mqtt_server.Broker.{World, Kernel}
use mqtt_server.Broker.Sender.Whole.{TakesWhole}
use mqtt_server.Broker.Sender.WriteN.Laws.{write_n-whole, take-length}
use mqtt_server.Broker.Notify.{notify}
use mqtt_server.Bridge.{
  Client, stack_pkt, send_pub_ack_msg, bridged, take_publish, on_packet, process_mqtt,
}

-- A publish message that can be read back.
pub record Message : Type 0 where
  pub header : FixedHeader
  pub topic : List ℕ
  pub msg_id : ℕ
  pub payload : List ℕ

abbrev pub body_of : Message → List ℕ
body_of m = publish_body m.topic m.msg_id m.payload

abbrev pub packet_of : Message → List ℕ
packet_of m = packet m.header (body_of m)

pub record IsSendable (m : Message) : Type 0 where
  pub is_publish : m.header.msg_type ≡ publish
  pub qos : m.header.qos < 4
  pub id : m.msg_id < 2 ^ 16
  pub small : length (body_of m) < 2 ^ 14

-- What the acknowledgement of a message is.
abbrev pub ack_of : Message → List ℕ
ack_of m = packet (plain_header puback) (short_bytes m.msg_id)

length-ack : (m : Message) → length (ack_of m) ≡ 4
unfolding packet remain_bytes groups
length-ack m = refl

length-zeros : (n : ℕ) → length {A = ℕ} (replicate n 0) ≡ n
length-zeros zero = refl
length-zeros (suc n) = omega (arith, length-zeros n)

stack-Fresh : (bytes : List ℕ) → length bytes ≤ 16 → Fresh (stack_pkt 16) bytes
stack-Fresh bytes h = record {
  start = refl;
  room = record { fits = omega arith; small = omega arith; backed = omega arith };
  memory = omega arith;
}

-- The world after a packet went out on the socket.
abbrev pub wrote_out : (c : ℕ) → List ℕ → World → World
wrote_out c bytes w = record w { calls = w.calls + 1; wire = w.wire ++ (c, bytes) ∷ [] }

send_pub_ack_msg-sent :
    (sys : Kernel) (fuel : ℕ) (wake : Bool) (m : Message) (t : Client) (w : World)
    → TakesWhole sys
    → 1 ≤ fuel
    → m.msg_id < 2 ^ 16
    → send_pub_ack_msg sys fuel wake m.msg_id t w
      ≡ some (true, wrote_out t.client_socket (ack_of m) w)
unfolding send_pub_ack_msg
send_pub_ack_msg-sent sys fuel wake m t w takes enough hm =
    let f = stack-Fresh (ack_of m) (omega (arith, length-ack m)) in
    let e = encode_msg_id-Fresh (plain_header puback) m.msg_id hm f in
    let written : take 4 (overwrite (replicate 16 0) 0 (ack_of m)) ≡ ack_of m =
      ap (λ (k : ℕ). take k (overwrite (replicate 16 0) 0 (ack_of m))) (sym (length-ack m))
      ∙ ap (λ (k : ℕ). take k (overwrite (replicate 16 0) 0 (ack_of m))) (omega arith)
      ∙ take-overwrite (replicate 16 0) 0 (ack_of m) (omega (arith, length-ack m)) in
    let sent =
      write_n-whole sys fuel t.client_socket (ack_of m) w takes enough
        (omega (arith, length-ack m)) in
    rw (e, written) sent

-- The copy that is handed on.
abbrev pub handed : (m : Message) → (now : ℕ) → Mbuf
handed m now = bridged (packet_of m) (length (packet_of m)) m.msg_id now

take-packet :
    (m : Message) (tail : List ℕ) → take (length (packet_of m)) (packet_of m ++ tail) ≡ packet_of m
take-packet m tail = take-append (length (packet_of m)) (packet_of m) tail refl

bridged-handed :
    (m : Message) (tail : List ℕ) (now : ℕ)
    → bridged (packet_of m ++ tail) (length (packet_of m)) m.msg_id now ≡ handed m now
bridged-handed m tail now =
    let same = take-packet m tail ∙ sym (take-length (packet_of m)) in
    ap
      (λ (l : List ℕ).
        let fresh = init (replicate (length (packet_of m)) 0) now in
        let full : Mbuf = elim (copy fresh l) as (λ _. Mbuf) [ none ↦ fresh | some b ↦ b ] in
        record full { msg_id = m.msg_id; msg_type = msg_publish })
      same

copy-zeros :
    (pk : List ℕ) (now : ℕ)
    → length pk < 2 ^ 31
    → let fresh = init (replicate (length pk) 0) now in
      copy fresh pk
      ≡ some
          (record fresh { mem = overwrite (replicate (length pk) 0) 0 pk; write_pos = length pk })
unfolding copy init
copy-zeros pk now small =
    let zeros : List ℕ = replicate (length pk) 0 in
    let end : (0 + length pk) % 2 ^ 32 ≡ length pk = omega arith in
    let room : ltb (length zeros) (length pk) ≡ false =
      le→ltb (length zeros) (length pk) (omega (arith, length-zeros (length pk))) in
    rw (end, room) refl

pub contents-handed :
    (m : Message) (now : ℕ) → length (packet_of m) < 2 ^ 31 → contents (handed m now) ≡ packet_of m
unfolding contents count init
contents-handed m now small =
    let pk = packet_of m in
    let zeros : List ℕ = replicate (length pk) 0 in
    let copied = ap (copy (init zeros now)) (take-length pk) ∙ copy-zeros pk now small in
    let size : (length pk + 2 ^ 32 - 0) % 2 ^ 32 ≡ length pk = omega arith in
    ap
      (λ (o : Option Mbuf).
        let full : Mbuf = elim o as (λ _. Mbuf) [ none ↦ init zeros now | some b ↦ b ] in
        contents (record full { msg_id = m.msg_id; msg_type = msg_publish }))
      copied
    ∙ ap (λ (k : ℕ). take k (overwrite zeros 0 pk)) (size ∙ omega arith)
    ∙ take-overwrite zeros 0 pk (omega (arith, length-zeros (length pk)))

first_byte :
    (m : Message) (tail : List ℕ)
    → IsSendable m
    → (get_elem? (packet_of m ++ tail) 0 ≡ some (encode_header m.header))
      × (to_type (encode_header m.header / 2 ^ 4 % 16) ≡ publish)
unfolding packet decode_header
first_byte m tail s =
    (refl, ap FixedHeader.msg_type (decode_header-encode_header m.header s.qos).0 ∙ s.is_publish)

-- What one message of the stream does.
abbrev pub forwarded : Client → Message → World → World
forwarded t m w =
    wrote_out t.client_socket (ack_of m) (record w { mbufs = w.mbufs ++ handed m w.now ∷ [] })

abbrev pub queued : Client → List ℕ → Client
queued t places = record t { reactor = record { notify_writer = true; notify_deque = places } }

module _ (sys : Kernel) (fuel : ℕ) (wake : Bool) (takes : TakesWhole sys) (enough : 1 ≤ fuel) where
  pub process_mqtt-forwards :
      (m : Message) (tail deque : List ℕ) (t : Client) (w : World)
      → IsSendable m
      → process_mqtt sys fuel wake (packet_of m ++ tail) (length (packet_of m)) (queued t deque) w
        ≡ some ((true, queued t (deque ++ length w.mbufs ∷ [])), forwarded t m w)
  unfolding process_mqtt on_packet take_publish notify
  process_mqtt-forwards m tail deque t w s =
      let (first, kind) = first_byte m tail s in
      let d = decode_publish-received m.header m.topic m.msg_id m.payload tail s.qos s.id s.small in
      let acked =
        send_pub_ack_msg-sent sys fuel wake m (queued t deque)
          (record w { mbufs = w.mbufs ++ handed m w.now ∷ [] }) takes enough s.id in
      ground (arith, first, kind, d, bridged-handed m tail w.now, acked)

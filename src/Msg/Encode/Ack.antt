-- ===== src/Msg/Encode/Ack.antt =====
-- What the encoders of the acknowledgements and of the empty messages write.
use mqtt_server.Prelude.{
  ℕ, ◌+◌, ◌%◌, ◌≤◌, ◌<◌, ◌^◌, ◌≡◌, refl, sym, ap, ◌∙◌, arith, List, [], ◌∷◌, ◌++◌, length,
  length-append, append_assoc, append-nil,
}
use mqtt_server.Pkt.{Pkt, ok}
use mqtt_server.Pkt.Read.{short_bytes}
use mqtt_server.Pkt.Fill.{Room, fill}
use mqtt_server.Pkt.RemainLength.{remain_bytes}
use mqtt_server.Msg.{FixedHeader, encode_header}
use mqtt_server.Msg.Header.{packet, length-packet}
use mqtt_server.Msg.Append.{then_byte, then_short}
use mqtt_server.Msg.Ack.{
  encode_msg_id, encode_empty, encode_connack, ack_code_byte, AckCode, encode_suback,
  write_qos_list,
}
use mqtt_server.Msg.Encode.{Fresh, begin, finish, finish_as}

-- The encoders of CMqttPublishAck and CMqttUnsubAck.
pub encode_msg_id-Fresh :
    {p : Pkt} (h : FixedHeader) (msg_id : ℕ)
    → msg_id < 2 ^ 16
    → Fresh p (packet h (short_bytes msg_id))
    → encode_msg_id h msg_id p ≡ ok (4, fill p (packet h (short_bytes msg_id)))
unfolding encode_msg_id packet remain_bytes
encode_msg_id-Fresh {p} h msg_id hm f =
    let s = begin h (short_bytes msg_id) f in
    rw
      (
        s.header,
        s.length_bytes,
        then_short (encode_header h ∷ 2 ∷ []) f.room msg_id hm (omega arith),
      )
      (finish (packet h (short_bytes msg_id)) f refl)

-- The encoders of CMqttPingReq, CMqttPingResp and CMqttDisconnect.
pub encode_empty-Fresh :
    {p : Pkt} (h : FixedHeader)
    → Fresh p (packet h [])
    → encode_empty h p ≡ ok (2, fill p (packet h []))
unfolding encode_empty packet remain_bytes
encode_empty-Fresh {p} h f =
    let s = begin h [] f in rw (s.header, s.length_bytes) (finish (packet h []) f refl)

-- `CMqttConnAck::encode`
pub encode_connack-Fresh :
    {p : Pkt} (h : FixedHeader) (code : AckCode)
    → Fresh p (packet h (0 ∷ ack_code_byte code ∷ []))
    → encode_connack h code p ≡ ok (4, fill p (packet h (0 ∷ ack_code_byte code ∷ [])))
unfolding encode_connack packet remain_bytes
encode_connack-Fresh {p} h code f =
    let body : List ℕ = 0 ∷ ack_code_byte code ∷ [] in
    let s = begin h body f in
    rw
      (
        s.header,
        s.length_bytes,
        then_byte (encode_header h ∷ 2 ∷ []) f.room 0 (omega arith),
        then_byte (encode_header h ∷ 2 ∷ 0 ∷ []) f.room (ack_code_byte code) (omega arith),
      )
      (finish (packet h body) f refl)

then_qos_list :
    {p : Pkt} (xs : List ℕ) {n : ℕ} (vs : List ℕ)
    → Room p n
    → length xs + length vs ≤ n
    → write_qos_list vs (fill p xs) ≡ ok (fill p (xs ++ vs))
unfolding write_qos_list
then_qos_list {p} xs [] r h = ap (λ (bs : List ℕ). ok (fill p bs)) (sym (append-nil xs))
then_qos_list {p} xs (v ∷ vs) r h = rw (then_byte xs r v (omega arith)) (
    then_qos_list (xs ++ v ∷ []) vs r (omega (arith, length-append xs (v ∷ [])))
    ∙ ap (λ (bs : List ℕ). ok (fill p bs)) (append_assoc xs (v ∷ []) vs))

suback_parts :
    (h : FixedHeader) (msg_id : ℕ) (sub_qos : List ℕ)
    → let body = short_bytes msg_id ++ sub_qos in
      ((encode_header h ∷ remain_bytes (length body)) ++ short_bytes msg_id) ++ sub_qos
      ≡ packet h body
unfolding packet
suback_parts h msg_id sub_qos = simp append_assoc

-- `CMqttSubAck::encode` with a 16-bit message id lays the header, the remaining length, the id and
-- the QoS values over a fresh buffer with room for them, and answers their number.
pub encode_suback-Fresh :
    {p : Pkt} (h : FixedHeader) (msg_id : ℕ) (sub_qos : List ℕ)
    → msg_id < 2 ^ 16
    → Fresh p (packet h (short_bytes msg_id ++ sub_qos))
    → let bytes = packet h (short_bytes msg_id ++ sub_qos) in
      encode_suback h msg_id sub_qos p ≡ ok (length bytes, fill p bytes)
unfolding encode_suback
encode_suback-Fresh {p} h msg_id sub_qos hm f =
    let body = short_bytes msg_id ++ sub_qos in
    let n = length-packet h body in
    let s = begin h body f in
    let xs : List ℕ = encode_header h ∷ remain_bytes (length body) in
    let l1 = length-append xs (short_bytes msg_id) in
    let v : (length sub_qos + 2) % 2 ^ 32 ≡ length body =
      omega (arith, n, f.room.fits, f.room.small) in
    let total : (length body + length (remain_bytes (length body)) + 1) % 2 ^ 32
        ≡ length (packet h body) =
      omega (arith, n, f.room.fits, f.room.small) in
    rw
      (
        v,
        s.header,
        s.length_bytes,
        then_short xs f.room msg_id hm (omega (arith, n)),
        then_qos_list (xs ++ short_bytes msg_id) sub_qos f.room (omega (arith, n, l1)),
      )
      (finish_as _ f (suback_parts h msg_id sub_qos) total)

-- ===== src/Msg/Encode/Publish.antt =====
-- What `CMqttPublish::encode` writes.
use mqtt_server.Prelude.{
  ℕ, ◌+◌, ◌%◌, ◌<◌, ◌^◌, ◌≡◌, arith, List, ◌∷◌, ◌++◌, length, length-append, append_assoc,
}
use mqtt_server.Pkt.{Pkt, ok}
use mqtt_server.Pkt.Read.{short_bytes, string_bytes}
use mqtt_server.Pkt.Fill.{fill}
use mqtt_server.Pkt.RemainLength.{remain_bytes}
use mqtt_server.Msg.{FixedHeader, encode_header}
use mqtt_server.Msg.Header.{packet, length-packet}
use mqtt_server.Msg.Append.{then_bytes, then_short, then_string}
use mqtt_server.Msg.Publish.{encode_publish}
use mqtt_server.Msg.Encode.{Fresh, begin, finish_as}

unfoldable pub publish_body : List ℕ → ℕ → List ℕ → List ℕ
publish_body topic msg_id payload = string_bytes topic ++ short_bytes msg_id ++ payload

pub length-publish_body :
    (topic : List ℕ) (msg_id : ℕ) (payload : List ℕ)
    → length (publish_body topic msg_id payload) ≡ length topic + 2 + 2 + length payload
unfolding publish_body
length-publish_body topic msg_id payload = omega (
  arith,
  length-append (string_bytes topic ++ short_bytes msg_id) payload,
  length-append (string_bytes topic) (short_bytes msg_id),
)

publish_parts :
    (h : FixedHeader) (topic : List ℕ) (msg_id : ℕ) (payload : List ℕ)
    → let body = publish_body topic msg_id payload in
      ((encode_header h ∷ remain_bytes (length body)) ++ string_bytes topic ++ short_bytes msg_id)
        ++ payload
      ≡ packet h body
unfolding packet publish_body
publish_parts h topic msg_id payload = simp append_assoc

-- `CMqttPublish::encode`
pub encode_publish-Fresh :
    {p : Pkt} (h : FixedHeader) (topic : List ℕ) (msg_id : ℕ) (payload : List ℕ)
    → length topic < 2 ^ 16
    → msg_id < 2 ^ 16
    → let bytes = packet h (publish_body topic msg_id payload) in
      Fresh p bytes → encode_publish h topic msg_id payload p ≡ ok (length bytes, fill p bytes)
unfolding encode_publish
encode_publish-Fresh {p} h topic msg_id payload ht hm f =
    let body = publish_body topic msg_id payload in
    let n = length-packet h body in
    let bl = length-publish_body topic msg_id payload in
    let s = begin h body f in
    let xs : List ℕ = encode_header h ∷ remain_bytes (length body) in
    let l1 = length-append xs (string_bytes topic) in
    let l2 = length-append (xs ++ string_bytes topic) (short_bytes msg_id) in
    let v : (length topic + 2 + 2 + length payload) % 2 ^ 32 ≡ length body =
      omega (arith, bl, n, f.room.fits, f.room.small) in
    let total : (length body + length (remain_bytes (length body)) + 1) % 2 ^ 32
        ≡ length (packet h body) =
      omega (arith, n, f.room.fits, f.room.small) in
    rw
      (
        v,
        s.header,
        s.length_bytes,
        then_string xs f.room topic ht (omega (arith, n, bl)),
        then_short (xs ++ string_bytes topic) f.room msg_id hm (omega (arith, n, bl, l1)),
        then_bytes ((xs ++ string_bytes topic) ++ short_bytes msg_id) f.room payload
            (omega (arith, n, bl, l1, l2)),
      )
      (finish_as _ f (publish_parts h topic msg_id payload) total)

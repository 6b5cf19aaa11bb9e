-- ===== src/Msg/Encode/Connect.antt =====
-- What `CMqttConnect::encode` writes.
use mqtt_server.Prelude.{
  ℕ, ◌+◌, ◌*◌, ◌%◌, ◌<◌, ◌^◌, ◌≡◌, ap, ◌∙◌, arith, Bool, List, [], ◌∷◌, ◌++◌, length, length-append,
  append_assoc,
}
use mqtt_server.Pkt.{Pkt, Res, ok}
use mqtt_server.Pkt.Read.{string_bytes}
use mqtt_server.Pkt.Fill.{fill}
use mqtt_server.Pkt.RemainLength.{remain_bytes}
use mqtt_server.Msg.{FixedHeader, encode_header, bit_of}
use mqtt_server.Msg.Header.{packet, length-packet}
use mqtt_server.Msg.Append.{then_byte, then_short, then_string}
use mqtt_server.Msg.Connect.{encode_connect, mqisdp}
use mqtt_server.Msg.Encode.{Fresh, begin}

-- The flag byte that `encode` sends.
abbrev pub connect_flag : Bool → ℕ
connect_flag clean_session = bit_of clean_session * 2

unfoldable pub connect_bytes : Bool → List ℕ → List ℕ
connect_bytes clean_session client_id =
    string_bytes mqisdp ++ 3 ∷ connect_flag clean_session ∷ 0 ∷ 60 ∷ string_bytes client_id

pub length-connect_bytes :
    (clean_session : Bool) (client_id : List ℕ)
    → length (connect_bytes clean_session client_id) ≡ 14 + length client_id
unfolding connect_bytes
length-connect_bytes clean_session client_id = omega arith

connect_parts :
    (h : FixedHeader) (clean_session : Bool) (client_id : List ℕ)
    → let body = connect_bytes clean_session client_id in
      ((((encode_header h ∷ remain_bytes (length body)) ++ string_bytes mqisdp) ++ 3 ∷ [])
          ++ connect_flag clean_session ∷ []
          ++ 0 ∷ 60 ∷ [])
        ++ string_bytes client_id
      ≡ packet h body
unfolding packet connect_bytes
connect_parts h clean_session client_id = simp append_assoc

connect_end :
    {p : Pkt} {bytes : List ℕ} (bytes' : List ℕ)
    → Fresh p bytes
    → bytes' ≡ bytes
    → ◌≡◌ {A = Res (ℕ × Pkt)}
        (ok ((fill p bytes').offset, fill p bytes'))
        (ok (length bytes, fill p bytes))
connect_end {p} {bytes} bytes' f e =
    ap {B = Res (ℕ × Pkt)} (λ (bs : List ℕ). ok ((fill p bs).offset, fill p bs)) e
    ∙ ap {B = Res (ℕ × Pkt)} (λ (m : ℕ). ok (m, fill p bytes))
        (omega (arith, f.start, f.room.fits, f.room.small))

-- `CMqttConnect::encode`
pub encode_connect-Fresh :
    {p : Pkt} (h : FixedHeader) (clean_session : Bool) (client_id : List ℕ)
    → length client_id < 2 ^ 16
    → let bytes = packet h (connect_bytes clean_session client_id) in
      Fresh p bytes → encode_connect h clean_session client_id p ≡ ok (length bytes, fill p bytes)
unfolding encode_connect
encode_connect-Fresh {p} h clean_session client_id hc f =
    let body = connect_bytes clean_session client_id in
    let n = length-packet h body in
    let bl = length-connect_bytes clean_session client_id in
    let s = begin h body f in
    let xs : List ℕ = encode_header h ∷ remain_bytes (length body) in
    let x1 = xs ++ string_bytes mqisdp in
    let x2 = x1 ++ 3 ∷ [] in
    let x3 = x2 ++ connect_flag clean_session ∷ [] in
    let x4 = x3 ++ 0 ∷ 60 ∷ [] in
    let l1 = length-append xs (string_bytes mqisdp) in
    let l2 = length-append x1 (3 ∷ []) in
    let l3 = length-append x2 (connect_flag clean_session ∷ []) in
    let l4 = length-append x3 (0 ∷ 60 ∷ []) in
    let v : (2 + 6 + 1 + 1 + 2 + (2 + length client_id)) % 2 ^ 32 ≡ length body =
      omega (arith, n, bl, f.room.fits, f.room.small) in
    rw
      (
        v,
        s.header,
        s.length_bytes,
        then_string xs f.room mqisdp (omega arith) (omega (arith, n, bl)),
        then_byte x1 f.room 3 (omega (arith, n, bl, l1)),
        then_byte x2 f.room (connect_flag clean_session) (omega (arith, n, bl, l1, l2)),
        then_short x3 f.room 60 (omega arith) (omega (arith, n, bl, l1, l2, l3)),
        then_string x4 f.room client_id hc (omega (arith, n, bl, l1, l2, l3, l4)),
      )
      (connect_end _ f (connect_parts h clean_session client_id))

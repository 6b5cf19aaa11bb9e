-- ===== src/Http/Publish/Buffer.antt =====
-- The buffer that the message of an HTTP request is encoded into.
use mqtt_server.Prelude.{
  ℕ, ◌+◌, ◌%◌, ◌<◌, ◌≤◌, ◌^◌, ◌≡◌, refl, sym, ap, ap₂, take, ◌∙◌, arith, false, List, [], length,
  ltb,
}
use mqtt_server.Prelude.Memory.{overwrite, length-overwrite, take-overwrite}
use mqtt_server.Mbuf.{Mbuf, skip_write}
use mqtt_server.Pkt.{Pkt, Res, ok, new_pkt}
use mqtt_server.Pkt.RemainLength.{remain_bytes, groups}
use mqtt_server.Msg.{FixedHeader}
use mqtt_server.Msg.Header.{packet, length-packet}
use mqtt_server.Msg.Publish.{encode_publish}
use mqtt_server.Msg.Encode.{Fresh}
use mqtt_server.Msg.Encode.Publish.{publish_body, length-publish_body, encode_publish-Fresh}
use mqtt_server.Http.Publish.{buf_len}

length-remain_bytes_small : (n : ℕ) → n < 2 ^ 14 → length (remain_bytes n) ≤ 2
unfolding remain_bytes groups
length-remain_bytes_small n h = ground arith

pub new_buffer-Fresh :
    (h : FixedHeader) (topic msg mem : List ℕ) (id : ℕ)
    → length topic + length msg + 4 < 2 ^ 14
    → length mem ≡ buf_len topic msg
    → Fresh (new_pkt mem (buf_len topic msg)) (packet h (publish_body topic id msg))
new_buffer-Fresh h topic msg mem id small size =
    let body = publish_body topic id msg in
    let n = length-publish_body topic id msg in
    let len = length-packet h body in
    let few = length-remain_bytes_small (length body) (omega (arith, n)) in
    record {
      start = refl;
      room = record {
        fits = omega (arith, few, len, n);
        small = omega arith;
        backed = omega (arith, size);
      };
      memory = omega (arith, size);
    }

unfoldable pkt_len : Res (ℕ × Pkt) → ℕ
pkt_len (ok (n, q)) = n
pkt_len _ = 0

unfoldable written_mem : Res (ℕ × Pkt) → List ℕ
written_mem (ok (n, q)) = q.mem
written_mem _ = []

unfoldable mem_size : Res (ℕ × Pkt) → ℕ
mem_size (ok (n, q)) = length q.mem
mem_size _ = 0

pub skip_write-first :
    (b : Mbuf) (n : ℕ)
    → b.write_pos ≡ 0
    → n ≤ length b.mem
    → length b.mem < 2 ^ 31
    → skip_write b n ≡ record b { write_pos = n }
unfolding skip_write
skip_write-first b n start fits small =
    let v : (b.write_pos + n) % 2 ^ 32 ≡ n = omega arith in
    let room : ltb (length b.mem) n ≡ false = ground arith in rw (v, room) refl

pub encoded_size :
    (h : FixedHeader) (topic msg mem : List ℕ) (id : ℕ) (q : Pkt)
    → id < 2 ^ 16
    → length topic + length msg + 4 < 2 ^ 14
    → length mem ≡ buf_len topic msg
    → encode_publish h topic id msg (new_pkt mem (buf_len topic msg)) ≡ ok (q.offset, q)
    → (q.offset ≤ length q.mem) × (length q.mem < 2 ^ 31)
unfolding pkt_len mem_size
encoded_size h topic msg mem id q hi small size e =
    let bytes = packet h (publish_body topic id msg) in
    let f = new_buffer-Fresh h topic msg mem id small size in
    let written = sym e ∙ encode_publish-Fresh h topic id msg (omega arith) hi f in
    let n : q.offset ≡ length bytes = ap pkt_len written in
    let m : length q.mem ≡ length (overwrite mem 0 bytes) = ap mem_size written in
    let fits = f.room.fits in
    let same_size = length-overwrite mem 0 bytes in (omega arith, omega arith)

-- The packet is at the front of the memory.
pub encoded_bytes :
    (h : FixedHeader) (topic msg mem : List ℕ) (id : ℕ) (q : Pkt)
    → id < 2 ^ 16
    → length topic + length msg + 4 < 2 ^ 14
    → length mem ≡ buf_len topic msg
    → encode_publish h topic id msg (new_pkt mem (buf_len topic msg)) ≡ ok (q.offset, q)
    → take q.offset q.mem ≡ packet h (publish_body topic id msg)
unfolding pkt_len written_mem
encoded_bytes h topic msg mem id q hi small size e =
    let bytes = packet h (publish_body topic id msg) in
    let f = new_buffer-Fresh h topic msg mem id small size in
    let written = sym e ∙ encode_publish-Fresh h topic id msg (omega arith) hi f in
    ap₂ take (ap pkt_len written) (ap written_mem written)
    ∙ ap (λ (k : ℕ). take k (overwrite mem 0 bytes)) (omega arith)
    ∙ take-overwrite mem 0 bytes (omega (arith, f.room.fits, f.room.backed))

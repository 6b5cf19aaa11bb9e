-- ===== src/Bridge/Forward.antt =====
-- What `process` leaves of the receive buffer and hands to the reactor.
use mqtt_server.Prelude.{
  ℕ, zero, suc, ◌+◌, ◌-◌, ◌^◌, ◌≤◌, ◌<◌, ◌≡◌, refl, sym, ap, ap₂, ◌∙◌, arith, Bool, true, List, [],
  ◌∷◌, ◌++◌, map, some, length, take, drop, append_assoc, append-nil, All, take-append, drop-append,
  length-append,
}
use mqtt_server.Mbuf.{Mbuf, contents}
use mqtt_server.Pkt.RemainLength.{length-remain_bytes}
use mqtt_server.Msg.Header.{length-packet}
use mqtt_server.Broker.{World, Kernel}
use mqtt_server.Broker.Sender.Whole.{TakesWhole}
use mqtt_server.Bridge.{Client, keep_rest, process}
use mqtt_server.Bridge.Packet.{
  Message, body_of, packet_of, IsSendable, ack_of, handed, contents-handed, forwarded, queued,
}
use mqtt_server.Bridge.Stream.{
  stream, all_forwarded, places, IsPart, finished, process_packets-stream,
}

-- The copies in order.
abbrev pub copies : List Message → (now : ℕ) → List Mbuf
copies [] now = []
copies (m ∷ ms) now = handed m now ∷ copies ms now

-- The acknowledgements in order.
abbrev pub acks : (c : ℕ) → List Message → List (ℕ × List ℕ)
acks c [] = []
acks c (m ∷ ms) = (c, ack_of m) ∷ acks c ms

all_forwarded-lem :
    (t : Client) (ms : List Message) (w : World)
    → ((all_forwarded t ms w).mbufs ≡ w.mbufs ++ copies ms w.now)
      × ((all_forwarded t ms w).wire ≡ w.wire ++ acks t.client_socket ms)
all_forwarded-lem t [] w = (sym (append-nil w.mbufs), sym (append-nil w.wire))
all_forwarded-lem t (m ∷ ms) w =
    let (held, sent) = all_forwarded-lem t ms (forwarded t m w) in
    (
      held ∙ append_assoc w.mbufs (handed m w.now ∷ []) (copies ms w.now),
      sent ∙ append_assoc w.wire ((t.client_socket, ack_of m) ∷ []) (acks t.client_socket ms),
    )

map-contents-copies :
    (ms : List Message) (now : ℕ)
    → All (λ m. length (packet_of m) < 2 ^ 31) ms
    → map contents (copies ms now) ≡ map packet_of ms
map-contents-copies [] now _ = refl
map-contents-copies (m ∷ ms) now (h, hs) =
    ap₂ ◌∷◌ (contents-handed m now h) (map-contents-copies ms now hs)

small_packets :
    (ms : List Message) → All IsSendable ms → All (λ m. length (packet_of m) < 2 ^ 31) ms
small_packets [] _ = tt
small_packets (m ∷ ms) (s, ss) =
    let (lo, hi) = length-remain_bytes (length (body_of m)) in
    (omega (arith, length-packet m.header (body_of m), s.small), small_packets ms ss)

length-stream : (ms : List Message) → length ms ≤ length (stream ms)
length-stream [] = omega arith
length-stream (m ∷ ms) = omega (
  arith,
  length-stream ms,
  length-append (packet_of m) (stream ms),
  length-packet m.header (body_of m),
)

take-part :
    (n : ℕ) (part tail rest : List ℕ)
    → n ≡ length part
    → take n (take n (part ++ tail) ++ rest) ≡ part
take-part n part tail rest e =
    ap (λ (l : List ℕ). take n (l ++ rest)) (take-append n part tail e) ∙ take-append n part rest e

-- What is left of the stream stands at the front of the buffer.
finished-part :
    (part tail : List ℕ) (offset len : ℕ) (t : Client)
    → drop offset t.recv_buffer ≡ part ++ tail
    → offset + length part ≡ len
    → t.cur_buf_pos ≡ len
    → let t' = finished part offset len t in
      (t'.cur_buf_pos ≡ length part)
      × (take (length part) t'.recv_buffer ≡ part)
      × (t'.reactor ≡ t.reactor)
unfolding keep_rest
finished-part [] tail offset len t at size pos = (refl, refl, refl)
finished-part (x ∷ part) tail zero len t at size pos = (
  pos ∙ omega (arith, size),
  ap (take (length (x ∷ part))) at ∙ take-append (length (x ∷ part)) (x ∷ part) tail refl,
  refl,
)
finished-part (x ∷ part) tail (suc k) len t at size pos =
    let left : len - suc k ≡ length (x ∷ part) = omega (arith, size) in
    (
      left,
      ap
            (λ (n : ℕ).
              take n (
                take (len - suc k) (drop (suc k) t.recv_buffer)
                ++ drop (len - suc k) t.recv_buffer))
            (sym left)
          ∙ ap
              (λ (l : List ℕ).
                take (len - suc k) (take (len - suc k) l ++ drop (len - suc k) t.recv_buffer))
              at
          ∙ take-part (len - suc k) (x ∷ part) tail (drop (len - suc k) t.recv_buffer) left,
      refl,
    )

-- Where the receive buffer holds publish messages that can be read back, each with a body below
-- 2 ^ 14 bytes, and then a part of a packet that is not found complete or nothing, the kernel
-- takes what it is given and the reactor has its writer: `process` has a result, and it is not -1.
-- A copy of each packet is handed to the reactor, behind what waits there and in order; each
-- message is acknowledged by its id, in order; and the part that is left, and no more, stands at
-- the front of the buffer.
pub process-forwards :
    (sys : Kernel) (fuel : ℕ) (wake : Bool) (ms : List Message) (part tail deque : List ℕ)
    (t : Client) (w : World)
    → TakesWhole sys
    → 1 ≤ fuel
    → All IsSendable ms
    → t.recv_buffer ≡ stream ms ++ (part ++ tail)
    → t.cur_buf_pos ≡ length (stream ms) + length part
    → t.cur_buf_pos < 2 ^ 31
    → IsPart part tail
    → (t' : Client) × (v : World) × (process sys fuel wake (queued t deque) w
        ≡ some ((true, t'), v))
      × (t'.reactor
          ≡ record { notify_writer = true; notify_deque = deque ++ places (length w.mbufs) ms })
      × (v.mbufs ≡ w.mbufs ++ copies ms w.now)
      × (map contents (copies ms w.now) ≡ map packet_of ms)
      × (v.wire ≡ w.wire ++ acks t.client_socket ms)
      × (t'.cur_buf_pos ≡ length part)
      × (take (length part) t'.recv_buffer ≡ part)
unfolding process
process-forwards sys fuel wake ms part tail deque t w takes enough ss at pos small cut =
    let len = t.cur_buf_pos in
    let offset = length (stream ms) in
    let t1 = queued t (deque ++ places (length w.mbufs) ms) in
    let ran =
      process_packets-stream sys fuel wake takes enough ms (suc len) 0 len part tail deque t w ss at
        (omega (arith, pos)) small (omega (arith, pos, length-stream ms)) cut in
    let behind : drop (0 + offset) t.recv_buffer ≡ part ++ tail =
      ap (drop (0 + offset)) at
      ∙ drop-append (0 + offset) (stream ms) (part ++ tail) (omega arith) in
    let (left, kept, same) =
      finished-part part tail (0 + offset) len t1 behind (omega (arith, pos)) refl in
    let (held, sent) = all_forwarded-lem t ms w in
    (
      finished part (0 + offset) len t1,
      all_forwarded t ms w,
      ran,
      same,
      held,
      map-contents-copies ms w.now (small_packets ms ss),
      sent,
      left,
      kept,
    )

-- ===== src/Bridge/Stream.antt =====
-- The loop of `process` over publish messages and the start of the next packet.
use mqtt_server.Prelude.{
  ℕ, zero, suc, ◌+◌, ◌-◌, ◌%◌, ◌^◌, ◌≤◌, ◌<◌, ◌≡◌, refl, sym, ap, ap₂, ◌∙◌, arith, Bool, true,
  false, List, [], ◌∷◌, ◌++◌, some, length, drop, append_assoc, append-nil, All, drop-append,
  drop-drop, length-append, ltb, le→ltb, lt→ltb,
}
use mqtt_server.Pkt.{remain_length, framed, refused, need_more_data}
use mqtt_server.Pkt.RemainLength.{remain_bytes, length-remain_bytes}
use mqtt_server.Pkt.Framing.{remain_length-remain_bytes}
use mqtt_server.Msg.{encode_header}
use mqtt_server.Msg.Header.{packet, length-packet}
use mqtt_server.Broker.{World, Kernel}
use mqtt_server.Broker.Sender.Whole.{TakesWhole}
use mqtt_server.Bridge.{Client, process_mqtt, keep_rest, packet_round, process_packets}
use mqtt_server.Bridge.Packet.{
  Message, body_of, packet_of, IsSendable, handed, forwarded, queued, process_mqtt-forwards,
}

frame-packet :
    (m : Message) (tail : List ℕ) (len : ℕ)
    → IsSendable m
    → length (packet_of m) ≤ len
    → remain_length (packet_of m ++ tail) len
      ≡ framed (length (body_of m)) (length (remain_bytes (length (body_of m))))
unfolding packet
frame-packet m tail len s fits =
    let n = length (body_of m) in
    let laid : packet_of m ++ tail
        ≡ encode_header m.header ∷ remain_bytes n ++ (body_of m ++ tail) =
      ap (◌∷◌ (encode_header m.header)) (append_assoc (remain_bytes n) (body_of m) tail) in
    let whole : ltb len (1 + length (remain_bytes n) + n) ≡ false =
      le→ltb len _ (omega (arith, length-packet m.header (body_of m))) in
    ap (λ (l : List ℕ). remain_length l len) laid
    ∙ remain_length-remain_bytes n (encode_header m.header) (body_of m ++ tail) len s.small
    ∙ rw whole refl

length-packet_of :
    (m : Message)
    → IsSendable m
    → (length (body_of m) + length (remain_bytes (length (body_of m))) + 1) % 2 ^ 32
      ≡ length (packet_of m)
length-packet_of m s =
    let (lo, hi) = length-remain_bytes (length (body_of m)) in
    omega (arith, length-packet m.header (body_of m), s.small)

-- The packets of the messages, one behind the other.
abbrev pub stream : List Message → List ℕ
stream [] = []
stream (m ∷ ms) = packet_of m ++ stream ms

abbrev pub all_forwarded : Client → List Message → World → World
all_forwarded t [] w = w
all_forwarded t (m ∷ ms) w = all_forwarded t ms (forwarded t m w)

-- The pointers to the copies, from the next one on.
abbrev pub places : ℕ → List Message → List ℕ
places b [] = []
places b (m ∷ ms) = b ∷ places (b + 1) ms

-- The start of a packet that is not all there, or nothing.
abbrev pub IsPart : (part tail : List ℕ) → Type 0
IsPart [] tail = Unit
IsPart (x ∷ part) tail =
    remain_length (x ∷ part ++ tail) (length (x ∷ part)) ≡ refused need_more_data

abbrev pub finished : (part : List ℕ) → (offset len : ℕ) → Client → Client
finished [] offset len t = record t { cur_buf_pos = 0 }
finished (x ∷ part) offset len t = keep_rest offset len t

module _ (sys : Kernel) (fuel : ℕ) (wake : Bool) (takes : TakesWhole sys) (enough : 1 ≤ fuel) where
  process_packets-end :
      (rounds offset len : ℕ) (part tail : List ℕ) (t : Client) (w : World)
      → drop offset t.recv_buffer ≡ part ++ tail
      → offset + length part ≡ len
      → IsPart part tail
      → process_packets sys fuel wake (suc rounds) offset len t w
        ≡ some ((true, finished part offset len t), w)
  unfolding process_packets packet_round
  process_packets-end rounds offset len [] tail t w at size _ =
      let over : ltb offset len ≡ false = le→ltb offset len (omega (arith, size)) in rw over refl
  process_packets-end rounds offset len (x ∷ part) tail t w at size cut =
      let more : ltb offset len ≡ true = lt→ltb offset len (omega (arith, size)) in
      let left : len - offset ≡ length (x ∷ part) = omega (arith, size) in
      let found = ap₂ remain_length at left ∙ cut in ground (arith, more, found)

  process_packets-next :
      (rounds offset len : ℕ) (m : Message) (tail deque : List ℕ) (t : Client) (w : World)
      → IsSendable m
      → drop offset t.recv_buffer ≡ packet_of m ++ tail
      → offset + length (packet_of m) ≤ len
      → len < 2 ^ 31
      → process_packets sys fuel wake (suc rounds) offset len (queued t deque) w
        ≡ process_packets sys fuel wake rounds
            (offset + length (packet_of m))
            len
            (queued t (deque ++ length w.mbufs ∷ []))
            (forwarded t m w)
  unfolding process_packets packet_round
  process_packets-next rounds offset len m tail deque t w s at fits small =
      let some_bytes = length-packet m.header (body_of m) in
      let more : ltb offset len ≡ true = lt→ltb offset len (omega (arith, fits, some_bytes)) in
      let found =
        ap (λ (l : List ℕ). remain_length l (len - offset)) at
        ∙ frame-packet m tail (len - offset) s (omega (arith, fits)) in
      let total = length-packet_of m s in
      let next : (offset + length (packet_of m)) % 2 ^ 32 ≡ offset + length (packet_of m) =
        omega (arith, fits, small) in
      let went =
        ap (λ (l : List ℕ). process_mqtt sys fuel wake l (length (packet_of m)) (queued t deque) w)
          at
        ∙ process_mqtt-forwards sys fuel wake takes enough m tail deque t w s in
      ground (arith, more, found, total, next, went)

  pub process_packets-stream :
      (ms : List Message) (rounds offset len : ℕ) (part tail deque : List ℕ) (t : Client)
      (w : World)
      → All IsSendable ms
      → drop offset t.recv_buffer ≡ stream ms ++ (part ++ tail)
      → offset + length (stream ms) + length part ≡ len
      → len < 2 ^ 31
      → length ms < rounds
      → IsPart part tail
      → process_packets sys fuel wake rounds offset len (queued t deque) w
        ≡ some (
          (
            true,
            finished part
                (offset + length (stream ms))
                len
                (queued t (deque ++ places (length w.mbufs) ms)),
          ),
          all_forwarded t ms w,
        )
  process_packets-stream [] zero offset len part tail deque t w _ at size small run cut =
      absurd (omega arith)
  process_packets-stream (m ∷ ms) zero offset len part tail deque t w _ at size small run cut =
      absurd (omega arith)
  process_packets-stream [] (suc rounds) offset len part tail deque t w _ at size small run cut =
      process_packets-end rounds offset len part tail (queued t deque) w at (omega (arith, size))
        cut
      ∙ ap₂ (λ (o : ℕ) (l : List ℕ). some ((true, finished part o len (queued t l)), w))
          (omega arith) (sym (append-nil deque))
  process_packets-stream (m ∷ ms) (suc rounds) offset len part tail deque t w (s, ss) at size small
        run cut =
      let tail' = stream ms ++ (part ++ tail) in
      let here = at ∙ append_assoc (packet_of m) (stream ms) (part ++ tail) in
      let k = length (packet_of m) in
      let longer = length-append (packet_of m) (stream ms) in
      let past : drop (offset + k) t.recv_buffer ≡ tail' =
        sym (drop-drop k offset t.recv_buffer)
        ∙ ap (drop k) here
        ∙ drop-append k (packet_of m) tail' refl in
      let rest =
        process_packets-stream ms rounds (offset + k) len part tail (deque ++ length w.mbufs ∷ []) t
          (forwarded t m w) ss past (omega (arith, size, longer)) small (omega arith) cut in
      process_packets-next rounds offset len m tail' deque t w s here (omega (arith, size, longer))
        small
      ∙ rest
      ∙ ap₂
          (λ (o : ℕ) (l : List ℕ).
            some ((true, finished part o len (queued t l)), all_forwarded t ms (forwarded t m w)))
          (omega (arith, longer))
          (ap (λ (b : ℕ). (deque ++ length w.mbufs ∷ []) ++ places b ms)
              (length-append w.mbufs (handed m w.now ∷ []))
            ∙ append_assoc deque (length w.mbufs ∷ []) (places (length w.mbufs + 1) ms))

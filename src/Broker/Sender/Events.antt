-- ===== src/Broker/Sender/Events.antt =====
-- Any sequence of buffers given to a connection and of write events that it handles.
use mqtt_server.Prelude.{
  ℕ, zero, suc, ◌+◌, ◌≤◌, ◌<◌, ◌≡◌, refl, sym, ap, ap₂, ◌∙◌, arith, List, [], ◌∷◌, ◌++◌, some,
  length, length-append, append-nil, append_assoc, get_elem?-append_end, All, subst,
}
use mqtt_server.Mbuf.{Mbuf, contents}
use mqtt_server.Mbuf.Laws.{IsValid}
use mqtt_server.Broker.{World, Kernel, M, ◌>>=◌, ◌>>◌, pure}
use mqtt_server.Broker.Publisher.{new_mbuf}
use mqtt_server.Broker.Sender.{would_block, put, handle_output, max_msg_in_buffer}
use mqtt_server.Broker.Sender.Steps.{Serves, put-idle}
use mqtt_server.Broker.Sender.Output.{put-enqueue}
use mqtt_server.Broker.Sender.Buffers.{bytes_at, bytes_at-some, pending, Good, nonblk_send-Sent}
use mqtt_server.Broker.Sender.Stream.{
  bytes_to, Streams, TakesSome, ready-Streams, Sent-stream, Good-snoc, Good-snoc_mbuf, pending-snoc,
  pending-snoc_mbuf, Good-lt,
}

pub data Event : Type 0 where
  give : Mbuf → Event
  ready : Event

abbrev pub on_event : Kernel → ℕ → Event → M Unit
on_event sys c (give m) = new_mbuf m >>= λ b. put sys c b >> pure tt
on_event sys c ready = handle_output sys c

abbrev pub on_events : Kernel → ℕ → List Event → M Unit
on_events sys c [] = pure tt
on_events sys c (e ∷ es) = on_event sys c e >> on_events sys c es

-- The bytes that the events give.
abbrev pub bytes_of : List Event → List ℕ
bytes_of [] = []
bytes_of (give m ∷ es) = contents m ++ bytes_of es
bytes_of (ready ∷ es) = bytes_of es

abbrev pub ValidEvent : Event → Type 0
ValidEvent (give m) = IsValid m × (1 ≤ length (contents m))
ValidEvent ready = Unit

snoc-Streams :
    (c : ℕ) (given queue : List ℕ) (m : Mbuf) (w : World)
    → Streams c given queue w
    → Streams c given queue (record w { mbufs = w.mbufs ++ m ∷ [] })
snoc-Streams c given queue m w s =
    let (conn, h, q, _, _) = s.serves in
    record {
      serves = (conn, h, q, refl, refl);
      good = Good-snoc_mbuf w.mbufs m queue s.good;
      stream =
          ap (λ (p : List ℕ). bytes_to c w.wire ++ p) (pending-snoc_mbuf w.mbufs m queue s.good)
          ∙ s.stream;
      fresh_errno = s.fresh_errno;
    }

give-Streams :
    (sys : Kernel) (c : ℕ) (given queue : List ℕ) (m : Mbuf) (w : World)
    → TakesSome sys
    → IsValid m
    → 1 ≤ length (contents m)
    → length queue < max_msg_in_buffer
    → Streams c given queue w
    → (v : World) × (queue' : List ℕ) × (on_event sys c (give m) w ≡ some (tt, v))
      × Streams c (given ++ contents m) queue' v
      × (length queue' ≤ suc (length queue))
give-Streams sys c given [] m w takes valid some_bytes room s =
    let b = length w.mbufs in
    let w1 : World = record w { mbufs = w.mbufs ++ m ∷ [] } in
    let s1 = snoc-Streams c given [] m w s in
    let (n, hw, few) = takes w.calls (contents m) some_bytes in
    let (r, v, ran, out) =
      nonblk_send-Sent sys c b n [] m w1 s1.serves tt tt (get_elem?-append_end w.mbufs m) valid hw
        few s.fresh_errno in
    let went = put-idle sys c b w1 s1.serves ∙ ran in
    (
      v,
      out.queue',
      ground (arith, went),
      record {
        serves = out.serves;
        good = out.good;
        stream =
            Sent-stream c [] (contents m) w1 v out
            ∙ ap (λ (l : List ℕ). bytes_to c w.wire ++ l) (append-nil (contents m))
            ∙ ap (λ (l : List ℕ). l ++ contents m)
                (sym (append-nil (bytes_to c w.wire)) ∙ s.stream);
        fresh_errno = out.fresh_errno;
      },
      out.short,
    )
give-Streams sys c given (a ∷ queue) m w takes valid some_bytes room s =
    let b = length w.mbufs in
    let w1 : World = record w { mbufs = w.mbufs ++ m ∷ [] } in
    let s1 = snoc-Streams c given (a ∷ queue) m w s in
    let here = get_elem?-append_end w.mbufs m in
    let (v, ran, (conn, h, q, mb, wi), same) = put-enqueue sys c b a queue w1 s1.serves room in
    let grown = (a ∷ queue) ++ b ∷ [] in
    let good1 =
      Good-snoc w1.mbufs (a ∷ queue) b (m, here, valid, some_bytes)
        (Good-lt w.mbufs (a ∷ queue) s.good) s1.good in
    (
      v,
      grown,
      ground (arith, ran),
      record {
        serves = (conn, h, q, refl, refl);
        good = subst (λ (ms : List Mbuf). Good ms grown) (sym mb) good1;
        stream =
            ap₂ (λ (l : List (ℕ × List ℕ)) (ms : List Mbuf). bytes_to c l ++ pending ms grown) wi mb
            ∙ ap (λ (l : List ℕ). bytes_to c w.wire ++ l)
                (pending-snoc w1.mbufs (a ∷ queue) b
                  ∙ ap (λ (l : List ℕ). pending w1.mbufs (a ∷ queue) ++ l)
                      (bytes_at-some w1.mbufs b m here))
            ∙ sym (append_assoc (bytes_to c w.wire) (pending w1.mbufs (a ∷ queue)) (contents m))
            ∙ ap (λ (l : List ℕ). l ++ contents m) s1.stream;
        fresh_errno = ap would_block same ∙ s.fresh_errno;
      },
      omega (arith, length-append queue (b ∷ [])),
    )

-- A connection whose queue has valid buffers with bytes, each once, and an `errno` that is not a
-- stale EAGAIN or EINTR, under a kernel that takes a byte at least of every write: over any
-- sequence of events that gives it valid buffers with bytes, no more than 50 with those that wait
-- and all events, every operation succeeds, and the bytes that were written to it, followed by
-- those that wait, are those that it was given, in their order, none lost and none twice.
pub on_events-Streams :
    (sys : Kernel) (c : ℕ) (es : List Event) (given queue : List ℕ) (w : World)
    → TakesSome sys
    → All ValidEvent es
    → length queue + length es ≤ max_msg_in_buffer
    → Streams c given queue w
    → (v : World) × (queue' : List ℕ) × (on_events sys c es w ≡ some (tt, v))
      × Streams c (given ++ bytes_of es) queue' v
on_events-Streams sys c [] given queue w takes _ room s =
    (w, queue, refl, subst (λ (g : List ℕ). Streams c g queue w) (sym (append-nil given)) s)
on_events-Streams sys c (give m ∷ es) given queue w takes ((valid, some_bytes), others) room s =
    let (v1, q1, ran1, s1, short) =
      give-Streams sys c given queue m w takes valid some_bytes (omega (arith, room)) s in
    let (v, q, ran, s2) =
      on_events-Streams sys c es (given ++ contents m) q1 v1 takes others
        (omega (arith, room, short)) s1 in
    (
      v,
      q,
      ground (arith, ran1, ran),
      subst (λ (g : List ℕ). Streams c g q v) (append_assoc given (contents m) (bytes_of es)) s2,
    )
on_events-Streams sys c (ready ∷ es) given queue w takes (_, others) room s =
    let (v1, q1, ran1, s1, short, _) = ready-Streams sys c given queue w takes s in
    let (v, q, ran, s2) =
      on_events-Streams sys c es given q1 v1 takes others (omega (arith, room, short)) s1 in
    (v, q, ground (arith, ran1, ran), s2)

-- `n` write events.
abbrev pub outputs : Kernel → (n c : ℕ) → M Unit
outputs sys zero c = pure tt
outputs sys (suc n) c = handle_output sys c >> outputs sys n c

-- Under such a kernel, a connection as above has an empty queue after as many write events as
-- bytes wait: each of them succeeds, and all that was given has been written.
pub outputs-drain :
    (sys : Kernel) (n c : ℕ) (given queue : List ℕ) (w : World)
    → TakesSome sys
    → Streams c given queue w
    → length (pending w.mbufs queue) ≤ n
    → (v : World) × (outputs sys n c w ≡ some (tt, v))
      × Serves c [] v.mbufs v.wire v
      × (bytes_to c v.wire ≡ given)
outputs-drain sys zero c given queue w takes s none_left =
    let empty = queue_empty queue s.good none_left in
    let s0 = subst (λ (q : List ℕ). Streams c given q w) empty s in
    (w, refl, s0.serves, sym (append-nil (bytes_to c w.wire)) ∙ s0.stream)
  where
    queue_empty : (q : List ℕ) → Good w.mbufs q → length (pending w.mbufs q) ≤ 0 → q ≡ []
    queue_empty [] _ _ = refl
    queue_empty (b ∷ q) ((m, h, _, some_bytes), _, _) few =
        let head = ap length (bytes_at-some w.mbufs b m h) in
        absurd (
          omega
            (arith, few, some_bytes, head, length-append (bytes_at w.mbufs b) (pending w.mbufs q)))
outputs-drain sys (suc n) c given queue w takes s few =
    let (v1, q1, ran1, s1, _, less) = ready-Streams sys c given queue w takes s in
    let (v, ran, done_it, all) =
      outputs-drain sys n c given q1 v1 takes s1 (omega (arith, few, less)) in
    (v, ground (arith, ran1, ran), done_it, all)

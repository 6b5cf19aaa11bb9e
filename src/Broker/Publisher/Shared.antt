-- ===== src/Broker/Publisher/Shared.antt =====
-- `publish` gives one buffer to every connection: what a partial write on one of them does to the
-- next.
use mqtt_server.Prelude.{
  ℕ, suc, ◌+◌, ◌-◌, ◌<◌, ◌≡◌, ◌≢◌, ap, ◌∙◌, arith, List, [], ◌∷◌, ◌++◌, Option, some, true, false,
  length, get_elem?, set, get_elem?-set, get_elem?-set_other, ◌%◌, ◌^◌, bit_or, take, drop,
  take-all, length-drop, ltb,
}
use mqtt_server.Mbuf.{Mbuf, contents, count, skip_read}
use mqtt_server.Mbuf.Laws.{IsValid, count-length, skip_read-contents}
use mqtt_server.Broker.{World, Kernel, Connection, wrote, live}
use mqtt_server.Broker.Sender.{
  would_block, wants_write, put, nonblk_send, send, sent_some, sys_write, schedule_write, mod_event,
}
use mqtt_server.Broker.Sender.Steps.{live-set}
use mqtt_server.Broker.Sender.Whole.{sent_world, whole_step}

-- The world after a part of a buffer went out, and the rest waits in front.
abbrev part_world : (c b n : ℕ) → Mbuf → Connection → World → World
part_world c b n m conn w =
    let conn1 : Connection = record conn {
      send_times = (conn.send_times + 1) % 2 ^ 64;
      send_bytes = (conn.send_bytes + n) % 2 ^ 64;
    } in
    let conn2 : Connection = record conn1 { send_msg_queue = b ∷ [] } in
    let conn3 : Connection = record conn2 {
      schedule_write_times = (conn.schedule_write_times + 1) % 2 ^ 64;
    } in
    let conn4 : Connection = record conn3 {
      current_event_mask = bit_or conn.current_event_mask 4;
    } in
    record w {
      mbufs = set w.mbufs b (skip_read m n);
      calls = w.calls + 1 + 1;
      wire = w.wire ++ (c, take n (contents m)) ∷ [];
      connections =
          set (set (set (set w.connections c (some conn1)) c (some conn2)) c (some conn3)) c
            (some conn4);
    }

part_step :
    (sys : Kernel) (c b n : ℕ) (m : Mbuf) (conn : Connection) (w : World)
    → ltb (suc n) (count m) ≡ true
    → sys.write w.calls (contents m) ≡ wrote (suc n)
    → sys.epoll_mod (w.calls + 1) ≡ true
    → get_elem? w.mbufs b ≡ some m
    → live (get_elem? w.connections c) ≡ some conn
    → conn.send_msg_queue ≡ []
    → wants_write conn.current_event_mask ≡ false
    → put sys c b w ≡ some (some 0, part_world c b (suc n) m conn w)
unfolding put nonblk_send send sent_some sys_write schedule_write mod_event
part_step sys c b n m conn w part hw on hb h q mask =
    let conn1 : Connection = record conn {
      send_times = (conn.send_times + 1) % 2 ^ 64;
      send_bytes = (conn.send_bytes + suc n) % 2 ^ 64;
    } in
    let conn2 : Connection = record conn1 { send_msg_queue = b ∷ [] } in
    let conn3 : Connection = record conn2 {
      schedule_write_times = (conn.schedule_write_times + 1) % 2 ^ 64;
    } in
    let s1 = set w.connections c (some conn1) in
    let s2 = set s1 c (some conn2) in
    let at1 = live-set w.connections c conn conn1 h in
    let at2 = live-set s1 c conn1 conn2 at1 in
    let at3 = live-set s2 c conn2 conn3 at2 in
    ground (arith, part, hw, on, hb, h, q, mask, at1, at2, at3)

set_four :
    (cs : List (Option Connection)) (c d : ℕ) (x1 x2 x3 x4 : Option Connection)
    → c ≢ d
    → get_elem? (set (set (set (set cs c x1) c x2) c x3) c x4) d ≡ get_elem? cs d
set_four cs c d x1 x2 x3 x4 apart =
    get_elem?-set_other (set (set (set cs c x1) c x2) c x3) c d x4 apart
    ∙ get_elem?-set_other (set (set cs c x1) c x2) c d x3 apart
    ∙ get_elem?-set_other (set cs c x1) c d x2 apart
    ∙ get_elem?-set_other cs c d x1 apart

-- Two connections with empty queues, the first without the write event, are given the same valid
-- buffer, as `publish` does. The kernel takes a part of it from the first, lets it ask for the
-- write event, and takes all that it is given from the second; `errno` is not a stale EAGAIN or
-- EINTR. Then both calls of `put` succeed, and the second connection is sent the bytes behind
-- that part only, and keeps none for later.
pub put-shared :
    (sys : Kernel) (c d b n : ℕ) (m : Mbuf) (one two : Connection) (w : World)
    → c ≢ d
    → get_elem? w.mbufs b ≡ some m
    → IsValid m
    → suc n < length (contents m)
    → live (get_elem? w.connections c) ≡ some one
    → one.send_msg_queue ≡ []
    → wants_write one.current_event_mask ≡ false
    → live (get_elem? w.connections d) ≡ some two
    → two.send_msg_queue ≡ []
    → would_block w.errno ≡ false
    → sys.write w.calls (contents m) ≡ wrote (suc n)
    → sys.epoll_mod (w.calls + 1) ≡ true
    → ((k : ℕ) (bytes : List ℕ) → w.calls < k → sys.write k bytes ≡ wrote (length bytes))
    → (v : World) × (u : World) × (r : Option ℕ) × (put sys c b w ≡ some (some 0, v))
      × (put sys d b v ≡ some (r, u))
      × (u.wire
          ≡ (w.wire ++ (c, take (suc n) (contents m)) ∷ []) ++ (d, drop (suc n) (contents m)) ∷ [])
      × ((after : Connection) × (live (get_elem? u.connections d) ≡ some after)
          × (after.send_msg_queue ≡ []))
put-shared sys c d b n m one two w apart hb valid few h q mask h' q' he hw on whole =
    let rest = skip_read m (suc n) in
    let (valid', left, _) = skip_read-contents m (suc n) valid (omega (arith, few)) in
    let v = part_world c b (suc n) m one w in
    let part : ltb (suc n) (count m) ≡ true = ground (arith, few, count-length m valid) in
    let k = length (contents rest) - 1 in
    let size : length (contents rest) ≡ suc k =
      omega (arith, ap length left, length-drop (suc n) (contents m), few) in
    let there : live (get_elem? v.connections d) ≡ some two =
      ap live (set_four w.connections c d _ _ _ _ apart) ∙ h' in
    let u = sent_world d (suc k) (contents rest) two v in
    (
      v,
      u,
      some (suc k),
      part_step sys c b n m one w part hw on hb h q mask,
      whole_step sys d b k rest two v size (count-length rest valid' ∙ size)
          (take-all (suc k) (contents rest) (omega (arith, size)))
          (whole v.calls (contents rest) (omega arith) ∙ ap wrote size)
          (get_elem?-set w.mbufs b m rest hb) he there q',
      ap (λ (bytes : List ℕ). v.wire ++ (d, bytes) ∷ []) left,
      (
        record two {
          send_times = (two.send_times + 1) % 2 ^ 64;
          send_bytes = (two.send_bytes + suc k) % 2 ^ 64;
        },
        live-set v.connections d two _ there,
        q',
      ),
    )

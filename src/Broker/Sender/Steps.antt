-- ===== src/Broker/Sender/Steps.antt =====
-- Each step of the sending of a connection, on a connection that is there: what it leaves of the
-- queue, the buffers, the wire and `errno`.
use mqtt_server.Prelude.{
  ℕ, zero, suc, ◌+◌, ◌≡◌, refl, ap, ◌∙◌, arith, List, [], ◌∷◌, ◌++◌, Option, some, Bool, true,
  false, take, get_elem?, set, ltb, Bool-cases, inl, inr, bit_or, if◌then◌else◌, ◌==◌, ◌%◌, ◌^◌,
}
use mqtt_server.Mbuf.{Mbuf, count, contents, skip_read}
use mqtt_server.Broker.{World, Kernel, Connection, wrote, live}
use mqtt_server.Broker.Sender.{
  eagain, would_block, wants_write, put, nonblk_send, send, sent_some, sys_write, schedule_write,
  mod_event,
}

pub live-set :
    (cs : List (Option Connection)) (c : ℕ) (conn v : Connection)
    → live (get_elem? cs c) ≡ some conn
    → live (get_elem? (set cs c (some v)) c) ≡ some v
live-set [] c conn v h = cc
live-set (x ∷ cs) zero conn v h = refl
live-set (x ∷ cs) (suc c) conn v h = live-set cs c conn v h

-- The connection is there and has this queue; the buffers and the wire are these.
abbrev pub Serves : ℕ → List ℕ → List Mbuf → List (ℕ × List ℕ) → World → Type 0
Serves c queue mbufs wire w =
    (conn : Connection) × (live (get_elem? w.connections c) ≡ some conn)
    × (conn.send_msg_queue ≡ queue)
    × (w.mbufs ≡ mbufs)
    × (w.wire ≡ wire)

pub mod_event-Serves :
    (sys : Kernel) (c mask : ℕ) (queue : List ℕ) (w : World)
    → Serves c queue w.mbufs w.wire w
    → (r : Bool) × (v : World) × (mod_event sys c mask w ≡ some (r, v))
      × Serves c queue w.mbufs w.wire v
      × (v.errno ≡ w.errno)
unfolding mod_event
mod_event-Serves sys c mask queue w (conn, h, q, _, _) =
    let w1 : World = record w { calls = w.calls + 1 } in
    let conn' : Connection = record conn { current_event_mask = mask } in
    elim (Bool-cases (sys.epoll_mod w.calls)) [
      | inl e ↦ (
        true,
        record w1 { connections = set w.connections c (some conn') },
        ground (arith, h, e),
        (conn', live-set w.connections c conn conn' h, q, refl, refl),
        refl,
      )
      | inr e ↦ (false, w1, ground (arith, h, e), (conn, h, q, refl, refl), refl)
    ]

pub schedule_write-Serves :
    (sys : Kernel) (c : ℕ) (queue : List ℕ) (w : World)
    → Serves c queue w.mbufs w.wire w
    → (r : Bool) × (v : World) × (schedule_write sys c w ≡ some (r, v))
      × Serves c queue w.mbufs w.wire v
      × (v.errno ≡ w.errno)
unfolding schedule_write
schedule_write-Serves sys c queue w (conn, h, q, _, _) =
    let conn' : Connection = record conn {
      schedule_write_times = (conn.schedule_write_times + 1) % 2 ^ 64;
    } in
    let w1 : World = record w { connections = set w.connections c (some conn') } in
    let s1 : Serves c queue w.mbufs w.wire w1 =
      (conn', live-set w.connections c conn conn' h, q, refl, refl) in
    elim (Bool-cases (wants_write conn.current_event_mask)) [
      | inl e ↦ (true, w1, ground (arith, h, e), s1, refl)
      | inr e ↦
          let (r, v, ran, s, same) =
            mod_event-Serves sys c (bit_or conn.current_event_mask 4) queue w1 s1 in
          let step : schedule_write sys c w
              ≡ mod_event sys c (bit_or conn.current_event_mask 4) w1 =
            ground (arith, h, e) in
          (r, v, step ∙ ran, s, same)
    ]

-- The buffers after `n` bytes of one were sent.
abbrev pub rest_of : List Mbuf → (b n : ℕ) → Mbuf → List Mbuf
rest_of mbufs b n mbuf = if ltb n (count mbuf) then set mbufs b (skip_read mbuf n) else mbufs

pub send-Serves :
    (sys : Kernel) (c b n : ℕ) (queue : List ℕ) (mbuf : Mbuf) (w : World)
    → Serves c queue w.mbufs w.wire w
    → get_elem? w.mbufs b ≡ some mbuf
    → sys.write w.calls (contents mbuf) ≡ wrote (suc n)
    → (v : World) × (send sys c b w
        ≡ some ((some (suc n), if ltb (suc n) (count mbuf) then eagain else w.errno), v))
      × Serves c queue
          (rest_of w.mbufs b (suc n) mbuf)
          (w.wire ++ (c, take (suc n) (contents mbuf)) ∷ [])
          v
      × (would_block w.errno ≡ false → would_block v.errno ≡ false)
unfolding send sent_some sys_write
send-Serves sys c b n queue mbuf w (conn, h, q, _, _) hb hw =
    let conn' : Connection = record conn {
      send_times = (conn.send_times + 1) % 2 ^ 64;
      send_bytes = (conn.send_bytes + suc n) % 2 ^ 64;
    } in
    let at = live-set w.connections c conn conn' h in
    let w1 : World = record w {
      calls = w.calls + 1;
      wire = w.wire ++ (c, take (suc n) (contents mbuf)) ∷ [];
      connections = set w.connections c (some conn');
    } in
    elim (Bool-cases (ltb (suc n) (count mbuf))) [
      | inl part ↦ rw part (
        record w1 { mbufs = set w.mbufs b (skip_read mbuf (suc n)) },
        ground (arith, h, hb, hw, part),
        (conn', at, q, refl, refl),
        λ free. free,
      )
      | inr whole ↦ elim (Bool-cases (suc n == count mbuf)) [
        | inl e ↦ rw whole (
          record w1 { errno = 0 },
          ground (arith, h, hb, hw, whole, e),
          (conn', at, q, refl, refl),
          λ _. refl,
        )
        | inr e ↦
            rw whole
              (w1, ground (arith, h, hb, hw, whole, e), (conn', at, q, refl, refl), λ free. free)
      ]
    ]

-- The connection puts the buffer in front of its queue and asks for the write event.
pub nonblk_send-keep :
    (sys : Kernel) (c b n : ℕ) (queue : List ℕ) (w v : World)
    → send sys c b w ≡ some ((some n, eagain), v)
    → Serves c queue v.mbufs v.wire v
    → (u : World) × (nonblk_send sys c b w ≡ some (some 0, u))
      × Serves c (b ∷ queue) v.mbufs v.wire u
      × (u.errno ≡ v.errno)
unfolding nonblk_send
nonblk_send-keep sys c b n queue w v ran (conn, h, q, _, _) =
    let conn' : Connection = record conn { send_msg_queue = b ∷ conn.send_msg_queue } in
    let v1 : World = record v { connections = set v.connections c (some conn') } in
    let (r, u, asked, s, same) =
      schedule_write-Serves sys c (b ∷ queue) v1
        (conn', live-set v.connections c conn conn' h, ap (◌∷◌ b) q, refl, refl) in
    (u, ground (arith, ran, h, asked), s, same)

pub nonblk_send-done :
    (sys : Kernel) (c b n my_errno : ℕ) (w v : World)
    → send sys c b w ≡ some ((some n, my_errno), v)
    → would_block my_errno ≡ false
    → nonblk_send sys c b w ≡ some (some n, v)
unfolding nonblk_send
nonblk_send-done sys c b n my_errno w v ran e = ground (arith, ran, e)

pub put-idle :
    (sys : Kernel) (c b : ℕ) (w : World)
    → Serves c [] w.mbufs w.wire w
    → put sys c b w ≡ nonblk_send sys c b w
unfolding put
put-idle sys c b w (conn, h, q, _, _) = ground (arith, h, q)

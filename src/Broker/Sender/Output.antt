-- ===== src/Broker/Sender/Output.antt =====
-- The steps of `handle_output`, and of `put` on a queue that is not empty.
use mqtt_server.Prelude.{
  ℕ, ◌+◌, ◌≡◌, refl, ap, ◌∙◌, arith, List, [], ◌∷◌, ◌++◌, Option, some, Bool, length, set, ◌%◌, ◌^◌,
  ◌<◌,
}
use mqtt_server.Broker.{World, Kernel, Connection}
use mqtt_server.Broker.Sender.{
  toggle_write, put, nonblk_send, cancel_schedule_write, cancel_if_empty, handle_output, enqueue,
  mod_event, max_msg_in_buffer,
}
use mqtt_server.Broker.Sender.Steps.{live-set, Serves, mod_event-Serves, schedule_write-Serves}

pub cancel_schedule_write-Serves :
    (sys : Kernel) (c : ℕ) (queue : List ℕ) (w : World)
    → Serves c queue w.mbufs w.wire w
    → (r : Bool) × (v : World) × (cancel_schedule_write sys c w ≡ some (r, v))
      × Serves c queue w.mbufs w.wire v
      × (v.errno ≡ w.errno)
unfolding cancel_schedule_write
cancel_schedule_write-Serves sys c queue w (conn, h, q, _, _) =
    let conn' : Connection = record conn {
      cancel_schedule_write_times = (conn.cancel_schedule_write_times + 1) % 2 ^ 64;
    } in
    let w1 : World = record w { connections = set w.connections c (some conn') } in
    let (r, v, ran, s, same) =
      mod_event-Serves sys c (toggle_write conn.current_event_mask) queue w1
        (conn', live-set w.connections c conn conn' h, q, refl, refl) in
    let step : cancel_schedule_write sys c w
        ≡ mod_event sys c (toggle_write conn.current_event_mask) w1 =
      ground (arith, h) in
    (r, v, step ∙ ran, s, same)

pub cancel_if_empty-Serves :
    (sys : Kernel) (c : ℕ) (queue : List ℕ) (w : World)
    → Serves c queue w.mbufs w.wire w
    → (v : World) × (cancel_if_empty sys c w ≡ some (tt, v))
      × Serves c queue w.mbufs w.wire v
      × (v.errno ≡ w.errno)
unfolding cancel_if_empty
cancel_if_empty-Serves sys c [] w (conn, h, q, _, _) =
    let (r, v, ran, s, same) = cancel_schedule_write-Serves sys c [] w (conn, h, q, refl, refl) in
    (v, ground (arith, h, q, ran), s, same)
cancel_if_empty-Serves sys c (b ∷ queue) w (conn, h, q, _, _) =
    (w, ground (arith, h, q), (conn, h, q, refl, refl), refl)

-- `handle_output` takes the head of the queue off, sends it, and looks at the queue again.
pub handle_output-send :
    (sys : Kernel) (c b : ℕ) (queue : List ℕ) (w : World)
    → Serves c (b ∷ queue) w.mbufs w.wire w
    → (u : World) × Serves c queue w.mbufs w.wire u
      × (u.errno ≡ w.errno)
      × (u.calls ≡ w.calls)
      × ((r : Option ℕ) (v : World)
          → nonblk_send sys c b u ≡ some (r, v)
          → handle_output sys c w ≡ cancel_if_empty sys c v)
unfolding handle_output
handle_output-send sys c b queue w (conn, h, q, _, _) =
    let conn' : Connection = record conn { send_msg_queue = queue } in
    let u : World = record w { connections = set w.connections c (some conn') } in
    (
      u,
      (conn', live-set w.connections c conn conn' h, refl, refl, refl),
      refl,
      refl,
      λ r v went. ground (arith, h, q, went),
    )

-- With nothing to send, it takes the write event off.
pub handle_output-idle :
    (sys : Kernel) (c : ℕ) (w : World)
    → Serves c [] w.mbufs w.wire w
    → (v : World) × (handle_output sys c w ≡ some (tt, v))
      × Serves c [] w.mbufs w.wire v
      × (v.errno ≡ w.errno)
unfolding handle_output
handle_output-idle sys c w (conn, h, q, mb, wi) =
    let (r, v, ran, s, same) = cancel_schedule_write-Serves sys c [] w (conn, h, q, mb, wi) in
    (v, ground (arith, h, q, ran), s, same)

-- A queue that is not empty and has room takes the buffer at its end.
pub put-enqueue :
    (sys : Kernel) (c b a : ℕ) (queue : List ℕ) (w : World)
    → Serves c (a ∷ queue) w.mbufs w.wire w
    → length (a ∷ queue) < max_msg_in_buffer
    → (v : World) × (put sys c b w ≡ some (some 0, v))
      × Serves c ((a ∷ queue) ++ b ∷ []) w.mbufs w.wire v
      × (v.errno ≡ w.errno)
unfolding put enqueue
put-enqueue sys c b a queue w (conn, h, q, _, _) room =
    let conn' : Connection = record conn { send_msg_queue = conn.send_msg_queue ++ b ∷ [] } in
    let v1 : World = record w { connections = set w.connections c (some conn') } in
    let (r, u, asked, s, same) = schedule_write-Serves sys c ((a ∷ queue) ++ b ∷ []) v1 (
      conn',
      live-set w.connections c conn conn' h,
      ap (λ (l : List ℕ). l ++ b ∷ []) q,
      refl,
      refl,
    ) in
    (u, ground (arith, h, q, room, asked), s, same)

-- ===== src/Bridge/Service/Bounds.antt =====
-- What the thread of the client keeps within bounds, whatever is read and written.
use mqtt_server.Prelude.{
  ℕ, zero, suc, ◌+◌, ◌-◌, ◌≤◌, ◌≡◌, refl, ◌∙◌, arith, Bool, true, false, List, [], ◌∷◌, Option,
  some, none, ◌||◌, length, take, ltb, Bool-cases, inl, inr, leb, if◌then◌else◌,
}
use mqtt_server.Prelude.Memory.{overwrite, length-overwrite}
use mqtt_server.Broker.{World, Kernel, pure, Received, received, unread}
use mqtt_server.Mbuf.{sub32}
use mqtt_server.Broker.Handlers.Input.{sys_read}
use mqtt_server.Broker.Sender.{would_block}
use mqtt_server.Bridge.{Client, process}
use mqtt_server.Bridge.Service.{
  Attempt, no_socket, stopped, reached, Service, Round, connect, connect_by, on_timeout,
  on_no_bytes, on_bytes, on_read, read_round, svc_round, client_buf_size, cut,
}
use mqtt_server.Bridge.Service.Packets.{Fits, process-Fits}

length-take_le : (n : ℕ) (xs : List ℕ) → length (take n xs) ≤ n
length-take_le zero xs = omega arith
length-take_le (suc n) [] = omega arith
length-take_le (suc n) (x ∷ xs) = omega (arith, length-take_le n xs)

-- The buffer of the client fits, and at most so many pings were not answered.
pub record InBounds (pings : ℕ) (s : Service) : Type 0 where
  pub fits : Fits s.client
  pub few : s.send_ping_req_time ≤ pings

module _ (sys : Kernel) (fuel : ℕ) (wake : Bool) where
  connect-InBounds :
      (pings : ℕ) (attempt : Attempt) (s : Service) (w : World) (done : Bool) (s' : Service)
      (v : World)
      → InBounds pings s
      → connect sys fuel wake attempt s w ≡ some ((done, s'), v)
      → InBounds pings s'
  unfolding connect connect_by
  connect-InBounds pings no_socket s w done s' v k e =
      ground (arith, k.fits.size, k.fits.within, k.few)
  connect-InBounds pings (stopped c) s w done s' v k e =
      ground (arith, k.fits.size, k.fits.within, k.few)
  connect-InBounds pings (reached c) s w done s' v k e = ground (arith, k.fits.size, k.few)

  on_timeout-InBounds :
      (s : Service) (w : World) (done : Bool) (s' : Service) (v : World)
      → InBounds 5 s
      → on_timeout sys fuel wake s w ≡ some ((done, s'), v)
      → InBounds 6 s'
  unfolding on_timeout
  on_timeout-InBounds s w done s' v k e = ground (arith, k.fits.size, k.fits.within, k.few)

  InBounds-weaken : {m n : ℕ} {s : Service} → m ≤ n → InBounds m s → InBounds n s
  InBounds-weaken h k = record { fits = k.fits; few = omega (arith, k.few) }

  on_no_bytes-InBounds :
      (r : Round) (s : Service) (w : World) (done : Bool) (s' : Service) (v : World)
      → InBounds 5 s
      → on_no_bytes sys fuel wake r s w ≡ some ((done, s'), v)
      → InBounds 6 s'
  unfolding on_no_bytes
  on_no_bytes-InBounds r s w done s' v k e = elim (Bool-cases (would_block w.errno)) [
    | inl late ↦ on_timeout-InBounds s w done s' v k (rw late at e)
    | inr broken ↦
        InBounds-weaken (omega arith) (connect-InBounds 5 r.second s w done s' v k (rw broken at e))
  ]

  after_process :
      (r : Round) (s : Service) (o : Option ((Bool × Client) × World)) (done : Bool) (s' : Service)
      (v : World)
      → ((done1 : Bool) (t1 : Client) (w1 : World) → o ≡ some ((done1, t1), w1) → Fits t1)
      → (elim o as (λ _. Option ((Bool × Service) × World)) [
        | none ↦ none
        | some (a, w1) ↦
            (let s1 : Service = record s {
              client = a.1;
              send_ping_req_time = 0;
              last_msg_time = r.read_time;
            } in
                if a.0 then pure (true, s1) else connect sys fuel wake r.second s1)
              w1
      ])
        ≡ some ((done, s'), v)
      → InBounds 6 s'
  after_process r s none done s' v k e = cc
  after_process r s (some ((true, t1), w1)) done s' v k e =
      let f = k true t1 w1 refl in ground (arith, f.size, f.within)
  after_process r s (some ((false, t1), w1)) done s' v k e =
      connect-InBounds 6 r.second
        (record s { client = t1; send_ping_req_time = 0; last_msg_time = r.read_time }) w1 done s' v
        (record { fits = k false t1 w1 refl; few = omega arith }) e

  on_bytes-InBounds :
      (r : Round) (bytes : List ℕ) (s : Service) (w : World) (done : Bool) (s' : Service)
      (v : World)
      → InBounds 5 s
      → s.client.cur_buf_pos + length bytes ≤ 4096
      → on_bytes sys fuel wake r bytes s w ≡ some ((done, s'), v)
      → InBounds 6 s'
  unfolding on_bytes
  on_bytes-InBounds r bytes s w done s' v k room e =
      let t = s.client in
      let t0 : Client = record t {
        recv_buffer = overwrite t.recv_buffer t.cur_buf_pos bytes;
        cur_buf_pos = t.cur_buf_pos + length bytes;
      } in
      let f : Fits t0 = record {
        size = length-overwrite t.recv_buffer t.cur_buf_pos bytes ∙ k.fits.size;
        within = room;
      } in
      after_process r s (process sys fuel wake t0 w) done s' v
        (λ done1 t1 w1 ran. process-Fits sys fuel wake t0 w done1 t1 w1 f ran) e

  on_read-InBounds :
      (r : Round) (answer : Received) (s : Service) (w : World) (done : Bool) (s' : Service)
      (v : World)
      → InBounds 5 s
      → on_read sys fuel wake r (cut (4096 - s.client.cur_buf_pos) answer) s w
        ≡ some ((done, s'), v)
      → InBounds 6 s'
  unfolding on_read
  on_read-InBounds r (unread x) s w done s' v k e =
      on_no_bytes-InBounds r s (record w { errno = x }) done s' v k e
  on_read-InBounds r (received bytes) s w done s' v k e =
      by_bytes (take (4096 - s.client.cur_buf_pos) bytes)
        (length-take_le (4096 - s.client.cur_buf_pos) bytes) e
    where
      by_bytes :
          (l : List ℕ)
          → length l ≤ 4096 - s.client.cur_buf_pos
          → on_read sys fuel wake r (received l) s w ≡ some ((done, s'), v)
          → InBounds 6 s'
      by_bytes [] h e1 = on_no_bytes-InBounds r s w done s' v k e1
      by_bytes (b ∷ bs) h e1 =
          on_bytes-InBounds r (b ∷ bs) s w done s' v k (omega (arith, k.fits.within)) e1

  read_round-InBounds :
      (r : Round) (s : Service) (w : World) (done : Bool) (s' : Service) (v : World)
      → InBounds 5 s
      → read_round sys fuel wake r s w ≡ some ((done, s'), v)
      → InBounds 6 s'
  unfolding read_round sys_read
  read_round-InBounds r s w done s' v k e =
      elim (Bool-cases (leb client_buf_size s.client.cur_buf_pos)) [
        | inl full ↦ let e1 = rw full at e in ground (arith, e1, k.fits.size, k.fits.within, k.few)
        | inr room ↦
            on_read-InBounds r (sys.read w.calls (4096 - s.client.cur_buf_pos)) s
              (record w { calls = w.calls + 1 }) done s' v k (rw room at e)
      ]

  after_connect :
      (r : Round) (o : Option ((Bool × Service) × World)) (done : Bool) (s' : Service) (v : World)
      → ((done1 : Bool) (s1 : Service) (w1 : World) → o ≡ some ((done1, s1), w1) → InBounds 5 s1)
      → (elim o as (λ _. Option ((Bool × Service) × World)) [
        | none ↦ none
        | some (a, w1) ↦ (if a.0 then read_round sys fuel wake r a.1 else pure (false, a.1)) w1
      ])
        ≡ some ((done, s'), v)
      → InBounds 6 s'
  after_connect r none done s' v k e = cc
  after_connect r (some ((true, s1), w1)) done s' v k e =
      read_round-InBounds r s1 w1 done s' v (k true s1 w1 refl) e
  after_connect r (some ((false, s1), w1)) done s' v k e =
      let f = k false s1 w1 refl in ground (arith, f.fits.size, f.fits.within, f.few)

  svc_round-InBounds :
      (r : Round) (s : Service) (w : World) (done : Bool) (s' : Service) (v : World)
      → InBounds 6 s
      → svc_round sys fuel wake r s w ≡ some ((done, s'), v)
      → InBounds 6 s'
  unfolding svc_round
  svc_round-InBounds r s w done s' v k e =
      elim (Bool-cases (ltb 5 s.send_ping_req_time || ltb 300 (sub32 r.cur_time s.last_msg_time))) [
        | inl again ↦
            let s0 : Service = record s { send_ping_req_time = 0 } in
            after_connect r (connect sys fuel wake r.first s0 w) done s' v
              (λ done1 s1 w1 ran.
                connect-InBounds 5 r.first s0 w done1 s1 w1
                  (record { fits = k.fits; few = omega arith }) ran)
              (rw again at e)
        | inr on ↦
            read_round-InBounds r s w done s' v (record { fits = k.fits; few = ground (arith, on) })
              (rw on at e)
      ]

  -- The rounds of the thread, one after the other, on any input.
  pub data Reach (s : Service) (w : World) : Service → World → Type 0 where
    here : Reach s w s w
    next :
        {t u : Service} {w1 w2 : World} (r : Round)
        → Reach s w t w1
        → svc_round sys fuel wake r t w1 ≡ some ((true, u), w2)
        → Reach s w u w2

  Reach-keeps :
      {s : Service} {w : World} {u : Service} {v : World}
      → InBounds 6 s
      → Reach s w u v
      → InBounds 6 u
  Reach-keeps k here = k
  Reach-keeps {v = v} k (next {t} {u} {w1} r before e) =
      svc_round-InBounds r t w1 true u v (Reach-keeps k before) e

-- Whatever the kernel answers, whatever the clock shows and however connecting ends, round after
-- round: the receive buffer of the client keeps its 4096 bytes and its position stays within
-- them, and no more than six pings stand without an answer.
pub Reach-InBounds :
    (sys : Kernel) (fuel : ℕ) (wake : Bool) {s : Service} {w : World} {u : Service} {v : World}
    → InBounds 6 s
    → Reach sys fuel wake s w u v
    → InBounds 6 u
Reach-InBounds sys fuel wake k reach = Reach-keeps sys fuel wake k reach

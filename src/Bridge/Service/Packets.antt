-- ===== src/Bridge/Service/Packets.antt =====
-- The loop over the packets keeps the receive buffer of the client and a position within it.
use mqtt_server.Prelude.{
  ℕ, zero, suc, ◌+◌, ◌-◌, ◌%◌, ◌^◌, ◌≤◌, ◌≡◌, refl, ap, arith, Bool, true, false, List, Option,
  some, none, length, take, drop, ltb, Bool-cases, inl, inr, length-append, length-take,
  length-drop, ltb→lt, if◌then◌else◌,
}
use mqtt_server.Pkt.{
  Pkt, Res, ok, err, fault, stuck, remain_length, Framed, framed, refused, out_of_bounds, failure,
  need_more_data,
}
use mqtt_server.Msg.{MqttType, connack, publish}
use mqtt_server.Msg.Publish.{Publish}
use mqtt_server.Broker.{World, Kernel, M, pure}
use mqtt_server.Bridge.{
  Client, on_packet, take_publish, process_mqtt, keep_rest, packet_round, process_packets, process,
  send_subscribe_msg,
}

-- The packets are cut from a buffer that stays as long as it is.
pub record Fits (t : Client) : Type 0 where
  pub size : length t.recv_buffer ≡ 4096
  pub within : t.cur_buf_pos ≤ 4096

-- What a packet does not change.
pub record Same (t t' : Client) : Type 0 where
  pub buffer : t'.recv_buffer ≡ t.recv_buffer
  pub pos : t'.cur_buf_pos ≡ t.cur_buf_pos

module _ (sys : Kernel) (fuel : ℕ) (wake : Bool) where
  take_publish-Same :
      (buf : List ℕ) (len : ℕ) (r : Res (Publish × Pkt)) (t : Client) (w : World) (done : Bool)
      (t' : Client) (v : World)
      → take_publish sys fuel wake buf len r t w ≡ some ((done, t'), v)
      → Same t t'
  unfolding take_publish
  take_publish-Same buf len (ok (m, q)) t w done t' v e = ground arith
  take_publish-Same buf len (err c q) t w done t' v e = ground arith
  take_publish-Same buf len fault t w done t' v e = ground arith
  take_publish-Same buf len stuck t w done t' v e = ground arith

  on_packet-Same :
      (k : MqttType) (buf : List ℕ) (len : ℕ) (t : Client) (w : World) (done : Bool) (t' : Client)
      (v : World)
      → on_packet sys fuel wake k buf len t w ≡ some ((done, t'), v)
      → Same t t'
  unfolding on_packet send_subscribe_msg
  on_packet-Same connack buf len t w done t' v e = ground arith
  on_packet-Same publish buf len t w done t' v e = take_publish-Same buf len _ t w done t' v e
  on_packet-Same k buf len t w done t' v e = ground arith

  process_mqtt-Same :
      (buf : List ℕ) (len : ℕ) (t : Client) (w : World) (done : Bool) (t' : Client) (v : World)
      → process_mqtt sys fuel wake buf len t w ≡ some ((done, t'), v)
      → Same t t'
  unfolding process_mqtt
  process_mqtt-Same buf len t w done t' v e = grind (arith, on_packet-Same)

  keep_rest-Fits :
      (offset len : ℕ) (t : Client)
      → offset ≤ len
      → len ≤ 4096
      → Fits t
      → Fits (keep_rest offset len t)
  unfolding keep_rest
  keep_rest-Fits zero len t h k f = f
  keep_rest-Fits (suc n) len t h k f =
      let front = take (len - suc n) (drop (suc n) t.recv_buffer) in
      let left = length-drop (suc n) t.recv_buffer in
      record {
        size = omega (
          arith,
          f.size,
          length-append front (drop (len - suc n) t.recv_buffer),
          length-take (len - suc n) (drop (suc n) t.recv_buffer) (omega (arith, left, f.size)),
          length-drop (len - suc n) t.recv_buffer,
        );
        within = omega arith;
      }

  Same-Fits : {t t' : Client} → Same t t' → Fits t → Fits t'
  Same-Fits k f = record {
    size = omega (arith, ap length k.buffer, f.size);
    within = omega (arith, k.pos, f.within);
  }

  -- A loop behind the packet that keeps the bounds.
  abbrev KeepsFits : (ℕ → Client → M (Bool × Client)) → Type 0
  KeepsFits rest =
      (total : ℕ) (t : Client) (w : World) (done : Bool) (t' : Client) (v : World)
      → rest total t w ≡ some ((done, t'), v)
      → Fits t
      → Fits t'

  packet_round-Fits :
      (offset len : ℕ) (rest : ℕ → Client → M (Bool × Client)) (t : Client) (found : Framed)
      (w : World) (done : Bool) (t' : Client) (v : World)
      → KeepsFits rest
      → offset ≤ len
      → len ≤ 4096
      → Fits t
      → packet_round sys fuel wake offset len rest t found w ≡ some ((done, t'), v)
      → Fits t'
  unfolding packet_round
  packet_round-Fits offset len rest t out_of_bounds w done t' v keep lo hi f e = cc
  packet_round-Fits offset len rest t (refused need_more_data) w done t' v keep lo hi f e =
      ground (arith, keep_rest-Fits offset len t lo hi f)
  packet_round-Fits offset len rest t (refused failure) w done t' v keep lo hi f e =
      ground (arith, f)
  packet_round-Fits offset len rest t (framed value bytes) w done t' v keep lo hi f e =
      after_packet (process_mqtt sys fuel wake (drop offset t.recv_buffer) total t w)
        (λ done1 t1 w1 ran.
          Same-Fits (process_mqtt-Same (drop offset t.recv_buffer) total t w done1 t1 w1 ran) f)
        e
    where
      total : ℕ
      total = (value + bytes + 1) % 2 ^ 32

      after_true :
          (b : Bool) (t1 : Client) (w1 : World)
          → Fits t1
          → (if b then rest total t1 else pure (false, t1)) w1 ≡ some ((done, t'), v)
          → Fits t'
      after_true true t1 w1 f1 e1 = keep total t1 w1 done t' v e1 f1
      after_true false t1 w1 f1 e1 = ground (arith, f1)

      after_packet :
          (o : Option ((Bool × Client) × World))
          → ((done1 : Bool) (t1 : Client) (w1 : World) → o ≡ some ((done1, t1), w1) → Fits t1)
          → (elim o as (λ _. Option ((Bool × Client) × World)) [
            | none ↦ none
            | some (a, w1) ↦ (if a.0 then rest total a.1 else pure (false, a.1)) w1
          ])
            ≡ some ((done, t'), v)
          → Fits t'
      after_packet none k e1 = cc
      after_packet (some ((b, t1), w1)) k e1 = after_true b t1 w1 (k b t1 w1 refl) e1

  process_packets-Fits :
      (rounds offset len : ℕ) (t : Client) (w : World) (done : Bool) (t' : Client) (v : World)
      → len ≤ 4096
      → Fits t
      → process_packets sys fuel wake rounds offset len t w ≡ some ((done, t'), v)
      → Fits t'
  unfolding process_packets
  process_packets-Fits zero offset len t w done t' v hi f e = cc
  process_packets-Fits (suc rounds) offset len t w done t' v hi f e =
      elim (Bool-cases (ltb offset len)) [
        | inl more ↦
            packet_round-Fits offset len
              (λ total t1. process_packets sys fuel wake rounds ((offset + total) % 2 ^ 32) len t1)
              t (remain_length (drop offset t.recv_buffer) (len - offset)) w done t' v
              (λ total t1 w1 done1 t2 v1 ran f1.
                process_packets-Fits rounds ((offset + total) % 2 ^ 32) len t1 w1 done1 t2 v1 hi f1
                  ran)
              (omega (arith, ltb→lt offset len more)) hi f (rw more at e)
        | inr over ↦ let e1 = rw over at e in ground (arith, e1, f.size)
      ]

  pub process-Fits :
      (t : Client) (w : World) (done : Bool) (t' : Client) (v : World)
      → Fits t
      → process sys fuel wake t w ≡ some ((done, t'), v)
      → Fits t'
  unfolding process
  process-Fits t w done t' v f e =
      process_packets-Fits (suc t.cur_buf_pos) 0 t.cur_buf_pos t w done t' v f.within f e

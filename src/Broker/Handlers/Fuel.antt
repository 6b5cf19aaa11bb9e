-- ===== src/Broker/Handlers/Fuel.antt =====
-- The loop of `process_mqtt` ends: every packet takes a byte at least off what is left.
use mqtt_server.Prelude.{
  ℕ, zero, suc, ◌+◌, ◌-◌, ◌≤◌, ◌<◌, ◌%◌, ◌^◌, ◌≡◌, refl, sym, arith, Option, none, some, true,
  false, Bool-cases, inl, inr, ltb, ltb→lt, drop, get_elem?, subst, ◌++◌, take, set,
}
use mqtt_server.Pkt.{remain_length, Framed, framed, refused, out_of_bounds, failure, need_more_data}
use mqtt_server.Pkt.Framing.{remain_length-lt}
use mqtt_server.Broker.{
  World, Kernel, Connection, M, live, deref, set_connection, ◌>>=◌, ◌>>◌, pure,
}
use mqtt_server.Broker.Handlers.Input.{
  process, process_packets, round, framed_round, keep_rest, all_processed,
}

-- The runs of the loop `while (offset < len)`, without fuel: rounds, one after the other, up to one
-- that answers, or one that uses a connection that was deleted or leaves the memory.
pub data Ends (sys : Kernel) (c len : ℕ) : ℕ → World → Option (Option ℕ × World) → Type 0 where
  deleted :
      {offset : ℕ} {w : World}
      → live (get_elem? w.connections c) ≡ none
      → Ends sys c len offset w none
  all_done :
      {offset : ℕ} {w w' : World} {conn : Connection}
      → ltb offset len ≡ false
      → live (get_elem? w.connections c) ≡ some conn
      → set_connection c (record conn { cur_buf_pos = 0 }) w ≡ some (tt, w')
      → Ends sys c len offset w (some (some 0, w'))
  outside :
      {offset : ℕ} {w : World} {conn : Connection}
      → ltb offset len ≡ true
      → live (get_elem? w.connections c) ≡ some conn
      → remain_length (drop offset conn.recv_buffer) (len - offset) ≡ out_of_bounds
      → Ends sys c len offset w none
  incomplete :
      {offset : ℕ} {w w' : World} {conn : Connection}
      → ltb offset len ≡ true
      → live (get_elem? w.connections c) ≡ some conn
      → remain_length (drop offset conn.recv_buffer) (len - offset) ≡ refused need_more_data
      → keep_rest sys c offset len w ≡ some (some 0, w')
      → Ends sys c len offset w (some (some 0, w'))
  malformed :
      {offset : ℕ} {w : World} {conn : Connection}
      → ltb offset len ≡ true
      → live (get_elem? w.connections c) ≡ some conn
      → remain_length (drop offset conn.recv_buffer) (len - offset) ≡ refused failure
      → Ends sys c len offset w (some (none, w))
  no_answer :
      {offset value bytes : ℕ} {w : World} {conn : Connection}
      → ltb offset len ≡ true
      → live (get_elem? w.connections c) ≡ some conn
      → remain_length (drop offset conn.recv_buffer) (len - offset) ≡ framed value bytes
      → process sys c (drop offset conn.recv_buffer) (value + bytes + 1) w ≡ none
      → Ends sys c len offset w none
  refused_packet :
      {offset value bytes : ℕ} {w w' : World} {conn : Connection}
      → ltb offset len ≡ true
      → live (get_elem? w.connections c) ≡ some conn
      → remain_length (drop offset conn.recv_buffer) (len - offset) ≡ framed value bytes
      → process sys c (drop offset conn.recv_buffer) (value + bytes + 1) w ≡ some (none, w')
      → Ends sys c len offset w (some (none, w'))
  next :
      {offset value bytes n : ℕ} {w w' : World} {conn : Connection} {r : Option (Option ℕ × World)}
      → ltb offset len ≡ true
      → live (get_elem? w.connections c) ≡ some conn
      → remain_length (drop offset conn.recv_buffer) (len - offset) ≡ framed value bytes
      → process sys c (drop offset conn.recv_buffer) (value + bytes + 1) w ≡ some (some n, w')
      → Ends sys c len (offset + (value + bytes + 1)) w' r
      → Ends sys c len offset w r

keep_rest-answers :
    (sys : Kernel) (c offset len : ℕ) (conn : Connection) (w : World)
    → live (get_elem? w.connections c) ≡ some conn
    → (w' : World) × (keep_rest sys c offset len w ≡ some (some 0, w'))
unfolding keep_rest
keep_rest-answers sys c zero len conn w here = (w, refl)
keep_rest-answers sys c (suc k) len conn w here =
    let buf = conn.recv_buffer in
    (
      record w {
        connections = set w.connections c (
            some (record conn {
              recv_buffer = take (len - suc k) (drop (suc k) buf) ++ drop (len - suc k) buf;
              cur_buf_pos = len - suc k;
            }));
      },
      ground (arith, here),
    )

packet-Ends :
    (sys : Kernel) (c offset len value bytes : ℕ) (w : World) (conn : Connection)
    (rest : ℕ → M (Option ℕ)) (res : Option (Option ℕ × World))
    → ltb offset len ≡ true
    → live (get_elem? w.connections c) ≡ some conn
    → remain_length (drop offset conn.recv_buffer) (len - offset) ≡ framed value bytes
    → process sys c (drop offset conn.recv_buffer) (value + bytes + 1) w ≡ res
    → ((w' : World)
        → Ends sys c len (offset + (value + bytes + 1)) w' (rest (value + bytes + 1) w'))
    → Ends sys c len offset w (elim res as (λ _. Option (Option ℕ × World)) [
      | none ↦ none
      | some (a, w') ↦
          (elim a as (λ _. M (Option ℕ)) [ none ↦ pure none | some _ ↦ rest (value + bytes + 1) ])
            w'
    ])
packet-Ends sys c offset len value bytes w conn rest none more here e ran again =
    no_answer more here e ran
packet-Ends sys c offset len value bytes w conn rest (some (none, w')) more here e ran again =
    refused_packet more here e ran
packet-Ends sys c offset len value bytes w conn rest (some (some n, w')) more here e ran again =
    next more here e ran (again w')

-- One round ends when the rest of the loop does, behind the packet that was processed.
framed_round-Ends :
    (sys : Kernel) (c offset len : ℕ) (w : World) (conn : Connection) (rest : ℕ → M (Option ℕ))
    (r : Framed)
    → len < 2 ^ 32
    → ltb offset len ≡ true
    → live (get_elem? w.connections c) ≡ some conn
    → remain_length (drop offset conn.recv_buffer) (len - offset) ≡ r
    → ((total : ℕ) (w' : World)
        → 1 ≤ total
        → total ≤ len - offset
        → Ends sys c len (offset + total) w' (rest total w'))
    → Ends sys c len offset w
        (framed_round sys c offset len (drop offset conn.recv_buffer) rest r w)
unfolding framed_round
framed_round-Ends sys c offset len w conn rest out_of_bounds small more here e again =
    outside more here e
framed_round-Ends sys c offset len w conn rest (refused need_more_data) small more here e again =
    let (w', kept) = keep_rest-answers sys c offset len conn w here in
    subst (Ends sys c len offset w) (sym kept) (incomplete more here e kept)
framed_round-Ends sys c offset len w conn rest (refused failure) small more here e again =
    malformed more here e
framed_round-Ends sys c offset len w conn rest (framed value bytes) small more here e again =
    let (_, fits) = remain_length-lt (drop offset conn.recv_buffer) (len - offset) value bytes e in
    let total : (value + bytes + 1) % 2 ^ 32 ≡ value + bytes + 1 = omega (arith, fits) in
    subst
      (λ (n : ℕ). Ends sys c len offset w (
        (process sys c (drop offset conn.recv_buffer) n >>= λ res. elim res as (λ _. M (Option ℕ)) [
          | none ↦ pure none
          | some _ ↦ rest n
        ])
          w))
      (sym total)
      (packet-Ends sys c offset len value bytes w conn rest _ more here e refl
        (λ w'. again (value + bytes + 1) w' (omega arith) (omega (arith, fits))))

round-Ends :
    (sys : Kernel) (c offset len : ℕ) (w : World) (rest : ℕ → M (Option ℕ))
    (there : Option Connection)
    → len < 2 ^ 32
    → ltb offset len ≡ true
    → live (get_elem? w.connections c) ≡ there
    → ((total : ℕ) (w' : World)
        → 1 ≤ total
        → total ≤ len - offset
        → Ends sys c len (offset + total) w' (rest total w'))
    → Ends sys c len offset w (round sys c offset len rest w)
unfolding round
round-Ends sys c offset len w rest there small more e again =
    subst
      (λ (o : Option Connection). Ends sys c len offset w (
        (deref o >>= λ conn.
        let buf = drop offset conn.recv_buffer in
        framed_round sys c offset len buf rest (remain_length buf (len - offset)))
          w))
      (sym e) (go there e)
  where
    go :
        (o : Option Connection)
        → live (get_elem? w.connections c) ≡ o
        → Ends sys c len offset w (
            (deref o >>= λ conn.
            let buf = drop offset conn.recv_buffer in
            framed_round sys c offset len buf rest (remain_length buf (len - offset)))
              w)
    go none gone = deleted gone
    go (some conn) here =
        framed_round-Ends sys c offset len w conn rest _ small more here refl again

all_processed-Ends :
    (sys : Kernel) (c offset len : ℕ) (w : World) (there : Option Connection)
    → ltb offset len ≡ false
    → live (get_elem? w.connections c) ≡ there
    → Ends sys c len offset w (all_processed sys c w)
unfolding all_processed
all_processed-Ends sys c offset len w there done e =
    subst (λ (o : Option Connection). Ends sys c len offset w ((deref o >>= finish) w)) (sym e)
      (go there e)
  where
    finish : Connection → M (Option ℕ)
    finish conn = set_connection c (record conn { cur_buf_pos = 0 }) >> pure (some 0)

    go :
        (o : Option Connection)
        → live (get_elem? w.connections c) ≡ o
        → Ends sys c len offset w ((deref o >>= finish) w)
    go none gone = deleted gone
    go (some conn) here = all_done done here refl

-- The bytes that are left bound the rounds.
process_packets-rounds :
    (sys : Kernel) (fuel c offset len : ℕ) (w : World)
    → len < 2 ^ 32
    → len - offset < fuel
    → Ends sys c len offset w (process_packets sys fuel c offset len w)
unfolding process_packets
process_packets-rounds sys zero c offset len w small h = absurd (omega arith)
process_packets-rounds sys (suc fuel) c offset len w small h = elim (Bool-cases (ltb offset len)) [
  | inr done ↦ rw done (all_processed-Ends sys c offset len w _ done refl)
  | inl more ↦
      let here : offset < len = ltb→lt offset len more in
      rw more (
        round-Ends sys c offset len w _ _ small more refl (λ total w' low high.
          let e : (offset + total) % 2 ^ 32 ≡ offset + total = omega arith in
          rw e (process_packets-rounds sys fuel c (offset + total) len w' small (omega arith))))
]

-- With the fuel that `process_mqtt` gives for a buffer of fewer than 2 ^ 32 bytes, in any state of
-- the broker, what the model answers is what a run of the loop comes to that has an end: after
-- finitely many packets the buffer is used up, what is left is not a packet yet or not one at all,
-- a handler answers -1, or, the only case without a result, the round uses a connection that was
-- deleted, reads behind the memory or has a handler without a result.
pub process_packets-Ends :
    (sys : Kernel) (c len : ℕ) (w : World)
    → len < 2 ^ 32
    → Ends sys c len 0 w (process_packets sys (suc len) c 0 len w)
process_packets-Ends sys c len w small =
    process_packets-rounds sys (suc len) c 0 len w small (omega arith)

-- ===== src/Broker/Session/Acks.antt =====
-- A client that acknowledges its messages in order empties its queue.
use mqtt_server.Prelude.{
  ℕ, suc, ◌+◌, ◌%◌, ◌^◌, ◌≡◌, ◌≢◌, refl, sym, ap, ◌∙◌, arith, List, [], ◌∷◌, ◌++◌, Option, none,
  some, Bool, true, false, ◌==◌, if◌then◌else◌, Bool-cases, inl, inr, get_elem?, get_elem?-set, set,
}
use mqtt_server.Mbuf.{Mbuf}
use mqtt_server.MsgStore.{MsgStat, stat_index, set_stat, msg_stat, inc_ack_client}
use mqtt_server.MsgStore.Flush.{set_stat-same, set_stat-other}
use mqtt_server.Broker.{World, Context, M, ◌>>◌, pure}
use mqtt_server.Broker.Session.{ack_msg, ack_head, count_ack}

-- The buffers of a queue, by their places.
abbrev pub Queued : List Mbuf → List ℕ → List Mbuf → Type 0
Queued mbufs [] [] = Unit
Queued mbufs [] (_ ∷ _) = ⊥
Queued mbufs (_ ∷ _) [] = ⊥
Queued mbufs (b ∷ bs) (m ∷ ms) = (get_elem? mbufs b ≡ some m) × Queued mbufs bs ms

-- The acknowledgement of each, by the low 16 bits of its id, one after the other.
abbrev pub ack_each : (context : ℕ) → List Mbuf → M Unit
ack_each context [] = pure tt
ack_each context (m ∷ ms) = ack_msg context (m.msg_id % 2 ^ 16) >> ack_each context ms

-- How many have their statistics in the entry `j`.
abbrev pub in_entry : (j : ℕ) → List Mbuf → ℕ
in_entry j [] = 0
in_entry j (m ∷ ms) = let n = in_entry j ms in if stat_index m.msg_id == j then suc n else n

-- An acknowledgement of another id than that of the head changes nothing.
ack_msg-other :
    (context msg_id b : ℕ) (queue : List ℕ) (x : Context) (mbuf : Mbuf) (w : World)
    → get_elem? w.contexts context ≡ some x
    → x.send_msg_queue ≡ b ∷ queue
    → get_elem? w.mbufs b ≡ some mbuf
    → mbuf.msg_id % 2 ^ 16 ≢ msg_id
    → ack_msg context msg_id w ≡ some (tt, w)
unfolding ack_msg ack_head
ack_msg-other context msg_id b queue x mbuf w hx hq hb other =
    let away : (mbuf.msg_id % 2 ^ 16 == msg_id) ≡ false = ground (arith, other) in
    ground (arith, hx, hq, hb, away)

abbrev after_ack : Context → Mbuf → List ℕ → Context
after_ack x m queue = record x {
  last_pub_time = m.time;
  last_pub_msg_id = m.msg_id;
  send_msg_queue = queue;
}

ack_msg-head :
    (context b : ℕ) (queue : List ℕ) (x : Context) (m : Mbuf) (w : World)
    → get_elem? w.contexts context ≡ some x
    → x.send_msg_queue ≡ b ∷ queue
    → get_elem? w.mbufs b ≡ some m
    → ack_msg context (m.msg_id % 2 ^ 16) w
      ≡ some (
        tt,
        count_ack m.msg_id (record w { contexts = set w.contexts context (after_ack x m queue) }),
      )
unfolding ack_msg ack_head
ack_msg-head context b queue x m w hx hq hb =
    let e : (m.msg_id % 2 ^ 16 == m.msg_id % 2 ^ 16) ≡ true = ground arith in
    ground (arith, hx, hq, hb, e)

wrapped : (a n : ℕ) → ((a + 1) % 2 ^ 32 + n) % 2 ^ 32 ≡ (a + suc n) % 2 ^ 32
wrapped a n = omega arith

count_ack-entry :
    (id n j : ℕ) (w : World)
    → (((count_ack id w).stats j).ack_client + n) % 2 ^ 32
      ≡ ((w.stats j).ack_client + (if stat_index id == j then suc n else n)) % 2 ^ 32
unfolding msg_stat inc_ack_client
count_ack-entry id n j w =
    let i = stat_index id in
    let named : MsgStat = record (w.stats i) { msg_id = id } in
    let t = set_stat w.stats i named in
    let add : Bool → ℕ = λ b. ((w.stats j).ack_client + (if b then suc n else n)) % 2 ^ 32 in
    let own : t i ≡ named = set_stat-same w.stats i named i (ground arith) in
    elim (Bool-cases (i == j)) [
      | inl e ↦
          let place : i ≡ j = ground (arith, e) in
          let counted : ((count_ack id w).stats j).ack_client
              ≡ ((w.stats j).ack_client + 1) % 2 ^ 32 =
            ap (λ (s : MsgStat). s.ack_client)
              (set_stat-same t i (inc_ack_client (t i)) j e ∙ ap inc_ack_client own)
            ∙ ap (λ (k : ℕ). ((w.stats k).ack_client + 1) % 2 ^ 32) place in
          ap (λ (k : ℕ). (k + n) % 2 ^ 32) counted
          ∙ wrapped (w.stats j).ack_client n
          ∙ ap add (sym e)
      | inr e ↦
          let kept : ((count_ack id w).stats j).ack_client ≡ (w.stats j).ack_client =
            ap (λ (s : MsgStat). s.ack_client)
              (set_stat-other t i (inc_ack_client (t i)) j e
                ∙ set_stat-other w.stats i named j e) in
          ap (λ (k : ℕ). (k + n) % 2 ^ 32) kept ∙ ap add (sym e)
    ]

then_runs : (m k : M Unit) (w v : World) → m w ≡ some (tt, v) → (m >> k) w ≡ k v
then_runs m k w v e =
    ap
      (λ (o : Option (Unit × World)). elim o as (λ _. Option (Unit × World)) [
        | none ↦ none
        | some (_, u) ↦ k u
      ])
      e

-- A session whose queue starts with the buffers `ms`: their acknowledgements, in this order, take
-- them off the queue and leave the others in it. Each is counted once, in the statistics of its
-- own id, whose counter has 32 bits. No buffer changes. After that, an acknowledgement of an id
-- that is not the one of the new head changes nothing.
pub ack_each-clears :
    (context : ℕ) (bs rest : List ℕ) (ms : List Mbuf) (x : Context) (w : World)
    → get_elem? w.contexts context ≡ some x
    → x.send_msg_queue ≡ bs ++ rest
    → Queued w.mbufs bs ms
    → (x' : Context) × (w' : World) × (ack_each context ms w ≡ some (tt, w'))
      × (get_elem? w'.contexts context ≡ some x')
      × (x'.send_msg_queue ≡ rest)
      × ((j : ℕ)
          → (w'.stats j).ack_client % 2 ^ 32 ≡ ((w.stats j).ack_client + in_entry j ms) % 2 ^ 32)
      × (w'.mbufs ≡ w.mbufs)
      × ((id b : ℕ) (queue : List ℕ) (m : Mbuf)
          → rest ≡ b ∷ queue
          → get_elem? w.mbufs b ≡ some m
          → m.msg_id % 2 ^ 16 ≢ id
          → ack_msg context id w' ≡ some (tt, w'))
ack_each-clears context [] rest (m ∷ ms) x w hx hq h = absurd h
ack_each-clears context (b ∷ bs) rest [] x w hx hq h = absurd h
ack_each-clears context [] rest [] x w hx hq h = (
  x,
  w,
  refl,
  hx,
  hq,
  (λ j. omega arith),
  refl,
  λ id b queue m first here other.
      ack_msg-other context id b queue x m w hx (hq ∙ first) here other,
)
ack_each-clears context (b ∷ bs) rest (m ∷ ms) x w hx hq (here, more) =
    let y = after_ack x m (bs ++ rest) in
    let w1 : World = record w { contexts = set w.contexts context y } in
    let v = count_ack m.msg_id w1 in
    let one = ack_msg-head context b (bs ++ rest) x m w hx hq here in
    let (x', w', ran, there, left, counted, same, other) =
      ack_each-clears context bs rest ms y v (get_elem?-set w.contexts context x y hx) refl more in
    (
      x',
      w',
      then_runs (ack_msg context (m.msg_id % 2 ^ 16)) (ack_each context ms) w v one ∙ ran,
      there,
      left,
      (λ j. counted j ∙ count_ack-entry m.msg_id (in_entry j ms) j w1),
      same,
      other,
    )

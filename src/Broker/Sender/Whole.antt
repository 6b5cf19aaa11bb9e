-- ===== src/Broker/Sender/Whole.antt =====
-- `put` of a buffer that the kernel takes whole.
use mqtt_server.Prelude.{
  ℕ, suc, ◌+◌, ◌≤◌, ◌≡◌, ap, ◌∙◌, arith, List, [], ◌∷◌, ◌++◌, Option, some, false, length,
  get_elem?, set, ◌%◌, ◌^◌, take, take-all, ◌-◌,
}
use mqtt_server.Mbuf.{Mbuf, contents, count}
use mqtt_server.Mbuf.Laws.{IsValid, count-length}
use mqtt_server.Broker.{World, Kernel, Connection, wrote, live}
use mqtt_server.Broker.Sender.{would_block, put, nonblk_send, send, sent_some, sys_write}
use mqtt_server.Broker.Sender.Steps.{live-set}

-- The kernel takes all that it is given.
abbrev pub TakesWhole : Kernel → Type 0
TakesWhole sys = (k : ℕ) (bytes : List ℕ) → sys.write k bytes ≡ wrote (length bytes)

-- The world after a buffer went out whole.
abbrev pub sent_world : (c n : ℕ) → List ℕ → Connection → World → World
sent_world c n bytes conn w = record w {
  calls = w.calls + 1;
  wire = w.wire ++ (c, bytes) ∷ [];
  connections = set w.connections c (
      some (record conn {
        send_times = (conn.send_times + 1) % 2 ^ 64;
        send_bytes = (conn.send_bytes + n) % 2 ^ 64;
      }));
  errno = 0;
}

-- A buffer that is there, valid and not empty.
pub record Ready (m : Mbuf) (b : ℕ) (w : World) : Type 0 where
  pub here : get_elem? w.mbufs b ≡ some m
  pub valid : IsValid m
  pub some_bytes : 1 ≤ length (contents m)
  pub fresh_errno : would_block w.errno ≡ false

pub whole_step :
    (sys : Kernel) (c b n : ℕ) (m : Mbuf) (conn : Connection) (w : World)
    → length (contents m) ≡ suc n
    → count m ≡ suc n
    → take (suc n) (contents m) ≡ contents m
    → sys.write w.calls (contents m) ≡ wrote (suc n)
    → get_elem? w.mbufs b ≡ some m
    → would_block w.errno ≡ false
    → live (get_elem? w.connections c) ≡ some conn
    → conn.send_msg_queue ≡ []
    → put sys c b w ≡ some (some (suc n), sent_world c (suc n) (contents m) conn w)
unfolding put nonblk_send send sent_some sys_write
whole_step sys c b n m conn w size held all hw hb he h q =
    let at =
      live-set w.connections c conn
        (record conn {
          send_times = (conn.send_times + 1) % 2 ^ 64;
          send_bytes = (conn.send_bytes + suc n) % 2 ^ 64;
        })
        h in
    ground (arith, held, all, hw, hb, he, h, q, at)

pub put-whole :
    (sys : Kernel) (c b : ℕ) (m : Mbuf) (conn : Connection) (w : World)
    → TakesWhole sys
    → Ready m b w
    → live (get_elem? w.connections c) ≡ some conn
    → conn.send_msg_queue ≡ []
    → (r : Option ℕ) × (n : ℕ) × (put sys c b w ≡ some (r, sent_world c n (contents m) conn w))
put-whole sys c b m conn w takes r h q =
    let n = length (contents m) - 1 in
    let size : length (contents m) ≡ suc n = omega (arith, r.some_bytes) in
    (
      some (suc n),
      suc n,
      whole_step sys c b n m conn w size (count-length m r.valid ∙ size)
          (take-all (suc n) (contents m) (omega (arith, size)))
          (takes w.calls (contents m) ∙ ap wrote size) r.here r.fresh_errno h q,
    )

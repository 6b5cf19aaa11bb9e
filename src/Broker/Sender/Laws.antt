-- ===== src/Broker/Sender/Laws.antt =====
-- What a connection sends and what it keeps for later is the stream of what it was given.
use mqtt_server.Prelude.{
  ℕ, suc, ◌≤◌, ◌≡◌, refl, ap, ◌∙◌, arith, List, [], ◌∷◌, ◌++◌, none, some, Bool, false, length,
  take, get_elem?, set, ltb, append-nil, if◌then◌else◌,
}
use mqtt_server.Mbuf.{Mbuf, count, contents, skip_read}
use mqtt_server.Mbuf.Laws.{IsValid}
use mqtt_server.Broker.{World, Kernel, Connection, wrote, live}
use mqtt_server.Broker.Sender.Steps.{Serves, send-Serves, nonblk_send-keep, put-idle}
use mqtt_server.Broker.Sender.Buffers.{pending, nonblk_send-Sent}
use mqtt_server.Broker.Sender.{eagain, would_block, max_msg_in_buffer, put, enqueue, send}

-- A connection whose queue has 50 buffers or more takes no further one: `put` answers -1 and
-- changes nothing.
put-full :
    (sys : Kernel) (c b : ℕ) (conn : Connection) (w : World)
    → live (get_elem? w.connections c) ≡ some conn
    → max_msg_in_buffer ≤ length conn.send_msg_queue
    → put sys c b w ≡ some (none, w)
unfolding put enqueue
put-full sys c b conn w h full = ground (arith, h, full)

-- A connection with an empty queue is given a valid buffer, the kernel takes one byte of it at
-- least, and `errno` holds no stale EAGAIN or EINTR: then `put` succeeds and sends once, and the
-- bytes that went out followed by those that the queue then holds are the bytes of the buffer.
pub put-stream :
    (sys : Kernel) (c b n : ℕ) (mbuf : Mbuf) (w : World)
    → Serves c [] w.mbufs w.wire w
    → get_elem? w.mbufs b ≡ some mbuf
    → IsValid mbuf
    → sys.write w.calls (contents mbuf) ≡ wrote (suc n)
    → suc n ≤ length (contents mbuf)
    → would_block w.errno ≡ false
    → (r : ℕ) × (v : World) × (sent : List ℕ) × (queue : List ℕ) × (put sys c b w
        ≡ some (some r, v))
      × Serves c queue v.mbufs (w.wire ++ (c, sent) ∷ []) v
      × (sent ++ pending v.mbufs queue ≡ contents mbuf)
put-stream sys c b n mbuf w idle hb valid hw few he =
    let (r, v, ran, out) = nonblk_send-Sent sys c b n [] mbuf w idle tt tt hb valid hw few he in
    let (conn, h, q, _, _) = out.serves in
    (
      r,
      v,
      out.taken,
      out.queue',
      put-idle sys c b w idle ∙ ran,
      (conn, h, q, refl, out.wire),
      out.stream ∙ append-nil (contents mbuf),
    )

-- With an empty queue and a stale EAGAIN in `errno`, a buffer that the kernel takes whole is kept
-- whole: `put` answers 0, and the buffer, unchanged, stands in the queue after all its bytes
-- went out.
pub put-stale :
    (sys : Kernel) (c b n : ℕ) (mbuf : Mbuf) (w : World)
    → Serves c [] w.mbufs w.wire w
    → get_elem? w.mbufs b ≡ some mbuf
    → sys.write w.calls (contents mbuf) ≡ wrote (suc n)
    → count mbuf ≡ suc n
    → w.errno ≡ eagain
    → (v : World) × (put sys c b w ≡ some (some 0, v))
      × Serves c (b ∷ []) w.mbufs (w.wire ++ (c, take (suc n) (contents mbuf)) ∷ []) v
put-stale sys c b n mbuf w idle hb hw size he =
    let (v, ran, (conn, h, q, mb, wi), _) = send-Serves sys c b n [] mbuf w idle hb hw in
    let whole : ltb (suc n) (count mbuf) ≡ false = ground (arith, size) in
    let ran' : send sys c b w ≡ some ((some (suc n), eagain), v) =
      ran
      ∙ ap (λ (t : Bool). some ((some (suc n), if t then eagain else w.errno), v)) whole
      ∙ ap (λ (e : ℕ). some ((some (suc n), e), v)) he in
    let (u, kept, (conn', h', q', mb', wi'), _) =
      nonblk_send-keep sys c b (suc n) [] w v ran' (conn, h, q, refl, refl) in
    let all : v.mbufs ≡ w.mbufs =
      mb ∙ ap (λ (t : Bool). if t then set w.mbufs b (skip_read mbuf (suc n)) else w.mbufs) whole in
    (u, put-idle sys c b w idle ∙ kept, (conn', h', q', mb' ∙ all, wi' ∙ wi))

-- ===== src/Broker/Notify/Laws.antt =====
-- What the messages of the queue do, and what ends it.
use mqtt_server.Prelude.{
  ℕ, ◌≡◌, refl, ap, ◌∙◌, arith, Bool, true, false, List, [], ◌∷◌, ◌++◌, map, Option, none, some,
  get_elem?, drop,
}
use mqtt_server.Mbuf.{Mbuf, count}
use mqtt_server.Pkt.{Pkt, ok, err, Code, new_pkt}
use mqtt_server.Msg.Publish.{Publish, decode_publish}
use mqtt_server.Broker.{World, Kernel}
use mqtt_server.Broker.Publisher.{publish}
use mqtt_server.Broker.Notify.{
  Reactor, notify, unregist_notify, publish_notified, on_notified, drain, handle_notify, on_notify,
}
use mqtt_server.Mbuf.{msg_publish}

pub on_notified-publish :
    (sys : Kernel) (b : ℕ) (m : Mbuf) (p : Publish) (q : Pkt) (n : ℕ) (w v : World)
    → get_elem? w.mbufs b ≡ some m
    → m.msg_type ≡ msg_publish
    → decode_publish (new_pkt (drop m.read_pos m.mem) (count m)) ≡ ok (p, q)
    → publish sys p.topic_name b p.base.fixed_header.retain_flag p.payload w ≡ some (n, v)
    → on_notified sys false b w ≡ some (true, v)
unfolding on_notified publish_notified
on_notified-publish sys b m p q n w v here kind d ran = ground (arith, here, kind, d, ran)

-- The messages are published, or left alone where they are of another type, one after the other.
abbrev pub Published : Kernel → Bool → List ℕ → World → World → Type 0
Published sys bridge [] w v = w ≡ v
Published sys bridge (b ∷ bs) w v =
    (u : World) × (on_notified sys bridge b w ≡ some (true, u)) × Published sys bridge bs u v

drain-next :
    (sys : Kernel) (bridge : Bool) (b : ℕ) (deque : List ℕ) (w u : World)
    → on_notified sys bridge b w ≡ some (true, u)
    → drain sys bridge (b ∷ deque) w ≡ drain sys bridge deque u
unfolding drain
drain-next sys bridge b deque w u one = ground (arith, one)

drain-Published :
    (sys : Kernel) (bridge : Bool) (bs deque : List ℕ) (w v : World)
    → Published sys bridge bs w v
    → drain sys bridge (bs ++ deque) w ≡ drain sys bridge deque v
drain-Published sys bridge [] deque w v same = ap (drain sys bridge deque) same
drain-Published sys bridge (b ∷ bs) deque w v (u, one, more) =
    drain-next sys bridge b (bs ++ deque) w u one ∙ drain-Published sys bridge bs deque u v more

drain-undecoded :
    (sys : Kernel) (bridge : Bool) (b : ℕ) (deque : List ℕ) (m : Mbuf) (c : Code) (q : Pkt)
    (w : World)
    → get_elem? w.mbufs b ≡ some m
    → m.msg_type ≡ msg_publish
    → decode_publish (new_pkt (drop m.read_pos m.mem) (count m)) ≡ err c q
    → drain sys bridge (b ∷ deque) w ≡ some ((deque, false), w)
unfolding on_notified publish_notified drain
drain-undecoded sys bridge b deque m c q w here kind d = ground (arith, here, kind, d)

-- Calls of `notify`, each with whether its write succeeds, and what they answer.
abbrev pub notify_each : List (Bool × ℕ) → Reactor → List (Option ℕ) × Reactor
notify_each [] r = ([], r)
notify_each ((wake, b) ∷ calls) r =
    let (answer, r') = notify wake b r in
    let (answers, r'') = notify_each calls r' in (answer ∷ answers, r'')

notify_each-refused :
    (calls : List (Bool × ℕ)) (r : Reactor)
    → r.notify_writer ≡ false
    → notify_each calls r ≡ (map (λ _. none) calls, r)
unfolding notify
notify_each-refused [] r off = refl
notify_each-refused ((wake, b) ∷ calls) r off =
    let rest = notify_each-refused calls r off in ground (arith, off, rest)

-- A queue in which a publish message that is not decoded stands behind messages that are published:
-- those are, and the queue ends there for good. The messages behind are left where they are, none
-- of them is published, and however often `notify` is called from then on, it answers -1 and the
-- queue does not change.
pub on_notify-undecoded :
    (sys : Kernel) (bridge : Bool) (bs : List ℕ) (b : ℕ) (deque : List ℕ) (calls : List (Bool × ℕ))
    (m : Mbuf) (c : Code) (q : Pkt) (w v : World)
    → Published sys bridge bs w v
    → get_elem? v.mbufs b ≡ some m
    → m.msg_type ≡ msg_publish
    → decode_publish (new_pkt (drop m.read_pos m.mem) (count m)) ≡ err c q
    → let stopped : Reactor = record { notify_writer = false; notify_deque = deque } in
      (on_notify sys bridge (record { notify_writer = true; notify_deque = bs ++ b ∷ deque }) w
        ≡ some (stopped, v))
      × (notify_each calls stopped ≡ (map (λ _. none) calls, stopped))
unfolding on_notify handle_notify unregist_notify
on_notify-undecoded sys bridge bs b deque calls m c q w v before here kind d =
    let drained =
      drain-Published sys bridge bs (b ∷ deque) w v before
      ∙ drain-undecoded sys bridge b deque m c q v here kind d in
    (ground (arith, drained), notify_each-refused calls _ refl)

-- ===== src/Broker/Notify.antt =====
-- The queue by which another thread hands a message to the reactor: `notify`, `pop_front` and
-- `regist_notify` of src/reactor/poller_epoll.cpp, and `CPollerNotifyFd` of
-- src/mqtt_server/poller_notify.cpp. A call of `notify` that comes while the queue is drained is
-- one that came before: the walk is over a longer queue.
pub mod Laws
use mqtt_server.Prelude.{
  ℕ, ◌+◌, List, [], ◌∷◌, ◌++◌, Option, none, some, Bool, true, false, ◌==◌, drop, if◌then◌else◌,
}
use mqtt_server.Mbuf.{count, msg_publish}
use mqtt_server.Pkt.{Pkt, Res, ok, err, fault, stuck, new_pkt}
use mqtt_server.Msg.Publish.{Publish, decode_publish}
use mqtt_server.Broker.{Kernel, M, ◌>>=◌, ◌>>◌, pure, get_mbuf}
use mqtt_server.Broker.Publisher.{publish, publish_all}

-- `m_notify_writer` is there or not, and the messages that wait.
pub record Reactor : Type 0 where
  pub notify_writer : Bool
  pub notify_deque : List ℕ

-- `notify`, where `wake` tells whether the write of the eight bytes to the eventfd succeeds. The
-- message stays in the queue when it does not; `none` is -1.
unfoldable pub notify : (wake : Bool) → (b : ℕ) → Reactor → Option ℕ × Reactor
notify wake b r =
    if r.notify_writer
    then (if wake then some 8 else none, record r { notify_deque = r.notify_deque ++ b ∷ [] })
    else (none, r)

-- What `~CPollerNotifyFd` does to the reactor.
unfoldable pub unregist_notify : Reactor → Reactor
unregist_notify r = record r { notify_writer = false }

module _ (sys : Kernel) (bridge : Bool) where
  -- `false` is an answer of -1.
  unfoldable pub publish_notified : (b : ℕ) → Res (Publish × Pkt) → M Bool
  publish_notified b (ok (p, _)) =
      if bridge
      then publish_all sys b >> pure true
      else (publish sys p.topic_name b p.base.fixed_header.retain_flag p.payload >> pure true)
  publish_notified b (err c p) = pure false
  publish_notified b fault = λ w. none
  publish_notified b stuck = λ w. none

  -- One round of the loop of `handle_input`. A message of another type is only logged.
  unfoldable pub on_notified : (b : ℕ) → M Bool
  on_notified b = do
    mbuf ← get_mbuf b
    if mbuf.msg_type == msg_publish
        then publish_notified b
            (decode_publish (new_pkt (drop mbuf.read_pos mbuf.mem) (count mbuf)))
        else pure true

  -- The loop, with what it leaves of the queue.
  unfoldable pub drain : List ℕ → M (List ℕ × Bool)
  drain [] = pure ([], true)
  drain (b ∷ deque) = do done ← on_notified b; if done then drain deque else pure (deque, false)

  -- `CPollerNotifyFd::handle_input`
  unfoldable pub handle_notify : Reactor → M (Bool × Reactor)
  handle_notify r = do
    (deque, done) ← drain r.notify_deque
    pure (done, record r { notify_deque = deque })

  -- An event of the eventfd in `run` of the poller: after -1 `handle_close` deletes the handler.
  unfoldable pub on_notify : Reactor → M Reactor
  on_notify r = do (done, r') ← handle_notify r; pure (if done then r' else unregist_notify r')

-- ===== src/Broker/Poller.antt =====
-- src/reactor/poller_epoll.cpp, `CPollerEpoll::run`, for the events of connections: which of their
-- methods an event runs. A method of a connection that was deleted has no result.
use mqtt_server.Prelude.{ℕ, List, [], ◌∷◌, none, some, Bool, if◌then◌else◌}
use mqtt_server.Broker.{Kernel, M, ◌>>=◌, ◌>>◌, pure}
use mqtt_server.Broker.Close.{handle_close}
use mqtt_server.Broker.Sender.{handle_output}
use mqtt_server.Broker.Handlers.Input.{handle_input}

-- What `epoll_wait` reports of a connection: EPOLLHUP or EPOLLERR, EPOLLIN and EPOLLOUT.
pub record Ready : Type 0 where
  pub handler : ℕ
  pub broken : Bool
  pub readable : Bool
  pub writable : Bool

module _ (sys : Kernel) where
  -- `handle_output` of a connection never answers a negative number.
  unfoldable pub on_writable : Ready → M Unit
  on_writable e = if e.writable then handle_output sys e.handler else pure tt

  unfoldable pub on_readable : Ready → M Unit
  on_readable e =
      if e.readable
      then (do
        res ← handle_input sys e.handler
        elim res [ none ↦ handle_close e.handler | some _ ↦ on_writable e ])
      else on_writable e

  unfoldable pub on_ready : Ready → M Unit
  on_ready e = if e.broken then handle_close e.handler else on_readable e

  -- The loop over the events of one `epoll_wait`.
  unfoldable pub run : List Ready → M Unit
  run [] = pure tt
  run (e ∷ events) = on_ready e >> run events

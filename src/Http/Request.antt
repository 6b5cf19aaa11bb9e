-- ===== src/Http/Request.antt =====
-- `HttpConnection::notify_mqtt_publish` of src/http_server/http_connection.cpp on the objects of
-- the server: what it leaves in the store of messages and in the queue of the reactor.
pub mod Delivery
use mqtt_server.Prelude.{ℕ, List, Option, none, some, Bool, true, length, if◌then◌else◌}
use mqtt_server.Pkt.{Res, ok, err, fault, stuck}
use mqtt_server.Mbuf.{Mbuf}
use mqtt_server.Broker.{M, ◌>>=◌, ◌>>◌, pure, gets, modify}
use mqtt_server.Broker.Publisher.{new_mbuf}
use mqtt_server.Broker.Notify.{Reactor, notify}
use mqtt_server.Http.Publish.{Query, Complaint, Notified, notify_mqtt_publish, drop_mbuf}

-- `m_notify_reactor->notify(mbuf)`, whose answer is not looked at. A buffer that was refused is
-- gone at the end of the function.
unfoldable pub hand_to : (wake : Bool) → Reactor → Mbuf → M Reactor
hand_to wake r m =
    if r.notify_writer
    then (do b ← new_mbuf m; pure (notify wake b r).1)
    else (modify (λ w. record w { store = drop_mbuf m w.store }) >> pure r)

unfoldable pub requested : (wake : Bool) → Reactor → Res Notified → M (List Complaint × Reactor)
requested wake r (ok n) = do
  modify (λ w. record w { store = n.store })
  elim n.mbuf [ none ↦ pure (n.error, r) | some m ↦ do r' ← hand_to wake r m; pure (n.error, r') ]
requested wake r (err c p) = λ w. none
requested wake r fault = λ w. none
requested wake r stuck = λ w. none

unfoldable pub publish_request :
    (atoi : List ℕ → ℕ) (dup wake : Bool) (mem : List ℕ)
    → Query
    → Reactor
    → M (List Complaint × Reactor)
publish_request atoi dup wake mem query r = do
  store ← gets (λ w. w.store)
  place ← gets (λ w. length w.mbufs)
  now ← gets (λ w. w.now)
  requested wake r (notify_mqtt_publish atoi dup true mem place now query store)

-- ===== src/Http/Request/Delivery.antt =====
-- A request to publish, from its parameters to the sockets of the subscribers.
use mqtt_server.Prelude.{
  ℕ, ◌+◌, ◌%◌, ◌^◌, ◌<◌, ◌≤◌, ◌≡◌, refl, ap, ap₂, ◌∙◌, arith, Bool, true, false, List, [], ◌∷◌,
  ◌++◌, some, length, get_elem?, get_elem?-append_end, All, take, drop,
}
use mqtt_server.Prelude.Keyed.{find_key}
use mqtt_server.Mbuf.{Mbuf, contents, count}
use mqtt_server.Mbuf.Laws.{IsValid}
use mqtt_server.Pkt.{Pkt, ok, new_pkt}
use mqtt_server.Msg.{FixedHeader}
use mqtt_server.Msg.Header.{packet, length-packet}
use mqtt_server.Msg.Publish.{decode_publish}
use mqtt_server.Msg.Encode.Publish.{publish_body}
use mqtt_server.Broker.{World, Kernel, TopicNode}
use mqtt_server.Broker.Topics.{has_client}
use mqtt_server.Broker.Topics.Laws.{NoRepeat}
use mqtt_server.Broker.Sender.{would_block}
use mqtt_server.Broker.Sender.Whole.{TakesWhole}
use mqtt_server.Broker.Publisher.{publish}
use mqtt_server.Broker.Publisher.Laws.{queue_of, one_if}
use mqtt_server.Broker.Publisher.Served.{Reach, deliveries}
use mqtt_server.Broker.Publisher.Delivery.{publish-delivers}
use mqtt_server.Broker.Notify.{Reactor, notify, handle_notify, on_notify, drain}
use mqtt_server.Broker.Notify.Laws.{on_notified-publish}
use mqtt_server.MsgStore.{MsgStore}
use mqtt_server.Http.Publish.{
  Query, complain, client_missed, client_param, topic_param, msg_param, buf_len, regist_mem_store,
  Complaint, notify_mqtt_publish,
}
use mqtt_server.Http.Publish.Decoded.{
  request_header, Handed, request_message, notify_mqtt_publish-Handed,
}
use mqtt_server.Http.Request.{publish_request, requested, hand_to}

Handed-IsValid :
    {h : FixedHeader} {topic msg : List ℕ} {id : ℕ} {m : Mbuf} → Handed h topic msg id m → IsValid m
Handed-IsValid k = record { ordered = omega (arith, k.start); within = k.within; small = k.small }

Handed-count :
    {h : FixedHeader} {topic msg : List ℕ} {id : ℕ} {m : Mbuf}
    → Handed h topic msg id m
    → count m ≡ m.write_pos
unfolding count
Handed-count k = omega (arith, k.start, k.within, k.small)

Handed-contents :
    {h : FixedHeader} {topic msg : List ℕ} {id : ℕ} {m : Mbuf}
    → Handed h topic msg id m
    → contents m ≡ packet h (publish_body topic (id % 2 ^ 16) msg)
unfolding contents
Handed-contents {m = m} k =
    ap₂ (λ (n s : ℕ). take n (drop s m.mem)) (Handed-count k) k.start ∙ k.written

-- The one message of the queue is published.
on_notify-Handed :
    (sys : Kernel) (topic msg : List ℕ) (id b n : ℕ) (h : FixedHeader) (m : Mbuf) (r : Pkt)
    (w v : World)
    → get_elem? w.mbufs b ≡ some m
    → Handed h topic msg id m
    → decode_publish (new_pkt m.mem m.write_pos) ≡ ok (request_message h topic msg id, r)
    → publish sys topic b h.retain_flag msg w ≡ some (n, v)
    → on_notify sys false (record { notify_writer = true; notify_deque = b ∷ [] }) w
      ≡ some (record { notify_writer = true; notify_deque = [] }, v)
unfolding on_notify handle_notify drain
on_notify-Handed sys topic msg id b n h m r w v here k d ran =
    let same =
      ap₂ (λ (s c : ℕ). decode_publish (new_pkt (drop s m.mem) c)) k.start (Handed-count k) in
    let done =
      on_notified-publish sys b m (request_message h topic msg id) r n w v here k.is_publish
        (same ∙ d) ran in
    ground (arith, done)

publish_request-handed :
    (atoi : List ℕ → ℕ) (dup wake : Bool) (mem : List ℕ) (query : Query) (w : World)
    (errors : List Complaint) (m : Mbuf) (store : MsgStore)
    → notify_mqtt_publish atoi dup true mem (length w.mbufs) w.now query w.store
      ≡ ok (record { error = errors; mbuf = some m; store = store })
    → publish_request atoi dup wake mem query (record { notify_writer = true; notify_deque = [] }) w
      ≡ some (
        (errors, record { notify_writer = true; notify_deque = length w.mbufs ∷ [] }),
        record w { store = store; mbufs = w.mbufs ++ m ∷ [] },
      )
unfolding publish_request requested hand_to notify
publish_request-handed atoi dup wake mem query w errors m store e = rw e refl

-- A request to publish reaches the subscribers. Where the reactor has its writer and an empty
-- queue, the server is not a bridge, the memory of the buffer has the size that is asked for,
-- `atoi` gives 0 on an empty text, the topic and the message of the request have lengths that
-- are below 2 ^ 14 together with 4, the topic is known and its clients stand once and have no
-- connection or an idle one of their own, the kernel takes what it is given and `errno` is not a
-- stale EAGAIN or EINTR: the request and then the walk over the queue have a result, whether or
-- not the eventfd was written; every client that is connected, and no other, is sent one packet,
-- the encoding of the topic, the low 16 bits of the next message id and the message; the new
-- buffer stands at the end of the messages that wait for each client of the topic, and of no
-- other; the queue is empty again, and the only error is that of a missing client.
pub publish_request-delivers :
    (sys : Kernel) (atoi : List ℕ → ℕ) (dup wake : Bool) (mem : List ℕ) (query : Query)
    (topic msg : List ℕ) (node : TopicNode) (w : World)
    → TakesWhole sys
    → atoi [] ≡ 0
    → find_key topic_param query ≡ some topic
    → find_key msg_param query ≡ some msg
    → length topic + length msg + 4 < 2 ^ 14
    → length mem ≡ buf_len topic msg
    → find_key topic w.topics ≡ some node
    → would_block w.errno ≡ false
    → All (Reach w) node.clients
    → NoRepeat node.clients
    → let id = (w.store.last_msg_id + 1) % 2 ^ 64 in
      let idle : Reactor = record { notify_writer = true; notify_deque = [] } in
      let bytes = packet (request_header atoi dup query) (publish_body topic (id % 2 ^ 16) msg) in
      (waiting : Reactor) × (w' v : World) × (publish_request atoi dup wake mem query idle w
        ≡ some ((complain client_missed (find_key client_param query), waiting), w'))
      × (on_notify sys false waiting w' ≡ some (idle, v))
      × (v.wire ≡ w.wire ++ deliveries w.contexts node.clients bytes)
      × ((y : ℕ)
          → queue_of y v.contexts
            ≡ queue_of y w.contexts ++ one_if (has_client y node.clients) (length w.mbufs))
publish_request-delivers sys atoi dup wake mem query topic msg node w takes zero_empty ht hm small
      size found he reach once =
    let id = (w.store.last_msg_id + 1) % 2 ^ 64 in
    let h = request_header atoi dup query in
    let b = length w.mbufs in
    let (m, r, e, k, d) =
      notify_mqtt_publish-Handed atoi dup mem b w.now query w.store topic msg zero_empty ht hm small
        size in
    let store = regist_mem_store id b w.now (record w.store { last_msg_id = id }) in
    let w' : World = record w { store = store; mbufs = w.mbufs ++ m ∷ [] } in
    let here = get_elem?-append_end w.mbufs m in
    let filled : 1 ≤ length (contents m) = omega (
      arith,
      ap length (Handed-contents k),
      length-packet h (publish_body topic (id % 2 ^ 16) msg),
    ) in
    let (v, ran, wires, queues) =
      publish-delivers sys topic msg b node m w' takes found here (Handed-IsValid k) filled he reach
        once in
    (
      record { notify_writer = true; notify_deque = b ∷ [] },
      w',
      v,
      publish_request-handed atoi dup wake mem query w _ m store e,
      on_notify-Handed sys topic msg id b (length node.clients) h m r w' v here k d ran,
      wires
          ∙ ap (λ (l : List ℕ). w.wire ++ deliveries w.contexts node.clients l) (Handed-contents k),
      queues,
    )

-- ===== src/Http/Server/Delivery.antt =====
-- A request to publish, from its text to the sockets of the subscribers.
use mqtt_server.Prelude.{
  ℕ, ◌+◌, ◌%◌, ◌^◌, ◌<◌, ◌≡◌, refl, ap₂, ◌∙◌, arith, Bool, true, false, List, [], ◌∷◌, ◌++◌, some,
  length, All,
}
use mqtt_server.Prelude.Keyed.{find_key}
use mqtt_server.Msg.Header.{packet}
use mqtt_server.Msg.Encode.Publish.{publish_body}
use mqtt_server.Broker.{World, Kernel, TopicNode}
use mqtt_server.Broker.Topics.{has_client}
use mqtt_server.Broker.Topics.Laws.{NoRepeat}
use mqtt_server.Broker.Sender.{would_block}
use mqtt_server.Broker.Sender.Whole.{TakesWhole}
use mqtt_server.Broker.Publisher.Laws.{queue_of, one_if}
use mqtt_server.Broker.Publisher.Served.{Reach, deliveries}
use mqtt_server.Broker.Notify.{Reactor, on_notify}
use mqtt_server.Http.Publish.{
  Query, Complaint, complain, client_missed, client_param, topic_param, msg_param, value_or,
  buf_len,
}
use mqtt_server.Http.Publish.Decoded.{request_header}
use mqtt_server.Http.Headers.{parse_headers}
use mqtt_server.Http.Headers.Words.{Word, WordPair, put_all}
use mqtt_server.Http.Headers.RoundTrip.{request_text, parse_headers-request_text}
use mqtt_server.Http.Request.{publish_request}
use mqtt_server.Http.Request.Delivery.{publish_request-delivers}
use mqtt_server.Http.Server.{publish_path, response_of, request_size, answer, process}

process-answered :
    (atoi : List ℕ → ℕ) (alloc : ℕ → List ℕ) (dup wake : Bool) (text method : List ℕ)
    (query : Query) (r r' : Reactor) (errors : List Complaint) (w w' : World)
    → parse_headers text
      ≡ some (true, record { method = method; path = publish_path; headers = []; query = query })
    → publish_request atoi dup wake (alloc (request_size query)) query r w ≡ some ((errors, r'), w')
    → process atoi alloc dup wake text r w ≡ some ((some (response_of errors), r'), w')
unfolding process answer
process-answered atoi alloc dup wake text method query r r' errors w w' parsed ran =
    ground (arith, parsed, ran)

-- A request for `/publish` without headers, whose method, version, names and values are words,
-- reaches the subscribers of its topic. Where `new` gives the size that is asked for, `atoi` gives
-- 0 on an empty text, the last topic and the last message of the request have lengths that are
-- below 2 ^ 14 together with 4, the reactor has its writer and an empty queue, the server is not a
-- bridge, the topic is known and its clients stand once and have no connection or an idle one of
-- their own, the kernel takes what it is given and `errno` is not a stale EAGAIN or EINTR: the
-- request and then the walk over the queue have a result, whether or not the eventfd was written;
-- the answer is 200, or 400 where no client is named; every client that is connected, and no
-- other, is sent one packet, the encoding of the topic, the low 16 bits of the next message id and
-- the message, without the retain flag; the new buffer stands at the end of the messages that
-- wait for each client of the topic, and of no other; and the queue is empty again.
pub process-delivers :
    (sys : Kernel) (atoi : List ℕ → ℕ) (alloc : ℕ → List ℕ) (dup wake : Bool) (method : List ℕ)
    (p : List ℕ × List ℕ) (ps : Query) (version topic msg : List ℕ) (node : TopicNode) (w : World)
    → TakesWhole sys
    → ((n : ℕ) → length (alloc n) ≡ n)
    → atoi [] ≡ 0
    → Word method
    → WordPair p
    → All WordPair ps
    → Word version
    → find_key topic_param (put_all (p ∷ ps) []) ≡ some topic
    → find_key msg_param (put_all (p ∷ ps) []) ≡ some msg
    → length topic + length msg + 4 < 2 ^ 14
    → find_key topic w.topics ≡ some node
    → would_block w.errno ≡ false
    → All (Reach w) node.clients
    → NoRepeat node.clients
    → let query = put_all (p ∷ ps) [] in
      let id = (w.store.last_msg_id + 1) % 2 ^ 64 in
      let idle : Reactor = record { notify_writer = true; notify_deque = [] } in
      let bytes = packet (request_header atoi dup query) (publish_body topic (id % 2 ^ 16) msg) in
      (waiting : Reactor) × (w' v : World) × (process atoi alloc dup wake
          (request_text method publish_path p ps version)
          idle
          w
        ≡ some (
          (some (response_of (complain client_missed (find_key client_param query))), waiting),
          w',
        ))
      × (on_notify sys false waiting w' ≡ some (idle, v))
      × (v.wire ≡ w.wire ++ deliveries w.contexts node.clients bytes)
      × ((y : ℕ)
          → queue_of y v.contexts
            ≡ queue_of y w.contexts ++ one_if (has_client y node.clients) (length w.mbufs))
process-delivers sys atoi alloc dup wake method p ps version topic msg node w takes sized zero_empty
      hm h hs hv ht hmsg small found he reach once =
    let query = put_all (p ∷ ps) [] in
    let idle : Reactor = record { notify_writer = true; notify_deque = [] } in
    let parsed = parse_headers-request_text method publish_path p ps version hm path-Word h hs hv in
    let size : length (alloc (request_size query)) ≡ buf_len topic msg =
      sized (request_size query) ∙ ap₂ (λ t m. buf_len (value_or [] t) (value_or [] m)) ht hmsg in
    let (waiting, w', v, ran, drained, wires, queues) =
      publish_request-delivers sys atoi dup wake (alloc (request_size query)) query topic msg node w
        takes zero_empty ht hmsg small size found he reach once in
    (
      waiting,
      w',
      v,
      process-answered atoi alloc dup wake (request_text method publish_path p ps version) method
          query idle waiting _ w w' parsed ran,
      drained,
      wires,
      queues,
    )
  where
    path-Word : Word publish_path
    path-Word = (refl, (refl, (refl, (refl, (refl, (refl, (refl, (refl, tt))))))))

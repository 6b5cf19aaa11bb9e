-- ===== src/Runs/Streams.antt =====
-- The stream of a connection and the acknowledgements of the two libraries at small data.
use mqtt_server.Prelude.{
  ℕ, ◌≡◌, refl, arith, false, Option, ◌<◌, ◌==◌, if◌then◌else◌, take, drop, get_elem?, inl, inr,
  none, List, [], ◌∷◌, ◌++◌, some, length, replicate, append-nil,
}
use mqtt_server.Mbuf.{contents}
use mqtt_server.Pkt.{new_pkt}
use mqtt_server.Msg.{plain_header, connack, puback, unsuback, suback}
use mqtt_server.Msg.Ack.{bad_id, encode_connack, encode_puback, encode_unsuback, encode_suback}
use mqtt_server.Broker.{World, Kernel, Connection, live, wrote, cs_connected}
use mqtt_server.Broker.Sender.{put}
use mqtt_server.Broker.Publisher.Shared.{put-shared}
use mqtt_server.Broker.Topics.{has_client}
use mqtt_server.Broker.Publisher.{publish}
use mqtt_server.Broker.Publisher.Laws.{queue_of, one_if}
use mqtt_server.Broker.Publisher.Served.{deliveries}
use mqtt_server.Broker.Publisher.Delivery.{publish-delivers}
use mqtt_server.Broker.Sender.Steps.{Serves}
use mqtt_server.Broker.Sender.Stream.{bytes_to, Streams, TakesSome}
use mqtt_server.Broker.Sender.Events.{
  give, ready, on_events, bytes_of, on_events-Streams, outputs, outputs-drain,
}
use mqtt_server.Ansi.Encode.{
  mqtt_enc_connect_ack, mqtt_enc_publish_ack, mqtt_enc_unsubscribe_ack, mqtt_enc_subscribe_ack,
}
use mqtt_server.Ansi.Acks.{Agree, acks-Agree}
use mqtt_server.Runs.Fixtures.{
  topic, session, connection, message, world_with, idle, takes, message-IsValid, message_bytes,
  generous, subscribed_world,
}

takes_one-TakesSome : TakesSome (takes 1)
takes_one-TakesSome k bytes some_bytes = (0, refl, some_bytes)

length-message : length (contents message) ≡ 4
length-message = rw (message_bytes.0) refl

idle-Streams : Streams 0 [] [] idle
idle-Streams = record {
  serves = (connection [], refl, refl, refl, refl);
  good = tt;
  stream = refl;
  fresh_errno = refl;
}

-- The connection has the message in its queue.
abbrev waiting : World
waiting = world_with (session cs_connected (0 ∷ [])) (connection (0 ∷ [])) 0

waiting-Streams : Streams 0 (contents message) (0 ∷ []) waiting
waiting-Streams = record {
  serves = (connection (0 ∷ []), refl, refl, refl, refl);
  good = ((message, refl, message-IsValid, omega (arith, length-message)), tt, tt);
  stream = append-nil (contents message);
  fresh_errno = refl;
}

on_events-Streams_example :
    let es = give message ∷ ready ∷ give message ∷ [] in
    (v : World) × (queue : List ℕ) × (on_events (takes 1) 0 es idle ≡ some (tt, v))
    × Streams 0 ([] ++ bytes_of es) queue v
on_events-Streams_example =
    on_events-Streams (takes 1) 0 (give message ∷ ready ∷ give message ∷ []) [] [] idle
      takes_one-TakesSome
      (
        (message-IsValid, omega (arith, length-message)),
        (tt, ((message-IsValid, omega (arith, length-message)), tt)),
      )
      (omega arith) idle-Streams

outputs-drain_example :
    (v : World) × (outputs (takes 1) 4 0 waiting ≡ some (tt, v))
    × Serves 0 [] v.mbufs v.wire v
    × (bytes_to 0 v.wire ≡ contents message)
outputs-drain_example =
    outputs-drain (takes 1) 4 0 (contents message) (0 ∷ []) waiting takes_one-TakesSome
      waiting-Streams (rw (append-nil (contents message), length-message) (omega arith))

acks-Agree_example :
    let p = new_pkt (replicate 8 0) 8 in
    Agree
      (encode_connack (plain_header connack) bad_id p)
      (mqtt_enc_connect_ack (replicate 8 0) 8 2)
    × Agree (encode_puback (plain_header puback) 700 p) (mqtt_enc_publish_ack (replicate 8 0) 8 700)
    × Agree
        (encode_unsuback (plain_header unsuback) 700 p)
        (mqtt_enc_unsubscribe_ack (replicate 8 0) 8 700)
    × Agree
        (encode_suback (plain_header suback) 700 (1 ∷ 2 ∷ []) p)
        (mqtt_enc_subscribe_ack (replicate 8 0) 8 700 (1 ∷ 2 ∷ []))
acks-Agree_example =
    acks-Agree (replicate 8 0) 8 700 bad_id (1 ∷ 2 ∷ []) (omega arith) (omega arith) (omega arith)
      (omega arith) (omega arith) (omega arith, (omega arith, tt))

publish-delivers_example :
    let w = subscribed_world in
    (v : World) × (publish generous topic 0 false (1 ∷ []) w ≡ some (2, v))
    × (v.wire ≡ [] ++ deliveries w.contexts (1 ∷ 0 ∷ []) (contents message))
    × ((y : ℕ)
        → queue_of y v.contexts ≡ queue_of y w.contexts ++ one_if (has_client y (1 ∷ 0 ∷ [])) 0)
publish-delivers_example =
    publish-delivers generous topic (1 ∷ []) 0 (record { retain_msg = none; clients = 1 ∷ 0 ∷ [] })
      message subscribed_world (λ k bytes. refl) refl refl message-IsValid
      (omega (arith, length-message)) refl
      (
        (record (session cs_connected []) { mqtt_connection = none }, refl, inl refl),
        ((session cs_connected [], refl, inr (0, connection [], refl, (refl, refl, refl))), tt),
      )
      (refl, (refl, tt))

-- A kernel that takes two bytes first, and then everything.
abbrev slow_start : Kernel
slow_start = record (takes 0) {
  write = λ k bytes. if k == 0 then wrote 2 else wrote (length bytes);
}

abbrev pair_world : World
pair_world = record (world_with (session cs_connected []) (connection []) 0) {
  connections = some (connection []) ∷ some (connection []) ∷ [];
}

slow_start-whole :
    (k : ℕ) (bytes : List ℕ) → 0 < k → slow_start.write k bytes ≡ wrote (length bytes)
slow_start-whole k bytes later = ground (arith, later)

put-shared_example :
    let w = pair_world in
    (v : World) × (u : World) × (r : Option ℕ) × (put slow_start 0 0 w ≡ some (some 0, v))
    × (put slow_start 1 0 v ≡ some (r, u))
    × (u.wire ≡ ([] ++ (0, take 2 (contents message)) ∷ []) ++ (1, drop 2 (contents message)) ∷ [])
    × ((after : Connection) × (live (get_elem? u.connections 1) ≡ some after)
        × (after.send_msg_queue ≡ []))
put-shared_example =
    put-shared slow_start 0 1 0 1 message (connection []) (connection []) pair_world
      (λ e. omega arith) refl message-IsValid (omega (arith, length-message)) refl refl refl refl
      refl refl refl refl slow_start-whole

-- ===== src/Runs/Server.antt =====
-- The broker at the small world of the fixtures.
use mqtt_server.Prelude.{
  ℕ, suc, ◌+◌, ◌%◌, ◌^◌, ◌≡◌, ◌≢◌, refl, arith, true, false, ◌||◌, List, [], ◌∷◌, ◌++◌, Option,
  none, some, take, replicate, get_elem?, if◌then◌else◌,
}
use mqtt_server.Prelude.Keyed.{same}
use mqtt_server.Msg.Subscribe.{Topic}
use mqtt_server.Mbuf.{Mbuf, contents}
use mqtt_server.Broker.{World, Context, Connection, cs_connected}
use mqtt_server.Broker.ClientIds.{
  find_client_context, add_client_context, del_client_context, find-add_del_client_context,
}
use mqtt_server.Broker.Session.{has_topic, add_subcribe_topics, ack_msg}
use mqtt_server.Broker.Session.Acks.{ack_each, in_entry, ack_each-clears}
use mqtt_server.Broker.Session.Laws.{Distinct, add_subcribe_topics-Distinct}
use mqtt_server.Broker.Close.{handle_close}
use mqtt_server.Broker.Close.Laws.{Closed, Ended, handle_close-Closed}
use mqtt_server.Broker.Sender.{put}
use mqtt_server.Broker.Sender.Steps.{Serves}
use mqtt_server.Broker.Sender.Laws.{put-stale}
use mqtt_server.Broker.Topics.{has_client}
use mqtt_server.Broker.Publisher.{publish}
use mqtt_server.Broker.Publisher.Laws.{queue_of, one_if, publish-offline}
use mqtt_server.Broker.Handlers.Input.{process_packets}
use mqtt_server.Broker.Handlers.Fuel.{Ends, process_packets-Ends}
use mqtt_server.Broker.Handlers.Stranger.{Packet, Stranger}
use mqtt_server.Pkt.{Pkt}
use mqtt_server.Runs.Fixtures.{
  topic, wanted, session, connection, message, world_with, idle, takes, message_bytes,
  idle-NoRepeat,
}

put-stale_example :
    let w = world_with (session cs_connected []) (connection []) 11 in
    (v : World) × (put (takes 4) 0 0 w ≡ some (some 0, v))
    × Serves 0 (0 ∷ []) w.mbufs ([] ++ (0, take 4 (contents message)) ∷ []) v
put-stale_example =
    put-stale (takes 4) 0 0 3 message (world_with (session cs_connected []) (connection []) 11)
      (connection [], refl, refl, refl, refl) refl refl message_bytes.1 refl

handle_close-Closed_example :
    (w' : World) × (handle_close 0 idle ≡ some (tt, w'))
    × Closed 0 0 (session cs_connected (0 ∷ [])) idle w'
    × Ended true 0 (session cs_connected (0 ∷ [])) idle w'.topics w'.client_ids
handle_close-Closed_example =
    handle_close-Closed 0 0 (connection []) (session cs_connected (0 ∷ [])) idle refl refl refl
      idle-NoRepeat

process_packets-Ends_example :
    let pings : Connection = record (connection []) { recv_buffer = 0xC0 ∷ 0 ∷ replicate 14 0 } in
    let w = world_with (session cs_connected []) pings 0 in
    Ends (takes 4) 0 2 0 w (process_packets (takes 4) (suc 2) 0 0 2 w)
process_packets-Ends_example =
    let pings : Connection = record (connection []) { recv_buffer = 0xC0 ∷ 0 ∷ replicate 14 0 } in
    let w = world_with (session cs_connected []) pings 0 in
    process_packets-Ends (takes 4) 0 2 w (omega arith)

add_subcribe_topics-Distinct_example :
    Distinct (add_subcribe_topics (session cs_connected []) (wanted ∷ wanted ∷ [])).subcribe_topics
    × ((t : Topic)
        → has_topic t
            (add_subcribe_topics (session cs_connected []) (wanted ∷ wanted ∷ [])).subcribe_topics
          ≡ (has_topic t (wanted ∷ []) || has_topic t (wanted ∷ wanted ∷ [])))
add_subcribe_topics-Distinct_example =
    add_subcribe_topics-Distinct (session cs_connected []) (wanted ∷ wanted ∷ []) (refl, tt)

ack_each-clears_example :
    let w = world_with (session cs_connected (0 ∷ 0 ∷ [])) (connection []) 0 in
    (x' : Context) × (w' : World) × (ack_each 0 (message ∷ []) w ≡ some (tt, w'))
    × (get_elem? w'.contexts 0 ≡ some x')
    × (x'.send_msg_queue ≡ 0 ∷ [])
    × ((j : ℕ)
        → (w'.stats j).ack_client % 2 ^ 32
          ≡ ((w.stats j).ack_client + in_entry j (message ∷ [])) % 2 ^ 32)
    × (w'.mbufs ≡ w.mbufs)
    × ((id b : ℕ) (queue : List ℕ) (m : Mbuf)
        → 0 ∷ [] ≡ b ∷ queue
        → get_elem? w.mbufs b ≡ some m
        → m.msg_id % 2 ^ 16 ≢ id
        → ack_msg 0 id w' ≡ some (tt, w'))
ack_each-clears_example =
    let x = session cs_connected (0 ∷ 0 ∷ []) in
    ack_each-clears 0 (0 ∷ []) (0 ∷ []) (message ∷ []) x (world_with x (connection []) 0) refl refl
      (refl, tt)

abbrev away : Context
away = record (session cs_connected []) { mqtt_connection = none }

publish-offline_example :
    let w = world_with away (connection []) 0 in
    (v : World) × (publish (takes 4) topic 0 false (1 ∷ []) w ≡ some (1, v))
    × (v.wire ≡ [])
    × ((y : ℕ) → queue_of y v.contexts ≡ queue_of y w.contexts ++ one_if (has_client y (0 ∷ [])) 0)
publish-offline_example =
    publish-offline (takes 4) topic (1 ∷ []) 0 (record { retain_msg = none; clients = 0 ∷ [] })
      message (world_with away (connection []) 0) refl refl ((away, refl, refl), tt) (refl, tt)

find-add_del_client_context_example :
    (find_client_context topic (add_client_context topic 4 idle).1 ≡ (
      if same topic topic
      then elim (find_client_context topic idle) as (λ _. Option ℕ) [
        | none ↦ some 4
        | some y ↦ some y
      ]
      else find_client_context topic idle))
    × (find_client_context topic (del_client_context topic idle).1
        ≡ (if same topic topic then none else find_client_context topic idle))
find-add_del_client_context_example = find-add_del_client_context topic topic 4 idle

-- An acknowledgement, a publish message that is cut, and a disconnect message.
abbrev early : List Packet
early = (0x40, (2 ∷ 0 ∷ 7 ∷ [], 4)) ∷ (0x30, ([], 1)) ∷ (0xE0, (0 ∷ [], 2)) ∷ []

-- ===== src/Runs/Http.antt =====
-- Requests to publish, and the queue of the reactor, at concrete inputs.
use mqtt_server.Prelude.{
  ℕ, Bool, zero, suc, ◌%◌, ◌≡◌, ◌==◌, inl, inr, refl, arith, false, true, List, [], ◌∷◌, ◌++◌, none,
  some, length, replicate, if◌then◌else◌,
}
use mqtt_server.Mbuf.{Mbuf, count}
use mqtt_server.Pkt.{err, failure, new_pkt, read_byte}
use mqtt_server.Msg.{decode_msg}
use mqtt_server.Msg.Header.{packet}
use mqtt_server.Msg.Publish.{decode_publish}
use mqtt_server.Msg.Encode.Publish.{publish_body}
use mqtt_server.Broker.{World, Kernel, wrote, cs_connected}
use mqtt_server.Broker.Topics.{has_client}
use mqtt_server.Broker.Publisher.Laws.{queue_of, one_if}
use mqtt_server.Broker.Publisher.Served.{deliveries}
use mqtt_server.Broker.Sender.WriteN.{write_n}
use mqtt_server.Broker.Sender.WriteN.Laws.{write_n-restarts}
use mqtt_server.Broker.Notify.{Reactor, on_notified, on_notify}
use mqtt_server.Mbuf.{msg_publish}
use mqtt_server.Broker.Notify.Laws.{Published, notify_each, on_notify-undecoded}
use mqtt_server.Http.Publish.{client_missed, topic_param, msg_param}
use mqtt_server.Http.Publish.Decoded.{request_header}
use mqtt_server.Http.Headers.{parse_headers}
use mqtt_server.Http.Headers.Words.{Word, WordPair}
use mqtt_server.Http.Headers.RoundTrip.{request_text, parse_headers-request_text}
use mqtt_server.Http.Server.{publish_path, process}
use mqtt_server.Http.Server.Delivery.{process-delivers}
use mqtt_server.Runs.Fixtures.{topic, session, connection, generous, subscribed_world}

-- One digit is enough here.
abbrev digit : List ℕ → ℕ
digit [] = 0
digit (c ∷ s) = c % 48

-- "GET /publish?topic=a&msg=bc HTTP/1.1"
abbrev get : List ℕ
get = 71 ∷ 69 ∷ 84 ∷ []

abbrev version : List ℕ
version = 72 ∷ 84 ∷ 84 ∷ 80 ∷ 47 ∷ 49 ∷ 46 ∷ 49 ∷ []

abbrev first_param : List ℕ × List ℕ
first_param = (topic_param, topic)

abbrev second_param : List ℕ × List ℕ
second_param = (msg_param, 98 ∷ 99 ∷ [])

get-Word : Word get
get-Word = (refl, (refl, (refl, tt)))

version-Word : Word version
version-Word = (refl, (refl, (refl, (refl, (refl, (refl, (refl, (refl, tt))))))))

first-WordPair : WordPair first_param
first-WordPair = ((refl, (refl, (refl, (refl, (refl, tt))))), (refl, tt))

second-WordPair : WordPair second_param
second-WordPair = ((refl, (refl, (refl, tt))), (refl, (refl, tt)))

parse_headers-request_text_example :
    parse_headers (request_text get publish_path first_param (second_param ∷ []) version)
    ≡ some (
      true,
      record {
        method = get;
        path = publish_path;
        headers = [];
        query = first_param ∷ second_param ∷ [];
      },
    )
parse_headers-request_text_example =
    parse_headers-request_text get publish_path first_param (second_param ∷ []) version get-Word
      (refl, (refl, (refl, (refl, (refl, (refl, (refl, (refl, tt)))))))) first-WordPair
      (second-WordPair, tt) version-Word

length-replicate : (n : ℕ) → length {A = ℕ} (replicate n 0) ≡ n
length-replicate zero = refl
length-replicate (suc n) = omega (arith, length-replicate n)

process-delivers_example :
    let query = first_param ∷ second_param ∷ [] in
    let w = subscribed_world in
    let bytes = packet (request_header digit false query) (publish_body topic 8 (98 ∷ 99 ∷ [])) in
    (waiting : Reactor) × (w' v : World) × (process digit
        (λ n. replicate n 0)
        false
        true
        (request_text get publish_path first_param (second_param ∷ []) version)
        (record { notify_writer = true; notify_deque = [] })
        w
      ≡ some ((some (record { code = 400; error = client_missed ∷ [] }), waiting), w'))
    × (on_notify generous false waiting w'
        ≡ some (record { notify_writer = true; notify_deque = [] }, v))
    × (v.wire ≡ [] ++ deliveries w.contexts (1 ∷ 0 ∷ []) bytes)
    × ((y : ℕ)
        → queue_of y v.contexts ≡ queue_of y w.contexts ++ one_if (has_client y (1 ∷ 0 ∷ [])) 1)
process-delivers_example =
    process-delivers generous digit (λ n. replicate n 0) false true get first_param
      (second_param ∷ []) version topic (98 ∷ 99 ∷ [])
      (record { retain_msg = none; clients = 1 ∷ 0 ∷ [] }) subscribed_world (λ k bytes. refl)
      length-replicate refl get-Word first-WordPair (second-WordPair, tt) version-Word refl refl
      (omega arith) refl refl
      (
        (record (session cs_connected []) { mqtt_connection = none }, refl, inl refl),
        ((session cs_connected [], refl, inr (0, connection [], refl, (refl, refl, refl))), tt),
      )
      (refl, (refl, tt))

-- A buffer without bytes.
abbrev broken : Mbuf
broken = record {
  mem = 48 ∷ [];
  msg_type = msg_publish;
  read_pos = 0;
  write_pos = 0;
  msg_id = 7;
  time = 5;
}

broken-undecoded :
    decode_publish (new_pkt (48 ∷ []) (count broken)) ≡ err failure (new_pkt (48 ∷ []) 0)
unfolding decode_publish decode_msg read_byte count
broken-undecoded = refl

-- A message of another type, which is only logged.
abbrev other_type : Mbuf
other_type = record broken { msg_type = 0 }

other_type-Published :
    let w : World = record subscribed_world { mbufs = other_type ∷ broken ∷ [] } in
    Published generous false (0 ∷ []) w w
unfolding on_notified
other_type-Published =
    let w : World = record subscribed_world { mbufs = other_type ∷ broken ∷ [] } in (w, refl, refl)

on_notify-undecoded_example :
    let w : World = record subscribed_world { mbufs = other_type ∷ broken ∷ [] } in
    let stopped : Reactor = record { notify_writer = false; notify_deque = 5 ∷ [] } in
    let calls : List (Bool × ℕ) = (true, 6) ∷ (false, 7) ∷ [] in
    (on_notify generous false (record { notify_writer = true; notify_deque = 0 ∷ 1 ∷ 5 ∷ [] }) w
      ≡ some (stopped, w))
    × (notify_each calls stopped ≡ (none ∷ none ∷ [], stopped))
on_notify-undecoded_example =
    let w : World = record subscribed_world { mbufs = other_type ∷ broken ∷ [] } in
    on_notify-undecoded generous false (0 ∷ []) 1 (5 ∷ []) ((true, 6) ∷ (false, 7) ∷ []) broken
      failure (new_pkt (48 ∷ []) 0) w w other_type-Published refl refl broken-undecoded

write_n-restarts_example :
    let sys : Kernel = record generous { write = λ k bytes. if k == 0 then wrote 1 else wrote 2 } in
    (v : World) × (write_n sys 2 7 (65 ∷ 66 ∷ 67 ∷ []) subscribed_world ≡ some (true, v))
    × (v.wire ≡ [] ++ (7, 65 ∷ []) ∷ (7, 65 ∷ 66 ∷ []) ∷ [])
write_n-restarts_example =
    write_n-restarts (record generous { write = λ k bytes. if k == 0 then wrote 1 else wrote 2 }) 2
      7 (65 ∷ 66 ∷ 67 ∷ []) (1 ∷ 2 ∷ []) subscribed_world
      (omega arith, (λ bytes. refl), (omega arith, (λ bytes. refl), tt)) refl (omega arith)

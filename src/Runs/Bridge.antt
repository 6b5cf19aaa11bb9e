-- ===== src/Runs/Bridge.antt =====
-- The client of another server, at concrete packets.
use mqtt_server.Prelude.{
  ℕ, ◌+◌, ◌≡◌, refl, arith, true, List, [], ◌∷◌, ◌++◌, some, length, take, replicate, map,
}
use mqtt_server.Prelude.Memory.{overwrite}
use mqtt_server.Mbuf.{contents}
use mqtt_server.Pkt.{remain_length, scan}
use mqtt_server.Pkt.RemainLength.{remain_bytes, groups}
use mqtt_server.Msg.{plain_header, publish}
use mqtt_server.Msg.Encode.Publish.{publish_body, length-publish_body}
use mqtt_server.Msg.Header.{packet}
use mqtt_server.Broker.{World, Kernel, received}
use mqtt_server.Broker.Handlers.Input.{sys_read}
use mqtt_server.Bridge.{Client, process, process_packets, packet_round, keep_rest}
use mqtt_server.Bridge.Packet.{Message, IsSendable, packet_of}
use mqtt_server.Bridge.Stream.{stream, IsPart}
use mqtt_server.Bridge.Forward.{copies, acks, process-forwards}
use mqtt_server.Bridge.Service.{Service, Round, no_socket, svc_round, read_round, on_read, on_bytes}
use mqtt_server.Bridge.Service.Bounds.{InBounds, Reach, Reach-InBounds}
use mqtt_server.Runs.Fixtures.{generous, subscribed_world}

abbrev hello : Message
hello = record { header = plain_header publish; topic = 97 ∷ []; msg_id = 7; payload = 1 ∷ 2 ∷ [] }

hello-IsSendable : IsSendable hello
hello-IsSendable = record {
  is_publish = refl;
  qos = omega arith;
  id = omega arith;
  small = omega (arith, length-publish_body (97 ∷ []) 7 (1 ∷ 2 ∷ []));
}

-- The first byte of a packet, and zeros behind it.
cut_packet : IsPart (48 ∷ []) (replicate 4 0)
unfolding remain_length scan
cut_packet = refl

abbrev bridge : List ℕ → (pos : ℕ) → Client
bridge buffer pos = record {
  client_id = 99 ∷ [];
  topic_name = 97 ∷ [];
  topic_qos = 1;
  client_socket = 3;
  recv_buffer = buffer;
  cur_buf_pos = pos;
  reactor = record { notify_writer = true; notify_deque = [] };
}

length-hello : length (stream (hello ∷ [])) ≡ 9
unfolding packet remain_bytes groups publish_body
length-hello = refl

process-forwards_example :
    let t =
      bridge
        (stream (hello ∷ []) ++ (48 ∷ [] ++ replicate 4 0))
        (length (stream (hello ∷ [])) + 1) in
    let w = subscribed_world in
    (t' : Client) × (v : World) × (process generous 1 true t w ≡ some ((true, t'), v))
    × (t'.reactor ≡ record { notify_writer = true; notify_deque = 1 ∷ [] })
    × (v.mbufs ≡ w.mbufs ++ copies (hello ∷ []) w.now)
    × (map contents (copies (hello ∷ []) w.now) ≡ packet_of hello ∷ [])
    × (v.wire ≡ [] ++ acks 3 (hello ∷ []))
    × (t'.cur_buf_pos ≡ 1)
    × (take 1 t'.recv_buffer ≡ 48 ∷ [])
process-forwards_example =
    process-forwards generous 1 true (hello ∷ []) (48 ∷ []) (replicate 4 0) []
      (bridge (stream (hello ∷ []) ++ (48 ∷ [] ++ replicate 4 0))
        (length (stream (hello ∷ [])) + 1))
      subscribed_world (λ k bytes. refl) (omega arith) (hello-IsSendable, tt) refl refl
      (omega (arith, length-hello)) cut_packet

-- A kernel that gives one byte, the first of a PINGRESP.
abbrev one_byte : Kernel
one_byte = record generous { read = λ k room. received (208 ∷ []) }

abbrev zeros : List ℕ
zeros = replicate 4096 0

abbrev fresh_start : Service
fresh_start = record {
  client = bridge zeros 0;
  socket_open = true;
  send_ping_req_time = 5;
  last_msg_time = 9;
}

abbrev one_round : Round
one_round = record { cur_time = 9; read_time = 10; first = no_socket; second = no_socket }

abbrev after_round : Service
after_round = record {
  client = bridge (overwrite zeros 0 (208 ∷ [])) 1;
  socket_open = true;
  send_ping_req_time = 0;
  last_msg_time = 10;
}

round_ran :
    svc_round one_byte 1 true one_round fresh_start subscribed_world
    ≡ some ((true, after_round), record subscribed_world { calls = 1 })
unfolding svc_round read_round sys_read on_read on_bytes process process_packets packet_round
    keep_rest remain_length scan overwrite
round_ran = refl

fresh_start-InBounds : InBounds 6 fresh_start
fresh_start-InBounds = record {
  fits = record { size = refl; within = omega arith };
  few = omega arith;
}

Reach-InBounds_example : InBounds 6 after_round
Reach-InBounds_example =
    Reach-InBounds one_byte 1 true fresh_start-InBounds (Reach.next one_round Reach.here round_ran)

-- ===== src/Bridge/Service.antt =====
-- `TCPClient::connect` and `TCPClient::svc` of src/mqtt_server/tcp_client.cpp: the thread of the
-- client, round by round. The clock, and how a new socket comes about, are arguments of a round.
pub mod Packets
pub mod Bounds
use mqtt_server.Prelude.{
  ℕ, ◌+◌, ◌%◌, ◌^◌, ◌-◌, List, [], ◌∷◌, none, some, Bool, true, false, ◌||◌, ltb, leb, take, length,
  if◌then◌else◌,
}
use mqtt_server.Prelude.Memory.{overwrite}
use mqtt_server.Mbuf.{sub32}
use mqtt_server.Broker.{Kernel, M, ◌>>=◌, ◌>>◌, pure, gets, modify, Received, received, unread}
use mqtt_server.Broker.Sender.{would_block}
use mqtt_server.Broker.Handlers.Input.{sys_read}
use mqtt_server.Bridge.{Client, send_connect_msg, send_pingreq_msg, send_disconnect_msg, process}

-- How `socket` and the loop over `::connect` end: without a socket, with one that is not connected
-- when the client is stopped, or with one that is.
pub data Attempt : Type 0 where
  no_socket : Attempt
  stopped : ℕ → Attempt
  reached : ℕ → Attempt

-- `socket_open` is whether `m_client_socket` is not INVALID_SOCKET.
pub record Service : Type 0 where
  pub client : Client
  pub socket_open : Bool
  pub send_ping_req_time : ℕ
  pub last_msg_time : ℕ

pub record Round : Type 0 where
  pub cur_time : ℕ
  pub read_time : ℕ
  pub first : Attempt
  pub second : Attempt

-- TCPClient::MAX_BUF_SIZE
abbrev pub client_buf_size : ℕ
client_buf_size = 4096

-- `read` gives no more than there is room.
abbrev pub cut : ℕ → Received → Received
cut room (unread e) = unread e
cut room (received bytes) = received (take room bytes)

module _ (sys : Kernel) (fuel : ℕ) (wake : Bool) where
  -- `false` is -1.
  unfoldable pub connect_by : Attempt → Service → M (Bool × Service)
  connect_by no_socket s = pure (false, record s { socket_open = false })
  connect_by (stopped c) s =
      pure (false, record s { client = record s.client { client_socket = c }; socket_open = true })
  connect_by (reached c) s = do
    let t = record s.client { client_socket = c }
    send_connect_msg sys fuel wake t
    pure (true, record s { client = record t { cur_buf_pos = 0 }; socket_open = true })

  unfoldable pub connect : Attempt → Service → M (Bool × Service)
  connect attempt s = do
    if s.socket_open then send_disconnect_msg sys fuel wake s.client else pure true
    connect_by attempt s

  -- A read that timed out.
  unfoldable pub on_timeout : Service → M (Bool × Service)
  on_timeout s = do
    send_pingreq_msg sys fuel wake s.client
    pure (true, record s { send_ping_req_time = (s.send_ping_req_time + 1) % 2 ^ 32 })

  -- No bytes were read; `errno` is looked at also where the answer is 0.
  unfoldable pub on_no_bytes : Round → Service → M (Bool × Service)
  on_no_bytes r s = do
    e ← gets (λ w. w.errno)
    if would_block e then on_timeout s else connect r.second s

  unfoldable pub on_bytes : Round → List ℕ → Service → M (Bool × Service)
  on_bytes r bytes s = do
    let t = s.client
    (done, t') ← process sys fuel wake (record t {
      recv_buffer = overwrite t.recv_buffer t.cur_buf_pos bytes;
      cur_buf_pos = t.cur_buf_pos + length bytes;
    })
    let s' : Service = record s { client = t'; send_ping_req_time = 0; last_msg_time = r.read_time }
    if done then pure (true, s') else connect r.second s'

  unfoldable pub on_read : Round → Received → Service → M (Bool × Service)
  on_read r (unread e) s = modify (λ w. record w { errno = e }) >> on_no_bytes r s
  on_read r (received []) s = on_no_bytes r s
  on_read r (received (b ∷ bytes)) s = on_bytes r (b ∷ bytes) s

  -- The part of a round from the test of the buffer on.
  unfoldable pub read_round : Round → Service → M (Bool × Service)
  read_round r s = if leb client_buf_size s.client.cur_buf_pos then pure (false, s) else (do
    let room = client_buf_size - s.client.cur_buf_pos
    answer ← sys_read sys room
    on_read r (cut room answer) s)

  -- A round of the loop; `false` ends it.
  unfoldable pub svc_round : Round → Service → M (Bool × Service)
  svc_round r s =
      if ltb 5 s.send_ping_req_time || ltb 300 (sub32 r.cur_time s.last_msg_time)
      then (do
        (done, s') ← connect r.first (record s { send_ping_req_time = 0 })
        if done then read_round r s' else pure (false, s'))
      else read_round r s

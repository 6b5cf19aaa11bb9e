-- ===== src/Runs/Fixtures.antt =====
-- A small broker: one client with a connection, one topic and one buffer.
use mqtt_server.Prelude.{ℕ, ◌≡◌, refl, arith, true, length, List, [], ◌∷◌, none, some, replicate}
use mqtt_server.Msg.Subscribe.{Topic}
use mqtt_server.Mbuf.{Mbuf, count, contents}
use mqtt_server.Mbuf.Laws.{IsValid}
use mqtt_server.Broker.{
  World, Kernel, Context, Connection, wrote, received, cs_connected, cs_new, ClientStatus,
}
use mqtt_server.Broker.Topics.Laws.{TopicsNoRepeat, put_node-NoRepeat}

abbrev pub client : List ℕ
client = 99 ∷ 49 ∷ []

abbrev pub topic : List ℕ
topic = 97 ∷ []

abbrev pub wanted : Topic
wanted = record { topic_name = topic; qos = 1 }

abbrev pub session : ClientStatus → List ℕ → Context
session status queue = record {
  mqtt_connection = some 0;
  client_status = status;
  remote_addr = [];
  protocal_name = [];
  protocal_ver = 3;
  client_id = client;
  user_name = [];
  user_password = [];
  accept_time = 0;
  connect_time = 0;
  discon_time = 0;
  close_time = 0;
  last_pub_time = 0;
  last_msg_time = 0;
  last_pub_msg_id = 0;
  clean_session = true;
  send_msg_ids = [];
  send_msg_queue = queue;
  subcribe_topics = wanted ∷ [];
}

abbrev pub connection : List ℕ → Connection
connection queue = record {
  client_context = some 0;
  send_msg_queue = queue;
  current_event_mask = 1;
  send_bytes = 0;
  send_times = 0;
  schedule_write_times = 0;
  cancel_schedule_write_times = 0;
  recv_buffer = replicate 16 0;
  cur_buf_pos = 0;
  accept_time = 0;
  last_msg_time = 0;
  recv_times = 0;
  recv_bytes = 0;
  peer_addr = [];
}

abbrev pub message : Mbuf
message = record {
  mem = 1 ∷ 2 ∷ 3 ∷ 4 ∷ [];
  msg_type = 1;
  read_pos = 0;
  write_pos = 4;
  msg_id = 7;
  time = 5;
}

pub message-IsValid : IsValid message
message-IsValid = record { ordered = omega arith; within = omega arith; small = omega arith }

abbrev pub world_with : Context → Connection → (errno : ℕ) → World
world_with ctx conn errno = record {
  mbufs = message ∷ [];
  contexts = ctx ∷ [];
  connections = some conn ∷ [];
  topics = (topic, record { retain_msg = none; clients = 0 ∷ [] }) ∷ [];
  client_ids = (client, 0) ∷ [];
  store = record { last_msg_id = 7; msg_db = []; last_update_time = 0 };
  stats = λ i. record {
    msg_id = 0;
    pub_start = 0;
    pub_end = 0;
    pub_online_num = 0;
    pub_offline_num = 0;
    min_delay = 0;
    max_delay = 0;
    ack_client = 0;
  };
  now = 9;
  errno = errno;
  calls = 0;
  wire = [];
}

abbrev pub idle : World
idle = world_with (session cs_connected (0 ∷ [])) (connection []) 0

-- A kernel that takes so many bytes at every call.
abbrev pub takes : ℕ → Kernel
takes n = record {
  write = λ k bytes. wrote n;
  read = λ k room. received [];
  epoll_mod = λ k. true;
  fresh_context = session cs_new [];
}

pub message_bytes : (contents message ≡ 1 ∷ 2 ∷ 3 ∷ 4 ∷ []) × (count message ≡ 4)
unfolding contents count
message_bytes = (refl, refl)

pub idle-NoRepeat : TopicsNoRepeat idle
idle-NoRepeat =
    put_node-NoRepeat topic (record { retain_msg = none; clients = 0 ∷ [] })
      (record idle { topics = [] }) (refl, tt) (λ t node e. cc)

-- A kernel that takes everything.
abbrev pub generous : Kernel
generous = record (takes 0) { write = λ k bytes. wrote (length bytes) }

abbrev pub subscribed_world : World
subscribed_world = record (world_with (session cs_connected []) (connection []) 0) {
  contexts =
      session cs_connected [] ∷ record (session cs_connected []) { mqtt_connection = none } ∷ [];
  topics = (topic, record { retain_msg = none; clients = 1 ∷ 0 ∷ [] }) ∷ [];
}

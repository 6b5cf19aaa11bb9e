-- ===== src/Broker/Session.antt =====
-- include/mqtt_server/mqtt_context.hpp, `CTMqttClientContext`: the session of a client, with the
-- topics it subscribed to and the messages it has not acknowledged.
pub mod Laws
pub mod Acks
use mqtt_server.Prelude.{
  ℕ, ◌+◌, ◌%◌, ◌^◌, List, [], ◌∷◌, ◌++◌, Option, none, some, Bool, true, false, ◌==◌, ◌&&◌, ◌||◌,
  if◌then◌else◌,
}
use mqtt_server.Prelude.Keyed.{same}
use mqtt_server.Msg.Subscribe.{Topic}
use mqtt_server.Msg.Connect.{Connect}
use mqtt_server.Mbuf.{Mbuf}
use mqtt_server.MsgStore.{msg_stat, inc_ack_client, set_stat}
use mqtt_server.Broker.{
  World, Kernel, Context, cs_connected, cs_new, M, ◌>>=◌, ◌>>◌, pure, gets, modify, get_context,
  set_context, get_mbuf,
}

-- `CTopic::operator==`
abbrev pub same_topic : Topic → Topic → Bool
same_topic a b = same a.topic_name b.topic_name && a.qos == b.qos

abbrev pub has_topic : Topic → List Topic → Bool
has_topic t [] = false
has_topic t (u ∷ us) = same_topic u t || has_topic t us

unfoldable pub add_topics : List Topic → List Topic → List Topic
add_topics [] topics = topics
add_topics (t ∷ ts) topics = add_topics ts (if has_topic t topics then topics else topics ++ t ∷ [])

unfoldable pub add_subcribe_topics : Context → List Topic → Context
add_subcribe_topics x sub_topics = record x {
  subcribe_topics = add_topics sub_topics x.subcribe_topics;
}

-- `CTMqttClientContext(con)`: the fields that it does not set are as the memory has them.
abbrev pub new_context : Kernel → Option ℕ → Context
new_context sys con = record sys.fresh_context {
  mqtt_connection = con;
  client_status = cs_new;
  remote_addr = [];
  protocal_name = [];
  client_id = [];
  user_name = [];
  user_password = [];
  send_msg_ids = [];
  send_msg_queue = [];
  subcribe_topics = [];
}

-- `init`
unfoldable pub init : Context → Connect → Context
init x con_msg = record x {
  client_status = cs_connected;
  protocal_name = con_msg.proto_name;
  protocal_ver = con_msg.proto_version;
  client_id = con_msg.client_id;
  user_name = con_msg.user_name;
  user_password = con_msg.password;
  clean_session = con_msg.clean_session;
}

unfoldable pub add_send_msg : ℕ → ℕ → M Unit
add_send_msg context send_mbuf = do
  x ← get_context context
  set_context context (record x { send_msg_queue = x.send_msg_queue ++ send_mbuf ∷ [] })

-- `inc_ack_client` of the entry that `msg_stat` returns.
abbrev pub count_ack : ℕ → World → World
count_ack msg_id w =
    let (i, stats) = msg_stat w.stats msg_id in
    record w { stats = set_stat stats i (inc_ack_client (stats i)) }

-- The message at the head of the queue is taken off when the low 16 bits of its id are `msg_id`.
unfoldable pub ack_head : (context msg_id : ℕ) → Context → List ℕ → M Unit
ack_head context msg_id x [] = pure tt
ack_head context msg_id x (b ∷ queue) = do
  mbuf ← get_mbuf b
  if mbuf.msg_id % 2 ^ 16 == msg_id
      then (set_context context (record x {
        last_pub_time = mbuf.time;
        last_pub_msg_id = mbuf.msg_id;
        send_msg_queue = queue;
      })
          >> modify (count_ack mbuf.msg_id))
      else pure tt

unfoldable pub ack_msg : (context msg_id : ℕ) → M Unit
ack_msg context msg_id = do x ← get_context context; ack_head context msg_id x x.send_msg_queue

abbrev ids_of : List ℕ → M (List ℕ)
ids_of [] = pure []
ids_of (b ∷ queue) = do mbuf ← get_mbuf b; ids ← ids_of queue; pure (mbuf.msg_id ∷ ids)

unfoldable pub prepare_store : (context : ℕ) → M Unit
prepare_store context = do
  x ← get_context context
  ids ← ids_of x.send_msg_queue
  set_context context (record x { send_msg_ids = ids })

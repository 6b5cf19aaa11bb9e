-- ===== src/Broker.antt =====
-- The broker's objects as one store that the operations pass on. A pointer is a place in one of
-- the lists of `World`: a message buffer, a client context or a connection. A connection that
-- was deleted leaves `none` behind, and an operation that uses it, or a null pointer, has no result.
-- Code: the fields of include/mqtt_server/mqtt_context.hpp, include/mqtt_server/mqtt_connection.hpp,
-- include/reactor/event_handler.hpp, include/mqtt_server/subscriber_mgr.hpp and
-- include/mqtt_server/client_id_db.hpp.
pub mod ClientIds
pub mod Session
pub mod Topics
pub mod Close
pub mod Sender
pub mod Publisher
pub mod Reply
pub mod Handlers
pub mod Poller
pub mod Notify
use mqtt_server.Prelude.{
  ℕ, zero, suc, ◌+◌, List, [], ◌∷◌, ◌++◌, Option, none, some, Bool, true, false, length, get_elem?,
  set,
}
use mqtt_server.Msg.Subscribe.{Topic}
use mqtt_server.Mbuf.{Mbuf}
use mqtt_server.MsgStore.{MsgStore, StatTable}

pub data ClientStatus : Type 0 where
  status_none cs_new cs_connected cs_disconnected cs_expiring : ClientStatus

-- CTMqttClientContext
pub record Context : Type 0 where
  pub mqtt_connection : Option ℕ
  pub client_status : ClientStatus
  pub remote_addr : List ℕ
  pub protocal_name : List ℕ
  pub protocal_ver : ℕ
  pub client_id : List ℕ
  pub user_name : List ℕ
  pub user_password : List ℕ
  pub accept_time : ℕ
  pub connect_time : ℕ
  pub discon_time : ℕ
  pub close_time : ℕ
  pub last_pub_time : ℕ
  pub last_msg_time : ℕ
  pub last_pub_msg_id : ℕ
  pub clean_session : Bool
  pub send_msg_ids : List ℕ
  pub send_msg_queue : List ℕ
  pub subcribe_topics : List Topic

-- CEventHandler and what CMqttConnection adds to it.
pub record Connection : Type 0 where
  pub client_context : Option ℕ
  pub send_msg_queue : List ℕ
  pub current_event_mask : ℕ
  pub send_bytes : ℕ
  pub send_times : ℕ
  pub schedule_write_times : ℕ
  pub cancel_schedule_write_times : ℕ
  pub recv_buffer : List ℕ
  pub cur_buf_pos : ℕ
  pub accept_time : ℕ
  pub last_msg_time : ℕ
  pub recv_times : ℕ
  pub recv_bytes : ℕ
  pub peer_addr : List ℕ

-- CTopicNode. The set of clients is listed in the order in which it is walked.
pub record TopicNode : Type 0 where
  pub retain_msg : Option ℕ
  pub clients : List ℕ

-- `wire` is what was written to each connection, in order; `calls` counts the system calls.
pub record World : Type 0 where
  pub mbufs : List Mbuf
  pub contexts : List Context
  pub connections : List (Option Connection)
  pub topics : List (List ℕ × TopicNode)
  pub client_ids : List (List ℕ × ℕ)
  pub store : MsgStore
  pub stats : StatTable
  pub now : ℕ
  pub errno : ℕ
  pub calls : ℕ
  pub wire : List (ℕ × List ℕ)

-- What `::write` answers: a count, or -1 and the error.
pub data Wrote : Type 0 where
  wrote : ℕ → Wrote
  failed : ℕ → Wrote

-- What `::read` answers: bytes, or -1 and the error.
pub data Received : Type 0 where
  received : List ℕ → Received
  unread : ℕ → Received

-- What `::write`, `::read` and `epoll_ctl` answer at the call of a number (`read` is given the
-- room there is), and the fields of a new context that its constructor leaves as the memory has
-- them.
pub record Kernel : Type 0 where
  pub write : ℕ → List ℕ → Wrote
  pub read : ℕ → ℕ → Received
  pub epoll_mod : ℕ → Bool
  pub fresh_context : Context

abbrev pub M : Type 0 → Type 0
M A = World → Option (A × World)

abbrev pub pure : {A : Type 0} → A → M A
pure a w = some (a, w)

infixl 10 ◌>>=◌
abbrev pub ◌>>=◌ : {A B : Type 0} → M A → (A → M B) → M B
(m >>= k) w = elim (m w) [ none ↦ none | some (a, w') ↦ k a w' ]

infixl 10 ◌>>◌
abbrev pub ◌>>◌ : {A B : Type 0} → M A → M B → M B
m >> k = m >>= (λ _. k)

abbrev pub gets : {A : Type 0} → (World → A) → M A
gets f w = some (f w, w)

abbrev pub modify : (World → World) → M Unit
modify f w = some (tt, f w)

abbrev pub deref : {A : Type 0} → Option A → M A
deref none w = none
deref (some a) w = some (a, w)

abbrev pub get_mbuf : ℕ → M Mbuf
get_mbuf b w = deref (get_elem? w.mbufs b) w

abbrev pub set_mbuf : ℕ → Mbuf → M Unit
set_mbuf b v w = some (tt, record w { mbufs = set w.mbufs b v })

abbrev pub get_context : ℕ → M Context
get_context x w = deref (get_elem? w.contexts x) w

abbrev pub set_context : ℕ → Context → M Unit
set_context x v w = some (tt, record w { contexts = set w.contexts x v })

-- A deleted connection has no state to read.
abbrev pub live : Option (Option Connection) → Option Connection
live none = none
live (some c) = c

abbrev pub get_connection : ℕ → M Connection
get_connection c w = deref (live (get_elem? w.connections c)) w

abbrev pub set_connection : ℕ → Connection → M Unit
set_connection c v w = some (tt, record w { connections = set w.connections c (some v) })

-- `delete this`
abbrev pub delete_connection : ℕ → M Unit
delete_connection c w = some (tt, record w { connections = set w.connections c none })

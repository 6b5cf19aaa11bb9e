-- ===== src/Http/Publish.antt =====
-- `HttpConnection::notify_mqtt_publish` of src/http_server/http_connection.cpp and
-- `HTTPRequest::query_param`. `atoi` is the C library's, its result taken modulo 2 ^ 32; `dup` is
-- what `m_dup_flag` holds, which the default constructor of `CMqttFixedHeader` leaves as it was;
-- `mem` is the memory that `new` gives for the buffer, and `place` the pointer to it that
-- `regist_mem_store` gives to the store.
pub mod Buffer
pub mod Decoded
use mqtt_server.Prelude.{
  ℕ, ◌+◌, ◌%◌, ◌^◌, Bool, true, false, List, [], ◌∷◌, ◌++◌, Option, none, some, ltb, ◌==◌, length,
  if◌then◌else◌,
}
use mqtt_server.Prelude.Keyed.{find_key}
use mqtt_server.Mbuf.{Mbuf, init, skip_write, msg_publish}
use mqtt_server.MsgStore.{MsgStore, next_msg_id, add_msg, del_msg}
use mqtt_server.Pkt.{Pkt, Res, ok, err, fault, stuck, new_pkt}
use mqtt_server.Msg.{FixedHeader, publish}
use mqtt_server.Msg.Publish.{encode_publish}

-- The texts that `error` is made of.
pub data Complaint : Type 0 where
  client_missed topic_missed msg_missed encode_failed : Complaint

abbrev pub Query : Type 0
Query = List (List ℕ × List ℕ)

abbrev pub client_param : List ℕ
client_param = 99 ∷ 108 ∷ 105 ∷ 101 ∷ 110 ∷ 116 ∷ []

abbrev pub topic_param : List ℕ
topic_param = 116 ∷ 111 ∷ 112 ∷ 105 ∷ 99 ∷ []

abbrev pub msg_param : List ℕ
msg_param = 109 ∷ 115 ∷ 103 ∷ []

abbrev pub qos_param : List ℕ
qos_param = 113 ∷ 111 ∷ 115 ∷ []

abbrev pub retain_param : List ℕ
retain_param = 114 ∷ 101 ∷ 116 ∷ 97 ∷ 105 ∷ 110 ∷ []

-- `query_param`: the value stays as it was where the parameter is missing.
abbrev pub value_or : List ℕ → Option (List ℕ) → List ℕ
value_or old none = old
value_or old (some value) = value

abbrev pub complain : Complaint → Option (List ℕ) → List Complaint
complain c none = c ∷ []
complain c (some value) = []

-- A number in a `uint8_t`, made 1 where it is more.
abbrev pub at_most_1 : ℕ → ℕ
at_most_1 n = if ltb 1 (n % 2 ^ 8) then 1 else n % 2 ^ 8

-- What the request leaves: the errors, the buffer that the reactor is told of, and the store of
-- messages. The result of the function is -1 where there is an error.
pub record Notified : Type 0 where
  pub error : List Complaint
  pub mbuf : Option Mbuf
  pub store : MsgStore

unfoldable pub qos_of : (atoi : List ℕ → ℕ) → Option (List ℕ) → ℕ
qos_of atoi none = 1
qos_of atoi (some value) = at_most_1 (atoi value)

-- The test is for a parameter that is missing, so the text is empty.
unfoldable pub retain_of : (atoi : List ℕ → ℕ) → Option (List ℕ) → ℕ
retain_of atoi none = at_most_1 (atoi [])
retain_of atoi (some value) = 0

-- The new buffer with its `msg_type` and `msg_id`.
abbrev pub publish_mbuf : List ℕ → (id now : ℕ) → Mbuf
publish_mbuf mem id now = record (init mem now) { msg_type = msg_publish; msg_id = id }

-- `regist_mem_store`
abbrev pub regist_mem_store : (id place now : ℕ) → MsgStore → MsgStore
regist_mem_store id place now store = if id == 0 then store else add_msg store id (some place) now

-- `~CMbuf` takes the buffer from the store.
abbrev pub drop_mbuf : Mbuf → MsgStore → MsgStore
drop_mbuf b store = if b.msg_id == 0 then store else del_msg store b.msg_id

-- The end of the request: the buffer is handed on where the message was encoded and there is a
-- reactor, also when a parameter is missing. Otherwise nothing points to it at the end.
unfoldable pub hand_on :
    (reactor : Bool) → Mbuf → List Complaint → MsgStore → Res (ℕ × Pkt) → Res Notified
hand_on true b missed store (ok (pkt_len, q)) = ok (record {
  error = missed;
  mbuf = some (skip_write (record b { mem = q.mem }) pkt_len);
  store = store;
})
hand_on false b missed store (ok (pkt_len, q)) =
    ok (record { error = missed; mbuf = none; store = drop_mbuf b store })
hand_on reactor b missed store (err c q) =
    ok (record { error = missed ++ encode_failed ∷ []; mbuf = none; store = drop_mbuf b store })
hand_on reactor b missed store fault = fault
hand_on reactor b missed store stuck = stuck

-- The size of the buffer that is asked for.
abbrev pub buf_len : (topic msg : List ℕ) → ℕ
buf_len topic msg = (length msg + length topic + 8) % 2 ^ 32

unfoldable pub notify_mqtt_publish :
    (atoi : List ℕ → ℕ) (dup reactor : Bool) (mem : List ℕ) (place now : ℕ)
    → Query
    → MsgStore
    → Res Notified
notify_mqtt_publish atoi dup reactor mem place now query store =
    let client = find_key client_param query in
    let topic = find_key topic_param query in
    let msg = find_key msg_param query in
    let missed =
      complain client_missed client ++ complain topic_missed topic ++ complain msg_missed msg in
    let topic_name = value_or [] topic in
    let payload = value_or [] msg in
    let h : FixedHeader = record {
      msg_type = publish;
      dup_flag = dup;
      qos = qos_of atoi (find_key qos_param query);
      retain_flag = ltb 0 (retain_of atoi (find_key retain_param query));
    } in
    let (id, store') = next_msg_id store in
    hand_on reactor (publish_mbuf mem id now) missed (regist_mem_store id place now store')
      (encode_publish h topic_name (id % 2 ^ 16) payload (new_pkt mem (buf_len topic_name payload)))

-- ===== src/Ansi/Decode.antt =====
-- The decoders of src/mqtt/mqtt_pkt_ansi.c. What they leave in a message that they refuse is left
-- out; `malloc` does not fail.
use mqtt_server.Prelude.{
  ℕ, zero, suc, ◌+◌, ◌-◌, ◌/◌, ◌%◌, ◌^◌, bit_and, Bool, true, false, List, [], ◌∷◌, Option, none,
  some, ltb, leb, ◌==◌, ◌&&◌, ◌||◌, if◌then◌else◌,
}
use mqtt_server.Pkt.{failure}
use mqtt_server.Msg.{has_bit}
use mqtt_server.Ansi.{
  Out, done, refused, overrun, ◌>>=◌, peek, new_string, mqtt_remain_length, get_short, get_string,
  check_protocol_name,
}

-- TMqttConnect
pub record MqttConnect : Type 0 where
  pub header : ℕ
  pub remain_length : ℕ
  pub flags : ℕ
  pub protocol_ver : ℕ
  pub protocol_name : List ℕ
  pub client_id : List ℕ
  pub will_topic : Option (List ℕ)
  pub will_msg : Option (List ℕ)
  pub user_name : Option (List ℕ)
  pub user_passwd : Option (List ℕ)
  pub keep_alive_timer : ℕ

-- TMqttPublish
pub record MqttPublish : Type 0 where
  pub header : ℕ
  pub remain_length : ℕ
  pub topic_name : List ℕ
  pub msg_id_offset : ℕ
  pub msg_id : ℕ
  pub payload : List ℕ

-- TMqttSubcribe, with the topics and their QoS.
pub record MqttSubscribe : Type 0 where
  pub header : ℕ
  pub remain_length : ℕ
  pub msg_id : ℕ
  pub topics : List (List ℕ × ℕ)

-- A part that a flag announces: where it stands, and the offset behind it.
abbrev pub optional : Bool → List ℕ → (len offset : ℕ) → Out (Option (ℕ × ℕ) × ℕ)
optional false mem len offset = done (none, offset)
optional true mem len offset = do
  (start, n) ← get_string mem len offset
  done (some (start, n), offset + (n + 2))

abbrev pub copy_part : List ℕ → Option (ℕ × ℕ) → Out (Option (List ℕ))
copy_part mem none = done none
copy_part mem (some (start, n)) = do str ← new_string mem start n; done (some str)

-- The message type and the remaining length; the header, the value and the offset behind it.
abbrev pub begin_packet : (type : ℕ) → List ℕ → (len : ℕ) → Out (ℕ × ℕ × ℕ)
begin_packet type mem len = do
  header ← peek mem 0
  if header / 2 ^ 4 % 16 == type
      then (do (value, bytes) ← mqtt_remain_length mem 1 (len - 1); done (header, value, 1 + bytes))
      else refused failure

-- The will message is read in front of the will topic.
unfoldable pub mqtt_dec_connect : List ℕ → (len : ℕ) → Out (ℕ × MqttConnect)
mqtt_dec_connect mem len = do
  (header, value, body) ← begin_packet 1 mem len
  (name_start, name_len) ← get_string mem len body
  _ ← check_protocol_name mem name_start name_len
  let after_name = body + (name_len + 2)
  protocol_ver ← peek mem after_name
  if protocol_ver == 3
      then (do
        flags ← peek mem (after_name + 1)
        keep_alive_timer ← get_short mem len (after_name + 2)
        client_id_len ← get_short mem len (after_name + 4)
        let id_start = after_name + 6
        (will_msg, o1) ← optional (has_bit flags 2) mem len (id_start + client_id_len)
        (will_topic, o2) ← optional (has_bit flags 2) mem len o1
        (user_name, o3) ← optional (has_bit flags 7) mem len o2
        (user_passwd, o4) ← optional (has_bit flags 6) mem len o3
        if ltb len o4 || ltb (value + body) o4 then refused failure else (do
          protocol_name ← new_string mem name_start name_len
          client_id ← new_string mem id_start client_id_len
          will_msg_str ← copy_part mem will_msg
          will_topic_str ← copy_part mem will_topic
          user_name_str ← copy_part mem user_name
          user_passwd_str ← copy_part mem user_passwd
          done (
            o4,
            record {
              header = header;
              remain_length = value;
              flags = flags;
              protocol_ver = protocol_ver;
              protocol_name = protocol_name;
              client_id = client_id;
              will_topic = will_topic_str;
              will_msg = will_msg_str;
              user_name = user_name_str;
              user_passwd = user_passwd_str;
              keep_alive_timer = keep_alive_timer;
            },
          )))
      else refused failure

-- A payload of negative length makes `memcpy` run out of the memory.
unfoldable pub mqtt_dec_publish : List ℕ → (len : ℕ) → Out (ℕ × MqttPublish)
mqtt_dec_publish mem len = do
  (header, value, body) ← begin_packet 3 mem len
  (topic_start, topic_len) ← get_string mem len body
  topic_name ← new_string mem topic_start topic_len
  let msg_id_offset = body + (topic_len + 2)
  msg_id ← get_short mem len msg_id_offset
  let offset = msg_id_offset + 2
  let pkt_end = value + body
  payload ← (if leb offset pkt_end then new_string mem offset (pkt_end - offset) else overrun)
  done (
    pkt_end,
    record {
      header = header;
      remain_length = value;
      topic_name = topic_name;
      msg_id_offset = msg_id_offset;
      msg_id = msg_id;
      payload = payload;
    },
  )

abbrev pub Topics : Type 0
Topics = List (List ℕ × ℕ)

-- A round of the loop over the topics, up to the test that there are too many. What follows is
-- given the start, the length and the QoS of the topic and the offset behind it.
unfoldable pub next_topic :
    (subcribe : Bool)
    → List ℕ
    → (len pkt_end offset : ℕ) → (then_do : (start n qos after : ℕ) → Out (Topics × ℕ))
    → Out (Topics × ℕ)
next_topic subcribe mem len pkt_end offset then_do =
    if ltb offset len && ltb offset pkt_end
    then (do
      (start, n) ← get_string mem len offset
      qos ← (if subcribe then peek mem (offset + (n + 2)) else done 0)
      then_do start n (bit_and qos 0x3)
          (if subcribe then offset + (n + 2) + 1 else offset + (n + 2)))
    else done ([], offset)

-- `room` is MAX_TOPIC_NUM - topics_count. A topic too many is read, and ends the loop.
unfoldable pub read_topics :
    (room : ℕ) → (subcribe : Bool) → List ℕ → (len pkt_end offset : ℕ) → Out (Topics × ℕ)
read_topics zero subcribe mem len pkt_end offset =
    next_topic subcribe mem len pkt_end offset (λ start n qos after. done ([], after))
read_topics (suc room) subcribe mem len pkt_end offset =
    next_topic subcribe mem len pkt_end offset (λ start n qos after. (do
      name ← new_string mem start n
      (topics, end) ← read_topics room subcribe mem len pkt_end after
      done ((name, qos) ∷ topics, end)))

unfoldable pub mqtt_dec_subscribe : List ℕ → (len : ℕ) → (subcribe : Bool) → Out (ℕ × MqttSubscribe)
mqtt_dec_subscribe mem len subcribe = do
  (header, value, body) ← begin_packet 8 mem len
  msg_id ← get_short mem len body
  (topics, offset) ← read_topics 5 subcribe mem len (value + body) (body + 2)
  done (offset, record { header = header; remain_length = value; msg_id = msg_id; topics = topics })

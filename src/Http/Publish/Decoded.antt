-- ===== src/Http/Publish/Decoded.antt =====
-- What the reactor is told of after an HTTP request.
use mqtt_server.Prelude.{
  ℕ, ◌+◌, ◌%◌, ◌<◌, ◌≤◌, ◌^◌, ◌≡◌, refl, ap, take, ◌∙◌, arith, Bool, true, false, List, [], ◌++◌,
  Option, some, none, length, append-nil,
}
use mqtt_server.Prelude.Keyed.{find_key}
use mqtt_server.Mbuf.{Mbuf, init}
use mqtt_server.MsgStore.{MsgStore, next_msg_id}
use mqtt_server.Pkt.{Pkt, ok, new_pkt}
use mqtt_server.Pkt.RemainLength.{remain_bytes}
use mqtt_server.Msg.{FixedHeader, publish}
use mqtt_server.Msg.Header.{packet}
use mqtt_server.Msg.Publish.{Publish, encode_publish, decode_publish}
use mqtt_server.Msg.Encode.Publish.{publish_body}
use mqtt_server.Msg.Decode.{base_of}
use mqtt_server.Msg.RoundTrip.{publish_round_trip}
use mqtt_server.Http.Publish.Buffer.{
  new_buffer-Fresh, skip_write-first, encoded_size, encoded_bytes,
}
use mqtt_server.Http.Publish.{
  Query, Complaint, complain, client_missed, client_param, topic_param, msg_param, qos_param,
  retain_param, qos_of, retain_of, buf_len, notify_mqtt_publish, hand_on, publish_mbuf,
  regist_mem_store,
}
use mqtt_server.Mbuf.{msg_publish}

qos_of-small : (atoi : List ℕ → ℕ) (value : Option (List ℕ)) → qos_of atoi value < 4
unfolding qos_of
qos_of-small atoi none = omega arith
qos_of-small atoi (some value) = ground arith

retain_of_lem :
    (atoi : List ℕ → ℕ) (value : Option (List ℕ)) → atoi [] ≡ 0 → retain_of atoi value ≡ 0
unfolding retain_of
retain_of_lem atoi none h = ground (arith, h)
retain_of_lem atoi (some value) h = refl

abbrev pub request_header : (atoi : List ℕ → ℕ) → Bool → Query → FixedHeader
request_header atoi dup query = record {
  msg_type = publish;
  dup_flag = dup;
  qos = qos_of atoi (find_key qos_param query);
  retain_flag = false;
}

notify_mqtt_publish-sent :
    (atoi : List ℕ → ℕ) (dup : Bool) (mem : List ℕ) (place now : ℕ) (query : Query)
    (store : MsgStore) (topic msg : List ℕ) (q : Pkt)
    → atoi [] ≡ 0
    → find_key topic_param query ≡ some topic
    → find_key msg_param query ≡ some msg
    → let id = (store.last_msg_id + 1) % 2 ^ 64 in
      encode_publish
          (request_header atoi dup query)
          topic
          (id % 2 ^ 16)
          msg
          (new_pkt mem (buf_len topic msg))
        ≡ ok (q.offset, q)
      → q.offset ≤ length q.mem
      → length q.mem < 2 ^ 31
      → notify_mqtt_publish atoi dup true mem place now query store
        ≡ ok (record {
          error = complain client_missed (find_key client_param query);
          mbuf = some (record (publish_mbuf mem id now) { mem = q.mem; write_pos = q.offset });
          store = regist_mem_store id place now (record store { last_msg_id = id });
        })
unfolding notify_mqtt_publish next_msg_id init hand_on
notify_mqtt_publish-sent atoi dup mem place now query store topic msg q atoi_empty ht hm e fits
      small =
    let id = (store.last_msg_id + 1) % 2 ^ 64 in
    let retain = retain_of_lem atoi (find_key retain_param query) atoi_empty in
    let write =
      skip_write-first (record (publish_mbuf mem id now) { mem = q.mem }) q.offset refl fits
        small in
    let buffer = record (publish_mbuf mem id now) { mem = q.mem; write_pos = q.offset } in
    let client = complain client_missed (find_key client_param query) in
    let left = regist_mem_store id place now (record store { last_msg_id = id }) in
    rw (ht, hm, retain, e, write)
      (ap
        (λ (missed : List Complaint).
          ok (record { error = missed; mbuf = some buffer; store = left }))
        (append-nil (client ++ []) ∙ append-nil client))

-- The buffer that the reactor is told of: the packet, and nothing else, between its positions.
pub record Handed (h : FixedHeader) (topic msg : List ℕ) (id : ℕ) (m : Mbuf) : Type 0 where
  pub start : m.read_pos ≡ 0
  pub written : take m.write_pos m.mem ≡ packet h (publish_body topic (id % 2 ^ 16) msg)
  pub within : m.write_pos ≤ length m.mem
  pub small : length m.mem < 2 ^ 31
  pub is_publish : m.msg_type ≡ msg_publish

-- What `CMqttPublish::decode` makes of the packet.
abbrev pub request_message : FixedHeader → (topic msg : List ℕ) → (id : ℕ) → Publish
request_message h topic msg id =
    let body = publish_body topic (id % 2 ^ 16) msg in
    record {
      base = base_of h body;
      topic_name = topic;
      payload = msg;
      msg_id = id % 2 ^ 16;
      offset_msg_id = 1 + length (remain_bytes (length body)) + 2 + length topic;
    }

pub notify_mqtt_publish-Handed :
    (atoi : List ℕ → ℕ) (dup : Bool) (mem : List ℕ) (place now : ℕ) (query : Query)
    (store : MsgStore) (topic msg : List ℕ)
    → atoi [] ≡ 0
    → find_key topic_param query ≡ some topic
    → find_key msg_param query ≡ some msg
    → length topic + length msg + 4 < 2 ^ 14
    → length mem ≡ buf_len topic msg
    → let id = (store.last_msg_id + 1) % 2 ^ 64 in
      let h = request_header atoi dup query in
      (m : Mbuf) × (r : Pkt) × (notify_mqtt_publish atoi dup true mem place now query store
        ≡ ok (record {
          error = complain client_missed (find_key client_param query);
          mbuf = some m;
          store = regist_mem_store id place now (record store { last_msg_id = id });
        }))
      × Handed h topic msg id m
      × (decode_publish (new_pkt m.mem m.write_pos) ≡ ok (request_message h topic msg id, r))
unfolding init
notify_mqtt_publish-Handed atoi dup mem place now query store topic msg atoi_empty ht hm small
      size =
    let id = (store.last_msg_id + 1) % 2 ^ 64 in
    let h = request_header atoi dup query in
    let f = new_buffer-Fresh h topic msg mem (id % 2 ^ 16) small size in
    let qos_ok = qos_of-small atoi (find_key qos_param query) in
    let (q, r, e, d) = publish_round_trip h topic (id % 2 ^ 16) msg qos_ok (omega arith) small f in
    let (fits, bound) = encoded_size h topic msg mem (id % 2 ^ 16) q (omega arith) small size e in
    (
      record (publish_mbuf mem id now) { mem = q.mem; write_pos = q.offset },
      r,
      notify_mqtt_publish-sent atoi dup mem place now query store topic msg q atoi_empty ht hm e
          fits bound,
      record {
        start = refl;
        written = encoded_bytes h topic msg mem (id % 2 ^ 16) q (omega arith) small size e;
        within = fits;
        small = bound;
        is_publish = refl;
      },
      d,
    )

-- Where there is a reactor, the memory of the buffer has the size that is asked for and `atoi`
-- gives 0 on an empty text, a request with a topic and a message, whose lengths and 4 are below
-- 2 ^ 14 together, tells the reactor of a buffer that is decoded to the topic, the message, the low
-- 16 bits of the next id and a header without the retain flag, whatever the retain parameter is.
-- The only error that there may be is that of a missing client.
notify_mqtt_publish-decodes :
    (atoi : List ℕ → ℕ) (dup : Bool) (mem : List ℕ) (place now : ℕ) (query : Query)
    (store : MsgStore) (topic msg : List ℕ)
    → atoi [] ≡ 0
    → find_key topic_param query ≡ some topic
    → find_key msg_param query ≡ some msg
    → length topic + length msg + 4 < 2 ^ 14
    → length mem ≡ buf_len topic msg
    → let id = (store.last_msg_id + 1) % 2 ^ 64 in
      let h : FixedHeader = record {
        msg_type = publish;
        dup_flag = dup;
        qos = qos_of atoi (find_key qos_param query);
        retain_flag = false;
      } in
      let body = publish_body topic (id % 2 ^ 16) msg in
      (b : Mbuf) × (r : Pkt) × (notify_mqtt_publish atoi dup true mem place now query store
        ≡ ok (record {
          error = complain client_missed (find_key client_param query);
          mbuf = some b;
          store = regist_mem_store id place now (record store { last_msg_id = id });
        }))
      × (b.read_pos ≡ 0)
      × (decode_publish (new_pkt b.mem b.write_pos)
          ≡ ok (
            record {
              base = base_of h body;
              topic_name = topic;
              payload = msg;
              msg_id = id % 2 ^ 16;
              offset_msg_id = 1 + length (remain_bytes (length body)) + 2 + length topic;
            },
            r,
          ))
notify_mqtt_publish-decodes atoi dup mem place now query store topic msg atoi_empty ht hm small
      size =
    let (m, r, e, handed, d) =
      notify_mqtt_publish-Handed atoi dup mem place now query store topic msg atoi_empty ht hm small
        size in
    (m, r, e, handed.start, d)

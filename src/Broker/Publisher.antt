-- ===== src/Broker/Publisher.antt =====
-- src/mqtt_server/subscriber_mgr.cpp, the sending half of `CSubscriberMgr`: the message of a
-- publisher goes to the session of each subscriber and, where it is connected, to its connection.
-- The set of clients is walked in place, so the walk has no result once its client is erased.
pub mod Laws
pub mod Served
pub mod Delivery
pub mod Shared
use mqtt_server.Prelude.{
  ℕ, suc, ◌+◌, ◌%◌, ◌^◌, List, [], ◌∷◌, ◌++◌, Option, none, some, Bool, length, get_elem?, set,
  replicate, bit_or, if◌then◌else◌,
}
use mqtt_server.Prelude.Keyed.{find_key}
use mqtt_server.Mbuf.{Mbuf, init, copy, count, contents}
use mqtt_server.MsgStore.{MsgStat, msg_stat, set_stat, start_stat, end_stat}
use mqtt_server.Broker.{
  World, Kernel, M, ◌>>=◌, ◌>>◌, pure, gets, modify, deref, get_mbuf, get_context, TopicNode,
}
use mqtt_server.Broker.Session.{add_send_msg}
use mqtt_server.Broker.Topics.{
  put_topic, new_topic_node, subscribe_client, has_client, find_client_context,
}
use mqtt_server.Broker.Sender.{put}

-- `msg_stat.f()` on the entry `i`.
abbrev pub update_stat : ℕ → (World → MsgStat → MsgStat) → World → World
update_stat i f w = record w { stats = set_stat w.stats i (f w (w.stats i)) }

abbrev pub add_online : World → MsgStat → MsgStat
add_online w s = record s { pub_online_num = (1 + s.pub_online_num) % 2 ^ 32 }

abbrev pub add_offline : World → MsgStat → MsgStat
add_offline w s = record s { pub_offline_num = (1 + s.pub_offline_num) % 2 ^ 32 }

-- `msg_stat(id)` of the table, then `start_stat`.
unfoldable pub begin_stat : ℕ → M ℕ
begin_stat msg_id = do
  i ← gets (λ w. (msg_stat w.stats msg_id).0)
  modify (λ w. record w { stats = (msg_stat w.stats msg_id).1 })
  modify (update_stat i (λ w s. start_stat s w.now))
  pure i

unfoldable pub finish_stat : ℕ → M Unit
finish_stat i = modify (update_stat i (λ w s. end_stat s w.now))

-- `make_shared<CMbuf>(length)`, `copy` and the retain bit; `copy` overwrites the whole memory. The
-- bit of a buffer without bytes lies outside its memory.
unfoldable pub retained : Mbuf → ℕ → Option Mbuf
retained mbuf now =
    let fresh = init (replicate (count mbuf) 0) now in
    let full : Mbuf = elim (copy fresh (contents mbuf)) [ none ↦ fresh | some m ↦ m ] in
    elim (get_elem? full.mem full.read_pos) [
      | none ↦ none
      | some flag ↦
          some
            (record full { msg_id = mbuf.msg_id; mem = set full.mem full.read_pos (bit_or flag 1) })
    ]

-- The pointer to the new buffer is its place at the end of the list.
abbrev pub new_mbuf : Mbuf → M ℕ
new_mbuf m w = some (length w.mbufs, record w { mbufs = w.mbufs ++ m ∷ [] })

unfoldable pub update_retain : List ℕ → TopicNode → (b : ℕ) → (payload : List ℕ) → M Unit
update_retain topic node b payload = do
  mbuf ← get_mbuf b
  now ← gets (λ w. w.now)
  retain_msg ← deref (retained mbuf now)
  r ← new_mbuf retain_msg
  elim payload [
    | [] ↦ modify (put_topic topic (record node { retain_msg = none }))
    | _ ∷ _ ↦ modify (put_topic topic (record node { retain_msg = some r }))
  ]

module _ (sys : Kernel) where
  -- `publish(client, mbuf, msg_stat)`
  unfoldable pub publish_client : (client b i : ℕ) → M Unit
  publish_client client b i = do
    add_send_msg client b
    x ← get_context client
    elim x.mqtt_connection [
      | none ↦ modify (update_stat i add_offline)
      | some c ↦ put sys c b >> modify (update_stat i add_online)
    ]

  -- The rest of the walk over the clients of the topic, and how many were served.
  unfoldable pub publish_clients : List ℕ → List ℕ → (b i : ℕ) → M ℕ
  publish_clients topic [] b i = pure 0
  publish_clients topic (x ∷ xs) b i = do
    before ← gets (find_client_context topic)
    clients ← deref before
    let rest = publish_clients topic xs b i
    if has_client x clients
        then (do
          publish_client x b i
          after ← gets (find_client_context topic)
          left ← deref after
          n ← (if has_client x left then rest else (λ w. none))
          pure (suc n))
        else rest

  -- `publish(str_topic_name, mbuf, publish_msg)`
  unfoldable pub publish : List ℕ → (b : ℕ) → (retain_flag : Bool) → (payload : List ℕ) → M ℕ
  publish topic b retain_flag payload = do
    found ← gets (λ w. find_key topic w.topics)
    let node : TopicNode = elim found [ none ↦ new_topic_node | some n ↦ n ]
    modify (put_topic topic node)
    if retain_flag then update_retain topic node b payload else pure tt
    elim found [
      | none ↦ pure 0
      | some n ↦ do
        mbuf ← get_mbuf b
        i ← begin_stat mbuf.msg_id
        served ← publish_clients topic n.clients b i
        finish_stat i
        pure served
    ]

  -- `publish_all` serves the clients of every topic.
  unfoldable pub publish_topics : List (List ℕ × TopicNode) → (b i : ℕ) → M Unit
  publish_topics [] b i = pure tt
  publish_topics ((topic, _) ∷ topics) b i = do
    clients ← gets (find_client_context topic)
    xs ← deref clients
    publish_clients topic xs b i
    publish_topics topics b i

  unfoldable pub publish_all : (b : ℕ) → M Unit
  publish_all b = do
    mbuf ← get_mbuf b
    i ← begin_stat mbuf.msg_id
    topics ← gets (λ w. w.topics)
    publish_topics topics b i
    finish_stat i

  -- `add_client_context`: a topic that was known sends its retained message to a client that
  -- is connected.
  unfoldable pub add_client_context : List ℕ → (cli_context : ℕ) → M (Option ℕ)
  add_client_context topic cli_context = do
    found ← gets (λ w. find_key topic w.topics)
    modify (subscribe_client topic cli_context)
    x ← get_context cli_context
    let retain : Option ℕ = elim found [ none ↦ none | some n ↦ n.retain_msg ]
    elim retain [
      | none ↦ pure (some 0)
      | some r ↦ elim x.mqtt_connection [
        | none ↦ pure (some 0)
        | some c ↦ add_send_msg cli_context r >> put sys c r
      ]
    ]

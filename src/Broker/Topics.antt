-- ===== src/Broker/Topics.antt =====
-- src/mqtt_server/subscriber_mgr.cpp: `CTopicNode`, and what `CSubscriberMgr` keeps of the clients
-- of each topic, without the sending.
pub mod Laws
pub mod Refinement
use mqtt_server.Prelude.{
  ℕ, List, [], ◌∷◌, ◌++◌, Option, none, some, Bool, true, false, ◌==◌, ◌||◌, if◌then◌else◌,
}
use mqtt_server.Prelude.Keyed.{find_key, put_key}
use mqtt_server.Broker.{World, TopicNode}

abbrev pub has_client : ℕ → List ℕ → Bool
has_client x [] = false
has_client x (y ∷ ys) = y == x || has_client x ys

abbrev pub erase_client : ℕ → List ℕ → List ℕ
erase_client x [] = []
erase_client x (y ∷ ys) = if y == x then ys else y ∷ erase_client x ys

abbrev pub new_topic_node : TopicNode
new_topic_node = record { retain_msg = none; clients = [] }

-- `true` is 0 and `false` is -1.
unfoldable pub add_client : ℕ → TopicNode → Bool × TopicNode
add_client cli_context node =
    if has_client cli_context node.clients
    then (false, node)
    else (true, record node { clients = node.clients ++ cli_context ∷ [] })

unfoldable pub del_client : ℕ → TopicNode → Bool × TopicNode
del_client cli_context node =
    if has_client cli_context node.clients
    then (true, record node { clients = erase_client cli_context node.clients })
    else (false, node)

abbrev pub put_topic : List ℕ → TopicNode → World → World
put_topic topic node w = record w { topics = put_key topic node w.topics }

-- `add_client_context` up to the retained message.
unfoldable pub subscribe_client : List ℕ → ℕ → World → World
subscribe_client topic cli_context w = elim (find_key topic w.topics) [
  | none ↦ put_topic topic (add_client cli_context new_topic_node).1 w
  | some node ↦ put_topic topic (add_client cli_context node).1 w
]

unfoldable pub del_client_context : List ℕ → ℕ → World → Bool × World
del_client_context topic cli_context w = elim (find_key topic w.topics) [
  | none ↦ (false, w)
  | some node ↦ (true, put_topic topic (del_client cli_context node).1 w)
]

-- `none` is -1.
unfoldable pub find_client_context : List ℕ → World → Option (List ℕ)
find_client_context topic w = elim (find_key topic w.topics) [
  | none ↦ none
  | some node ↦ some node.clients
]

-- ===== src/Broker/Topics/Refinement.antt =====
-- CSubscriberMgr as a set of pairs of a topic and a client: what its nodes and lists of clients
-- do for a sequence of operations is what the set does.
use mqtt_server.Prelude.{
  ℕ, ◌≡◌, refl, ap, ◌∙◌, List, [], ◌∷◌, Bool, ◌==◌, ◌||◌, if◌then◌else◌, not, ◌&&◌,
}
use mqtt_server.Prelude.Keyed.{same}
use mqtt_server.Broker.{World}
use mqtt_server.Broker.Topics.{subscribe_client, del_client_context}
use mqtt_server.Broker.Topics.Laws.{
  TopicsNoRepeat, is_subscribed, subscribe_client-is_subscribed, del_client_context-is_subscribed,
}

pub data TopicOp : Type 0 where
  subscribe unsubscribe : List ℕ → ℕ → TopicOp

-- What `CSubscriberMgr` does.
abbrev pub apply_op : TopicOp → World → World
apply_op (subscribe t x) w = subscribe_client t x w
apply_op (unsubscribe t x) w = (del_client_context t x w).1

abbrev pub apply_ops : List TopicOp → World → World
apply_ops [] w = w
apply_ops (op ∷ ops) w = apply_ops ops (apply_op op w)

-- A set of subscriptions, and what an operation does to it.
abbrev pub Subscriptions : Type 0
Subscriptions = List ℕ → ℕ → Bool

abbrev pub change : TopicOp → Subscriptions → Subscriptions
change (subscribe t x) s u y = if same t u then s u y || x == y else s u y
change (unsubscribe t x) s u y = if same t u then s u y && not (x == y) else s u y

abbrev pub changes : List TopicOp → Subscriptions → Subscriptions
changes [] s = s
changes (op ∷ ops) s = changes ops (change op s)

abbrev pub subscriptions : World → Subscriptions
subscriptions w u y = is_subscribed y u w

apply_op-refines :
    (op : TopicOp) (w : World)
    → TopicsNoRepeat w
    → TopicsNoRepeat (apply_op op w) × (subscriptions (apply_op op w) ≡ change op (subscriptions w))
apply_op-refines (subscribe t x) w v =
    let (v', h) = subscribe_client-is_subscribed t x w v in (v', λ i u y. h y u i)
apply_op-refines (unsubscribe t x) w v =
    let (v', h) = del_client_context-is_subscribed t x w v in (v', λ i u y. h y u i)

-- Where every topic has every client once, any sequence of `add_client_context` (without the
-- retained message) and `del_client_context` keeps it so, and the subscriptions that it leaves
-- are those that the same changes leave of a set of pairs of a topic and a client.
pub apply_ops-refines :
    (ops : List TopicOp) (w : World)
    → TopicsNoRepeat w
    → TopicsNoRepeat (apply_ops ops w)
      × (subscriptions (apply_ops ops w) ≡ changes ops (subscriptions w))
apply_ops-refines [] w v = (v, refl)
apply_ops-refines (op ∷ ops) w v =
    let (v1, e1) = apply_op-refines op w v in
    let (v2, e2) = apply_ops-refines ops (apply_op op w) v1 in (v2, e2 ∙ ap (changes ops) e1)

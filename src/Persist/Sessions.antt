-- ===== src/Persist/Sessions.antt =====
-- `restore_client_info`: a session comes back with its topics and the messages it was owed.
use mqtt_server.Prelude.{
  ℕ, ◌≡◌, refl, sym, ap, ◌∙◌, arith, List, [], ◌∷◌, ◌++◌, none, some, Bool, false, length,
  get_elem?, set, get_elem?-append_end, get_elem?-set, append-nil, append_assoc, ◌==◌, ◌&&◌, ◌||◌,
  if◌then◌else◌, Option-cases, inl, inr,
}
use mqtt_server.Prelude.Keyed.{same, find_key}
use mqtt_server.Msg.Subscribe.{Topic}
use mqtt_server.MsgStore.{lookup}
use mqtt_server.Broker.{World, Kernel, Context, TopicNode}
use mqtt_server.Broker.ClientIds
use mqtt_server.Broker.Session.{add_send_msg, new_context}
use mqtt_server.Broker.Topics.{subscribe_client}
use mqtt_server.Broker.Topics.Laws.{
  TopicsNoRepeat, is_subscribed, among, subscribe_client-is_subscribed,
}
use mqtt_server.Persist.{Format}
use mqtt_server.Persist.Restore.{TmpDb, queue_msgs, subscribe_topics, restore_client_info}

-- The buffers of the ids that are known, in order.
abbrev pub found : TmpDb → List ℕ → List ℕ
found tmp [] = []
found tmp (id ∷ ids) = elim (lookup id tmp) [ none ↦ found tmp ids | some b ↦ b ∷ found tmp ids ]

-- Nothing but the contexts differs.
record SameBut (w u : World) : Type 0 where
  same_topics : u.topics ≡ w.topics
  same_client_ids : u.client_ids ≡ w.client_ids

queue_msgs-found :
    (tmp : TmpDb) (n : ℕ) (ids : List ℕ) (x : Context) (w : World)
    → get_elem? w.contexts n ≡ some x
    → (u : World) × (queue_msgs tmp n ids w ≡ some (tt, u))
      × (get_elem? u.contexts n
          ≡ some (record x { send_msg_queue = x.send_msg_queue ++ found tmp ids }))
      × SameBut w u
unfolding queue_msgs add_send_msg
queue_msgs-found tmp n [] x w h = (
  w,
  refl,
  h
      ∙ ap (λ (q : List ℕ). some (record x { send_msg_queue = q }))
          (sym (append-nil x.send_msg_queue)),
  record { same_topics = refl; same_client_ids = refl },
)
queue_msgs-found tmp n (id ∷ ids) x w h = elim (Option-cases (lookup id tmp)) [
  | inl gone ↦
      let (u, ran, at, same_but) = queue_msgs-found tmp n ids x w h in
      (u, ground (arith, gone, ran), rw (found, gone) at, same_but)
  | inr (b, here) ↦
      let x1 : Context = record x { send_msg_queue = x.send_msg_queue ++ b ∷ [] } in
      let w1 : World = record w { contexts = set w.contexts n x1 } in
      let (u, ran, at, s) = queue_msgs-found tmp n ids x1 w1 (get_elem?-set w.contexts n x x1 h) in
      (
        u,
        ground (arith, here, h, ran),
        rw (found, here, sym (append_assoc x.send_msg_queue (b ∷ []) (found tmp ids))) at,
        record { same_topics = s.same_topics; same_client_ids = s.same_client_ids },
      )
]

subscribe_client-keep :
    (t : List ℕ) (n : ℕ) (w : World)
    → ((subscribe_client t n w).contexts ≡ w.contexts)
      × ((subscribe_client t n w).client_ids ≡ w.client_ids)
unfolding subscribe_client
subscribe_client-keep t n w = elim (Option-cases (find_key t w.topics)) [
  | inl gone ↦ rw (subscribe_client, gone) (refl, refl)
  | inr (node, here) ↦ rw (subscribe_client, here) (refl, refl)
]

add_client_context-keep :
    (k : List ℕ) (n : ℕ) (w : World)
    → ((ClientIds.add_client_context k n w).1.topics ≡ w.topics)
      × ((ClientIds.add_client_context k n w).1.contexts ≡ w.contexts)
unfolding ClientIds.add_client_context
add_client_context-keep k n w = elim (Option-cases (find_key k w.client_ids)) [
  | inl gone ↦ rw (ClientIds.add_client_context, gone) (refl, refl)
  | inr (node, here) ↦ rw (ClientIds.add_client_context, here) (refl, refl)
]

-- A topic of that name is in the list.
abbrev pub has_name : List ℕ → List Topic → Bool
has_name t [] = false
has_name t (u ∷ us) = same u.topic_name t || has_name t us

subscribe_topics-is_subscribed :
    (topics : List Topic) (n : ℕ) (w : World)
    → TopicsNoRepeat w
    → TopicsNoRepeat (subscribe_topics topics n w)
      × ((subscribe_topics topics n w).contexts ≡ w.contexts)
      × ((subscribe_topics topics n w).client_ids ≡ w.client_ids)
      × ((y : ℕ) (t : List ℕ)
          → is_subscribed y t (subscribe_topics topics n w)
            ≡ (is_subscribed y t w || (has_name t topics && n == y)))
unfolding subscribe_topics
subscribe_topics-is_subscribed [] n w v = (v, refl, refl, λ y t. ground arith)
subscribe_topics-is_subscribed (u ∷ us) n w v =
    let (v1, h1) = subscribe_client-is_subscribed u.topic_name n w v in
    let (c1, i1) = subscribe_client-keep u.topic_name n w in
    let (v2, c2, i2, h2) =
      subscribe_topics-is_subscribed us n (subscribe_client u.topic_name n w) v1 in
    (v2, c2 ∙ c1, i2 ∙ i1, λ y t. ground (arith, h1 y t, h2 y t))

-- `restore_client_info` on a chunk that msgpack unpacks to the session `x`, where every topic has
-- every client once: it succeeds, and the new context has the fields of `x` and in its queue the
-- buffers of the ids of `send_msg_ids` that were restored, in order. The client id of `x` has the
-- new context, unless it had one; every other id has the one it had. The new context is added to
-- the clients of the topics of `x` and of no other topic, and no other client is added or lost.
pub restore_client_info-session :
    (sys : Kernel) (format : Format) (buf : List ℕ) (tmp : TmpDb) (x : Context) (w : World)
    → format.unpack_context buf (new_context sys none) ≡ some x
    → TopicsNoRepeat w
    → (u : World) × (restore_client_info sys format buf tmp w ≡ some (tt, u))
      × (get_elem? u.contexts (length w.contexts)
          ≡ some (record x { send_msg_queue = x.send_msg_queue ++ found tmp x.send_msg_ids }))
      × ((j : List ℕ)
          → ClientIds.find_client_context j u ≡ (
              if same x.client_id j
              then elim (ClientIds.find_client_context j w) [
                | none ↦ some (length w.contexts)
                | some y ↦ some y
              ]
              else ClientIds.find_client_context j w))
      × ((y : ℕ) (t : List ℕ)
          → is_subscribed y t u
            ≡ (is_subscribed y t w || (has_name t x.subcribe_topics && length w.contexts == y)))
unfolding restore_client_info ClientIds.find_client_context
restore_client_info-session sys format buf tmp x w unpacked v =
    let n = length w.contexts in
    let w1 : World = record w { contexts = w.contexts ++ x ∷ [] } in
    let w2 : World = (ClientIds.add_client_context x.client_id n w1).1 in
    let w3 : World = subscribe_topics x.subcribe_topics n w2 in
    let (topics2, contexts2) = add_client_context-keep x.client_id n w1 in
    let v2 : TopicsNoRepeat w2 = λ t node e. v t node (ap (find_key t) (sym topics2) ∙ e) in
    let (_, contexts3, ids3, subs) = subscribe_topics-is_subscribed x.subcribe_topics n w2 v2 in
    let here : get_elem? w3.contexts n ≡ some x =
      ap (λ (cs : List Context). get_elem? cs n) (contexts3 ∙ contexts2)
      ∙ get_elem?-append_end w.contexts x in
    let (u, ran, at, s) = queue_msgs-found tmp n x.send_msg_ids x w3 here in
    (
      u,
      ground (arith, unpacked, ran),
      at,
      λ j.
          ap (find_key j) (s.same_client_ids ∙ ids3)
          ∙ ClientIds.find-add_client_context x.client_id j n w1,
      λ y t.
          let named = has_name t x.subcribe_topics && n == y in
          ap (λ (ts : List (List ℕ × TopicNode)). among y (find_key t ts)) s.same_topics
          ∙ subs y t
          ∙ ap (λ (ts : List (List ℕ × TopicNode)). among y (find_key t ts) || named) topics2,
    )

-- ===== src/Broker/Close/Laws.antt =====
-- What is left of a client once its connection is closed.
use mqtt_server.Prelude.{
  ℕ, ◌≡◌, refl, ap, ◌∙◌, arith, List, [], ◌∷◌, Option, none, some, Bool, true, false, get_elem?,
  set, All, Bool-cases, inl, inr, not, ◌&&◌, ◌==◌,
}
use mqtt_server.Prelude.Keyed.{same, same_refl, find_key}
use mqtt_server.Msg.Subscribe.{Topic}
use mqtt_server.Broker.{World, Context, Connection, TopicNode, live}
use mqtt_server.Broker.ClientIds
use mqtt_server.Broker.ClientIds.{find-del_client_context}
use mqtt_server.Broker.Topics
use mqtt_server.Broker.Topics.Laws.{
  TopicsNoRepeat, is_subscribed, among, del_client_context-is_subscribed,
}
use mqtt_server.Broker.Close.{leave_topics, end_session, handle_close}

eq_refl : (x : ℕ) → (x == x) ≡ true
eq_refl x = ground arith

and-not-true : (b c : Bool) → c ≡ true → (b && not c) ≡ false
and-not-true true c e = ap not e
and-not-true false c e = refl

-- Once a client is out of a topic, no further removal brings it back.
stays_out :
    (t u : List ℕ) (x : ℕ) (w : World)
    → TopicsNoRepeat w
    → is_subscribed x u w ≡ false
    → is_subscribed x u (Topics.del_client_context t x w).1 ≡ false
stays_out t u x w v out =
    let (_, k) = del_client_context-is_subscribed t x w v in
    k x u ∙ elim (Bool-cases (same t u)) [ inl e ↦ rw (e, out) refl | inr e ↦ rw (e, out) refl ]

leave_topics-out :
    (ts : List Topic) (u : List ℕ) (x : ℕ) (w : World)
    → TopicsNoRepeat w
    → is_subscribed x u w ≡ false
    → is_subscribed x u (leave_topics ts x w) ≡ false
unfolding leave_topics
leave_topics-out [] u x w v out = out
leave_topics-out (t ∷ ts) u x w v out =
    let (v', _) = del_client_context-is_subscribed t.topic_name x w v in
    leave_topics-out ts u x (Topics.del_client_context t.topic_name x w).1 v'
      (stays_out t.topic_name u x w v out)

leave_topics-All :
    (ts : List Topic) (x : ℕ) (w : World)
    → TopicsNoRepeat w
    → All (λ t. is_subscribed x t.topic_name (leave_topics ts x w) ≡ false) ts
unfolding leave_topics
leave_topics-All [] x w v = tt
leave_topics-All (t ∷ ts) x w v =
    let (v', k) = del_client_context-is_subscribed t.topic_name x w v in
    let w' = (Topics.del_client_context t.topic_name x w).1 in
    let out : is_subscribed x t.topic_name w' ≡ false =
      k x t.topic_name
      ∙ rw (same_refl t.topic_name)
          (and-not-true (is_subscribed x t.topic_name w) (x == x) (eq_refl x)) in
    (leave_topics-out ts t.topic_name x w' v' out, leave_topics-All ts x w' v')

-- Forgetting a client id changes no topic.
del_client_id-topics :
    (k : List ℕ) (w : World) → (ClientIds.del_client_context k w).1.topics ≡ w.topics
unfolding ClientIds.del_client_context
del_client_id-topics k w = ground arith

-- With a clean session the client id has no context any more and the client is in none of the
-- topics of its list; otherwise the topics and the client ids are as they were.
abbrev pub Ended :
    Bool → (x : ℕ) → Context → World → List (List ℕ × TopicNode) → List (List ℕ × ℕ) → Type 0
Ended true x ctx w topics client_ids =
    (find_key ctx.client_id client_ids ≡ none)
    × All (λ t. among x (find_key t.topic_name topics) ≡ false) ctx.subcribe_topics
Ended false x ctx w topics client_ids = (topics ≡ w.topics) × (client_ids ≡ w.client_ids)

end_session-Ended :
    (clean : Bool) (x : ℕ) (ctx : Context) (w : World)
    → TopicsNoRepeat w
    → let u = end_session clean ctx.subcribe_topics ctx.client_id x w in
      Ended clean x ctx w u.topics u.client_ids
unfolding end_session ClientIds.find_client_context
end_session-Ended false x ctx w v = (refl, refl)
end_session-Ended true x ctx w v =
    let w1 = leave_topics ctx.subcribe_topics x w in
    (
      find-del_client_context ctx.client_id ctx.client_id w1 ∙ rw (same_refl ctx.client_id) refl,
      rw (del_client_id-topics ctx.client_id w1) (leave_topics-All ctx.subcribe_topics x w v),
    )

-- What the end of a session leaves alone.
Kept : World → World → Type 0
Kept w v =
    (v.connections ≡ w.connections)
    × (v.contexts ≡ w.contexts)
    × (v.wire ≡ w.wire)
    × (v.now ≡ w.now)

del_topic-Kept : (t : List ℕ) (x : ℕ) (w : World) → Kept w (Topics.del_client_context t x w).1
unfolding Kept Topics.del_client_context
del_topic-Kept t x w = (ground arith, ground arith, ground arith, ground arith)

leave_topics-Kept : (ts : List Topic) (x : ℕ) (w : World) → Kept w (leave_topics ts x w)
unfolding Kept leave_topics
leave_topics-Kept [] x w = (refl, refl, refl, refl)
leave_topics-Kept (t ∷ ts) x w =
    let (a, b, d, e) = del_topic-Kept t.topic_name x w in
    let (a', b', d', e') = leave_topics-Kept ts x (Topics.del_client_context t.topic_name x w).1 in
    (a' ∙ a, b' ∙ b, d' ∙ d, e' ∙ e)

end_session-Kept :
    (clean : Bool) (ts : List Topic) (id : List ℕ) (x : ℕ) (w : World)
    → Kept w (end_session clean ts id x w)
unfolding Kept end_session ClientIds.del_client_context
end_session-Kept false ts id x w = (refl, refl, refl, refl)
end_session-Kept true ts id x w =
    let (a, b, d, e) = leave_topics-Kept ts x w in
    (ground (arith, a), ground (arith, b), ground (arith, d), ground (arith, e))

-- The world that `handle_close` leaves behind.
abbrev pub Closed : (c x : ℕ) → Context → World → World → Type 0
Closed c x ctx w w' =
    (w'.connections ≡ set w.connections c none)
    × (w'.contexts ≡ set w.contexts x (record ctx { close_time = w.now; mqtt_connection = none }))
    × (w'.wire ≡ w.wire)

-- Where every topic has every client once, `handle_close` of a connection with a context has a
-- result: the connection is gone, its context points to none, and nothing was sent. With a clean
-- session the client id has no context any more and the client is in none of the topics of its
-- list; otherwise the topics and the client ids are as they were.
pub handle_close-Closed :
    (c x : ℕ) (conn : Connection) (ctx : Context) (w : World)
    → live (get_elem? w.connections c) ≡ some conn
    → conn.client_context ≡ some x
    → get_elem? w.contexts x ≡ some ctx
    → TopicsNoRepeat w
    → (w' : World) × (handle_close c w ≡ some (tt, w'))
      × Closed c x ctx w w'
      × Ended ctx.clean_session x ctx w w'.topics w'.client_ids
unfolding handle_close Kept
handle_close-Closed c x conn ctx w h hc hx v =
    let u = end_session ctx.clean_session ctx.subcribe_topics ctx.client_id x w in
    let (a, b, d, e) = end_session-Kept ctx.clean_session ctx.subcribe_topics ctx.client_id x w in
    let w' : World = record u {
      contexts = set u.contexts x (record ctx { close_time = u.now; mqtt_connection = none });
      connections = set u.connections c none;
    } in
    let closed : Closed c x ctx w w' = (
      ap (λ (cs : List (Option Connection)). set cs c none) a,
      (λ i. set (b i) x (record ctx { close_time = e i; mqtt_connection = none })),
      d,
    ) in
    (w', ground (arith, h, hc, hx), closed, end_session-Ended ctx.clean_session x ctx w v)

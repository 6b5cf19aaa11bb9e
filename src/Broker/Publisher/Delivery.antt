-- ===== src/Broker/Publisher/Delivery.antt =====
-- What a publisher's message does to all subscribers of its topic, connected or not, where the
-- kernel takes what it is given.
use mqtt_server.Prelude.{
  ℕ, ◌≤◌, ◌≡◌, ◌≢◌, inl, inr, refl, sym, ap, ap₂, ◌∙◌, arith, List, [], ◌∷◌, ◌++◌, Option, none,
  some, true, false, length, get_elem?, set, get_elem?-set, get_elem?-set_other, All, Bool-cases,
  ◌==◌, ==_iff, append-nil, append_assoc,
}
use mqtt_server.Prelude.Keyed.{find_key, find-put_same}
use mqtt_server.Mbuf.{Mbuf, contents}
use mqtt_server.Mbuf.Laws.{IsValid}
use mqtt_server.MsgStore.{msg_stat, start_stat, end_stat}
use mqtt_server.Broker.{World, Kernel, Context, TopicNode}
use mqtt_server.Broker.Topics.{put_topic, has_client, find_client_context}
use mqtt_server.Broker.Topics.Laws.{NoRepeat}
use mqtt_server.Broker.Sender.{would_block}
use mqtt_server.Broker.Publisher.{publish_clients, update_stat, publish, begin_stat, finish_stat}
use mqtt_server.Broker.Publisher.Laws.{
  queue_of, queue_of-queued, queued, one_if, one_if-or, has_client-All,
}
use mqtt_server.Broker.Sender.Whole.{TakesWhole, Ready}
use mqtt_server.Broker.Publisher.Served.{
  Reach, one_write, connection_of, deliveries, publish_client-Served,
}

All-Reach :
    (x : ℕ) (xs : List ℕ) (w v : World)
    → ((y : ℕ) → x ≢ y → Reach w y → Reach v y)
    → has_client x xs ≡ false
    → All (Reach w) xs
    → All (Reach v) xs
All-Reach x [] w v keep new _ = tt
All-Reach x (y ∷ ys) w v keep new (reach, reaches) = (
  keep y (λ e. ground (arith, new, e)) reach,
  All-Reach x ys w v keep (ground (arith, new)) reaches,
)

connection_of-some :
    (cs : List Context) (x : ℕ) (ctx : Context)
    → get_elem? cs x ≡ some ctx
    → connection_of cs x ≡ ctx.mqtt_connection
connection_of-some cs x ctx h =
    ap
      (λ (o : Option Context). elim o as (λ _. Option ℕ) [
        | none ↦ none
        | some k ↦ k.mqtt_connection
      ])
      h

-- A message that is kept does not change who is connected.
deliveries-queued :
    (cs : List Context) (x b : ℕ) (ctx : Context) (ys bytes : List ℕ)
    → get_elem? cs x ≡ some ctx
    → deliveries (set cs x (queued b ctx)) ys bytes ≡ deliveries cs ys bytes
deliveries-queued cs x b ctx [] bytes h = refl
deliveries-queued cs x b ctx (y ∷ ys) bytes h =
    ap₂ (λ (o : Option ℕ) (l : List (ℕ × List ℕ)). one_write o bytes ++ l)
      (elim (Bool-cases (x == y)) [
        | inl e ↦
            let same : x ≡ y = (==_iff x y).0 e in
            ap (connection_of (set cs x (queued b ctx))) (sym same)
            ∙ connection_of-some (set cs x (queued b ctx)) x (queued b ctx)
                (get_elem?-set cs x ctx (queued b ctx) h)
            ∙ sym (connection_of-some cs x ctx h)
            ∙ ap (connection_of cs) same
        | inr e ↦
            ap
              (λ (o : Option Context). elim o as (λ _. Option ℕ) [
                | none ↦ none
                | some k ↦ k.mqtt_connection
              ])
              (get_elem?-set_other cs x y (queued b ctx) (λ same. ground arith))
      ])
      (deliveries-queued cs x b ctx ys bytes h)

publish_clients-delivers :
    (sys : Kernel) (topic xs clients : List ℕ) (b i : ℕ) (m : Mbuf) (w : World)
    → TakesWhole sys
    → Ready m b w
    → find_client_context topic w ≡ some clients
    → All (λ y. has_client y clients ≡ true) xs
    → All (Reach w) xs
    → NoRepeat xs
    → (v : World) × (publish_clients sys topic xs b i w ≡ some (length xs, v))
      × (v.wire ≡ w.wire ++ deliveries w.contexts xs (contents m))
      × ((y : ℕ) → queue_of y v.contexts ≡ queue_of y w.contexts ++ one_if (has_client y xs) b)
unfolding publish_clients find_client_context
publish_clients-delivers sys topic [] clients b i m w takes r known here reach once =
    (w, refl, sym (append-nil w.wire), λ y. sym (append-nil (queue_of y w.contexts)))
publish_clients-delivers sys topic (x ∷ xs) clients b i m w takes r known (at, here)
      (reach, reaches) (new, once) =
    let (ctx, h, _) = reach in
    let (w1, served, s) = publish_client-Served sys x b i m w takes r reach in
    let known1 : find_client_context topic w1 ≡ some clients =
      ap
        (λ (ts : List (List ℕ × TopicNode)). elim (find_key topic ts) as (λ _. Option (List ℕ)) [
          | none ↦ none
          | some node ↦ some node.clients
        ])
        s.topics
      ∙ known in
    let (v, ran, wires, queues) =
      publish_clients-delivers sys topic xs clients b i m w1 takes s.ready known1 here
        (All-Reach x xs w w1 s.others new reaches) once in
    let bytes = contents m in
    (
      v,
      ground (arith, known, known1, at, served, ran),
      wires
          ∙ ap₂ ◌++◌
              (s.wire
                ∙ ap (λ (o : Option ℕ). w.wire ++ one_write o bytes)
                    (sym (connection_of-some w.contexts x ctx h)))
              (ap (λ (cs : List Context). deliveries cs xs bytes) s.contexts
                ∙ deliveries-queued w.contexts x b ctx xs bytes h)
          ∙ append_assoc w.wire (one_write (connection_of w.contexts x) bytes)
              (deliveries w.contexts xs bytes),
      λ y.
          queues y
          ∙ ap (λ (cs : List Context). queue_of y cs ++ one_if (has_client y xs) b) s.contexts
          ∙ ap (λ (l : List ℕ). l ++ one_if (has_client y xs) b)
              (queue_of-queued w.contexts x y b ctx h)
          ∙ one_if-or (x == y) (has_client y xs) (queue_of y w.contexts) b
              (λ e. ap (λ (z : ℕ). has_client z xs) (sym ((==_iff x y).0 e)) ∙ new),
    )

-- A publish message without the retain flag, in a valid buffer with bytes, on a topic whose
-- clients stand once and have no connection or an idle one of their own, where the kernel takes
-- what it is given and `errno` is not a stale EAGAIN or EINTR, has a result: it answers the number
-- of the clients; every client that is connected, and no other, is sent the whole message, once,
-- in the order of the clients; and the message stands at the end of those that wait for each of
-- them, and of no other client.
pub publish-delivers :
    (sys : Kernel) (topic payload : List ℕ) (b : ℕ) (node : TopicNode) (m : Mbuf) (w : World)
    → TakesWhole sys
    → find_key topic w.topics ≡ some node
    → get_elem? w.mbufs b ≡ some m
    → IsValid m
    → 1 ≤ length (contents m)
    → would_block w.errno ≡ false
    → All (Reach w) node.clients
    → NoRepeat node.clients
    → (v : World) × (publish sys topic b false payload w ≡ some (length node.clients, v))
      × (v.wire ≡ w.wire ++ deliveries w.contexts node.clients (contents m))
      × ((y : ℕ)
          → queue_of y v.contexts ≡ queue_of y w.contexts ++ one_if (has_client y node.clients) b)
unfolding publish begin_stat finish_stat find_client_context
publish-delivers sys topic payload b node m w takes found hb valid some_bytes he reach once =
    let w0 : World = put_topic topic node w in
    let i = (msg_stat w0.stats m.msg_id).0 in
    let w1 : World =
      update_stat i (λ u s. start_stat s u.now)
        (record w0 { stats = (msg_stat w0.stats m.msg_id).1 }) in
    let known : find_client_context topic w1 ≡ some node.clients =
      ap
        (λ (o : Option TopicNode). elim o as (λ _. Option (List ℕ)) [
          | none ↦ none
          | some n ↦ some n.clients
        ])
        (find-put_same topic node w.topics) in
    let r : Ready m b w1 = record {
      here = hb;
      valid = valid;
      some_bytes = some_bytes;
      fresh_errno = he;
    } in
    let (v, ran, wires, queues) =
      publish_clients-delivers sys topic node.clients node.clients b i m w1 takes r known
        (has_client-All node.clients) reach once in
    (update_stat i (λ u s. end_stat s u.now) v, ground (arith, found, hb, ran), wires, queues)

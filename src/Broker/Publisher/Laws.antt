-- ===== src/Broker/Publisher/Laws.antt =====
-- What a publisher's message does to the sessions of subscribers that are not connected.
use mqtt_server.Prelude.{
  ℕ, ◌≡◌, refl, sym, ap, ◌∙◌, arith, List, [], ◌∷◌, ◌++◌, Option, none, some, Bool, true, false,
  length, get_elem?, set, get_elem?-set, get_elem?-set_other, All, Bool-cases, inl, inr, ◌==◌,
  ==_iff, ◌||◌, append-nil,
}
use mqtt_server.Prelude.Keyed.{find_key, find-put_same}
use mqtt_server.Mbuf.{Mbuf}
use mqtt_server.MsgStore.{msg_stat, start_stat, end_stat}
use mqtt_server.Broker.{World, Kernel, Context, TopicNode}
use mqtt_server.Broker.Session.{add_send_msg}
use mqtt_server.Broker.Topics.{put_topic, has_client, find_client_context}
use mqtt_server.Broker.Topics.Laws.{NoRepeat}
use mqtt_server.Broker.Publisher.{
  publish_client, publish_clients, update_stat, add_offline, publish, begin_stat, finish_stat,
}

-- The messages that wait in a session.
abbrev pub queue_of : ℕ → List Context → List ℕ
queue_of y cs = elim (get_elem? cs y) [ none ↦ [] | some c ↦ c.send_msg_queue ]

-- The client has a session and no connection.
abbrev pub IsOffline : List Context → ℕ → Type 0
IsOffline cs y = (c : Context) × (get_elem? cs y ≡ some c) × (c.mqtt_connection ≡ none)

abbrev pub one_if : Bool → ℕ → List ℕ
one_if true b = b ∷ []
one_if false b = []

-- One more message in the session of `x`.
abbrev pub queued : ℕ → Context → Context
queued b c = record c { send_msg_queue = c.send_msg_queue ++ b ∷ [] }

queued-IsOffline :
    (cs : List Context) (x y b : ℕ) (c : Context)
    → get_elem? cs x ≡ some c
    → c.mqtt_connection ≡ none
    → IsOffline cs y
    → IsOffline (set cs x (queued b c)) y
queued-IsOffline cs x y b c h off (d, hd, offd) = elim (Bool-cases (x == y)) [
  | inl e ↦
      let same : x ≡ y = (==_iff x y).0 e in
      (
        queued b c,
        ap (get_elem? (set cs x (queued b c))) (sym same) ∙ get_elem?-set cs x c (queued b c) h,
        off,
      )
  | inr e ↦ (d, get_elem?-set_other cs x y (queued b c) (λ same. ground arith) ∙ hd, offd)
]

pub queue_of-queued :
    (cs : List Context) (x y b : ℕ) (c : Context)
    → get_elem? cs x ≡ some c
    → queue_of y (set cs x (queued b c)) ≡ queue_of y cs ++ one_if (x == y) b
queue_of-queued cs x y b c h = elim (Bool-cases (x == y)) [
  | inl e ↦
      let same : x ≡ y = (==_iff x y).0 e in
      let here : get_elem? (set cs x (queued b c)) y ≡ some (queued b c) =
        ap (get_elem? (set cs x (queued b c))) (sym same) ∙ get_elem?-set cs x c (queued b c) h in
      let there : get_elem? cs y ≡ some c = ap (get_elem? cs) (sym same) ∙ h in
      ground (arith, here, there, e)
  | inr e ↦
      let other = get_elem?-set_other cs x y (queued b c) (λ same. ground arith) in
      ground (arith, other, e, append-nil (queue_of y cs))
]

pub publish_client-offline :
    (sys : Kernel) (x b i : ℕ) (c : Context) (w : World)
    → get_elem? w.contexts x ≡ some c
    → c.mqtt_connection ≡ none
    → publish_client sys x b i w
      ≡ some (tt, update_stat i add_offline (record w { contexts = set w.contexts x (queued b c) }))
unfolding publish_client add_send_msg
publish_client-offline sys x b i c w h off =
    ground (arith, h, off, get_elem?-set w.contexts x c (queued b c) h)

All-IsOffline :
    (cs : List Context) (x b : ℕ) (c : Context) (xs : List ℕ)
    → get_elem? cs x ≡ some c
    → c.mqtt_connection ≡ none
    → All (IsOffline cs) xs
    → All (IsOffline (set cs x (queued b c))) xs
All-IsOffline cs x b c [] h off a = tt
All-IsOffline cs x b c (y ∷ ys) h off (o, a) =
    (queued-IsOffline cs x y b c h off o, All-IsOffline cs x b c ys h off a)

pub one_if-or :
    (p q : Bool) (l : List ℕ) (b : ℕ)
    → (p ≡ true → q ≡ false)
    → (l ++ one_if p b) ++ one_if q b ≡ l ++ one_if (p || q) b
one_if-or true true l b h = let e = h refl in cc
one_if-or true false l b h = append-nil (l ++ b ∷ [])
one_if-or false q l b h = ap (λ (k : List ℕ). k ++ one_if q b) (append-nil l)

-- A publish message for clients that are subscribed, are not connected and stand once in the list
-- has a result: it serves all of them, writes to no connection, and stands at the end of the
-- messages that wait for each of them, and of no other client.
pub publish_clients-offline :
    (sys : Kernel) (topic xs clients : List ℕ) (b i : ℕ) (w : World)
    → find_client_context topic w ≡ some clients
    → All (λ y. has_client y clients ≡ true) xs
    → All (IsOffline w.contexts) xs
    → NoRepeat xs
    → (v : World) × (publish_clients sys topic xs b i w ≡ some (length xs, v))
      × (v.wire ≡ w.wire)
      × ((y : ℕ) → queue_of y v.contexts ≡ queue_of y w.contexts ++ one_if (has_client y xs) b)
unfolding publish_clients find_client_context
publish_clients-offline sys topic [] clients b i w found here off once =
    (w, refl, refl, λ y. sym (append-nil (queue_of y w.contexts)))
publish_clients-offline sys topic (x ∷ xs) clients b i w found (at, here) ((c, h, offc), off)
      (new, once) =
    let w1 : World =
      update_stat i add_offline (record w { contexts = set w.contexts x (queued b c) }) in
    let (v, ran, quiet, queues) =
      publish_clients-offline sys topic xs clients b i w1 found here
        (All-IsOffline w.contexts x b c xs h offc off) once in
    (
      v,
      ground (arith, found, at, publish_client-offline sys x b i c w h offc, ran),
      quiet,
      λ y.
          queues y
          ∙ ap (λ (l : List ℕ). l ++ one_if (has_client y xs) b)
              (queue_of-queued w.contexts x y b c h)
          ∙ one_if-or (x == y) (has_client y xs) (queue_of y w.contexts) b
              (λ e. ap (λ (z : ℕ). has_client z xs) (sym ((==_iff x y).0 e)) ∙ new),
    )

has_client-grow :
    (x : ℕ) (xs ys : List ℕ)
    → All (λ y. has_client y xs ≡ true) ys
    → All (λ y. has_client y (x ∷ xs) ≡ true) ys
has_client-grow x xs [] a = tt
has_client-grow x xs (y ∷ ys) (h, a) = (ground (arith, h), has_client-grow x xs ys a)

pub has_client-All : (xs : List ℕ) → All (λ y. has_client y xs ≡ true) xs
has_client-All [] = tt
has_client-All (x ∷ xs) = (ground arith, has_client-grow x xs xs (has_client-All xs))

-- A publish message without the retain flag, on a topic whose clients stand once and are not
-- connected, has a result: it answers their number, writes to no connection, and stands at the
-- end of the messages that wait for each of them, and of no other client.
pub publish-offline :
    (sys : Kernel) (topic payload : List ℕ) (b : ℕ) (node : TopicNode) (mbuf : Mbuf) (w : World)
    → find_key topic w.topics ≡ some node
    → get_elem? w.mbufs b ≡ some mbuf
    → All (IsOffline w.contexts) node.clients
    → NoRepeat node.clients
    → (v : World) × (publish sys topic b false payload w ≡ some (length node.clients, v))
      × (v.wire ≡ w.wire)
      × ((y : ℕ)
          → queue_of y v.contexts ≡ queue_of y w.contexts ++ one_if (has_client y node.clients) b)
unfolding publish begin_stat finish_stat find_client_context
publish-offline sys topic payload b node mbuf w found hb off once =
    let w0 : World = put_topic topic node w in
    let i = (msg_stat w0.stats mbuf.msg_id).0 in
    let w1 : World =
      update_stat i (λ u s. start_stat s u.now)
        (record w0 { stats = (msg_stat w0.stats mbuf.msg_id).1 }) in
    let known : find_client_context topic w1 ≡ some node.clients =
      ap
        (λ (o : Option TopicNode). elim o as (λ _. Option (List ℕ)) [
          | none ↦ none
          | some n ↦ some n.clients
        ])
        (find-put_same topic node w.topics) in
    let (v, ran, quiet, queues) =
      publish_clients-offline sys topic node.clients node.clients b i w1 known
        (has_client-All node.clients) off once in
    (update_stat i (λ u s. end_stat s u.now) v, ground (arith, found, hb, ran), quiet, queues)

-- ===== src/Broker/Topics/Laws.antt =====
-- The clients of a topic form a set that `add_client` and `del_client` extend and shrink.
use mqtt_server.Prelude.{
  ℕ, ◌≡◌, refl, sym, ap, ◌∙◌, arith, List, [], ◌∷◌, ◌++◌, Option, none, some, Bool, true, false,
  ◌==◌, ◌||◌, if◌then◌else◌, Bool-cases, Option-cases, inl, inr, not, ◌&&◌, subst,
}
use mqtt_server.Prelude.Keyed.{same, find_key, put_key, same→eq, find-put_same, find-put_other}
use mqtt_server.Broker.{World, TopicNode}
use mqtt_server.Broker.Topics.{
  has_client, erase_client, add_client, del_client, subscribe_client, del_client_context,
  new_topic_node, put_topic,
}

-- Every client stands once.
abbrev pub NoRepeat : List ℕ → Type 0
NoRepeat [] = Unit
NoRepeat (x ∷ xs) = (has_client x xs ≡ false) × NoRepeat xs

has_client-snoc :
    (y x : ℕ) (xs : List ℕ) → has_client y (xs ++ x ∷ []) ≡ (has_client y xs || x == y)
has_client-snoc y x [] = ground arith
has_client-snoc y x (z ∷ xs) = ground (arith, has_client-snoc y x xs)

has_client-present :
    (y x : ℕ) (xs : List ℕ) → has_client x xs ≡ true → has_client y xs ≡ (has_client y xs || x == y)
has_client-present y x [] h = cc
has_client-present y x (z ∷ xs) h = ground (arith, has_client-present y x xs)

has_client-missing :
    (y x : ℕ) (xs : List ℕ)
    → has_client x xs ≡ false
    → has_client y xs ≡ (has_client y xs && not (x == y))
has_client-missing y x [] h = refl
has_client-missing y x (z ∷ xs) h = ground (arith, has_client-missing y x xs)

NoRepeat-snoc :
    (x : ℕ) (xs : List ℕ) → has_client x xs ≡ false → NoRepeat xs → NoRepeat (xs ++ x ∷ [])
NoRepeat-snoc x [] h n = (refl, tt)
NoRepeat-snoc x (y ∷ xs) h (a, n) =
    (ground (arith, has_client-snoc y x xs), NoRepeat-snoc x xs (ground arith) n)

has_client-erase :
    (y x : ℕ) (xs : List ℕ)
    → NoRepeat xs
    → has_client y (erase_client x xs) ≡ (has_client y xs && not (x == y))
has_client-erase y x [] n = refl
has_client-erase y x (z ∷ xs) (a, n) = ground (arith, has_client-erase y x xs n)

NoRepeat-erase : (x : ℕ) (xs : List ℕ) → NoRepeat xs → NoRepeat (erase_client x xs)
NoRepeat-erase x [] n = tt
NoRepeat-erase x (z ∷ xs) (a, n) = elim (Bool-cases (z == x)) [
  | inl e ↦ rw e n
  | inr e ↦ rw e (ground (arith, has_client-erase z x xs n), NoRepeat-erase x xs n)
]

-- `add_client` keeps every client once, adds its client and no other, and answers whether the
-- client was new.
pub add_client-NoRepeat :
    (x : ℕ) (node : TopicNode)
    → NoRepeat node.clients
    → NoRepeat (add_client x node).1.clients
      × ((add_client x node).0 ≡ not (has_client x node.clients))
      × ((y : ℕ)
          → has_client y (add_client x node).1.clients ≡ (has_client y node.clients || x == y))
unfolding add_client
add_client-NoRepeat x node n = elim (Bool-cases (has_client x node.clients)) [
  | inl here ↦ rw here (n, refl, λ y. has_client-present y x node.clients here)
  | inr gone ↦
      rw gone (NoRepeat-snoc x node.clients gone n, refl, λ y. has_client-snoc y x node.clients)
]

-- `del_client` keeps every client once, takes its client away and no other, and answers whether
-- the client was there.
pub del_client-NoRepeat :
    (x : ℕ) (node : TopicNode)
    → NoRepeat node.clients
    → NoRepeat (del_client x node).1.clients
      × ((del_client x node).0 ≡ has_client x node.clients)
      × ((y : ℕ)
          → has_client y (del_client x node).1.clients
            ≡ (has_client y node.clients && not (x == y)))
unfolding del_client
del_client-NoRepeat x node n = elim (Bool-cases (has_client x node.clients)) [
  | inl here ↦
      rw here (NoRepeat-erase x node.clients n, refl, λ y. has_client-erase y x node.clients n)
  | inr gone ↦ rw gone (n, refl, λ y. has_client-missing y x node.clients gone)
]

-- Whether a client is among those of a topic.
abbrev pub among : ℕ → Option TopicNode → Bool
among y none = false
among y (some node) = has_client y node.clients

abbrev pub is_subscribed : ℕ → List ℕ → World → Bool
is_subscribed y u w = among y (find_key u w.topics)

-- Every topic keeps every client once.
abbrev pub TopicsNoRepeat : World → Type 0
TopicsNoRepeat w =
    (t : List ℕ) (node : TopicNode) → find_key t w.topics ≡ some node → NoRepeat node.clients

put_node :
    (t u : List ℕ) (y : ℕ) (node : TopicNode) (w : World)
    → is_subscribed y u (put_topic t node w)
      ≡ (if same t u then has_client y node.clients else is_subscribed y u w)
put_node t u y node w = elim (Bool-cases (same t u)) [
  | inl e ↦ rw (e, sym (same→eq t u e)) (ap (among y) (find-put_same t node w.topics))
  | inr e ↦ rw e (ap (among y) (find-put_other t u node w.topics e))
]

pub put_node-NoRepeat :
    (t : List ℕ) (node : TopicNode) (w : World)
    → NoRepeat node.clients
    → TopicsNoRepeat w
    → TopicsNoRepeat (put_topic t node w)
put_node-NoRepeat t node w n v u found e = elim (Bool-cases (same t u)) [
  | inl s ↦
      let same_node : some node ≡ some found =
        sym (find-put_same t node w.topics)
        ∙ ap (λ (k : List ℕ). find_key k (put_key t node w.topics)) (same→eq t u s)
        ∙ e in
      subst
        (λ (o : Option TopicNode). elim o as (λ _. Type 0) [
          | none ↦ Unit
          | some z ↦ NoRepeat z.clients
        ])
        same_node n
  | inr s ↦ v u found (sym (find-put_other t u node w.topics s) ∙ e)
]

-- What a new node for one topic changes of all.
put_node-is_subscribed :
    (t u : List ℕ) (y : ℕ) (node : TopicNode) (w : World) (f : Bool → Bool)
    → has_client y node.clients ≡ f (is_subscribed y t w)
    → is_subscribed y u (put_topic t node w)
      ≡ (if same t u then f (is_subscribed y u w) else is_subscribed y u w)
put_node-is_subscribed t u y node w f h = put_node t u y node w ∙ elim (Bool-cases (same t u)) [
  | inl e ↦ rw e (h ∙ ap (λ (k : List ℕ). f (is_subscribed y k w)) (same→eq t u e))
  | inr e ↦ rw e refl
]

-- Where every topic has every client once, `add_client_context` keeps it so, adds its client to
-- the clients of its topic, and changes those of no other topic.
pub subscribe_client-is_subscribed :
    (t : List ℕ) (x : ℕ) (w : World)
    → TopicsNoRepeat w
    → TopicsNoRepeat (subscribe_client t x w)
      × ((y : ℕ) (u : List ℕ)
          → is_subscribed y u (subscribe_client t x w)
            ≡ (if same t u then is_subscribed y u w || x == y else is_subscribed y u w))
unfolding subscribe_client
subscribe_client-is_subscribed t x w v = elim (Option-cases (find_key t w.topics)) [
  | inl gone ↦
      let node' = (add_client x new_topic_node).1 in
      let (n, _, m) = add_client-NoRepeat x new_topic_node tt in
      rw (subscribe_client, gone)
        (
          put_node-NoRepeat t node' w n v,
          λ y u.
              put_node-is_subscribed t u y node' w (λ b. b || x == y)
                (m y ∙ ap (λ (o : Option TopicNode). among y o || x == y) (sym gone)),
        )
  | inr (node, here) ↦
      let node' = (add_client x node).1 in
      let (n, _, m) = add_client-NoRepeat x node (v t node here) in
      rw (subscribe_client, here)
        (
          put_node-NoRepeat t node' w n v,
          λ y u.
              put_node-is_subscribed t u y node' w (λ b. b || x == y)
                (m y ∙ ap (λ (o : Option TopicNode). among y o || x == y) (sym here)),
        )
]

no_topic :
    (t u : List ℕ) (x y : ℕ) (w : World)
    → find_key t w.topics ≡ none
    → is_subscribed y u w
      ≡ (if same t u then is_subscribed y u w && not (x == y) else is_subscribed y u w)
no_topic t u x y w gone = elim (Bool-cases (same t u)) [
  | inl e ↦
      let here : is_subscribed y u w ≡ false =
        ap (λ (k : List ℕ). is_subscribed y k w) (sym (same→eq t u e)) ∙ ap (among y) gone in
      rw (e, here) refl
  | inr e ↦ rw e refl
]

-- Where every topic has every client once, `del_client_context` keeps it so, takes its client
-- from the clients of its topic, and changes those of no other topic.
pub del_client_context-is_subscribed :
    (t : List ℕ) (x : ℕ) (w : World)
    → TopicsNoRepeat w
    → TopicsNoRepeat (del_client_context t x w).1
      × ((y : ℕ) (u : List ℕ)
          → is_subscribed y u (del_client_context t x w).1
            ≡ (if same t u then is_subscribed y u w && not (x == y) else is_subscribed y u w))
unfolding del_client_context
del_client_context-is_subscribed t x w v = elim (Option-cases (find_key t w.topics)) [
  | inl gone ↦ rw (del_client_context, gone) (v, λ y u. no_topic t u x y w gone)
  | inr (node, here) ↦
      let node' = (del_client x node).1 in
      let (n, _, m) = del_client-NoRepeat x node (v t node here) in
      rw (del_client_context, here)
        (
          put_node-NoRepeat t node' w n v,
          λ y u.
              put_node-is_subscribed t u y node' w (λ b. b && not (x == y))
                (m y ∙ ap (λ (o : Option TopicNode). among y o && not (x == y)) (sym here)),
        )
]

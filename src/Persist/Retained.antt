-- ===== src/Persist/Retained.antt =====
-- `restore_retain_msg`: the retained messages go to the topics that the sessions brought back.
use mqtt_server.Prelude.{
  ℕ, ◌≡◌, refl, sym, ap, ◌∙◌, arith, List, [], ◌∷◌, ◌++◌, Option, none, some, true, false, length,
  get_elem?, get_elem?-append_end, get_elem?-append_keep, if◌then◌else◌, Option-cases, Bool-cases,
  inl, inr,
}
use mqtt_server.Prelude.Keyed.{same, find_key, same→eq, find-put_same, find-put_other}
use mqtt_server.Mbuf.{Mbuf, contents}
use mqtt_server.Mbuf.Laws.{IsValid}
use mqtt_server.Broker.{World, TopicNode}
use mqtt_server.Broker.Topics.{put_topic}
use mqtt_server.Persist.Restore.{restored_mbuf, update_retains}
use mqtt_server.Persist.Mbufs.{restored_mbuf-contents, restore_mbuf-IsValid}

-- Every topic stands once in the map, and its message is valid.
abbrev pub GoodMap : List (List ℕ × Mbuf) → Type 0
GoodMap [] = Unit
GoodMap ((t, m) ∷ kvs) = (find_key t kvs ≡ none) × IsValid m × GoodMap kvs

with_retain : ℕ → Option TopicNode → Option TopicNode
with_retain r none = none
with_retain r (some node) = some (record node { retain_msg = some r })

-- The world after one entry of the map.
abbrev give : List ℕ → Mbuf → World → World
give t m w =
    let w1 : World = record w { mbufs = w.mbufs ++ restored_mbuf m w.now ∷ [] } in
    elim (find_key t w.topics) [
      | none ↦ w1
      | some node ↦ put_topic t (record node { retain_msg = some (length w.mbufs) }) w1
    ]

update_retains-cons :
    (t : List ℕ) (m : Mbuf) (kvs : List (List ℕ × Mbuf)) (w : World)
    → IsValid m
    → update_retains ((t, m) ∷ kvs) w ≡ update_retains kvs (give t m w)
unfolding update_retains
update_retains-cons t m kvs w v = elim (Option-cases (find_key t w.topics)) [
  | inl gone ↦ ground (arith, restore_mbuf-IsValid m w v, gone)
  | inr (node, here) ↦ ground (arith, restore_mbuf-IsValid m w v, here)
]

give-topics :
    (t u : List ℕ) (m : Mbuf) (w : World)
    → find_key u (give t m w).topics ≡ (
        if same t u
        then with_retain (length w.mbufs) (find_key u w.topics)
        else find_key u w.topics)
unfolding with_retain
give-topics t u m w = elim (Option-cases (find_key t w.topics)) [
  | inl gone ↦ ground (arith, gone, same→eq t u)
  | inr (node, here) ↦
      let node' : TopicNode = record node { retain_msg = some (length w.mbufs) } in
      ground (
        arith,
        here,
        same→eq t u,
        find-put_same t node' w.topics,
        find-put_other t u node' w.topics,
      )
]

give-mbufs :
    (t : List ℕ) (m : Mbuf) (w : World) → (give t m w).mbufs ≡ w.mbufs ++ restored_mbuf m w.now ∷ []
give-mbufs t m w = elim (Option-cases (find_key t w.topics)) [
  | inl gone ↦ rw (give, gone) refl
  | inr (node, here) ↦ rw (give, here) refl
]

give-lost :
    (t k : List ℕ) (m : Mbuf) (w : World)
    → find_key k w.topics ≡ none
    → find_key k (give t m w).topics ≡ none
unfolding with_retain
give-lost t k m w h = ground (arith, h, give-topics t k m w)

module _ (t k : List ℕ) (m : Mbuf) where
  find-cons_none :
      (kvs : List (List ℕ × Mbuf))
      → find_key k ((t, m) ∷ kvs) ≡ none
      → (same t k ≡ false) × (find_key k kvs ≡ none)
  find-cons_none kvs h = (ground (arith, h), ground (arith, h))

  find-cons_same :
      (x : Mbuf) (kvs : List (List ℕ × Mbuf))
      → same t k ≡ true
      → find_key k ((t, m) ∷ kvs) ≡ some x
      → m ≡ x
  find-cons_same x kvs this h = ground (arith, this, h)

  find-cons_other :
      (x : Mbuf) (kvs : List (List ℕ × Mbuf))
      → same t k ≡ false
      → find_key k ((t, m) ∷ kvs) ≡ some x
      → find_key k kvs ≡ some x
  find-cons_other x kvs other h = ground (arith, other, h)

-- The topic has its clients and this message.
abbrev pub Retains : World → List ℕ → TopicNode → Mbuf → Type 0
Retains u t node m =
    (r : ℕ) × (m' : Mbuf) × (find_key t u.topics ≡ some (record node { retain_msg = some r }))
    × (get_elem? u.mbufs r ≡ some m')
    × (contents m' ≡ contents m)
    × (m'.msg_id ≡ m.msg_id)

-- Where the messages are valid and no topic stands twice, the walk over the map of retained
-- messages succeeds; a topic that is there gets its message, as a new buffer with the same
-- contents and id, and keeps its clients; other topics, and buffers, are as they were; and a topic
-- that is not there is not made, so that its message is lost.
pub update_retains-Retains :
    (kvs : List (List ℕ × Mbuf)) (w : World)
    → GoodMap kvs
    → (u : World) × (update_retains kvs w ≡ some (tt, u))
      × ((t : List ℕ) → find_key t w.topics ≡ none → find_key t u.topics ≡ none)
      × ((t : List ℕ) → find_key t kvs ≡ none → find_key t u.topics ≡ find_key t w.topics)
      × ((a : ℕ) (x : Mbuf) → get_elem? w.mbufs a ≡ some x → get_elem? u.mbufs a ≡ some x)
      × ((t : List ℕ) (m : Mbuf) (node : TopicNode)
          → find_key t kvs ≡ some m
          → find_key t w.topics ≡ some node
          → Retains u t node m)
unfolding update_retains with_retain
update_retains-Retains [] w _ =
    (w, refl, λ t h. h, λ t h. refl, λ a x h. h, λ t m node h. absurd cc)
update_retains-Retains ((t, m) ∷ kvs) w (once, v, good) =
    let n = length w.mbufs in
    let fresh = restored_mbuf m w.now in
    let (u, ran, lost, others, kept, given) = update_retains-Retains kvs (give t m w) good in
    let start : (a : ℕ) (x : Mbuf)
        → get_elem? (w.mbufs ++ fresh ∷ []) a ≡ some x
        → get_elem? u.mbufs a ≡ some x =
      λ a x h. kept a x (ap (λ (l : List Mbuf). get_elem? l a) (give-mbufs t m w) ∙ h) in
    (
      u,
      update_retains-cons t m kvs w v ∙ ran,
      λ k h. lost k (give-lost t k m w h),
      λ k h.
          let (other, h') = find-cons_none t k m kvs h in
          others k h' ∙ give-topics t k m w ∙ rw other refl,
      λ a x h. start a x (get_elem?-append_keep w.mbufs (fresh ∷ []) a x h),
      λ k x node h h'. elim (Bool-cases (same t k)) [
        | inr other ↦
            given k x node (find-cons_other t k m x kvs other h)
              (give-topics t k m w ∙ rw (other, h') refl)
        | inl this ↦
            let (bytes, id) = restored_mbuf-contents m w.now v in
            let its = find-cons_same t k m x kvs this h in
            let alone : find_key k kvs ≡ none =
              ap (λ (l : List ℕ). find_key l kvs) (sym (same→eq t k this)) ∙ once in
            (
              n,
              fresh,
              others k alone ∙ give-topics t k m w ∙ rw (this, h') refl,
              start n fresh (get_elem?-append_end w.mbufs fresh),
              bytes ∙ ap contents its,
              id ∙ ap Mbuf.msg_id its,
            )
      ],
    )

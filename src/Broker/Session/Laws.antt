-- ===== src/Broker/Session/Laws.antt =====
-- The topics of a session form a set.
use mqtt_server.Prelude.{
  ◌≡◌, refl, sym, ap, ap₂, ◌∙◌, arith, List, [], ◌∷◌, ◌++◌, Bool, true, false, ◌||◌, if◌then◌else◌,
  Bool-cases, inl, inr,
}
use mqtt_server.Prelude.Keyed.{same→eq, same_refl}
use mqtt_server.Msg.Subscribe.{Topic}
use mqtt_server.Broker.{Context}
use mqtt_server.Broker.Session.{same_topic, has_topic, add_topics, add_subcribe_topics}

same_topic→eq : (t u : Topic) → same_topic t u ≡ true → t ≡ u
same_topic→eq t u h =
    let n : t.topic_name ≡ u.topic_name = same→eq t.topic_name u.topic_name (ground arith) in
    let q : t.qos ≡ u.qos = ground arith in λ i. record { topic_name = n i; qos = q i }

same_topic_refl : (t : Topic) → same_topic t t ≡ true
same_topic_refl t = ground (arith, same_refl t.topic_name)

has_topic-snoc :
    (t v : Topic) (us : List Topic)
    → has_topic t (us ++ v ∷ []) ≡ (has_topic t us || same_topic v t)
has_topic-snoc t v [] = ground arith
has_topic-snoc t v (u ∷ us) = ground (arith, has_topic-snoc t v us)

-- The list after one topic was added, if it was not there.
abbrev add_one : Topic → List Topic → List Topic
add_one v us = if has_topic v us then us else us ++ v ∷ []

-- Every topic stands once.
abbrev pub Distinct : List Topic → Type 0
Distinct [] = Unit
Distinct (t ∷ ts) = (has_topic t ts ≡ false) × Distinct ts

or-true : (b : Bool) → (b || true) ≡ true
or-true true = refl
or-true false = refl

or-absorb : (a b : Bool) → (b ≡ true → a ≡ true) → a ≡ (a || b)
or-absorb true b h = refl
or-absorb false true h = h refl
or-absorb false false h = refl

or_assoc : (a b c : Bool) → ((a || b) || c) ≡ (a || (b || c))
or_assoc true b c = refl
or_assoc false b c = refl

or_comm : (a b : Bool) → (a || b) ≡ (b || a)
or_comm true b = sym (or-true b)
or_comm false true = refl
or_comm false false = refl

has_topic-add_one :
    (t v : Topic) (us : List Topic)
    → has_topic t (add_one v us) ≡ (has_topic t us || same_topic v t)
has_topic-add_one t v us = elim (Bool-cases (has_topic v us)) [
  | inl here ↦ rw here (
      or-absorb (has_topic t us) (same_topic v t)
        (λ e. ap (λ (z : Topic). has_topic z us) (sym (same_topic→eq v t e)) ∙ here))
  | inr gone ↦ rw gone (has_topic-snoc t v us)
]

apart : (v u : Topic) (us : List Topic) → has_topic v (u ∷ us) ≡ false → same_topic v u ≡ false
apart v u us h = elim (Bool-cases (same_topic v u)) [
  | inr e ↦ e
  | inl e ↦
      let here : same_topic u v ≡ true =
        ap (λ (z : Topic). same_topic u z) (same_topic→eq v u e) ∙ same_topic_refl u in
      e ∙ ap (λ (b : Bool). b || has_topic v us) (sym here) ∙ h
]

Distinct-snoc :
    (v : Topic) (us : List Topic) → has_topic v us ≡ false → Distinct us → Distinct (us ++ v ∷ [])
Distinct-snoc v [] h d = (refl, tt)
Distinct-snoc v (u ∷ us) h (a, d) =
    (has_topic-snoc u v us ∙ ap₂ (◌||◌) a (apart v u us h), Distinct-snoc v us (ground arith) d)

Distinct-add_one : (v : Topic) (us : List Topic) → Distinct us → Distinct (add_one v us)
Distinct-add_one v us d = elim (Bool-cases (has_topic v us)) [
  | inl here ↦ rw here d
  | inr gone ↦ rw gone (Distinct-snoc v us gone d)
]

has_topic-add_topics :
    (t : Topic) (ts us : List Topic)
    → has_topic t (add_topics ts us) ≡ (has_topic t us || has_topic t ts)
unfolding add_topics
has_topic-add_topics t [] us = or_comm false (has_topic t us)
has_topic-add_topics t (v ∷ ts) us =
    has_topic-add_topics t ts (add_one v us)
    ∙ ap (λ (b : Bool). b || has_topic t ts) (has_topic-add_one t v us)
    ∙ or_assoc (has_topic t us) (same_topic v t) (has_topic t ts)

Distinct-add_topics : (ts us : List Topic) → Distinct us → Distinct (add_topics ts us)
unfolding add_topics
Distinct-add_topics [] us d = d
Distinct-add_topics (v ∷ ts) us d = Distinct-add_topics ts (add_one v us) (Distinct-add_one v us d)

-- A session that has every topic once keeps every topic once, and after `add_subcribe_topics` it
-- has the topics it had and the given ones, and no others.
pub add_subcribe_topics-Distinct :
    (x : Context) (ts : List Topic)
    → Distinct x.subcribe_topics
    → Distinct (add_subcribe_topics x ts).subcribe_topics
      × ((t : Topic)
          → has_topic t (add_subcribe_topics x ts).subcribe_topics
            ≡ (has_topic t x.subcribe_topics || has_topic t ts))
unfolding add_subcribe_topics
add_subcribe_topics-Distinct x ts d =
    (Distinct-add_topics ts x.subcribe_topics d, λ t. has_topic-add_topics t ts x.subcribe_topics)

-- ===== src/Runs/Files.antt =====
-- The database file and the table of subscriptions at small data.
use mqtt_server.Prelude.{
  ℕ, ◌≡◌, refl, true, List, [], ◌∷◌, ◌++◌, Option, none, some, length, get_elem?, if◌then◌else◌,
  ◌||◌, ◌&&◌, ◌==◌,
}
use mqtt_server.Prelude.Keyed.{same, find_key}
use mqtt_server.Mbuf.{Mbuf}
use mqtt_server.Broker.{World, Context, TopicNode, cs_new}
use mqtt_server.Broker.ClientIds.{find_client_context}
use mqtt_server.Broker.Topics.Laws.{TopicsNoRepeat, is_subscribed}
use mqtt_server.Broker.Topics.Refinement.{
  subscribe, unsubscribe, apply_ops, changes, subscriptions, apply_ops-refines,
}
use mqtt_server.Persist.{Format, Disk}
use mqtt_server.Persist.Restore.{restore_chunks, restore_client_info, update_retains}
use mqtt_server.Persist.Loop.{Ends, restore_chunks-Ends}
use mqtt_server.Persist.Sessions.{found, has_name, restore_client_info-session}
use mqtt_server.Persist.Retained.{Retains, update_retains-Retains}
use mqtt_server.Runs.Fixtures.{
  client, topic, session, message, idle, takes, message-IsValid, idle-NoRepeat,
}

-- A packing that puts the numbers of a buffer in front of its memory.
abbrev plain_unpack : List ℕ → Option Mbuf
plain_unpack (msg_type ∷ read_pos ∷ write_pos ∷ msg_id ∷ time ∷ mem) = some (record {
  mem = mem;
  msg_type = msg_type;
  read_pos = read_pos;
  write_pos = write_pos;
  msg_id = msg_id;
  time = time;
})
plain_unpack _ = none

abbrev saved : Context
saved = record (session cs_new []) { mqtt_connection = none; send_msg_ids = 7 ∷ 8 ∷ [] }

abbrev plain : Format
plain = record {
  pack_store = λ id time. id ∷ time ∷ [];
  unpack_store = λ bytes. none;
  pack_mbuf = λ m. m.msg_type ∷ m.read_pos ∷ m.write_pos ∷ m.msg_id ∷ m.time ∷ m.mem;
  unpack_mbuf = plain_unpack;
  pack_context = λ x. [];
  unpack_context = λ bytes x. some saved;
  pack_map = λ kvs. [];
  unpack_map = λ bytes. none;
}

abbrev roomy : Disk
roomy = record { opens = true; fwrite = λ file bytes. length bytes }

restore_client_info-session_example :
    (u : World) × (restore_client_info (takes 4) plain [] ((7, 0) ∷ []) idle ≡ some (tt, u))
    × (get_elem? u.contexts 1
        ≡ some (record saved { send_msg_queue = [] ++ found ((7, 0) ∷ []) (7 ∷ 8 ∷ []) }))
    × ((j : List ℕ)
        → find_client_context j u ≡ (
            if same client j
            then elim (find_client_context j idle) as (λ _. Option ℕ) [
              | none ↦ some 1
              | some y ↦ some y
            ]
            else find_client_context j idle))
    × ((y : ℕ) (t : List ℕ)
        → is_subscribed y t u
          ≡ (is_subscribed y t idle || (has_name t saved.subcribe_topics && 1 == y)))
restore_client_info-session_example =
    restore_client_info-session (takes 4) plain [] ((7, 0) ∷ []) saved idle refl idle-NoRepeat

restore_chunks-Ends_example :
    Ends
      (takes 4)
      plain
      (0xEE ∷ 9 ∷ 0 ∷ 0 ∷ 0 ∷ 0 ∷ [])
      []
      idle
      (restore_chunks (takes 4) plain 7 (0xEE ∷ 9 ∷ 0 ∷ 0 ∷ 0 ∷ 0 ∷ []) [] idle)
restore_chunks-Ends_example =
    restore_chunks-Ends (takes 4) plain (0xEE ∷ 9 ∷ 0 ∷ 0 ∷ 0 ∷ 0 ∷ []) [] idle

update_retains-Retains_example :
    let kvs : List (List ℕ × Mbuf) = (topic, message) ∷ (client, message) ∷ [] in
    (u : World) × (update_retains kvs idle ≡ some (tt, u))
    × ((t : List ℕ) → find_key t idle.topics ≡ none → find_key t u.topics ≡ none)
    × ((t : List ℕ) → find_key t kvs ≡ none → find_key t u.topics ≡ find_key t idle.topics)
    × ((a : ℕ) (x : Mbuf) → get_elem? idle.mbufs a ≡ some x → get_elem? u.mbufs a ≡ some x)
    × ((t : List ℕ) (m : Mbuf) (node : TopicNode)
        → find_key t kvs ≡ some m
        → find_key t idle.topics ≡ some node
        → Retains u t node m)
update_retains-Retains_example =
    update_retains-Retains ((topic, message) ∷ (client, message) ∷ []) idle
      (refl, message-IsValid, (refl, message-IsValid, tt))

apply_ops-refines_example :
    let ops = subscribe client 0 ∷ unsubscribe topic 0 ∷ subscribe topic 1 ∷ [] in
    TopicsNoRepeat (apply_ops ops idle)
    × (subscriptions (apply_ops ops idle) ≡ changes ops (subscriptions idle))
apply_ops-refines_example =
    apply_ops-refines (subscribe client 0 ∷ unsubscribe topic 0 ∷ subscribe topic 1 ∷ []) idle
      idle-NoRepeat

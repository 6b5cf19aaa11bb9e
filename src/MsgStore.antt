-- ===== src/MsgStore.antt =====
-- src/common/msg_mem_store.cpp and include/common/msg_mem_store.hpp: `CMsgMemStore`, which hands
-- out message ids and knows the buffer of each id, and `CMsgStatMgr`, a table of statistics by
-- the low 16 bits of the id. Buffers are named by their place in the heap; time is an argument.
pub mod Laws
pub mod Flush
use mqtt_server.Prelude.{
  ℕ, ◌+◌, ◌%◌, ◌^◌, List, [], ◌∷◌, Option, none, some, bit_and, ◌==◌, if◌then◌else◌,
}

-- An unordered_map with integer keys, as an association list.
unfoldable pub lookup : ℕ → List (ℕ × ℕ) → Option ℕ
lookup k [] = none
lookup k ((j, v) ∷ m) = if j == k then some v else lookup k m

unfoldable pub erase : ℕ → List (ℕ × ℕ) → List (ℕ × ℕ)
erase k [] = []
erase k ((j, v) ∷ m) = if j == k then m else (j, v) ∷ erase k m

unfoldable pub assign : ℕ → ℕ → List (ℕ × ℕ) → List (ℕ × ℕ)
assign k v [] = (k, v) ∷ []
assign k v ((j, w) ∷ m) = if j == k then (j, v) ∷ m else (j, w) ∷ assign k v m

pub record MsgStore : Type 0 where
  pub last_msg_id : ℕ
  pub msg_db : List (ℕ × ℕ)
  pub last_update_time : ℕ

-- `++m_last_msg_id` on a uint64_t.
unfoldable pub next_msg_id : MsgStore → ℕ × MsgStore
next_msg_id s = let id = (s.last_msg_id + 1) % 2 ^ 64 in (id, record s { last_msg_id = id })

-- `erase` of a missing key changes nothing, as in the source.
unfoldable pub del_msg : MsgStore → ℕ → MsgStore
del_msg s msg_id = record s { msg_db = erase msg_id s.msg_db }

-- A null buffer only sets the time.
unfoldable pub add_msg : MsgStore → ℕ → Option ℕ → ℕ → MsgStore
add_msg s msg_id none now = record s { last_update_time = now }
add_msg s msg_id (some buf) now = record s {
  msg_db = assign msg_id buf s.msg_db;
  last_update_time = now;
}

pub record MsgStat : Type 0 where
  pub msg_id : ℕ
  pub pub_start : ℕ
  pub pub_end : ℕ
  pub pub_online_num : ℕ
  pub pub_offline_num : ℕ
  pub min_delay : ℕ
  pub max_delay : ℕ
  pub ack_client : ℕ

unfoldable pub start_stat : MsgStat → ℕ → MsgStat
start_stat s now = record {
  msg_id = 0;
  pub_start = now;
  pub_end = 0;
  pub_online_num = 0;
  pub_offline_num = 0;
  min_delay = 0;
  max_delay = 0;
  ack_client = 0;
}

unfoldable pub end_stat : MsgStat → ℕ → MsgStat
end_stat s now = record s { pub_end = now }

-- `m_ack_client++` on a uint32_t.
unfoldable pub inc_ack_client : MsgStat → MsgStat
inc_ack_client s = record s { ack_client = (s.ack_client + 1) % 2 ^ 32 }

abbrev pub StatTable : Type 0
StatTable = ℕ → MsgStat

abbrev pub stat_index : ℕ → ℕ
stat_index msg_id = bit_and msg_id 0xffff

abbrev pub set_stat : StatTable → ℕ → MsgStat → StatTable
set_stat t i s j = if i == j then s else t j

-- `msg_stat(msg_id)` stores the id in its entry and returns a reference to the entry.
unfoldable pub msg_stat : StatTable → ℕ → ℕ × StatTable
msg_stat t msg_id =
    let i = stat_index msg_id in (i, set_stat t i (record (t i) { msg_id = msg_id }))

-- ===== src/MsgStore/Flush.antt =====
-- src/common/msg_mem_store.cpp: `CMsgStatMgr::flush`, which records the messages whose statistics
-- started more than two minutes ago and clears their entries. A line of the record is the entry it
-- is printed from. The clock is read once: `now` is the time of the whole call.
use mqtt_server.Prelude.{
  ℕ, zero, suc, ◌+◌, ◌≡◌, refl, List, [], ◌∷◌, Bool, true, false, not, ◌==◌, ◌&&◌, ltb,
  if◌then◌else◌,
}
use mqtt_server.MsgStore.{MsgStat, StatTable, set_stat, start_stat}

-- `msg_id() > 0 && cur_tm - pub_start() > 2*60`, on a signed `time_t`.
unfoldable pub is_due : (now : ℕ) → MsgStat → Bool
is_due now s = ltb 0 s.msg_id && ltb (s.pub_start + 120) now

unfoldable pub flush_from : (left i now : ℕ) → StatTable → List MsgStat × StatTable
flush_from zero i now t = ([], t)
flush_from (suc left) i now t =
    let due = is_due now (t i) in
    let rest =
      flush_from left (suc i) now (if due then set_stat t i (start_stat (t i) now) else t) in
    if due then (t i ∷ rest.0, rest.1) else rest

unfoldable pub flush : (now : ℕ) → StatTable → List MsgStat × StatTable
flush now t = flush_from 65536 0 now t

-- The entries that are due among `left` entries from `i` on.
abbrev pub due_entries : (left i now : ℕ) → StatTable → List MsgStat
due_entries zero i now t = []
due_entries (suc left) i now t =
    let rest = due_entries left (suc i) now t in if is_due now (t i) then t i ∷ rest else rest

pub set_stat-other :
    (t : StatTable) (i : ℕ) (s : MsgStat) (j : ℕ) → (i == j) ≡ false → set_stat t i s j ≡ t j
set_stat-other t i s j h = rw h refl

-- The place `j` is one of the `left` places from `i` on.
abbrev in_reach : (left i j : ℕ) → Bool
in_reach left i j = not (ltb j i) && ltb j (i + left)

pub set_stat-same :
    (t : StatTable) (i : ℕ) (s : MsgStat) (j : ℕ) → (i == j) ≡ true → set_stat t i s j ≡ s
set_stat-same t i s j h = rw h refl

-- What is done with an entry.
abbrev pub flushed_entry : (now : ℕ) → (reached : Bool) → MsgStat → MsgStat
flushed_entry now reached s = if reached && is_due now s then start_stat s now else s

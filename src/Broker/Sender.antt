-- ===== src/Broker/Sender.antt =====
-- src/reactor/event_handler.cpp, the sending half of `CEventHandler`: a queue of buffers per
-- connection, and the write event that is on while the kernel takes no more. After `nonblk_send`
-- closed the connection its memory is gone, so what reads it then has no result.
pub mod Steps
pub mod Output
pub mod Buffers
pub mod Stream
pub mod Events
pub mod Whole
pub mod WriteN
pub mod Laws
use mqtt_server.Prelude.{
  ℕ, zero, suc, ◌+◌, ◌-◌, ◌/◌, ◌%◌, ◌^◌, List, [], ◌∷◌, ◌++◌, Option, none, some, Bool, true, false,
  ◌==◌, ltb, ◌||◌, bit_or, take, length, if◌then◌else◌,
}
use mqtt_server.Mbuf.{count, contents, skip_read}
use mqtt_server.Broker.{
  World, Kernel, Wrote, wrote, failed, M, ◌>>=◌, ◌>>◌, pure, gets, modify, get_mbuf, set_mbuf,
  get_connection, set_connection,
}
use mqtt_server.Broker.Close.{handle_close}

-- EAGAIN, which is EWOULDBLOCK, and EINTR.
abbrev pub eagain : ℕ
eagain = 11

abbrev pub would_block : ℕ → Bool
would_block e = e == eagain || e == 4

-- The bit EVENT_WRITE.
abbrev pub wants_write : ℕ → Bool
wants_write mask = mask / 4 % 2 == 1

abbrev pub toggle_write : ℕ → ℕ
toggle_write mask = if wants_write mask then mask - 4 else mask + 4

abbrev pub max_msg_in_buffer : ℕ
max_msg_in_buffer = 50

-- A call that succeeds leaves `errno` as it was.
abbrev pub after_write : Wrote → ℕ → List ℕ → World → World
after_write (wrote n) c bytes w = record w {
  calls = w.calls + 1;
  wire = w.wire ++ (c, take n bytes) ∷ [];
}
after_write (failed e) c bytes w = record w { calls = w.calls + 1; errno = e }

module _ (sys : Kernel) where
  unfoldable pub mod_event : ℕ → ℕ → M Bool
  mod_event c event_mask = do
    n ← gets (λ w. w.calls)
    modify (λ w. record w { calls = w.calls + 1 })
    conn ← get_connection c
    if sys.epoll_mod n
        then (set_connection c (record conn { current_event_mask = event_mask }) >> pure true)
        else pure false

  unfoldable pub schedule_write : ℕ → M Bool
  schedule_write c = do
    conn ← get_connection c
    set_connection c
        (record conn { schedule_write_times = (conn.schedule_write_times + 1) % 2 ^ 64 })
    if wants_write conn.current_event_mask
        then pure true
        else mod_event c (bit_or conn.current_event_mask 4)

  unfoldable pub cancel_schedule_write : ℕ → M Bool
  cancel_schedule_write c = do
    conn ← get_connection c
    set_connection c (record conn {
      cancel_schedule_write_times = (conn.cancel_schedule_write_times + 1) % 2 ^ 64;
    })
    mod_event c (toggle_write conn.current_event_mask)

  unfoldable pub sys_write : ℕ → List ℕ → M Wrote
  sys_write c bytes = do
    n ← gets (λ w. w.calls)
    modify (after_write (sys.write n bytes) c bytes)
    pure (sys.write n bytes)

  -- The count of `write`, or `none` for -1, and `my_errno`.
  abbrev pub sent_none : Option ℕ → ℕ → Option ℕ × ℕ
  sent_none n my_errno = if would_block my_errno then (some 0, my_errno) else (n, my_errno)

  unfoldable pub sent_some : (c b n my_errno : ℕ) → M (Option ℕ × ℕ)
  sent_some c b n my_errno = do
    conn ← get_connection c
    set_connection c (record conn {
      send_times = (conn.send_times + 1) % 2 ^ 64;
      send_bytes = (conn.send_bytes + n) % 2 ^ 64;
    })
    mbuf ← get_mbuf b
    if ltb n (count mbuf)
        then (set_mbuf b (skip_read mbuf n) >> pure (some n, eagain))
        else if n == count mbuf
        then (modify (λ w. record w { errno = 0 }) >> pure (some n, my_errno))
        else pure (some n, my_errno)

  unfoldable pub send : (c b : ℕ) → M (Option ℕ × ℕ)
  send c b = do
    mbuf ← get_mbuf b
    out ← sys_write c (contents mbuf)
    my_errno ← gets (λ w. w.errno)
    elim out [
      | failed _ ↦ pure (sent_none none my_errno)
      | wrote zero ↦ pure (sent_none (some 0) my_errno)
      | wrote (suc n) ↦ sent_some c b (suc n) my_errno
    ]

  unfoldable pub nonblk_send : (c b : ℕ) → M (Option ℕ)
  nonblk_send c b = do
    (n, my_errno) ← send c b
    elim n [
      | none ↦ handle_close c >> pure none
      | some n ↦
          if would_block my_errno
          then (do
            conn ← get_connection c
            set_connection c (record conn { send_msg_queue = b ∷ conn.send_msg_queue })
            schedule_write c
            pure (some 0))
          else pure (some n)
    ]

  unfoldable pub enqueue : (c b : ℕ) → M (Option ℕ)
  enqueue c b = do
    conn ← get_connection c
    if ltb (length conn.send_msg_queue) max_msg_in_buffer
        then (do
          set_connection c (record conn { send_msg_queue = conn.send_msg_queue ++ b ∷ [] })
          schedule_write c
          pure (some 0))
        else pure none

  unfoldable pub put : (c b : ℕ) → M (Option ℕ)
  put c b = do
    conn ← get_connection c
    elim conn.send_msg_queue [ [] ↦ nonblk_send c b | _ ∷ _ ↦ enqueue c b ]

  -- `if (m_send_msg_queue.empty()) cancel_schedule_write()`
  unfoldable pub cancel_if_empty : ℕ → M Unit
  cancel_if_empty c = do
    conn ← get_connection c
    elim conn.send_msg_queue [ [] ↦ cancel_schedule_write c >> pure tt | _ ∷ _ ↦ pure tt ]

  unfoldable pub handle_output : ℕ → M Unit
  handle_output c = do
    conn ← get_connection c
    elim conn.send_msg_queue [
      | [] ↦ cancel_schedule_write c >> pure tt
      | b ∷ queue ↦ do
        set_connection c (record conn { send_msg_queue = queue })
        nonblk_send c b
        cancel_if_empty c
    ]

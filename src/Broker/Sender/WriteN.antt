-- ===== src/Broker/Sender/WriteN.antt =====
-- `CEventHandler::write_n` of src/reactor/event_handler.cpp, whose text is also that of
-- `TCPClient::write_n` of src/mqtt_server/tcp_client.cpp but for its result: the loop that writes
-- until all is written. The pointer to the bytes stays at their start.
pub mod Laws
use mqtt_server.Prelude.{
  ℕ, zero, suc, ◌-◌, ◌+◌, List, Option, none, some, Bool, true, false, ltb, take, length,
  if◌then◌else◌,
}
use mqtt_server.Broker.{World, Kernel, wrote, failed, M, ◌>>=◌, pure, gets}
use mqtt_server.Broker.Sender.{would_block, sys_write}

module _ (sys : Kernel) where
  -- A round of the loop, with `len` bytes to go. `false` is -1. Out of fuel has no result.
  unfoldable pub write_loop : (fuel c : ℕ) → (buf : List ℕ) → (len : ℕ) → M Bool
  write_loop fuel c buf zero = pure true
  write_loop zero c buf (suc k) = λ w. none
  write_loop (suc fuel) c buf (suc k) = do
    out ← sys_write sys c (take (suc k) buf)
    elim out [
      | wrote n ↦ write_loop fuel c buf (suc k - n)
      | failed e ↦ if would_block e then write_loop fuel c buf (suc k) else pure false
    ]

  unfoldable pub write_n : (fuel c : ℕ) → (buf : List ℕ) → M Bool
  write_n fuel c buf = write_loop fuel c buf (length buf)

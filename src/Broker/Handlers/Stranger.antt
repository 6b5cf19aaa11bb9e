-- ===== src/Broker/Handlers/Stranger.antt =====
-- What a client may do before it has connected.
use mqtt_server.Prelude.{
  ℕ, ◌/◌, ◌%◌, ◌^◌, ◌≡◌, List, [], ◌∷◌, Option, none, some, Bool, true, false, get_elem?, ◌⊎◌,
}
use mqtt_server.Pkt.{Pkt, ok, new_pkt}
use mqtt_server.Msg.{MqttType, connect, puback, pingreq, to_type}
use mqtt_server.Msg.Ack.{decode_puback}
use mqtt_server.Broker.{World, Kernel, Context, Connection, M, ◌>>=◌, pure}
use mqtt_server.Broker.Reply.{client_context}
use mqtt_server.Broker.Handlers.{is_connected}
use mqtt_server.Broker.Handlers.Input.{process}

-- A context that is not connected and is owed nothing.
abbrev pub Idle : World → ℕ → Type 0
Idle w x =
    (ctx : Context) × (get_elem? w.contexts x ≡ some ctx)
    × (is_connected ctx.client_status ≡ false)
    × (ctx.send_msg_queue ≡ [])

-- The connection has no context, or one of this kind.
abbrev pub Stranger : ℕ → World → Type 0
Stranger c w =
    (conn : Connection) × (get_elem? w.connections c ≡ some (some conn))
    × ((conn.client_context ≡ none) ⊎ ((x : ℕ) × (conn.client_context ≡ some x) × Idle w x))

-- Nothing that another client or the kernel can see has changed.
abbrev pub Apart : World → World → Type 0
Apart w v =
    (v.topics ≡ w.topics)
    × (v.client_ids ≡ w.client_ids)
    × (v.store ≡ w.store)
    × (v.mbufs ≡ w.mbufs)
    × (v.stats ≡ w.stats)
    × (v.wire ≡ w.wire)

-- The answer is `r`, the connection is still one of a stranger, and nothing else has changed.
abbrev pub Harmless : ℕ → World → Option ℕ → Option (Option ℕ × World) → Type 0
Harmless c w r res = (v : World) × (res ≡ some (r, v)) × Stranger c v × Apart w v

-- A type that is neither connect nor ping.
abbrev pub silent : MqttType → Bool
silent connect = false
silent pingreq = false
silent _ = true

abbrev pub answer_to : MqttType → Option ℕ
answer_to puback = some 0
answer_to _ = none

-- A packet by its first byte, the memory behind and its length.
abbrev pub Packet : Type 0
Packet = ℕ × (List ℕ × ℕ)

abbrev pub type_of : Packet → MqttType
type_of (first, _) = to_type (first / 2 ^ 4 % 16)

-- It is neither a connect nor a ping message, and has its id where it is an acknowledgement.
abbrev pub Unheard : Packet → Type 0
Unheard (first, (rest, len)) =
    (silent (type_of (first, (rest, len))) ≡ true)
    × (type_of (first, (rest, len)) ≡ puback
        → (id : ℕ) × (q : Pkt) × (decode_puback (new_pkt (first ∷ rest) len) ≡ ok (id, q)))

abbrev pub process_each : Kernel → (c : ℕ) → List Packet → M (List (Option ℕ))
process_each sys c [] = pure []
process_each sys c ((first, (rest, len)) ∷ packets) = do
  res ← process sys c (first ∷ rest) len
  answers ← process_each sys c packets
  pure (res ∷ answers)

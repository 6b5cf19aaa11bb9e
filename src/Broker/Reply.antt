-- ===== src/Broker/Reply.antt =====
-- src/mqtt_server/mqtt_connection.cpp, `CMqttConnection`: what the handlers of the messages share,
-- the session of the connection and an answer in a buffer of its own.
use mqtt_server.Prelude.{ℕ, [], ◌∷◌, ◌++◌, Option, none, some, length, replicate}
use mqtt_server.Pkt.{Pkt, Res, ok, err, fault, stuck, new_pkt}
use mqtt_server.Mbuf.{init, skip_write}
use mqtt_server.Broker.{Kernel, M, ◌>>=◌, ◌>>◌, pure, gets, modify, get_connection, set_connection}
use mqtt_server.Broker.Session.{new_context}
use mqtt_server.Broker.Sender.{put}
use mqtt_server.Broker.Publisher.{new_mbuf}

-- A message that cannot be decoded is -1; a decoder that leaves its memory has no result.
unfoldable pub decoded : {A : Type 0} → Res (A × Pkt) → M (Option A)
decoded (ok (a, p)) w = some (some a, w)
decoded (err c p) w = some (none, w)
decoded fault w = none
decoded stuck w = none

unfoldable pub encoded : Res (ℕ × Pkt) → M (Option (ℕ × Pkt))
encoded (ok r) w = some (some r, w)
encoded (err c p) w = some (none, w)
encoded fault w = none
encoded stuck w = none

module _ (sys : Kernel) where
  -- `client_context()` makes the context when there is none.
  unfoldable pub client_context : ℕ → M ℕ
  client_context c = do
    conn ← get_connection c
    elim conn.client_context [
      | some x ↦ pure x
      | none ↦ do
        x ← gets (λ w. length w.contexts)
        modify (λ w. record w { contexts = w.contexts ++ new_context sys (some c) ∷ [] })
        set_connection c (record conn { client_context = some x })
        pure x
    ]

  -- A new buffer of `size` bytes, the encoder run on it, and `put` of what it wrote.
  unfoldable pub reply : (c size : ℕ) → (Pkt → Res (ℕ × Pkt)) → M (Option ℕ)
  reply c size encode = do
    now ← gets (λ w. w.now)
    let mbuf = init (replicate size 0) now
    written ← encoded (encode (new_pkt mbuf.mem size))
    elim written [
      | none ↦ pure none
      | some (enc_len, p) ↦ do
        b ← new_mbuf (skip_write (record mbuf { mem = p.mem }) enc_len)
        put sys c b
    ]

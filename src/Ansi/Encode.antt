-- ===== src/Ansi/Encode.antt =====
-- The encoders of src/mqtt/mqtt_pkt_ansi.c: the memory that they leave, and the length.
use mqtt_server.Prelude.{ℕ, ◌+◌, ◌%◌, List, [], ◌∷◌, ltb, if◌then◌else◌, length}
use mqtt_server.Pkt.{failure}
use mqtt_server.Ansi.{Out, done, refused, ◌>>=◌, poke, write_short, settle}

unfoldable pub mqtt_enc_connect_ack : List ℕ → (len reason : ℕ) → Out (ℕ × List ℕ)
mqtt_enc_connect_ack mem len reason = if ltb len 4 then refused failure else do
  mem1 ← poke mem 0 0x20
  mem2 ← poke mem1 1 2
  mem3 ← poke mem2 2 0
  mem4 ← poke mem3 3 reason
  done (4, mem4)

-- The encoders of the publish and unsubscribe acknowledgements have one text, but for the header.
unfoldable pub mqtt_enc_id_ack : (header : ℕ) → List ℕ → (len msg_id : ℕ) → Out (ℕ × List ℕ)
mqtt_enc_id_ack header mem len msg_id = if ltb len 4 then refused failure else do
  mem1 ← poke mem 0 header
  mem2 ← poke mem1 1 2
  mem3 ← settle mem2 (write_short mem2 len 2 msg_id)
  done (4, mem3)

abbrev pub mqtt_enc_publish_ack : List ℕ → (len msg_id : ℕ) → Out (ℕ × List ℕ)
mqtt_enc_publish_ack = mqtt_enc_id_ack 0x40

abbrev pub mqtt_enc_unsubscribe_ack : List ℕ → (len msg_id : ℕ) → Out (ℕ × List ℕ)
mqtt_enc_unsubscribe_ack = mqtt_enc_id_ack 0xb0

unfoldable pub write_qos : List ℕ → (offset : ℕ) → List ℕ → Out (List ℕ)
write_qos mem offset [] = done mem
write_qos mem offset (q ∷ topics_qos) = do
  mem1 ← poke mem offset (q % 256)
  write_qos mem1 (offset + 1) topics_qos

-- The length byte takes no more than eight bits of the length.
unfoldable pub mqtt_enc_subscribe_ack : List ℕ → (len msg_id : ℕ) → List ℕ → Out (ℕ × List ℕ)
mqtt_enc_subscribe_ack mem len msg_id topics_qos = if ltb len 4 then refused failure else do
  mem1 ← poke mem 0 0x90
  mem2 ← poke mem1 1 ((2 + length topics_qos) % 256)
  if ltb len (4 + length topics_qos) then refused failure else (do
    mem3 ← settle mem2 (write_short mem2 len 2 msg_id)
    mem4 ← write_qos mem3 4 topics_qos
    done (4 + length topics_qos, mem4))

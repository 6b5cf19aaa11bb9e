-- ===== src/Ansi/Layout.antt =====
-- What the stores of the C functions leave of a memory with room for them.
use mqtt_server.Prelude.{
  ℕ, suc, ◌+◌, ◌/◌, ◌%◌, ◌^◌, ◌≤◌, ◌<◌, ◌≡◌, refl, arith, List, [], ◌∷◌, All, length, length-set,
  set, lt→ltb, le→ltb, bit_and,
}
use mqtt_server.Prelude.Bits.{mask_eight}
use mqtt_server.Prelude.Memory.{overwrite}
use mqtt_server.Pkt.Read.{short_bytes}
use mqtt_server.Ansi.{done, ◌>>=◌, poke, write_short}
use mqtt_server.Ansi.Encode.{write_qos}

pub poke-lt : (mem : List ℕ) (i v : ℕ) → i < length mem → poke mem i v ≡ done (set mem i v)
poke-lt mem i v h = rw (lt→ltb _ _ h) refl

poke_two :
    (mem : List ℕ) (i a b : ℕ)
    → suc i < length mem
    → (poke mem i a >>= λ mem1. poke mem1 (i + 1) b) ≡ done (overwrite mem i (a ∷ b ∷ []))
unfolding overwrite
poke_two mem i a b h =
    rw
      (
        poke-lt mem i a (omega arith),
        poke-lt (set mem i a) (i + 1) b (omega (arith, length-set mem i a)),
      )
      refl

pub write_short-lt :
    (mem : List ℕ) (len i msg_id : ℕ)
    → i + 2 ≤ len
    → suc i < length mem
    → msg_id < 2 ^ 16
    → write_short mem len i msg_id ≡ done (overwrite mem i (short_bytes msg_id))
unfolding write_short
write_short-lt mem len i msg_id room there small =
    let hi : bit_and (msg_id % 2 ^ 16 / 2 ^ 8) 0xff ≡ msg_id / 256 =
      omega (arith, mask_eight (msg_id % 2 ^ 16 / 2 ^ 8), small) in
    let lo : bit_and (msg_id % 2 ^ 16) 0xff ≡ msg_id % 256 =
      omega (arith, mask_eight (msg_id % 2 ^ 16), small) in
    rw (le→ltb len (i + 2) room, hi, lo) (poke_two mem i (msg_id / 256) (msg_id % 256) there)

pub write_qos-overwrite :
    (mem : List ℕ) (i : ℕ) (qs : List ℕ)
    → i + length qs ≤ length mem
    → All (λ q. q < 256) qs
    → write_qos mem i qs ≡ done (overwrite mem i qs)
unfolding write_qos overwrite
write_qos-overwrite mem i [] room small = refl
write_qos-overwrite mem i (q ∷ qs) room (byte, small) =
    let b : q % 256 ≡ q = omega (arith, byte) in
    rw (b, poke-lt mem i q (omega arith))
      (write_qos-overwrite (set mem i q) (i + 1) qs (omega (arith, length-set mem i q)) small)

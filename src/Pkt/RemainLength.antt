-- ===== src/Pkt/RemainLength.antt =====
-- The remaining length of the fixed header: what `write_remain_length` writes.
use mqtt_server.Prelude.{
  ℕ, zero, suc, ◌+◌, ◌/◌, ◌%◌, ◌^◌, ◌≤◌, ◌<◌, ◌≡◌, refl, ap₂, ◌∙◌, arith, bit_and, List, [], ◌∷◌,
  length, set, ltb, if◌then◌else◌, Bool-cases, inl, inr, length-set,
}
use mqtt_server.Prelude.Bits.{low_seven, set_top_bit}
use mqtt_server.Prelude.Order.{lt_wf}
use mqtt_server.Prelude.Memory.{overwrite}
use mqtt_server.Pkt.{Pkt, ok, shrinks, write_digits, write_remain_length}
use mqtt_server.Pkt.Fill.{Room, fill}
use mqtt_server.Pkt.Write.{store-lt}
use mathlib.Core.Logic.{dif_pos, dif_neg}
use native.Mathlib.Nat.{pow-suc}
use mathlib.Core.WellFounded.{Acc}
use native.Mathlib.Bridge.{le_prop}
use native.Mathlib.Decide.{dec_lt}

-- The groups of seven bits of `n`, lowest first, with the top bit set on all but the last.
unfoldable pub groups : ℕ → ℕ → List ℕ
groups zero n = n ∷ []
groups (suc k) n =
    let rest = groups k (n / 128) in if ltb n 128 then n ∷ [] else ((n % 128 + 128) ∷ rest)

-- A `uint32_t` has five groups at most.
unfoldable pub remain_bytes : ℕ → List ℕ
unfolding groups
remain_bytes n = groups 4 n

pub length-groups : (k n : ℕ) → (1 ≤ length (groups k n)) × (length (groups k n) ≤ k + 1)
unfolding groups
length-groups zero n = omega arith
length-groups (suc k) n = ground (arith, length-groups k (n / 128))

-- One round of the loop: the last byte, and a byte with more to come.
write_digits_last :
    (p : Pkt) (n bytes : ℕ) (w : Acc ◌<◌ n)
    → n < 128
    → bytes < 200
    → p.offset + bytes < length p.mem
    → length p.mem < 2 ^ 32
    → write_digits p n bytes w ≡ ok (bytes + 1, record p { mem = set p.mem (p.offset + bytes) n })
unfolding write_digits
write_digits_last p n bytes (Acc.intro _ smaller) h hb room hm =
    let done : ¬ (0 < n / 128) = omega arith in
    let i : (p.offset + bytes) % 2 ^ 32 ≡ p.offset + bytes = omega arith in
    let d : n % 128 ≡ n = omega arith in
    let b : (bytes + 1) % 256 ≡ bytes + 1 = omega arith in
    let low : bit_and n 0x7f ≡ n = omega (arith, low_seven n (omega arith)) in
    rw (dif_neg (dec_lt 0 (n / 128)) done, i, d, low, store-lt p (p.offset + bytes) n room, b)

write_digits_more :
    (p : Pkt) (n bytes : ℕ) (smaller : (m : ℕ) → m < n → Acc ◌<◌ m)
    → 128 ≤ n
    → bytes < 200
    → p.offset + bytes < length p.mem
    → length p.mem < 2 ^ 32
    → (w : Acc ◌<◌ (n / 128)) × (write_digits p n bytes (Acc.intro n smaller)
        ≡ write_digits
            (record p { mem = set p.mem (p.offset + bytes) (n % 128 + 128) })
            (n / 128)
            (bytes + 1)
            w)
unfolding write_digits
write_digits_more p n bytes smaller h hb room hm =
    let more : 0 < n / 128 = omega arith in
    let i : (p.offset + bytes) % 2 ^ 32 ≡ p.offset + bytes = omega arith in
    let b : (bytes + 1) % 256 ≡ bytes + 1 = omega arith in
    let top = set_top_bit (n % 128) (omega arith) in
    (
      smaller (n / 128) (shrinks n more),
      rw (
        dif_pos (dec_lt 0 (n / 128)) le_prop more,
        i,
        top,
        store-lt p (p.offset + bytes) (n % 128 + 128) room,
        b,
      ),
    )

pub length-remain_bytes : (n : ℕ) → (1 ≤ length (remain_bytes n)) × (length (remain_bytes n) ≤ 5)
unfolding remain_bytes
length-remain_bytes n = length-groups 4 n

write_digits-groups :
    (k : ℕ) (p : Pkt) (n bytes : ℕ) (w : Acc ◌<◌ n)
    → n < 128 ^ suc k
    → bytes + k < 200
    → p.offset + bytes + length (groups k n) ≤ length p.mem
    → length p.mem < 2 ^ 32
    → write_digits p n bytes w
      ≡ ok (
        bytes + length (groups k n),
        record p { mem = overwrite p.mem (p.offset + bytes) (groups k n) },
      )
unfolding groups overwrite
write_digits-groups zero p n bytes w h hb room hm =
    write_digits_last p n bytes w (omega arith) (omega arith) (omega arith) hm
write_digits-groups (suc k) p n bytes (Acc.intro _ smaller) h hb room hm =
    elim (Bool-cases (ltb n 128)) [
      | inl small ↦ rw small (
          write_digits_last p n bytes (Acc.intro n smaller) (ground arith) (omega arith)
            (ground (arith, length-groups (suc k) n)) hm)
      | inr large ↦ rw large (
          let rest = groups k (n / 128) in
          let count : length (groups (suc k) n) ≡ suc (length rest) = rw large refl in
          let mem' = set p.mem (p.offset + bytes) (n % 128 + 128) in
          let same : length mem' ≡ length p.mem =
            length-set p.mem (p.offset + bytes) (n % 128 + 128) in
          let (w, step) =
            write_digits_more p n bytes smaller (ground arith) (omega arith) (omega (arith, count))
              hm in
          step
          ∙ write_digits-groups k (record p { mem = mem' }) (n / 128) (bytes + 1) w (below k n h)
              (omega arith) (omega (arith, count, same)) (omega (arith, same))
          ∙ ap₂ (λ (c o : ℕ). ok (c, record p { mem = overwrite mem' o rest })) (omega arith)
              (omega arith))
    ]
  where
    below : (j m : ℕ) → m < 128 ^ suc (suc j) → m / 128 < 128 ^ suc j
    below j m lt = omega (arith, pow-suc 128 (suc j))

-- `write_remain_length` of a `uint32_t`, with room for its groups of seven bits, lays them over
-- the memory at the cursor, moves past them and answers their number.
pub write_remain_length-Room :
    {p : Pkt} (n : ℕ)
    → n < 2 ^ 32
    → Room p (length (remain_bytes n))
    → length p.mem < 2 ^ 32
    → write_remain_length p n ≡ ok (length (remain_bytes n), fill p (remain_bytes n))
unfolding write_remain_length remain_bytes
write_remain_length-Room {p} n h r hm =
    let e =
      write_digits-groups 4 p n 0 (lt_wf.apply n) (omega arith) (omega arith)
        (omega (arith, r.fits, r.backed)) hm in
    let zero_bytes : p.offset + 0 ≡ p.offset = omega arith in
    let no_bytes : 0 + length (groups 4 n) ≡ length (groups 4 n) = omega arith in
    rw (e, zero_bytes, no_bytes)

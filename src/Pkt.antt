-- ===== src/Pkt.antt =====
-- src/mqttc++/mqtt_pkt.cpp and include/mqttc++/mqtt_pkt.hpp: `CMqttPkt`, a cursor over a byte
-- buffer, and `remain_length`, which finds the end of the first packet of a buffer.
-- `mem` is the memory from `m_buf_ptr` on; an access outside it is the result `fault`.
-- Numbers are the bit patterns of the source's `uint32_t` and `int`.
pub mod Frame
pub mod Read
pub mod Fill
pub mod Write
pub mod RemainLength
pub mod Framing
use mqtt_server.Prelude.{
  ℕ, zero, suc, ◌+◌, ◌-◌, ◌*◌, ◌/◌, ◌%◌, ◌^◌, ◌<◌, bit_and, bit_or, Bool, true, false, List, [],
  ◌∷◌, Option, none, some, arith, ltb, leb, ◌==◌, if◌then◌else◌, get_elem?, set, take, length,
}
use mqtt_server.Prelude.Order.{lt_wf}
use mathlib.Core.Logic.{dite}
use mathlib.Core.WellFounded.{Acc}
use native.Mathlib.Decide.{dec_lt}

-- The negative results: FAILTURE (-1) and NEED_MORE_DATA (-2).
pub data Code : Type 0 where
  failure need_more_data : Code

pub record Pkt : Type 0 where
  pub mem : List ℕ
  pub offset : ℕ
  pub max_size : ℕ

-- A method's result: a value on SUCCESS, or a negative code with the state it leaves. `fault` is
-- an access outside the memory; `stuck` is no outcome of the source, but a loop out of fuel.
pub data Res {ℓ} (A : Type ℓ) : Type ℓ where
  ok : A → Res A
  err : Code → Pkt → Res A
  fault : Res A
  stuck : Res A

infixl 5 ◌>>=◌
abbrev pub ◌>>=◌ {ℓ κ} : {A : Type ℓ} {B : Type κ} → Res A → (A → Res B) → Res B
ok a >>= f = f a
err c p >>= f = err c p
fault >>= f = fault
stuck >>= f = stuck

-- `CMqttPkt(buf, len)`
abbrev pub new_pkt : List ℕ → ℕ → Pkt
new_pkt buf len = record { mem = buf; offset = 0; max_size = len }

-- `a < b` on two `int`s given by their bit patterns.
abbrev pub int_lt : ℕ → ℕ → Bool
int_lt a b = ltb ((a + 2 ^ 31) % 2 ^ 32) ((b + 2 ^ 31) % 2 ^ 32)

abbrev pub left_size : Pkt → ℕ
left_size p = (p.max_size + 2 ^ 32 - p.offset) % 2 ^ 32

-- `m_offset += n`
abbrev pub advance : Pkt → ℕ → Pkt
advance p n = record p { offset = (p.offset + n) % 2 ^ 32 }

abbrev pub or_fault {ℓ} : {A : Type ℓ} → Option A → Res A
or_fault none = fault
or_fault (some a) = ok a

-- The loop of `remain_length`. `rounds` is MAX_REMAIN_LENGTH_BYTES - offset.
pub data Scan : Type 0 where
  last_byte : (value offset : ℕ) → Scan
  no_last_byte : ℕ → Scan
  over_read : Scan

unfoldable pub scan : (rounds : ℕ) (buf : List ℕ) (offset value : ℕ) → Scan
scan zero buf offset value = no_last_byte offset
scan (suc rounds) buf offset value = elim (get_elem? buf (1 + offset)) [
  | none ↦ over_read
  | some byte_value ↦
      let low = bit_and byte_value 0x7f in
      let value' = if offset == 0 then low else bit_or (low * 2 ^ 7 % 2 ^ 32) value in
      let rest = scan rounds buf (offset + 1) value' in
      if bit_and byte_value 0x80 == 0 then last_byte value' offset else rest
]

-- `remain_length`: the value and the bytes of the remaining length, where the packet is complete.
pub data Framed : Type 0 where
  framed : (remain_length_value remain_length_bytes : ℕ) → Framed
  refused : Code → Framed
  out_of_bounds : Framed

-- What follows the loop.
abbrev pub frame : ℕ → Scan → Framed
frame len over_read = out_of_bounds
frame len (no_last_byte offset) = if leb 4 offset then refused failure else refused need_more_data
frame len (last_byte value offset) =
    let bytes = (offset + 1) % 256 in
    if ltb len ((value + bytes + 1) % 2 ^ 32) then refused need_more_data else framed value bytes

unfoldable pub remain_length : List ℕ → ℕ → Framed
remain_length pkt_buf len = frame len (scan 4 pkt_buf 0 0)

-- What the caller gets: both reference parameters and the packet.
unfoldable pub read_remain_length : Pkt → Res (ℕ × ℕ × Pkt)
read_remain_length p =
    if int_lt (left_size p) 2 then err failure p else elim (remain_length p.mem p.max_size) [
      | out_of_bounds ↦ fault
      | refused c ↦ err c p
      | framed value bytes ↦ ok (value, bytes, advance p bytes)
    ]

unfoldable pub read_byte : Pkt → Res (ℕ × Pkt)
read_byte p =
    if int_lt (left_size p) 1
    then err failure p
    else or_fault (get_elem? p.mem p.offset) >>= λ value. ok (value, advance p 1)

-- `n` bytes of the memory from `i` on.
unfoldable pub copy_out : (n : ℕ) → List ℕ → (i : ℕ) → Option (List ℕ)
copy_out zero mem i = some []
copy_out (suc n) mem i = elim (get_elem? mem i) [
  | none ↦ none
  | some b ↦ elim (copy_out n mem (i + 1)) [ none ↦ none | some bs ↦ some (b ∷ bs) ]
]

-- `read_byte(payload, len)`: a negative `len` reads nothing.
unfoldable pub read_payload : Pkt → ℕ → Res (List ℕ × Pkt)
read_payload p len =
    if int_lt (left_size p) len
    then err failure p
    else or_fault (copy_out (if int_lt 0 len then len else 0) p.mem p.offset) >>= λ payload.
        ok (payload, advance p len)

unfoldable pub read_short : Pkt → Res (ℕ × Pkt)
read_short p = if int_lt (left_size p) 2 then err failure p else do
  hi ← or_fault (get_elem? p.mem p.offset)
  lo ← or_fault (get_elem? p.mem ((p.offset + 1) % 2 ^ 32))
  ok (bit_or (hi * 2 ^ 8) (bit_and lo 0xff) % 2 ^ 16, advance p 2)

unfoldable pub read_string : Pkt → Res (List ℕ × Pkt)
read_string p = do
  (str_len, q) ← read_short p
  if int_lt (left_size q) str_len
      then err failure q
      else or_fault (copy_out str_len q.mem q.offset) >>= λ str. ok (str, advance q str_len)

-- `m_buf_ptr[i] = v`
abbrev pub store : Pkt → ℕ → ℕ → Res Pkt
store p i v = if ltb i (length p.mem) then ok (record p { mem = set p.mem i v }) else fault

pub shrinks : (n : ℕ) → 0 < n / 128 → n / 128 < n
shrinks n h = omega arith

-- The do-while loop of `write_remain_length`; it does not look at `left_size`.
unfoldable pub write_digits : Pkt → (len bytes : ℕ) → Acc ◌<◌ len → Res (ℕ × Pkt)
write_digits p len bytes (Acc.intro _ smaller) =
    dite (dec_lt 0 (len / 128))
      (λ more. store p ((p.offset + bytes) % 2 ^ 32) (bit_or (len % 128) 0x80) >>= λ q.
        write_digits q (len / 128) ((bytes + 1) % 256) (smaller (len / 128) (shrinks len more)))
      (λ _. store p ((p.offset + bytes) % 2 ^ 32) (bit_and (len % 128) 0x7f) >>= λ q.
        ok ((bytes + 1) % 256, q))

unfoldable pub write_remain_length : Pkt → ℕ → Res (ℕ × Pkt)
write_remain_length p len = do
  (bytes, q) ← write_digits p len 0 (lt_wf.apply len)
  ok (bytes, advance q bytes)

unfoldable pub write_byte : Pkt → ℕ → Res Pkt
write_byte p value =
    if int_lt (left_size p) 1
    then err failure p
    else store p p.offset value >>= λ q. ok (advance q 1)

-- `memcpy` to index `i`.
unfoldable pub copy_in : Pkt → ℕ → List ℕ → Res Pkt
copy_in p i [] = ok p
copy_in p i (b ∷ bs) = store p i b >>= λ q. copy_in q (i + 1) bs

-- `write_byte(buf, size)`: both callers pass the size of the container, as an `int`.
unfoldable pub write_bytes : Pkt → List ℕ → Res Pkt
write_bytes p buf =
    let size = length buf % 2 ^ 32 in
    if int_lt (left_size p) size
    then err failure p
    else if int_lt size 0
    then fault
    else copy_in p p.offset (take size buf) >>= λ q. ok (advance q size)

unfoldable pub write_short : Pkt → ℕ → Res Pkt
write_short p value = if int_lt (left_size p) 2 then err failure p else do
  q ← store p p.offset (bit_and (value / 2 ^ 8) 0xff)
  r ← store (advance q 1) (advance q 1).offset (bit_and value 0xff)
  ok (advance r 1)

-- The `uint16_t` parameter of `write_short` takes the size modulo 2 ^ 16.
unfoldable pub write_string : Pkt → List ℕ → Res Pkt
write_string p buf = write_short p (length buf % 2 ^ 16) >>= λ q. write_bytes q buf

-- A caller that ignores a method's result goes on with the state it left.
abbrev pub settle : Res Pkt → Res Pkt
settle (ok p) = ok p
settle (err c p) = ok p
settle fault = fault
settle stuck = stuck

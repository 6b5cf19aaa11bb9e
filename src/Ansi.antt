-- ===== src/Ansi.antt =====
-- src/mqtt/helper.c, src/mqtt/mqtt_common.h and src/mqtt/mqtt_pkt_ansi.c: the packets in C. A
-- buffer is the memory behind its pointer, with the length the caller gives. The functions below
-- are those of helper.c, without the ones that print or free.
pub mod Encode
pub mod Decode
pub mod Layout
pub mod Acks
use mqtt_server.Prelude.{
  ℕ, zero, suc, ◌+◌, ◌-◌, ◌*◌, ◌/◌, ◌%◌, ◌^◌, bit_and, bit_or, Bool, true, false, List, [], ◌∷◌,
  Option, none, some, ltb, leb, ◌==◌, if◌then◌else◌, get_elem?, set, length,
}
use mqtt_server.Prelude.Keyed.{same}
use mqtt_server.Pkt.{Code, failure, need_more_data}

-- A result, a negative code, or an access outside the memory.
pub data Out (A : Type 0) : Type 0 where
  done : A → Out A
  refused : Code → Out A
  overrun : Out A

infixl 5 ◌>>=◌
abbrev pub ◌>>=◌ : {A B : Type 0} → Out A → (A → Out B) → Out B
done a >>= f = f a
refused c >>= f = refused c
overrun >>= f = overrun

abbrev pub from : {A : Type 0} → Option A → Out A
from none = overrun
from (some a) = done a

-- `buf[i]` and `buf[i] = v`
abbrev pub peek : List ℕ → ℕ → Out ℕ
peek mem i = from (get_elem? mem i)

abbrev pub poke : List ℕ → (i v : ℕ) → Out (List ℕ)
poke mem i v = if ltb i (length mem) then done (set mem i v) else overrun

abbrev pub has_remain_len : ℕ → Bool
has_remain_len value = bit_and value 0x80 == 0x80

-- `new_string` and `memcmp` read so many bytes.
unfoldable pub new_string : List ℕ → (start n : ℕ) → Out (List ℕ)
new_string mem start zero = done []
new_string mem start (suc n) = do
  b ← peek mem start
  bs ← new_string mem (start + 1) n
  done (b ∷ bs)

-- The loop of `mqtt_remain_length`; `rounds` is MAX_REMAIN_LENGTH_BYTES - offset. The value and
-- the offset, where a last byte was found.
unfoldable pub remain_loop :
    (rounds : ℕ) → List ℕ → (start len offset value : ℕ) → Out (Option (ℕ × ℕ))
remain_loop zero mem start len offset value = done none
remain_loop (suc rounds) mem start len offset value =
    let rest : ℕ → Out (Option (ℕ × ℕ)) = remain_loop rounds mem start len (offset + 1) in
    if ltb offset len
    then (do
      byte_value ← peek mem (start + offset)
      let value' = bit_or (value * 2 ^ 7) (bit_and byte_value 0x7f)
      if has_remain_len byte_value then rest value' else done (some (value', offset)))
    else done none

-- `mqtt_remain_length(buf + start, len, ...)`: the value and its number of bytes.
unfoldable pub mqtt_remain_length : List ℕ → (start len : ℕ) → Out (ℕ × ℕ)
mqtt_remain_length mem start len = remain_loop 4 mem start len 0 0 >>= λ found. elim found [
  | none ↦ if leb 4 len then refused failure else refused need_more_data
  | some (value, offset) ↦
      if ltb len (value + offset) then refused need_more_data else done (value, offset + 1)
]

-- `get_short(buf + offset, len - offset)`
unfoldable pub get_short : List ℕ → (len offset : ℕ) → Out ℕ
get_short mem len offset = if ltb len (offset + 2) then done 0 else do
  hi ← peek mem offset
  lo ← peek mem (offset + 1)
  done (bit_or (hi * 2 ^ 8) (bit_and lo 0xff) % 2 ^ 16)

-- `get_string(buf + offset, len - offset, ...)`: the start and the length of the string; the
-- result of the source is the length and two. `len - offset` is taken as an unsigned short.
unfoldable pub get_string : List ℕ → (len offset : ℕ) → Out (ℕ × ℕ)
get_string mem len offset = do
  str_len ← get_short mem len offset
  if ltb ((len + 2 ^ 32 - offset) % 2 ^ 16) str_len
      then refused failure
      else done (offset + 2, str_len)

-- `write_short(buf + offset, len - offset, msg_id)` on an unsigned short.
unfoldable pub write_short : List ℕ → (len offset msg_id : ℕ) → Out (List ℕ)
write_short mem len offset msg_id = if ltb len (offset + 2) then refused failure else do
  mem1 ← poke mem offset (bit_and (msg_id % 2 ^ 16 / 2 ^ 8) 0xff)
  poke mem1 (offset + 1) (bit_and (msg_id % 2 ^ 16) 0xff)

-- A caller that ignores the code goes on with the memory as it was.
abbrev pub settle : List ℕ → Out (List ℕ) → Out (List ℕ)
settle mem (done mem') = done mem'
settle mem (refused c) = done mem
settle mem overrun = overrun

unfoldable pub write_string : List ℕ → (len offset : ℕ) → List ℕ → Out (ℕ × List ℕ)
write_string mem len offset str = if ltb len (offset + length str + 2) then refused failure else do
  mem1 ← settle mem (write_short mem len offset (length str))
  mem2 ← copy_from mem1 (offset + 2) str
  done (length str + 2, mem2)
  where
    copy_from : List ℕ → ℕ → List ℕ → Out (List ℕ)
    copy_from mem i [] = done mem
    copy_from mem i (b ∷ bs) = do mem1 ← poke mem i b; copy_from mem1 (i + 1) bs

-- "MQIsdp" and "MQTT".
abbrev pub mqisdp : List ℕ
mqisdp = 77 ∷ 81 ∷ 73 ∷ 115 ∷ 100 ∷ 112 ∷ []

abbrev pub mqtt : List ℕ
mqtt = 77 ∷ 81 ∷ 84 ∷ 84 ∷ []

unfoldable pub check_protocol_name : List ℕ → (start protocol_name_len : ℕ) → Out Unit
check_protocol_name mem start n = do
  wanted ← (if n == 6 then done mqisdp else if n == 4 then done mqtt else refused failure)
  name ← new_string mem start n
  if same name wanted then done tt else refused failure

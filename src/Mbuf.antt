-- ===== src/Mbuf.antt =====
-- src/common/mbuf.cpp and include/common/mbuf.hpp: `CMbuf`, a fixed buffer with a read and a
-- write position. `mem` is the memory that `new uint8_t[size]` gave, so `m_data.size` is its length.
pub mod Laws
use mqtt_server.Prelude.{
  ℕ, zero, suc, ◌+◌, ◌-◌, ◌^◌, ◌%◌, Bool, true, false, List, [], ◌∷◌, Option, none, some, ltb,
  length, take, drop, if◌then◌else◌,
}
use mqtt_server.Prelude.Memory.{overwrite}

pub record Mbuf : Type 0 where
  pub mem : List ℕ
  pub msg_type : ℕ
  pub read_pos : ℕ
  pub write_pos : ℕ
  pub msg_id : ℕ
  pub time : ℕ

-- MSG_DATA
abbrev pub msg_data : ℕ
msg_data = 1

-- MSG_PUBLISH
abbrev pub msg_publish : ℕ
msg_publish = 2

-- `CMbuf(size)` and `init`: the memory that was allocated, and the time of the call.
unfoldable pub init : List ℕ → ℕ → Mbuf
init mem now = record {
  mem = mem;
  msg_type = msg_data;
  read_pos = 0;
  write_pos = 0;
  msg_id = 0;
  time = now;
}

abbrev pub max_size : Mbuf → ℕ
max_size b = length b.mem

-- `read_ptr(n)` and `write_ptr(n)`; a move past the end is ignored.
unfoldable pub skip_read : Mbuf → ℕ → Mbuf
skip_read b n =
    if ltb (max_size b) ((b.read_pos + n) % 2 ^ 32)
    then b
    else record b { read_pos = (b.read_pos + n) % 2 ^ 32 }

unfoldable pub skip_write : Mbuf → ℕ → Mbuf
skip_write b n =
    if ltb (max_size b) ((b.write_pos + n) % 2 ^ 32)
    then b
    else record b { write_pos = (b.write_pos + n) % 2 ^ 32 }

-- `copy(buf, len)` with `len` the size of `buf`; `none` is -1.
unfoldable pub copy : Mbuf → List ℕ → Option Mbuf
copy b buf =
    let end = (b.write_pos + length buf) % 2 ^ 32 in
    if ltb (max_size b) end
    then none
    else some (record b { mem = overwrite b.mem b.write_pos buf; write_pos = end })

-- A `uint32_t` difference, as in `length` and `available_buf`.
abbrev pub sub32 : ℕ → ℕ → ℕ
sub32 a b = (a + 2 ^ 32 - b) % 2 ^ 32

unfoldable pub count : Mbuf → ℕ
count b = sub32 b.write_pos b.read_pos

unfoldable pub available_buf : Mbuf → ℕ
available_buf b = sub32 (max_size b) b.write_pos

unfoldable pub reset : Mbuf → Mbuf
reset b = record b { read_pos = 0; write_pos = 0 }

-- The bytes between the two positions, which `read_ptr()` points to.
unfoldable pub contents : Mbuf → List ℕ
unfolding count
contents b = take (count b) (drop b.read_pos b.mem)

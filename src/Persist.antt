-- ===== src/Persist.antt =====
-- src/mqtt_server/persist_msg_pack.cpp, `CPersistMsgPack`: the database file that the broker
-- writes when it ends and reads when it starts. The packing of msgpack and the file system are
-- parameters.
pub mod Store
pub mod Restore
pub mod Chunks
pub mod Loop
pub mod Mbufs
pub mod Written
pub mod Cleared
pub mod Messages
pub mod Sessions
pub mod Retained
use mqtt_server.Prelude.{ℕ, ◌+◌, ◌*◌, ◌/◌, ◌%◌, List, [], ◌∷◌, Option, Bool}
use mqtt_server.Mbuf.{Mbuf}
use mqtt_server.Broker.{Context}

-- CHUNK_TYPE
pub data ChunkType : Type 0 where
  global_info db_msg client_msg topic_info : ChunkType

abbrev pub chunk_code : ChunkType → ℕ
chunk_code global_info = 1
chunk_code db_msg = 2
chunk_code client_msg = 3
chunk_code topic_info = 4

abbrev pub chunk_tag : ℕ
chunk_tag = 0xEE

-- The size of the static buffer that `restore` reads a chunk into.
abbrev pub max_chunk : ℕ
max_chunk = 1048576

-- A uint32_t in the memory of a little-endian machine, where its address is written from.
abbrev pub le32 : ℕ → List ℕ
le32 n = n % 256 ∷ n / 256 % 256 ∷ n / 65536 % 256 ∷ n / 16777216 % 256 ∷ []

-- What msgpack packs of the store, a buffer, a session and a map of buffers, and what it unpacks
-- of some bytes; `none` is an exception, which nothing catches. A session is unpacked into one
-- that exists, whose other fields stay.
pub record Format : Type 0 where
  pub pack_store : (last_msg_id last_update_time : ℕ) → List ℕ
  pub unpack_store : List ℕ → Option (ℕ × ℕ)
  pub pack_mbuf : Mbuf → List ℕ
  pub unpack_mbuf : List ℕ → Option Mbuf
  pub pack_context : Context → List ℕ
  pub unpack_context : List ℕ → Context → Option Context
  pub pack_map : List (List ℕ × Mbuf) → List ℕ
  pub unpack_map : List ℕ → Option (List (List ℕ × Mbuf))

-- Whether `fopen` for writing succeeds, and how many of the bytes `fwrite` appends to a file.
pub record Disk : Type 0 where
  pub opens : Bool
  pub fwrite : (file bytes : List ℕ) → ℕ

-- ===== src/Persist/Chunks.antt =====
-- The chunks of the database file: what `write_chunk_info` and `write` lay out is what `restore`
-- reads, a chunk at a time.
use mqtt_server.Prelude.{
  ℕ, ◌+◌, ◌*◌, ◌/◌, ◌%◌, ◌^◌, ◌≤◌, ◌<◌, ◌≡◌, refl, arith, List, [], ◌∷◌, ◌++◌, some, true, false,
  length, ltb, leb, length-append, take-append, drop-append, take-all, append_assoc,
}
use mqtt_server.Persist.{
  ChunkType, global_info, db_msg, client_msg, topic_info, chunk_code, chunk_tag, max_chunk, le32,
  Disk,
}
use mqtt_server.Persist.Store.{write, write_chunk_info, write_chunk}
use mqtt_server.Persist.Restore.{wrong, chunk, read_body, read_chunk, to_chunk_type}

-- The header and the bytes of a chunk.
abbrev pub chunk_bytes : ChunkType → List ℕ → List ℕ
chunk_bytes chunk_type packed = chunk_tag ∷ chunk_code chunk_type ∷ (le32 (length packed) ++ packed)

-- A disk that has room for everything.
abbrev pub TakesAll : Disk → Type 0
TakesAll disk = (file bytes : List ℕ) → disk.fwrite file bytes ≡ length bytes

write-TakesAll :
    (disk : Disk) (bytes file : List ℕ)
    → TakesAll disk
    → write disk bytes file ≡ (true, file ++ bytes)
unfolding write
write-TakesAll disk bytes file all =
    rw (all file bytes, take-all (length bytes) bytes (omega arith)) (ground arith)

pub write_chunk-TakesAll :
    (disk : Disk) (chunk_type : ChunkType) (packed file : List ℕ)
    → TakesAll disk
    → length packed < 2 ^ 32
    → write_chunk disk chunk_type packed file ≡ (true, file ++ chunk_bytes chunk_type packed)
unfolding write_chunk write_chunk_info
write_chunk-TakesAll disk ty packed file all small =
    let n : length packed % 2 ^ 32 ≡ length packed = omega (arith, small) in
    let head = chunk_tag ∷ [] in
    let code = chunk_code ty ∷ [] in
    let size = le32 (length packed) in
    rw
      (
        n,
        write-TakesAll disk head file all,
        write-TakesAll disk code (file ++ head) all,
        write-TakesAll disk size ((file ++ head) ++ code) all,
        write-TakesAll disk packed (((file ++ head) ++ code) ++ size) all,
        append_assoc ((file ++ head) ++ code) size packed,
        append_assoc (file ++ head) code (size ++ packed),
        append_assoc file head (code ++ (size ++ packed)),
      )
      refl

le32-value :
    (n : ℕ)
    → n < 2 ^ 32
    → n % 256 + 256 * (n / 256 % 256) + 65536 * (n / 65536 % 256) + 16777216 * (n / 16777216 % 256)
      ≡ n
le32-value n h = omega (arith, h)

-- A chunk of at most 1 MiB is read back, and what follows it is left.
pub read_chunk-chunk_bytes :
    (ty : ChunkType) (packed rest : List ℕ)
    → length packed ≤ max_chunk
    → read_chunk (chunk_bytes ty packed ++ rest) ≡ chunk (chunk_code ty) packed rest
unfolding read_chunk read_body
read_chunk-chunk_bytes ty packed rest fits =
    let n = le32-value (length packed) (omega (arith, fits)) in
    let some_left = length-append packed rest in
    let here : ltb max_chunk (length packed) ≡ false = ground (arith, fits) in
    let there : leb (length packed) (length (packed ++ rest)) ≡ true = ground (arith, some_left) in
    rw
      (
        n,
        here,
        there,
        take-append (length packed) packed rest refl,
        drop-append (length packed) packed rest refl,
      )
      refl

-- A chunk that is larger is refused, whatever follows.
pub read_chunk-large :
    (ty : ChunkType) (packed rest : List ℕ)
    → max_chunk < length packed
    → length packed < 2 ^ 32
    → read_chunk (chunk_bytes ty packed ++ rest) ≡ wrong
unfolding read_chunk read_body
read_chunk-large ty packed rest large small =
    let n = le32-value (length packed) small in
    let here : ltb max_chunk (length packed) ≡ true = ground (arith, large) in rw (n, here) refl

pub to_chunk_type-chunk_code : (ty : ChunkType) → to_chunk_type (chunk_code ty) ≡ some ty
to_chunk_type-chunk_code global_info = refl
to_chunk_type-chunk_code db_msg = refl
to_chunk_type-chunk_code client_msg = refl
to_chunk_type-chunk_code topic_info = refl

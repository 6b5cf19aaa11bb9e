-- ===== src/Persist/Written.antt =====
-- What `store_db_msg` writes: a chunk for each message that a table names.
use mqtt_server.Prelude.{
  ℕ, ◌≤◌, ◌≡◌, ◌≢◌, sym, ap, ◌∙◌, arith, List, [], ◌∷◌, ◌++◌, Option, none, some, true, length, All,
  append_assoc, append-nil, get_elem?, subst,
}
use mqtt_server.Mbuf.{Mbuf}
use mqtt_server.Mbuf.Laws.{IsValid}
use mqtt_server.Broker.{World}
use mqtt_server.Persist.{db_msg, max_chunk, Format, Disk}
use mqtt_server.Persist.Store.{store_db_msg}
use mqtt_server.Persist.Chunks.{chunk_bytes, TakesAll, write_chunk-TakesAll}
use mqtt_server.Persist.Loop.{Chunks, file_of, AllFit}

-- The chunks of the messages that a table names.
abbrev pub db_chunks : Format → List Mbuf → List (ℕ × ℕ) → Chunks
db_chunks format mbufs [] = []
db_chunks format mbufs ((_, b) ∷ db) = elim (get_elem? mbufs b) [
  | none ↦ db_chunks format mbufs db
  | some m ↦ (db_msg, format.pack_mbuf m) ∷ db_chunks format mbufs db
]

-- The entry names a valid buffer that carries its id, not 0, and is at most 1 MiB when packed.
abbrev pub Storable : Format → List Mbuf → ℕ × ℕ → Type 0
Storable format mbufs (id, b) =
    (m : Mbuf) × (get_elem? mbufs b ≡ some m)
    × IsValid m
    × (m.msg_id ≡ id)
    × (id ≢ 0)
    × (length (format.pack_mbuf m) ≤ max_chunk)

pub db_chunks-cons :
    (format : Format) (mbufs : List Mbuf) (id b : ℕ) (db : List (ℕ × ℕ)) (m : Mbuf)
    → get_elem? mbufs b ≡ some m
    → db_chunks format mbufs ((id, b) ∷ db)
      ≡ (db_msg, format.pack_mbuf m) ∷ db_chunks format mbufs db
db_chunks-cons format mbufs id b db m here =
    ap
      (λ (o : Option Mbuf). elim o as (λ _. Chunks) [
        | none ↦ db_chunks format mbufs db
        | some r ↦ (db_msg, format.pack_mbuf r) ∷ db_chunks format mbufs db
      ])
      here

pub store_db_msg-file_of :
    (format : Format) (disk : Disk) (db : List (ℕ × ℕ)) (file : List ℕ) (w : World)
    → TakesAll disk
    → All (Storable format w.mbufs) db
    → store_db_msg format disk db file w
      ≡ some ((true, file ++ file_of (db_chunks format w.mbufs db)), w)
unfolding store_db_msg
store_db_msg-file_of format disk [] file w all _ =
    ap (λ (l : List ℕ). some ((true, l), w)) (sym (append-nil file))
store_db_msg-file_of format disk ((id, b) ∷ db) file w all ((m, here, _, _, _, fits), more) =
    let packed = format.pack_mbuf m in
    let wrote_it = write_chunk-TakesAll disk db_msg packed file all (omega (arith, fits)) in
    let file' = file ++ chunk_bytes db_msg packed in
    let rest = store_db_msg-file_of format disk db file' w all more in
    let step : store_db_msg format disk ((id, b) ∷ db) file w
        ≡ store_db_msg format disk db file' w =
      ground (arith, here, wrote_it) in
    let joined =
      append_assoc file (chunk_bytes db_msg packed) (file_of (db_chunks format w.mbufs db)) in
    let first = db_chunks-cons format w.mbufs id b db m here in
    step
    ∙ rest
    ∙ ap (λ (l : List ℕ). some ((true, l), w))
        (joined ∙ ap (λ (cs : Chunks). file ++ file_of cs) (sym first))

pub db_chunks-AllFit :
    (format : Format) (mbufs : List Mbuf) (db : List (ℕ × ℕ))
    → All (Storable format mbufs) db
    → AllFit (db_chunks format mbufs db)
db_chunks-AllFit format mbufs [] _ = tt
db_chunks-AllFit format mbufs ((id, b) ∷ db) ((m, here, _, _, _, fits), more) =
    subst AllFit (sym (db_chunks-cons format mbufs id b db m here))
      (fits, db_chunks-AllFit format mbufs db more)

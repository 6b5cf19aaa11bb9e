-- ===== src/Persist/Messages.antt =====
-- The messages of the store through the database file: `store_db_msg` writes them and `restore`
-- brings them back.
use mqtt_server.Prelude.{ℕ, ◌≡◌, List, some, get_elem?}
use mqtt_server.Mbuf.{Mbuf, contents}
use mqtt_server.MsgStore.{MsgStore, lookup}
use mqtt_server.MsgStore.Laws.{Absent}
use mqtt_server.Broker.{World}
use mqtt_server.Persist.Restore.{TmpDb, held_from}
use mqtt_server.Persist.Loop.{Chunks}
use mqtt_server.Persist.Cleared.{kept}

-- What the restoring of messages keeps: the buffers there are, and what is known of other ids.
abbrev Keeps : List (ℕ × ℕ) → TmpDb → World → TmpDb → World → Type 0
Keeps db tmp v tmp' u =
    ((id : ℕ)
      → Absent id db
      → (lookup id tmp' ≡ lookup id tmp) × (lookup id u.store.msg_db ≡ lookup id v.store.msg_db))
    × ((b : ℕ) (m : Mbuf) → get_elem? v.mbufs b ≡ some m → get_elem? u.mbufs b ≡ some m)

-- The id has a buffer again, in the store and for the sessions, with the same contents.
abbrev pub Restored : List Mbuf → TmpDb → World → ℕ × ℕ → Type 0
Restored mbufs tmp u (id, b) =
    (m : Mbuf) × (m' : Mbuf) × (b' : ℕ) × (get_elem? mbufs b ≡ some m)
    × (lookup id tmp ≡ some b')
    × (lookup id u.store.msg_db ≡ some b')
    × (get_elem? u.mbufs b' ≡ some m')
    × (contents m' ≡ contents m)
    × (m'.msg_id ≡ id)

-- The id's buffer is there after `restore`, with the contents it was stored with, and the store
-- names it where something holds it.
abbrev pub Survived : List Mbuf → World → World → ℕ × ℕ → Type 0
Survived mbufs u v (id, b) =
    (m : Mbuf) × (m' : Mbuf) × (b' : ℕ) × (get_elem? mbufs b ≡ some m)
    × (get_elem? v.mbufs b' ≡ some m')
    × (contents m' ≡ contents m)
    × (m'.msg_id ≡ id)
    × (lookup id v.store.msg_db ≡ kept (held_from 0 u.contexts b' u) (some b'))

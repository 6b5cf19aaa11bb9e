-- ===== src/Broker/ClientIds.antt =====
-- src/mqtt_server/client_db_id.cpp, `CClientIdContext`: the context of each client id.
use mqtt_server.Prelude.{ℕ, List, Option, none, some, Bool, true, false, ◌≡◌, arith, if◌then◌else◌}
use mqtt_server.Prelude.Keyed.{
  same, find_key, put_key, erase_key, find-put_same, find-put_other, find-erase_same,
  find-erase_other, same→eq,
}
use mqtt_server.Broker.{World}

-- `none` is -1.
unfoldable pub find_client_context : List ℕ → World → Option ℕ
find_client_context client_id w = find_key client_id w.client_ids

-- A client id that is there keeps its context; false is -1.
unfoldable pub add_client_context : List ℕ → ℕ → World → Bool × World
add_client_context client_id context w = elim (find_key client_id w.client_ids) [
  | none ↦ (true, record w { client_ids = put_key client_id context w.client_ids })
  | some _ ↦ (false, w)
]

unfoldable pub del_client_context : List ℕ → World → Bool × World
del_client_context client_id w = elim (find_key client_id w.client_ids) [
  | none ↦ (false, w)
  | some _ ↦ (true, record w { client_ids = erase_key client_id w.client_ids })
]

-- After an addition the client id has the context it had before, if it had one, and the given
-- one otherwise; the other client ids have the context they had.
pub find-add_client_context :
    (k j : List ℕ) (x : ℕ) (w : World)
    → find_client_context j (add_client_context k x w).1 ≡ (
        if same k j
        then elim (find_client_context j w) [ none ↦ some x | some y ↦ some y ]
        else find_client_context j w)
unfolding find_client_context add_client_context
find-add_client_context k j x w =
    ground (arith, find-put_same k x w.client_ids, find-put_other k j x w.client_ids, same→eq k j)

-- After a deletion the client id has no context, and the other client ids have the one they had.
pub find-del_client_context :
    (k j : List ℕ) (w : World)
    → find_client_context j (del_client_context k w).1
      ≡ (if same k j then none else find_client_context j w)
unfolding find_client_context del_client_context
find-del_client_context k j w =
    ground (arith, find-erase_same k w.client_ids, find-erase_other k j w.client_ids, same→eq k j)

-- After an addition the client id has the context it had before, if it had one, and the given one
-- otherwise; after a deletion it has none; in both cases every other client id has the context it
-- had.
pub find-add_del_client_context :
    (k j : List ℕ) (x : ℕ) (w : World)
    → (find_client_context j (add_client_context k x w).1 ≡ (
        if same k j
        then elim (find_client_context j w) [ none ↦ some x | some y ↦ some y ]
        else find_client_context j w))
      × (find_client_context j (del_client_context k w).1
          ≡ (if same k j then none else find_client_context j w))
find-add_del_client_context k j x w =
    (find-add_client_context k j x w, find-del_client_context k j w)

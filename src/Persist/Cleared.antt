-- ===== src/Persist/Cleared.antt =====
-- What `m_tmp_msg_db.clear()` leaves at the end of `restore`.
use mqtt_server.Prelude.{
  ℕ, suc, ◌≡◌, refl, sym, ap, ◌∙◌, arith, List, [], ◌∷◌, Option, none, some, Bool, ◌==◌,
  if◌then◌else◌, Bool-cases, inl, inr,
}
use mqtt_server.MsgStore.{MsgStore, lookup, del_msg}
use mqtt_server.MsgStore.Laws.{Distinct, cons, lookup-erase, erase-Distinct}
use mqtt_server.Broker.{World, Context}
use mqtt_server.Persist.Restore.{TmpDb, held_from, clear_tmp}

held_from-store :
    (x : ℕ) (contexts : List Context) (b : ℕ) (w : World) (s : MsgStore)
    → held_from x contexts b (record w { store = s }) ≡ held_from x contexts b w
held_from-store x [] b w s = refl
held_from-store x (ctx ∷ contexts) b w s =
    let rest = held_from-store (suc x) contexts b w s in rw rest refl

-- The entry of an id, where the buffer is kept or is deleted.
abbrev pub kept : Bool → Option ℕ → Option ℕ
kept held o = if held then o else none

abbrev pub left_of : Option ℕ → World → Option ℕ → Option ℕ
left_of none w o = o
left_of (some b) w o = kept (held_from 0 w.contexts b w) o

abbrev let_go : (id b : ℕ) → World → World
let_go id b w = if held_from 0 w.contexts b w then w else record w { store = del_msg w.store id }

left_of-let_go :
    (id b : ℕ) (w : World) (found o : Option ℕ)
    → left_of found (let_go id b w) o ≡ left_of found w o
left_of-let_go id b w none o = refl
left_of-let_go id b w (some a) o = elim (Bool-cases (held_from 0 w.contexts b w)) [
  | inl h ↦ rw h refl
  | inr h ↦
      rw h (ap (λ (k : Bool). kept k o) (held_from-store 0 w.contexts a w (del_msg w.store id)))
]

let_go-Distinct :
    (id b : ℕ) (w : World) → Distinct w.store.msg_db → Distinct (let_go id b w).store.msg_db
unfolding del_msg
let_go-Distinct id b w d = elim (Bool-cases (held_from 0 w.contexts b w)) [
  | inl h ↦ rw h d
  | inr h ↦ rw h (erase-Distinct id w.store.msg_db d)
]

let_go-lookup :
    (id b j : ℕ) (w : World)
    → Distinct w.store.msg_db
    → lookup j (let_go id b w).store.msg_db ≡ (
        if id == j
        then kept (held_from 0 w.contexts b w) (lookup j w.store.msg_db)
        else lookup j w.store.msg_db)
unfolding del_msg
let_go-lookup id b j w d =
    let gone = lookup-erase id j w.store.msg_db d in
    elim (Bool-cases (held_from 0 w.contexts b w)) [
      | inl h ↦ rw h (ground arith)
      | inr h ↦ rw h gone
    ]

-- An id that the table names keeps its entry of the store where something else holds its buffer,
-- and has none where nothing does; the entries of other ids stay.
pub clear_tmp-lookup :
    (tmp : TmpDb) (w : World) (id : ℕ)
    → Distinct tmp
    → Distinct w.store.msg_db
    → lookup id (clear_tmp tmp w).store.msg_db
      ≡ left_of (lookup id tmp) w (lookup id w.store.msg_db)
unfolding clear_tmp lookup
clear_tmp-lookup [] w id _ d = refl
clear_tmp-lookup ((k, b) ∷ tmp) w id (cons gone more) d =
    let o = lookup id w.store.msg_db in
    let w1 = let_go k b w in
    clear_tmp-lookup tmp w1 id more (let_go-Distinct k b w d)
    ∙ left_of-let_go k b w (lookup id tmp) (lookup id w1.store.msg_db)
    ∙ ap (left_of (lookup id tmp) w) (let_go-lookup k b id w d)
    ∙ elim (Bool-cases (k == id)) [
      | inl e ↦
          let place : k ≡ id = ground (arith, e) in
          let none_left : lookup id tmp ≡ none = ap (λ (j : ℕ). lookup j tmp) (sym place) ∙ gone in
          rw (e, none_left) refl
      | inr e ↦ rw e refl
    ]

pub clear_tmp-mbufs : (tmp : TmpDb) (w : World) → (clear_tmp tmp w).mbufs ≡ w.mbufs
unfolding clear_tmp
clear_tmp-mbufs [] w = refl
clear_tmp-mbufs ((id, b) ∷ tmp) w =
    clear_tmp-mbufs tmp (let_go id b w)
    ∙ elim (Bool-cases (held_from 0 w.contexts b w)) [ inl h ↦ rw h refl | inr h ↦ rw h refl ]

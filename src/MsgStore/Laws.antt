-- ===== src/MsgStore/Laws.antt =====
-- Message ids are handed out once, and the table of buffers is a finite map.
use mqtt_server.Prelude.{
  ℕ, zero, suc, ◌+◌, ◌<◌, ◌%◌, ◌^◌, ◌≡◌, refl, arith, List, [], ◌∷◌, none, some, ◌==◌,
  if◌then◌else◌, ◌∙◌, false, Bool-cases, inl, inr,
}
use mqtt_server.MsgStore.{MsgStore, next_msg_id, lookup, erase, assign}

-- The id of the call of `next_msg_id` that comes after `n` others.
unfoldable pub nth_id : ℕ → MsgStore → ℕ
unfolding next_msg_id
nth_id zero s = (next_msg_id s).0
nth_id (suc n) s = nth_id n (next_msg_id s).1

-- As long as 2 ^ 64 is not reached, the id that comes after `n` others is the last id of the store
-- plus `n + 1`.
nth_id_lem :
    (n : ℕ) (s : MsgStore) → s.last_msg_id + n + 1 < 2 ^ 64 → nth_id n s ≡ s.last_msg_id + n + 1
unfolding nth_id
nth_id_lem zero s h = omega arith
nth_id_lem (suc n) s h =
    let e : (s.last_msg_id + 1) % 2 ^ 64 ≡ s.last_msg_id + 1 = omega arith in
    let s' : MsgStore = record s { last_msg_id = (s.last_msg_id + 1) % 2 ^ 64 } in
    omega (arith, e, nth_id_lem n s' (omega (arith, e)))

pub lookup-assign :
    (k j v : ℕ) (m : List (ℕ × ℕ))
    → lookup j (assign k v m) ≡ (if k == j then some v else lookup j m)
unfolding lookup assign
lookup-assign k j v [] = refl
lookup-assign k j v ((i, w) ∷ m) = ground (arith, lookup-assign k j v m)

-- Every key stands once.
abbrev pub Absent : ℕ → List (ℕ × ℕ) → Type 0
Absent k m = lookup k m ≡ none

pub data Distinct : List (ℕ × ℕ) → Type 0 where
  nil : Distinct []
  cons : {k v : ℕ} {m : List (ℕ × ℕ)} → Absent k m → Distinct m → Distinct ((k, v) ∷ m)

pub lookup-erase :
    (k j : ℕ) (m : List (ℕ × ℕ))
    → Distinct m
    → lookup j (erase k m) ≡ (if k == j then none else lookup j m)
unfolding lookup erase
lookup-erase k j [] d = ground arith
lookup-erase k j ((i, w) ∷ m) (cons a d) = ground (arith, lookup-erase k j m d)

pub assign-Distinct : (k v : ℕ) (m : List (ℕ × ℕ)) → Distinct m → Distinct (assign k v m)
unfolding assign lookup
assign-Distinct k v [] d = cons refl nil
assign-Distinct k v ((j, w) ∷ m) (cons a d) = elim (Bool-cases (j == k)) [
  | inl e ↦ rw e (cons a d)
  | inr e ↦
      let other : (k == j) ≡ false = ground arith in
      rw e (cons (lookup-assign k j v m ∙ rw other a) (assign-Distinct k v m d))
]

pub erase-Distinct : (k : ℕ) (m : List (ℕ × ℕ)) → Distinct m → Distinct (erase k m)
unfolding erase lookup
erase-Distinct k [] d = d
erase-Distinct k ((j, w) ∷ m) (cons a d) = elim (Bool-cases (j == k)) [
  | inl e ↦ rw e d
  | inr e ↦
      let other : (k == j) ≡ false = ground arith in
      rw e (cons (lookup-erase k j m d ∙ rw other a) (erase-Distinct k m d))
]

-- ===== src/Prelude/Keyed.antt =====
-- A map whose keys are byte strings, as an association list.
use Prim.Native.Nat.{ℕ}
use mathlib.Core.Path.{◌≡◌, refl, ap}
use mathlib.Core.Bool.{Bool, true, false}
use mathlib.Core.Option.{Option, none, some}
use mathlib.Core.List.{List, [], ◌∷◌}
use native.Mathlib.Omega.{arith}
use mqtt_server.Prelude.Tests.{◌==◌, if◌then◌else◌}

abbrev pub same : List ℕ → List ℕ → Bool
same [] [] = true
same [] (y ∷ ys) = false
same (x ∷ xs) [] = false
same (x ∷ xs) (y ∷ ys) = if x == y then same xs ys else false

pub same_refl : (xs : List ℕ) → same xs xs ≡ true
same_refl [] = refl
same_refl (x ∷ xs) = ground (arith, same_refl xs)

pub same→eq : (xs ys : List ℕ) → same xs ys ≡ true → xs ≡ ys
same→eq [] [] h = refl
same→eq [] (y ∷ ys) h = cc
same→eq (x ∷ xs) [] h = cc
same→eq (x ∷ xs) (y ∷ ys) h = ground (arith, same→eq xs ys)

pub same-agree : (i k j : List ℕ) → same i k ≡ true → same i j ≡ same k j
same-agree i k j h = ap (λ (l : List ℕ). same l j) (same→eq i k h)

module _ {ℓ} {V : Type ℓ} where
  abbrev pub find_key : List ℕ → List (List ℕ × V) → Option V
  find_key k [] = none
  find_key k ((j, v) ∷ m) = if same j k then some v else find_key k m

  abbrev pub put_key : List ℕ → V → List (List ℕ × V) → List (List ℕ × V)
  put_key k v [] = (k, v) ∷ []
  put_key k v ((j, w) ∷ m) = if same j k then (j, v) ∷ m else (j, w) ∷ put_key k v m

  abbrev pub erase_key : List ℕ → List (List ℕ × V) → List (List ℕ × V)
  erase_key k [] = []
  erase_key k ((j, w) ∷ m) = if same j k then erase_key k m else (j, w) ∷ erase_key k m

  pub find-put_same :
      (k : List ℕ) (v : V) (m : List (List ℕ × V)) → find_key k (put_key k v m) ≡ some v
  find-put_same k v [] = ground (arith, same_refl k)
  find-put_same k v ((j, w) ∷ m) = ground (arith, find-put_same k v m)

  pub find-erase_same : (k : List ℕ) (m : List (List ℕ × V)) → find_key k (erase_key k m) ≡ none
  find-erase_same k [] = refl
  find-erase_same k ((j, w) ∷ m) = ground (arith, find-erase_same k m)

  pub find-put_other :
      (k j : List ℕ) (v : V) (m : List (List ℕ × V))
      → same k j ≡ false
      → find_key j (put_key k v m) ≡ find_key j m
  find-put_other k j v [] h = ground arith
  find-put_other k j v ((i, w) ∷ m) h = ground (arith, same-agree i k j, find-put_other k j v m h)

  pub find-erase_other :
      (k j : List ℕ) (m : List (List ℕ × V))
      → same k j ≡ false
      → find_key j (erase_key k m) ≡ find_key j m
  find-erase_other k j [] h = refl
  find-erase_other k j ((i, w) ∷ m) h = ground (arith, same-agree i k j, find-erase_other k j m h)

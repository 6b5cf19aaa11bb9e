-- ===== src/Prelude/Memory.antt =====
-- Bytes laid over a memory from an index on, as `memcpy` and stores do.
use mqtt_server.Prelude.Lists.{
  length, set, take, drop, length-set, take-set, drop-set_lt, take-append-drop,
}
use Prim.Native.Nat.{ℕ, suc, ◌+◌, ◌≤◌, ◌<◌}
use mathlib.Core.Path.{◌≡◌, refl, sym, ap, ap₂, ◌∙◌}
use mathlib.Core.List.{List, [], ◌∷◌, ◌++◌, append-nil, append_assoc}
use native.Mathlib.Omega.{arith}

unfoldable pub overwrite : List ℕ → ℕ → List ℕ → List ℕ
overwrite mem i [] = mem
overwrite mem i (b ∷ bs) = overwrite (set mem i b) (i + 1) bs

pub length-overwrite :
    (mem : List ℕ) (i : ℕ) (bs : List ℕ) → length (overwrite mem i bs) ≡ length mem
unfolding overwrite
length-overwrite mem i [] = refl
length-overwrite mem i (b ∷ bs) = length-overwrite (set mem i b) (i + 1) bs ∙ length-set mem i b

pub overwrite-append :
    (mem : List ℕ) (i : ℕ) (xs bs : List ℕ)
    → overwrite (overwrite mem i xs) (i + length xs) bs ≡ overwrite mem i (xs ++ bs)
unfolding overwrite
overwrite-append mem i [] bs = ap (λ (k : ℕ). overwrite mem k bs) (omega arith)
overwrite-append mem i (a ∷ xs) bs =
    ap (λ (k : ℕ). overwrite (overwrite (set mem i a) (i + 1) xs) k bs) (omega arith)
    ∙ overwrite-append (set mem i a) (i + 1) xs bs

-- The bytes follow what stood before the cursor, and nothing behind them changes.
pub take-overwrite :
    (mem : List ℕ) (i : ℕ) (bs : List ℕ)
    → i + length bs ≤ length mem
    → take (i + length bs) (overwrite mem i bs) ≡ take i mem ++ bs
unfolding overwrite
take-overwrite mem i [] h = ap (λ (k : ℕ). take k mem) (omega arith) ∙ sym (append-nil (take i mem))
take-overwrite mem i (b ∷ bs) h =
    let e : i + suc (length bs) ≡ i + 1 + length bs = omega arith in
    let s : i + 1 ≡ suc i = omega arith in
    let ih = take-overwrite (set mem i b) (i + 1) bs (omega (arith, length-set mem i b)) in
    ap (λ (k : ℕ). take k (overwrite (set mem i b) (i + 1) bs)) e
    ∙ ih
    ∙ ap (λ (l : List ℕ). l ++ bs)
        (ap (λ (k : ℕ). take k (set mem i b)) s ∙ take-set i mem b (omega arith))
    ∙ append_assoc (take i mem) (b ∷ []) bs

pub drop-overwrite :
    (mem : List ℕ) (i : ℕ) (bs : List ℕ)
    → drop (i + length bs) (overwrite mem i bs) ≡ drop (i + length bs) mem
unfolding overwrite
drop-overwrite mem i [] = refl
drop-overwrite mem i (b ∷ bs) =
    ap (λ (k : ℕ). drop k (overwrite (set mem i b) (i + 1) bs)) (omega arith)
    ∙ drop-overwrite (set mem i b) (i + 1) bs
    ∙ drop-past (i + 1 + length bs) (omega arith)
    ∙ ap (λ (k : ℕ). drop k mem) (omega arith)
  where
    drop-past : (k : ℕ) → i < k → drop k (set mem i b) ≡ drop k mem
    drop-past k lt = drop-set_lt k i mem b lt

pub overwrite-zero :
    (mem bs : List ℕ) → length bs ≤ length mem → overwrite mem 0 bs ≡ bs ++ drop (length bs) mem
overwrite-zero mem bs h =
    let n : 0 + length bs ≡ length bs = omega arith in
    let front = rw n at (take-overwrite mem 0 bs (omega arith)) in
    let back = rw n at (drop-overwrite mem 0 bs) in
    sym (take-append-drop (length bs) (overwrite mem 0 bs)) ∙ ap₂ ◌++◌ front back

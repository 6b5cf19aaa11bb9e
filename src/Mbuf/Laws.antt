-- ===== src/Mbuf/Laws.antt =====
-- The positions of a CMbuf stay in order, and it is a first-in first-out sequence of bytes.
use mqtt_server.Prelude.{
  ℕ, zero, suc, ◌+◌, ◌-◌, ◌≤◌, ◌<◌, ◌^◌, ◌%◌, ◌≡◌, refl, sym, ap, ◌∙◌, arith, List, [], ◌⊎◌, ◌∷◌,
  ◌++◌, none, some, length, take, drop, length-drop, length-take, drop-drop, inl, inr, le→ltb,
  lt→ltb,
}
use mqtt_server.Prelude.Memory.{overwrite, length-overwrite, take-overwrite}
use mqtt_server.Mbuf.{Mbuf, init, skip_read, copy, count, available_buf, contents}
use native.Mathlib.Decide.{dec_le}

pub record IsValid (b : Mbuf) : Type 0 where
  pub ordered : b.read_pos ≤ b.write_pos
  pub within : b.write_pos ≤ length b.mem
  pub small : length b.mem < 2 ^ 31

pub init-IsValid : (mem : List ℕ) (now : ℕ) → length mem < 2 ^ 31 → IsValid (init mem now)
unfolding init
init-IsValid mem now h = omega arith

take-nil : (n : ℕ) → take {A = ℕ} n [] ≡ []
take-nil zero = refl
take-nil (suc n) = refl

take-drop-take : (m n : ℕ) (xs : List ℕ) → take m (drop n xs) ≡ drop n (take (n + m) xs)
take-drop-take m zero xs = ap (λ (k : ℕ). take k xs) (omega arith)
take-drop-take m (suc n) [] = rw (take-nil m, take-nil (suc n + m))
take-drop-take m (suc n) (x ∷ xs) =
    let e : suc n + m ≡ suc (n + m) = omega arith in rw e (take-drop-take m n xs)

-- In a valid buffer the contents are what was written, less what was read.
contents-drop : (b : Mbuf) → IsValid b → contents b ≡ drop b.read_pos (take b.write_pos b.mem)
unfolding contents count
contents-drop b v =
    let n : (b.write_pos + 2 ^ 32 - b.read_pos) % 2 ^ 32 ≡ b.write_pos - b.read_pos =
      omega (arith, v.ordered, v.within, v.small) in
    let m : b.read_pos + (b.write_pos - b.read_pos) ≡ b.write_pos = omega (arith, v.ordered) in
    rw n (
      take-drop-take (b.write_pos - b.read_pos) b.read_pos b.mem
      ∙ ap (λ (k : ℕ). drop b.read_pos (take k b.mem)) m)

pub count-length : (b : Mbuf) → IsValid b → count b ≡ length (contents b)
unfolding count
count-length b v =
    let size = ap length (contents-drop b v) in
    let left = length-drop b.read_pos (take b.write_pos b.mem) in
    let all = length-take b.write_pos b.mem v.within in
    omega (arith, size, left, all, v.ordered, v.within, v.small)

drop-append_le : (n : ℕ) (xs ys : List ℕ) → n ≤ length xs → drop n (xs ++ ys) ≡ drop n xs ++ ys
drop-append_le zero xs ys h = refl
drop-append_le (suc n) [] ys h = absurd (omega arith)
drop-append_le (suc n) (x ∷ xs) ys h = drop-append_le n xs ys (omega arith)

record Copied (b b' : Mbuf) (buf : List ℕ) : Type 0 where
  valid : IsValid b'
  appended : contents b' ≡ contents b ++ buf
  taken : available_buf b' + length buf ≡ available_buf b

copied :
    (b : Mbuf) (buf : List ℕ)
    → IsValid b
    → b.write_pos + length buf ≤ length b.mem
    → Copied b
        (record b { mem = overwrite b.mem b.write_pos buf; write_pos = b.write_pos + length buf })
        buf
unfolding available_buf
copied b buf v fits =
    let b' : Mbuf = record b {
      mem = overwrite b.mem b.write_pos buf;
      write_pos = b.write_pos + length buf;
    } in
    let size = length-overwrite b.mem b.write_pos buf in
    let v' : IsValid b' = record {
      ordered = omega (arith, v.ordered);
      within = omega (arith, size, fits);
      small = omega (arith, size, v.small);
    } in
    record {
      valid = v';
      appended =
          contents-drop b' v'
          ∙ ap (drop b.read_pos) (take-overwrite b.mem b.write_pos buf fits)
          ∙ drop-append_le b.read_pos (take b.write_pos b.mem) buf
              (omega (arith, v.ordered, length-take b.write_pos b.mem v.within))
          ∙ ap (λ (l : List ℕ). l ++ buf) (sym (contents-drop b v));
      taken = omega (arith, size, v.within, v.small);
    }

-- For a valid buffer and fewer than 2 ^ 31 bytes, `copy` fails exactly when the bytes do not fit;
-- otherwise it keeps the buffer valid, adds the bytes behind the contents and takes their number
-- from what is available.
copy_cases :
    (b : Mbuf) (buf : List ℕ)
    → IsValid b
    → length buf < 2 ^ 31
    → ((length buf ≤ available_buf b)
        × (b' : Mbuf) × (copy b buf ≡ some b')
        × IsValid b'
        × (contents b' ≡ contents b ++ buf)
        × (available_buf b' + length buf ≡ available_buf b))
      ⊎ ((available_buf b < length buf) × (copy b buf ≡ none))
unfolding copy available_buf
copy_cases b buf v h = elim (dec_le (b.write_pos + length buf) (length b.mem)) [
  | yes fits ↦
      let end : (b.write_pos + length buf) % 2 ^ 32 ≡ b.write_pos + length buf =
        omega (arith, v.small) in
      let c = copied b buf v fits in
      inl (
        omega (arith, v.within, v.small),
        record b { mem = overwrite b.mem b.write_pos buf; write_pos = b.write_pos + length buf },
        rw (end, le→ltb (length b.mem) (b.write_pos + length buf) fits) refl,
        c.valid,
        c.appended,
        c.taken,
      )
  | no full ↦
      let end : (b.write_pos + length buf) % 2 ^ 32 ≡ b.write_pos + length buf =
        omega (arith, v.small, v.within) in
      inr (
        omega (arith, v.within, v.small),
        rw (end, lt→ltb (length b.mem) (b.write_pos + length buf) (omega arith)) refl,
      )
]

drop-drop-take :
    (n m : ℕ) (b : Mbuf)
    → drop (n + m) (take b.write_pos b.mem) ≡ drop m (drop n (take b.write_pos b.mem))
drop-drop-take n m b = sym (drop-drop m n (take b.write_pos b.mem))

-- For a valid buffer, `read_ptr(n)` with no more than is there takes the first `n` bytes of the
-- contents, and keeps the buffer valid and the number of bytes that are available.
pub skip_read-contents :
    (b : Mbuf) (n : ℕ)
    → IsValid b
    → n ≤ length (contents b)
    → IsValid (skip_read b n)
      × (contents (skip_read b n) ≡ drop n (contents b))
      × (available_buf (skip_read b n) ≡ available_buf b)
unfolding skip_read available_buf
skip_read-contents b n v h =
    let size = ap length (contents-drop b v) in
    let left = length-drop b.read_pos (take b.write_pos b.mem) in
    let all = length-take b.write_pos b.mem v.within in
    let fits : b.read_pos + n ≤ b.write_pos = omega (arith, size, left, all, v.ordered) in
    let here : (b.read_pos + n) % 2 ^ 32 ≡ b.read_pos + n = omega (arith, v.within, v.small) in
    let b' : Mbuf = record b { read_pos = b.read_pos + n } in
    let v' : IsValid b' = record { ordered = fits; within = v.within; small = v.small } in
    rw (here, le→ltb (length b.mem) (b.read_pos + n) (omega (arith, v.within)))
      (
        v',
        contents-drop b' v' ∙ drop-drop-take b.read_pos n b ∙ ap (drop n) (sym (contents-drop b v)),
        refl,
      )

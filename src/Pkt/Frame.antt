-- ===== src/Pkt/Frame.antt =====
-- A packet buffer as the list of bytes that are still unread.
use mqtt_server.Prelude.{
  ℕ, zero, suc, ◌+◌, ◌-◌, ◌≤◌, ◌<◌, ◌^◌, ◌≡◌, refl, ap, arith, List, [], ◌∷◌, some, length,
  get_elem?, take, drop, length-drop, get_elem?-of_drop,
}
use mqtt_server.Pkt.{Pkt, advance}

abbrev pub unread : Pkt → List ℕ
unread p = take (p.max_size - p.offset) (drop p.offset p.mem)

-- The cursor stands inside the packet, the packet inside the memory, and `r` is unread.
pub record Holds (p : Pkt) (r : List ℕ) : Type 0 where
  pub within : p.offset ≤ p.max_size
  pub small : p.max_size < 2 ^ 31
  pub backed : p.max_size ≤ length p.mem
  pub rest : unread p ≡ r

take-eq-cons :
    {b : ℕ} {r : List ℕ} (n : ℕ) (xs : List ℕ)
    → take n xs ≡ b ∷ r
    → (n' : ℕ) × (ys : List ℕ) × (n ≡ suc n') × (xs ≡ b ∷ ys) × (take n' ys ≡ r)
take-eq-cons zero xs e = cc
take-eq-cons (suc n) [] e = cc
take-eq-cons (suc n) (x ∷ xs) e = (n, xs, refl, cc, cc)

pub record Front (p : Pkt) (b : ℕ) (r : List ℕ) : Type 0 where
  pub byte : get_elem? p.mem p.offset ≡ some b
  pub room : p.offset < p.max_size
  pub after : Holds (advance p 1) r

-- The first unread byte is at the cursor, and one step further the rest is unread.
pub Holds-cons : {p : Pkt} {b : ℕ} {r : List ℕ} → Holds p (b ∷ r) → Front p b r
Holds-cons {p} {b} {r} h =
    let (n', ys, en, ed, et) = take-eq-cons (p.max_size - p.offset) (drop p.offset p.mem) h.rest in
    let (eb, er) = get_elem?-of_drop p.offset p.mem b ys ed in
    let next : (advance p 1).offset ≡ suc p.offset = omega (arith, h.small, en) in
    let left : p.max_size - suc p.offset ≡ n' = omega (arith, en) in
    record {
      byte = eb;
      room = omega (arith, en);
      after = record {
        within = omega (arith, h.small, en, next);
        small = h.small;
        backed = h.backed;
        rest = rw (next, left, er) et;
      };
    }

length-take_min : (n : ℕ) (xs : List ℕ) → n ≤ length xs → length (take n xs) ≡ n
length-take_min zero xs h = refl
length-take_min (suc n) [] h = absurd (omega arith)
length-take_min (suc n) (x ∷ xs) h = ap suc (length-take_min n xs (omega arith))

-- `left_size` counts the unread bytes.
pub Holds-length : {p : Pkt} {r : List ℕ} → Holds p r → p.offset + length r ≡ p.max_size
Holds-length {p} {r} h = omega (
  arith,
  h.within,
  h.backed,
  ap length h.rest,
  length-drop p.offset p.mem,
  length-take_min (p.max_size - p.offset) (drop p.offset p.mem)
      (omega (arith, h.backed, length-drop p.offset p.mem)),
)

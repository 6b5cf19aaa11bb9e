-- ===== src/Pkt/Fill.antt =====
-- Bytes laid over the memory of a packet buffer at its cursor.
use mqtt_server.Prelude.{ℕ, ◌+◌, ◌%◌, ◌^◌, ◌≤◌, ◌<◌, ◌≡◌, arith, List, ◌++◌, length, length-append}
use mqtt_server.Prelude.Memory.{overwrite, length-overwrite, overwrite-append}
use mqtt_server.Pkt.{Pkt, advance}

-- `n` more bytes fit, and the memory is there.
pub record Room (p : Pkt) (n : ℕ) : Type 0 where
  pub fits : p.offset + n ≤ p.max_size
  pub small : p.max_size < 2 ^ 31
  pub backed : p.max_size ≤ length p.mem

abbrev pub fill : Pkt → List ℕ → Pkt
fill p bs = advance (record p { mem = overwrite p.mem p.offset bs }) (length bs)

pub fill-fill :
    (p : Pkt) (xs bs : List ℕ) → Room p (length xs) → fill (fill p xs) bs ≡ fill p (xs ++ bs)
fill-fill p xs bs r =
    let here : (p.offset + length xs) % 2 ^ 32 ≡ p.offset + length xs =
      omega (arith, r.fits, r.small) in
    let joined = rw (← here) at (overwrite-append p.mem p.offset xs bs) in
    λ i. record p { mem = joined i; offset = past i }
  where
    past :
        ((p.offset + length xs) % 2 ^ 32 + length bs) % 2 ^ 32
        ≡ (p.offset + length (xs ++ bs)) % 2 ^ 32
    past = omega (arith, length-append xs bs)

pub Room-fill : {p : Pkt} (bs : List ℕ) {n : ℕ} → Room p (length bs + n) → Room (fill p bs) n
Room-fill {p} bs r = record {
  fits = omega (arith, r.fits, r.small);
  small = r.small;
  backed = omega (arith, r.backed, length-overwrite p.mem p.offset bs);
}

pub Room-le : {p : Pkt} {m n : ℕ} → n ≤ m → Room p m → Room p n
Room-le h r = record { fits = omega (arith, r.fits); small = r.small; backed = r.backed }

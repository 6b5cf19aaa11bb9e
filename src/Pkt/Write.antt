-- ===== src/Pkt/Write.antt =====
-- What the writing methods of `CMqttPkt` leave where there is room.
use mqtt_server.Prelude.{
  ℕ, ◌+◌, ◌/◌, ◌%◌, ◌^◌, ◌≤◌, ◌<◌, ◌≡◌, refl, ap, arith, bit_and, true, false, List, [], ◌∷◌,
  length, length-set, set, lt→ltb, take-all,
}
use mqtt_server.Prelude.Bits.{mask_eight}
use mqtt_server.Prelude.Memory.{overwrite}
use mqtt_server.Pkt.{
  Pkt, ok, err, failure, int_lt, left_size, store, write_byte, write_bytes, write_short,
  write_string, copy_in,
}
use mqtt_server.Pkt.Read.{short_bytes, string_bytes}
use mqtt_server.Pkt.Fill.{Room, Room-fill, Room-le, fill, fill-fill}

pub left_size-Room : {p : Pkt} (n : ℕ) → Room p n → int_lt (left_size p) n ≡ false
left_size-Room n r = ground (arith, r.small, r.fits)

pub store-lt :
    (p : Pkt) (i v : ℕ) → i < length p.mem → store p i v ≡ ok (record p { mem = set p.mem i v })
store-lt p i v h = rw (lt→ltb _ _ h)

pub write_byte-Room : {p : Pkt} (v : ℕ) → Room p 1 → write_byte p v ≡ ok (fill p (v ∷ []))
unfolding write_byte overwrite
write_byte-Room {p} v r =
    rw (left_size-Room 1 r, store-lt p p.offset v (omega (arith, r.fits, r.backed)))

copy_in-overwrite :
    (p : Pkt) (i : ℕ) (bs : List ℕ)
    → i + length bs ≤ length p.mem
    → copy_in p i bs ≡ ok (record p { mem = overwrite p.mem i bs })
unfolding copy_in overwrite
copy_in-overwrite p i [] h = refl
copy_in-overwrite p i (b ∷ bs) h = rw (store-lt p i b (omega arith)) (
    copy_in-overwrite (record p { mem = set p.mem i b }) (i + 1) bs
      (omega (arith, length-set p.mem i b)))

pub write_bytes-Room :
    {p : Pkt} (bs : List ℕ) → Room p (length bs) → write_bytes p bs ≡ ok (fill p bs)
unfolding write_bytes
write_bytes-Room {p} bs r =
    let n : length bs % 2 ^ 32 ≡ length bs = omega (arith, r.fits, r.small) in
    rw (
      n,
      left_size-Room (length bs) r,
      nonneg (length bs) (omega (arith, r.fits, r.small)),
      take-all (length bs) bs (omega arith),
      copy_in-overwrite p p.offset bs (omega (arith, r.fits, r.backed)),
    )
  where
    nonneg : (k : ℕ) → k < 2 ^ 31 → int_lt k 0 ≡ false
    nonneg k h = ground arith

pub write_short-Room :
    {p : Pkt} (v : ℕ) → v < 2 ^ 16 → Room p 2 → write_short p v ≡ ok (fill p (short_bytes v))
unfolding write_short overwrite
write_short-Room {p} v hv r =
    let next : (p.offset + 1) % 2 ^ 32 ≡ p.offset + 1 = omega (arith, r.fits, r.small) in
    let hi : v / 2 ^ 8 % 256 ≡ v / 256 = omega arith in
    rw
      (
        left_size-Room 2 r,
        store-lt p p.offset (bit_and (v / 2 ^ 8) 0xff) (omega (arith, r.fits, r.backed)),
        next,
        lt→ltb (p.offset + 1) (length (set p.mem p.offset (bit_and (v / 2 ^ 8) 0xff)))
            (omega (arith, r.fits, r.backed, length-set p.mem p.offset (bit_and (v / 2 ^ 8) 0xff))),
        mask_eight,
        mask_eight,
        hi,
      )
      (ap
        (λ (o : ℕ). ok (record p {
          mem = set (set p.mem p.offset (v / 256)) (p.offset + 1) (v % 256);
          offset = o;
        }))
        (omega arith))

pub write_string-Room :
    {p : Pkt} (s : List ℕ)
    → length s < 2 ^ 16
    → Room p (2 + length s)
    → write_string p s ≡ ok (fill p (string_bytes s))
unfolding write_string
write_string-Room {p} s hs r =
    let n : length s % 2 ^ 16 ≡ length s = omega arith in
    rw (
      n,
      write_short-Room (length s) hs (Room-le (omega arith) r),
      write_bytes-Room s (Room-fill (short_bytes (length s)) r),
      fill-fill p (short_bytes (length s)) s (Room-le (omega arith) r),
    )

-- A write that does not fit fails and changes nothing.
pub write_byte-full :
    {p : Pkt} (v : ℕ) → int_lt (left_size p) 1 ≡ true → write_byte p v ≡ err failure p
unfolding write_byte
write_byte-full v h = rw h

-- ===== src/Pkt/Framing.antt =====
-- `remain_length` of src/mqttc++/mqtt_pkt.cpp: what it makes of the bytes of a buffer.
use mqtt_server.Prelude.{
  ℕ, zero, suc, ◌+◌, ◌-◌, ◌*◌, ◌/◌, ◌%◌, ◌^◌, ◌≤◌, ◌<◌, ◌≡◌, refl, ◌∙◌, arith, bit_and, bit_or,
  Bool, true, false, List, [], ◌∷◌, ◌++◌, length, ltb, ◌==◌, if◌then◌else◌, some, get_elem?,
  Option-cases, Bool-cases, inl, inr, All,
}
use mqtt_server.Prelude.Bits.{low_seven, mask_seven, top_bit, bit_or_shifted, bit_or-lt}
use mqtt_server.Pkt.{
  Scan, last_byte, no_last_byte, over_read, scan, frame, framed, refused, need_more_data, failure,
  remain_length,
}
use mqtt_server.Pkt.RemainLength.{remain_bytes, length-remain_bytes}

-- One round of the scan.
scan_last :
    (rounds : ℕ) (buf : List ℕ) (o v b : ℕ)
    → get_elem? buf (1 + o) ≡ some b
    → b < 128
    → scan (suc rounds) buf o v ≡ last_byte (if o == 0 then b else bit_or (b * 2 ^ 7 % 2 ^ 32) v) o
unfolding scan
scan_last rounds buf o v b e h =
    let low : bit_and b 0x7f ≡ b = omega (arith, low_seven b (omega arith)) in
    let top : bit_and b 0x80 ≡ 0 = omega (arith, top_bit b (omega arith)) in rw (e, scan, low, top)

scan_more :
    (rounds : ℕ) (buf : List ℕ) (o v d : ℕ)
    → get_elem? buf (1 + o) ≡ some (d + 128)
    → d < 128
    → scan (suc rounds) buf o v
      ≡ scan rounds buf (o + 1) (if o == 0 then d else bit_or (d * 2 ^ 7 % 2 ^ 32) v)
unfolding scan
scan_more rounds buf o v d e h =
    let low : bit_and (d + 128) 0x7f ≡ d = omega (arith, low_seven (d + 128) (omega arith)) in
    let top : bit_and (d + 128) 0x80 ≡ 128 = omega (arith, top_bit (d + 128) (omega arith)) in
    rw (e, scan, low, top)

-- A remaining length below 2 ^ 14 is read back.
scan-remain_bytes :
    (n h : ℕ) (body : List ℕ)
    → n < 2 ^ 14
    → scan 4 (h ∷ remain_bytes n ++ body) 0 0 ≡ last_byte n (length (remain_bytes n) - 1)
unfolding remain_bytes
scan-remain_bytes n h body lt = elim (Bool-cases (ltb n 128)) [
  | inl one ↦ rw (one, scan_last 3 (h ∷ n ∷ body) 0 0 n refl (ground arith)) refl
  | inr two ↦
      let hi : ltb (n / 128) 128 ≡ true = ground arith in
      let joined : bit_or (n / 128 * 2 ^ 7 % 2 ^ 32) (n % 128) ≡ n =
        let small : n / 128 * 2 ^ 7 % 2 ^ 32 ≡ n / 128 * 2 ^ 7 = omega arith in
        rw small (bit_or_shifted 7 (n / 128) (n % 128) (omega arith) ∙ omega arith) in
      let buf = h ∷ (n % 128 + 128) ∷ (n / 128) ∷ body in
      rw
        (
          two,
          hi,
          scan_more 3 buf 0 0 (n % 128) refl (omega arith),
          scan_last 2 buf 1 (n % 128) (n / 128) refl (omega arith),
          joined,
        )
        refl
]

-- On what the writer lays out, with a remaining length below 2 ^ 14, `remain_length` answers
-- with that length and its bytes if the packet is all there, and asks for more data if not.
pub remain_length-remain_bytes :
    (n h : ℕ) (body : List ℕ) (len : ℕ)
    → n < 2 ^ 14
    → remain_length (h ∷ remain_bytes n ++ body) len ≡ (
        if ltb len (1 + length (remain_bytes n) + n)
        then refused need_more_data
        else framed n (length (remain_bytes n)))
unfolding remain_length
remain_length-remain_bytes n h body len lt =
    let (lo, hi) = length-remain_bytes n in
    let bytes : (length (remain_bytes n) - 1 + 1) % 256 ≡ length (remain_bytes n) = omega arith in
    let total : (n + length (remain_bytes n) + 1) % 2 ^ 32 ≡ 1 + length (remain_bytes n) + n =
      omega arith in
    rw (scan-remain_bytes n h body lt, bytes, total) refl

round_value-lt :
    (o v b : ℕ)
    → v < 2 ^ 14
    → (if o == 0 then bit_and b 0x7f else bit_or (bit_and b 0x7f * 2 ^ 7 % 2 ^ 32) v) < 2 ^ 14
round_value-lt o v b hv =
    let low = mask_seven b in
    let shifted : bit_and b 0x7f * 2 ^ 7 % 2 ^ 32 < 2 ^ 14 = omega (arith, low) in
    let joined = bit_or-lt 14 (bit_and b 0x7f * 2 ^ 7 % 2 ^ 32) v shifted hv in
    elim (Bool-cases (o == 0)) [
      | inl first ↦ rw first (omega (arith, low))
      | inr later ↦ rw later joined
    ]

stop_or_rest :
    (stop : Bool) (rest : Scan) (v' o : ℕ) {value last : ℕ}
    → v' < 2 ^ 14
    → (rest ≡ last_byte value last → value < 2 ^ 14)
    → (if stop then last_byte v' o else rest) ≡ last_byte value last
    → value < 2 ^ 14
stop_or_rest true rest v' o h k e = ground arith
stop_or_rest false rest v' o h k e = k e

-- Whatever the bytes, the value of the scan is below 2 ^ 14: every later group lands on the
-- seven bits of the second one.
scan_value-lt :
    (rounds : ℕ) (buf : List ℕ) (o v : ℕ) {value last : ℕ}
    → v < 2 ^ 14
    → scan rounds buf o v ≡ last_byte value last
    → value < 2 ^ 14
unfolding scan
scan_value-lt zero buf o v hv e = cc
scan_value-lt (suc rounds) buf o v hv e = elim (Option-cases (get_elem? buf (1 + o))) [
  | inl out ↦ let e' = rw (out, scan) at e in cc
  | inr (b, inside) ↦
      let small = round_value-lt o v b hv in
      stop_or_rest (bit_and b 0x80 == 0) _ _ o small (scan_value-lt rounds buf (o + 1) _ small)
        (rw (inside, scan) at e)
]

frame-lt :
    (len : ℕ) (s : Scan) {n bytes : ℕ}
    → ((value last : ℕ) → s ≡ last_byte value last → value < 2 ^ 14)
    → frame len s ≡ framed n bytes
    → (n < 2 ^ 14) × (n + bytes + 1 ≤ len)
frame-lt len over_read k e = cc
frame-lt len (no_last_byte o) k e = ground arith
frame-lt len (last_byte value o) k e = ground (arith, k value o refl)

-- A packet that `remain_length` finds complete lies within the length given for the buffer and,
-- whatever the bytes, is taken to have a remaining length below 2 ^ 14.
pub remain_length-lt :
    (buf : List ℕ) (len n bytes : ℕ)
    → remain_length buf len ≡ framed n bytes
    → (n < 2 ^ 14) × (n + bytes + 1 ≤ len)
unfolding remain_length
remain_length-lt buf len n bytes e =
    frame-lt len (scan 4 buf 0 0) (λ value last. scan_value-lt 4 buf 0 0 (omega arith)) e

-- The scan looks at the four bytes behind the fixed header whether they were received or not:
-- where all four have the top bit set the packet is refused, however few bytes there are.
pub remain_length_stale :
    (len h a b c d : ℕ) (rest : List ℕ)
    → All (λ x. (128 ≤ x) × (x < 256)) (a ∷ b ∷ c ∷ d ∷ [])
    → remain_length (h ∷ a ∷ b ∷ c ∷ d ∷ rest) len ≡ refused failure
unfolding remain_length scan
remain_length_stale len h a b c d rest t = ground (
  arith,
  t.0.0,
  t.1.0.0,
  t.1.1.0.0,
  t.1.1.1.0.0,
  top_bit a t.0.1,
  top_bit b t.1.0.1,
  top_bit c t.1.1.0.1,
  top_bit d t.1.1.1.0.1,
)

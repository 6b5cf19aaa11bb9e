-- ===== src/Pkt/Read.antt =====
-- What the reading methods of `CMqttPkt` return, by the bytes that are unread.
use mqtt_server.Prelude.{
  ℕ, suc, ◌+◌, ◌*◌, ◌/◌, ◌%◌, ◌^◌, ◌≤◌, ◌<◌, ◌≡◌, refl, sym, ap, subst, arith, bit_and, bit_or,
  true, false, List, [], ◌∷◌, ◌++◌, some, length, append-nil, length-append, get_elem?,
  if◌then◌else◌,
}
use mqtt_server.Prelude.Bits.{bit_or_shifted, low_byte}
use mqtt_server.Pkt.{
  Pkt, ok, err, failure, advance, int_lt, left_size, read_byte, read_short, read_string,
  read_payload, copy_out,
}
use mqtt_server.Pkt.Frame.{Holds, Holds-cons, Holds-length}

-- A method that finds `n` bytes too few.
pub left_size-lt :
    {p : Pkt} {r : List ℕ} (n : ℕ)
    → Holds p r
    → n < 2 ^ 31
    → length r < n
    → int_lt (left_size p) n ≡ true
left_size-lt n h hn lt = ground (arith, h.small, Holds-length h)

pub left_size-ge :
    {p : Pkt} {r : List ℕ} (n : ℕ) → Holds p r → n ≤ length r → int_lt (left_size p) n ≡ false
left_size-ge n h le = ground (arith, h.small, Holds-length h)

pub advance-advance : (p : Pkt) (m n : ℕ) → advance (advance p m) n ≡ advance p (m + n)
advance-advance p m n = ap (λ (o : ℕ). record p { offset = o }) (omega arith)

pub read_byte-Holds :
    {p : Pkt} (b : ℕ) {r : List ℕ}
    → Holds p (b ∷ r)
    → (read_byte p ≡ ok (b, advance p 1)) × Holds (advance p 1) r
unfolding read_byte
read_byte-Holds b h =
    let f = Holds-cons h in rw (left_size-ge 1 h (omega arith), f.byte) (refl, f.after)

pub read_byte-empty : {p : Pkt} → Holds p [] → read_byte p ≡ err failure p
unfolding read_byte
read_byte-empty h = rw (left_size-lt 1 h (omega arith) (omega arith)) refl

-- The two bytes of a `uint16_t`, high byte first.
pub join_bytes : (hi lo : ℕ) → lo < 256 → bit_or (hi * 2 ^ 8) (bit_and lo 0xff) ≡ hi * 256 + lo
join_bytes hi lo h = rw (low_byte lo h) (bit_or_shifted 8 hi lo h)

pub read_short-Holds :
    {p : Pkt} (hi lo : ℕ) {r : List ℕ}
    → hi < 256
    → lo < 256
    → Holds p (hi ∷ lo ∷ r)
    → (read_short p ≡ ok (hi * 256 + lo, advance p 2)) × Holds (advance p 2) r
unfolding read_short
read_short-Holds {p} hi lo {r} hhi hlo h =
    let f = Holds-cons h in
    let g = Holds-cons f.after in
    let fits : (hi * 256 + lo) % 2 ^ 16 ≡ hi * 256 + lo = omega arith in
    (
      rw (left_size-ge 2 h (omega arith), f.byte, g.byte, join_bytes hi lo hlo, fits) refl,
      subst (λ q. Holds q r) (advance-advance p 1 1) g.after,
    )

pub read_short-short :
    {p : Pkt} {r : List ℕ} → Holds p r → length r < 2 → read_short p ≡ err failure p
unfolding read_short
read_short-short h lt = rw (left_size-lt 2 h (omega arith) lt) refl

copy_out-suc :
    (n : ℕ) (mem : List ℕ) (i b : ℕ) (s : List ℕ)
    → get_elem? mem i ≡ some b
    → copy_out n mem (i + 1) ≡ some s
    → copy_out (suc n) mem i ≡ some (b ∷ s)
unfolding copy_out
copy_out-suc n mem i b s e k = ground arith

pub copy_out-Holds :
    (s : List ℕ) {p : Pkt} {r : List ℕ}
    → Holds p (s ++ r)
    → (copy_out (length s) p.mem p.offset ≡ some s) × Holds (advance p (length s)) r
unfolding copy_out
copy_out-Holds [] {p} {r} h =
    let e : (p.offset + 0) % 2 ^ 32 ≡ p.offset = omega (arith, h.small, h.within) in
    (refl, subst (λ q. Holds q r) (ap (λ (o : ℕ). record p { offset = o }) (sym e)) h)
copy_out-Holds (b ∷ s) {p} {r} h =
    let f = Holds-cons h in
    let (e, k) = copy_out-Holds s f.after in
    let next : (p.offset + 1) % 2 ^ 32 ≡ p.offset + 1 = omega (arith, f.room, h.small) in
    let here : suc (length s) ≡ 1 + length s = omega arith in
    (
      copy_out-suc (length s) p.mem p.offset b s f.byte (rw next at e),
      rw here (subst (λ q. Holds q r) (advance-advance p 1 (length s)) k),
    )

-- A string as `write_string` lays it out: its length in two bytes, then its bytes.
abbrev pub short_bytes : ℕ → List ℕ
short_bytes n = n / 256 ∷ n % 256 ∷ []

abbrev pub string_bytes : List ℕ → List ℕ
string_bytes s = length s / 256 ∷ length s % 256 ∷ s

-- Where the cursor stands after a string.
abbrev pub past_string : Pkt → List ℕ → Pkt
past_string p s = advance (advance p 2) (length s)

pub read_string-Holds :
    {p : Pkt} (s : List ℕ) {r : List ℕ}
    → length s < 2 ^ 16
    → Holds p (string_bytes s ++ r)
    → (read_string p ≡ ok (s, past_string p s)) × Holds (past_string p s) r
unfolding read_string
read_string-Holds {p} s {r} hs h =
    let (e, k) = read_short-Holds (length s / 256) (length s % 256) (omega arith) (omega arith) h in
    let n : length s / 256 * 256 + length s % 256 ≡ length s = omega arith in
    let (c, after) = copy_out-Holds s k in
    (rw (e, n, left_size-ge (length s) k (omega (arith, length-append s r)), c) refl, after)

pub read_short-Res :
    {p : Pkt} (v : ℕ) {r : List ℕ}
    → v < 2 ^ 16
    → Holds p (short_bytes v ++ r)
    → (read_short p ≡ ok (v, advance p 2)) × Holds (advance p 2) r
read_short-Res {p} v {r} hv h =
    let (e, k) = read_short-Holds (v / 256) (v % 256) (omega arith) (omega arith) h in
    let n : v / 256 * 256 + v % 256 ≡ v = omega arith in (rw n at e, k)

-- A string of which fewer bytes are unread than its two length bytes say is refused, with the
-- cursor behind those two.
read_string-cut :
    {p : Pkt} (hi lo : ℕ) {r : List ℕ}
    → hi < 256
    → lo < 256
    → length r < hi * 256 + lo
    → Holds p (hi ∷ lo ∷ r)
    → read_string p ≡ err failure (advance p 2)
unfolding read_string
read_string-cut hi lo hhi hlo lt h =
    let (e, k) = read_short-Holds hi lo hhi hlo h in
    rw (e, left_size-lt (hi * 256 + lo) k (omega arith) lt) refl

pub read_string-empty :
    {p : Pkt} {r : List ℕ} → Holds p r → length r < 2 → read_string p ≡ err failure p
unfolding read_string
read_string-empty h lt = rw (read_short-short h lt) refl

-- Everything that is left, as `CMqttPublish::decode` reads its payload.
pub read_payload-Holds :
    {p : Pkt} (s : List ℕ)
    → Holds p s
    → (read_payload p (left_size p) ≡ ok (s, advance p (length s)))
      × Holds (advance p (length s)) []
unfolding read_payload
read_payload-Holds {p} s h =
    let n : left_size p ≡ length s = omega (arith, h.small, Holds-length h) in
    let (c, after) = copy_out-Holds s {r = []} (rw append-nil h) in
    (rw (n, int_lt-self (length s), count (length s) small, c) refl, after)
  where
    small : length s < 2 ^ 31
    small = omega (arith, h.small, Holds-length h)

    int_lt-self : (k : ℕ) → int_lt k k ≡ false
    int_lt-self k = ground arith

    count : (k : ℕ) → k < 2 ^ 31 → (if int_lt 0 k then k else 0) ≡ k
    count k lt = ground arith

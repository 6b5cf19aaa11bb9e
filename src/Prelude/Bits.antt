-- ===== src/Prelude/Bits.antt =====
-- `|` and the masks of the source as arithmetic.
use Prim.Native.Nat.{
  ℕ, zero, suc, ◌+◌, ◌*◌, ◌/◌, ◌%◌, ◌^◌, ◌≤◌, ◌<◌, max, min, bit_and, bit_or, digits,
  bit_or-bitwise, bit_and-bitwise,
}
use mathlib.Core.Path.{◌≡◌, refl, sym, ap, ◌∙◌}
use mathlib.Core.Bool.{Bool, true, false}
use native.Mathlib.Nat.{pow-suc}
use native.Mathlib.Omega.{arith}
use mqtt_server.Prelude.Tests.{◌==◌, ==_iff, if◌then◌else◌}

-- The test succeeds at every value under the limit, from the largest down.
unfoldable pub passes : (ℕ → Bool) → (limit : ℕ) → Bool
passes test zero = true
passes test (suc limit) = if test limit then passes test limit else false

pub passes_sound :
    (test : ℕ → Bool) (limit v : ℕ) → v < limit → passes test limit ≡ true → test v ≡ true
unfolding passes
passes_sound test zero v under done = absurd (omega arith)
passes_sound test (suc limit) v under done =
    let smaller = passes_sound test limit v in ground (arith, smaller)

low_seven_table : passes (λ x. bit_and x 0x7f == x % 128) 256 ≡ true
unfolding passes
low_seven_table = refl

top_bit_table : passes (λ x. bit_and x 0x80 == x / 128 * 128) 256 ≡ true
unfolding passes
top_bit_table = refl

low_byte_table : passes (λ x. bit_and x 0xff == x) 256 ≡ true
unfolding passes
low_byte_table = refl

set_top_bit_table : passes (λ x. bit_or x 0x80 == x + 128) 128 ≡ true
unfolding passes
set_top_bit_table = refl

high_nibble_table : passes (λ x. bit_and x 0xf0 / 16 == x / 16) 256 ≡ true
unfolding passes
high_nibble_table = refl

pub low_seven : (x : ℕ) → x < 256 → bit_and x 0x7f ≡ x % 128
low_seven x h = (==_iff _ _).0 (passes_sound _ 256 x h low_seven_table)

pub top_bit : (x : ℕ) → x < 256 → bit_and x 0x80 ≡ x / 128 * 128
top_bit x h = (==_iff _ _).0 (passes_sound _ 256 x h top_bit_table)

pub low_byte : (x : ℕ) → x < 256 → bit_and x 0xff ≡ x
low_byte x h = (==_iff _ _).0 (passes_sound _ 256 x h low_byte_table)

pub set_top_bit : (x : ℕ) → x < 128 → bit_or x 0x80 ≡ x + 128
set_top_bit x h = (==_iff _ _).0 (passes_sound _ 128 x h set_top_bit_table)

pub high_nibble : (x : ℕ) → x < 256 → bit_and x 0xf0 / 16 ≡ x / 16
high_nibble x h = (==_iff _ _).0 (passes_sound _ 256 x h high_nibble_table)

-- An operation that the native numbers define digit by digit, as `bit_and` and `bit_or` are:
-- `end` is its value once the first operand is used up, and `join` its action on two digits.
module _ (end : ℕ → ℕ) (join op : ℕ → ℕ → ℕ)
    (law : (x y : ℕ) → op x y ≡ digits end join x x y) where
  -- More rounds than digits change nothing.
  spare_rounds : (x k l y : ℕ) → x ≤ k → x ≤ l → digits end join k x y ≡ digits end join l x y
  spare_rounds zero zero zero y h i = refl
  spare_rounds zero zero (suc l) y h i = refl
  spare_rounds zero (suc k) zero y h i = refl
  spare_rounds zero (suc k) (suc l) y h i = refl
  spare_rounds (suc x) zero l y h i = absurd (omega arith)
  spare_rounds (suc x) (suc k) zero y h i = absurd (omega arith)
  spare_rounds (suc x) (suc k) (suc l) y h i =
      let deeper = spare_rounds (suc x / 2) k l (y / 2) (omega arith) (omega arith) in
      ap (λ (v : ℕ). v * 2 + join (suc x % 2) (y % 2)) deeper

  -- The lowest digits are joined, and the operation goes on with the halves.
  halves :
      ((y : ℕ) → end y ≡ end (y / 2) * 2 + join 0 (y % 2))
      → (x y : ℕ) → op x y ≡ op (x / 2) (y / 2) * 2 + join (x % 2) (y % 2)
  halves over zero y =
      law 0 y ∙ over y ∙ sym (ap (λ (v : ℕ). v * 2 + join 0 (y % 2)) (law 0 (y / 2)))
  halves over (suc x) y =
      let half = law (suc x / 2) (y / 2) in
      let fewer = spare_rounds (suc x / 2) x (suc x / 2) (y / 2) (omega arith) (omega arith) in
      law (suc x) y ∙ ap (λ (v : ℕ). v * 2 + join (suc x % 2) (y % 2)) (fewer ∙ sym half)

pub bit_or_step : (a b : ℕ) → bit_or a b ≡ bit_or (a / 2) (b / 2) * 2 + max (a % 2) (b % 2)
bit_or_step = halves (λ b. b) max bit_or bit_or-bitwise (λ b. omega arith)

-- No bit above the operands' widths is set.
pub bit_or-lt : (k a b : ℕ) → a < 2 ^ k → b < 2 ^ k → bit_or a b < 2 ^ k
bit_or-lt zero a b p q =
    let ea : a ≡ 0 = omega arith in let eb : b ≡ 0 = omega arith in rw (ea, eb) (omega arith)
bit_or-lt (suc k) a b p q = omega (
  arith,
  pow-suc 2 k,
  bit_or_step a b,
  bit_or-lt k (a / 2) (b / 2) (omega (arith, pow-suc 2 k)) (omega (arith, pow-suc 2 k)),
)

bit_or_double : (a b : ℕ) → bit_or (a * 2) b ≡ bit_or a (b / 2) * 2 + b % 2
bit_or_double a b =
    let e : a * 2 / 2 ≡ a = omega arith in
    omega (arith, bit_or_step (a * 2) b, ap (λ (t : ℕ). bit_or t (b / 2)) e)

or_nothing : (rounds a : ℕ) → a ≤ rounds → bit_or a 0 ≡ a
or_nothing rounds zero h = refl
or_nothing zero (suc a) h = absurd (omega arith)
or_nothing (suc rounds) (suc a) h =
    let deeper = or_nothing rounds (suc a / 2) (omega arith) in
    omega (arith, bit_or_step (suc a) 0, deeper)

-- `(a << k) | b` for `b` of at most `k` bits.
pub bit_or_shifted : (k a b : ℕ) → b < 2 ^ k → bit_or (a * 2 ^ k) b ≡ a * 2 ^ k + b
bit_or_shifted zero a b h =
    let eb : b ≡ 0 = omega arith in rw eb (or_nothing (a * 1) (a * 1) (omega arith) ∙ omega arith)
bit_or_shifted (suc k) a b h =
    let e : a * 2 ^ suc k ≡ a * 2 ^ k * 2 = omega (arith, ap (λ (t : ℕ). a * t) (pow-suc 2 k)) in
    rw e (
      omega (
        arith,
        bit_or_double (a * 2 ^ k) b,
        bit_or_shifted k a (b / 2) (omega (arith, pow-suc 2 k)),
      ))

bit_and_step : (a b : ℕ) → bit_and a b ≡ bit_and (a / 2) (b / 2) * 2 + min (a % 2) (b % 2)
bit_and_step = halves (λ b. zero) min bit_and bit_and-bitwise (λ b. omega arith)

-- A mask with no ones, by the digits of the other operand.
no_mask : (rounds a : ℕ) → a ≤ rounds → bit_and a 0 ≡ 0
no_mask rounds zero h = refl
no_mask zero (suc a) h = absurd (omega arith)
no_mask (suc rounds) (suc a) h =
    let deeper = no_mask rounds (suc a / 2) (omega arith) in
    omega (arith, bit_and_step (suc a) 0, deeper)

-- A mask of seven or eight ones, at any operand.
mask_three : (a : ℕ) → bit_and a 7 ≡ a % 8
mask_three a = omega (
  arith,
  bit_and_step a 7,
  bit_and_step (a / 2) 3,
  bit_and_step (a / 2 / 2) 1,
  no_mask (a / 2 / 2 / 2) (a / 2 / 2 / 2) (omega arith),
)

mask_six : (a : ℕ) → bit_and a 63 ≡ a % 64
mask_six a = omega (
  arith,
  bit_and_step a 63,
  bit_and_step (a / 2) 31,
  bit_and_step (a / 2 / 2) 15,
  mask_three (a / 2 / 2 / 2),
)

pub mask_eight : (a : ℕ) → bit_and a 0xff ≡ a % 256
mask_eight a = omega (arith, bit_and_step a 255, bit_and_step (a / 2) 127, mask_six (a / 2 / 2))

pub mask_seven : (a : ℕ) → bit_and a 0x7f ≡ a % 128
mask_seven a = omega (arith, bit_and_step a 127, mask_six (a / 2))

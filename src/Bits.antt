-- ===== src/Bits.antt =====
-- Bits of numbers: what `&`, `|`, `>>` and `<<` of the C sources do to each bit of a number.
mod Steps
use Steps.{bit_and_step, bit_or_step, bit_xor_step, zero-bit_and}
use Prim.Native.Nat.{differ}
use native.Mathlib.Nat.{
  pow-suc, one-le-pow, zero-add, suc-add, div-add-mod, mod-lt, mod-eq_of_lt, add-mul-mod_self_left,
  mul-one, sub-zero, suc-sub-suc, div-one, div-div-eq-div-mul,
}
use tetra_bs.Prelude.{
  ℕ, zero, suc, ◌+◌, ◌-◌, ◌*◌, ◌/◌, ◌%◌, ◌^◌, ◌≤◌, ◌<◌, min, max, bit_and, bit_or, bit_xor, ◌≡◌,
  refl, ap, sym, ◌∙◌, Bool, true, ◌&&◌, arith, ltb, ◌==◌, ==_iff, if◌then◌else◌,
}

-- bit `j` of `x`, the lowest is bit 0
abbrev pub test_bit : ℕ → ℕ → ℕ
test_bit x zero = x % 2
test_bit x (suc j) = test_bit (x / 2) j

pub test_bit-lt : (x j : ℕ) → test_bit x j < 2
test_bit-lt x zero = omega arith
test_bit-lt x (suc j) = test_bit-lt (x / 2) j

pub test_bit-zero : (j : ℕ) → test_bit 0 j ≡ 0
test_bit-zero zero = refl
test_bit-zero (suc j) = test_bit-zero j

pub test_bit-and : (a b j : ℕ) → test_bit (bit_and a b) j ≡ min (test_bit a j) (test_bit b j)
test_bit-and a b zero = omega (arith, bit_and_step a b)
test_bit-and a b (suc j) =
    ap (λ t. test_bit t j) (omega (arith, bit_and_step a b)) ∙ test_bit-and (a / 2) (b / 2) j

pub test_bit-or : (a b j : ℕ) → test_bit (bit_or a b) j ≡ max (test_bit a j) (test_bit b j)
test_bit-or a b zero = omega (arith, bit_or_step a b)
test_bit-or a b (suc j) =
    ap (λ t. test_bit t j) (omega (arith, bit_or_step a b)) ∙ test_bit-or (a / 2) (b / 2) j

mul_two-pow : (x k : ℕ) → x * 2 ^ suc k ≡ x * 2 ^ k * 2
mul_two-pow x k = omega (arith, ap (λ (t : ℕ). x * t) (pow-suc 2 k))

half-mul_two-pow : (x k : ℕ) → x * 2 ^ suc k / 2 ≡ x * 2 ^ k
half-mul_two-pow x k = omega (arith, mul_two-pow x k)

div-two-pow : (x k : ℕ) → x / 2 ^ suc k ≡ x / 2 / 2 ^ k
div-two-pow x k =
    ap (λ t. x / t) (omega (arith, pow-suc 2 k)) ∙ sym (div-div-eq-div-mul x 2 (2 ^ k))

-- `x << k`
pub test_bit-shl :
    (x k j : ℕ) → test_bit (x * 2 ^ k) j ≡ (if ltb j k then 0 else test_bit x (j - k))
test_bit-shl x zero j =
    ground (arith, ap (λ t. test_bit t j) (mul-one x), ap (test_bit x) (sub-zero j))
test_bit-shl x (suc k) zero = ground (arith, mul_two-pow x k)
test_bit-shl x (suc k) (suc j) =
    ap (λ t. test_bit t j) (half-mul_two-pow x k)
    ∙ ground (arith, test_bit-shl x k j, ap (test_bit x) (suc-sub-suc j k))

-- `x >> k`
pub test_bit-shr : (x k j : ℕ) → test_bit (x / 2 ^ k) j ≡ test_bit x (k + j)
test_bit-shr x zero j = ap (λ t. test_bit t j) (div-one x) ∙ ap (test_bit x) (sym (zero-add j))
test_bit-shr x (suc k) j =
    ap (λ t. test_bit t j) (div-two-pow x k)
    ∙ test_bit-shr (x / 2) k j
    ∙ ap (test_bit x) (sym (suc-add k j))

-- `(1 << k) - 1`
pub test_bit_ones : (k j : ℕ) → test_bit (2 ^ k - 1) j ≡ (if ltb j k then 1 else 0)
test_bit_ones zero j = test_bit-zero j ∙ ground arith
test_bit_ones (suc k) zero = ground (arith, pow-suc 2 k, one-le-pow k 2)
test_bit_ones (suc k) (suc j) =
    ap (λ t. test_bit t j) (omega (arith, pow-suc 2 k, one-le-pow k 2))
    ∙ test_bit_ones k j
    ∙ ground arith

-- Numbers of `k` bits with the same bits are equal.
pub test_bit_ext :
    (k x y : ℕ) → x < 2 ^ k → y < 2 ^ k → ((j : ℕ) → j < k → test_bit x j ≡ test_bit y j) → x ≡ y
test_bit_ext zero x y hx hy e = omega arith
test_bit_ext (suc k) x y hx hy e = omega (
  arith,
  e 0 (omega arith),
  test_bit_ext k (x / 2) (y / 2) (omega (arith, pow-suc 2 k)) (omega (arith, pow-suc 2 k))
      (λ j h. e (suc j) (omega arith)),
)

-- A number of `k` bits has no bit from `k` on.
pub test_bit_above : (k x j : ℕ) → x < 2 ^ k → k ≤ j → test_bit x j ≡ 0
test_bit_above zero x j hx h = ap (λ t. test_bit t j) (omega arith) ∙ test_bit-zero j
test_bit_above (suc k) x zero hx h = absurd (omega arith)
test_bit_above (suc k) x (suc j) hx h =
    test_bit_above k (x / 2) j (omega (arith, pow-suc 2 k)) (omega arith)

-- A test that all numbers below a bound pass, by evaluation
pub all_below : ℕ → (ℕ → Bool) → Bool
all_below zero test = true
all_below (suc bound) test = all_below bound test && test bound

pub all_below_sound :
    (bound : ℕ) (test : ℕ → Bool) (k : ℕ) → k < bound → all_below bound test ≡ true → test k ≡ true
unfolding all_below
all_below_sound zero test k lt passed = elim lt [ ]
all_below_sound (suc bound) test k lt passed = ground (arith, all_below_sound bound test k)

-- `~m` of a byte
not_table : all_below 256 (λ m. all_below 8 (λ j. test_bit (255 - m) j == 1 - test_bit m j)) ≡ true
unfolding all_below
not_table = refl

pub test_bit-not : (m j : ℕ) → m < 256 → j < 8 → test_bit (255 - m) j ≡ 1 - test_bit m j
test_bit-not m j hm hj = (==_iff _ _).0 (
    all_below_sound 8 (λ j. test_bit (255 - m) j == 1 - test_bit m j) j hj
      (all_below_sound 256 (λ m. all_below 8 (λ j. test_bit (255 - m) j == 1 - test_bit m j)) m hm
        not_table))

bit_or-zero_fuel : (n a : ℕ) → a ≤ n → bit_or a 0 ≡ a
bit_or-zero_fuel n zero h = refl
bit_or-zero_fuel zero (suc a) h = absurd (omega arith)
bit_or-zero_fuel (suc n) (suc a) h =
    omega (arith, bit_or_step (suc a) 0, bit_or-zero_fuel n (suc a / 2) (omega arith))

-- `(x << k) | y` is a sum where `y` fits below.
pub bit_or-shl : (k x y : ℕ) → y < 2 ^ k → bit_or (x * 2 ^ k) y ≡ x * 2 ^ k + y
bit_or-shl zero x y h = ground (arith, bit_or-zero_fuel x x)
bit_or-shl (suc k) x y h = ground (
  arith,
  bit_or_step (x * 2 ^ suc k) y,
  mul_two-pow x k,
  pow-suc 2 k,
  bit_or-shl k x (y / 2) (omega (arith, pow-suc 2 k)),
)

bit_and-le_fuel : (n a b : ℕ) → a ≤ n → bit_and a b ≤ b
bit_and-le_fuel n zero b h = omega (arith, zero-bit_and b)
bit_and-le_fuel zero (suc a) b h = absurd (omega arith)
bit_and-le_fuel (suc n) (suc a) b h =
    omega (arith, bit_and_step (suc a) b, bit_and-le_fuel n (suc a / 2) (b / 2) (omega arith))

pub bit_and-le : (a b : ℕ) → bit_and a b ≤ b
bit_and-le a b = bit_and-le_fuel a a b (omega arith)

-- `x & ((1 << k) - 1)` of a number that fits `k` bits
pub bit_and-ones : (k x : ℕ) → x < 2 ^ k → bit_and x (2 ^ k - 1) ≡ x
bit_and-ones zero x h = omega (arith, bit_and-le x 0)
bit_and-ones (suc k) x h =
    let half : (2 ^ suc k - 1) / 2 ≡ 2 ^ k - 1 = omega (arith, pow-suc 2 k) in
    let odd : (2 ^ suc k - 1) % 2 ≡ 1 = omega (arith, pow-suc 2 k, one-le-pow k 2) in
    let ih = bit_and-ones k (x / 2) (omega (arith, pow-suc 2 k)) in
    omega (arith, bit_and_step x (2 ^ suc k - 1), ap (bit_and (x / 2)) half, odd, ih)

-- Dropping the bits from 8 on.
pub test_bit-u8 : (x j : ℕ) → j < 8 → test_bit (x % 256) j ≡ test_bit x j
test_bit-u8 x zero h = omega arith
test_bit-u8 x (suc zero) h = omega arith
test_bit-u8 x (suc (suc zero)) h = omega arith
test_bit-u8 x (suc (suc (suc zero))) h = omega arith
test_bit-u8 x (suc (suc (suc (suc zero)))) h = omega arith
test_bit-u8 x (suc (suc (suc (suc (suc zero))))) h = omega arith
test_bit-u8 x (suc (suc (suc (suc (suc (suc zero)))))) h = omega arith
test_bit-u8 x (suc (suc (suc (suc (suc (suc (suc zero))))))) h = omega arith
test_bit-u8 x (suc (suc (suc (suc (suc (suc (suc (suc j)))))))) h = absurd (omega arith)

half_mod : (x m : ℕ) → 0 < m → x % (m * 2) ≡ x / 2 % m * 2 + x % 2
half_mod x m pos =
    let q : ℕ = x / 2 / m in
    let r : ℕ = x / 2 % m * 2 + x % 2 in
    let split : x ≡ r + m * 2 * q = omega (arith, div-add-mod (x / 2) m) in
    let small : r < m * 2 = omega (arith, mod-lt (x / 2) {m = m} pos) in
    ap (λ t. t % (m * 2)) split ∙ add-mul-mod_self_left r (m * 2) q ∙ mod-eq_of_lt small

-- `x & ((1 << k) - 1)` is the remainder.
pub bit_and-mask : (k x : ℕ) → bit_and x (2 ^ k - 1) ≡ x % 2 ^ k
bit_and-mask zero x = omega (arith, bit_and-le x 0)
bit_and-mask (suc k) x =
    let half : (2 ^ suc k - 1) / 2 ≡ 2 ^ k - 1 = omega (arith, pow-suc 2 k) in
    let odd : (2 ^ suc k - 1) % 2 ≡ 1 = omega (arith, pow-suc 2 k, one-le-pow k 2) in
    let wide : x % 2 ^ suc k ≡ x / 2 % 2 ^ k * 2 + x % 2 =
      ap (λ t. x % t) (pow-suc 2 k) ∙ half_mod x (2 ^ k) (one-le-pow k 2 (omega arith)) in
    omega (
      arith,
      bit_and_step x (2 ^ suc k - 1),
      ap (bit_and (x / 2)) half,
      odd,
      bit_and-mask k (x / 2),
      wide,
    )

differ-le : (x y : ℕ) → differ x y ≤ max x y
differ-le zero y = omega arith
differ-le (suc x) zero = omega arith
differ-le (suc x) (suc y) = omega (arith, differ-le x y)

pub bit_xor-lt : (k x y : ℕ) → x < 2 ^ k → y < 2 ^ k → bit_xor x y < 2 ^ k
bit_xor-lt zero x y hx hy =
    let no_x : x ≡ 0 = omega arith in
    let no_y : y ≡ 0 = omega arith in
    let nothing : bit_xor x y ≡ bit_xor 0 0 = ap (λ a. bit_xor a y) no_x ∙ ap (bit_xor 0) no_y in
    omega (arith, nothing)
bit_xor-lt (suc k) x y hx hy =
    let half =
      bit_xor-lt k (x / 2) (y / 2) (omega (arith, pow-suc 2 k)) (omega (arith, pow-suc 2 k)) in
    omega (arith, half, bit_xor_step x y, differ-le (x % 2) (y % 2), pow-suc 2 k)

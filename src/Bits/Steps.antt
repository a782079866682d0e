-- ===== src/Bits/Steps.antt =====
-- The native `bit_and`, `bit_or` and `bit_xor` read one binary digit at a time.
use Prim.Native.Nat.{digits, bit_and-bitwise, bit_or-bitwise, bit_xor-bitwise, differ}
use tetra_bs.Prelude.{
  ℕ, zero, suc, ◌+◌, ◌*◌, ◌/◌, ◌%◌, ◌≤◌, min, max, bit_and, bit_or, bit_xor, ◌≡◌, refl, sym, ◌∙◌,
  arith,
}

-- More fuel than the number has digits changes nothing.
module _ (off : ℕ → ℕ) (op : ℕ → ℕ → ℕ) where
  same_digits :
      (few many x y : ℕ) → x ≤ few → x ≤ many → digits off op few x y ≡ digits off op many x y
  same_digits few many zero y h k = no_digits few ∙ sym (no_digits many)
    where
      no_digits : (fuel : ℕ) → digits off op fuel 0 y ≡ off y
      no_digits zero = refl
      no_digits (suc fuel) = refl
  same_digits zero many (suc x) y h k = elim h [ ]
  same_digits (suc few) zero (suc x) y h k = elim k [ ]
  same_digits (suc few) (suc many) (suc x) y h k =
      rw (same_digits few many (suc x / 2) (y / 2) (omega arith) (omega arith))

pub zero-bit_and : (y : ℕ) → bit_and 0 y ≡ 0
zero-bit_and y = bit_and-bitwise 0 y

pub bit_and_step : (x y : ℕ) → bit_and x y ≡ bit_and (x / 2) (y / 2) * 2 + min (x % 2) (y % 2)
bit_and_step zero y = omega (arith, zero-bit_and y, zero-bit_and (y / 2))
bit_and_step (suc x) y =
    let fuel =
      same_digits (λ r. 0) min x (suc x / 2) (suc x / 2) (y / 2) (omega arith) (omega arith) in
    omega (arith, fuel, bit_and-bitwise (suc x / 2) (y / 2), bit_and-bitwise (suc x) y)

pub bit_or_step : (x y : ℕ) → bit_or x y ≡ bit_or (x / 2) (y / 2) * 2 + max (x % 2) (y % 2)
bit_or_step zero y = omega (arith, bit_or-bitwise 0 (y / 2), bit_or-bitwise 0 y)
bit_or_step (suc x) y =
    let fuel =
      same_digits (λ r. r) max x (suc x / 2) (suc x / 2) (y / 2) (omega arith) (omega arith) in
    omega (arith, fuel, bit_or-bitwise (suc x / 2) (y / 2), bit_or-bitwise (suc x) y)

pub bit_xor_step : (x y : ℕ) → bit_xor x y ≡ bit_xor (x / 2) (y / 2) * 2 + differ (x % 2) (y % 2)
bit_xor_step zero y = omega (arith, bit_xor-bitwise 0 (y / 2), bit_xor-bitwise 0 y)
bit_xor_step (suc x) y =
    let fuel =
      same_digits (λ r. r) differ x (suc x / 2) (suc x / 2) (y / 2) (omega arith) (omega arith) in
    omega (arith, fuel, bit_xor-bitwise (suc x / 2) (y / 2), bit_xor-bitwise (suc x) y)

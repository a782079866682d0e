-- ===== src/Core/BitBuffer/Spec.antt =====
-- The buffer of a `BitBuffer` as a sequence of bits, MSB first: what the comment at the top of
-- sw/core/src/bitbuffer.c says of the chunked copying below it.
use native.Mathlib.Nat.{pow-suc, add-zero, add-suc, add_assoc}
use tetra_bs.Prelude.{
  ℕ, zero, suc, ◌+◌, ◌-◌, ◌*◌, ◌/◌, ◌%◌, ◌^◌, ◌<◌, ◌≡◌, refl, sym, ◌∙◌, ap, List, get_or, All,
  arith,
}
use tetra_bs.Bits.{test_bit, test_bit-lt, test_bit_ext}

abbrev pub IsBytes : List ℕ → Type 0
IsBytes = All (λ b. b < 256)

-- Bit `i`, counted from the first byte's highest bit.
abbrev pub bit_at : List ℕ → ℕ → ℕ
bit_at buf i = test_bit (get_or buf (i / 8) 0) (7 - i % 8)

-- The number that the `n` bits from `pos` on spell.
unfoldable pub field : List ℕ → ℕ → ℕ → ℕ
field buf pos zero = 0
field buf pos (suc n) = field buf pos n * 2 + bit_at buf (pos + n)

pub field-lt : (buf : List ℕ) (pos n : ℕ) → field buf pos n < 2 ^ n
unfolding field
field-lt buf pos zero = omega arith
field-lt buf pos (suc n) = omega (
  arith,
  field-lt buf pos n,
  pow-suc 2 n,
  test_bit-lt (get_or buf ((pos + n) / 8) 0) (7 - (pos + n) % 8),
)

pub test_bit-field :
    (buf : List ℕ) (pos n j : ℕ)
    → j < n
    → test_bit (field buf pos n) j ≡ bit_at buf (pos + (n - 1 - j))
unfolding field
test_bit-field buf pos zero j h = absurd (omega arith)
test_bit-field buf pos (suc n) zero h =
    let b = test_bit-lt (get_or buf ((pos + n) / 8) 0) (7 - (pos + n) % 8) in
    let e : pos + n ≡ pos + (suc n - 1 - 0) = omega arith in omega (arith, b, ap (bit_at buf) e)
test_bit-field buf pos (suc n) (suc j) h =
    let b = test_bit-lt (get_or buf ((pos + n) / 8) 0) (7 - (pos + n) % 8) in
    let half : (field buf pos n * 2 + bit_at buf (pos + n)) / 2 ≡ field buf pos n =
      omega (arith, b) in
    let e : pos + (n - 1 - j) ≡ pos + (suc n - 1 - suc j) = omega arith in
    ap (λ t. test_bit t j) half ∙ test_bit-field buf pos n j (omega arith) ∙ ap (bit_at buf) e

-- A number is the field if it has the field's bits.
pub field_unique :
    (buf : List ℕ) (pos n v : ℕ)
    → v < 2 ^ n
    → ((j : ℕ) → j < n → test_bit v j ≡ bit_at buf (pos + (n - 1 - j)))
    → v ≡ field buf pos n
field_unique buf pos n v lt e =
    test_bit_ext n v (field buf pos n) lt (field-lt buf pos n)
      (λ j h. e j h ∙ sym (test_bit-field buf pos n j h))

-- Two neighbouring fields.
pub field-add :
    (buf : List ℕ) (pos m k : ℕ)
    → field buf pos (m + k) ≡ field buf pos m * 2 ^ k + field buf (pos + m) k
unfolding field
field-add buf pos m zero = rw (add-zero m) (omega arith)
field-add buf pos m (suc k) = rw (add-suc m k) (
    omega (
      arith,
      field-add buf pos m k,
      ap (bit_at buf) (add_assoc pos m k),
      ap (λ (t : ℕ). field buf pos m * t) (pow-suc 2 k),
    ))

-- Buffers with the same bits in a range have the same field there.
pub field_cong :
    (a b : List ℕ) (p q n : ℕ)
    → ((i : ℕ) → i < n → bit_at a (p + i) ≡ bit_at b (q + i))
    → field a p n ≡ field b q n
unfolding field
field_cong a b p q zero e = refl
field_cong a b p q (suc n) e =
    omega (arith, field_cong a b p q n (λ i h. e i (omega arith)), e n (omega arith))

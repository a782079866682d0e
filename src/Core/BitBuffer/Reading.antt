-- ===== src/Core/BitBuffer/Reading.antt =====
-- `bb_read_at` copies in chunks; it reads the field that the bits spell.
use native.Mathlib.Nat.{pow-le-pow_right, one-le-pow}
use tetra_bs.Prelude.{
  ℕ, zero, suc, ◌+◌, ◌-◌, ◌*◌, ◌/◌, ◌%◌, ◌^◌, ◌≤◌, ◌<◌, ◌≡◌, refl, ◌∙◌, ap, List, get_or, arith,
  bit_and, bit_or, All-get_or, leb, Bool-cases, lt-or-le, leb→le, leb-false→lt, lt→ltb, inl, inr,
  ◌⊎◌,
}
use tetra_bs.Bits.{
  test_bit, test_bit-lt, test_bit-and, test_bit-shr, test_bit_ones, bit_or-shl, bit_and-le,
}
use tetra_bs.Core.BitBuffer.{ones, u8, u32, ReadState, read_head, read_bytes, read_tail, read_at}
use tetra_bs.Core.BitBuffer.Spec.{IsBytes, bit_at, field, field-lt, field_unique, field-add}

pub u8-ones : (n : ℕ) → n ≤ 8 → u8 (ones n) ≡ ones n
u8-ones n h = omega (arith, pow-le-pow_right {n = 2} (omega arith) h)

-- The bits of one byte, masked out.
pub chunk :
    (buf : List ℕ) (pos n : ℕ)
    → pos % 8 + n ≤ 8
    → bit_and (get_or buf (pos / 8) 0 / 2 ^ (8 - pos % 8 - n)) (u8 (ones n)) ≡ field buf pos n
chunk buf pos n h =
    field_unique buf pos n _
      (omega (arith, bit_and-le b (u8 (ones n)), u8-ones n (omega arith), one-le-pow n 2)) bits
  where
    b : ℕ
    b = get_or buf (pos / 8) 0 / 2 ^ (8 - pos % 8 - n)

    bits : (j : ℕ) → j < n → test_bit (bit_and b (u8 (ones n))) j ≡ bit_at buf (pos + (n - 1 - j))
    bits j hj =
        let byte : (pos + (n - 1 - j)) / 8 ≡ pos / 8 = omega arith in
        let off : 7 - (pos + (n - 1 - j)) % 8 ≡ 8 - pos % 8 - n + j = omega arith in
        rw (byte, off)
          (ground (
            arith,
            u8-ones n,
            test_bit-and b (ones n) j,
            test_bit_ones n j,
            test_bit-lt (get_or buf (pos / 8) 0) (8 - pos % 8 - n + j),
            test_bit-shr (get_or buf (pos / 8) 0) (8 - pos % 8 - n) j,
          ))

-- A whole byte at a byte boundary.
pub whole_byte :
    (buf : List ℕ) (pos : ℕ) → IsBytes buf → pos % 8 ≡ 0 → get_or buf (pos / 8) 0 ≡ field buf pos 8
whole_byte buf pos bytes h =
    field_unique buf pos 8 _ (All-get_or (λ b. b < 256) buf (pos / 8) 0 bytes (omega arith)) bits
  where
    bits : (j : ℕ) → j < 8 → test_bit (get_or buf (pos / 8) 0) j ≡ bit_at buf (pos + (7 - j))
    bits j hj =
        let byte : (pos + (7 - j)) / 8 ≡ pos / 8 = omega arith in
        let off : 7 - (pos + (7 - j)) % 8 ≡ j = omega arith in rw (byte, off) refl

-- Where the loops are: the bits from `pos` up to the cursor are in `result`.
record Reads (buf : List ℕ) (pos n : ℕ) (p : ReadState) : Type 0 where
  from : pos ≤ p.cur
  rest : p.cur + p.left ≡ pos + n
  value : p.result ≡ field buf pos (p.cur - pos)
  aligned : (p.left ≡ 0) ⊎ (p.cur % 8 ≡ 0)

-- One more chunk of `k` bits.
shift_in :
    (buf : List ℕ) (pos m k c : ℕ)
    → m + k ≤ 32
    → c ≡ field buf (pos + m) k
    → bit_or (u32 (field buf pos m * 2 ^ k)) c ≡ field buf pos (m + k)
shift_in buf pos m k c h e =
    let small : 2 ^ (m + k) ≤ 2 ^ 32 = pow-le-pow_right {n = 2} (omega arith) h in
    let fits : u32 (field buf pos m * 2 ^ k) ≡ field buf pos m * 2 ^ k =
      omega (arith, field-lt buf pos (m + k), field-add buf pos m k, small) in
    rw (fits, e, field-add buf pos m k)
      (bit_or-shl k (field buf pos m) _ (field-lt buf (pos + m) k))

field_self : (buf : List ℕ) (pos : ℕ) → field buf pos (pos - pos) ≡ 0
unfolding field
field_self buf pos = ap (field buf pos) {y = 0} (omega arith)

field-ahead : (buf : List ℕ) (pos k : ℕ) → field buf pos (pos + k - pos) ≡ field buf pos k
field-ahead buf pos k = ap (field buf pos) {y = k} (omega arith)

read_head-Reads : (buf : List ℕ) (pos n : ℕ) → Reads buf pos n (read_head buf pos n)
unfolding read_head
read_head-Reads buf pos n = ground (
  arith,
  chunk buf pos n,
  chunk buf pos (8 - pos % 8),
  field_self buf pos,
  field-ahead buf pos n,
  field-ahead buf pos (8 - pos % 8),
)

-- One round of the loop.
read_byte-Reads :
    (buf : List ℕ) (pos n : ℕ) (p : ReadState)
    → IsBytes buf
    → n ≤ 32
    → 8 ≤ p.left
    → Reads buf pos n p
    → Reads buf pos n (record {
      result = bit_or (u32 (p.result * 2 ^ 8)) (get_or buf (p.cur / 8) 0);
      cur = p.cur + 8;
      left = p.left - 8;
    })
read_byte-Reads buf pos n p bytes small more r =
    let on : p.cur % 8 ≡ 0 = grind arith in
    let m : ℕ = p.cur - pos in
    let ahead : pos + m ≡ p.cur = omega arith in
    let shifted =
      shift_in buf pos m 8 (get_or buf (p.cur / 8) 0) (omega arith)
        (rw ahead (whole_byte buf p.cur bytes on)) in
    let next : p.cur + 8 - pos ≡ m + 8 = omega arith in
    record {
      from = omega arith;
      rest = omega arith;
      value = rw (r.value, next) shifted;
      aligned = inr (omega arith);
    }

read_bytes-Reads :
    (fuel : ℕ) (buf : List ℕ) (pos n : ℕ) (p : ReadState)
    → IsBytes buf
    → n ≤ 32
    → p.left ≤ fuel
    → Reads buf pos n p
    → Reads buf pos n (read_bytes fuel buf p) × ((read_bytes fuel buf p).left < 8)
unfolding read_bytes
read_bytes-Reads zero buf pos n p bytes small h r = (r, omega arith)
read_bytes-Reads (suc fuel) buf pos n p bytes small h r = elim (Bool-cases (leb 8 p.left)) [
  | inl more ↦ rw more (
      read_bytes-Reads fuel buf pos n _ bytes small (omega arith)
        (read_byte-Reads buf pos n p bytes small (leb→le 8 p.left more) r))
  | inr done ↦ rw done (r, leb-false→lt 8 p.left done)
]

read_tail-field :
    (buf : List ℕ) (pos n : ℕ) (p : ReadState)
    → n ≤ 32
    → Reads buf pos n p
    → p.left < 8
    → read_tail buf p ≡ field buf pos n
unfolding read_tail
read_tail-field buf pos n p small r h = elim (lt-or-le 0 p.left) [
  | inl more ↦
      let on : p.cur % 8 ≡ 0 = grind arith in
      let m : ℕ = p.cur - pos in
      let ahead : pos + m ≡ p.cur = omega arith in
      let off : 8 - p.cur % 8 - p.left ≡ 8 - p.left = omega arith in
      let last : bit_and (get_or buf (p.cur / 8) 0 / 2 ^ (8 - p.left)) (u8 (ones p.left))
          ≡ field buf (pos + m) p.left =
        rw ahead (rw off at (chunk buf p.cur p.left (omega arith))) in
      let all : m + p.left ≡ n = omega arith in
      rw (lt→ltb 0 p.left more, r.value)
        (shift_in buf pos m p.left _ (omega arith) last ∙ ap (field buf pos) all)
  | inr none_left ↦ ground (arith, ap (field buf pos) {x = p.cur - pos} {y = n} (omega arith))
]

-- For `n` up to 32 bits over bytes, the chunked `bb_read_at` returns the number that the bits
-- spell, MSB first.
pub read_at-field :
    (buf : List ℕ) (pos n : ℕ) → IsBytes buf → n ≤ 32 → read_at buf pos n ≡ field buf pos n
unfolding read_at
read_at-field buf pos n bytes small =
    let h = read_head-Reads buf pos n in
    let loop = read_bytes-Reads n buf pos n (read_head buf pos n) bytes small (omega arith) h in
    read_tail-field buf pos n _ small loop.0 loop.1

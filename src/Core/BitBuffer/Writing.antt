-- ===== src/Core/BitBuffer/Writing.antt =====
-- `bb_write_at` copies in chunks; it sets the addressed bits and no other.
pub mod Loop
use native.Mathlib.Nat.{pow-le-pow_right, one-le-pow, mod-eq_of_lt}
use tetra_bs.Prelude.{
  ℕ, zero, suc, ◌+◌, ◌-◌, ◌*◌, ◌/◌, ◌%◌, ◌^◌, ◌≤◌, ◌<◌, ◌≡◌, refl, sym, ◌∙◌, ap, List, get_or, set,
  All, arith, bit_and, bit_or, min, max, All-get_or, All-set, if◌then◌else◌, ltb, leb, Bool-cases,
  lt-or-le, inl, inr, ◌⊎◌, length, length-set, get_or-set_self, get_or-set_ne, ◌==◌, leb→le,
  leb-false→lt, lt→ltb, ◌≢◌, Bool, true, ◌&&◌,
}
use tetra_bs.Bits.{
  test_bit, test_bit-lt, test_bit-and, test_bit-or, test_bit-not, test_bit-shr, test_bit-shl,
  test_bit_ones, bit_and-le, test_bit_above, test_bit-u8,
}
use tetra_bs.Core.BitBuffer.{
  ones, u8, u32, WriteState, merge_byte, write_head, write_bytes, write_tail, write_at,
}
use tetra_bs.Core.BitBuffer.Spec.{IsBytes, bit_at, field, field-lt, field_unique}
use tetra_bs.Core.BitBuffer.Reading.{u8-ones}

-- Bit `i` of a buffer whose byte `k` was replaced by `b`.
pub bit_at-set :
    (buf : List ℕ) (k b i : ℕ)
    → k < length buf
    → bit_at (set buf k b) i ≡ (if i / 8 == k then test_bit b (7 - i % 8) else bit_at buf i)
bit_at-set buf k b i h =
    ground (arith, get_or-set_self buf k b 0 h, get_or-set_ne buf {i = k} {j = i / 8} b 0)

-- bit `j` of the byte that `merge_byte` stores, for a field of `n` bits, `shift` bits from the right
abbrev merged : ℕ → ℕ → ℕ → ℕ → ℕ
merged old v n shift =
    u8 (bit_or (bit_and old (255 - u8 (ones n * 2 ^ shift))) (u8 (bit_and v (ones n) * 2 ^ shift)))

module _ (old v n shift j : ℕ) (fits : n + shift ≤ 8) (old_byte : old < 256) (low : j < 8) where
  test_bit-merged :
      test_bit (merged old v n shift) j
      ≡ (if leb shift j && ltb j (n + shift) then test_bit v (j - shift) else test_bit old j)
  test_bit-merged =
      let mask : ℕ = u8 (ones n * 2 ^ shift) in
      let bits : ℕ = u8 (bit_and v (ones n) * 2 ^ shift) in
      ground (
        arith,
        test_bit-u8 (bit_or (bit_and old (255 - mask)) bits) j,
        test_bit-or (bit_and old (255 - mask)) bits j,
        test_bit-and old (255 - mask) j,
        test_bit-not mask j,
        test_bit-u8 (ones n * 2 ^ shift) j,
        test_bit-shl (ones n) shift j,
        test_bit_ones n (j - shift),
        test_bit-u8 (bit_and v (ones n) * 2 ^ shift) j,
        test_bit-shl (bit_and v (ones n)) shift j,
        test_bit-and v (ones n) (j - shift),
        test_bit-lt v (j - shift),
        test_bit-lt old j,
      )

-- `merge_byte` at byte `k`: the `n` bits of `v`, `shift` bits from the right of the byte.
bit_at-merge_byte :
    (buf : List ℕ) (k v n shift i : ℕ)
    → IsBytes buf
    → k < length buf
    → n + shift ≤ 8
    → bit_at (merge_byte buf k (u8 (ones n * 2 ^ shift)) (u8 (bit_and v (ones n) * 2 ^ shift))) i
      ≡ (if leb (k * 8 + (8 - shift - n)) i && ltb i (k * 8 + (8 - shift))
          then test_bit v (k * 8 + (7 - shift) - i)
          else bit_at buf i)
unfolding merge_byte
bit_at-merge_byte buf k v n shift i bytes h fits = ground (
  arith,
  bit_at-set buf k (merged (get_or buf k 0) v n shift) i h,
  test_bit-merged (get_or buf k 0) v n shift (7 - i % 8) fits
      (All-get_or (λ b. b < 256) buf k 0 bytes (omega arith)) (omega arith),
  shifted,
)
  where
    shifted : i / 8 ≡ k → test_bit v (7 - i % 8 - shift) ≡ test_bit v (k * 8 + (7 - shift) - i)
    shifted e = ap (test_bit v) {x = 7 - i % 8 - shift} {y = k * 8 + (7 - shift) - i} (omega arith)

-- Where the loops are: the bits of `v` from `pos` up to the cursor are in the buffer, and the rest
-- of the buffer is as it was.
pub record Writes (old : List ℕ) (pos n v : ℕ) (w : WriteState) : Type 0 where
  pub bytes : IsBytes w.buf
  pub size : length w.buf ≡ length old
  pub from : pos ≤ w.cur
  pub rest : w.cur + w.left ≡ pos + n
  pub bits :
      (i : ℕ)
      → bit_at w.buf i
        ≡ (if leb pos i && ltb i w.cur then test_bit v (pos + n - 1 - i) else bit_at old i)

-- Between the phases the copying is done, or stands at a byte boundary.
abbrev pub Aligned : WriteState → Type 0
Aligned w = (w.left ≡ 0) ⊎ (w.cur % 8 ≡ 0)

-- One chunk of `k` bits, which holds the next bits of `v`.
pub advance :
    (old buf new : List ℕ) (pos n v cur left k i : ℕ)
    → pos ≤ cur
    → cur + left ≡ pos + n
    → k ≤ left
    → bit_at buf i ≡ (if leb pos i && ltb i cur then test_bit v (pos + n - 1 - i) else bit_at old i)
    → bit_at new i
      ≡ (if leb cur i && ltb i (cur + k) then test_bit v (cur + left - 1 - i) else bit_at buf i)
    → bit_at new i
      ≡ (if leb pos i && ltb i (cur + k) then test_bit v (pos + n - 1 - i) else bit_at old i)
advance old buf new pos n v cur left k i le e fits was now =
    let same : test_bit v (cur + left - 1 - i) ≡ test_bit v (pos + n - 1 - i) =
      ap (λ t. test_bit v (t - 1 - i)) e in
    ground arith

-- `merge_byte` of the next `k` bits.
pub merge_chunk :
    (buf : List ℕ) (cur v left k i : ℕ)
    → IsBytes buf
    → cur / 8 < length buf
    → cur % 8 + k ≤ 8
    → k ≤ left
    → bit_at
        (merge_byte buf
          (cur / 8)
          (u8 (ones k * 2 ^ (8 - cur % 8 - k)))
          (u8 (bit_and (v / 2 ^ (left - k)) (ones k) * 2 ^ (8 - cur % 8 - k))))
        i
      ≡ (if leb cur i && ltb i (cur + k) then test_bit v (cur + left - 1 - i) else bit_at buf i)
merge_chunk buf cur v left k i bytes h fits le = ground (
  arith,
  bit_at-merge_byte buf (cur / 8) (v / 2 ^ (left - k)) k shift i bytes h (omega arith),
  test_bit-shr v (left - k) (cur / 8 * 8 + (7 - shift) - i),
  place,
)
  where
    shift : ℕ
    shift = 8 - cur % 8 - k

    place :
        cur ≤ i
        → i < cur + k
        → test_bit v (left - k + (cur / 8 * 8 + (7 - shift) - i)) ≡ test_bit v (cur + left - 1 - i)
    place lo hi =
        ap (test_bit v) {x = left - k + (cur / 8 * 8 + (7 - shift) - i)} {y = cur + left - 1 - i}
          (omega arith)

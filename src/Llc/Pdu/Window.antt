-- ===== src/Llc/Pdu/Window.antt =====
-- The checksum of sw/llc/llc_pdu.c depends on the bits of its window only.
use tetra_bs.Prelude.{
  ℕ, zero, suc, ◌+◌, ◌-◌, ◌/◌, ◌%◌, ◌^◌, ◌≤◌, ◌<◌, ◌≡◌, refl, sym, ap, ◌∙◌, subst, Bool-cases, inl,
  inr, leb, List, get_or, arith, bit_xor,
}
use native.Mathlib.Nat.{add-zero, zero-add}
use tetra_bs.Bits.{test_bit, test_bit-shr, bit_and-mask, bit_xor-lt}
use tetra_bs.Core.BitBuffer.Spec.{bit_at, field}
use tetra_bs.Llc.Pdu.{nth_bit, crc_step, crc_bits, crc32_over_bb_window}

nth_bit-field : (buf : List ℕ) (i : ℕ) → nth_bit buf i ≡ field buf i 1
unfolding field
nth_bit-field buf i =
    let byte = get_or buf (i / 8) 0 in
    bit_and-mask 1 (byte / 2 ^ (7 - i % 8))
    ∙ test_bit-shr byte (7 - i % 8) 0
    ∙ ap (test_bit byte) (add-zero (7 - i % 8))
    ∙ ap (bit_at buf) (sym (add-zero i))
    ∙ sym (zero-add (bit_at buf (i + 0)))

crc_bits-cong :
    (a b : List ℕ) (i n crc : ℕ)
    → ((j : ℕ) → j < n → nth_bit a (i + j) ≡ nth_bit b (i + j))
    → crc_bits a i n crc ≡ crc_bits b i n crc
unfolding crc_bits
crc_bits-cong a b i zero crc h = refl
crc_bits-cong a b i (suc n) crc h =
    let first : nth_bit a i ≡ nth_bit b i =
      subst (λ k. nth_bit a k ≡ nth_bit b k) (add-zero i) (h 0 (omega arith)) in
    crc_bits-cong a b (i + 1) n (crc_step (nth_bit a i) crc)
      (λ j lt. subst (λ k. nth_bit a k ≡ nth_bit b k) (omega arith) (h (suc j) (omega arith)))
    ∙ ap (λ x. crc_bits b (i + 1) n (crc_step x crc)) first

-- Two buffers with the same bits in a window have the same checksum of it.
pub crc32_over_bb_window-cong :
    (a b : List ℕ) (start end : ℕ)
    → ((p : ℕ) → start ≤ p → p + 1 ≤ end → field a p 1 ≡ field b p 1)
    → crc32_over_bb_window a start end ≡ crc32_over_bb_window b start end
unfolding crc32_over_bb_window
crc32_over_bb_window-cong a b start end h = elim (Bool-cases (leb end start)) [
  | inl none ↦ rw none refl
  | inr some ↦ rw some (
      ap (λ c. bit_xor c 0xFFFFFFFF)
        (crc_bits-cong a b start (end - start) 0xFFFFFFFF (λ j lt.
          nth_bit-field a (start + j)
          ∙ h (start + j) (omega arith) (omega arith)
          ∙ sym (nth_bit-field b (start + j)))))
]

crc_step-lt : (bit crc : ℕ) → crc < 2 ^ 32 → crc_step bit crc < 2 ^ 32
crc_step-lt bit crc h = ground (arith, bit_xor-lt 32 (crc / 2) 0xEDB88320)

crc_bits-lt : (buf : List ℕ) (i n crc : ℕ) → crc < 2 ^ 32 → crc_bits buf i n crc < 2 ^ 32
unfolding crc_bits
crc_bits-lt buf i zero crc h = h
crc_bits-lt buf i (suc n) crc h =
    crc_bits-lt buf (i + 1) n (crc_step (nth_bit buf i) crc) (crc_step-lt (nth_bit buf i) crc h)

-- A checksum has 32 bits.
pub crc32_over_bb_window-lt :
    (buf : List ℕ) (start end : ℕ) → crc32_over_bb_window buf start end < 2 ^ 32
unfolding crc32_over_bb_window
crc32_over_bb_window-lt buf start end = elim (Bool-cases (leb end start)) [
  | inl none ↦ rw none (omega arith)
  | inr some ↦ rw some (
      bit_xor-lt 32 (crc_bits buf start (end - start) 0xFFFFFFFF) 0xFFFFFFFF
        (crc_bits-lt buf start (end - start) 0xFFFFFFFF (omega arith)) (omega arith))
]

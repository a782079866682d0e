-- ===== src/Core/BitBuffer/Writing/Loop.antt =====
-- The three phases of `bb_write_at`, and what they make together.
use native.Mathlib.Nat.{div-one}
use tetra_bs.Prelude.{
  ℕ, zero, suc, ◌+◌, ◌-◌, ◌*◌, ◌/◌, ◌%◌, ◌^◌, ◌≤◌, ◌<◌, ◌≡◌, refl, sym, ◌∙◌, ap, List, set, arith,
  bit_and, All-set, if◌then◌else◌, ltb, leb, Bool-cases, inl, inr, ◌⊎◌, length, length-set, ◌==◌,
  leb→le, leb-false→lt, ltb→lt, ◌&&◌, not,
}
use tetra_bs.Bits.{
  test_bit, test_bit-lt, test_bit-and, test_bit-u8, test_bit-shr, test_bit_ones, bit_and-ones,
}
use tetra_bs.Core.BitBuffer.{
  ones, u8, WriteState, merge_byte, write_head, write_bytes, write_tail, write_at,
}
use tetra_bs.Core.BitBuffer.Spec.{IsBytes, bit_at, field, field_unique, field_cong}
use tetra_bs.Core.BitBuffer.Writing.{Writes, Aligned, advance, merge_chunk, bit_at-set}

merge_byte-IsBytes :
    (buf : List ℕ) (k mask bits : ℕ) → IsBytes buf → IsBytes (merge_byte buf k mask bits)
unfolding merge_byte
merge_byte-IsBytes buf k mask bits h = All-set (λ b. b < 256) buf k _ h (omega arith)

length-merge_byte :
    (buf : List ℕ) (k mask bits : ℕ) → length (merge_byte buf k mask bits) ≡ length buf
unfolding merge_byte
length-merge_byte buf k mask bits = length-set buf k _

module _ (old : List ℕ) (pos n v : ℕ) (room : pos + n ≤ length old * 8) where
  -- The state after one merged chunk of `k` bits.
  chunk-Writes :
      (buf : List ℕ) (cur left k : ℕ)
      → Writes old pos n v (record { buf = buf; cur = cur; left = left })
      → cur % 8 + k ≤ 8
      → 0 < k
      → k ≤ left
      → Writes old pos n v (record {
        buf =
            merge_byte buf
              (cur / 8)
              (u8 (ones k * 2 ^ (8 - cur % 8 - k)))
              (u8 (bit_and (v / 2 ^ (left - k)) (ones k) * 2 ^ (8 - cur % 8 - k)));
        cur = cur + k;
        left = left - k;
      })
  chunk-Writes buf cur left k w fits some_bits le = record {
    bytes = merge_byte-IsBytes buf _ _ _ w.bytes;
    size = length-merge_byte buf _ _ _ ∙ w.size;
    from = omega arith;
    rest = omega arith;
    bits = λ i.
        advance old buf _ pos n v cur left k i w.from w.rest le (w.bits i)
          (merge_chunk buf cur v left k i w.bytes (omega arith) fits le);
  }

  start-Writes : IsBytes old → Writes old pos n v (record { buf = old; cur = pos; left = n })
  start-Writes bytes = record {
    bytes = bytes;
    size = refl;
    from = omega arith;
    rest = refl;
    bits = λ i. ground arith;
  }

  write_head-Writes :
      IsBytes old → Writes old pos n v (write_head old pos v n) × Aligned (write_head old pos v n)
  unfolding write_head
  write_head-Writes bytes =
      let w = start-Writes bytes in
      elim (Bool-cases (not (pos % 8 == 0) && ltb 0 n)) [
        | inl more ↦ elim (Bool-cases (ltb (8 - pos % 8) n)) [
          | inl long ↦
              rw (more, long)
                (
                  chunk-Writes old pos n (8 - pos % 8) w (omega arith) (omega arith) (ground arith),
                  inr (omega arith),
                )
          | inr short ↦
              rw (more, short)
                (
                  chunk-Writes old pos n n w (ground arith) (ground arith) (omega arith),
                  inl (omega arith),
                )
        ]
        | inr done ↦ rw done (w, ground arith)
      ]

  -- One round of the loop over whole bytes.
  write_byte-Writes :
      (w : WriteState)
      → Writes old pos n v w
      → 8 ≤ w.left
      → w.cur % 8 ≡ 0
      → Writes old pos n v (record {
        buf = set w.buf (w.cur / 8) (u8 (bit_and (v / 2 ^ (w.left - 8)) 255));
        cur = w.cur + 8;
        left = w.left - 8;
      })
  write_byte-Writes w h more on = record {
    bytes = All-set (λ b. b < 256) w.buf (w.cur / 8) byte h.bytes (omega arith);
    size = length-set w.buf (w.cur / 8) byte ∙ h.size;
    from = omega arith;
    rest = omega arith;
    bits = λ i. advance old w.buf _ pos n v w.cur w.left 8 i h.from h.rest more (h.bits i) (now i);
  }
    where
      byte : ℕ
      byte = u8 (bit_and (v / 2 ^ (w.left - 8)) 255)

      now :
          (i : ℕ)
          → bit_at (set w.buf (w.cur / 8) byte) i ≡ (
              if leb w.cur i && ltb i (w.cur + 8)
              then test_bit v (w.cur + w.left - 1 - i)
              else bit_at w.buf i)
      now i =
          let place : w.cur ≤ i
              → i < w.cur + 8
              → test_bit v (w.left - 8 + (7 - i % 8)) ≡ test_bit v (w.cur + w.left - 1 - i) =
            λ lo hi.
              ap (test_bit v) {x = w.left - 8 + (7 - i % 8)} {y = w.cur + w.left - 1 - i}
                (omega arith) in
          ground (
            arith,
            bit_at-set w.buf (w.cur / 8) byte i (omega arith),
            test_bit-u8 (bit_and (v / 2 ^ (w.left - 8)) 255) (7 - i % 8),
            test_bit-and (v / 2 ^ (w.left - 8)) 255 (7 - i % 8),
            test_bit_ones 8 (7 - i % 8),
            test_bit-shr v (w.left - 8) (7 - i % 8),
            test_bit-lt v (w.left - 8 + (7 - i % 8)),
            place,
          )

  write_bytes-Writes :
      (fuel : ℕ) (w : WriteState)
      → w.left ≤ fuel
      → Writes old pos n v w × Aligned w
      → Writes old pos n v (write_bytes fuel v w)
        × Aligned (write_bytes fuel v w)
        × ((write_bytes fuel v w).left < 8)
  unfolding write_bytes
  write_bytes-Writes zero w le h = (h.0, h.1, omega arith)
  write_bytes-Writes (suc fuel) w le h = elim (Bool-cases (leb 8 w.left)) [
    | inl more ↦
        let on : w.cur % 8 ≡ 0 = grind arith in
        rw more (
          write_bytes-Writes fuel _ (omega arith)
            (write_byte-Writes w h.0 (leb→le 8 w.left more) on, inr (omega arith)))
    | inr done ↦ rw done (h.0, h.1, leb-false→lt 8 w.left done)
  ]

  write_tail-bits :
      (w : WriteState)
      → Writes old pos n v w
      → Aligned w
      → w.left < 8
      → IsBytes (write_tail v w)
        × (length (write_tail v w) ≡ length old)
        × ((i : ℕ)
            → bit_at (write_tail v w) i ≡ (
                if leb pos i && ltb i (pos + n)
                then test_bit v (pos + n - 1 - i)
                else bit_at old i))
  unfolding write_tail
  write_tail-bits w h al few = elim (Bool-cases (ltb 0 w.left)) [
    | inl more ↦
        let on : w.cur % 8 ≡ 0 = grind arith in
        let off : 8 - w.cur % 8 - w.left ≡ 8 - w.left = omega arith in
        let whole : v / 2 ^ (w.left - w.left) ≡ v =
          ap (λ t. v / 2 ^ t) {y = 0} (omega arith) ∙ div-one v in
        let last =
          rw (off, whole) at
            (chunk-Writes w.buf w.cur w.left w.left h (omega arith) (ltb→lt 0 w.left more)
              (omega arith)) in
        rw (more, ← h.rest) (last.bytes, last.size, λ i. rw h.rest (rw h.rest at (last.bits i)))
    | inr done ↦
        let all : w.cur ≡ pos + n = ground arith in
        rw (done, ← all) (h.bytes, h.size, λ i. rw all (rw all at (h.bits i)))
  ]

-- What `bb_write_at` leaves in the buffer: bytes of the same number; the `n` bits from `pos` on
-- are those of `v`, MSB first, and every other bit is as it was.
pub record Written (old : List ℕ) (pos v n : ℕ) (new : List ℕ) : Type 0 where
  pub bytes : IsBytes new
  pub size : length new ≡ length old
  pub bits :
      (i : ℕ)
      → bit_at new i
        ≡ (if leb pos i && ltb i (pos + n) then test_bit v (pos + n - 1 - i) else bit_at old i)

pub write_at-Written :
    (old : List ℕ) (pos v n : ℕ)
    → IsBytes old
    → n ≤ 32
    → v < 2 ^ n
    → pos + n ≤ length old * 8
    → Written old pos v n (write_at old pos v n)
unfolding write_at
write_at-Written old pos v n bytes small fits room =
    let masked : (if n == 32 then v else bit_and v (ones n)) ≡ v =
      ground (arith, bit_and-ones n v) in
    let w = write_head-Writes old pos n v room bytes in
    let l = write_bytes-Writes old pos n v room n _ (omega arith) w in
    let t = write_tail-bits old pos n v room _ l.0 l.1 l.2 in
    rw masked (record { bytes = t.0; size = t.1; bits = t.2 })

-- The written bits spell `v`.
pub write_at-field :
    (old : List ℕ) (pos v n : ℕ) (new : List ℕ)
    → v < 2 ^ n
    → Written old pos v n new
    → field new pos n ≡ v
write_at-field old pos v n new fits w = sym (field_unique new pos n v fits bit)
  where
    bit : (j : ℕ) → j < n → test_bit v j ≡ bit_at new (pos + (n - 1 - j))
    bit j h = ground (
      arith,
      w.bits (pos + (n - 1 - j)),
      ap (test_bit v) {x = pos + n - 1 - (pos + (n - 1 - j))} {y = j} (omega arith),
    )

-- A field that ends before the written bits, or starts behind them, is as it was.
pub write_at-other_field :
    (old : List ℕ) (pos v n : ℕ) (new : List ℕ) (p k : ℕ)
    → (p + k ≤ pos) ⊎ (pos + n ≤ p)
    → Written old pos v n new
    → field new p k ≡ field old p k
write_at-other_field old pos v n new p k apart w =
    field_cong new old p p k (λ i h. ground (arith, w.bits (p + i)))

-- ===== src/Core/BitBuffer.antt =====
-- sw/core/src/bitbuffer.c and `BitBuffer` of sw/core/include/tetra/types.h.
-- The memory behind `buffer` is part of the record. A failed `assert` ends the process: `none`.
-- The pointers that the functions test against NULL are values here, so those tests are gone.
-- A sum of a position and a length is not wrapped to `size_t`: none of a buffer in memory reaches it.
pub mod Spec
pub mod Reading
pub mod Writing
pub mod Cursor
pub mod Codec
use tetra_bs.Prelude.{
  ℕ, zero, suc, ◌+◌, ◌-◌, ◌*◌, ◌/◌, ◌%◌, ◌^◌, bit_and, bit_or, Bool, true, false, ◌&&◌, not, Option,
  none, some, List, get_or, set, ltb, leb, ◌==◌, if◌then◌else◌,
}

pub record BitBuffer : Type 0 where
  pub buffer : List ℕ
  pub cap_bits : ℕ
  pub start : ℕ
  pub pos : ℕ
  pub end : ℕ
  pub autoexpand : Bool

abbrev pub u8 : ℕ → ℕ
u8 n = n % 256

abbrev pub u32 : ℕ → ℕ
u32 n = n % 2 ^ 32

-- `(1u << k) - 1u`
abbrev pub ones : ℕ → ℕ
ones k = 2 ^ k - 1

-- The state of the copying loops: the value read so far, the cursor, the bits left.
pub record ReadState : Type 0 where
  pub result : ℕ
  pub cur : ℕ
  pub left : ℕ

-- The first `if` of `bb_read_at`: the bits up to the next byte boundary.
unfoldable pub read_head : List ℕ → ℕ → ℕ → ReadState
read_head buf cur left =
    let head = cur % 8 in
    let n = if ltb (8 - head) left then 8 - head else left in
    let byte = get_or buf (cur / 8) 0 in
    if not (head == 0) && ltb 0 left
    then record {
      result = bit_and (byte / 2 ^ (8 - head - n)) (u8 (ones n));
      cur = cur + n;
      left = left - n;
    }
    else record { result = 0; cur = cur; left = left }

-- The loop of `bb_read_at` over whole bytes.
unfoldable pub read_bytes : ℕ → List ℕ → ReadState → ReadState
read_bytes zero buf p = p
read_bytes (suc fuel) buf p =
    let byte = get_or buf (p.cur / 8) 0 in
    let rest = read_bytes fuel buf (record {
      result = bit_or (u32 (p.result * 2 ^ 8)) byte;
      cur = p.cur + 8;
      left = p.left - 8;
    }) in
    if leb 8 p.left then rest else p

-- The last `if` of `bb_read_at`: the head of the last byte.
unfoldable pub read_tail : List ℕ → ReadState → ℕ
read_tail buf p =
    let byte = get_or buf (p.cur / 8) 0 in
    if ltb 0 p.left
    then bit_or (u32 (p.result * 2 ^ p.left)) (bit_and (byte / 2 ^ (8 - p.left)) (u8 (ones p.left)))
    else p.result

-- `bb_read_at`; the loop makes at most one round for each 8 of the `n` bits.
unfoldable pub read_at : List ℕ → ℕ → ℕ → ℕ
unfolding read_head read_bytes read_tail
read_at buf bit_pos n = read_tail buf (read_bytes n buf (read_head buf bit_pos n))

-- `*p = (*p & ~mask) | bits`
unfoldable pub merge_byte : List ℕ → ℕ → ℕ → ℕ → List ℕ
merge_byte buf i mask bits = set buf i (u8 (bit_or (bit_and (get_or buf i 0) (255 - mask)) bits))

pub record WriteState : Type 0 where
  pub buf : List ℕ
  pub cur : ℕ
  pub left : ℕ

-- The first `if` of `bb_write_at`; `v` is the masked value.
unfoldable pub write_head : List ℕ → ℕ → ℕ → ℕ → WriteState
unfolding merge_byte
write_head buf cur v left =
    let head = cur % 8 in
    let n = if ltb (8 - head) left then 8 - head else left in
    let shift = 8 - head - n in
    let mask = u8 (ones n * 2 ^ shift) in
    let bits = u8 (bit_and (v / 2 ^ (left - n)) (ones n) * 2 ^ shift) in
    if not (head == 0) && ltb 0 left
    then record { buf = merge_byte buf (cur / 8) mask bits; cur = cur + n; left = left - n }
    else record { buf = buf; cur = cur; left = left }

-- The loop of `bb_write_at` over whole bytes.
unfoldable pub write_bytes : ℕ → ℕ → WriteState → WriteState
write_bytes zero v w = w
write_bytes (suc fuel) v w =
    let byte = u8 (bit_and (v / 2 ^ (w.left - 8)) 255) in
    let rest =
      write_bytes fuel v
        (record { buf = set w.buf (w.cur / 8) byte; cur = w.cur + 8; left = w.left - 8 }) in
    if leb 8 w.left then rest else w

-- The last `if` of `bb_write_at`.
unfoldable pub write_tail : ℕ → WriteState → List ℕ
unfolding merge_byte
write_tail v w =
    let shift = 8 - w.left in
    let mask = u8 (ones w.left * 2 ^ shift) in
    let bits = u8 (bit_and v (ones w.left) * 2 ^ shift) in
    if ltb 0 w.left then merge_byte w.buf (w.cur / 8) mask bits else w.buf

-- `bb_write_at`
unfoldable pub write_at : List ℕ → ℕ → ℕ → ℕ → List ℕ
unfolding write_head write_bytes write_tail
write_at buf bit_pos v n =
    let v_masked = if n == 32 then v else bit_and v (ones n) in
    write_tail v_masked (write_bytes n v_masked (write_head buf bit_pos v_masked n))

unfoldable pub bb_init : List ℕ → ℕ → BitBuffer
bb_init buf len_bits = record {
  buffer = buf;
  cap_bits = len_bits;
  start = 0;
  pos = 0;
  end = len_bits;
  autoexpand = false;
}

unfoldable pub bb_init_autoexpand : List ℕ → ℕ → BitBuffer
bb_init_autoexpand buf cap_bits = record {
  buffer = buf;
  cap_bits = cap_bits;
  start = 0;
  pos = 0;
  end = 0;
  autoexpand = true;
}

unfoldable pub bb_set_autoexpand : BitBuffer → Bool → BitBuffer
bb_set_autoexpand bb enable = record bb { autoexpand = enable }

-- The checks of `bb_put_bits` that move `end`.
unfoldable pub grow_end : BitBuffer → ℕ → Option BitBuffer
grow_end bb need_end =
    if ltb bb.end need_end
    then (if bb.autoexpand && leb need_end bb.cap_bits
        then some (record bb { end = need_end })
        else none)
    else some bb

-- `n` is a `uint8_t`, `v` a `uint32_t`; `none` is a failed assertion.
unfoldable pub bb_put_bits : BitBuffer → ℕ → ℕ → Option BitBuffer
unfolding grow_end
bb_put_bits bb v n =
    if leb 1 n && leb n 32 && (if ltb n 32 then v / 2 ^ n == 0 else true)
    then elim (grow_end bb (bb.pos + n)) [
      | none ↦ none
      | some b ↦ some (record b { buffer = write_at b.buffer b.pos v n; pos = b.pos + n })
    ]
    else none

-- An underrun reads 0 and moves nothing.
unfoldable pub bb_get_bits : BitBuffer → ℕ → Option (ℕ × BitBuffer)
bb_get_bits bb n =
    if leb 1 n && leb n 32
    then (if ltb bb.end (bb.pos + n)
        then some (0, bb)
        else some (read_at bb.buffer bb.pos n, record bb { pos = bb.pos + n }))
    else none

-- `size_t` differences; `bb_pos_bits`, `bb_remaining` and `bb_len_bits`
abbrev pub sub_size : ℕ → ℕ → ℕ
sub_size a b = (a + 2 ^ 64 - b) % 2 ^ 64

unfoldable pub bb_pos_bits : BitBuffer → ℕ
bb_pos_bits bb = sub_size bb.pos bb.start

unfoldable pub bb_remaining : BitBuffer → ℕ
bb_remaining bb = sub_size bb.end bb.pos

unfoldable pub bb_len_bits : BitBuffer → ℕ
bb_len_bits bb = sub_size bb.end bb.start

unfoldable pub bb_seek_bits : BitBuffer → ℕ → Option BitBuffer
bb_seek_bits bb pos =
    if leb (bb.start + pos) bb.end then some (record bb { pos = bb.start + pos }) else none

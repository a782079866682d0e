-- ===== src/Core/BitBuffer/Cursor.antt =====
-- The public functions of sw/core/src/bitbuffer.c on a valid `BitBuffer`.
use tetra_bs.Prelude.{
  ℕ, ◌+◌, ◌-◌, ◌*◌, ◌/◌, ◌^◌, ◌≤◌, ◌<◌, ◌≡◌, refl, ◌⊎◌, inl, inr, true, some, length, arith, max,
}
use native.Mathlib.Nat.{div-eq_of_lt, div-lt_iff_lt-mul, one-le-pow}
use tetra_bs.Core.BitBuffer.{BitBuffer, grow_end, bb_put_bits, bb_get_bits, bb_seek_bits, write_at}
use tetra_bs.Core.BitBuffer.Spec.{IsBytes, field}
use tetra_bs.Core.BitBuffer.Reading.{read_at-field}
use tetra_bs.Core.BitBuffer.Writing.Loop.{write_at-Written, write_at-field, write_at-other_field}

-- The window lies in the memory, and the cursor in the window.
pub record IsValid (bb : BitBuffer) : Type 0 where
  pub bytes : IsBytes bb.buffer
  pub start_le : bb.start ≤ bb.pos
  pub pos_le : bb.pos ≤ bb.end
  pub end_le : bb.end ≤ bb.cap_bits
  pub memory : bb.cap_bits ≤ length bb.buffer * 8
  pub addressable : bb.cap_bits < 2 ^ 64

-- `n` more bits fit: below `end`, or below `cap_bits` where the buffer grows.
abbrev pub HasRoom : BitBuffer → ℕ → Type 0
HasRoom bb n = (bb.pos + n ≤ bb.end) ⊎ ((bb.autoexpand ≡ true) × (bb.pos + n ≤ bb.cap_bits))

-- What a successful `bb_put_bits` of `n` bits of `v` makes of `bb`.
pub record Put (bb : BitBuffer) (v n : ℕ) (bb' : BitBuffer) : Type 0 where
  pub valid : IsValid bb'
  pub value : field bb'.buffer bb.pos n ≡ v
  pub before : (p k : ℕ) → p + k ≤ bb.pos → field bb'.buffer p k ≡ field bb.buffer p k
  pub behind : (p k : ℕ) → bb.pos + n ≤ p → field bb'.buffer p k ≡ field bb.buffer p k
  pub moved : bb'.pos ≡ bb.pos + n
  pub window :
      (bb'.start ≡ bb.start) × (bb'.end ≡ max bb.end (bb.pos + n)) × (bb'.cap_bits ≡ bb.cap_bits)
  pub size : length bb'.buffer ≡ length bb.buffer
  pub flag : bb'.autoexpand ≡ bb.autoexpand

shr_fits : (v n : ℕ) → v < 2 ^ n → v / 2 ^ n ≡ 0
shr_fits v n h = div-eq_of_lt h

grow_end-room :
    (bb : BitBuffer) (n : ℕ)
    → HasRoom bb n
    → grow_end bb (bb.pos + n) ≡ some (record bb { end = max bb.end (bb.pos + n) })
unfolding grow_end
grow_end-room bb n room = ground arith

-- On a valid buffer, putting 1 to 32 bits of a value that fits them, where there is room, ends well:
-- the buffer stays valid, the bits under the cursor read as the value, all other bits are as they
-- were, and the cursor and the window move as `Put` says.
pub bb_put_bits-Put :
    (bb : BitBuffer) (v n : ℕ)
    → IsValid bb
    → 1 ≤ n
    → n ≤ 32
    → v < 2 ^ n
    → HasRoom bb n
    → (bb' : BitBuffer) × (bb_put_bits bb v n ≡ some bb') × Put bb v n bb'
unfolding bb_put_bits
bb_put_bits-Put bb v n valid lo hi fits room =
    let fit_end : bb.pos + n ≤ bb.cap_bits = grind arith in
    let w = write_at-Written bb.buffer bb.pos v n valid.bytes hi fits (omega arith) in
    (
      record bb {
        buffer = write_at bb.buffer bb.pos v n;
        end = max bb.end (bb.pos + n);
        pos = bb.pos + n;
      },
      ground (arith, shr_fits v n fits, grow_end-room bb n room),
      record {
        valid = record {
          bytes = w.bytes;
          start_le = omega arith;
          pos_le = omega arith;
          end_le = omega arith;
          memory = omega (arith, w.size);
          addressable = omega arith;
        };
        value = write_at-field bb.buffer bb.pos v n _ fits w;
        before = λ p k h. write_at-other_field bb.buffer bb.pos v n _ p k (inl h) w;
        behind = λ p k h. write_at-other_field bb.buffer bb.pos v n _ p k (inr h) w;
        moved = refl;
        window = (refl, refl, refl);
        size = w.size;
        flag = refl;
      },
    )

-- `bb_get_bits` returns the field under the cursor and moves behind it; an underrun returns 0 and
-- moves nothing.
pub bb_get_bits_lem :
    (bb : BitBuffer) (n : ℕ)
    → IsValid bb
    → 1 ≤ n
    → n ≤ 32
    → ((bb.pos + n ≤ bb.end)
        × (bb_get_bits bb n ≡ some (field bb.buffer bb.pos n, record bb { pos = bb.pos + n })))
      ⊎ ((bb.end < bb.pos + n) × (bb_get_bits bb n ≡ some (0, bb)))
unfolding bb_get_bits
bb_get_bits_lem bb n valid lo hi = ground (arith, read_at-field bb.buffer bb.pos n valid.bytes hi)

-- Seeking back to where the bits were put, and reading them.
back_and_get :
    (bb : BitBuffer) (v n : ℕ) (bb' : BitBuffer)
    → IsValid bb
    → 1 ≤ n
    → n ≤ 32
    → Put bb v n bb'
    → (bb_seek_bits bb' (bb.pos - bb.start) ≡ some (record bb' { pos = bb.pos }))
      × (bb_get_bits (record bb' { pos = bb.pos }) n ≡ some (v, bb'))
unfolding bb_seek_bits
back_and_get bb v n bb' valid lo hi put =
    let here : bb.start + (bb.pos - bb.start) ≡ bb.pos = omega (arith, valid.start_le) in
    let back_valid : IsValid (record bb' { pos = bb.pos }) = record {
      bytes = put.valid.bytes;
      start_le = rw put.window.0 valid.start_le;
      pos_le = omega (arith, put.valid.pos_le, put.moved);
      end_le = put.valid.end_le;
      memory = put.valid.memory;
      addressable = put.valid.addressable;
    } in
    let inside : bb.pos + n ≤ bb'.end = omega (arith, put.valid.pos_le, put.moved) in
    let got = bb_get_bits_lem (record bb' { pos = bb.pos }) n back_valid lo hi in
    (
      ground (arith, put.window, here, valid.pos_le),
      ground (arith, got, put.value, inside, put.moved),
    )

-- Where `n` bits fit, putting `v` ends well; seeking back and getting `n` bits ends well too, and
-- returns `v` with the buffer as the put left it.
pub get-put :
    (bb : BitBuffer) (v n : ℕ)
    → IsValid bb
    → 1 ≤ n
    → n ≤ 32
    → v < 2 ^ n
    → HasRoom bb n
    → (bb' back : BitBuffer) × (bb_put_bits bb v n ≡ some bb')
      × (bb_seek_bits bb' (bb.pos - bb.start) ≡ some back)
      × (bb_get_bits back n ≡ some (v, bb'))
get-put bb v n valid lo hi fits room =
    let (bb', e, put) = bb_put_bits-Put bb v n valid lo hi fits room in
    let (seek, get) = back_and_get bb v n bb' valid lo hi put in
    (bb', record bb' { pos = bb.pos }, e, seek, get)

shr_fits_iff : (v n : ℕ) → v / 2 ^ n ≡ 0 → v < 2 ^ n
shr_fits_iff v n e = omega (
  arith,
  (div-lt_iff_lt-mul {k = 2 ^ n} {x = v} {y = 1} (one-le-pow n 2 (omega arith))).0 (omega arith),
)

-- A put that ends well was given 1 to 32 bits, a value that fits them, and room.
pub bb_put_bits-some :
    (bb : BitBuffer) (v n : ℕ) {bb' : BitBuffer}
    → v < 2 ^ 32
    → bb_put_bits bb v n ≡ some bb'
    → (1 ≤ n) × (n ≤ 32) × (v < 2 ^ n) × HasRoom bb n
unfolding bb_put_bits grow_end
bb_put_bits-some bb v n fits e =
    let wide : n ≡ 32 → v < 2 ^ n = λ w. rw w fits in ground (arith, shr_fits_iff v n, wide)

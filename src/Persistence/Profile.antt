-- ===== src/Persistence/Profile.antt =====
-- `Profile` of sw/persistence/include/tetra/db.h, and `profile_pack` and `profile_unpack` of
-- sw/persistence/src/db.c.
pub mod Packing
use tetra_bs.Prelude.{
  ℕ, ◌+◌, ◌*◌, ◌/◌, ◌^◌, bit_and, bit_or, Bool, true, false, not, ◌==◌, if◌then◌else◌,
}

pub record Profile : Type 0 where
  pub max_call_duration : ℕ
  pub hangtime : ℕ
  pub priority : ℕ
  pub gila_class : ℕ
  pub gila_lifetime : ℕ
  pub reserved3 : ℕ
  pub permit_voice : Bool
  pub permit_data : Bool
  pub permit_reg : Bool
  pub valid : Bool

abbrev pub bit : Bool → ℕ
bit b = if b then 1 else 0

-- the steps of `profile_pack`: `v |= field << shift`
unfoldable pub profile_pack : Profile → ℕ
profile_pack p =
    let v = bit_or 0 (bit_and p.max_call_duration 0xff * 2 ^ 24) in
    let v = bit_or v (bit_and p.hangtime 0xff * 2 ^ 16) in
    let v = bit_or v (bit_and p.priority 0x0f * 2 ^ 12) in
    let v = bit_or v (bit_and p.gila_class 0x07 * 2 ^ 9) in
    let v = bit_or v (bit_and p.gila_lifetime 0x03 * 2 ^ 7) in
    let v = bit_or v (bit_and p.reserved3 0x07 * 2 ^ 4) in
    let v = bit_or v (bit p.permit_voice * 2 ^ 3) in
    let v = bit_or v (bit p.permit_data * 2 ^ 2) in
    let v = bit_or v (bit p.permit_reg * 2 ^ 1) in bit_or v (bit p.valid)

unfoldable pub profile_unpack : ℕ → Profile
profile_unpack bits = record {
  max_call_duration = bit_and (bits / 2 ^ 24) 0xff;
  hangtime = bit_and (bits / 2 ^ 16) 0xff;
  priority = bit_and (bits / 2 ^ 12) 0x0f;
  gila_class = bit_and (bits / 2 ^ 9) 0x07;
  gila_lifetime = bit_and (bits / 2 ^ 7) 0x03;
  reserved3 = bit_and (bits / 2 ^ 4) 0x07;
  permit_voice = not (bit_and (bits / 2 ^ 3) 1 == 0);
  permit_data = not (bit_and (bits / 2 ^ 2) 1 == 0);
  permit_reg = not (bit_and (bits / 2 ^ 1) 1 == 0);
  valid = not (bit_and bits 1 == 0);
}

-- TETRA_DB_PROFILE0_BITS
abbrev pub profile0_bits : ℕ
profile0_bits = 0x88f

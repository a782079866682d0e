-- ===== src/Llc.antt =====
-- The data that the LLC hands to the MLE: `LlcPdu` and `TleSapMsg` of
-- sw/llc/include/tetra/llc.h, and `TetraAddress` of sw/core/include/tetra/types.h.
pub mod Pdu
pub mod Links
mod Tests
use tetra_bs.Prelude.{ℕ, Bool, List}

pub record TetraAddress : Type 0 where
  pub ssi : ℕ
  pub ssi_type : ℕ

pub record LlcPdu : Type 0 where
  pub pdu_type : ℕ
  pub nr : ℕ
  pub ns : ℕ
  pub body_len_bits : ℕ
  pub body : List ℕ
  pub fcs : ℕ
  pub fcs_valid : Bool

-- LLC_PDU_BODY_MAX_BYTES
abbrev pub body_max_bytes : ℕ
body_max_bytes = 32

pub record TleSapMsg : Type 0 where
  pub endpoint : ℕ
  pub addr : TetraAddress
  pub pdu : LlcPdu

-- How the compiler lays the envelope `TleSapMsg` out, and what a `memcpy` out of bytes gives.
pub record TleLayout : Type 0 where
  pub bytes : TleSapMsg → List ℕ
  pub size : ℕ
  pub message : List ℕ → TleSapMsg

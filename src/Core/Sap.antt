-- ===== src/Core/Sap.antt =====
-- sw/core/include/tetra/sap.h and the SAP types of sw/core/include/tetra/types.h.
-- A `SapId` is an enum that C passes on as an integer and range-checks, so it is a number here.
use tetra_bs.Prelude.{ℕ, Bool, Option, List, ltb, ◌&&◌, ◌==◌, ◌||◌, if◌then◌else◌}

abbrev pub SapId : Type 0
SapId = ℕ

abbrev pub sap_none : SapId
sap_none = 0

abbrev pub tma_sap : SapId
tma_sap = 3

abbrev pub tle_sap : SapId
tle_sap = 5

abbrev pub tlmb_sap : SapId
tlmb_sap = 6

abbrev pub tlmc_sap : SapId
tlmc_sap = 7

abbrev pub tnmm_sap : SapId
tnmm_sap = 8

abbrev pub sap_max : SapId
sap_max = 9

abbrev pub prio_high : ℕ
prio_high = 0

abbrev pub prio_normal : ℕ
prio_normal = 1

abbrev pub prio_low : ℕ
prio_low = 2

abbrev pub prio_count : ℕ
prio_count = 3

-- `SapMsg`; a NULL payload is `none`.
pub record SapMsg : Type 0 where
  pub src : SapId
  pub dest : SapId
  pub sap : SapId
  pub len : ℕ
  pub payload : Option (List ℕ)

abbrev pub sap_id_is_valid : SapId → Bool
sap_id_is_valid id = ltb sap_none id && ltb id sap_max

abbrev pub sap_prio_default : SapId → ℕ
sap_prio_default sap =
    if sap == tma_sap || sap == tlmb_sap
    then prio_high
    else if sap == tnmm_sap
    then prio_low
    else prio_normal

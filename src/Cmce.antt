-- ===== src/Cmce.antt =====
-- The calls of the circuit mode entity: sw/cmce/cmce_fsm.c and the timer of
-- sw/cmce/cmce_nwrk_bcast.c, with the types of sw/cmce/include/tetra/cmce.h. A call slot is known by
-- its index; of a message the state machine reads its type only.
pub mod Calls
pub mod Periodic
pub mod Slots
pub mod Message
pub mod Pdu
pub mod Handling
mod Tests
use tetra_bs.Prelude.{
  ℕ, zero, suc, ◌+◌, ◌-◌, ◌%◌, ◌^◌, Bool, true, false, not, ◌&&◌, ◌||◌, Option, none, some, List,
  [], ◌∷◌, get_or, set, replicate, ltb, leb, ◌==◌, if◌then◌else◌,
}
use tetra_bs.Llc.{TetraAddress}

pub data CmcePduType : Type 0 where
  setup call_proceeding connect tx_demand tx_granted release nwrk_broadcast unknown : CmcePduType

pub data CmceCallState : Type 0 where
  idle setup_pending proceeding connected tx_granted releasing : CmceCallState

abbrev pub max_calls : ℕ
max_calls = 8

pub record CmceCallSlot : Type 0 where
  pub in_use : Bool
  pub call_identifier : ℕ
  pub state : CmceCallState
  pub peer_addr : TetraAddress
  pub endpoint : ℕ
  pub retry_count : ℕ

abbrev pub zero_addr : TetraAddress
zero_addr = record { ssi = 0; ssi_type = 0 }

abbrev pub zero_slot : CmceCallSlot
zero_slot = record {
  in_use = false;
  call_identifier = 0;
  state = idle;
  peer_addr = zero_addr;
  endpoint = 0;
  retry_count = 0;
}

pub record CmceCfg : Type 0 where
  pub nwrk_bcast_period_multiframes : ℕ
  pub cell_re_select_parameters_seed : ℕ
  pub cell_load_ca : ℕ

pub record CmceStats : Type 0 where
  pub pdus_rx : ℕ
  pub pdus_tx : ℕ
  pub setup_count : ℕ
  pub connect_count : ℕ
  pub tx_grant_count : ℕ
  pub release_count : ℕ
  pub nwrk_bcast_count : ℕ
  pub unknown_pdu_type : ℕ
  pub fsm_drops : ℕ

-- Without the pointer to the bus, which no function here uses.
pub record Cmce : Type 0 where
  pub cfg : CmceCfg
  pub calls : List CmceCallSlot
  pub stats : CmceStats
  pub last_bcast_tick_mf : ℕ
  pub initialised : Bool

abbrev pub size : ℕ → ℕ
size n = n % 2 ^ 64

abbrev pub drop_counted : CmceStats → CmceStats
drop_counted st = record st { fsm_drops = size (st.fsm_drops + 1) }

-- The loop of `cmce_call_lookup`, from index `i` on
unfoldable pub lookup_from : List CmceCallSlot → ℕ → ℕ → Option ℕ
lookup_from [] i id = none
lookup_from (s ∷ ss) i id =
    let rest = lookup_from ss (i + 1) id in
    if s.in_use && s.call_identifier == id then some i else rest

unfoldable pub cmce_call_lookup : Cmce → ℕ → Option ℕ
cmce_call_lookup cmce id = lookup_from cmce.calls 0 id

-- The loop of `cmce_call_alloc`
unfoldable pub free_from : List CmceCallSlot → ℕ → Option ℕ
free_from [] i = none
free_from (s ∷ ss) i = let rest = free_from ss (i + 1) in if not s.in_use then some i else rest

abbrev pub new_slot : ℕ → Option TetraAddress → ℕ → CmceCallSlot
new_slot id peer endpoint = record {
  in_use = true;
  call_identifier = id;
  state = setup_pending;
  peer_addr = elim peer [ none ↦ zero_addr | some addr ↦ addr ];
  endpoint = endpoint;
  retry_count = 0;
}

-- A NULL `peer` is `none`.
unfoldable pub cmce_call_alloc : Cmce → ℕ → Option TetraAddress → ℕ → Cmce × Option ℕ
cmce_call_alloc cmce id peer endpoint = elim (cmce_call_lookup cmce id) [
  | some i ↦ (record cmce { stats = drop_counted cmce.stats }, none)
  | none ↦ elim (free_from cmce.calls 0) [
    | none ↦ (cmce, none)
    | some i ↦ (record cmce { calls = set cmce.calls i (new_slot id peer endpoint) }, some i)
  ]
]

abbrev pub released : CmceCallSlot → CmceCallSlot
released s = record s { in_use = false; state = idle; call_identifier = 0; retry_count = 0 }

abbrev pub slot : Cmce → ℕ → CmceCallSlot
slot cmce i = get_or cmce.calls i zero_slot

unfoldable pub cmce_call_release : Cmce → ℕ → Cmce
cmce_call_release cmce i = record cmce { calls = set cmce.calls i (released (slot cmce i)) }

abbrev pub go : CmceStats → CmceCallSlot → CmceCallState → CmceStats × CmceCallSlot × Bool
go st s state = (st, record s { state = state }, false)

abbrev pub drop : CmceStats → CmceCallSlot → CmceStats × CmceCallSlot × Bool
drop st s = (drop_counted st, s, false)

abbrev pub is : CmceCallState → CmceCallState → Bool
is idle idle = true
is setup_pending setup_pending = true
is proceeding proceeding = true
is connected connected = true
is tx_granted tx_granted = true
is releasing releasing = true
is s t = false

abbrev pub count_setup : CmceStats → CmceStats
count_setup st = record st { setup_count = size (st.setup_count + 1) }

abbrev pub count_connect : CmceStats → CmceStats
count_connect st = record st { connect_count = size (st.connect_count + 1) }

abbrev pub count_grant : CmceStats → CmceStats
count_grant st = record st { tx_grant_count = size (st.tx_grant_count + 1) }

abbrev pub count_release : CmceStats → CmceStats
count_release st = record st { release_count = size (st.release_count + 1) }

-- What the `switch` of `cmce_fsm_apply` makes of the counters and the slot, for an uplink message
-- or not; the last flag says whether the call was released.
unfoldable pub fsm_switch :
    CmceStats → CmceCallSlot → CmcePduType → Bool → CmceStats × CmceCallSlot × Bool
fsm_switch st s setup uplink =
    if uplink
    then go (count_setup (if is s.state setup_pending then st else drop_counted st)) s setup_pending
    else go (count_setup st) s setup_pending
fsm_switch st s call_proceeding uplink =
    if is s.state setup_pending then go st s proceeding else drop st s
fsm_switch st s connect uplink =
    if is s.state proceeding || is s.state setup_pending
    then go (count_connect st) s connected
    else drop st s
fsm_switch st s tx_demand uplink =
    if is s.state connected then go (count_grant st) s CmceCallState.tx_granted else drop st s
fsm_switch st s CmcePduType.tx_granted uplink =
    if is s.state connected || is s.state CmceCallState.tx_granted
    then go (count_grant st) s CmceCallState.tx_granted
    else drop st s
fsm_switch st s release uplink =
    if is s.state releasing
    then (count_release st, released s, true)
    else if not (is s.state idle)
    then go (count_release st) s releasing
    else drop st s
fsm_switch st s nwrk_broadcast uplink = drop st s
fsm_switch st s unknown uplink = drop st s

-- The new state, and the one returned; a NULL slot is `none`.
unfoldable pub cmce_fsm_apply : Cmce → Option ℕ → CmcePduType → Bool → Cmce × CmceCallState
cmce_fsm_apply cmce none pdu uplink = (record cmce { stats = drop_counted cmce.stats }, idle)
cmce_fsm_apply cmce (some i) pdu uplink =
    let (st, s, gone) = fsm_switch cmce.stats (slot cmce i) pdu uplink in
    if not (slot cmce i).in_use
    then (record cmce { stats = drop_counted cmce.stats }, idle)
    else (record cmce { calls = set cmce.calls i s; stats = st }, if gone then idle else s.state)

-- `cmce_nwrk_bcast_tick`: the difference of the counters wraps around.
unfoldable pub cmce_nwrk_bcast_tick : Cmce → ℕ → Cmce × Bool
cmce_nwrk_bcast_tick cmce now =
    let period = cmce.cfg.nwrk_bcast_period_multiframes in
    let fired = record cmce { last_bcast_tick_mf = now } in
    if not cmce.initialised
    then (cmce, false)
    else if period == 0
    then (cmce, false)
    else if cmce.last_bcast_tick_mf == 0
    then (if leb period now then (fired, true) else (cmce, false))
    else if leb period (size (now + 2 ^ 64 - cmce.last_bcast_tick_mf))
    then (fired, true)
    else (cmce, false)

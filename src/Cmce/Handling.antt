-- ===== src/Cmce/Handling.antt =====
-- The entity of sw/cmce/cmce.c. The bus that C reaches through a pointer is handed in and out, and
-- the layout of the envelope is a parameter. `none` is a failed assertion of the bit buffer.
pub mod Shrinks
pub mod Answers
pub mod Replies
pub mod OneCall
pub mod Reached
use tetra_bs.Prelude.{
  ℕ, ◌+◌, ◌-◌, ◌*◌, ◌/◌, ◌%◌, ◌^◌, Bool, true, false, not, ◌||◌, Option, none, some, List, [], ◌∷◌,
  ◌++◌, get_or, replicate, take, ltb, ◌==◌, if◌then◌else◌, Result, ok, err, einval, eproto, e2big,
  enospc,
}
use tetra_bs.Core.Sap.{SapMsg, tma_sap, tle_sap, sap_prio_default}
use tetra_bs.Core.MsgBus.{MsgBus, msgbus_post, msgbus_register}
use tetra_bs.Core.BitBuffer.{BitBuffer, bb_init, bb_init_autoexpand}
use tetra_bs.Core.BitBuffer.Codec.{Step, done, fails, aborts}
use tetra_bs.Llc.{TetraAddress, LlcPdu, TleSapMsg, TleLayout, body_max_bytes}
use tetra_bs.Cmce.{
  CmcePduType, setup, call_proceeding, connect, tx_demand, release, nwrk_broadcast, unknown,
  CmceCfg, CmceStats, Cmce, size, max_calls, zero_slot, drop_counted, cmce_call_lookup,
  cmce_call_alloc, cmce_fsm_apply,
}
use tetra_bs.Cmce.Message.{CmcePdu, zero_pdu}
use tetra_bs.Cmce.Pdu.{cmce_pdu_encode, cmce_pdu_decode}
use tetra_bs.Cmce.Pdu.Broadcast.{cmce_pdu_encode_d_nwrk_broadcast}

-- What a codec on a local buffer returns.
abbrev pub result_of : {A : Type 0} → Step A → Option (Result A)
result_of (done a bb) = some (ok a)
result_of (fails e bb) = some (err e)
result_of aborts = none

-- The direction is `upcall_direction`, the uplink.
unfoldable pub cmce_pdu_from_body : List ℕ → ℕ → Option (Result CmcePdu)
cmce_pdu_from_body body bits =
    let bytes = (bits + 7) / 8 in
    if bits == 0
    then some (err einval)
    else if ltb 32 bytes
    then some (err eproto)
    else result_of (cmce_pdu_decode true bits (bb_init (take bytes body) bits))

abbrev pub count_tx : Cmce → Cmce
count_tx cmce = record cmce {
  stats = let s = cmce.stats in record s { pdus_tx = size (s.pdus_tx + 1) };
}

abbrev pub count_rx : Cmce → Cmce
count_rx cmce = record cmce {
  stats = let s = cmce.stats in record s { pdus_rx = size (s.pdus_rx + 1) };
}

abbrev pub count_unknown : Cmce → Cmce
count_unknown cmce = record cmce {
  stats = let s = cmce.stats in record s { unknown_pdu_type = size (s.unknown_pdu_type + 1) };
}

abbrev pub count_broadcast : Cmce → Cmce
count_broadcast cmce = record cmce {
  stats = let s = cmce.stats in record s { nwrk_bcast_count = size (s.nwrk_bcast_count + 1) };
}

abbrev pub count_drop : Cmce → Cmce
count_drop cmce = record cmce { stats = drop_counted cmce.stats }

abbrev pub is_setup : CmcePduType → Bool
is_setup setup = true
is_setup t = false

-- BL-DATA, the type 1 of the LLC; the bytes of the message are copied to the head of the body.
abbrev pub bl_data : ℕ → List ℕ → LlcPdu
bl_data bits bytes = record {
  pdu_type = 1;
  nr = 0;
  ns = 0;
  body_len_bits = bits % 2 ^ 16;
  body = take ((bits + 7) / 8) bytes ++ replicate (body_max_bytes - (bits + 7) / 8) 0;
  fcs = 0;
  fcs_valid = false;
}

-- The local buffer of `cmce_post_tma_unitdata_req`
abbrev pub scratch : BitBuffer
scratch = bb_init_autoexpand (replicate 32 0) 256

unfoldable pub encode : CmcePduType → CmcePdu → Bool → Step ℕ
unfolding bb_init_autoexpand
encode nwrk_broadcast p uplink = cmce_pdu_encode_d_nwrk_broadcast p scratch
encode t p uplink = cmce_pdu_encode p uplink scratch

-- The slot of the call, allocated for a U-SETUP
unfoldable pub slot_for : Cmce → TleSapMsg → CmcePdu → Cmce × Result ℕ
slot_for cmce m p = elim (cmce_call_lookup cmce p.call_identifier) [
  | some i ↦ (cmce, ok i)
  | none ↦
      let (cmce', r) = cmce_call_alloc cmce p.call_identifier (some m.addr) m.endpoint in
      if is_setup p.pdu_type
      then elim r [ none ↦ (count_drop cmce', err enospc) | some i ↦ (cmce', ok i) ]
      else (count_drop cmce, err eproto)
]

-- The responses.
abbrev pub setup_reply : CmcePdu → CmcePdu
setup_reply p = record zero_pdu { pdu_type = call_proceeding; call_identifier = p.call_identifier }

abbrev pub tx_demand_reply : CmcePdu → CmcePdu
tx_demand_reply p = record zero_pdu {
  pdu_type = CmcePduType.tx_granted;
  call_identifier = p.call_identifier;
  transmission_request_permission = 1;
  encryption_control = p.encryption_control;
}

abbrev pub release_reply : CmcePdu → CmcePdu
release_reply p = record zero_pdu { pdu_type = release; call_identifier = p.call_identifier }

-- The response that is sent to a message.
abbrev pub reply_by : CmcePduType → CmcePdu → Option CmcePdu
reply_by setup p = some (setup_reply p)
reply_by tx_demand p = some (tx_demand_reply p)
reply_by release p = some (release_reply p)
reply_by t p = none

-- The D-RELEASE that was sent is applied to the call too.
abbrev pub close_by : CmcePduType → Cmce → ℕ → Cmce
close_by release cmce i = (cmce_fsm_apply cmce (some i) release false).0
close_by t cmce i = cmce

module _ (layout : TleLayout) where
  abbrev pub envelope : ℕ → TetraAddress → LlcPdu → SapMsg
  envelope endpoint addr pdu = record {
    src = tle_sap;
    dest = tma_sap;
    sap = tle_sap;
    len = layout.size % 2 ^ 16;
    payload = some (layout.bytes (record { endpoint = endpoint; addr = addr; pdu = pdu }));
  }

  -- `cmce_post_tma_unitdata_req` once the message is encoded.
  unfoldable pub post_bits :
      Cmce → MsgBus → ℕ → TetraAddress → ℕ → List ℕ → (Cmce × MsgBus) × Result (Unit {0})
  post_bits cmce bus endpoint addr bits bytes =
      let (bus', rc) =
        msgbus_post bus (sap_prio_default tle_sap) (envelope endpoint addr (bl_data bits bytes)) in
      if ltb (body_max_bytes * 8) bits
      then ((cmce, bus), err e2big)
      else elim rc [ err e ↦ ((cmce, bus'), err e) | ok _ ↦ ((count_tx cmce, bus'), ok tt) ]

  unfoldable pub cmce_post_tma_unitdata_req :
      Cmce
      → MsgBus
      → ℕ
      → TetraAddress
      → CmcePdu
      → Bool
      → Option ((Cmce × MsgBus) × Result (Unit {0}))
  cmce_post_tma_unitdata_req cmce bus endpoint addr p uplink =
      if not cmce.initialised
      then some ((cmce, bus), err einval)
      else elim (encode p.pdu_type p uplink) [
        | aborts ↦ none
        | fails e bb ↦ some ((cmce, bus), err e)
        | done bits bb ↦ some (post_bits cmce bus endpoint addr bits bb.buffer)
      ]

  -- What follows in `cmce_handle_tle_msg` once the state machine has moved; whether the response was
  -- posted is not looked at.
  unfoldable pub respond : Cmce → MsgBus → TleSapMsg → CmcePdu → ℕ → Option (Cmce × MsgBus)
  respond cmce bus m p i = elim (reply_by p.pdu_type p) [
    | none ↦ some (cmce, bus)
    | some r ↦ elim (cmce_post_tma_unitdata_req cmce bus m.endpoint m.addr r false) [
      | none ↦ none
      | some ((cmce', bus'), rc) ↦ some (close_by p.pdu_type cmce' i, bus')
    ]
  ]

  unfoldable pub handle_pdu :
      Cmce → MsgBus → TleSapMsg → CmcePdu → Option ((Cmce × MsgBus) × Result (Unit {0}))
  handle_pdu cmce bus m p =
      let (cmce', found) = slot_for cmce m p in
      elim found [
        | err e ↦ some ((cmce', bus), err e)
        | ok i ↦ elim (respond (cmce_fsm_apply cmce' (some i) p.pdu_type true).0 bus m p i) [
          | none ↦ none
          | some st ↦ some (st, ok tt)
        ]
      ]

  unfoldable pub cmce_handle_tle_msg :
      Cmce → MsgBus → TleSapMsg → Option ((Cmce × MsgBus) × Result (Unit {0}))
  cmce_handle_tle_msg cmce bus m =
      if not cmce.initialised
      then some ((cmce, bus), err einval)
      else elim (cmce_pdu_from_body m.pdu.body m.pdu.body_len_bits) [
        | none ↦ none
        | some (err e) ↦ some ((count_unknown (count_rx cmce), bus), err e)
        | some (ok p) ↦ handle_pdu (count_rx cmce) bus m p
      ]

  unfoldable pub cmce_send_d_nwrk_broadcast :
      Cmce → MsgBus → Option ((Cmce × MsgBus) × Result (Unit {0}))
  cmce_send_d_nwrk_broadcast cmce bus =
      let p : CmcePdu = record zero_pdu {
        pdu_type = nwrk_broadcast;
        nwrk_cell_re_select_parameters = cmce.cfg.cell_re_select_parameters_seed;
        nwrk_cell_load_ca = cmce.cfg.cell_load_ca;
      } in
      if not cmce.initialised
      then some ((cmce, bus), err einval)
      else elim (cmce_post_tma_unitdata_req cmce bus 1 (record { ssi = 0xffffff; ssi_type = 1 }) p
          false) [
            | none ↦ none
            | some ((cmce', bus'), err e) ↦ some ((cmce', bus'), err e)
            | some ((cmce', bus'), ok _) ↦ some ((count_broadcast cmce', bus'), ok tt)
          ]

  -- The type of message at the head of a body, and whether it is one of CMCE
  abbrev pub looks_cmce : ℕ → Bool
  looks_cmce t = t == 7 || (t == 1 || (t == 2 || (t == 10 || (t == 11 || t == 6))))

  unfoldable pub on_tle_upcall : SapMsg → Cmce × MsgBus → Option (Cmce × MsgBus)
  on_tle_upcall msg (cmce, bus) = elim msg.payload [
    | none ↦ some (cmce, bus)
    | some bytes ↦
        let m = layout.message bytes in
        if ltb msg.len layout.size
        then some (cmce, bus)
        else if ltb m.pdu.body_len_bits 5
        then some (cmce, bus)
        else if not (looks_cmce (get_or m.pdu.body 0 0 / 8 % 32))
        then some (cmce, bus)
        else elim (cmce_handle_tle_msg cmce bus m) [ none ↦ none | some (st, rc) ↦ some st ]
  ]

abbrev pub zero_stats : CmceStats
zero_stats = record {
  pdus_rx = 0;
  pdus_tx = 0;
  setup_count = 0;
  connect_count = 0;
  tx_grant_count = 0;
  release_count = 0;
  nwrk_bcast_count = 0;
  unknown_pdu_type = 0;
  fsm_drops = 0;
}

-- The defaults of `cmce_init`, for a configuration that is absent or holds zeros
abbrev pub or_default : ℕ → ℕ → ℕ
or_default n d = if n == 0 then d else n

abbrev pub cfg_of : Option CmceCfg → CmceCfg
cfg_of none = record {
  nwrk_bcast_period_multiframes = 10;
  cell_re_select_parameters_seed = 0x5655;
  cell_load_ca = 0;
}
cfg_of (some cfg) = record cfg {
  nwrk_bcast_period_multiframes = or_default cfg.nwrk_bcast_period_multiframes 10;
  cell_re_select_parameters_seed = or_default cfg.cell_re_select_parameters_seed 0x5655;
}

-- `handler` is the number of `on_tle_upcall`.
unfoldable pub cmce_init : MsgBus → Option CmceCfg → ℕ → (Cmce × MsgBus) × Result (Unit {0})
cmce_init bus cfg handler =
    let cmce : Cmce = record {
      cfg = cfg_of cfg;
      calls = replicate max_calls zero_slot;
      stats = zero_stats;
      last_bcast_tick_mf = 0;
      initialised = false;
    } in
    let (bus', rc) = msgbus_register bus tle_sap tle_sap handler in
    elim rc [
      | err e ↦ ((cmce, bus'), err e)
      | ok _ ↦ ((record cmce { initialised = true }, bus'), ok tt)
    ]

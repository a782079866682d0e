-- ===== src/Cmce/Tests.antt =====
-- The theorems about sw/cmce at concrete inputs.
use tetra_bs.Prelude.{
  ◌^◌, ◌%◌, ◌+◌, ◌-◌, ◌<◌, ◌≤◌, ◌≡◌, ◌⊎◌, inr, refl, true, false, some, none, [], ◌∷◌, ◌++◌,
  replicate, take, drop, get_or, Result, ok, arith,
}
use tetra_bs.Core.MsgBus.{MsgBus, zero_entry, zero_reg}
use tetra_bs.Core.BitBuffer.{BitBuffer, bb_get_bits, bb_init, bb_init_autoexpand, read_at}
use tetra_bs.Core.BitBuffer.Codec.{done, refuse_if, get_bits, ◌>>=◌, return, look, width}
use tetra_bs.Core.BitBuffer.Codec.Fields.{Emitted}
use tetra_bs.Core.BitBuffer.Codec.Runs.{rewound}
use tetra_bs.Core.BitBuffer.Codec.Ends.{Ends}
use tetra_bs.Llc.{TleSapMsg, TleLayout}
use tetra_bs.Cmce.{
  Cmce, CmceCallSlot, setup, release, nwrk_broadcast, connected, zero_slot, new_slot, lookup_from,
  cmce_call_alloc, cmce_call_lookup, cmce_fsm_apply, cmce_nwrk_bcast_tick,
}
use tetra_bs.Cmce.Calls.{Applied, cmce_fsm_apply-Move}
use tetra_bs.Cmce.Slots.{Allocated, cmce_call_alloc_lem}
use tetra_bs.Cmce.Periodic.{cmce_nwrk_bcast_tick_lem}
use tetra_bs.Cmce.Message.{CmcePdu, zero_pdu}
use tetra_bs.Cmce.Pdu.Control.{decode_release}
use tetra_bs.Cmce.Pdu.{cmce_pdu_encode, cmce_pdu_decode, decode_by}
use tetra_bs.Cmce.Pdu.Layout.{layout}
use tetra_bs.Cmce.Pdu.Carried.{carried}
use tetra_bs.Cmce.Pdu.RoundTrip.{bits, cmce_pdu_encode-Emitted, decode-encode}
use tetra_bs.Cmce.Pdu.Broadcast.{cmce_pdu_encode_d_nwrk_broadcast, cmce_pdu_decode_d_nwrk_broadcast}
use tetra_bs.Cmce.Pdu.Broadcast.Reading.{broadcast, broadcast_carried, decode-encode_broadcast}
use tetra_bs.Cmce.Pdu.Total.{IsDecoded, cmce_pdu_decode-Ends}
use tetra_bs.Cmce.Handling.{scratch, cmce_pdu_from_body, cmce_handle_tle_msg, cmce_init}
use tetra_bs.Cmce.Handling.Answers.{IsBody, scratch-IsValid}
use tetra_bs.Cmce.Handling.OneCall.{OneCall, cmce_handle_tle_msg-OneCall}
use tetra_bs.Cmce.Handling.Reached.{started, stepped, handled, Reached-OneCall}
use tetra_bs.Cmce.Handling.Replies.{Freed, cmce_handle_tle_msg-Freed}

abbrev call : CmceCallSlot
call = record (new_slot 7 none 3) { state = connected }

abbrev cmce : Cmce
cmce = record {
  cfg = record {
    nwrk_bcast_period_multiframes = 10;
    cell_re_select_parameters_seed = 0x5655;
    cell_load_ca = 0;
  };
  calls = call ∷ replicate 7 zero_slot;
  stats = record {
    pdus_rx = 2;
    pdus_tx = 0;
    nwrk_bcast_count = 1;
    unknown_pdu_type = 0;
    setup_count = 1;
    connect_count = 1;
    tx_grant_count = 0;
    release_count = 0;
    fsm_drops = 0;
  };
  last_bcast_tick_mf = 2 ^ 64 - 4;
  initialised = true;
}

cmce_fsm_apply-Move_example :
    Applied cmce 0 release
      (cmce_fsm_apply cmce (some 0) release true).0
      (cmce_fsm_apply cmce (some 0) release true).1
cmce_fsm_apply-Move_example = cmce_fsm_apply-Move cmce 0 release true (omega arith) refl

cmce_call_alloc_lem_example :
    Allocated cmce 9 none 2 (cmce_call_alloc cmce 9 none 2).0 (cmce_call_alloc cmce 9 none 2).1
cmce_call_alloc_lem_example = cmce_call_alloc_lem cmce 9 none 2

cmce_nwrk_bcast_tick_lem_example :
    let now = (cmce.last_bcast_tick_mf + 12) % 2 ^ 64 in
    ((10 ≤ 12) × (cmce_nwrk_bcast_tick cmce now ≡ (record cmce { last_bcast_tick_mf = now }, true)))
    ⊎ ((12 < 10) × (cmce_nwrk_bcast_tick cmce now ≡ (cmce, false)))
cmce_nwrk_bcast_tick_lem_example =
    cmce_nwrk_bcast_tick_lem cmce 12 refl (omega arith) (omega arith) (omega arith) (omega arith)

abbrev u_setup : CmcePdu
u_setup = record zero_pdu {
  pdu_type = setup;
  area_selection = 3;
  basic_service_information = 0xa5;
  call_priority = 9;
  called_party_type_identifier = 1;
  called_party_address_ssi = 0x282ff4;
  optionals_present = true;
}

cmce_pdu_encode-Emitted_example :
    (bb' : BitBuffer) × (cmce_pdu_encode u_setup true scratch ≡ done (bits true u_setup) bb')
    × Emitted scratch (layout setup true u_setup) bb'
unfolding bb_init_autoexpand
cmce_pdu_encode-Emitted_example =
    cmce_pdu_encode-Emitted u_setup true scratch scratch-IsValid (omega arith)
      (inr (refl, omega arith))

decode-encode_example :
    (bb' : BitBuffer) × (cmce_pdu_encode u_setup true scratch ≡ done (bits true u_setup) bb')
    × (cmce_pdu_decode true (bits true u_setup) (rewound bb' scratch.pos)
        ≡ done (record (carried setup true u_setup) { encoded_len_bits = bits true u_setup }) bb')
unfolding bb_init_autoexpand
decode-encode_example =
    decode-encode u_setup true scratch scratch-IsValid (omega arith) (omega arith)
      (inr (refl, omega arith))

abbrev timed : CmcePdu
timed = record zero_pdu {
  pdu_type = nwrk_broadcast;
  nwrk_cell_re_select_parameters = 0x5655;
  nwrk_cell_load_ca = 3;
  optionals_present = true;
  nwrk_p_tetra_network_time = true;
  nwrk_tetra_network_time = 0x123456789abc;
}

decode-encode_broadcast_example :
    (bb' : BitBuffer) × (cmce_pdu_encode_d_nwrk_broadcast timed scratch
      ≡ done (width (broadcast timed)) bb')
    × (cmce_pdu_decode_d_nwrk_broadcast zero_pdu (width (broadcast timed)) (rewound bb' scratch.pos)
        ≡ done
            (record (broadcast_carried zero_pdu timed) {
              encoded_len_bits = width (broadcast timed);
            })
            bb')
unfolding bb_init_autoexpand
decode-encode_broadcast_example =
    decode-encode_broadcast timed zero_pdu scratch scratch-IsValid (omega arith)
      (inr (refl, omega arith))

cmce_pdu_decode-Ends_example : Ends (cmce_pdu_decode true 30) (IsDecoded true)
cmce_pdu_decode-Ends_example = cmce_pdu_decode-Ends true 30

-- An envelope as a list of numbers, one for each field and one for each byte of the body.
abbrev layout_of_fields : TleLayout
layout_of_fields = record {
  bytes = λ m.
      m.endpoint
      ∷ m.addr.ssi
      ∷ m.addr.ssi_type
      ∷ m.pdu.pdu_type
      ∷ m.pdu.nr
      ∷ m.pdu.ns
      ∷ m.pdu.body_len_bits
      ∷ m.pdu.fcs
      ∷ take 32 (m.pdu.body ++ replicate 32 0);
  size = 40;
  message = λ bs. record {
    endpoint = get_or bs 0 0;
    addr = record { ssi = get_or bs 1 0; ssi_type = get_or bs 2 0 };
    pdu = record {
      pdu_type = get_or bs 3 0;
      nr = get_or bs 4 0;
      ns = get_or bs 5 0;
      body_len_bits = get_or bs 6 0;
      body = drop 8 bs;
      fcs = get_or bs 7 0;
      fcs_valid = false;
    };
  };
}

-- A U-RELEASE of the call 7: the type 6, the identifier in 14 bits, the cause 0 and no options.
abbrev u_release : TleSapMsg
u_release = record {
  endpoint = 3;
  addr = record { ssi = 0x282ff4; ssi_type = 1 };
  pdu = record {
    pdu_type = 1;
    nr = 0;
    ns = 0;
    body_len_bits = 25;
    body = 0x30 ∷ 0x00 ∷ 0xe0 ∷ 0 ∷ replicate 28 0;
    fcs = 0;
    fcs_valid = false;
  };
}

-- Room for one message in each of the three queues.
abbrev bus : MsgBus
bus = record {
  queues = replicate 3 (record {
    entries = zero_entry ∷ [];
    payloads = replicate 64 0;
    cap = 1;
    max_payload = 64;
    head = 0;
    tail = 0;
    count = 0;
    drops = 0;
  });
  regs = replicate 32 zero_reg;
  reg_count = 0;
  initialised = true;
}

abbrev u_release_pdu : CmcePdu
u_release_pdu = record zero_pdu { pdu_type = release; call_identifier = 7; encoded_len_bits = 25 }

u_release-IsBody : IsBody u_release.pdu.body
u_release-IsBody = (ground arith, refl)

read_u_release : cmce_pdu_from_body u_release.pdu.body 25 ≡ some (ok u_release_pdu)
unfolding cmce_pdu_from_body cmce_pdu_decode decode_by decode_release refuse_if get_bits ◌>>=◌
    return bb_get_bits bb_init look read_at
read_u_release = refl

cmce_handle_tle_msg-Freed_example :
    (st : Cmce × MsgBus) × (cmce_handle_tle_msg layout_of_fields cmce bus u_release
      ≡ some (st, ok tt))
    × Freed 0 cmce st.0
unfolding cmce_call_lookup lookup_from
cmce_handle_tle_msg-Freed_example =
    cmce_handle_tle_msg-Freed layout_of_fields cmce bus u_release u_release_pdu 0 refl
      u_release-IsBody read_u_release refl refl (λ e. ground arith)

-- A U-SETUP, of 41 bits.
abbrev u_setup_msg : TleSapMsg
u_setup_msg = record u_release {
  pdu = record u_release.pdu { body_len_bits = 56; body = 0x39 ∷ 0x94 ∷ replicate 30 0 };
}

abbrev started_cmce : Cmce
started_cmce = (cmce_init bus none 1).0.0

setup_handled :
    (st : (Cmce × MsgBus) × Result (Unit {0})) × (cmce_handle_tle_msg layout_of_fields started_cmce
        bus u_setup_msg
      ≡ some st)
    × OneCall st.0.0
setup_handled =
    cmce_handle_tle_msg-OneCall layout_of_fields started_cmce bus u_setup_msg (ground arith, refl)
      (Reached-OneCall layout_of_fields started_cmce (started bus none 1))

abbrev after_setup : Cmce
after_setup = setup_handled.0.0.0

Reached-OneCall_example : OneCall after_setup
Reached-OneCall_example = Reached-OneCall layout_of_fields after_setup (
    stepped started_cmce after_setup (started bus none 1)
      (handled started_cmce bus u_setup_msg setup_handled.0 (ground arith, refl) setup_handled.1))

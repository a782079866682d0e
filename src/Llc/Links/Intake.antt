-- ===== src/Llc/Links/Intake.antt =====
-- The receiving side of sw/llc/llc.c, the handler of the MAC's indications, and `llc_init`.
use tetra_bs.Prelude.{
  ℕ, ◌+◌, ◌-◌, ◌*◌, ◌/◌, ◌%◌, ◌^◌, bit_xor, true, false, not, ◌&&◌, ◌||◌, Option, none, some, List,
  take, replicate, ltb, ◌==◌, if◌then◌else◌, Result, ok, err, einval, eproto, enospc,
}
use tetra_bs.Core.Sap.{SapMsg, tma_sap, tle_sap}
use tetra_bs.Core.MsgBus.{MsgBus, msgbus_register}
use tetra_bs.Core.BitBuffer.{bb_init, bb_remaining}
use tetra_bs.Core.BitBuffer.Codec.{
  done, fails, aborts, BitIo, return, ◌>>=◌, ◌>>◌, refuse_if, get_bits, seek_bits, look,
}
use tetra_bs.Llc.{LlcPdu, TleSapMsg, TleLayout, body_max_bytes}
use tetra_bs.Llc.Pdu.{
  al_setup, llc_pdu_type_is_valid, llc_pdu_type_has_nr, llc_pdu_type_has_ns, llc_pdu_type_has_fcs,
  flag_bits, llc_pdu_decode,
}
use tetra_bs.Llc.Links.{
  max_endpoints, sdu_max_bytes, zero_llc_pdu, zero_endpoint, Llc, TmaUnitdata, TmaLayout, LlcWorld,
  endpoint_at, llc_endpoint_lookup, with_endpoint, is_data, llc_post_to_mle, llc_send_bl_ack,
}

abbrev pub count_llc_rx : LlcWorld → LlcWorld
count_llc_rx w = record w {
  llc =
      let l = w.llc in
      record l { stats = let s = l.stats in record s { pdus_rx = (s.pdus_rx + 1) % 2 ^ 64 } };
}

abbrev pub count_fcs_failure : LlcWorld → LlcWorld
count_fcs_failure w = record w {
  llc =
      let l = w.llc in
      record l {
        stats = let s = l.stats in record s { fcs_failures = (s.fcs_failures + 1) % 2 ^ 64 };
      };
}

abbrev pub count_unknown_type : LlcWorld → LlcWorld
count_unknown_type w = record w {
  llc =
      let l = w.llc in
      record l {
        stats =
            let s = l.stats in record s { unknown_pdu_type = (s.unknown_pdu_type + 1) % 2 ^ 64 };
      };
}

-- The bits of a message that are not its body.
abbrev pub overhead : ℕ → ℕ
overhead t =
    if t == al_setup
    then 4
    else 4
      + flag_bits (llc_pdu_type_has_nr t)
      + flag_bits (llc_pdu_type_has_ns t)
      + 32 * flag_bits (llc_pdu_type_has_fcs t)

-- The first look at the type; a type that is not known is `none`.
unfoldable pub peek_type : BitIo (Option ℕ)
peek_type = do
  remaining ← look bb_remaining
  refuse_if (ltb remaining 4) eproto
  t ← get_bits 4
  return (if llc_pdu_type_is_valid t then some t else none)

-- The decoding from the start, once the type is known.
unfoldable pub decode_sized : ℕ → ℕ → BitIo LlcPdu
decode_sized t len = do
  refuse_if (ltb len (overhead t)) eproto
  refuse_if (ltb (body_max_bytes * 8) (if t == al_setup then 0 else (len - overhead t) % 2 ^ 16))
      eproto
  seek_bits 0
  llc_pdu_decode (record zero_llc_pdu {
    body_len_bits = if t == al_setup then 0 else (len - overhead t) % 2 ^ 16;
  })

module _ (tma : TmaLayout) (tle : TleLayout) where
  -- The `switch` of `llc_handle_tma_unitdata_ind`, for the endpoint `i`.
  unfoldable pub receive :
      LlcWorld → TmaUnitdata → LlcPdu → ℕ → List ℕ → Option (LlcWorld × Result (Unit {0}))
  receive w ind p i stack =
      let e = endpoint_at w.llc i in
      let up : TleSapMsg = record { endpoint = ind.endpoint; addr = ind.addr; pdu = p } in
      if is_data p.pdu_type
      then (let flipped =
            with_endpoint w i (record e { nr_expected = bit_xor e.nr_expected 1 % 256 }) in
          let w' = if p.ns == e.nr_expected then (llc_post_to_mle tma tle flipped up).0 else w in
          elim (llc_send_bl_ack tma tle w' ind.endpoint ind.addr stack) [
            | none ↦ none
            | some (w'', rc) ↦ some (w'', ok tt)
          ])
      else if p.pdu_type == 3 || p.pdu_type == 7
      then (let heard = with_endpoint w i (record e { awaiting_ack = false; retx_count = 0 }) in
          if e.awaiting_ack && p.nr == e.ns_send then some (heard, ok tt) else some (w, ok tt))
      else some ((llc_post_to_mle tma tle w up).0, ok tt)

  -- What follows in `llc_handle_tma_unitdata_ind` once the message is decoded.
  unfoldable pub accept :
      LlcWorld → TmaUnitdata → LlcPdu → List ℕ → Option (LlcWorld × Result (Unit {0}))
  accept w ind p stack =
      let (llc, slot) = llc_endpoint_lookup (count_llc_rx w).llc ind.endpoint in
      let w' = record w { llc = llc } in
      if llc_pdu_type_has_fcs p.pdu_type && not p.fcs_valid
      then some (count_fcs_failure (count_llc_rx w), ok tt)
      else elim slot [ none ↦ some (w', err enospc) | some i ↦ receive w' ind p i stack ]

  unfoldable pub llc_handle_tma_unitdata_ind :
      LlcWorld → TmaUnitdata → List ℕ → Option (LlcWorld × Result (Unit {0}))
  llc_handle_tma_unitdata_ind w ind stack =
      let bb = bb_init (take ((ind.sdu_len_bits + 7) / 8) ind.sdu_bits) ind.sdu_len_bits in
      if ind.sdu_len_bits == 0 || ltb (sdu_max_bytes * 8) ind.sdu_len_bits
      then some (w, err einval)
      else elim (peek_type bb) [
        | aborts ↦ none
        | fails e bb' ↦ some (w, err e)
        | done none bb' ↦ some (count_unknown_type w, err eproto)
        | done (some t) bb' ↦ elim (decode_sized t ind.sdu_len_bits bb') [
          | aborts ↦ none
          | fails e bb'' ↦ some (w, err e)
          | done p bb'' ↦ accept w ind p stack
        ]
      ]

  unfoldable pub on_tma_unitdata_ind : LlcWorld → SapMsg → List ℕ → Option LlcWorld
  on_tma_unitdata_ind w msg stack = elim msg.payload [
    | none ↦ some w
    | some bytes ↦
        let handled = llc_handle_tma_unitdata_ind w (tma.message bytes) stack in
        if ltb msg.len tma.size
        then some w
        else elim handled [ none ↦ none | some (w', rc) ↦ some w' ]
  ]

-- A configuration that is absent is `none`; the handlers are the numbers of `on_tma_unitdata_ind` and
-- `on_tle_msg_from_mle`.
unfoldable pub llc_init : MsgBus → Option ℕ → ℕ → ℕ → (Llc × MsgBus) × Result (Unit {0})
llc_init bus cfg ind_handler tle_handler =
    let given : ℕ = elim cfg [ none ↦ 0 | some n ↦ n ] in
    let llc : Llc = record {
      max_retx = if given == 0 then 3 else given;
      endpoints = replicate max_endpoints zero_endpoint;
      stats = record {
        pdus_rx = 0;
        pdus_tx = 0;
        fcs_failures = 0;
        retx_total = 0;
        unknown_pdu_type = 0;
      };
      initialised = false;
    } in
    let (bus1, rc1) = msgbus_register bus tma_sap tma_sap ind_handler in
    let (bus2, rc2) = msgbus_register bus1 tma_sap tle_sap tle_handler in
    elim rc1 [
      | err e ↦ ((llc, bus1), err e)
      | ok _ ↦ elim rc2 [
        | err e ↦ ((llc, bus2), err e)
        | ok _ ↦ ((record llc { initialised = true }, bus2), ok tt)
      ]
    ]

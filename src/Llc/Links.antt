-- ===== src/Llc/Links.antt =====
-- The entity of sw/llc/llc.c, with the types of sw/llc/include/tetra/llc.h. The bus and the counter
-- of request handles, which C keeps outside the entity, stand beside it in `LlcWorld`; an endpoint is
-- known by its index. Buffers on the stack are not initialised in C: what they hold is an argument.
pub mod Intake
pub mod Answering
pub mod Receive
pub mod Total
use tetra_bs.Prelude.{
  ℕ, zero, suc, ◌+◌, ◌-◌, ◌*◌, ◌/◌, ◌%◌, ◌^◌, bit_xor, Bool, true, false, not, ◌&&◌, ◌||◌, Option,
  none, some, List, [], ◌∷◌, ◌++◌, get_or, set, take, drop, replicate, length, ltb, ◌==◌,
  if◌then◌else◌, Result, ok, err, einval, eproto, enospc, e2big, ebusy,
}
use tetra_bs.Core.Sap.{SapMsg, tma_sap, tle_sap, sap_prio_default}
use tetra_bs.Core.MsgBus.{MsgBus, msgbus_post, msgbus_register, req_handle_next}
use tetra_bs.Core.BitBuffer.{BitBuffer, bb_init, bb_init_autoexpand, bb_remaining}
use tetra_bs.Core.BitBuffer.Codec.{
  Step, done, fails, aborts, BitIo, return, ◌>>=◌, ◌>>◌, refuse_if, get_bits, seek_bits, look,
}
use tetra_bs.Llc.{TetraAddress, LlcPdu, TleSapMsg, TleLayout, body_max_bytes}
use tetra_bs.Llc.Pdu.{
  al_setup, llc_pdu_type_is_valid, llc_pdu_type_has_nr, llc_pdu_type_has_ns, llc_pdu_type_has_fcs,
  flag_bits, llc_pdu_encode, llc_pdu_decode,
}

abbrev pub max_endpoints : ℕ
max_endpoints = 8

abbrev pub sdu_max_bytes : ℕ
sdu_max_bytes = 64

abbrev pub zero_llc_pdu : LlcPdu
zero_llc_pdu = record {
  pdu_type = 0;
  nr = 0;
  ns = 0;
  body_len_bits = 0;
  body = replicate body_max_bytes 0;
  fcs = 0;
  fcs_valid = false;
}

pub record LlcEndpoint : Type 0 where
  pub id : ℕ
  pub in_use : Bool
  pub ns_send : ℕ
  pub nr_expected : ℕ
  pub awaiting_ack : Bool
  pub retx_count : ℕ
  pub last_sent : LlcPdu

abbrev pub zero_endpoint : LlcEndpoint
zero_endpoint = record {
  id = 0;
  in_use = false;
  ns_send = 0;
  nr_expected = 0;
  awaiting_ack = false;
  retx_count = 0;
  last_sent = zero_llc_pdu;
}

pub record LlcStats : Type 0 where
  pub pdus_rx : ℕ
  pub pdus_tx : ℕ
  pub fcs_failures : ℕ
  pub retx_total : ℕ
  pub unknown_pdu_type : ℕ

pub record Llc : Type 0 where
  pub max_retx : ℕ
  pub endpoints : List LlcEndpoint
  pub stats : LlcStats
  pub initialised : Bool

-- `TmaUnitdataInd`, and `TmaUnitdataReq`, which is the same type.
pub record TmaUnitdata : Type 0 where
  pub endpoint : ℕ
  pub addr : TetraAddress
  pub req_handle : ℕ
  pub sdu_len_bits : ℕ
  pub sdu_bits : List ℕ

pub record TmaLayout : Type 0 where
  pub bytes : TmaUnitdata → List ℕ
  pub size : ℕ
  pub message : List ℕ → TmaUnitdata

pub record LlcWorld : Type 0 where
  pub llc : Llc
  pub bus : MsgBus
  pub handles : ℕ

abbrev pub endpoint_at : Llc → ℕ → LlcEndpoint
endpoint_at llc i = get_or llc.endpoints i zero_endpoint

unfoldable pub endpoint_find : List LlcEndpoint → ℕ → ℕ → Option ℕ
endpoint_find [] i id = none
endpoint_find (e ∷ es) i id =
    let rest = endpoint_find es (i + 1) id in if e.in_use && e.id == id then some i else rest

unfoldable pub endpoint_free : List LlcEndpoint → ℕ → Option ℕ
endpoint_free [] i = none
endpoint_free (e ∷ es) i =
    let rest = endpoint_free es (i + 1) in if not e.in_use then some i else rest

unfoldable pub endpoint_alloc : Llc → ℕ → Llc × Option ℕ
endpoint_alloc llc id = elim (endpoint_free llc.endpoints 0) [
  | none ↦ (llc, none)
  | some i ↦ (
    record llc {
      endpoints = set llc.endpoints i (record zero_endpoint { id = id; in_use = true });
    },
    some i,
  )
]

unfoldable pub llc_endpoint_lookup : Llc → ℕ → Llc × Option ℕ
llc_endpoint_lookup llc id = elim (endpoint_find llc.endpoints 0 id) [
  | some i ↦ (llc, some i)
  | none ↦ endpoint_alloc llc id
]

-- The bytes and the number of bits.
unfoldable pub encode_to_bytes : LlcPdu → List ℕ → Option (Result (List ℕ × ℕ))
encode_to_bytes p stack = elim (llc_pdu_encode p (bb_init_autoexpand stack (length stack * 8))) [
  | done n bb ↦ some (ok (bb.buffer, n % 2 ^ 16))
  | fails e bb ↦ some (err e)
  | aborts ↦ none
]

abbrev pub count_llc_tx : Llc → Llc
count_llc_tx llc = record llc {
  stats = let s = llc.stats in record s { pdus_tx = (s.pdus_tx + 1) % 2 ^ 64 };
}

abbrev pub with_endpoint : LlcWorld → ℕ → LlcEndpoint → LlcWorld
with_endpoint w i e = record w {
  llc = let l = w.llc in record l { endpoints = set l.endpoints i e };
}

-- The endpoint after a message that wants an acknowledgement was sent.
abbrev pub sent : LlcEndpoint → LlcPdu → LlcEndpoint
sent e p = record e {
  last_sent = p;
  awaiting_ack = true;
  retx_count = 0;
  ns_send = bit_xor e.ns_send 1 % 256;
}

abbrev pub is_data : ℕ → Bool
is_data t = t == 1 || t == 5 || t == 0 || t == 4

-- What a posted request does to the counters
abbrev pub tally : LlcWorld × Result (Unit {0}) → LlcWorld × Result (Unit {0})
tally (w, ok x) = (record w { llc = count_llc_tx w.llc }, ok x)
tally (w, err e) = (w, err e)

module _ (tma : TmaLayout) (tle : TleLayout) where
  -- A request to the MAC; the handle is taken before it.
  unfoldable pub request_down :
      LlcWorld → ℕ → TetraAddress → List ℕ → ℕ → LlcWorld × Result (Unit {0})
  request_down w endpoint addr bytes bits =
      let (h, handles) = req_handle_next w.handles in
      let req : TmaUnitdata = record {
        endpoint = endpoint;
        addr = addr;
        req_handle = h;
        sdu_len_bits = bits;
        sdu_bits = take ((bits + 7) / 8) bytes ++ replicate (sdu_max_bytes - (bits + 7) / 8) 0;
      } in
      let env : SapMsg = record {
        src = tle_sap;
        dest = tma_sap;
        sap = tma_sap;
        len = tma.size % 2 ^ 16;
        payload = some (tma.bytes req);
      } in
      let (bus, rc) = msgbus_post w.bus (sap_prio_default tma_sap) env in
      if ltb (sdu_max_bytes * 8) bits
      then (record w { handles = handles }, err e2big)
      else (record w { handles = handles; bus = bus }, rc)

  unfoldable pub llc_post_to_mle : LlcWorld → TleSapMsg → LlcWorld × Result (Unit {0})
  llc_post_to_mle w m =
      let env : SapMsg = record {
        src = tma_sap;
        dest = tle_sap;
        sap = tle_sap;
        len = tle.size % 2 ^ 16;
        payload = some (tle.bytes m);
      } in
      let (bus, rc) = msgbus_post w.bus (sap_prio_default tle_sap) env in
      (record w { bus = bus }, rc)

  -- `stack` is the buffer of 8 bytes.
  unfoldable pub llc_send_bl_ack :
      LlcWorld → ℕ → TetraAddress → List ℕ → Option (LlcWorld × Result (Unit {0}))
  llc_send_bl_ack w endpoint addr stack =
      let (llc, slot) = llc_endpoint_lookup w.llc endpoint in
      let w' = record w { llc = llc } in
      elim slot [
        | none ↦ some (w', err enospc)
        | some i ↦
            elim (encode_to_bytes
              (record zero_llc_pdu { pdu_type = 3; nr = (endpoint_at llc i).nr_expected }) stack) [
                | none ↦ none
                | some (err e) ↦ some (w', err e)
                | some (ok (bytes, bits)) ↦ some (tally (request_down w' endpoint addr bytes bits))
              ]
      ]

  -- `stack` is the buffer of 40 bytes.
  unfoldable pub llc_send_bl_data :
      LlcWorld → ℕ → TetraAddress → List ℕ → ℕ → List ℕ → Option (LlcWorld × Result (Unit {0}))
  llc_send_bl_data w endpoint addr body bits stack =
      let (llc, slot) = llc_endpoint_lookup w.llc endpoint in
      let w' = record w { llc = llc } in
      if ltb (body_max_bytes * 8) bits then some (w, err einval) else elim slot [
        | none ↦ some (w', err enospc)
        | some i ↦
            let e = endpoint_at llc i in
            let p : LlcPdu = record zero_llc_pdu {
              pdu_type = 1;
              ns = e.ns_send;
              body_len_bits = bits;
              body = take ((bits + 7) / 8) body ++ replicate (body_max_bytes - (bits + 7) / 8) 0;
            } in
            if e.awaiting_ack then some (w', err ebusy) else elim (encode_to_bytes p stack) [
              | none ↦ none
              | some (err n) ↦ some (w', err n)
              | some (ok (bytes, n)) ↦
                  let (w'', rc) = request_down w' endpoint addr bytes n in
                  elim rc [
                    | err x ↦ some (w'', err x)
                    | ok x ↦ some (tally (with_endpoint w'' i (sent e p), ok x))
                  ]
            ]
      ]

  -- `on_tle_msg_from_mle` once the message is copied out.
  unfoldable pub send_from_mle : LlcWorld → TleSapMsg → List ℕ → Option LlcWorld
  send_from_mle w m stack =
      let (llc, slot) = llc_endpoint_lookup w.llc m.endpoint in
      let w' = record w { llc = llc } in
      elim slot [
        | none ↦ some w'
        | some i ↦
            let e = endpoint_at llc i in
            let q = m.pdu in
            let p : LlcPdu = record q {
              ns = if llc_pdu_type_has_ns q.pdu_type then e.ns_send else q.ns;
              nr = if llc_pdu_type_has_nr q.pdu_type then e.nr_expected else q.nr;
            } in
            elim (encode_to_bytes p stack) [
              | none ↦ none
              | some (err n) ↦ some w'
              | some (ok (bytes, bits)) ↦
                  let w'' = (tally (request_down w' m.endpoint m.addr bytes bits)).0 in
                  if ltb (sdu_max_bytes * 8) bits
                  then some w''
                  else if is_data p.pdu_type
                  then some (with_endpoint w'' i (sent e p))
                  else some w''
            ]
      ]

  unfoldable pub on_tle_msg_from_mle : LlcWorld → SapMsg → List ℕ → Option LlcWorld
  on_tle_msg_from_mle w msg stack = elim msg.payload [
    | none ↦ some w
    | some bytes ↦
        let next = send_from_mle w (tle.message bytes) stack in
        if ltb msg.len tle.size then some w else if not w.llc.initialised then some w else next
  ]

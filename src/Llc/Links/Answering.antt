-- ===== src/Llc/Links/Answering.antt =====
-- The acknowledgement of a data message in sw/llc/llc.c: `llc_send_bl_ack` on an endpoint of the table.
use tetra_bs.Prelude.{
  ◌^◌, ◌++◌, take, replicate, subst, ℕ, ◌*◌, ◌%◌, ◌<◌, ◌≡◌, refl, ap, ◌∙◌, inr, Option, none, some,
  List, length, All-replicate, Result, ok, err, arith,
}
use tetra_bs.Core.Sap.{prio_high, tma_sap, tle_sap}
use tetra_bs.Core.MsgBus.{MsgBus, msgbus_post, req_handle_next}
use tetra_bs.Core.BitBuffer.{bb_init_autoexpand}
use tetra_bs.Core.BitBuffer.Spec.{IsBytes}
use tetra_bs.Core.BitBuffer.Cursor.{IsValid}
use tetra_bs.Llc.{TetraAddress, LlcPdu, TleLayout, body_max_bytes}
use tetra_bs.Llc.Pdu.{
  llc_pdu_type_is_valid, llc_pdu_type_has_nr, llc_pdu_type_has_ns, llc_pdu_type_has_fcs,
}
use tetra_bs.Llc.Pdu.Layout.{IsLlcPdu}
use tetra_bs.Llc.Pdu.Encoding.{llc_pdu_encode-Encoded}
use tetra_bs.Llc.Links.{
  zero_llc_pdu, Llc, TmaUnitdata, TmaLayout, LlcWorld, endpoint_at, endpoint_find,
  llc_endpoint_lookup, encode_to_bytes, request_down, tally, count_llc_tx, llc_send_bl_ack,
}

-- Memory on the stack
abbrev pub IsStack : List ℕ → Type 0
IsStack stack = IsBytes stack × (length stack ≡ 8)

-- A BL-ACK with the number `nr`
abbrev pub ack : ℕ → LlcPdu
ack nr = record zero_llc_pdu { pdu_type = 3; nr = nr }

ack-IsLlcPdu : (nr : ℕ) → IsLlcPdu (ack nr)
unfolding llc_pdu_type_is_valid
ack-IsLlcPdu nr = record {
  known = refl;
  small = omega arith;
  fits = omega arith;
  bytes = All-replicate (λ b. b < 256) body_max_bytes 0 (omega arith);
  whole = refl;
  bare = λ e. absurd (omega arith);
}

pub ack_encoded :
    (nr : ℕ) (stack : List ℕ)
    → IsStack stack
    → (bytes : List ℕ) × (encode_to_bytes (ack nr) stack ≡ some (ok (bytes, 5)))
unfolding encode_to_bytes bb_init_autoexpand llc_pdu_type_has_nr llc_pdu_type_has_ns
    llc_pdu_type_has_fcs
ack_encoded nr stack (bytes, eight) =
    let valid : IsValid (bb_init_autoexpand stack (length stack * 8)) = record {
      bytes = bytes;
      start_le = omega arith;
      pos_le = omega arith;
      end_le = omega arith;
      memory = omega arith;
      addressable = omega arith;
    } in
    let (bb, crc, e, enc) =
      llc_pdu_encode-Encoded (ack nr) _ (ack-IsLlcPdu nr) valid (inr (refl, omega arith)) in
    (bb.buffer, rw (e, encode_to_bytes) refl)

lookup_found :
    (llc : Llc) (id i : ℕ)
    → endpoint_find llc.endpoints 0 id ≡ some i
    → llc_endpoint_lookup llc id ≡ (llc, some i)
unfolding llc_endpoint_lookup
lookup_found llc id i e = rw (e, llc_endpoint_lookup) refl

tally-endpoints :
    (w : LlcWorld) (rc : Result (Unit {0})) → (tally (w, rc)).0.llc.endpoints ≡ w.llc.endpoints
tally-endpoints w (ok x) = refl
tally-endpoints w (err e) = refl

tally_lem :
    (w : LlcWorld) (handles : ℕ) (bus : MsgBus) (rc : Result (Unit {0}))
    → (tally (record w { handles = handles; bus = bus }, rc)).0 ≡ record w {
      handles = handles;
      bus = bus;
      llc = elim rc [ ok x ↦ count_llc_tx w.llc | err e ↦ w.llc ];
    }
tally_lem w handles bus (ok x) = refl
tally_lem w handles bus (err e) = refl

module _ (tma : TmaLayout) (tle : TleLayout) where
  request_down-endpoints :
      (w : LlcWorld) (endpoint : ℕ) (addr : TetraAddress) (bytes : List ℕ) (bits : ℕ)
      → (request_down tma tle w endpoint addr bytes bits).0.llc.endpoints ≡ w.llc.endpoints
  unfolding request_down
  request_down-endpoints w endpoint addr bytes bits = ground arith

  -- The world after a BL-ACK of 5 bits, the first byte of `bytes`, was posted for the MAC: a handle is
  -- taken, and the counter of sent messages goes up if the bus took it.
  abbrev pub ack_posted : LlcWorld → ℕ → TetraAddress → List ℕ → LlcWorld
  ack_posted w endpoint addr bytes =
      let (h, handles) = req_handle_next w.handles in
      let (bus, rc) = msgbus_post w.bus prio_high (record {
        src = tle_sap;
        dest = tma_sap;
        sap = tma_sap;
        len = tma.size % 2 ^ 16;
        payload = some (
            tma.bytes (record {
              endpoint = endpoint;
              addr = addr;
              req_handle = h;
              sdu_len_bits = 5;
              sdu_bits = take 1 bytes ++ replicate 63 0;
            }));
      }) in
      record w {
        handles = handles;
        bus = bus;
        llc = elim rc [ ok x ↦ count_llc_tx w.llc | err e ↦ w.llc ];
      }

  -- `st` is `w` after the sender of `ind` was answered by a BL-ACK with the number `nr`.
  abbrev pub IsAnswered : LlcWorld → TmaUnitdata → ℕ → List ℕ → LlcWorld → Type 0
  IsAnswered w ind nr stack st =
      (bytes : List ℕ) × (encode_to_bytes (ack nr) stack ≡ some (ok (bytes, 5)))
      × (st ≡ ack_posted w ind.endpoint ind.addr bytes)

  request_down_ack :
      (w : LlcWorld) (endpoint : ℕ) (addr : TetraAddress) (bytes : List ℕ)
      → (tally (request_down tma tle w endpoint addr bytes 5)).0 ≡ ack_posted w endpoint addr bytes
  unfolding request_down
  request_down_ack w endpoint addr bytes = tally_lem w _ _ _

  -- An acknowledgement on an endpoint that exists is always encoded, and changes no endpoint.
  ack_sent :
      (w : LlcWorld) (ind : TmaUnitdata) (i : ℕ) (stack : List ℕ)
      → endpoint_find w.llc.endpoints 0 ind.endpoint ≡ some i
      → IsStack stack
      → (st : LlcWorld × Result (Unit {0})) × (llc_send_bl_ack tma tle w ind.endpoint ind.addr stack
          ≡ some st)
        × (st.0.llc.endpoints ≡ w.llc.endpoints)
        × IsAnswered w ind (endpoint_at w.llc i).nr_expected stack st.0
  unfolding llc_send_bl_ack
  ack_sent w ind i stack found h =
      let (bytes, e) = ack_encoded (endpoint_at w.llc i).nr_expected stack h in
      let endpoint = ind.endpoint in
      let addr = ind.addr in
      let r = request_down tma tle w endpoint addr bytes 5 in
      let looked = lookup_found w.llc endpoint i found in
      (
        tally r,
        rw (ap (λ q. q.1) looked, ap (λ q. q.0) looked, e, llc_send_bl_ack)
            (ap
              (λ l.
                some (tally (request_down tma tle (record w { llc = l }) endpoint addr bytes 5)))
              (ap (λ q. q.0) looked)),
        tally-endpoints r.0 r.1 ∙ request_down-endpoints w endpoint addr bytes 5,
        (bytes, e, request_down_ack w endpoint addr bytes),
      )

  -- What the sender of a data message sees: it is answered, whether it is new or not.
  abbrev pub acked : LlcWorld → TmaUnitdata → List ℕ → Option (LlcWorld × Result (Unit {0}))
  acked w ind stack = elim (llc_send_bl_ack tma tle w ind.endpoint ind.addr stack) [
    | none ↦ none
    | some (w', rc) ↦ some (w', ok tt)
  ]

  pub acked_found :
      (w : LlcWorld) (ind : TmaUnitdata) (i nr : ℕ) (stack : List ℕ)
      → endpoint_find w.llc.endpoints 0 ind.endpoint ≡ some i
      → (endpoint_at w.llc i).nr_expected ≡ nr
      → IsStack stack
      → (st : LlcWorld) × (acked w ind stack ≡ some (st, ok tt))
        × (st.llc.endpoints ≡ w.llc.endpoints)
        × IsAnswered w ind nr stack st
  acked_found w ind i nr stack found at h =
      let (st, e, same, answered) = ack_sent w ind i stack found h in
      (st.0, rw (e, acked) refl, same, subst (λ n. IsAnswered w ind n stack st.0) at answered)

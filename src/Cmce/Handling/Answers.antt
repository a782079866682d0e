-- ===== src/Cmce/Handling/Answers.antt =====
-- That the entity of sw/cmce/cmce.c never fails an assertion of the bit buffer: neither in decoding
-- a body nor in encoding the response.
use tetra_bs.Prelude.{
  ℕ, ◌+◌, ◌/◌, ◌^◌, ◌≤◌, ◌<◌, ◌≡◌, inl, inr, refl, sym, subst, true, false, Option, none, some,
  List, take, length, length-take, ltb, ◌==◌, Bool-cases, Result, ok, err, einval, All-take,
  All-replicate, arith,
}
use tetra_bs.Core.MsgBus.{MsgBus}
use tetra_bs.Core.BitBuffer.{BitBuffer, bb_init, bb_init_autoexpand}
use tetra_bs.Core.BitBuffer.Spec.{IsBytes}
use tetra_bs.Core.BitBuffer.Cursor.{IsValid}
use tetra_bs.Core.BitBuffer.Codec.{Step, done, fails, aborts}
use tetra_bs.Core.BitBuffer.Codec.Ends.{Outcome}
use tetra_bs.Llc.{TetraAddress, TleSapMsg, TleLayout, body_max_bytes}
use tetra_bs.Cmce.{
  CmcePduType, setup, call_proceeding, tx_demand, release, connect, nwrk_broadcast, unknown, Cmce,
}
use tetra_bs.Cmce.Message.{CmcePdu}
use tetra_bs.Cmce.Pdu.{cmce_pdu_encode}
use tetra_bs.Cmce.Pdu.Layout.{IsEncodable}
use tetra_bs.Cmce.Pdu.RoundTrip.{cmce_pdu_encode-Emitted, bits}
use tetra_bs.Cmce.Pdu.Total.{IsDecoded, cmce_pdu_decode-Ends}
use tetra_bs.Cmce.Handling.Shrinks.{Shrinks, Shrinks-trans, same_calls, cmce_fsm_apply-Shrinks}
use tetra_bs.Cmce.Handling.{
  result_of, cmce_pdu_from_body, setup_reply, tx_demand_reply, release_reply, reply_by, close_by,
  scratch, encode, post_bits, cmce_post_tma_unitdata_req, respond, count_rx, handle_pdu,
  cmce_handle_tle_msg,
}

-- The body is an array of bytes of the size that the type gives it.
abbrev pub IsBody : List ℕ → Type 0
IsBody body = IsBytes body × (length body ≡ body_max_bytes)

-- What a codec that fails no assertion returns.
abbrev pub Returned : {A : Type 0} → (A → Type 0) → Option (Result A) → Type 0
Returned P none = ⊥
Returned P (some (err e)) = Unit
Returned P (some (ok a)) = P a

Outcome-Returned :
    {A : Type 0} (P : A → Type 0) (s : Step A) → Outcome P s → Returned P (result_of s)
Outcome-Returned P (done a bb) h = h.0
Outcome-Returned P (fails e bb) h = tt
Outcome-Returned P aborts h = h

body-IsValid :
    (body : List ℕ) (n : ℕ)
    → IsBody body
    → (n + 7) / 8 ≤ 32
    → IsValid (bb_init (take ((n + 7) / 8) body) n)
unfolding bb_init
body-IsValid body n (bytes, long) h = record {
  bytes = All-take (λ b. b < 256) ((n + 7) / 8) body bytes;
  start_le = omega arith;
  pos_le = omega arith;
  end_le = omega arith;
  memory = omega (arith, length-take ((n + 7) / 8) body);
  addressable = omega arith;
}

pub cmce_pdu_from_body-Returned :
    (body : List ℕ) (n : ℕ) → IsBody body → Returned (IsDecoded true) (cmce_pdu_from_body body n)
unfolding cmce_pdu_from_body
cmce_pdu_from_body-Returned body n h = elim (Bool-cases (n == 0)) [
  | inl nothing ↦ rw nothing tt
  | inr some_bits ↦ elim (Bool-cases (ltb 32 ((n + 7) / 8))) [
    | inl long ↦ rw (some_bits, long) tt
    | inr fits ↦
        rw (some_bits, fits)
          (Outcome-Returned (IsDecoded true) _
            ((cmce_pdu_decode-Ends true n).run _ (body-IsValid body n h (ground arith))))
  ]
]

pub scratch-IsValid : IsValid scratch
unfolding bb_init_autoexpand
scratch-IsValid = record {
  bytes = All-replicate (λ b. b < 256) 32 0 (omega arith);
  start_le = omega arith;
  pos_le = omega arith;
  end_le = omega arith;
  memory = omega arith;
  addressable = omega arith;
}

-- A response is encoded.
encoded :
    (t : CmcePduType) (p : CmcePdu)
    → p.pdu_type ≡ t
    → IsEncodable t false p
    → bits false p ≤ 256
    → (bb : BitBuffer) × (cmce_pdu_encode p false scratch ≡ done (bits false p) bb)
unfolding bb_init_autoexpand
encoded t p e fields room =
    let (bb, d, _) =
      cmce_pdu_encode-Emitted p false scratch scratch-IsValid
        (subst (λ t. IsEncodable t false p) (sym e) fields) (inr (refl, omega arith)) in
    (bb, d)

abbrev pub Encodes : Option CmcePdu → Type 0
Encodes none = Unit
Encodes (some r) = (n : ℕ) × (bb : BitBuffer) × (encode r.pdu_type r false ≡ done n bb)

pub reply_encoded :
    (t : CmcePduType) (p : CmcePdu) → p.call_identifier < 2 ^ 14 → Encodes (reply_by t p)
unfolding encode
reply_encoded setup p lt =
    let (bb, e) = encoded call_proceeding (setup_reply p) refl (lt, omega arith) (omega arith) in
    (25, bb, e)
reply_encoded tx_demand p lt =
    let (bb, e) =
      encoded CmcePduType.tx_granted (tx_demand_reply p) refl (lt, omega arith) (omega arith) in
    (25, bb, e)
reply_encoded release p lt =
    let (bb, e) = encoded release (release_reply p) refl (lt, omega arith) (omega arith) in
    (25, bb, e)
reply_encoded call_proceeding p lt = tt
reply_encoded connect p lt = tt
reply_encoded CmcePduType.tx_granted p lt = tt
reply_encoded nwrk_broadcast p lt = tt
reply_encoded unknown p lt = tt

module _ (layout : TleLayout) where
  pub post_bits-calls :
      (cmce : Cmce) (bus : MsgBus) (ep : ℕ) (addr : TetraAddress) (n : ℕ) (bytes : List ℕ)
      → (post_bits layout cmce bus ep addr n bytes).0.0.calls ≡ cmce.calls
  unfolding post_bits
  post_bits-calls cmce bus ep addr n bytes = ground arith

  -- A message that can be encoded is posted or refused by the bus, and the calls stay.
  pub post_encoded :
      (cmce : Cmce) (bus : MsgBus) (ep : ℕ) (addr : TetraAddress) (r : CmcePdu)
      → (n : ℕ) × (bb : BitBuffer) × (encode r.pdu_type r false ≡ done n bb)
      → (st : (Cmce × MsgBus) × Result (Unit {0})) × (cmce_post_tma_unitdata_req layout cmce bus ep
            addr r false
          ≡ some st)
        × (st.0.0.calls ≡ cmce.calls)
  unfolding cmce_post_tma_unitdata_req
  post_encoded cmce bus ep addr r (n, bb, e) = elim (Bool-cases cmce.initialised) [
    | inl up ↦
        rw (up, e)
          (
            post_bits layout cmce bus ep addr n bb.buffer,
            refl,
            post_bits-calls cmce bus ep addr n bb.buffer,
          )
    | inr down ↦ (((cmce, bus), err einval), rw (down, cmce_post_tma_unitdata_req) refl, refl)
  ]

  close_by-Shrinks : (t : CmcePduType) (cmce : Cmce) (i : ℕ) → Shrinks cmce (close_by t cmce i)
  close_by-Shrinks release cmce i = cmce_fsm_apply-Shrinks cmce i release false
  close_by-Shrinks setup cmce i = same_calls cmce cmce refl
  close_by-Shrinks call_proceeding cmce i = same_calls cmce cmce refl
  close_by-Shrinks connect cmce i = same_calls cmce cmce refl
  close_by-Shrinks tx_demand cmce i = same_calls cmce cmce refl
  close_by-Shrinks CmcePduType.tx_granted cmce i = same_calls cmce cmce refl
  close_by-Shrinks nwrk_broadcast cmce i = same_calls cmce cmce refl
  close_by-Shrinks unknown cmce i = same_calls cmce cmce refl

  -- The response is always encoded, and opens no call.
  pub respond-Shrinks :
      (cmce : Cmce) (bus : MsgBus) (m : TleSapMsg) (p : CmcePdu) (i : ℕ)
      → p.call_identifier < 2 ^ 14
      → (st : Cmce × MsgBus) × (respond layout cmce bus m p i ≡ some st) × Shrinks cmce st.0
  unfolding respond
  respond-Shrinks cmce bus m p i lt =
      by_reply (reply_by p.pdu_type p) refl (reply_encoded p.pdu_type p lt)
    where
      by_reply :
          (o : Option CmcePdu)
          → reply_by p.pdu_type p ≡ o
          → Encodes o
          → (st : Cmce × MsgBus) × (respond layout cmce bus m p i ≡ some st) × Shrinks cmce st.0
      by_reply none e h = ((cmce, bus), rw (e, respond) refl, same_calls cmce cmce refl)
      by_reply (some r) e h =
          let (st, posted, same) = post_encoded cmce bus m.endpoint m.addr r h in
          let cmce' = st.0.0 in
          (
            (close_by p.pdu_type cmce' i, st.0.1),
            rw (e, posted, respond) refl,
            Shrinks-trans cmce cmce' (close_by p.pdu_type cmce' i) (same_calls cmce cmce' same)
                (close_by-Shrinks p.pdu_type cmce' i),
          )

  pub handle_decoded :
      (cmce : Cmce) (bus : MsgBus) (m : TleSapMsg) (p : CmcePdu)
      → cmce.initialised ≡ true
      → cmce_pdu_from_body m.pdu.body m.pdu.body_len_bits ≡ some (ok p)
      → cmce_handle_tle_msg layout cmce bus m ≡ handle_pdu layout (count_rx cmce) bus m p
  unfolding cmce_handle_tle_msg
  handle_decoded cmce bus m p up e = simp (up, e, cmce_handle_tle_msg)

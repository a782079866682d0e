-- ===== src/Mle/Handling/Messages.antt =====
-- The entries of the MLE: a message from the LLC, a message back from MM, and the start.
use tetra_bs.Prelude.{
  ℕ, ◌*◌, ◌≡◌, ◌⊎◌, inl, inr, refl, sym, ap, none, some, List, length, Result, ok, err, Errno,
  enospc, ◌==◌, arith, Bool-cases, Option-cases, subst,
}
use tetra_bs.Core.Sap.{prio_normal}
use tetra_bs.Core.MsgBus.{MsgBus}
use tetra_bs.Core.MsgBus.Bus.{IsBus, Grows, Grows-refl, msgbus_post-Grows}
use tetra_bs.Llc.{TleSapMsg, body_max_bytes}
use tetra_bs.Mle.{
  Mle, MleSession, MleUses, TlaSapPayload, strip_mle_pd, mm_request, handle_with_session,
  handle_mm_pdu, mle_handle_tle_msg, mle_session_alloc,
}
use tetra_bs.Mle.Sessions.{IsTable, mle_session_alloc_lem}
use tetra_bs.Mle.Handling.Keys.{SameKeys, IsTable-SameKeys}
use tetra_bs.Mle.Handling.Requests.{event_of, Handled, handle_with_session_lem}

pub Result-cases :
    {A : Type 0} (r : Result A) → ((a : A) × (r ≡ ok a)) ⊎ ((e : Errno) × (r ≡ err e))
Result-cases (ok a) = inl (a, refl)
Result-cases (err e) = inr (e, refl)

pub SameKeys-sym : (a b : List MleSession) → SameKeys a b → SameKeys b a
SameKeys-sym a b g = record {
  size = sym g.size;
  in_use = λ k. sym (g.in_use k);
  issi = λ k. sym (g.issi k);
}

module _ (uses : MleUses) where
  open uses use {MmDecoded, pdu_type, mm_iep_decode, tla_bytes, tla_size}

  module _ (mle : Mle) (bus : MsgBus) (m : TleSapMsg) (body : List ℕ) (bits : ℕ) where
    mm_pdu_err :
        (e : Errno)
        → mm_iep_decode body bits ≡ err e
        → handle_mm_pdu uses mle bus m body bits ≡ ((mle, bus), err e)
    unfolding handle_mm_pdu
    mm_pdu_err e bad = rw (bad, handle_mm_pdu) refl

    mm_pdu_full :
        (decoded : MmDecoded)
        → mm_iep_decode body bits ≡ ok decoded
        → (mle_session_alloc mle m.addr.ssi).1 ≡ none
        → handle_mm_pdu uses mle bus m body bits
          ≡ (((mle_session_alloc mle m.addr.ssi).0, bus), err enospc)
    unfolding handle_mm_pdu
    mm_pdu_full decoded good full = rw (good, handle_mm_pdu) (rw (full, handle_mm_pdu) refl)

    pub mm_pdu_session :
        (decoded : MmDecoded) (i : ℕ)
        → mm_iep_decode body bits ≡ ok decoded
        → (mle_session_alloc mle m.addr.ssi).1 ≡ some i
        → handle_mm_pdu uses mle bus m body bits
          ≡ handle_with_session uses (mle_session_alloc mle m.addr.ssi).0 bus m decoded i
    unfolding handle_mm_pdu
    mm_pdu_session decoded i good slot = rw (good, handle_mm_pdu) (rw (slot, handle_mm_pdu) refl)

  -- the layout that the compiler gives: every envelope has the bytes of its size
  abbrev pub HasLayout : Type 0
  HasLayout = (p : TlaSapPayload MmDecoded) → length (tla_bytes p) ≡ tla_size

  Handled-Grows :
      (mle : Mle) (bus : MsgBus) (m : TleSapMsg) (decoded : MmDecoded) (i : ℕ)
      (after : (Mle × MsgBus) × Result (Unit {0}))
      → HasLayout
      → IsBus bus
      → Handled uses mle bus m decoded i after
      → Grows bus after.0.1
  Handled-Grows mle bus m decoded i after layout v h =
      elim (Option-cases (event_of (pdu_type decoded))) [
        | inl nil ↦ rw (h.no_event nil).1 (Grows-refl bus v)
        | inr (e, is) ↦
            let post =
              msgbus_post-Grows bus prio_normal (mm_request uses m.endpoint m.addr decoded) v
                (inr (_, refl, layout _)) in
            subst (Grows bus) (sym (ap (λ r. r.0) (h.event e is).1)) post
      ]

  handle_mm_pdu-IsTable :
      (mle : Mle) (bus : MsgBus) (m : TleSapMsg) (body : List ℕ) (bits : ℕ)
      → HasLayout
      → IsTable mle.sessions
      → IsBus bus
      → let after = handle_mm_pdu uses mle bus m body bits in
        IsTable after.0.0.sessions × Grows bus after.0.1
  handle_mm_pdu-IsTable mle bus m body bits layout v vb =
      elim (Result-cases (mm_iep_decode body bits)) [
        | inr (e, bad) ↦ rw (mm_pdu_err mle bus m body bits e bad) (v, Grows-refl bus vb)
        | inl (decoded, good) ↦
            let mid : Mle = (mle_session_alloc mle m.addr.ssi).0 in
            let a = mle_session_alloc_lem mle m.addr.ssi v in
            elim (Option-cases (mle_session_alloc mle m.addr.ssi).1) [
              | inl full ↦
                  rw (mm_pdu_full mle bus m body bits decoded good full)
                    (a.table, Grows-refl bus vb)
              | inr (i, slot) ↦
                  let h = handle_with_session_lem uses mid bus m decoded i (a.found i slot).1.0 in
                  rw (mm_pdu_session mle bus m body bits decoded i good slot) (
                    IsTable-SameKeys mid.sessions _ h.keys a.table,
                    Handled-Grows mid bus m decoded i _ layout vb h,
                  )
            ]
      ]

  tle_dropped :
      (mle : Mle) (bus : MsgBus) (m : TleSapMsg)
      → ((mle_handle_tle_msg uses mle bus m).0 ≡ (mle, bus))
        ⊎ ((body : List ℕ) × (bits : ℕ) × (mle_handle_tle_msg uses mle bus m
              ≡ handle_mm_pdu uses mle bus m body bits))
  unfolding mle_handle_tle_msg
  tle_dropped mle bus m = elim (Bool-cases mle.initialised) [
    | inr off ↦ inl (ground arith)
    | inl on ↦ elim (Result-cases (strip_mle_pd m.pdu (body_max_bytes * 8))) [
      | inr (e, bad) ↦ inl (ground (arith, bad))
      | inl ((disc, body, bits), good) ↦ elim (Bool-cases (disc == 1)) [
        | inl mm ↦ inr (body, bits, ground (arith, good, mm))
        | inr other ↦ inl (ground (arith, good, other))
      ]
    ]
  ]

  -- Whatever message comes from the LLC, the table of sessions stays well-formed, and the bus stays
  -- well-formed and loses no message.
  pub mle_handle_tle_msg-IsTable :
      (mle : Mle) (bus : MsgBus) (m : TleSapMsg)
      → HasLayout
      → IsTable mle.sessions
      → IsBus bus
      → let after = mle_handle_tle_msg uses mle bus m in
        IsTable after.0.0.sessions × Grows bus after.0.1
  mle_handle_tle_msg-IsTable mle bus m layout v vb = elim (tle_dropped mle bus m) [
    | inl same ↦ rw same (v, Grows-refl bus vb)
    | inr (body, bits, mm) ↦ rw mm (handle_mm_pdu-IsTable mle bus m body bits layout v vb)
  ]

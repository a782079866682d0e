-- ===== src/Cmce/Handling/OneCall.antt =====
-- What the entity of sw/cmce/cmce.c makes of any sequence of messages. A U-SETUP has no field for
-- the identifier of the call, and `cmce_handle_tle_msg` looks the call up by the zero that the
-- decoder leaves there.
use tetra_bs.Prelude.{
  ℕ, ◌≡◌, ◌≢◌, inl, inr, refl, sym, ap, ◌∙◌, subst, true, false, Option, none, some, ◌==◌,
  Bool-cases, Result, ok, err, einval, arith,
}
use tetra_bs.Core.MsgBus.{MsgBus}
use tetra_bs.Llc.{TleSapMsg, TleLayout}
use tetra_bs.Cmce.{
  CmcePduType, setup, Cmce, slot, cmce_call_lookup, cmce_call_alloc, cmce_fsm_apply,
}
use tetra_bs.Cmce.Slots.{Allocated, cmce_call_alloc_lem}
use tetra_bs.Cmce.Message.{CmcePdu}
use tetra_bs.Cmce.Pdu.Total.{IsDecoded}
use tetra_bs.Cmce.Handling.Shrinks.{
  Shrinks, Shrinks-trans, same_calls, cmce_fsm_apply-Shrinks, cmce_call_lookup-none,
}
use tetra_bs.Cmce.Handling.Answers.{
  IsBody, Returned, cmce_pdu_from_body-Returned, handle_decoded, respond-Shrinks,
}
use tetra_bs.Cmce.Handling.{
  cmce_pdu_from_body, count_rx, count_unknown, count_drop, slot_for, handle_pdu,
  cmce_handle_tle_msg, is_setup,
}

-- Every call has the identifier 0, and there is at most one.
pub record OneCall (cmce : Cmce) : Type 0 where
  pub zero_id : (i : ℕ) → (slot cmce i).in_use ≡ true → (slot cmce i).call_identifier ≡ 0
  pub single : (i j : ℕ) → (slot cmce i).in_use ≡ true → (slot cmce j).in_use ≡ true → i ≡ j

pub OneCall-Shrinks : (cmce c : Cmce) → Shrinks cmce c → OneCall cmce → OneCall c
OneCall-Shrinks cmce c h one = record {
  zero_id = λ i used. (h i used).1 ∙ one.zero_id i (h i used).0;
  single = λ i j used used'. one.single i j (h i used).0 (h j used').0;
}

-- Where no call is found under 0, there is none.
none_in_use :
    (cmce : Cmce)
    → OneCall cmce
    → cmce_call_lookup cmce 0 ≡ none
    → (j : ℕ) → (slot cmce j).in_use ≡ false
none_in_use cmce one e j = elim (Bool-cases (slot cmce j).in_use) [
  | inl used ↦ absurd (cmce_call_lookup-none cmce 0 e j used (one.zero_id j used))
  | inr free ↦ free
]

Allocated-OneCall :
    (cmce : Cmce) (m : TleSapMsg) (c : Cmce) (r : Option ℕ)
    → OneCall cmce
    → Allocated cmce 0 (some m.addr) m.endpoint c r
    → OneCall c
Allocated-OneCall cmce m c none one (inl (_, e)) =
    OneCall-Shrinks cmce c (same_calls cmce c (ap (λ c. c.calls) e)) one
Allocated-OneCall cmce m c none one (inr (_, e)) =
    OneCall-Shrinks cmce c (same_calls cmce c (ap (λ c. c.calls) e)) one
Allocated-OneCall cmce m c (some i) one (absent, _, at, _, others) = record {
  zero_id = λ j used.
      ap (λ k. (slot c k).call_identifier) (sym (is_new j used)) ∙ ap (λ s. s.call_identifier) at;
  single = λ j k used used'. sym (is_new j used) ∙ is_new k used';
}
  where
    is_new : (j : ℕ) → (slot c j).in_use ≡ true → i ≡ j
    is_new j used = elim (Bool-cases (i == j)) [
      | inl same ↦ ground arith
      | inr other ↦
          let ne : i ≢ j = ground arith in
          let clash : true ≡ false =
            sym used ∙ ap (λ s. s.in_use) (others j ne) ∙ none_in_use cmce one absent j in
          absurd (ground arith)
    ]

is_setup-setup : (t : CmcePduType) → is_setup t ≡ true → t ≡ setup
is_setup-setup t e = ground arith

-- A message that is a U-SETUP has the identifier 0, so a call is opened only where there is none.
slot_for-OneCall :
    (cmce : Cmce) (m : TleSapMsg) (p : CmcePdu)
    → IsDecoded true p
    → OneCall cmce
    → OneCall (slot_for cmce m p).0
unfolding slot_for
slot_for-OneCall cmce m p (_, zero_id) one =
    by_lookup (cmce_call_lookup cmce p.call_identifier) refl
  where
    opened : Cmce
    opened = (cmce_call_alloc cmce p.call_identifier (some m.addr) m.endpoint).0

    allocated : is_setup p.pdu_type ≡ true → OneCall opened
    allocated e =
        let zero = zero_id refl (is_setup-setup p.pdu_type e) in
        subst (λ id. OneCall (cmce_call_alloc cmce id (some m.addr) m.endpoint).0) (sym zero)
          (Allocated-OneCall cmce m _ _ one (cmce_call_alloc_lem cmce 0 (some m.addr) m.endpoint))

    by_alloc :
        (r : Option ℕ)
        → (cmce_call_alloc cmce p.call_identifier (some m.addr) m.endpoint).1 ≡ r
        → is_setup p.pdu_type ≡ true
        → cmce_call_lookup cmce p.call_identifier ≡ none
        → OneCall (slot_for cmce m p).0
    by_alloc none e s absent =
        rw (absent, s, e, slot_for)
          (OneCall-Shrinks opened (count_drop opened) (same_calls opened (count_drop opened) refl)
            (allocated s))
    by_alloc (some i) e s absent = rw (absent, s, e, slot_for) (allocated s)

    by_lookup :
        (r : Option ℕ) → cmce_call_lookup cmce p.call_identifier ≡ r → OneCall (slot_for cmce m p).0
    by_lookup (some i) e = rw (e, slot_for) one
    by_lookup none e = elim (Bool-cases (is_setup p.pdu_type)) [
      | inl s ↦ by_alloc _ refl s e
      | inr s ↦
          rw (e, s, slot_for)
            (OneCall-Shrinks cmce (count_drop cmce) (same_calls cmce (count_drop cmce) refl) one)
    ]

module _ (layout : TleLayout) where
  handle_pdu-OneCall :
      (cmce : Cmce) (bus : MsgBus) (m : TleSapMsg) (p : CmcePdu)
      → IsDecoded true p
      → OneCall cmce
      → (st : (Cmce × MsgBus) × Result (Unit {0})) × (handle_pdu layout cmce bus m p ≡ some st)
        × OneCall st.0.0
  unfolding handle_pdu
  handle_pdu-OneCall cmce bus m p decoded one =
      by_found (slot_for cmce m p).1 refl (slot_for-OneCall cmce m p decoded one)
    where
      found : Cmce
      found = (slot_for cmce m p).0

      by_found :
          (r : Result ℕ)
          → (slot_for cmce m p).1 ≡ r
          → OneCall found
          → (st : (Cmce × MsgBus) × Result (Unit {0})) × (handle_pdu layout cmce bus m p ≡ some st)
            × OneCall st.0.0
      by_found (err e) same h = (((found, bus), err e), rw (same, handle_pdu) refl, h)
      by_found (ok i) same h =
          let moved = (cmce_fsm_apply found (some i) p.pdu_type true).0 in
          let (st, answered, shrinks) = respond-Shrinks layout moved bus m p i decoded.0 in
          (
            (st, ok tt),
            rw (same, answered, handle_pdu) refl,
            OneCall-Shrinks found st.0
                (Shrinks-trans found moved st.0 (cmce_fsm_apply-Shrinks found i p.pdu_type true)
                  shrinks)
                h,
          )

  -- Whatever the body of the message holds, the handler fails no assertion, and leaves at most one
  -- call, with the identifier 0, if there was at most one and it had this identifier.
  pub cmce_handle_tle_msg-OneCall :
      (cmce : Cmce) (bus : MsgBus) (m : TleSapMsg)
      → IsBody m.pdu.body
      → OneCall cmce
      → (st : (Cmce × MsgBus) × Result (Unit {0})) × (cmce_handle_tle_msg layout cmce bus m
          ≡ some st)
        × OneCall st.0.0
  unfolding cmce_handle_tle_msg
  cmce_handle_tle_msg-OneCall cmce bus m body one = elim (Bool-cases cmce.initialised) [
    | inr down ↦ (((cmce, bus), err einval), simp (down, cmce_handle_tle_msg), one)
    | inl up ↦
        by_body up (cmce_pdu_from_body m.pdu.body m.pdu.body_len_bits) refl
          (cmce_pdu_from_body-Returned m.pdu.body m.pdu.body_len_bits body)
  ]
    where
      by_body :
          cmce.initialised ≡ true
          → (r : Option (Result CmcePdu)) → cmce_pdu_from_body m.pdu.body m.pdu.body_len_bits ≡ r
          → Returned (IsDecoded true) r
          → (st : (Cmce × MsgBus) × Result (Unit {0})) × (cmce_handle_tle_msg layout cmce bus m
              ≡ some st)
            × OneCall st.0.0
      by_body up none e h = absurd h
      by_body up (some (err n)) e h =
          let counted = count_unknown (count_rx cmce) in
          (
            ((counted, bus), err n),
            simp (up, e, cmce_handle_tle_msg),
            OneCall-Shrinks cmce counted (same_calls cmce counted refl) one,
          )
      by_body up (some (ok p)) e h =
          let counted = count_rx cmce in
          let (st, handled, kept) =
            handle_pdu-OneCall counted bus m p h
              (OneCall-Shrinks cmce counted (same_calls cmce counted refl) one) in
          (st, handle_decoded layout cmce bus m p up e ∙ handled, kept)

-- ===== src/Cmce/Handling/Replies.antt =====
-- The end of a call: what `cmce_handle_tle_msg` of sw/cmce/cmce.c makes of a U-RELEASE.
use tetra_bs.Prelude.{
  ℕ, suc, ◌+◌, ◌^◌, ◌<◌, ◌≡◌, ◌≢◌, ◌⊎◌, inl, inr, refl, ap, ◌∙◌, subst, Bool, true, false, ◌&&◌,
  some, List, [], ◌∷◌, get_or, length, length-set, get_or-set_self, get_or-set_ne, ◌==◌, Bool-cases,
  Result, ok, arith,
}
use tetra_bs.Core.MsgBus.{MsgBus}
use tetra_bs.Llc.{TleSapMsg, TleLayout}
use tetra_bs.Cmce.{
  release, CmceCallState, idle, setup_pending, proceeding, connected, releasing, CmceCallSlot,
  CmceStats, Cmce, zero_slot, slot, released, fsm_switch, cmce_fsm_apply, lookup_from,
  cmce_call_lookup,
}
use tetra_bs.Cmce.Message.{CmcePdu}
use tetra_bs.Cmce.Pdu.Total.{IsDecoded}
use tetra_bs.Cmce.Handling.{
  cmce_pdu_from_body, count_rx, release_reply, close_by, slot_for, cmce_post_tma_unitdata_req,
  respond, handle_pdu, cmce_handle_tle_msg,
}
use tetra_bs.Cmce.Handling.Answers.{
  IsBody, Returned, cmce_pdu_from_body-Returned, post_encoded, reply_encoded, handle_decoded,
}

lookup_from_found :
    (cs : List CmceCallSlot) (i id k : ℕ)
    → lookup_from cs i id ≡ some k
    → (j : ℕ) × (k ≡ i + j) × (j < length cs) × ((get_or cs j zero_slot).in_use ≡ true)
unfolding lookup_from
lookup_from_found [] i id k h = absurd (ground arith)
lookup_from_found (c ∷ cs) i id k h = elim (Bool-cases (c.in_use && c.call_identifier == id)) [
  | inl here ↦ (0, ground arith, omega arith, ground arith)
  | inr there ↦
      let (j, at, lt, used) = lookup_from_found cs (i + 1) id k (ground arith) in
      (suc j, omega arith, omega arith, used)
]

-- A call that is looked up is in use.
cmce_call_lookup_found :
    (cmce : Cmce) (id k : ℕ)
    → cmce_call_lookup cmce id ≡ some k
    → (k < length cmce.calls) × ((slot cmce k).in_use ≡ true)
unfolding cmce_call_lookup
cmce_call_lookup_found cmce id k h =
    let (j, at, lt, used) = lookup_from_found cmce.calls 0 id k h in
    let same : k ≡ j = omega arith in (omega arith, ap (λ k. (slot cmce k).in_use) same ∙ used)

-- What has become of the slot `i`, the others being as they were.
abbrev pub OnlyAt : ℕ → CmceCallSlot → Cmce → Cmce → Type 0
OnlyAt i s cmce c = (slot c i ≡ s) × ((j : ℕ) → i ≢ j → slot c j ≡ slot cmce j)

module _ (cmce : Cmce) (i : ℕ) (u : Bool) (lt : i < length cmce.calls) where
  apply_release :
      (slot cmce i).in_use ≡ true
      → OnlyAt i
          (fsm_switch cmce.stats (slot cmce i) release u).1
          cmce
          (cmce_fsm_apply cmce (some i) release u).0
  unfolding cmce_fsm_apply
  apply_release live =
      let s = (fsm_switch cmce.stats (slot cmce i) release u).1 in
      rw live (
        get_or-set_self cmce.calls i s zero_slot lt,
        λ j ne. get_or-set_ne cmce.calls s zero_slot ne,
      )

  apply_free :
      (slot cmce i).in_use ≡ false
      → OnlyAt i (slot cmce i) cmce (cmce_fsm_apply cmce (some i) release u).0
  unfolding cmce_fsm_apply
  apply_free free = rw free (refl, λ j ne. refl)

fsm_switch-release :
    (st : CmceStats) (s : CmceCallSlot) (x : CmceCallState) (u : Bool)
    → x ≢ idle
    → ((fsm_switch st (record s { state = x }) release u).1 ≡ released s)
      ⊎ ((fsm_switch st (record s { state = x }) release u).1 ≡ record s { state = releasing })
unfolding fsm_switch
fsm_switch-release st s idle u ne = absurd (ne refl)
fsm_switch-release st s setup_pending u ne = inr refl
fsm_switch-release st s proceeding u ne = inr refl
fsm_switch-release st s connected u ne = inr refl
fsm_switch-release st s CmceCallState.tx_granted u ne = inr refl
fsm_switch-release st s releasing u ne = inl refl

fsm_switch-releasing :
    (st : CmceStats) (s : CmceCallSlot) (u : Bool)
    → (fsm_switch st (record s { state = releasing }) release u).1 ≡ released s
unfolding fsm_switch
fsm_switch-releasing st s u = refl

abbrev pub Freed : ℕ → Cmce → Cmce → Type 0
Freed i cmce c =
    ((slot c i).in_use ≡ false)
    × ((slot c i).state ≡ idle)
    × ((j : ℕ) → i ≢ j → slot c j ≡ slot cmce j)

length-apply :
    (cmce : Cmce) (i : ℕ) (u : Bool)
    → length (cmce_fsm_apply cmce (some i) release u).0.calls ≡ length cmce.calls
unfolding cmce_fsm_apply
length-apply cmce i u = elim (Bool-cases (slot cmce i).in_use) [
  | inl live ↦ rw live (length-set cmce.calls i _)
  | inr free ↦ rw free refl
]

-- A release of a slot that is free already, or that is being released, leaves it free.
release_last :
    (cmce : Cmce) (i : ℕ) (s : CmceCallSlot)
    → i < length cmce.calls
    → s.in_use ≡ true
    → (slot cmce i ≡ released s) ⊎ (slot cmce i ≡ record s { state = releasing })
    → Freed i cmce (cmce_fsm_apply cmce (some i) release false).0
release_last cmce i s lt used (inl done) =
    let (at, others) = apply_free cmce i false lt (ap (λ s. s.in_use) done) in
    (ap (λ s. s.in_use) (at ∙ done), ap (λ s. s.state) (at ∙ done), others)
release_last cmce i s lt used (inr pending) =
    let (at, others) = apply_release cmce i false lt (ap (λ s. s.in_use) pending ∙ used) in
    let freed : slot (cmce_fsm_apply cmce (some i) release false).0 i ≡ released s =
      at
      ∙ ap (λ s. (fsm_switch cmce.stats s release false).1) pending
      ∙ fsm_switch-releasing cmce.stats s false in
    (ap (λ s. s.in_use) freed, ap (λ s. s.state) freed, others)

-- The two releases of `cmce_handle_tle_msg`, with the response posted between them.
release_twice :
    (cmce c : Cmce) (i : ℕ)
    → i < length cmce.calls
    → (slot cmce i).in_use ≡ true
    → (slot cmce i).state ≢ idle
    → c.calls ≡ (cmce_fsm_apply cmce (some i) release true).0.calls
    → Freed i cmce (cmce_fsm_apply c (some i) release false).0
release_twice cmce c i lt used ne e =
    let once = (cmce_fsm_apply cmce (some i) release true).0 in
    let (at, others) = apply_release cmce i true lt used in
    let moved = ap (λ cs. get_or cs i zero_slot) e ∙ at in
    let room : i < length c.calls = omega (arith, ap length e, length-apply cmce i true, lt) in
    let step = fsm_switch-release cmce.stats (slot cmce i) (slot cmce i).state true ne in
    let (free, quiet, kept) =
      release_last c i (slot cmce i) room used
        (elim step [ inl a ↦ inl (moved ∙ a) | inr b ↦ inr (moved ∙ b) ]) in
    (free, quiet, λ j off. kept j off ∙ ap (λ cs. get_or cs j zero_slot) e ∙ others j off)

module _ (layout : TleLayout) where
  respond_posted :
      (cmce : Cmce) (bus : MsgBus) (m : TleSapMsg) (p : CmcePdu) (i : ℕ) (c : Cmce) (bus' : MsgBus)
      (rc : Result (Unit {0}))
      → p.pdu_type ≡ release
      → cmce_post_tma_unitdata_req layout cmce bus m.endpoint m.addr (release_reply p) false
        ≡ some ((c, bus'), rc)
      → respond layout cmce bus m p i ≡ some ((cmce_fsm_apply c (some i) release false).0, bus')
  unfolding respond
  respond_posted cmce bus m p i c bus' rc e posted =
      rw (e, posted, respond) (ap (λ t. some (close_by t c i, bus')) e)

  respond-release :
      (cmce : Cmce) (bus : MsgBus) (m : TleSapMsg) (p : CmcePdu) (i : ℕ)
      → p.pdu_type ≡ release
      → p.call_identifier < 2 ^ 14
      → (c : Cmce) × (bus' : MsgBus) × (respond layout cmce bus m p i
          ≡ some ((cmce_fsm_apply c (some i) release false).0, bus'))
        × (c.calls ≡ cmce.calls)
  respond-release cmce bus m p i e lt =
      let (st, posted, same) =
        post_encoded layout cmce bus m.endpoint m.addr (release_reply p)
          (reply_encoded release p lt) in
      (st.0.0, st.0.1, respond_posted cmce bus m p i st.0.0 st.0.1 st.1 e posted, same)

  handle_pdu_found :
      (cmce : Cmce) (bus : MsgBus) (m : TleSapMsg) (p : CmcePdu) (i : ℕ) (st : Cmce × MsgBus)
      → cmce_call_lookup cmce p.call_identifier ≡ some i
      → respond layout (cmce_fsm_apply cmce (some i) p.pdu_type true).0 bus m p i ≡ some st
      → handle_pdu layout cmce bus m p ≡ some (st, ok tt)
  unfolding handle_pdu slot_for
  handle_pdu_found cmce bus m p i st found answered = simp (found, answered, handle_pdu, slot_for)

  lookup_counted :
      (cmce : Cmce) (id : ℕ) → cmce_call_lookup (count_rx cmce) id ≡ cmce_call_lookup cmce id
  unfolding cmce_call_lookup
  lookup_counted cmce id = refl

  -- A U-RELEASE for a call that is not idle is answered with success, whatever the bus makes of the
  -- response: the slot of the call is free and idle after it, and no other slot has changed.
  pub cmce_handle_tle_msg-Freed :
      (cmce : Cmce) (bus : MsgBus) (m : TleSapMsg) (p : CmcePdu) (i : ℕ)
      → cmce.initialised ≡ true
      → IsBody m.pdu.body
      → cmce_pdu_from_body m.pdu.body m.pdu.body_len_bits ≡ some (ok p)
      → p.pdu_type ≡ release
      → cmce_call_lookup cmce p.call_identifier ≡ some i
      → (slot cmce i).state ≢ idle
      → (st : Cmce × MsgBus) × (cmce_handle_tle_msg layout cmce bus m ≡ some (st, ok tt))
        × Freed i cmce st.0
  cmce_handle_tle_msg-Freed cmce bus m p i up body read e found ne =
      let decoded : IsDecoded true p =
        subst (Returned (IsDecoded true)) read
          (cmce_pdu_from_body-Returned m.pdu.body m.pdu.body_len_bits body) in
      let (lt, used) = cmce_call_lookup_found cmce p.call_identifier i found in
      let once = (cmce_fsm_apply (count_rx cmce) (some i) p.pdu_type true).0 in
      let (c, bus', answered, same) = respond-release once bus m p i e decoded.0 in
      (
        ((cmce_fsm_apply c (some i) release false).0, bus'),
        handle_decoded layout cmce bus m p up read
            ∙ handle_pdu_found (count_rx cmce) bus m p i _
                (lookup_counted cmce p.call_identifier ∙ found) answered,
        release_twice (count_rx cmce) c i lt used ne
            (same ∙ ap (λ t. (cmce_fsm_apply (count_rx cmce) (some i) t true).0.calls) e),
      )

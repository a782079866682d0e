-- ===== src/Cmce/Calls.antt =====
-- What a message does to a call: the diagram of the state machine, and the end of a call.
use tetra_bs.Prelude.{
  ℕ, ◌<◌, ◌≡◌, ◌≢◌, ◌⊎◌, inl, inr, refl, sym, ap, ◌∙◌, subst, Bool, true, false, some, set, length,
  get_or-set_self, get_or-set_ne, if◌then◌else◌, arith,
}
use tetra_bs.Cmce.{
  CmcePduType, setup, call_proceeding, connect, tx_demand, release, nwrk_broadcast, unknown,
  CmceCallState, idle, setup_pending, proceeding, connected, releasing, CmceCallSlot, CmceStats,
  Cmce, zero_slot, slot, drop, drop_counted, fsm_switch, cmce_fsm_apply,
}

-- The transitions of a call, by the type of the message: a setup starts it in every state, and a
-- release ends it in two steps.
pub data Move : CmceCallState → CmcePduType → CmceCallState → Type 0 where
  set_up : (s : CmceCallState) → Move s setup setup_pending
  proceed : Move setup_pending call_proceeding proceeding
  connect_early : Move setup_pending connect connected
  connect_after : Move proceeding connect connected
  demand : Move connected tx_demand CmceCallState.tx_granted
  grant : Move connected CmcePduType.tx_granted CmceCallState.tx_granted
  grant_again : Move CmceCallState.tx_granted CmcePduType.tx_granted CmceCallState.tx_granted
  release_pending : Move setup_pending release releasing
  release_proceeding : Move proceeding release releasing
  release_connected : Move connected release releasing
  release_granted : Move CmceCallState.tx_granted release releasing
  free : Move releasing release idle

fsm_switch-Move :
    (st : CmceStats) (s : CmceCallSlot) (x : CmceCallState) (pdu : CmcePduType) (u : Bool)
    → Move x pdu (fsm_switch st (record s { state = x }) pdu u).1.state
      ⊎ ((¬ ((y : CmceCallState) × Move x pdu y))
          × (fsm_switch st (record s { state = x }) pdu u ≡ drop st (record s { state = x })))
unfolding fsm_switch
fsm_switch-Move st s idle setup true = inl (set_up idle)
fsm_switch-Move st s idle setup false = inl (set_up idle)
fsm_switch-Move st s idle call_proceeding u = inr ((λ m. elim m.1 [ ]), refl)
fsm_switch-Move st s idle connect u = inr ((λ m. elim m.1 [ ]), refl)
fsm_switch-Move st s idle tx_demand u = inr ((λ m. elim m.1 [ ]), refl)
fsm_switch-Move st s idle CmcePduType.tx_granted u = inr ((λ m. elim m.1 [ ]), refl)
fsm_switch-Move st s idle release u = inr ((λ m. elim m.1 [ ]), refl)
fsm_switch-Move st s idle nwrk_broadcast u = inr ((λ m. elim m.1 [ ]), refl)
fsm_switch-Move st s idle unknown u = inr ((λ m. elim m.1 [ ]), refl)
fsm_switch-Move st s setup_pending setup true = inl (set_up setup_pending)
fsm_switch-Move st s setup_pending setup false = inl (set_up setup_pending)
fsm_switch-Move st s setup_pending call_proceeding u = inl (proceed)
fsm_switch-Move st s setup_pending connect u = inl (connect_early)
fsm_switch-Move st s setup_pending tx_demand u = inr ((λ m. elim m.1 [ ]), refl)
fsm_switch-Move st s setup_pending CmcePduType.tx_granted u = inr ((λ m. elim m.1 [ ]), refl)
fsm_switch-Move st s setup_pending release u = inl (release_pending)
fsm_switch-Move st s setup_pending nwrk_broadcast u = inr ((λ m. elim m.1 [ ]), refl)
fsm_switch-Move st s setup_pending unknown u = inr ((λ m. elim m.1 [ ]), refl)
fsm_switch-Move st s proceeding setup true = inl (set_up proceeding)
fsm_switch-Move st s proceeding setup false = inl (set_up proceeding)
fsm_switch-Move st s proceeding call_proceeding u = inr ((λ m. elim m.1 [ ]), refl)
fsm_switch-Move st s proceeding connect u = inl (connect_after)
fsm_switch-Move st s proceeding tx_demand u = inr ((λ m. elim m.1 [ ]), refl)
fsm_switch-Move st s proceeding CmcePduType.tx_granted u = inr ((λ m. elim m.1 [ ]), refl)
fsm_switch-Move st s proceeding release u = inl (release_proceeding)
fsm_switch-Move st s proceeding nwrk_broadcast u = inr ((λ m. elim m.1 [ ]), refl)
fsm_switch-Move st s proceeding unknown u = inr ((λ m. elim m.1 [ ]), refl)
fsm_switch-Move st s connected setup true = inl (set_up connected)
fsm_switch-Move st s connected setup false = inl (set_up connected)
fsm_switch-Move st s connected call_proceeding u = inr ((λ m. elim m.1 [ ]), refl)
fsm_switch-Move st s connected connect u = inr ((λ m. elim m.1 [ ]), refl)
fsm_switch-Move st s connected tx_demand u = inl (demand)
fsm_switch-Move st s connected CmcePduType.tx_granted u = inl (grant)
fsm_switch-Move st s connected release u = inl (release_connected)
fsm_switch-Move st s connected nwrk_broadcast u = inr ((λ m. elim m.1 [ ]), refl)
fsm_switch-Move st s connected unknown u = inr ((λ m. elim m.1 [ ]), refl)
fsm_switch-Move st s CmceCallState.tx_granted setup true = inl (set_up CmceCallState.tx_granted)
fsm_switch-Move st s CmceCallState.tx_granted setup false = inl (set_up CmceCallState.tx_granted)
fsm_switch-Move st s CmceCallState.tx_granted call_proceeding u = inr ((λ m. elim m.1 [ ]), refl)
fsm_switch-Move st s CmceCallState.tx_granted connect u = inr ((λ m. elim m.1 [ ]), refl)
fsm_switch-Move st s CmceCallState.tx_granted tx_demand u = inr ((λ m. elim m.1 [ ]), refl)
fsm_switch-Move st s CmceCallState.tx_granted CmcePduType.tx_granted u = inl (grant_again)
fsm_switch-Move st s CmceCallState.tx_granted release u = inl (release_granted)
fsm_switch-Move st s CmceCallState.tx_granted nwrk_broadcast u = inr ((λ m. elim m.1 [ ]), refl)
fsm_switch-Move st s CmceCallState.tx_granted unknown u = inr ((λ m. elim m.1 [ ]), refl)
fsm_switch-Move st s releasing setup true = inl (set_up releasing)
fsm_switch-Move st s releasing setup false = inl (set_up releasing)
fsm_switch-Move st s releasing call_proceeding u = inr ((λ m. elim m.1 [ ]), refl)
fsm_switch-Move st s releasing connect u = inr ((λ m. elim m.1 [ ]), refl)
fsm_switch-Move st s releasing tx_demand u = inr ((λ m. elim m.1 [ ]), refl)
fsm_switch-Move st s releasing CmcePduType.tx_granted u = inr ((λ m. elim m.1 [ ]), refl)
fsm_switch-Move st s releasing release u = inl (free)
fsm_switch-Move st s releasing nwrk_broadcast u = inr ((λ m. elim m.1 [ ]), refl)
fsm_switch-Move st s releasing unknown u = inr ((λ m. elim m.1 [ ]), refl)

-- The state that is returned is the slot's.
fsm_switch_state :
    (st : CmceStats) (s : CmceCallSlot) (x : CmceCallState) (pdu : CmcePduType) (u : Bool)
    → let (st', s', gone) = fsm_switch st (record s { state = x }) pdu u in
      (if gone then idle else s'.state) ≡ s'.state
unfolding fsm_switch
fsm_switch_state st s x pdu u = ground arith

module _ (cmce : Cmce) (i : ℕ) (pdu : CmcePduType) (u : Bool) (lt : i < length cmce.calls) where
  apply_live :
      (slot cmce i).in_use ≡ true
      → let (st, s, gone) = fsm_switch cmce.stats (slot cmce i) pdu u in
        cmce_fsm_apply cmce (some i) pdu u
        ≡ (record cmce { calls = set cmce.calls i s; stats = st }, if gone then idle else s.state)
  unfolding cmce_fsm_apply
  apply_live live = rw live refl

  slot-set :
      (s : CmceCallSlot) (st : CmceStats)
      → slot (record cmce { calls = set cmce.calls i s; stats = st }) i ≡ s
  slot-set s st = get_or-set_self cmce.calls i s zero_slot lt

-- What a message has done to a call.
abbrev pub Applied : Cmce → ℕ → CmcePduType → Cmce → CmceCallState → Type 0
Applied cmce i pdu c state =
    ((slot c i).state ≡ state)
    × ((j : ℕ) → i ≢ j → slot c j ≡ slot cmce j)
    × (Move (slot cmce i).state pdu state
        ⊎ ((¬ ((y : CmceCallState) × Move (slot cmce i).state pdu y))
            × (slot c i ≡ slot cmce i)
            × (c.stats ≡ drop_counted cmce.stats)))

-- A message to a call in use returns the state that it leaves in the slot and touches no other
-- slot. That state is reached by a transition of the diagram for this type of message; if the
-- diagram has none from the call's state, the slot stays as it was and a drop is counted.
pub cmce_fsm_apply-Move :
    (cmce : Cmce) (i : ℕ) (pdu : CmcePduType) (u : Bool)
    → i < length cmce.calls
    → (slot cmce i).in_use ≡ true
    → Applied cmce i pdu
        (cmce_fsm_apply cmce (some i) pdu u).0
        (cmce_fsm_apply cmce (some i) pdu u).1
cmce_fsm_apply-Move cmce i pdu u lt live =
    subst (λ r. Applied cmce i pdu r.0 r.1) (sym (apply_live cmce i pdu u lt live))
      (
        ap (λ s. s.state) at ∙ sym same,
        (λ j ne. get_or-set_ne cmce.calls next zero_slot ne),
        elim (fsm_switch-Move cmce.stats old old.state pdu u) [
          | inl move ↦ inl (subst (Move old.state pdu) (sym same) move)
          | inr (stuck, e) ↦ inr (stuck, at ∙ ap (λ r. r.1) e, ap (λ r. r.0) e)
        ],
      )
  where
    old : CmceCallSlot
    old = slot cmce i

    next : CmceCallSlot
    next = (fsm_switch cmce.stats old pdu u).1

    at :
        slot
          (record cmce {
            calls = set cmce.calls i next;
            stats = (fsm_switch cmce.stats old pdu u).0;
          })
          i
        ≡ next
    at = slot-set cmce i pdu u lt next (fsm_switch cmce.stats old pdu u).0

    same : (if (fsm_switch cmce.stats old pdu u).2 then idle else next.state) ≡ next.state
    same = fsm_switch_state cmce.stats old old.state pdu u

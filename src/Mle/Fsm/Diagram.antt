-- ===== src/Mle/Fsm/Diagram.antt =====
-- The diagram of the state machine as a relation, and what every run of it has gone through.
use tetra_bs.Prelude.{◌≡◌, ◌≢◌, ◌⊎◌, arith, inl, inr, refl, ap, List, [], ◌∷◌, ◌++◌}
use tetra_bs.Mle.Fsm.{
  MleState, idle, attach_pending, registered, group_attach, detaching, MleEvt, demand_received,
  accept_sent, accept_acked, grp_demand_received, grp_ack_sent, detach_received, detach_complete,
  mle_fsm_step,
}

-- The transitions: those that the head of mle_fsm.c lists, the detach from every state of a
-- terminal that has begun to attach, and the attach anew of a registered one.
pub data Move : MleState → MleEvt → MleState → Type 0 where
  attach : Move idle demand_received attach_pending
  accept : Move attach_pending accept_sent registered
  groups : Move registered grp_demand_received group_attach
  groups_done : Move group_attach grp_ack_sent registered
  attach_anew : Move registered demand_received attach_pending
  leave_pending : Move attach_pending detach_received detaching
  leave_registered : Move registered detach_received detaching
  leave_groups : Move group_attach detach_received detaching
  left : Move detaching detach_complete idle

-- The step function is the diagram: where the diagram has a transition for the event it is taken,
-- and otherwise the state stays.
pub mle_fsm_step-Move :
    (s : MleState) (e : MleEvt)
    → Move s e (mle_fsm_step s e) ⊎ ((¬ ((t : MleState) × Move s e t)) × (mle_fsm_step s e ≡ s))
unfolding mle_fsm_step
mle_fsm_step-Move idle demand_received = inl attach
mle_fsm_step-Move idle accept_sent = inr ((λ m. elim m.1 [ ]), refl)
mle_fsm_step-Move idle accept_acked = inr ((λ m. elim m.1 [ ]), refl)
mle_fsm_step-Move idle grp_demand_received = inr ((λ m. elim m.1 [ ]), refl)
mle_fsm_step-Move idle grp_ack_sent = inr ((λ m. elim m.1 [ ]), refl)
mle_fsm_step-Move idle detach_received = inr ((λ m. elim m.1 [ ]), refl)
mle_fsm_step-Move idle detach_complete = inr ((λ m. elim m.1 [ ]), refl)
mle_fsm_step-Move attach_pending demand_received = inr ((λ m. elim m.1 [ ]), refl)
mle_fsm_step-Move attach_pending accept_sent = inl accept
mle_fsm_step-Move attach_pending accept_acked = inr ((λ m. elim m.1 [ ]), refl)
mle_fsm_step-Move attach_pending grp_demand_received = inr ((λ m. elim m.1 [ ]), refl)
mle_fsm_step-Move attach_pending grp_ack_sent = inr ((λ m. elim m.1 [ ]), refl)
mle_fsm_step-Move attach_pending detach_received = inl leave_pending
mle_fsm_step-Move attach_pending detach_complete = inr ((λ m. elim m.1 [ ]), refl)
mle_fsm_step-Move registered demand_received = inl attach_anew
mle_fsm_step-Move registered accept_sent = inr ((λ m. elim m.1 [ ]), refl)
mle_fsm_step-Move registered accept_acked = inr ((λ m. elim m.1 [ ]), refl)
mle_fsm_step-Move registered grp_demand_received = inl groups
mle_fsm_step-Move registered grp_ack_sent = inr ((λ m. elim m.1 [ ]), refl)
mle_fsm_step-Move registered detach_received = inl leave_registered
mle_fsm_step-Move registered detach_complete = inr ((λ m. elim m.1 [ ]), refl)
mle_fsm_step-Move group_attach demand_received = inr ((λ m. elim m.1 [ ]), refl)
mle_fsm_step-Move group_attach accept_sent = inr ((λ m. elim m.1 [ ]), refl)
mle_fsm_step-Move group_attach accept_acked = inr ((λ m. elim m.1 [ ]), refl)
mle_fsm_step-Move group_attach grp_demand_received = inr ((λ m. elim m.1 [ ]), refl)
mle_fsm_step-Move group_attach grp_ack_sent = inl groups_done
mle_fsm_step-Move group_attach detach_received = inl leave_groups
mle_fsm_step-Move group_attach detach_complete = inr ((λ m. elim m.1 [ ]), refl)
mle_fsm_step-Move detaching demand_received = inr ((λ m. elim m.1 [ ]), refl)
mle_fsm_step-Move detaching accept_sent = inr ((λ m. elim m.1 [ ]), refl)
mle_fsm_step-Move detaching accept_acked = inr ((λ m. elim m.1 [ ]), refl)
mle_fsm_step-Move detaching grp_demand_received = inr ((λ m. elim m.1 [ ]), refl)
mle_fsm_step-Move detaching grp_ack_sent = inr ((λ m. elim m.1 [ ]), refl)
mle_fsm_step-Move detaching detach_received = inr ((λ m. elim m.1 [ ]), refl)
mle_fsm_step-Move detaching detach_complete = inl left

-- the state after the events of a list
abbrev pub run : MleState → List MleEvt → MleState
run s [] = s
run s (e ∷ es) = run (mle_fsm_step s e) es

abbrev IsIn : MleState → Type 0
IsIn s = (s ≡ registered) ⊎ (s ≡ group_attach)

-- the event that let a terminal in
entered :
    (s : MleState) (e : MleEvt)
    → IsIn (mle_fsm_step s e)
    → IsIn s ⊎ ((s ≡ attach_pending) × (e ≡ accept_sent))
unfolding mle_fsm_step
entered s e h = ground arith

accepted :
    (s : MleState) (es : List MleEvt)
    → IsIn (run s es)
    → IsIn s
      ⊎ ((pre : List MleEvt) × (post : List MleEvt) × (es ≡ pre ++ (accept_sent ∷ post))
          × (run s pre ≡ attach_pending))
accepted s [] h = inl h
accepted s (e ∷ es) h = elim (accepted (mle_fsm_step s e) es h) [
  | inr (pre, post, at, pending) ↦ inr (e ∷ pre, post, ap (λ l. e ∷ l) at, pending)
  | inl now ↦ elim (entered s e now) [
    | inl before ↦ inl before
    | inr (pending, event) ↦ inr ([], es, ap (λ x. x ∷ es) event, pending)
  ]
]

idle-ne-registered : idle ≢ registered
idle-ne-registered e = cc

idle-ne-group_attach : idle ≢ group_attach
idle-ne-group_attach e = cc

-- A registered terminal was accepted: a run from `idle` that ends registered, or with a group
-- attachment going on, has an accept in it that was sent while an attach was pending.
pub run-registered :
    (es : List MleEvt)
    → (run idle es ≡ registered) ⊎ (run idle es ≡ group_attach)
    → (pre post : List MleEvt) × (es ≡ pre ++ (accept_sent ∷ post))
      × (run idle pre ≡ attach_pending)
run-registered es h = elim (accepted idle es h) [
  | inl (inl e) ↦ absurd (idle-ne-registered e)
  | inl (inr e) ↦ absurd (idle-ne-group_attach e)
  | inr found ↦ found
]

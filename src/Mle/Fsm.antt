-- ===== src/Mle/Fsm.antt =====
-- The registration state machine: sw/mle/mle_fsm.c, with its enums from
-- sw/mle/include/tetra/mle.h.
pub mod Diagram

pub data MleState : Type 0 where
  idle attach_pending registered group_attach detaching : MleState

pub data MleEvt : Type 0 where
  demand_received accept_sent accept_acked grp_demand_received grp_ack_sent detach_received
        detach_complete :
      MleEvt

-- The new state. The `default` of the C code is for a value that is no `MleState`.
unfoldable pub mle_fsm_step : MleState → MleEvt → MleState
mle_fsm_step idle demand_received = attach_pending
mle_fsm_step idle e = idle
mle_fsm_step attach_pending accept_sent = registered
mle_fsm_step attach_pending detach_received = detaching
mle_fsm_step attach_pending e = attach_pending
mle_fsm_step registered grp_demand_received = group_attach
mle_fsm_step registered detach_received = detaching
mle_fsm_step registered demand_received = attach_pending
mle_fsm_step registered e = registered
mle_fsm_step group_attach grp_ack_sent = registered
mle_fsm_step group_attach detach_received = detaching
mle_fsm_step group_attach e = group_attach
mle_fsm_step detaching detach_complete = idle
mle_fsm_step detaching e = detaching

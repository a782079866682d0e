-- ===== src/Cmce/Handling/Reached.antt =====
-- Every run of the entity of sw/cmce/cmce.c, from `cmce_init` on: the messages that MLE hands up,
-- the periodic broadcasts and the ticks of their timer, in any order.
use tetra_bs.Prelude.{
  ℕ, ◌≡◌, refl, sym, ap, ◌∙◌, subst, Bool, true, false, Option, none, some, replicate, get_or,
  get_or-replicate, inl, inr, Bool-cases, Result, ok, err, arith,
}
use tetra_bs.Core.MsgBus.{MsgBus}
use tetra_bs.Core.BitBuffer.Codec.{Step, done, fails, aborts}
use tetra_bs.Llc.{TetraAddress, TleSapMsg, TleLayout}
use tetra_bs.Cmce.{CmceCfg, Cmce, zero_slot, slot, max_calls, nwrk_broadcast, cmce_nwrk_bcast_tick}
use tetra_bs.Cmce.Message.{CmcePdu, zero_pdu}
use tetra_bs.Cmce.Handling.{
  encode, cmce_post_tma_unitdata_req, cmce_handle_tle_msg, cmce_send_d_nwrk_broadcast, cmce_init,
}
use tetra_bs.Cmce.Handling.Shrinks.{same_calls}
use tetra_bs.Cmce.Handling.Answers.{IsBody, post_bits-calls}
use tetra_bs.Cmce.Handling.OneCall.{OneCall, OneCall-Shrinks, cmce_handle_tle_msg-OneCall}

-- The state changes of the entity.
pub data Steps (layout : TleLayout) : Cmce → Cmce → Type 0 where
  handled :
      (cmce : Cmce) (bus : MsgBus) (m : TleSapMsg) (st : (Cmce × MsgBus) × Result (Unit {0}))
      → IsBody m.pdu.body
      → cmce_handle_tle_msg layout cmce bus m ≡ some st
      → Steps layout cmce st.0.0
  broadcast :
      (cmce : Cmce) (bus : MsgBus) (st : (Cmce × MsgBus) × Result (Unit {0}))
      → cmce_send_d_nwrk_broadcast layout cmce bus ≡ some st
      → Steps layout cmce st.0.0
  ticked : (cmce : Cmce) (now : ℕ) → Steps layout cmce (cmce_nwrk_bcast_tick cmce now).0

pub data Reached (layout : TleLayout) : Cmce → Type 0 where
  started :
      (bus : MsgBus) (cfg : Option CmceCfg) (handler : ℕ)
      → Reached layout (cmce_init bus cfg handler).0.0
  stepped : (cmce c : Cmce) → Reached layout cmce → Steps layout cmce c → Reached layout c

cmce_init-calls :
    (bus : MsgBus) (cfg : Option CmceCfg) (handler : ℕ)
    → (cmce_init bus cfg handler).0.0.calls ≡ replicate max_calls zero_slot
unfolding cmce_init
cmce_init-calls bus cfg handler = ground arith

no_call :
    (cmce : Cmce)
    → cmce.calls ≡ replicate max_calls zero_slot
    → (i : ℕ) → (slot cmce i).in_use ≡ false
no_call cmce e i =
    ap (λ cs. (get_or cs i zero_slot).in_use) e
    ∙ ap (λ s. s.in_use) (get_or-replicate max_calls i zero_slot)

started-OneCall : (cmce : Cmce) → cmce.calls ≡ replicate max_calls zero_slot → OneCall cmce
started-OneCall cmce e = record {
  zero_id = λ i used. let free = no_call cmce e i in absurd (ground arith);
  single = λ i j used used'. let free = no_call cmce e i in absurd (ground arith);
}

ticked-calls : (cmce : Cmce) (now : ℕ) → (cmce_nwrk_bcast_tick cmce now).0.calls ≡ cmce.calls
unfolding cmce_nwrk_bcast_tick
ticked-calls cmce now = ground arith

-- What a function that leaves the calls alone returns, if no assertion fails.
abbrev KeepsCalls : Cmce → Option ((Cmce × MsgBus) × Result (Unit {0})) → Type 0
KeepsCalls cmce none = Unit
KeepsCalls cmce (some st) = st.0.0.calls ≡ cmce.calls

module _ (layout : TleLayout) (cmce : Cmce) (bus : MsgBus) where
  post-KeepsCalls :
      (ep : ℕ) (addr : TetraAddress) (p : CmcePdu) (u : Bool)
      → KeepsCalls cmce (cmce_post_tma_unitdata_req layout cmce bus ep addr p u)
  unfolding cmce_post_tma_unitdata_req
  post-KeepsCalls ep addr p u = elim (Bool-cases cmce.initialised) [
    | inr down ↦ simp (down, KeepsCalls, cmce_post_tma_unitdata_req)
    | inl up ↦ by_encode up (encode p.pdu_type p u) refl
  ]
    where
      by_encode :
          cmce.initialised ≡ true
          → (r : Step ℕ) → encode p.pdu_type p u ≡ r
          → KeepsCalls cmce (cmce_post_tma_unitdata_req layout cmce bus ep addr p u)
      by_encode up (done n bb) e =
          simp (up, e, KeepsCalls, cmce_post_tma_unitdata_req)
            (post_bits-calls layout cmce bus ep addr n bb.buffer)
      by_encode up (fails n bb) e = simp (up, e, KeepsCalls, cmce_post_tma_unitdata_req)
      by_encode up aborts e = simp (up, e, KeepsCalls, cmce_post_tma_unitdata_req) tt

  send-KeepsCalls : KeepsCalls cmce (cmce_send_d_nwrk_broadcast layout cmce bus)
  unfolding cmce_send_d_nwrk_broadcast
  send-KeepsCalls = elim (Bool-cases cmce.initialised) [
    | inr down ↦ simp (down, KeepsCalls, cmce_send_d_nwrk_broadcast)
    | inl up ↦
        by_post up (cmce_post_tma_unitdata_req layout cmce bus 1 everyone message false) refl
          (post-KeepsCalls 1 everyone message false)
  ]
    where
      everyone : TetraAddress
      everyone = record { ssi = 0xffffff; ssi_type = 1 }

      message : CmcePdu
      message = record zero_pdu {
        pdu_type = nwrk_broadcast;
        nwrk_cell_re_select_parameters = cmce.cfg.cell_re_select_parameters_seed;
        nwrk_cell_load_ca = cmce.cfg.cell_load_ca;
      }

      by_post :
          cmce.initialised ≡ true
          → (r : Option ((Cmce × MsgBus) × Result (Unit {0})))
          → cmce_post_tma_unitdata_req layout cmce bus 1 everyone message false ≡ r
          → KeepsCalls cmce r
          → KeepsCalls cmce (cmce_send_d_nwrk_broadcast layout cmce bus)
      by_post up none e h = simp (up, e, KeepsCalls, cmce_send_d_nwrk_broadcast) tt
      by_post up (some ((c, b), err n)) e h = simp (up, e, KeepsCalls, cmce_send_d_nwrk_broadcast) h
      by_post up (some ((c, b), ok x)) e h = simp (up, e, KeepsCalls, cmce_send_d_nwrk_broadcast) h

abbrev Answered : Option ((Cmce × MsgBus) × Result (Unit {0})) → Type 0
Answered none = Unit
Answered (some st) = OneCall st.0.0

Steps-OneCall :
    (layout : TleLayout) (cmce c : Cmce) → Steps layout cmce c → OneCall cmce → OneCall c
Steps-OneCall layout cmce c (handled _ bus m st body e) one =
    let (st', e', kept) = cmce_handle_tle_msg-OneCall layout cmce bus m body one in
    subst (λ o. Answered o) (sym e' ∙ e) kept
Steps-OneCall layout cmce c (broadcast _ bus st e) one =
    let kept : st.0.0.calls ≡ cmce.calls =
      subst (KeepsCalls cmce) e (send-KeepsCalls layout cmce bus) in
    OneCall-Shrinks cmce st.0.0 (same_calls cmce st.0.0 kept) one
Steps-OneCall layout cmce c (ticked _ now) one =
    let c = (cmce_nwrk_bcast_tick cmce now).0 in
    OneCall-Shrinks cmce c (same_calls cmce c (ticked-calls cmce now)) one

-- However the entity is run from `cmce_init` on, it has at most one call, and every call has the
-- identifier 0.
pub Reached-OneCall : (layout : TleLayout) (cmce : Cmce) → Reached layout cmce → OneCall cmce
Reached-OneCall layout cmce (started bus cfg handler) =
    started-OneCall cmce (cmce_init-calls bus cfg handler)
Reached-OneCall layout cmce (stepped before _ r s) =
    Steps-OneCall layout before cmce s (Reached-OneCall layout before r)

-- ===== src/Mle/Handling/Requests.antt =====
-- A message of MM from a terminal: the session that it has or gets, the event for its state
-- machine, and the request that MM is sent.
use tetra_bs.Prelude.{
  ℕ, ◌+◌, ◌<◌, ◌≡◌, ◌≢◌, ◌⊎◌, inl, inr, refl, sym, ap, ◌∙◌, Option, none, some, List, get_or, set,
  length, length-set, get_or-set_self, get_or-set_ne, Result, ok, ◌==◌, if◌then◌else◌, arith,
  Bool-cases, subst,
}
use tetra_bs.Core.Sap.{prio_normal}
use tetra_bs.Core.MsgBus.{MsgBus, msgbus_post, size}
use tetra_bs.Llc.{TleSapMsg}
use tetra_bs.Mle.Fsm.{MleEvt, demand_received, grp_demand_received, detach_received, mle_fsm_step}
use tetra_bs.Mle.{
  Mle, MleSession, MleStats, MleUses, zero_session, session, refresh, set_endpoint, step_session,
  maybe_auto_enroll, refresh_session_from_db, count_step, drive_fsm, forward_mm_request, mm_request,
  handle_with_session,
}
use tetra_bs.Mle.Handling.Keys.{
  SameKeys, SameKeys-trans, SameKeys-set, refresh_session_from_db-Refreshed,
  maybe_auto_enroll_sessions,
}

-- The event that a type of message stands for.
abbrev pub event_of : ℕ → Option MleEvt
event_of t =
    if t == 2
    then some demand_received
    else if t == 7
    then some grp_demand_received
    else if t == 6
    then some detach_received
    else none

-- the counters after the event
stats_after : MleStats → ℕ → MleStats
stats_after st t = count_step (
    if t == 2
    then record st { demands_received = size (st.demands_received + 1) }
    else if t == 7
    then record st { grp_demands_received = size (st.grp_demands_received + 1) }
    else st)

drive_fsm_lem :
    (mle : Mle) (i t : ℕ)
    → ((e : MleEvt) × (event_of t ≡ some e)
        × (drive_fsm mle i t
            ≡ some (record (step_session mle i e) { stats = stats_after mle.stats t })))
      ⊎ ((event_of t ≡ none) × (drive_fsm mle i t ≡ none))
unfolding drive_fsm stats_after
drive_fsm_lem mle i t = elim (Bool-cases (t == 2)) [
  | inl two ↦ inl (demand_received, rw two refl, rw two refl)
  | inr not_two ↦ elim (Bool-cases (t == 7)) [
    | inl seven ↦ inl (grp_demand_received, rw (not_two, seven) refl, rw (not_two, seven) refl)
    | inr not_seven ↦ elim (Bool-cases (t == 6)) [
      | inl six ↦
          inl
            (detach_received, rw (not_two, not_seven, six) refl, rw (not_two, not_seven, six) refl)
      | inr not_six ↦
          inr (rw (not_two, not_seven, not_six) refl, rw (not_two, not_seven, not_six) refl)
    ]
  ]
]

-- The session `i` before its event: the endpoint noted and the profile's values refreshed.
record Prepared (mle : Mle) (i endpoint : ℕ) (mle' : Mle) : Type 0 where
  keys : SameKeys mle.sessions mle'.sessions
  state : (session mle' i).state ≡ (session mle i).state
  noted : (session mle' i).endpoint ≡ endpoint
  others : (k : ℕ) → k ≢ i → session mle' k ≡ session mle k

prepared_lem :
    (mle : Mle) (i endpoint issi : ℕ)
    → i < length mle.sessions
    → Prepared mle i endpoint (refresh (maybe_auto_enroll (set_endpoint mle i endpoint) issi).0 i)
prepared_lem mle i endpoint issi lt =
    let s : MleSession = (let x = session mle i in record x { endpoint = endpoint }) in
    let ss : List MleSession = set mle.sessions i s in
    let mid : Mle = (maybe_auto_enroll (set_endpoint mle i endpoint) issi).0 in
    let same : mid.sessions ≡ ss = maybe_auto_enroll_sessions (set_endpoint mle i endpoint) issi in
    let there : get_or ss i zero_session ≡ s = get_or-set_self mle.sessions i s zero_session lt in
    let here : session mid i ≡ s = ap (λ l. get_or l i zero_session) same ∙ there in
    let fresh = refresh_session_from_db-Refreshed mid.db (session mid i) in
    let r : MleSession = (refresh_session_from_db mid.db (session mid i)).0 in
    let lt_ss : i < length ss = omega (arith, length-set mle.sessions i s) in
    let lt_mid : i < length mid.sessions = omega (arith, ap (length {A = MleSession}) same) in
    let at : get_or (set mid.sessions i r) i zero_session ≡ r =
      get_or-set_self mid.sessions i r zero_session lt_mid in
    record {
      keys =
          SameKeys-trans mle.sessions mid.sessions (set mid.sessions i r)
            (subst (SameKeys mle.sessions) (sym same) (SameKeys-set mle.sessions i s lt refl refl))
            (SameKeys-set mid.sessions i r lt_mid fresh.in_use fresh.issi);
      state = ap (λ x. x.state) at ∙ fresh.state ∙ ap (λ x. x.state) here;
      noted = ap (λ x. x.endpoint) at ∙ fresh.endpoint ∙ ap (λ x. x.endpoint) here;
      others = λ k ne.
          get_or-set_ne mid.sessions {i = i} {j = k} r zero_session (λ e. ne (sym e))
          ∙ ap (λ l. get_or l k zero_session) same
          ∙ get_or-set_ne mle.sessions {i = i} {j = k} s zero_session (λ e. ne (sym e));
    }

module _ (uses : MleUses) where
  open uses use {MmDecoded, pdu_type, tla_bytes, tla_size}

  -- What the handling of a decoded message does once the session `i` is known.
  pub record Handled (mle : Mle) (bus : MsgBus) (m : TleSapMsg) (decoded : MmDecoded) (i : ℕ)
      (after : (Mle × MsgBus) × Result (Unit {0})) : Type 0 where
    pub keys : SameKeys mle.sessions after.0.0.sessions
    pub noted : (session after.0.0 i).endpoint ≡ m.endpoint
    pub others : (k : ℕ) → k ≢ i → session after.0.0 k ≡ session mle k
    pub event :
        (e : MleEvt)
        → event_of (pdu_type decoded) ≡ some e
        → ((session after.0.0 i).state ≡ mle_fsm_step (session mle i).state e)
          × ((after.0.1, after.1)
              ≡ msgbus_post bus prio_normal (mm_request uses m.endpoint m.addr decoded))
    pub no_event :
        event_of (pdu_type decoded) ≡ none
        → ((session after.0.0 i).state ≡ (session mle i).state)
          × (after.0.1 ≡ bus)
          × (after.1 ≡ ok tt)

  some-injective : (a b : MleEvt) → some a ≡ some b → a ≡ b
  some-injective a b e = cc

  none-ne-some : (a : MleEvt) → none ≢ some a
  none-ne-some a e = cc

  pub handle_with_session_lem :
      (mle : Mle) (bus : MsgBus) (m : TleSapMsg) (decoded : MmDecoded) (i : ℕ)
      → i < length mle.sessions
      → Handled mle bus m decoded i (handle_with_session uses mle bus m decoded i)
  unfolding handle_with_session forward_mm_request
  handle_with_session_lem mle bus m decoded i lt =
      let ready : Mle =
        refresh (maybe_auto_enroll (set_endpoint mle i m.endpoint) m.addr.ssi).0 i in
      let v = prepared_lem mle i m.endpoint m.addr.ssi lt in
      elim (drive_fsm_lem ready i (pdu_type decoded)) [
        | inr (no_event, driven) ↦
            rw (driven, handle_with_session)
              (record {
                keys = v.keys;
                noted = v.noted;
                others = v.others;
                event = λ e is. absurd (none-ne-some e (sym no_event ∙ is));
                no_event = λ _. (v.state, refl, refl);
              })
        | inl (e, is_event, driven) ↦
            let lt' : i < length ready.sessions = omega (arith, v.keys.size) in
            let s : MleSession =
              (let x = session ready i in record x { state = mle_fsm_step x.state e }) in
            let at : get_or (set ready.sessions i s) i zero_session ≡ s =
              get_or-set_self ready.sessions i s zero_session lt' in
            rw (driven, handle_with_session)
              (record {
                keys =
                    SameKeys-trans mle.sessions ready.sessions (set ready.sessions i s) v.keys
                      (SameKeys-set ready.sessions i s lt' refl refl);
                noted = ap (λ x. x.endpoint) at ∙ v.noted;
                others = λ k ne.
                    get_or-set_ne ready.sessions {i = i} {j = k} s zero_session (λ q. ne (sym q))
                    ∙ v.others k ne;
                event = λ f is.
                    let same : e ≡ f = some-injective e f (sym is_event ∙ is) in
                    (ap (λ x. x.state) at ∙ (λ t. mle_fsm_step (v.state t) (same t)), refl);
                no_event = λ nil. absurd (none-ne-some e (sym nil ∙ is_event));
              })
      ]

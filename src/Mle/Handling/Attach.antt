-- ===== src/Mle/Handling/Attach.antt =====
-- How a terminal attaches, what MM's answer does to its session, and how the entity starts.
use tetra_bs.Prelude.{
  length-set, lt-or-le, enospc, get_or, ◌+◌, ℕ, ◌*◌, ◌≤◌, ◌<◌, ◌≡◌, ◌≢◌, ◌⊎◌, inl, inr, refl, sym,
  ap, ◌∙◌, true, false, Option, none, some, List, [], ◌∷◌, ◌++◌, set, replicate, length,
  length-replicate, get_or-set_self, get_or-set_ne, get_or-replicate, Result, ok, err, enoent, ◌==◌,
  if◌then◌else◌, arith, Bool-cases, Option-cases,
}
use tetra_bs.Core.Sap.{prio_normal, tma_sap, tle_sap, tnmm_sap}
use tetra_bs.Core.MsgBus.{MsgBus, queue, msgbus_register}
use tetra_bs.Core.MsgBus.Queue.{contents, letter}
use tetra_bs.Core.MsgBus.{MsgBusReg, zero_reg, reg_cap}
use tetra_bs.Core.MsgBus.Bus.{
  msgbus_register_accepted, msgbus_register_full, IsBus, Grows, Grows-trans, msgbus_post_accepted,
  msgbus_register-Grows,
}
use tetra_bs.Persistence.Db.{SubscriberDb}
use tetra_bs.Llc.{TleSapMsg, body_max_bytes}
use tetra_bs.Mle.Fsm.{
  attach_pending, MleEvt, demand_received, accept_sent, grp_ack_sent, detach_complete, mle_fsm_step,
}
use tetra_bs.Mle.{
  Mle, MleCfg, MleSession, MleStats, MleUses, zero_session, session, session_max, mask_24,
  TlaSapPayload, strip_mle_pd, mm_request, handle_with_session, handle_mm_pdu, mle_handle_tle_msg,
  mle_handle_tla_msg, feed_back, step_session, mle_session_alloc, mle_session_lookup, mle_init,
  lookup_from,
}
use tetra_bs.Mle.Sessions.{IsTable, mle_session_alloc_lem, lookup-Holds, lookup_from_lem}
use tetra_bs.Mle.Handling.Keys.{SameKeys-set, IsTable-SameKeys, Holds-SameKeys}
use tetra_bs.Mle.Handling.Requests.{event_of, handle_with_session_lem}
use tetra_bs.Mle.Handling.Messages.{HasLayout, mm_pdu_session, SameKeys-sym}

true-ne-false : true ≢ false
true-ne-false e = cc

module _ (uses : MleUses) where
  open uses use {MmDecoded, pdu_type, mm_iep_decode, tla_bytes, tla_size}

  tle_is_mm :
      (mle : Mle) (bus : MsgBus) (m : TleSapMsg) (body : List ℕ) (bits : ℕ)
      → mle.initialised ≡ true
      → strip_mle_pd m.pdu (body_max_bytes * 8) ≡ ok (1, body, bits)
      → mle_handle_tle_msg uses mle bus m ≡ handle_mm_pdu uses mle bus m body bits
  unfolding mle_handle_tle_msg
  tle_is_mm mle bus m body bits on stripped = ground (arith, on, stripped)

  -- The attach of a terminal: if a location update demand arrives from a terminal that has no
  -- session while a slot is free and the bus has room, then the terminal has a session in
  -- ATTACH_PENDING, a request to MM stands last in the queue of normal priority, and the entity
  -- reports success. What the database and the policy for unknown terminals say plays no part.
  pub mle_handle_tle_msg_attach :
      (mle : Mle) (bus : MsgBus) (m : TleSapMsg) (body : List ℕ) (bits k : ℕ) (decoded : MmDecoded)
      → HasLayout uses
      → IsTable mle.sessions
      → IsBus bus
      → mle.initialised ≡ true
      → strip_mle_pd m.pdu (body_max_bytes * 8) ≡ ok (1, body, bits)
      → mm_iep_decode body bits ≡ ok decoded
      → pdu_type decoded ≡ 2
      → mle_session_lookup mle m.addr.ssi ≡ none
      → k < session_max
      → (session mle k).in_use ≡ false
      → tla_size ≤ (queue bus prio_normal).max_payload
      → (queue bus prio_normal).count < (queue bus prio_normal).cap
      → let ((mle', bus'), rc) = mle_handle_tle_msg uses mle bus m in
        (i : ℕ) × (mle_session_lookup mle' m.addr.ssi ≡ some i)
        × ((session mle' i).state ≡ attach_pending)
        × (contents (queue bus' prio_normal)
            ≡ contents (queue bus prio_normal)
              ++ (letter (mm_request uses m.endpoint m.addr decoded) ∷ []))
        × (rc ≡ ok tt)
  unfolding mle_session_lookup mle_fsm_step
  mle_handle_tle_msg_attach mle bus m body bits k decoded layout v vb on stripped good demand
        unknown lt free fits room =
      let mid : Mle = (mle_session_alloc mle m.addr.ssi).0 in
      let a = mle_session_alloc_lem mle m.addr.ssi v in
      elim (Option-cases (mle_session_alloc mle m.addr.ssi).1) [
        | inl full ↦ absurd (true-ne-false (sym ((a.full full).1 k lt) ∙ free))
        | inr (i, slot) ↦
            let holds = (a.found i slot).1 in
            let h = handle_with_session_lem uses mid bus m decoded i holds.0 in
            let after : (Mle × MsgBus) × Result (Unit {0}) =
              handle_with_session uses mid bus m decoded i in
            let is : event_of (pdu_type decoded) ≡ some demand_received = ap event_of demand in
            let here =
              lookup-Holds after.0.0.sessions i (mask_24 m.addr.ssi)
                (IsTable-SameKeys mid.sessions _ h.keys a.table)
                (Holds-SameKeys after.0.0.sessions mid.sessions i _
                  (SameKeys-sym mid.sessions _ h.keys) holds) in
            let state =
              (h.event demand_received is).0
              ∙ ap (λ s. mle_fsm_step s.state demand_received) (a.fresh i unknown slot) in
            let posted = (h.event demand_received is).1 in
            let sent =
              msgbus_post_accepted bus prio_normal (mm_request uses m.endpoint m.addr decoded) vb
                (inr (_, refl, layout _)) (omega arith) refl refl fits room in
            rw
              (
                tle_is_mm mle bus m body bits on stripped,
                mm_pdu_session uses mle bus m body bits decoded i good slot,
              )
              (
                i,
                here,
                state,
                ap (λ r. contents (queue r.0 prio_normal)) posted ∙ sent.1,
                ap (λ r. r.1) posted ∙ sent.0,
              )
      ]

  -- The event that an answer of MM stands for.
  abbrev pub answer_of : ℕ → Option MleEvt
  answer_of t =
      if t == 2
      then some accept_sent
      else if t == 7
      then some grp_ack_sent
      else if t == 6
      then some detach_complete
      else none

  -- What an answer does to the session `i`.
  pub record Answered (mle : Mle) (i t : ℕ) (mle' : Mle) : Type 0 where
    pub table : IsTable mle'.sessions
    pub others : (k : ℕ) → k ≢ i → session mle' k ≡ session mle k
    pub event :
        (e : MleEvt)
        → answer_of t ≡ some e
        → (session mle' i).state ≡ mle_fsm_step (session mle i).state e
    pub no_event : answer_of t ≡ none → mle' ≡ mle

  some-injective : (a b : MleEvt) → some a ≡ some b → a ≡ b
  some-injective a b e = cc

  none-ne-some : (a : MleEvt) → none ≢ some a
  none-ne-some a e = cc

  stepped :
      (mle : Mle) (i t : ℕ) (e : MleEvt) (st : MleStats)
      → i < length mle.sessions
      → IsTable mle.sessions
      → answer_of t ≡ some e
      → Answered mle i t (record (step_session mle i e) { stats = st })
  stepped mle i t e st lt v is =
      let s : MleSession = (let x = session mle i in record x { state = mle_fsm_step x.state e }) in
      record {
        table =
            IsTable-SameKeys mle.sessions (set mle.sessions i s)
              (SameKeys-set mle.sessions i s lt refl refl) v;
        others =
            λ k ne. get_or-set_ne mle.sessions {i = i} {j = k} s zero_session (λ q. ne (sym q));
        event = λ f this.
            ap (λ x. x.state) (get_or-set_self mle.sessions i s zero_session lt)
            ∙ ap (mle_fsm_step (session mle i).state) (some-injective e f (sym is ∙ this));
        no_event = λ nil. absurd (none-ne-some e (sym nil ∙ is));
      }

  feed_back_lem :
      (mle : Mle) (i t : ℕ)
      → i < length mle.sessions
      → IsTable mle.sessions
      → Answered mle i t (feed_back mle i t)
  unfolding feed_back
  feed_back_lem mle i t lt v = elim (Bool-cases (t == 2)) [
    | inl two ↦ rw two (stepped mle i t accept_sent _ lt v (rw two refl))
    | inr not_two ↦ elim (Bool-cases (t == 7)) [
      | inl seven ↦
          rw (not_two, seven) (stepped mle i t grp_ack_sent _ lt v (rw (not_two, seven) refl))
      | inr not_seven ↦ elim (Bool-cases (t == 6)) [
        | inl six ↦
            rw (not_two, not_seven, six)
              (stepped mle i t detach_complete _ lt v (rw (not_two, not_seven, six) refl))
        | inr not_six ↦
            let nil : answer_of t ≡ none = rw (not_two, not_seven, not_six) refl in
            rw (not_two, not_seven, not_six)
              (record {
                table = v;
                others = λ k ne. refl;
                event = λ e is. absurd (none-ne-some e (sym nil ∙ is));
                no_event = λ _. refl;
              })
      ]
    ]
  ]

  tla_unknown :
      (mle : Mle) (m : TlaSapPayload MmDecoded)
      → mle.initialised ≡ true
      → mle_session_lookup mle m.addr.ssi ≡ none
      → mle_handle_tla_msg uses mle m ≡ (mle, err enoent)
  unfolding mle_handle_tla_msg
  tla_unknown mle m on e = ground (arith, on, e)

  tla_known :
      (mle : Mle) (m : TlaSapPayload MmDecoded) (i : ℕ)
      → mle.initialised ≡ true
      → mle_session_lookup mle m.addr.ssi ≡ some i
      → mle_handle_tla_msg uses mle m ≡ (feed_back mle i (pdu_type m.decoded), ok tt)
  unfolding mle_handle_tla_msg
  tla_known mle m i on e = ground (arith, on, e)

  -- MM's answer: without a session of the terminal it is refused with ENOENT and nothing changes;
  -- otherwise the terminal's session takes the event of the answer's type, no other session
  -- changes, and the table stays well-formed.
  pub mle_handle_tla_msg_lem :
      (mle : Mle) (m : TlaSapPayload MmDecoded)
      → mle.initialised ≡ true
      → IsTable mle.sessions
      → ((mle_session_lookup mle m.addr.ssi ≡ none)
          × (mle_handle_tla_msg uses mle m ≡ (mle, err enoent)))
        ⊎ ((i : ℕ) × (mle_session_lookup mle m.addr.ssi ≡ some i)
            × ((mle_handle_tla_msg uses mle m).1 ≡ ok tt)
            × Answered mle i (pdu_type m.decoded) (mle_handle_tla_msg uses mle m).0)
  unfolding mle_session_lookup
  mle_handle_tla_msg_lem mle m on v = elim (lookup_from_lem mle.sessions 0 (mask_24 m.addr.ssi)) [
    | inl (nil, _) ↦ inl (nil, tla_unknown mle m on nil)
    | inr (i, at, holds) ↦
        let here = lookup-Holds mle.sessions i (mask_24 m.addr.ssi) v holds in
        rw (tla_known mle m i on here)
          (inr (i, here, refl, feed_back_lem mle i (pdu_type m.decoded) holds.0 v))
  ]

pub empty-IsTable : IsTable (replicate session_max zero_session)
empty-IsTable = record {
  size = length-replicate session_max zero_session;
  masked = λ i. rw (get_or-replicate session_max i zero_session) (omega arith);
  unique = λ i j issi h g.
      absurd (
        true-ne-false (sym h.1 ∙ ap (λ x. x.in_use) (get_or-replicate session_max i zero_session)));
}

empty_lookup : (issi : ℕ) → lookup_from (replicate session_max zero_session) 0 issi ≡ none
empty_lookup issi = elim (lookup_from_lem (replicate session_max zero_session) 0 issi) [
  | inl (nil, _) ↦ nil
  | inr (j, _, holds) ↦ absurd (
      true-ne-false
        (sym holds.1 ∙ ap (λ x. x.in_use) (get_or-replicate session_max j zero_session)))
]

-- `bus'` is `bus` with the two registrations of MLE behind the ones it had: the handler `tle` for
-- messages from the lower layers, `tla` for those of MM.
abbrev pub Registered : MsgBus → ℕ → ℕ → MsgBus → Type 0
Registered bus tle tla bus' =
    (bus'.reg_count ≡ bus.reg_count + 2)
    × (get_or bus'.regs bus.reg_count zero_reg
        ≡ record { dest = tma_sap; sap = tle_sap; handler = tle; active = true })
    × (get_or bus'.regs (bus.reg_count + 1) zero_reg
        ≡ record { dest = tma_sap; sap = tnmm_sap; handler = tla; active = true })
    × ((k : ℕ) → k < bus.reg_count → get_or bus'.regs k zero_reg ≡ get_or bus.regs k zero_reg)

both_accepted :
    (bus : MsgBus) (tle tla : ℕ)
    → IsBus bus
    → bus.reg_count + 2 ≤ reg_cap
    → let (bus1, rc1) = msgbus_register bus tma_sap tle_sap tle in
      let (bus2, rc2) = msgbus_register bus1 tma_sap tnmm_sap tla in
      (rc1 ≡ ok tt) × (rc2 ≡ ok tt) × Registered bus tle tla bus2
both_accepted bus tle tla v room =
    let n : ℕ = bus.reg_count in
    let a : MsgBusReg = record { dest = tma_sap; sap = tle_sap; handler = tle; active = true } in
    let b : MsgBusReg = record { dest = tma_sap; sap = tnmm_sap; handler = tla; active = true } in
    let one = msgbus_register_accepted bus tma_sap tle_sap tle v.ready refl (omega arith) in
    let bus1 : MsgBus = record bus { regs = set bus.regs n a; reg_count = n + 1 } in
    let two = msgbus_register_accepted bus1 tma_sap tnmm_sap tla v.ready refl (omega arith) in
    rw (one, two)
      (
        refl,
        refl,
        (
          omega arith,
          get_or-set_ne bus1.regs {i = n + 1} {j = n} b zero_reg (λ e. absurd (omega arith))
              ∙ get_or-set_self bus.regs n a zero_reg (omega (arith, v.table)),
          get_or-set_self bus1.regs (n + 1) b zero_reg
              (omega (arith, v.table, length-set bus.regs n a)),
          λ k lt.
              get_or-set_ne bus1.regs {i = n + 1} {j = k} b zero_reg (λ e. absurd (omega arith))
              ∙ get_or-set_ne bus.regs {i = n} {j = k} a zero_reg (λ e. absurd (omega arith)),
        ),
      )

-- The start on a well-formed bus: the table of sessions is well-formed and empty, and the bus stays well-formed and loses
-- no message. If the bus has room for two registrations, success is reported, the entity is
-- initialised, and the handlers for TLE and for TLA are registered for TmaSap on TleSap and for
-- TmaSap on TnmmSap, behind the registrations the bus had, which stay. If it has not, the start
-- reports ENOSPC and the entity is not initialised.
pub mle_init_lem :
    (bus : MsgBus) (db : Option SubscriberDb) (cfg : Option MleCfg) (tle tla : ℕ)
    → IsBus bus
    → let ((mle, bus'), rc) = mle_init bus db cfg tle tla in
      IsTable mle.sessions
      × ((issi : ℕ) → mle_session_lookup mle issi ≡ none)
      × Grows bus bus'
      × (((bus.reg_count + 2 ≤ reg_cap)
            × (rc ≡ ok tt)
            × (mle.initialised ≡ true)
            × Registered bus tle tla bus')
          ⊎ ((reg_cap < bus.reg_count + 2) × (rc ≡ err enospc) × (mle.initialised ≡ false)))
unfolding mle_init mle_session_lookup
mle_init_lem bus db cfg tle tla v =
    let bus1 = (msgbus_register bus tma_sap tle_sap tle).0 in
    let g1 = msgbus_register-Grows bus tma_sap tle_sap tle v in
    let g2 = Grows-trans bus bus1 _ g1 (msgbus_register-Grows bus1 tma_sap tnmm_sap tla g1.valid) in
    let no_session : (issi : ℕ)
        → lookup_from (replicate session_max zero_session) 0 (mask_24 issi) ≡ none =
      λ issi. empty_lookup (mask_24 issi) in
    elim (lt-or-le bus.reg_count reg_cap) [
      | inr full ↦
          let bad = msgbus_register_full bus tma_sap tle_sap tle v.ready refl full in
          rw (bad, mle_init) (empty-IsTable, no_session, g1, inr (omega arith, refl, refl))
      | inl room ↦ elim (lt-or-le (bus.reg_count + 1) reg_cap) [
        | inl more ↦
            let (one, two, reg) = both_accepted bus tle tla v (omega arith) in
            rw (one, two, mle_init)
              (empty-IsTable, no_session, g2, inl (omega arith, refl, refl, reg))
        | inr none_left ↦
            let one = msgbus_register_accepted bus tma_sap tle_sap tle v.ready refl room in
            let two =
              msgbus_register_full bus1 tma_sap tnmm_sap tla (rw one v.ready) refl
                (rw one none_left) in
            rw (ap (λ x. x.1) one, two, mle_init)
              (empty-IsTable, no_session, g2, inr (omega arith, refl, refl))
      ]
    ]

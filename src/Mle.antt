-- ===== src/Mle.antt =====
-- The mobility link entity: sw/mle/mle.c, with the types of sw/mle/include/tetra/mle.h and the
-- envelope `TlaSapPayload` of sw/mm/include/tetra/mm.h. The decoder of MM messages, `mm_iep_decode`
-- of sw/mm, and the layout that the compiler gives the envelopes are a parameter, `MleUses`. The
-- bus and the database that C reaches through pointers are handed in and out.
pub mod Fsm
pub mod Sessions
pub mod Enrolment
pub mod Handling
mod Tests
use tetra_bs.Prelude.{
  ℕ, zero, suc, ◌+◌, ◌-◌, ◌*◌, ◌/◌, ◌%◌, ◌^◌, ◌≡◌, Bool, true, false, not, ◌&&◌, ◌||◌, Option, none,
  some, List, [], ◌∷◌, get_or, set, replicate, length, bit_or, ltb, leb, ◌==◌, if◌then◌else◌,
  Result, ok, err, einval, enospc, eproto, enoent,
}
use tetra_bs.Core.Sap.{SapMsg, tma_sap, tle_sap, tlmc_sap, tnmm_sap, sap_prio_default}
use tetra_bs.Core.MsgBus.{MsgBus, msgbus_register, msgbus_post, size}
use tetra_bs.Persistence.Profile.{Profile}
use tetra_bs.Persistence.Db.{
  Entity, SubscriberDb, entity_count, db_lookup_entity, db_get_entity, db_get_profile,
  db_put_entity,
}
use tetra_bs.Llc.{TetraAddress, LlcPdu, TleSapMsg, body_max_bytes}
use tetra_bs.Mle.Fsm.{
  MleState, idle, MleEvt, demand_received, accept_sent, grp_demand_received, grp_ack_sent,
  detach_received, detach_complete, mle_fsm_step,
}

abbrev pub session_max : ℕ
session_max = 16

pub record MleSession : Type 0 where
  pub in_use : Bool
  pub issi : ℕ
  pub endpoint : ℕ
  pub state : MleState
  pub gila_class : ℕ
  pub gila_lifetime : ℕ
  pub pending_giu_count : ℕ
  pub fallback_gssi : ℕ

abbrev pub zero_session : MleSession
zero_session = record {
  in_use = false;
  issi = 0;
  endpoint = 0;
  state = idle;
  gila_class = 0;
  gila_lifetime = 0;
  pending_giu_count = 0;
  fallback_gssi = 0;
}

pub record MleCfg : Type 0 where
  pub accept_unknown : Bool
  pub default_profile_id : ℕ
  pub fallback_gssi : ℕ

pub record MleStats : Type 0 where
  pub demands_received : ℕ
  pub accepts_sent : ℕ
  pub grp_demands_received : ℕ
  pub grp_acks_sent : ℕ
  pub lookups_failed : ℕ
  pub fsm_transitions : ℕ

-- A NULL `db` is `none`.
pub record Mle : Type 0 where
  pub db : Option SubscriberDb
  pub cfg : MleCfg
  pub sessions : List MleSession
  pub stats : MleStats
  pub initialised : Bool

-- `issi & TETRA_SSI_MASK_24`
abbrev pub mask_24 : ℕ → ℕ
mask_24 issi = issi % 2 ^ 24

-- The loop of `mle_session_lookup`, from index `i` on; a session is known by its index.
unfoldable pub lookup_from : List MleSession → ℕ → ℕ → Option ℕ
lookup_from [] i issi = none
lookup_from (s ∷ ss) i issi =
    let rest = lookup_from ss (i + 1) issi in if s.in_use && s.issi == issi then some i else rest

unfoldable pub mle_session_lookup : Mle → ℕ → Option ℕ
mle_session_lookup mle issi = lookup_from mle.sessions 0 (mask_24 issi)

-- The loop of `mle_session_alloc`
unfoldable pub free_from : List MleSession → ℕ → Option ℕ
free_from [] i = none
free_from (s ∷ ss) i = let rest = free_from ss (i + 1) in if not s.in_use then some i else rest

abbrev pub fresh_session : Mle → ℕ → MleSession
fresh_session mle issi = record {
  in_use = true;
  issi = issi;
  endpoint = 0;
  state = idle;
  gila_class = 4;
  gila_lifetime = 1;
  pending_giu_count = 0;
  fallback_gssi = mle.cfg.fallback_gssi;
}

unfoldable pub mle_session_alloc : Mle → ℕ → Mle × Option ℕ
mle_session_alloc mle issi = elim (mle_session_lookup mle issi) [
  | some i ↦ (mle, some i)
  | none ↦ elim (free_from mle.sessions 0) [
    | none ↦ (mle, none)
    | some i ↦
        (record mle { sessions = set mle.sessions i (fresh_session mle (mask_24 issi)) }, some i)
  ]
]

abbrev pub session : Mle → ℕ → MleSession
session mle i = get_or mle.sessions i zero_session

abbrev pub put_session : Mle → ℕ → MleSession → Mle
put_session mle i s = record mle { sessions = set mle.sessions i s }

abbrev pub with_profile : MleSession → Result Profile → MleSession × Bool
with_profile s (err e) = (s, false)
with_profile s (ok p) =
    if not p.valid
    then (s, false)
    else (record s { gila_class = p.gila_class; gila_lifetime = p.gila_lifetime }, true)

abbrev pub with_entity : SubscriberDb → MleSession → Result Entity → MleSession × Bool
with_entity db s (err e) = (s, false)
with_entity db s (ok e) =
    if not e.valid then (s, false) else with_profile s (db_get_profile db e.profile_id)

unfoldable pub refresh_session_from_db : Option SubscriberDb → MleSession → MleSession × Bool
refresh_session_from_db none s = (s, false)
refresh_session_from_db (some db) s = elim (db_lookup_entity db s.issi) [
  | err e ↦ (s, false)
  | ok idx ↦ with_entity db s (db_get_entity db idx)
]

-- The loop of `maybe_auto_enroll` from index `i` on, `fuel` rounds at most; the result of
-- `db_put_entity` is not looked at.
unfoldable pub enroll_from : ℕ → ℕ → SubscriberDb → Entity → SubscriberDb × Bool
enroll_from zero i db e = (db, false)
enroll_from (suc fuel) i db e =
    let rest = enroll_from fuel (i + 1) db e in
    elim (db_get_entity db i) [
      | err errno ↦ rest
      | ok slot ↦ if not slot.valid then ((db_put_entity db i e).0, true) else rest
    ]

abbrev pub enrolled_entity : MleCfg → ℕ → Entity
enrolled_entity cfg issi = record {
  entity_id = mask_24 issi;
  entity_type = 0;
  profile_id = cfg.default_profile_id;
  reserved34 = 0;
  valid = true;
}

abbrev pub count_lookup_failed : Mle → Mle
count_lookup_failed mle = record mle {
  stats = (let st = mle.stats in record st { lookups_failed = size (st.lookups_failed + 1) });
}

abbrev pub enroll_in : Mle → SubscriberDb → ℕ → Result ℕ → Mle × Bool
enroll_in mle db issi (ok idx) = (mle, true)
enroll_in mle db issi (err e) =
    if not mle.cfg.accept_unknown
    then (count_lookup_failed mle, false)
    else let (db', done) = enroll_from entity_count 0 db (enrolled_entity mle.cfg issi) in
      (record mle { db = some db' }, done)

unfoldable pub maybe_auto_enroll : Mle → ℕ → Mle × Bool
maybe_auto_enroll mle issi = elim mle.db [
  | none ↦ (mle, mle.cfg.accept_unknown)
  | some db ↦ enroll_in mle db issi (db_lookup_entity db (mask_24 issi))
]

-- The loop of `strip_mle_pd`: bit `i` of the output is bit `3 + i` of the body. C reads past the body
-- of a message that states 257 to 259 bits; a bit there is 0 here.
unfoldable pub strip_bits : ℕ → ℕ → List ℕ → List ℕ → List ℕ
strip_bits zero i body out = out
strip_bits (suc n) i body out =
    let src = 3 + i in
    let bit = get_or body (src / 8) 0 / 2 ^ (7 - src % 8) % 2 in
    strip_bits n (i + 1) body
      (if bit == 0 then out else set out (i / 8) (bit_or (get_or out (i / 8) 0) (2 ^ (7 - i % 8))))

-- The discriminator, the body behind it and its length in bits
unfoldable pub strip_mle_pd : LlcPdu → ℕ → Result (ℕ × List ℕ × ℕ)
strip_mle_pd pdu out_cap_bits =
    let rest_bits = pdu.body_len_bits - 3 in
    if ltb pdu.body_len_bits 3
    then err eproto
    else if ltb out_cap_bits rest_bits
    then err enospc
    else ok (
      get_or pdu.body 0 0 / 2 ^ 5 % 8,
      strip_bits rest_bits 0 pdu.body (replicate ((out_cap_bits + 7) / 8) 0),
      rest_bits,
    )

pub record TlaSapPayload (D : Type 0) : Type 0 where
  pub endpoint : ℕ
  pub addr : TetraAddress
  pub decoded : D
  pub is_attach : Bool

-- What the entity uses of MM and of the compiler: the decoded message with the two fields that it
-- reads, its decoder, and the bytes of the two envelopes, whose sizes fit `uint16_t`.
pub record MleUses : Type 1 where
  pub MmDecoded : Type 0
  pub pdu_type : MmDecoded → ℕ
  pub location_update_type : MmDecoded → ℕ
  pub mm_iep_decode : List ℕ → ℕ → Result MmDecoded
  pub tla_bytes : TlaSapPayload MmDecoded → List ℕ
  pub tla_size : ℕ
  pub tla_payload : List ℕ → TlaSapPayload MmDecoded
  pub tle_size : ℕ
  pub tle_message : List ℕ → TleSapMsg

abbrev pub step_session : Mle → ℕ → MleEvt → Mle
step_session mle i e =
    put_session mle i (let s = session mle i in record s { state = mle_fsm_step s.state e })

abbrev pub count_step : MleStats → MleStats
count_step st = record st { fsm_transitions = size (st.fsm_transitions + 1) }

-- The `switch` of `handle_mm_pdu` on the message's type: a location update demand (2), a detach (6),
-- an attachment of groups (7); `none` for another type.
unfoldable pub drive_fsm : Mle → ℕ → ℕ → Option Mle
drive_fsm mle i pdu_type =
    let st = mle.stats in
    if pdu_type == 2
    then some (record (step_session mle i demand_received) {
      stats = count_step (record st { demands_received = size (st.demands_received + 1) });
    })
    else if pdu_type == 7
    then some (record (step_session mle i grp_demand_received) {
      stats = count_step (record st { grp_demands_received = size (st.grp_demands_received + 1) });
    })
    else if pdu_type == 6
    then some (record (step_session mle i detach_received) { stats = count_step st })
    else none

-- The `switch` of `mle_handle_tla_msg`
unfoldable pub feed_back : Mle → ℕ → ℕ → Mle
feed_back mle i pdu_type =
    let st = mle.stats in
    if pdu_type == 2
    then record (step_session mle i accept_sent) {
      stats = count_step (record st { accepts_sent = size (st.accepts_sent + 1) });
    }
    else if pdu_type == 7
    then record (step_session mle i grp_ack_sent) {
      stats = count_step (record st { grp_acks_sent = size (st.grp_acks_sent + 1) });
    }
    else if pdu_type == 6
    then record (step_session mle i detach_complete) { stats = count_step st }
    else mle

abbrev pub set_endpoint : Mle → ℕ → ℕ → Mle
set_endpoint mle i endpoint =
    put_session mle i (let s = session mle i in record s { endpoint = endpoint })

abbrev pub refresh : Mle → ℕ → Mle
refresh mle i = put_session mle i (refresh_session_from_db mle.db (session mle i)).0

module _ (uses : MleUses) where
  open uses use {
    MmDecoded, pdu_type, location_update_type, mm_iep_decode, tla_bytes, tla_size, tla_payload,
    tle_size, tle_message,
  }

  abbrev pub mm_request : ℕ → TetraAddress → MmDecoded → SapMsg
  mm_request endpoint addr decoded = record {
    src = tle_sap;
    dest = tma_sap;
    sap = tlmc_sap;
    len = tla_size;
    payload = some (
        tla_bytes (record {
          endpoint = endpoint;
          addr = addr;
          decoded = decoded;
          is_attach = location_update_type decoded == 3 || pdu_type decoded == 7;
        }));
  }

  unfoldable pub forward_mm_request :
      MsgBus → ℕ → TetraAddress → MmDecoded → MsgBus × Result (Unit {0})
  forward_mm_request bus endpoint addr decoded =
      msgbus_post bus (sap_prio_default tlmc_sap) (mm_request endpoint addr decoded)

  -- `handle_mm_pdu` once it has a session: the enrolment and the refresh, whose results are not
  -- looked at, the state machine, and the request to MM.
  unfoldable pub handle_with_session :
      Mle → MsgBus → TleSapMsg → MmDecoded → ℕ → (Mle × MsgBus) × Result (Unit {0})
  handle_with_session mle bus m decoded i =
      let ready = refresh (maybe_auto_enroll (set_endpoint mle i m.endpoint) m.addr.ssi).0 i in
      let (bus', rc) = forward_mm_request bus m.endpoint m.addr decoded in
      elim (drive_fsm ready i (pdu_type decoded)) [
        | none ↦ ((ready, bus), ok tt)
        | some mle' ↦ ((mle', bus'), rc)
      ]

  unfoldable pub handle_mm_pdu :
      Mle → MsgBus → TleSapMsg → List ℕ → ℕ → (Mle × MsgBus) × Result (Unit {0})
  unfolding handle_with_session
  handle_mm_pdu mle bus m body body_bits = elim (mm_iep_decode body body_bits) [
    | err e ↦ ((mle, bus), err e)
    | ok decoded ↦
        let (mle', slot) = mle_session_alloc mle m.addr.ssi in
        elim slot [
          | none ↦ ((mle', bus), err enospc)
          | some i ↦ handle_with_session mle' bus m decoded i
        ]
  ]

  -- The discriminator is 1 for MM; 5, the entity itself, and all others are dropped.
  unfoldable pub mle_handle_tle_msg : Mle → MsgBus → TleSapMsg → (Mle × MsgBus) × Result (Unit {0})
  unfolding handle_mm_pdu
  mle_handle_tle_msg mle bus m =
      if not mle.initialised
      then ((mle, bus), err einval)
      else elim (strip_mle_pd m.pdu (body_max_bytes * 8)) [
        | err e ↦ ((mle, bus), err e)
        | ok (disc, body, bits) ↦
            if disc == 1 then handle_mm_pdu mle bus m body bits else ((mle, bus), ok tt)
      ]

  unfoldable pub mle_handle_tla_msg : Mle → TlaSapPayload MmDecoded → Mle × Result (Unit {0})
  mle_handle_tla_msg mle m =
      if not mle.initialised then (mle, err einval) else elim (mle_session_lookup mle m.addr.ssi) [
        | none ↦ (mle, err enoent)
        | some i ↦ (feed_back mle i (pdu_type m.decoded), ok tt)
      ]

  -- The handlers of the bus drop what is shorter than their envelope.
  unfoldable pub on_tle_msg : SapMsg → Mle × MsgBus → Mle × MsgBus
  on_tle_msg msg (mle, bus) = elim msg.payload [
    | none ↦ (mle, bus)
    | some bytes ↦
        if ltb msg.len tle_size
        then (mle, bus)
        else (mle_handle_tle_msg mle bus (tle_message bytes)).0
  ]

  unfoldable pub on_tla_msg : SapMsg → Mle × MsgBus → Mle × MsgBus
  on_tla_msg msg (mle, bus) = elim msg.payload [
    | none ↦ (mle, bus)
    | some bytes ↦
        if ltb msg.len tla_size
        then (mle, bus)
        else ((mle_handle_tla_msg mle (tla_payload bytes)).0, bus)
  ]

abbrev pub zero_stats : MleStats
zero_stats = record {
  demands_received = 0;
  accepts_sent = 0;
  grp_demands_received = 0;
  grp_acks_sent = 0;
  lookups_failed = 0;
  fsm_transitions = 0;
}

abbrev pub zero_cfg : MleCfg
zero_cfg = record { accept_unknown = false; default_profile_id = 0; fallback_gssi = 0 }

abbrev pub cfg_of : Option MleCfg → MleCfg
cfg_of none = zero_cfg
cfg_of (some cfg) = cfg

-- `tle` and `tla` are the numbers of the two handlers.
unfoldable pub mle_init :
    MsgBus → Option SubscriberDb → Option MleCfg → ℕ → ℕ → (Mle × MsgBus) × Result (Unit {0})
mle_init bus db cfg tle tla =
    let mle : Mle = record {
      db = db;
      cfg = cfg_of cfg;
      sessions = replicate session_max zero_session;
      stats = zero_stats;
      initialised = false;
    } in
    let (bus1, rc1) = msgbus_register bus tma_sap tle_sap tle in
    let (bus2, rc2) = msgbus_register bus1 tma_sap tnmm_sap tla in
    elim rc1 [
      | err e ↦ ((mle, bus1), err e)
      | ok _ ↦ elim rc2 [
        | err e ↦ ((mle, bus2), err e)
        | ok _ ↦ ((record mle { initialised = true }, bus2), ok tt)
      ]
    ]

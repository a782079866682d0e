-- ===== src/Mle/Tests.antt =====
-- The theorems about sw/mle at concrete inputs.
use tetra_bs.Prelude.{
  ℕ, ◌+◌, ◌≤◌, ◌<◌, ◌⊎◌, ◌*◌, ◌/◌, ◌^◌, ◌≡◌, inl, refl, true, false, some, none, List, [], ◌∷◌,
  ◌++◌, replicate, get_or, ok, err, enospc, enoent, arith,
}
use tetra_bs.Core.MsgBus.{queue}
use tetra_bs.Core.MsgBus.Queue.{contents, letter}
use tetra_bs.Core.MsgBus.Bus.{Grows}
use tetra_bs.Core.MsgBus.{reg_cap}
use tetra_bs.Core.Tests.{demo_bus, demo_bus-IsBus}
use tetra_bs.Persistence.Tests.{demo_db, demo_db-IsDb}
use tetra_bs.Llc.{TleSapMsg, body_max_bytes}
use tetra_bs.Mle.Fsm.{
  MleState, idle, attach_pending, registered, MleEvt, demand_received, accept_sent,
  grp_demand_received, mle_fsm_step,
}
use tetra_bs.Mle.Fsm.Diagram.{Move, mle_fsm_step-Move, run, run-registered}
use tetra_bs.Mle.{
  Mle, MleCfg, MleUses, TlaSapPayload, zero_session, zero_stats, session, session_max, strip_mle_pd,
  strip_bits, lookup_from, free_from, mle_session_lookup, mle_session_alloc, maybe_auto_enroll,
  mm_request, mle_handle_tle_msg, mle_handle_tla_msg, mle_init,
}
use tetra_bs.Mle.Sessions.{IsTable, Allocated, mle_session_alloc_lem}
use tetra_bs.Mle.Enrolment.{Enrolled, maybe_auto_enroll_lem}
use tetra_bs.Mle.Handling.Messages.{mle_handle_tle_msg-IsTable}
use tetra_bs.Mle.Handling.Attach.{
  Answered, mle_handle_tle_msg_attach, mle_handle_tla_msg_lem, mle_init_lem, Registered,
  empty-IsTable,
}

mle_fsm_step-Move_example :
    Move registered grp_demand_received (mle_fsm_step registered grp_demand_received)
    ⊎ ((¬ ((t : MleState) × Move registered grp_demand_received t))
        × (mle_fsm_step registered grp_demand_received ≡ registered))
mle_fsm_step-Move_example = mle_fsm_step-Move registered grp_demand_received

abbrev events : List MleEvt
events = demand_received ∷ accept_sent ∷ []

events-run : run idle events ≡ registered
unfolding mle_fsm_step
events-run = refl

run-registered_example :
    (pre post : List MleEvt) × (events ≡ pre ++ (accept_sent ∷ post))
    × (run idle pre ≡ attach_pending)
run-registered_example = run-registered events (inl events-run)

abbrev cfg : MleCfg
cfg = record { accept_unknown = true; default_profile_id = 1; fallback_gssi = 0 }

abbrev mle : Mle
mle = record {
  db = some demo_db;
  cfg = cfg;
  sessions = replicate session_max zero_session;
  stats = zero_stats;
  initialised = true;
}

mle_session_alloc_lem_example :
    Allocated mle 0x77 (mle_session_alloc mle 0x77).0 (mle_session_alloc mle 0x77).1
mle_session_alloc_lem_example = mle_session_alloc_lem mle 0x77 empty-IsTable

maybe_auto_enroll_lem_example :
    Enrolled mle demo_db 0x77 (maybe_auto_enroll mle 0x77).0 (maybe_auto_enroll mle 0x77).1
maybe_auto_enroll_lem_example =
    maybe_auto_enroll_lem mle demo_db 0x77 refl demo_db-IsDb (omega arith)

mle_init_lem_example :
    let ((started, bus'), rc) = mle_init demo_bus (some demo_db) (some cfg) 1 2 in
    IsTable started.sessions
    × ((issi : ℕ) → mle_session_lookup started issi ≡ none)
    × Grows demo_bus bus'
    × (((demo_bus.reg_count + 2 ≤ reg_cap)
          × (rc ≡ ok tt)
          × (started.initialised ≡ true)
          × Registered demo_bus 1 2 bus')
        ⊎ ((reg_cap < demo_bus.reg_count + 2) × (rc ≡ err enospc) × (started.initialised ≡ false)))
mle_init_lem_example = mle_init_lem demo_bus (some demo_db) (some cfg) 1 2 demo_bus-IsBus

-- discriminator 1, then a message of type 2
abbrev message : TleSapMsg
message = record {
  endpoint = 1;
  addr = record { ssi = 0x77; ssi_type = 2 };
  pdu = record {
    pdu_type = 1;
    nr = 0;
    ns = 0;
    body_len_bits = 8;
    body = 0x24 ∷ [];
    fcs = 0;
    fcs_valid = false;
  };
}

-- A decoder that reads the type from the first four bits, and envelopes of four bytes.
abbrev first_byte : List ℕ → ℕ
first_byte l = get_or l 0 0

abbrev uses : MleUses
uses = record {
  MmDecoded = ℕ;
  pdu_type = λ d. d;
  location_update_type = λ d. 3;
  mm_iep_decode = λ body bits. ok (first_byte body / 2 ^ 4);
  tla_bytes = λ p. p.decoded ∷ 0 ∷ 0 ∷ 0 ∷ [];
  tla_size = 4;
  tla_payload = λ bytes. record {
    endpoint = 0;
    addr = record { ssi = 0; ssi_type = 0 };
    decoded = first_byte bytes;
    is_attach = false;
  };
  tle_size = 4;
  tle_message = λ bytes. message;
}

abbrev stripped : List ℕ
stripped = 0x20 ∷ replicate 31 0

message_stripped : strip_mle_pd message.pdu (body_max_bytes * 8) ≡ ok (1, stripped, 5)
unfolding strip_mle_pd strip_bits
message_stripped = refl

no_session : mle_session_lookup mle 0x77 ≡ none
unfolding mle_session_lookup lookup_from
no_session = refl

mle_handle_tle_msg_attach_example :
    let ((mle', bus'), rc) = mle_handle_tle_msg uses mle demo_bus message in
    (i : ℕ) × (mle_session_lookup mle' 0x77 ≡ some i)
    × ((session mle' i).state ≡ attach_pending)
    × (contents (queue bus' 1)
        ≡ contents (queue demo_bus 1) ++ (letter (mm_request uses 1 message.addr 2) ∷ []))
    × (rc ≡ ok tt)
mle_handle_tle_msg_attach_example =
    mle_handle_tle_msg_attach uses mle demo_bus message stripped 5 0 2 (λ p. refl) empty-IsTable
      demo_bus-IsBus refl message_stripped refl refl no_session (omega arith) refl (omega arith)
      (omega arith)

mle_handle_tle_msg-IsTable_example :
    let after = mle_handle_tle_msg uses mle demo_bus message in
    IsTable after.0.0.sessions × Grows demo_bus after.0.1
mle_handle_tle_msg-IsTable_example =
    mle_handle_tle_msg-IsTable uses mle demo_bus message (λ p. refl) empty-IsTable demo_bus-IsBus

abbrev answer : TlaSapPayload ℕ
answer = record { endpoint = 1; addr = message.addr; decoded = 2; is_attach = true }

-- The terminal has a session now.
abbrev joined : Mle
joined = (mle_session_alloc mle 0x77).0

joined_ready : joined.initialised ≡ true
unfolding mle_session_alloc mle_session_lookup lookup_from free_from
joined_ready = refl

mle_handle_tla_msg_lem_example :
    ((mle_session_lookup joined 0x77 ≡ none)
      × (mle_handle_tla_msg uses joined answer ≡ (joined, err enoent)))
    ⊎ ((i : ℕ) × (mle_session_lookup joined 0x77 ≡ some i)
        × ((mle_handle_tla_msg uses joined answer).1 ≡ ok tt)
        × Answered uses joined i 2 (mle_handle_tla_msg uses joined answer).0)
mle_handle_tla_msg_lem_example =
    mle_handle_tla_msg_lem uses joined answer joined_ready
      (mle_session_alloc_lem mle 0x77 empty-IsTable).table

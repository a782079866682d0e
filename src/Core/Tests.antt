-- ===== src/Core/Tests.antt =====
-- The theorems about sw/core at concrete inputs.
use tetra_bs.Prelude.{
  ℕ, zero, suc, ◌+◌, ◌-◌, ◌≤◌, ◌<◌, ◌≡◌, ◌≢◌, ◌⊎◌, inr, refl, true, some, List, [], ◌∷◌, ◌++◌,
  replicate, take, ok, arith,
}
use tetra_bs.Core.BitBuffer.{BitBuffer, bb_put_bits, bb_seek_bits, bb_get_bits}
use tetra_bs.Core.BitBuffer.Spec.{field}
use tetra_bs.Core.BitBuffer.Cursor.{IsValid, Put, get-put, bb_put_bits-Put, bb_get_bits_lem}
use tetra_bs.Core.Sap.{SapMsg, prio_count}
use tetra_bs.Core.MsgBus.{
  MsgBus, MsgBusQueue, MsgBusEntry, MsgBusReg, MsgBusCfg, zero_entry, zero_reg, queue, init_queue,
  msgbus_init, msgbus_post, msgbus_dispatch_one, head_msg, Handlers,
}
use tetra_bs.Core.MsgBus.Queue.{IsQueue, contents, letter}
use tetra_bs.Core.MsgBus.Bus.{IsBus, Grows-refl, msgbus_post_accepted}
use tetra_bs.Core.MsgBus.Init.{
  IsCfg, SideBySide, cleared_entries, cleared_payloads, msgbus_init-IsBus,
}
use tetra_bs.Core.MsgBus.Dispatch.{
  OnlyAdds, KeepsRegs, deliver, Served, msgbus_dispatch_one_lem, msgbus_dispatch_one-deliver,
}

-- 32 bits of memory of which 3 are used; the buffer may grow.
abbrev bits : BitBuffer
bits = record {
  buffer = 0xa0 ∷ 0 ∷ 0 ∷ 0 ∷ [];
  cap_bits = 32;
  start = 0;
  pos = 3;
  end = 3;
  autoexpand = true;
}

bits-IsValid : IsValid bits
bits-IsValid = record {
  bytes = omega arith;
  start_le = omega arith;
  pos_le = omega arith;
  end_le = omega arith;
  memory = omega arith;
  addressable = omega arith;
}

bb_put_bits-Put_example :
    (bb' : BitBuffer) × (bb_put_bits bits 0x155 9 ≡ some bb') × Put bits 0x155 9 bb'
bb_put_bits-Put_example =
    bb_put_bits-Put bits 0x155 9 bits-IsValid (omega arith) (omega arith) (omega arith)
      (inr (refl, omega arith))

get-put_example :
    (bb' back : BitBuffer) × (bb_put_bits bits 0x155 9 ≡ some bb')
    × (bb_seek_bits bb' (3 - 0) ≡ some back)
    × (bb_get_bits back 9 ≡ some (0x155, bb'))
get-put_example =
    get-put bits 0x155 9 bits-IsValid (omega arith) (omega arith) (omega arith)
      (inr (refl, omega arith))

bb_get_bits_lem_example :
    ((3 + 4 ≤ 3) × (bb_get_bits bits 4 ≡ some (field bits.buffer 3 4, record bits { pos = 7 })))
    ⊎ ((3 < 3 + 4) × (bb_get_bits bits 4 ≡ some (0, bits)))
bb_get_bits_lem_example = bb_get_bits_lem bits 4 bits-IsValid (omega arith) (omega arith)

-- A bucket of two slots of 4 bytes, empty, with one message, and full.
abbrev slot_entry : ℕ → MsgBusEntry
slot_entry n = record { src = 5; dest = 3; sap = 7; len = n; in_use = true }

abbrev empty_bucket : MsgBusQueue
empty_bucket = record {
  entries = zero_entry ∷ zero_entry ∷ [];
  payloads = replicate 8 0;
  cap = 2;
  max_payload = 4;
  head = 0;
  tail = 0;
  count = 0;
  drops = 0;
}

abbrev pub one_bucket : MsgBusQueue
one_bucket = record {
  entries = slot_entry 2 ∷ zero_entry ∷ [];
  payloads = 9 ∷ 8 ∷ replicate 6 0;
  cap = 2;
  max_payload = 4;
  head = 0;
  tail = 1;
  count = 1;
  drops = 0;
}

abbrev full_bucket : MsgBusQueue
full_bucket = record {
  entries = slot_entry 2 ∷ slot_entry 0 ∷ [];
  payloads = 9 ∷ 8 ∷ replicate 6 0;
  cap = 2;
  max_payload = 4;
  head = 1;
  tail = 1;
  count = 2;
  drops = 7;
}

empty_bucket-IsQueue : IsQueue empty_bucket
empty_bucket-IsQueue = record {
  entries_size = refl;
  payloads_size = refl;
  cap_pos = omega arith;
  cap_small = omega arith;
  head_in = omega arith;
  tail_at = refl;
  count_le = omega arith;
  lens = omega arith;
}

one_bucket-IsQueue : IsQueue one_bucket
one_bucket-IsQueue = record {
  entries_size = refl;
  payloads_size = refl;
  cap_pos = omega arith;
  cap_small = omega arith;
  head_in = omega arith;
  tail_at = refl;
  count_le = omega arith;
  lens = omega arith;
}

full_bucket-IsQueue : IsQueue full_bucket
full_bucket-IsQueue = record {
  entries_size = refl;
  payloads_size = refl;
  cap_pos = omega arith;
  cap_small = omega arith;
  head_in = omega arith;
  tail_at = refl;
  count_le = omega arith;
  lens = omega arith;
}

abbrev reg : MsgBusReg
reg = record { dest = 3; sap = 7; handler = 4; active = true }

-- A bus with one message of normal priority and one registration.
abbrev pub demo_bus : MsgBus
demo_bus = record {
  queues = empty_bucket ∷ one_bucket ∷ empty_bucket ∷ [];
  regs = reg ∷ replicate 31 zero_reg;
  reg_count = 1;
  initialised = true;
}

demo_each : (p : ℕ) → p < prio_count → IsQueue (queue demo_bus p)
demo_each zero h = empty_bucket-IsQueue
demo_each (suc zero) h = one_bucket-IsQueue
demo_each (suc (suc zero)) h = empty_bucket-IsQueue
demo_each (suc (suc (suc p))) h = absurd (omega arith)

pub demo_bus-IsBus : IsBus demo_bus
demo_bus-IsBus = record {
  ready = refl;
  three = refl;
  each = demo_each;
  table = refl;
  regs_le = omega arith;
}

abbrev note : SapMsg
note = record { src = 5; dest = 3; sap = 7; len = 2; payload = some (1 ∷ 2 ∷ []) }

msgbus_post_accepted_example :
    let (bus', rc) = msgbus_post demo_bus 1 note in
    (rc ≡ ok tt)
    × (contents (queue bus' 1) ≡ contents one_bucket ++ (letter note ∷ []))
    × ((p : ℕ) → p ≢ 1 → queue bus' p ≡ queue demo_bus p)
    × (bus'.regs ≡ demo_bus.regs)
msgbus_post_accepted_example =
    msgbus_post_accepted demo_bus 1 note demo_bus-IsBus (inr (1 ∷ 2 ∷ [], refl, refl)) (omega arith)
      refl refl (omega arith) (omega arith)

abbrev cfg : MsgBusCfg
cfg = record {
  queue_cap_per_prio = 1;
  max_payload_bytes = 2;
  entry_storage = some (replicate 3 zero_entry);
  entry_storage_bytes = 48;
  payload_storage = some (replicate 6 0);
  payload_storage_bytes = 6;
}

cfg-IsCfg : IsCfg cfg (replicate 3 zero_entry) (replicate 6 0)
cfg-IsCfg = record {
  cap_pos = omega arith;
  payload_pos = omega arith;
  entry_storage = refl;
  payload_storage = refl;
  entry_room = omega arith;
  payload_room = omega arith;
  entry_fits = omega arith;
  payload_fits = omega arith;
}

msgbus_init-IsBus_example :
    (bus : MsgBus) × (msgbus_init cfg ≡ ok bus)
    × IsBus bus
    × ((p : ℕ) → p < prio_count → contents (queue bus p) ≡ [])
    × (bus.reg_count ≡ 0)
    × ((p : ℕ)
        → p < prio_count
        → queue bus p
          ≡ init_queue cfg
              (cleared_entries cfg (replicate 3 zero_entry))
              (cleared_payloads cfg (replicate 6 0))
              p)
    × ((es : List MsgBusEntry) (ps : List ℕ) → SideBySide cfg es ps)
msgbus_init-IsBus_example = msgbus_init-IsBus cfg (replicate 3 zero_entry) (replicate 6 0) cfg-IsCfg

-- Handlers that note what they are given.
abbrev noting : Handlers (List (ℕ × SapMsg))
noting h m (w, bus) = ((h, m) ∷ w, bus)

noting-OnlyAdds : OnlyAdds noting
noting-OnlyAdds h m w bus v = Grows-refl bus v

noting-KeepsRegs : KeepsRegs noting
noting-KeepsRegs h m w bus = (refl, refl)

msgbus_dispatch_one_lem_example :
    (((k : ℕ) → contents (queue demo_bus k) ≡ [])
      × (msgbus_dispatch_one noting ([], demo_bus) ≡ (([], demo_bus), ok 0)))
    ⊎ ((p : ℕ) × Served demo_bus (msgbus_dispatch_one noting ([], demo_bus)).0 p
        × ((msgbus_dispatch_one noting ([], demo_bus)).1 ≡ ok 1))
msgbus_dispatch_one_lem_example =
    msgbus_dispatch_one_lem noting [] demo_bus noting-OnlyAdds demo_bus-IsBus

more_urgent : (k : ℕ) → k < 1 → (queue demo_bus k).count ≡ 0
more_urgent zero h = refl
more_urgent (suc k) h = absurd (omega arith)

msgbus_dispatch_one-deliver_example :
    (msgbus_dispatch_one noting ([], demo_bus)).0.0
    ≡ (deliver noting
        (take demo_bus.reg_count demo_bus.regs)
        (head_msg one_bucket)
        ([], demo_bus)).0
msgbus_dispatch_one-deliver_example =
    msgbus_dispatch_one-deliver noting [] demo_bus 1 noting-KeepsRegs demo_bus-IsBus (omega arith)
      more_urgent (omega arith)

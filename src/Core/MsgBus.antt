-- ===== src/Core/MsgBus.antt =====
-- sw/core/src/msgbus.c: three ring-buffered queues by priority, and the registered handlers.
-- Each queue holds its part of the caller's storage by value; `msgbus_init` cuts the parts, which
-- do not overlap as long as their sizes fit `size_t`. A handler is known by a number: `cb` and
-- `ctx` together. The handlers themselves are a parameter of the dispatch, and may call the bus.
pub mod Queue
pub mod Bus
pub mod Init
pub mod Dispatch
use tetra_bs.Prelude.{
  ℕ, zero, suc, ◌+◌, ◌-◌, ◌*◌, ◌%◌, ◌^◌, Bool, true, false, ◌&&◌, ◌||◌, not, Option, none, some,
  List, [], ◌∷◌, ◌++◌, get_or, set, take, drop, replicate, length, ltb, leb, ◌==◌, if◌then◌else◌,
  Result, ok, err, Errno, einval, enospc, e2big,
}
use tetra_bs.Core.Sap.{SapId, SapMsg, sap_id_is_valid, prio_count}
use tetra_bs.Core.Memory.{load, store}

abbrev pub reg_cap : ℕ
reg_cap = 32

-- `sizeof(MsgBusEntry)`: three 4-byte enums, 16 bits, a flag and a byte of padding
abbrev pub entry_bytes : ℕ
entry_bytes = 16

abbrev pub size : ℕ → ℕ
size n = n % 2 ^ 64

pub record MsgBusEntry : Type 0 where
  pub src : SapId
  pub dest : SapId
  pub sap : SapId
  pub len : ℕ
  pub in_use : Bool

abbrev pub zero_entry : MsgBusEntry
zero_entry = record { src = 0; dest = 0; sap = 0; len = 0; in_use = false }

pub record MsgBusReg : Type 0 where
  pub dest : SapId
  pub sap : SapId
  pub handler : ℕ
  pub active : Bool

abbrev pub zero_reg : MsgBusReg
zero_reg = record { dest = 0; sap = 0; handler = 0; active = false }

pub record MsgBusQueue : Type 0 where
  pub entries : List MsgBusEntry
  pub payloads : List ℕ
  pub cap : ℕ
  pub max_payload : ℕ
  pub head : ℕ
  pub tail : ℕ
  pub count : ℕ
  pub drops : ℕ

abbrev pub zero_queue : MsgBusQueue
zero_queue = record {
  entries = [];
  payloads = [];
  cap = 0;
  max_payload = 0;
  head = 0;
  tail = 0;
  count = 0;
  drops = 0;
}

pub record MsgBus : Type 0 where
  pub queues : List MsgBusQueue
  pub regs : List MsgBusReg
  pub reg_count : ℕ
  pub initialised : Bool

pub record MsgBusCfg : Type 0 where
  pub queue_cap_per_prio : ℕ
  pub max_payload_bytes : ℕ
  pub entry_storage : Option (List MsgBusEntry)
  pub entry_storage_bytes : ℕ
  pub payload_storage : Option (List ℕ)
  pub payload_storage_bytes : ℕ

abbrev pub queue : MsgBus → ℕ → MsgBusQueue
queue bus p = get_or bus.queues p zero_queue

abbrev pub set_queue : MsgBus → ℕ → MsgBusQueue → MsgBus
set_queue bus p q = record bus { queues = set bus.queues p q }

abbrev pub prio_is_valid : ℕ → Bool
prio_is_valid p = ltb p prio_count

-- the offset of a payload slot
abbrev pub slot : MsgBusQueue → ℕ → ℕ
slot q idx = idx * q.max_payload

-- `next_nonempty_queue`: the first priority, from `p` on, that holds a message
unfoldable pub next_nonempty : List MsgBusQueue → ℕ → Option ℕ
next_nonempty [] p = none
next_nonempty (q ∷ qs) p =
    let rest = next_nonempty qs (p + 1) in if ltb 0 q.count then some p else rest

-- The queue of priority `p`, cut from zeroed storage.
unfoldable pub init_queue : MsgBusCfg → List MsgBusEntry → List ℕ → ℕ → MsgBusQueue
init_queue cfg entries payloads p = record {
  entries = take cfg.queue_cap_per_prio (drop (p * cfg.queue_cap_per_prio) entries);
  payloads =
      take (cfg.queue_cap_per_prio * cfg.max_payload_bytes)
        (drop (p * cfg.queue_cap_per_prio * cfg.max_payload_bytes) payloads);
  cap = cfg.queue_cap_per_prio;
  max_payload = cfg.max_payload_bytes;
  head = 0;
  tail = 0;
  count = 0;
  drops = 0;
}

-- The storage after its first `n` elements were zeroed.
abbrev pub zeroed : {A : Type 0} → ℕ → A → List A → List A
zeroed n z xs = replicate n z ++ drop n xs

-- `msgbus_init` behind its NULL tests of `bus` and `cfg`. Storage that is shorter than the
-- configuration states, which C would write past, is as long as stated here.
unfoldable pub init_storage : MsgBusCfg → List MsgBusEntry → List ℕ → Result MsgBus
unfolding init_queue
init_storage cfg entries payloads =
    let total = size (cfg.queue_cap_per_prio * prio_count) in
    let need_entry = size (total * entry_bytes) in
    let need_payload = size (total * cfg.max_payload_bytes) in
    let es = zeroed total zero_entry entries in
    let ps = zeroed need_payload 0 payloads in
    if ltb cfg.entry_storage_bytes need_entry || ltb cfg.payload_storage_bytes need_payload
    then err einval
    else ok (record {
      queues = init_queue cfg es ps 0 ∷ init_queue cfg es ps 1 ∷ init_queue cfg es ps 2 ∷ [];
      regs = replicate reg_cap zero_reg;
      reg_count = 0;
      initialised = true;
    })

unfoldable pub msgbus_init : MsgBusCfg → Result MsgBus
unfolding init_storage
msgbus_init cfg =
    if cfg.queue_cap_per_prio == 0 || cfg.max_payload_bytes == 0
    then err einval
    else elim cfg.entry_storage [
      | none ↦ err einval
      | some entries ↦ elim cfg.payload_storage [
        | none ↦ err einval
        | some payloads ↦ init_storage cfg entries payloads
      ]
    ]

unfoldable pub msgbus_register : MsgBus → SapId → SapId → ℕ → MsgBus × Result (Unit {0})
msgbus_register bus dest sap handler =
    if not bus.initialised
    then (bus, err einval)
    else if not (sap_id_is_valid dest) || not (sap_id_is_valid sap)
    then (bus, err einval)
    else if leb reg_cap bus.reg_count
    then (bus, err enospc)
    else (
      record bus {
        regs =
            set bus.regs bus.reg_count
              (record { dest = dest; sap = sap; handler = handler; active = true });
        reg_count = bus.reg_count + 1;
      },
      ok tt,
    )

-- The `memcpy` of a payload into its slot.
abbrev pub copy_payload : MsgBusQueue → SapMsg → List ℕ
copy_payload q msg = elim msg.payload [
  | none ↦ q.payloads
  | some bytes ↦ store q.payloads (slot q q.tail) (take msg.len bytes)
]

-- The last part of `msgbus_post`, on the addressed queue.
unfoldable pub enqueue : MsgBusQueue → SapMsg → MsgBusQueue × Result (Unit {0})
enqueue q msg =
    if ltb q.max_payload msg.len
    then (q, err e2big)
    else if q.count == q.cap
    then (record q { drops = size (q.drops + 1) }, err enospc)
    else (
      record q {
        entries = set q.entries q.tail (record {
          src = msg.src;
          dest = msg.dest;
          sap = msg.sap;
          len = msg.len;
          in_use = true;
        });
        payloads = copy_payload q msg;
        tail = size (q.tail + 1) % q.cap;
        count = size (q.count + 1);
      },
      ok tt,
    )

unfoldable pub msgbus_post : MsgBus → ℕ → SapMsg → MsgBus × Result (Unit {0})
msgbus_post bus prio msg =
    if not bus.initialised
    then (bus, err einval)
    else if not (prio_is_valid prio)
    then (bus, err einval)
    else if not (sap_id_is_valid msg.dest) || not (sap_id_is_valid msg.sap)
    then (bus, err einval)
    else let (q, rc) = enqueue (queue bus prio) msg in (set_queue bus prio q, rc)

-- The message that the entry `i` of a queue holds, and that of its head.
abbrev pub slot_msg : MsgBusQueue → ℕ → SapMsg
slot_msg q i =
    let e = get_or q.entries i zero_entry in
    record {
      src = e.src;
      dest = e.dest;
      sap = e.sap;
      len = e.len;
      payload = if ltb 0 e.len then some (load q.payloads (slot q i) e.len) else none;
    }

abbrev pub head_msg : MsgBusQueue → SapMsg
head_msg q = slot_msg q q.head

-- `e->in_use = false` and the advance of the head. C resets the flag in the entry it found before the
-- handlers ran, which is the head as long as no handler dispatches; no code reads the flag.
unfoldable pub drop_head : MsgBusQueue → MsgBusQueue
drop_head q = record q {
  entries =
      set q.entries q.head
        (let e = get_or q.entries q.head zero_entry in record e { in_use = false });
  head = size (q.head + 1) % q.cap;
  count = size (q.count + 2 ^ 64 - 1);
}

-- The handlers: each has its own state in `W`, and the bus at hand.
abbrev pub Handlers : Type 0 → Type 0
Handlers W = ℕ → SapMsg → W × MsgBus → W × MsgBus

abbrev pub matches : MsgBusReg → SapMsg → Bool
matches r msg = r.active && (r.dest == msg.dest && r.sap == msg.sap)

module _ {W : Type 0} (handlers : Handlers W) where
  -- The loop over the registrations reads `reg_count` anew in each round; its table ends it.
  unfoldable pub fan_out : ℕ → ℕ → SapMsg → W × MsgBus → W × MsgBus
  fan_out zero i msg st = st
  fan_out (suc fuel) i msg st =
      let r = get_or st.1.regs i zero_reg in
      let next = if matches r msg then handlers r.handler msg st else st in
      let rest = fan_out fuel (i + 1) msg next in if ltb i st.1.reg_count then rest else st

  -- The number returned is that of the messages dispatched.
  unfoldable pub msgbus_dispatch_one : W × MsgBus → (W × MsgBus) × Result ℕ
  msgbus_dispatch_one st =
      if not st.1.initialised then (st, err einval) else elim (next_nonempty st.1.queues 0) [
        | none ↦ (st, ok 0)
        | some p ↦
            let (w, bus) = fan_out reg_cap 0 (head_msg (queue st.1 p)) st in
            ((w, set_queue bus p (drop_head (queue bus p))), ok 1)
      ]

-- `SIZE_MAX` on a bad argument
unfoldable pub msgbus_drops : MsgBus → ℕ → ℕ
msgbus_drops bus prio =
    if bus.initialised && prio_is_valid prio then (queue bus prio).drops else 2 ^ 64 - 1

unfoldable pub msgbus_pending : MsgBus → ℕ
msgbus_pending bus =
    if bus.initialised
    then size (size (size (queue bus 0).count + (queue bus 1).count) + (queue bus 2).count)
    else 0

-- `req_handle_next`: the process-wide counter, and the handle given out.
unfoldable pub req_handle_next : ℕ → ℕ × ℕ
req_handle_next counter =
    let h = (counter + 1) % 2 ^ 32 in
    if h == 0 then ((h + 1) % 2 ^ 32, (h + 1) % 2 ^ 32) else (h, h)

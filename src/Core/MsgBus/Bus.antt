-- ===== src/Core/MsgBus/Bus.antt =====
-- The well-formed bus, and what the calls other than the dispatch keep of it.
use tetra_bs.Prelude.{
  ℕ, suc, ◌+◌, ◌≤◌, ◌<◌, ◌≡◌, ◌≢◌, ◌⊎◌, inl, inr, refl, sym, ap, ◌∙◌, Bool, true, false, not, List,
  [], ◌∷◌, ◌++◌, append-nil, append_assoc, set, length, length-set, get_or-set_self, get_or-set_ne,
  leb, ◌==◌, ◌||◌, ok, err, enospc, arith, Bool-cases, leb-false→lt, lt-or-le,
}
use tetra_bs.Core.Sap.{SapId, SapMsg, sap_id_is_valid, prio_count}
use tetra_bs.Core.MsgBus.{
  MsgBus, MsgBusQueue, zero_queue, queue, set_queue, reg_cap, enqueue, msgbus_post, msgbus_register,
  prio_is_valid,
}
use tetra_bs.Core.MsgBus.Queue.{IsQueue, contents, HasPayload, letter}
use tetra_bs.Core.MsgBus.Queue.Fifo.{enqueue_room, enqueue_too_long, enqueue_full}

pub record IsBus (bus : MsgBus) : Type 0 where
  pub ready : bus.initialised ≡ true
  pub three : length bus.queues ≡ prio_count
  pub each : (p : ℕ) → p < prio_count → IsQueue (queue bus p)
  pub table : length bus.regs ≡ reg_cap
  pub regs_le : bus.reg_count ≤ reg_cap

-- `b` is `a` after calls that only add: each bucket's messages are still there, in front.
pub record Grows (a b : MsgBus) : Type 0 where
  pub valid : IsBus b
  pub kept :
      (p : ℕ)
      → p < prio_count
      → (more : List SapMsg) × (contents (queue b p) ≡ contents (queue a p) ++ more)

pub Grows-refl : (a : MsgBus) → IsBus a → Grows a a
Grows-refl a v = record { valid = v; kept = λ p h. ([], sym (append-nil (contents (queue a p)))) }

pub Grows-trans : (a b c : MsgBus) → Grows a b → Grows b c → Grows a c
Grows-trans a b c g h = record {
  valid = h.valid;
  kept = λ p lt.
      let (m, e) = g.kept p lt in
      let (n, f) = h.kept p lt in
      (m ++ n, f ∙ ap (λ l. l ++ n) e ∙ append_assoc (contents (queue a p)) m n);
}

-- Replacing one bucket by a well-formed one.
pub set_queue-IsBus :
    (bus : MsgBus) (p : ℕ) (q : MsgBusQueue)
    → IsBus bus
    → p < prio_count
    → IsQueue q
    → IsBus (set_queue bus p q)
set_queue-IsBus bus p q v lt vq = record {
  ready = v.ready;
  three = length-set bus.queues p q ∙ v.three;
  each = λ r h. elim (Bool-cases (r == p)) [
    | inl e ↦
        let at : r ≡ p = ground arith in
        rw (at, get_or-set_self bus.queues p q zero_queue (rw v.three lt)) vq
    | inr e ↦
        rw (get_or-set_ne bus.queues {i = p} {j = r} q zero_queue (λ s. ground arith)) (v.each r h)
  ];
  table = v.table;
  regs_le = v.regs_le;
}

pub queue-set_queue :
    (bus : MsgBus) (p : ℕ) (q : MsgBusQueue)
    → IsBus bus
    → p < prio_count
    → queue (set_queue bus p q) p ≡ q
queue-set_queue bus p q v lt = get_or-set_self bus.queues p q zero_queue (rw v.three lt)

pub queue-set_queue_ne :
    (bus : MsgBus) (p r : ℕ) (q : MsgBusQueue) → r ≢ p → queue (set_queue bus p q) r ≡ queue bus r
queue-set_queue_ne bus p r q ne =
    get_or-set_ne bus.queues {i = p} {j = r} q zero_queue (λ s. ne (sym s))

-- One bucket grew.
pub set_queue-Grows :
    (bus : MsgBus) (p : ℕ) (q : MsgBusQueue) (more : List SapMsg)
    → IsBus bus
    → p < prio_count
    → IsQueue q
    → contents q ≡ contents (queue bus p) ++ more
    → Grows bus (set_queue bus p q)
set_queue-Grows bus p q more v lt vq e = record {
  valid = set_queue-IsBus bus p q v lt vq;
  kept = λ r h. elim (Bool-cases (r == p)) [
    | inl same ↦ let at : r ≡ p = ground arith in (more, rw (at, queue-set_queue bus p q v lt) e)
    | inr other ↦ ([], rw (queue-set_queue_ne bus p r q (λ s. ground arith)) (sym (append-nil _)))
  ];
}

-- What a post does to its bucket, on every branch.
enqueue_cases :
    (q : MsgBusQueue) (m : SapMsg)
    → IsQueue q
    → HasPayload m
    → IsQueue (enqueue q m).0
      × ((more : List SapMsg) × (contents (enqueue q m).0 ≡ contents q ++ more))
enqueue_cases q m v has = elim (lt-or-le (suc q.max_payload) (suc m.len)) [
  | inl long ↦ rw (enqueue_too_long q m (omega arith)) (v, ([], sym (append-nil _)))
  | inr fits ↦ elim (lt-or-le q.count q.cap) [
    | inl room ↦
        let (q', e, v', c, d, k, s) = enqueue_room q m v has (omega arith) room in
        rw e (v', (letter m ∷ [], c))
    | inr full ↦
        let (e, c, v') = enqueue_full q m v (omega arith) (omega (arith, v.count_le)) in
        rw e (v', ([], c ∙ sym (append-nil _)))
  ]
]

abbrev pub bad_saps : SapId → SapId → Bool
bad_saps dest sap = not (sap_id_is_valid dest) || not (sap_id_is_valid sap)

post_refused :
    (bus : MsgBus) (prio : ℕ) (m : SapMsg)
    → (prio_is_valid prio ≡ false) ⊎ (bad_saps m.dest m.sap ≡ true)
    → (msgbus_post bus prio m).0 ≡ bus
unfolding msgbus_post
post_refused bus prio m h = ground arith

post_passed :
    (bus : MsgBus) (prio : ℕ) (m : SapMsg)
    → bus.initialised ≡ true
    → prio_is_valid prio ≡ true
    → bad_saps m.dest m.sap ≡ false
    → (msgbus_post bus prio m).0 ≡ set_queue bus prio (enqueue (queue bus prio) m).0
unfolding msgbus_post
post_passed bus prio m ready good sane = ground arith

-- Every post, accepted or refused, keeps the bus well-formed and every message in it.
pub msgbus_post-Grows :
    (bus : MsgBus) (prio : ℕ) (m : SapMsg)
    → IsBus bus
    → HasPayload m
    → Grows bus (msgbus_post bus prio m).0
msgbus_post-Grows bus prio m v has = elim (Bool-cases (prio_is_valid prio)) [
  | inr bad ↦ rw (post_refused bus prio m (inl bad)) (Grows-refl bus v)
  | inl good ↦ elim (Bool-cases (bad_saps m.dest m.sap)) [
    | inl bad ↦ rw (post_refused bus prio m (inr bad)) (Grows-refl bus v)
    | inr sane ↦
        let lt : prio < prio_count = ground arith in
        let (vq, (more, e)) = enqueue_cases (queue bus prio) m (v.each prio lt) has in
        rw (post_passed bus prio m v.ready good sane) (set_queue-Grows bus prio _ more v lt vq e)
  ]
]

-- A post of a message for a valid SAP to a bucket with room appends it there, returns 0, and
-- changes no other bucket.
pub msgbus_post_accepted :
    (bus : MsgBus) (prio : ℕ) (m : SapMsg)
    → IsBus bus
    → HasPayload m
    → prio < prio_count
    → sap_id_is_valid m.dest ≡ true
    → sap_id_is_valid m.sap ≡ true
    → m.len ≤ (queue bus prio).max_payload
    → (queue bus prio).count < (queue bus prio).cap
    → let (bus', rc) = msgbus_post bus prio m in
      (rc ≡ ok tt)
      × (contents (queue bus' prio) ≡ contents (queue bus prio) ++ (letter m ∷ []))
      × ((p : ℕ) → p ≢ prio → queue bus' p ≡ queue bus p)
      × (bus'.regs ≡ bus.regs)
unfolding msgbus_post
msgbus_post_accepted bus prio m v has lt dest sap fits room =
    let (q', e, v', c, d, k, s) = enqueue_room (queue bus prio) m (v.each prio lt) has fits room in
    let good : prio_is_valid prio ≡ true = ground arith in
    simp (v.ready, good, dest, sap, e)
      (
        refl,
        rw (queue-set_queue bus prio q' v lt) c,
        λ p ne. queue-set_queue_ne bus prio p q' ne,
        refl,
      )

register_refused :
    (bus : MsgBus) (dest sap : SapId) (handler : ℕ)
    → (bad_saps dest sap ≡ true) ⊎ (leb reg_cap bus.reg_count ≡ true)
    → (msgbus_register bus dest sap handler).0 ≡ bus
unfolding msgbus_register
register_refused bus dest sap handler h = ground arith

register_passed :
    (bus : MsgBus) (dest sap : SapId) (handler : ℕ)
    → bus.initialised ≡ true
    → bad_saps dest sap ≡ false
    → leb reg_cap bus.reg_count ≡ false
    → (msgbus_register bus dest sap handler).0 ≡ record bus {
      regs =
          set bus.regs bus.reg_count
            (record { dest = dest; sap = sap; handler = handler; active = true });
      reg_count = bus.reg_count + 1;
    }
unfolding msgbus_register
register_passed bus dest sap handler ready sane room = ground arith

-- The outcome of a registration, by the room in the table.
pub msgbus_register_accepted :
    (bus : MsgBus) (dest sap : SapId) (handler : ℕ)
    → bus.initialised ≡ true
    → bad_saps dest sap ≡ false
    → bus.reg_count < reg_cap
    → msgbus_register bus dest sap handler ≡ (
      record bus {
        regs =
            set bus.regs bus.reg_count
              (record { dest = dest; sap = sap; handler = handler; active = true });
        reg_count = bus.reg_count + 1;
      },
      ok tt,
    )
unfolding msgbus_register
msgbus_register_accepted bus dest sap handler ready sane room = ground arith

pub msgbus_register_full :
    (bus : MsgBus) (dest sap : SapId) (handler : ℕ)
    → bus.initialised ≡ true
    → bad_saps dest sap ≡ false
    → reg_cap ≤ bus.reg_count
    → msgbus_register bus dest sap handler ≡ (bus, err enospc)
unfolding msgbus_register
msgbus_register_full bus dest sap handler ready sane full = ground arith

-- A registration, accepted or refused, keeps the bus well-formed and every message in it.
pub msgbus_register-Grows :
    (bus : MsgBus) (dest sap : SapId) (handler : ℕ)
    → IsBus bus
    → Grows bus (msgbus_register bus dest sap handler).0
msgbus_register-Grows bus dest sap handler v = elim (Bool-cases (bad_saps dest sap)) [
  | inl bad ↦ rw (register_refused bus dest sap handler (inl bad)) (Grows-refl bus v)
  | inr sane ↦ elim (Bool-cases (leb reg_cap bus.reg_count)) [
    | inl full ↦ rw (register_refused bus dest sap handler (inr full)) (Grows-refl bus v)
    | inr room ↦ rw (register_passed bus dest sap handler v.ready sane room) (record {
      valid = record {
        ready = v.ready;
        three = v.three;
        each = v.each;
        table = length-set bus.regs bus.reg_count _ ∙ v.table;
        regs_le = omega (arith, leb-false→lt reg_cap bus.reg_count room);
      };
      kept = λ p h. ([], sym (append-nil (contents (queue bus p))));
    })
  ]
]

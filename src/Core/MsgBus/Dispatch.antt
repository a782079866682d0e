-- ===== src/Core/MsgBus/Dispatch.antt =====
-- `msgbus_dispatch_one`: strict priority, oldest first, to each matching registration once.
use tetra_bs.Prelude.{
  ℕ, zero, suc, ◌+◌, ◌-◌, ◌≤◌, ◌<◌, ◌≡◌, ◌≢◌, ◌⊎◌, inl, inr, refl, ap, ap₂, ◌∙◌, true, false, none,
  some, List, [], ◌∷◌, ◌++◌, get_or, length, take, drop, ltb, if◌then◌else◌, ok, arith, Bool-cases,
  lt-or-le, Option-cases,
}
use tetra_bs.Core.Sap.{SapMsg, prio_count}
use tetra_bs.Core.MsgBus.{
  MsgBus, MsgBusQueue, MsgBusReg, zero_queue, zero_reg, queue, set_queue, reg_cap, next_nonempty,
  head_msg, drop_head, Handlers, matches, fan_out, msgbus_dispatch_one,
}
use tetra_bs.Core.MsgBus.Queue.{IsQueue, contents, contents_empty, length-contents}
use tetra_bs.Core.MsgBus.Queue.Fifo.{drop_head_lem}
use tetra_bs.Core.MsgBus.Bus.{
  IsBus, Grows, Grows-refl, Grows-trans, set_queue-IsBus, queue-set_queue, queue-set_queue_ne,
}

-- What `next_nonempty` returns, for the buckets from `p` on.
next_nonempty-some :
    (qs : List MsgBusQueue) (p r : ℕ)
    → next_nonempty qs p ≡ some r
    → (p ≤ r)
      × (r < p + length qs)
      × (0 < (get_or qs (r - p) zero_queue).count)
      × ((k : ℕ) → k < r - p → (get_or qs k zero_queue).count ≡ 0)
unfolding next_nonempty
next_nonempty-some [] p r e = cc
next_nonempty-some (q ∷ qs) p r e = elim (Bool-cases (ltb 0 q.count)) [
  | inl full ↦
      let at : p ≡ r = ground arith in
      let zero_at : r - p ≡ 0 = omega arith in
      rw zero_at (omega arith, omega arith, ground arith, λ k h. absurd (omega arith))
  | inr empty ↦
      let ih = next_nonempty-some qs (p + 1) r (rw empty at e) in
      let next : r - p ≡ suc (r - (p + 1)) = omega (arith, ih.0) in
      rw next
        (omega (arith, ih.0), omega (arith, ih.1), ih.2, first_empty q qs (r - (p + 1)) empty ih.3)
]
  where
    first_empty :
        (q : MsgBusQueue) (qs : List MsgBusQueue) (n : ℕ)
        → ltb 0 q.count ≡ false
        → ((k : ℕ) → k < n → (get_or qs k zero_queue).count ≡ 0)
        → (k : ℕ) → k < suc n
        → (get_or (q ∷ qs) k zero_queue).count ≡ 0
    first_empty q qs n empty h zero lt = ground arith
    first_empty q qs n empty h (suc k) lt = h k (omega arith)

next_nonempty-none :
    (qs : List MsgBusQueue) (p : ℕ)
    → next_nonempty qs p ≡ none
    → (k : ℕ) → (get_or qs k zero_queue).count ≡ 0
unfolding next_nonempty
next_nonempty-none [] p e k = refl
next_nonempty-none (q ∷ qs) p e zero = ground arith
next_nonempty-none (q ∷ qs) p e (suc k) = next_nonempty-none qs (p + 1) (ground arith) k

module _ {W : Type 0} (handlers : Handlers W) where
  -- Each handler only adds messages and registrations, as `msgbus_post` and `msgbus_register` do.
  abbrev pub OnlyAdds : Type 0
  OnlyAdds =
      (h : ℕ) (m : SapMsg) (w : W) (bus : MsgBus) → IsBus bus → Grows bus (handlers h m (w, bus)).1

  -- No handler registers another.
  abbrev pub KeepsRegs : Type 0
  KeepsRegs =
      (h : ℕ) (m : SapMsg) (w : W) (bus : MsgBus)
      → ((handlers h m (w, bus)).1.regs ≡ bus.regs)
        × ((handlers h m (w, bus)).1.reg_count ≡ bus.reg_count)

  -- The message given to the matching registrations of a list, in its order.
  pub deliver : List MsgBusReg → SapMsg → W × MsgBus → W × MsgBus
  deliver [] m st = st
  deliver (r ∷ rs) m st = deliver rs m (if matches r m then handlers r.handler m st else st)

  fan_out-Grows :
      (fuel i : ℕ) (m : SapMsg) (w : W) (bus : MsgBus)
      → OnlyAdds
      → IsBus bus
      → Grows bus (fan_out handlers fuel i m (w, bus)).1
  unfolding fan_out
  fan_out-Grows zero i m w bus law v = Grows-refl bus v
  fan_out-Grows (suc fuel) i m w bus law v = elim (Bool-cases (ltb i bus.reg_count)) [
    | inr done ↦ rw done (Grows-refl bus v)
    | inl more ↦ elim (Bool-cases (matches (get_or bus.regs i zero_reg) m)) [
      | inr other ↦ rw (more, other) (fan_out-Grows fuel (i + 1) m w bus law v)
      | inl mine ↦
          let g = law (get_or bus.regs i zero_reg).handler m w bus v in
          rw (more, mine) (Grows-trans bus _ _ g (fan_out-Grows fuel (i + 1) m _ _ law g.valid))
    ]
  ]

take-drop_step :
    {A : Type 0} (xs : List A) (i n : ℕ) (z : A)
    → i < n
    → n ≤ length xs
    → take (n - i) (drop i xs) ≡ get_or xs i z ∷ take (n - (i + 1)) (drop (i + 1) xs)
take-drop_step [] i n z h le = absurd (omega arith)
take-drop_step (x ∷ xs) zero zero z h le = absurd (omega arith)
take-drop_step (x ∷ xs) zero (suc n) z h le =
    let a : suc n - 0 ≡ suc n = omega arith in
    let b : suc n - (0 + 1) ≡ n = omega arith in rw (a, b) refl
take-drop_step (x ∷ xs) (suc i) zero z h le = absurd (omega arith)
take-drop_step (x ∷ xs) (suc i) (suc n) z h le =
    let a : suc n - suc i ≡ n - i = omega arith in
    let b : suc n - (suc i + 1) ≡ n - (i + 1) = omega arith in
    let c : suc i + 1 ≡ suc (i + 1) = omega arith in
    rw (a, b, c) (take-drop_step xs i n z (omega arith) (omega arith))

take-drop_done : {A : Type 0} (xs : List A) (i n : ℕ) → n ≤ i → take (n - i) (drop i xs) ≡ []
take-drop_done xs i n h = ap (λ k. take k (drop i xs)) {x = n - i} {y = 0} (omega arith)

module _ {W : Type 0} (handlers : Handlers W) (m : SapMsg) (keeps : KeepsRegs handlers) where
  fan_out-deliver :
      (rs : List MsgBusReg) (n fuel i : ℕ) (st : W × MsgBus)
      → st.1.regs ≡ rs
      → st.1.reg_count ≡ n
      → n ≤ length rs
      → n ≤ i + fuel
      → fan_out handlers fuel i m st ≡ deliver handlers (take (n - i) (drop i rs)) m st
  unfolding fan_out deliver
  fan_out-deliver rs n zero i st er en le room = rw (take-drop_done rs i n (omega arith)) refl
  fan_out-deliver rs n (suc fuel) i st er en le room = elim (lt-or-le i n) [
    | inr done ↦
        let stop : ltb i st.1.reg_count ≡ false = ground arith in
        rw (take-drop_done rs i n done, stop) refl
    | inl more ↦
        let go : ltb i st.1.reg_count ≡ true = ground arith in
        let r : MsgBusReg = get_or rs i zero_reg in
        let same = keeps r.handler m st.0 st.1 in
        let this : get_or st.1.regs i zero_reg ≡ r = ap (λ l. get_or l i zero_reg) er in
        rw (go, take-drop_step rs i n zero_reg more le, this)
          (fan_out-deliver rs n fuel (i + 1) (if matches r m then handlers r.handler m st else st)
            (ground (arith, same)) (ground (arith, same)) le (omega arith))
  ]

-- One dispatch on a bus that holds no message, or that holds one.
pub record Served {W : Type 0} (bus : MsgBus) (after : W × MsgBus) (p : ℕ) : Type 0 where
  pub bucket : p < prio_count
  pub urgent : (k : ℕ) → k < p → contents (queue bus k) ≡ []
  pub rest : List SapMsg
  pub oldest : contents (queue bus p) ≡ head_msg (queue bus p) ∷ rest
  pub valid : IsBus after.1
  pub served : (more : List SapMsg) × (contents (queue after.1 p) ≡ rest ++ more)
  pub others :
      (r : ℕ)
      → r < prio_count
      → r ≢ p
      → (more : List SapMsg) × (contents (queue after.1 r) ≡ contents (queue bus r) ++ more)

-- The bucket that is served, after the handlers made `b` of the bus.
served_bucket :
    (bus b : MsgBus) (p : ℕ)
    → IsBus bus
    → Grows bus b
    → p < prio_count
    → 0 < (queue bus p).count
    → (rest more : List SapMsg) × (contents (queue bus p) ≡ head_msg (queue bus p) ∷ rest)
      × IsQueue (drop_head (queue b p))
      × (contents (drop_head (queue b p)) ≡ rest ++ more)
served_bucket bus b p v g lt some_left =
    let (more, kept) = g.kept p lt in
    let before = drop_head_lem (queue bus p) (v.each p lt) some_left in
    let rest : List SapMsg = contents (drop_head (queue bus p)) in
    let now : contents (queue b p) ≡ head_msg (queue bus p) ∷ (rest ++ more) =
      kept ∙ ap (λ l. l ++ more) before.1 in
    let count : 0 < (queue b p).count = omega (arith, length-contents (queue b p), ap length now) in
    let after = drop_head_lem (queue b p) (g.valid.each p lt) count in
    (rest, more, before.1, after.0, cc (after.1, now))

module _ {W : Type 0} (handlers : Handlers W) where
  dispatch_idle :
      (w : W) (bus : MsgBus)
      → bus.initialised ≡ true
      → next_nonempty bus.queues 0 ≡ none
      → msgbus_dispatch_one handlers (w, bus) ≡ ((w, bus), ok 0)
  unfolding msgbus_dispatch_one
  dispatch_idle w bus ready idle = ground arith

  -- The state after a dispatch from bucket `p`.
  abbrev after : W → MsgBus → ℕ → W × MsgBus
  after w bus p =
      let (w', b) = fan_out handlers reg_cap 0 (head_msg (queue bus p)) (w, bus) in
      (w', set_queue b p (drop_head (queue b p)))

  dispatch_busy :
      (w : W) (bus : MsgBus) (p : ℕ)
      → bus.initialised ≡ true
      → next_nonempty bus.queues 0 ≡ some p
      → msgbus_dispatch_one handlers (w, bus) ≡ (after w bus p, ok 1)
  unfolding msgbus_dispatch_one
  dispatch_busy w bus p ready found = ground arith

  after-Served :
      (w : W) (bus : MsgBus) (p : ℕ)
      → OnlyAdds handlers
      → IsBus bus
      → p < prio_count
      → 0 < (queue bus p).count
      → ((k : ℕ) → k < p → (queue bus k).count ≡ 0)
      → Served bus (after w bus p) p
  after-Served w bus p law v lt some_left urgent =
      let msg : SapMsg = head_msg (queue bus p) in
      let g = fan_out-Grows handlers reg_cap 0 msg w bus law v in
      let b : MsgBus = (fan_out handlers reg_cap 0 msg (w, bus)).1 in
      let (rest, more, oldest, vq, served) = served_bucket bus b p v g lt some_left in
      record {
        bucket = lt;
        urgent = λ k h. contents_empty (queue bus k) (urgent k h);
        rest = rest;
        oldest = oldest;
        valid = set_queue-IsBus b p _ g.valid lt vq;
        served = (more, ap contents (queue-set_queue b p _ g.valid lt) ∙ served);
        others = λ r h ne.
            let (m, e) = g.kept r h in (m, ap contents (queue-set_queue_ne b p r _ ne) ∙ e);
      }

  -- Of a well-formed bus whose handlers only add to it: if no bucket holds a message, a dispatch
  -- returns 0 and calls nothing. Otherwise it serves the first bucket that is not empty, returns
  -- 1, and that bucket's oldest message is gone, whatever the handlers posted meanwhile behind it;
  -- the other buckets keep their messages, and the bus stays well-formed.
  pub msgbus_dispatch_one_lem :
      (w : W) (bus : MsgBus)
      → OnlyAdds handlers
      → IsBus bus
      → (((k : ℕ) → contents (queue bus k) ≡ [])
          × (msgbus_dispatch_one handlers (w, bus) ≡ ((w, bus), ok 0)))
        ⊎ ((p : ℕ) × Served bus (msgbus_dispatch_one handlers (w, bus)).0 p
            × ((msgbus_dispatch_one handlers (w, bus)).1 ≡ ok 1))
  msgbus_dispatch_one_lem w bus law v = elim (Option-cases (next_nonempty bus.queues 0)) [
    | inl idle ↦ inl (
      λ k. contents_empty (queue bus k) (next_nonempty-none bus.queues 0 idle k),
      dispatch_idle w bus v.ready idle,
    )
    | inr (p, found) ↦
        let s = next_nonempty-some bus.queues 0 p found in
        let z : p - 0 ≡ p = omega arith in
        let st =
          after-Served w bus p law v (omega (arith, s.1, v.three)) (rw z at s.2) (rw z at s.3) in
        inr (
          p,
          rw (dispatch_busy w bus p v.ready found) st,
          ap (λ t. t.1) (dispatch_busy w bus p v.ready found),
        )
  ]

  -- Where no handler registers another, a dispatch hands the message of the bucket that it serves
  -- to every matching registration, once each and in the order of registration.
  pub msgbus_dispatch_one-deliver :
      (w : W) (bus : MsgBus) (p : ℕ)
      → KeepsRegs handlers
      → IsBus bus
      → 0 < (queue bus p).count
      → ((k : ℕ) → k < p → (queue bus k).count ≡ 0)
      → p < prio_count
      → (msgbus_dispatch_one handlers (w, bus)).0.0
        ≡ (deliver handlers (take bus.reg_count bus.regs) (head_msg (queue bus p)) (w, bus)).0
  msgbus_dispatch_one-deliver w bus p keeps v some_left urgent lt =
      elim (Option-cases (next_nonempty bus.queues 0)) [
        | inl idle ↦ absurd (omega (arith, next_nonempty-none bus.queues 0 idle p))
        | inr (r, found) ↦
            let s = next_nonempty-some bus.queues 0 r found in
            let z : r - 0 ≡ r = omega arith in
            let count = rw z at s.2 in
            let first = rw z at s.3 in
            let low : (r < p) → ⊥ = λ h. omega (arith, urgent r h, count) in
            let high : (p < r) → ⊥ = λ h. omega (arith, first p h) in
            let same : r ≡ p = grind (arith, low, high) in
            let all =
              fan_out-deliver handlers (head_msg (queue bus r)) keeps bus.regs bus.reg_count reg_cap
                0 (w, bus) refl refl (omega (arith, v.table, v.regs_le))
                (omega (arith, v.regs_le)) in
            let z' : bus.reg_count - 0 ≡ bus.reg_count = omega arith in
            ap (λ t. t.0.0) (dispatch_busy w bus r v.ready found)
            ∙ ap (λ t. t.0) all
            ∙ ap₂ (λ k t. (deliver handlers (take k bus.regs) (head_msg (queue bus t)) (w, bus)).0)
                z' same
      ]

-- ===== src/Core/MsgBus/Queue.antt =====
-- A bucket of the bus (`MsgBusQueue`) is a bounded FIFO of whole messages: what `msgbus_post` and
-- `msgbus_dispatch_one` do to one bucket.
pub mod Fifo
use native.Mathlib.Nat.{mod-lt, mod-add-mod, mod-eq_of_lt, mod-eq-sub-mod, add-zero, add-suc}
use tetra_bs.Prelude.{
  ℕ, zero, suc, ◌+◌, ◌-◌, ◌*◌, ◌%◌, ◌^◌, ◌≤◌, ◌<◌, ◌≡◌, ◌≢◌, ◌⊎◌, inl, inr, refl, sym, ap, ap₂, ◌∙◌,
  Bool, true, false, Option, none, some, List, [], ◌∷◌, ◌++◌, get_or, set, take, length, length-set,
  length-append, All, All-set, All-get_or, get_or-set_self, get_or-set_ne, ltb, leb, ◌==◌,
  if◌then◌else◌, ok, err, enospc, e2big, arith, lt-or-le, Option-cases,
}
use tetra_bs.Core.Sap.{SapMsg}
use tetra_bs.Core.Memory.{load, store, length-store, load-store, load-store_apart}
use tetra_bs.Core.MsgBus.{
  MsgBusEntry, MsgBusQueue, zero_entry, slot, slot_msg, head_msg, enqueue, drop_head, size,
  copy_payload,
}

-- The values of `f` at `n` places from `h` on, going round at `cap`.
window : {A : Type 0} → (ℕ → A) → ℕ → ℕ → ℕ → List A
window f cap h zero = []
window f cap h (suc n) = window f cap h n ++ (f ((h + n) % cap) ∷ [])

window_cong :
    {A : Type 0} (f g : ℕ → A) (cap h n : ℕ)
    → ((k : ℕ) → k < n → f ((h + k) % cap) ≡ g ((h + k) % cap))
    → window f cap h n ≡ window g cap h n
unfolding window
window_cong f g cap h zero e = refl
window_cong f g cap h (suc n) e =
    ap₂ (λ l x. l ++ (x ∷ [])) (window_cong f g cap h n (λ k lt. e k (omega arith)))
      (e n (omega arith))

shift_round : (h n cap : ℕ) → ((h + 1) % cap + n) % cap ≡ (h + suc n) % cap
shift_round h n cap = rw mod-add-mod (ap (λ t. t % cap) {y = h + suc n} (omega arith))

-- The oldest place stands first.
window-first :
    {A : Type 0} (f : ℕ → A) (cap h n : ℕ)
    → h < cap
    → window f cap h (suc n) ≡ f h ∷ window f cap ((h + 1) % cap) n
unfolding window
window-first f cap h zero lt = ap (λ t. f t ∷ []) (rw add-zero (mod-eq_of_lt lt))
window-first f cap h (suc n) lt =
    ap₂ (λ l x. l ++ (f x ∷ [])) (window-first f cap h n lt) (sym (shift_round h n cap))

length-window : {A : Type 0} (f : ℕ → A) (cap h n : ℕ) → length (window f cap h n) ≡ n
unfolding window
length-window f cap h zero = refl
length-window f cap h (suc n) =
    omega
      (arith, length-append (window f cap h n) (f ((h + n) % cap) ∷ []), length-window f cap h n)

-- Different places of a window are different.
places_apart : (cap h k n : ℕ) → h < cap → k < n → n < cap → (h + k) % cap ≢ (h + n) % cap
places_apart cap h k n hh hk hn = elim (lt-or-le (h + n) cap) [
  | inl below ↦ omega (arith, mod-eq_of_lt below, mod-eq_of_lt {n = h + k} {m = cap} (omega arith))
  | inr over ↦ elim (lt-or-le (h + k) cap) [
    | inl low ↦ omega (
      arith,
      mod-eq_of_lt low,
      mod-eq-sub-mod {n = h + n} {m = cap} over,
      mod-eq_of_lt {n = h + n - cap} {m = cap} (omega arith),
    )
    | inr high ↦ omega (
      arith,
      mod-eq-sub-mod {n = h + n} {m = cap} over,
      mod-eq_of_lt {n = h + n - cap} {m = cap} (omega arith),
      mod-eq-sub-mod {n = h + k} {m = cap} high,
      mod-eq_of_lt {n = h + k - cap} {m = cap} (omega arith),
    )
  ]
]

-- The storage fits the queue, and every entry's payload fits its slot.
pub record IsQueue (q : MsgBusQueue) : Type 0 where
  pub entries_size : length q.entries ≡ q.cap
  pub payloads_size : length q.payloads ≡ q.cap * q.max_payload
  pub cap_pos : 0 < q.cap
  pub cap_small : q.cap < 2 ^ 64
  pub head_in : q.head < q.cap
  pub tail_at : q.tail ≡ (q.head + q.count) % q.cap
  pub count_le : q.count ≤ q.cap
  pub lens : All (λ e. e.len ≤ q.max_payload) q.entries

-- The messages of a queue, the oldest first.
pub contents : MsgBusQueue → List SapMsg
unfolding window
contents q = window (slot_msg q) q.cap q.head q.count

pub length-contents : (q : MsgBusQueue) → length (contents q) ≡ q.count
unfolding contents
length-contents q = length-window (slot_msg q) q.cap q.head q.count

pub contents_empty : (q : MsgBusQueue) → q.count ≡ 0 → contents q ≡ []
unfolding contents window
contents_empty q e = rw e refl

-- A message to post brings as many bytes as its length says.
abbrev pub HasPayload : SapMsg → Type 0
HasPayload m = (m.len ≡ 0) ⊎ ((bs : List ℕ) × (m.payload ≡ some bs) × (length bs ≡ m.len))

-- The message as it is delivered: one of length 0 has no payload.
abbrev pub letter : SapMsg → SapMsg
letter m = record m { payload = if ltb 0 m.len then m.payload else none }

slots_apart :
    (m i j li lj : ℕ) → i ≢ j → li ≤ m → lj ≤ m → (i * m + li ≤ j * m) ⊎ (j * m + lj ≤ i * m)
slots_apart m i j li lj ne hi hj = elim (lt-or-le i j) [
  | inl lt ↦ inl (grind arith)
  | inr ge ↦ inr (grind arith)
]

slot_in : (m i cap l : ℕ) → i < cap → l ≤ m → i * m + l ≤ cap * m
slot_in m i cap l h hl = grind arith

take_all : (bs : List ℕ) (n : ℕ) → length bs ≡ n → take n bs ≡ bs
take_all [] zero e = refl
take_all [] (suc n) e = refl
take_all (b ∷ bs) zero e = absurd (omega arith)
take_all (b ∷ bs) (suc n) e = ap (λ l. b ∷ l) (take_all bs n (omega arith))

-- The copy of the payload is a store of as many bytes as the length says.
copied :
    (q : MsgBusQueue) (m : SapMsg)
    → HasPayload m
    → (bs : List ℕ) × (copy_payload q m ≡ store q.payloads (slot q q.tail) bs)
      × (length bs ≡ m.len)
      × (letter m ≡ record m { payload = if ltb 0 m.len then some bs else none })
copied q m (inl empty) = elim (Option-cases m.payload) [
  | inl e ↦ ([], rw e refl, sym empty, rw empty refl)
  | inr (bytes, e) ↦ ([], rw (e, empty) refl, sym empty, rw empty refl)
]
copied q m (inr (bs, e, n)) = (bs, rw (e, take_all bs m.len n) refl, n, rw e refl)

module _ (q : MsgBusQueue) (e : MsgBusEntry) (bs : List ℕ) (v : IsQueue q)
    (fits : e.len ≤ q.max_payload) (n : length bs ≡ e.len) where
  -- The bucket with the entry `e` and its bytes in the free slot.
  abbrev filled : MsgBusQueue
  filled = record q {
    entries = set q.entries q.tail e;
    payloads = store q.payloads (slot q q.tail) bs;
    tail = (q.tail + 1) % q.cap;
    count = q.count + 1;
  }

  tail_in : q.tail < q.cap
  tail_in = rw v.tail_at (mod-lt _ v.cap_pos)

  slot_msg-filled_other : (i : ℕ) → i ≢ q.tail → slot_msg filled i ≡ slot_msg q i
  slot_msg-filled_other i ne =
      let old = get_or-set_ne q.entries {i = q.tail} {j = i} e zero_entry (λ p. ne (sym p)) in
      let len_le =
        All-get_or (λ x. x.len ≤ q.max_payload) q.entries i zero_entry v.lens (omega arith) in
      let l : ℕ = (get_or q.entries i zero_entry).len in
      rw
        (
          old,
          load-store_apart q.payloads (slot q q.tail) bs (slot q i) l
              (slots_apart q.max_payload i q.tail l (length bs) ne len_le (rw n fits)),
        )
        refl

  slot_msg-filled_tail : slot_msg filled q.tail ≡ record {
    src = e.src;
    dest = e.dest;
    sap = e.sap;
    len = e.len;
    payload = if ltb 0 e.len then some bs else none;
  }
  slot_msg-filled_tail =
      let new = get_or-set_self q.entries q.tail e zero_entry (rw v.entries_size tail_in) in
      rw
        (
          new,
          ← n,
          load-store q.payloads (slot q q.tail) bs (
              rw v.payloads_size
                (slot_in q.max_payload q.tail q.cap (length bs) tail_in (rw n fits))),
        )
        refl

-- ===== src/Core/MsgBus/Queue/Fifo.antt =====
-- Posting to a bucket appends to its messages; dropping its head removes the oldest.
use native.Mathlib.Nat.{mod-lt, mod-add-mod}
use tetra_bs.Prelude.{
  ℕ, zero, suc, ◌+◌, ◌-◌, ◌%◌, ◌^◌, ◌≤◌, ◌<◌, ◌≡◌, refl, sym, ap, ap₂, ◌∙◌, true, false, none, some,
  List, [], ◌∷◌, ◌++◌, get_or, set, length, length-set, All-set, All-get_or, ltb, ◌==◌,
  if◌then◌else◌, ok, err, enospc, e2big, arith,
}
use tetra_bs.Core.Sap.{SapMsg}
use tetra_bs.Core.Memory.{load, length-store}
use tetra_bs.Core.MsgBus.{
  MsgBusEntry, MsgBusQueue, zero_entry, slot, slot_msg, head_msg, enqueue, drop_head, size,
}
use tetra_bs.Core.MsgBus.Queue.{
  window, window_cong, window-first, places_apart, IsQueue, contents, HasPayload, letter, copied,
  filled, tail_in, slot_msg-filled_other, slot_msg-filled_tail,
}

module _ (q : MsgBusQueue) (e : MsgBusEntry) (bs : List ℕ) (v : IsQueue q)
    (fits : e.len ≤ q.max_payload) (n : length bs ≡ e.len) (room : q.count < q.cap) where
  filled-IsQueue : IsQueue (filled q e bs v fits n)
  filled-IsQueue = record {
    entries_size = length-set q.entries q.tail e ∙ v.entries_size;
    payloads_size = length-store q.payloads (slot q q.tail) bs ∙ v.payloads_size;
    cap_pos = v.cap_pos;
    cap_small = v.cap_small;
    head_in = v.head_in;
    tail_at =
        rw (v.tail_at, mod-add-mod)
          (ap (λ t. t % q.cap) {y = q.head + (q.count + 1)} (omega arith));
    count_le = omega arith;
    lens = All-set (λ x. x.len ≤ q.max_payload) q.entries q.tail e v.lens fits;
  }

  contents-filled :
      contents (filled q e bs v fits n)
      ≡ contents q
        ++ (record {
          src = e.src;
          dest = e.dest;
          sap = e.sap;
          len = e.len;
          payload = if ltb 0 e.len then some bs else none;
        }
            ∷ [])
  unfolding contents
  contents-filled =
      let f = slot_msg (filled q e bs v fits n) in
      ap (λ k. window f q.cap q.head k) {x = q.count + 1} {y = suc q.count} (omega arith)
      ∙ ap₂ (λ l x. l ++ (x ∷ []))
          (window_cong f (slot_msg q) q.cap q.head q.count (λ k lt.
            slot_msg-filled_other q e bs v fits n ((q.head + k) % q.cap)
              (rw v.tail_at (places_apart q.cap q.head k q.count v.head_in lt room))))
          (ap f (sym v.tail_at) ∙ slot_msg-filled_tail q e bs v fits n)

-- A message that fits a bucket with room is appended.
pub enqueue_room :
    (q : MsgBusQueue) (m : SapMsg)
    → IsQueue q
    → HasPayload m
    → m.len ≤ q.max_payload
    → q.count < q.cap
    → (q' : MsgBusQueue) × (enqueue q m ≡ (q', ok tt))
      × IsQueue q'
      × (contents q' ≡ contents q ++ (letter m ∷ []))
      × (q'.drops ≡ q.drops)
      × (q'.cap ≡ q.cap)
      × (q'.max_payload ≡ q.max_payload)
unfolding enqueue
enqueue_room q m v has fits room =
    let (bs, copy, n, as_sent) = copied q m has in
    let e : MsgBusEntry = record {
      src = m.src;
      dest = m.dest;
      sap = m.sap;
      len = m.len;
      in_use = true;
    } in
    let short : ltb q.max_payload m.len ≡ false = ground arith in
    let free : (q.count == q.cap) ≡ false = ground arith in
    let t : size (q.tail + 1) ≡ q.tail + 1 = omega (arith, tail_in q e bs v fits n) in
    let c : size (q.count + 1) ≡ q.count + 1 = omega arith in
    let entries' : List MsgBusEntry = set q.entries q.tail e in
    (
      filled q e bs v fits n,
      rw (short, free)
          (λ i. (
            record q { entries = entries'; payloads = copy i; tail = t i % q.cap; count = c i },
            ok tt,
          )),
      filled-IsQueue q e bs v fits n room,
      contents-filled q e bs v fits n room ∙ ap (λ x. contents q ++ (x ∷ [])) (sym as_sent),
      refl,
      refl,
      refl,
    )

-- A payload longer than the slots is refused, whatever the bucket holds.
pub enqueue_too_long :
    (q : MsgBusQueue) (m : SapMsg) → q.max_payload < m.len → enqueue q m ≡ (q, err e2big)
unfolding enqueue
enqueue_too_long q m h = ground arith

contents-drops : (q : MsgBusQueue) (d : ℕ) → contents (record q { drops = d }) ≡ contents q
unfolding contents
contents-drops q d = refl

drops-IsQueue : (q : MsgBusQueue) (d : ℕ) → IsQueue q → IsQueue (record q { drops = d })
drops-IsQueue q d v = record {
  entries_size = v.entries_size;
  payloads_size = v.payloads_size;
  cap_pos = v.cap_pos;
  cap_small = v.cap_small;
  head_in = v.head_in;
  tail_at = v.tail_at;
  count_le = v.count_le;
  lens = v.lens;
}

-- A full bucket counts the drop and keeps what it holds.
pub enqueue_full :
    (q : MsgBusQueue) (m : SapMsg)
    → IsQueue q
    → m.len ≤ q.max_payload
    → q.count ≡ q.cap
    → (enqueue q m ≡ (record q { drops = size (q.drops + 1) }, err enospc))
      × (contents (record q { drops = size (q.drops + 1) }) ≡ contents q)
      × IsQueue (record q { drops = size (q.drops + 1) })
unfolding enqueue
enqueue_full q m v h e =
    (ground arith, contents-drops q (size (q.drops + 1)), drops-IsQueue q (size (q.drops + 1)) v)

-- Clearing `in_use` of one entry leaves the rest of every entry.
abbrev cleared : MsgBusEntry → MsgBusEntry
cleared e = record e { in_use = false }

cleared_at :
    (es : List MsgBusEntry) (h i : ℕ)
    → get_or (set es h (cleared (get_or es h zero_entry))) i zero_entry
      ≡ record (get_or es i zero_entry) {
        in_use = (get_or (set es h (cleared (get_or es h zero_entry))) i zero_entry).in_use;
      }
cleared_at [] h i = refl
cleared_at (x ∷ xs) zero zero = refl
cleared_at (x ∷ xs) zero (suc i) = refl
cleared_at (x ∷ xs) (suc h) zero = refl
cleared_at (x ∷ xs) (suc h) (suc i) = cleared_at xs h i

entry_msg : MsgBusQueue → ℕ → MsgBusEntry → SapMsg
entry_msg q i e = record {
  src = e.src;
  dest = e.dest;
  sap = e.sap;
  len = e.len;
  payload = if ltb 0 e.len then some (load q.payloads (slot q i) e.len) else none;
}

slot_msg-drop_head : (q : MsgBusQueue) (i : ℕ) → slot_msg (drop_head q) i ≡ slot_msg q i
unfolding drop_head entry_msg
slot_msg-drop_head q i = ap (entry_msg q i) (cleared_at q.entries q.head i)

-- Dropping the head of a bucket that holds a message removes the oldest message.
pub drop_head_lem :
    (q : MsgBusQueue)
    → IsQueue q
    → 0 < q.count
    → IsQueue (drop_head q)
      × (contents q ≡ head_msg q ∷ contents (drop_head q))
      × ((drop_head q).count ≡ q.count - 1)
      × ((drop_head q).drops ≡ q.drops)
unfolding drop_head contents
drop_head_lem q v some_left =
    let c : size (q.count + 2 ^ 64 - 1) ≡ q.count - 1 = omega arith in
    let h : size (q.head + 1) ≡ q.head + 1 = omega arith in
    let same =
      window_cong (slot_msg q) (slot_msg (drop_head q)) q.cap ((q.head + 1) % q.cap) (q.count - 1)
        (λ k lt. sym (slot_msg-drop_head q ((((q.head + 1) % q.cap) + k) % q.cap))) in
    let wrapped : window (slot_msg (drop_head q)) q.cap ((q.head + 1) % q.cap) (q.count - 1)
        ≡ contents (drop_head q) =
      λ i. window (slot_msg (drop_head q)) q.cap (sym h i % q.cap) (sym c i) in
    (
      record {
        entries_size = length-set q.entries q.head _ ∙ v.entries_size;
        payloads_size = v.payloads_size;
        cap_pos = v.cap_pos;
        cap_small = v.cap_small;
        head_in = mod-lt _ v.cap_pos;
        tail_at =
            rw (c, h, mod-add-mod, v.tail_at)
              (ap (λ t. t % q.cap) {y = q.head + 1 + (q.count - 1)} (omega arith));
        count_le = rw c (omega arith);
        lens =
            All-set (λ x. x.len ≤ q.max_payload) q.entries q.head _ v.lens
              (All-get_or (λ x. x.len ≤ q.max_payload) q.entries q.head zero_entry v.lens
                (omega arith));
      },
      ap (window (slot_msg q) q.cap q.head) {x = q.count} {y = suc (q.count - 1)} (omega arith)
          ∙ window-first (slot_msg q) q.cap q.head (q.count - 1) v.head_in
          ∙ ap (λ l. head_msg q ∷ l) (same ∙ wrapped),
      c,
      refl,
    )

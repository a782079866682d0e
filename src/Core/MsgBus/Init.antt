-- ===== src/Core/MsgBus/Init.antt =====
-- `msgbus_init`: from storage that is as large as it is said to be, an empty well-formed bus.
use tetra_bs.Prelude.{
  ℕ, zero, suc, ◌+◌, ◌*◌, ◌^◌, ◌≤◌, ◌<◌, ◌≡◌, refl, ap, true, false, some, List, [], ◌∷◌, ◌++◌,
  All-replicate, length-replicate, ltb, ◌==◌, ◌||◌, ok, arith, take, drop, replicate, ◌∙◌, ap₂,
  drop-drop, take-drop,
}
use tetra_bs.Core.Sap.{prio_count}
use tetra_bs.Core.MsgBus.{
  MsgBus, MsgBusCfg, MsgBusEntry, MsgBusQueue, zero_entry, zero_reg, queue, reg_cap, msgbus_init,
  init_queue, size, zeroed, entry_bytes,
}
use tetra_bs.Core.MsgBus.Queue.{IsQueue, contents, contents_empty}
use tetra_bs.Core.MsgBus.Bus.{IsBus}

-- A slice of the zeroed part of the storage.
slice_zeroed :
    {A : Type 0} (t k n : ℕ) (z : A) (rest : List A)
    → k + n ≤ t
    → take n (drop k (replicate t z ++ rest)) ≡ replicate n z
slice_zeroed t zero zero z rest h = refl
slice_zeroed zero zero (suc n) z rest h = absurd (omega arith)
slice_zeroed (suc t) zero (suc n) z rest h =
    ap (λ l. z ∷ l) (slice_zeroed t zero n z rest (omega arith))
slice_zeroed zero (suc k) n z rest h = absurd (omega arith)
slice_zeroed (suc t) (suc k) n z rest h = slice_zeroed t k n z rest (omega arith)

-- Three parts of one size, side by side.
three_parts :
    {A : Type 0} (n : ℕ) (l : List A)
    → take n (drop (0 * n) l) ++ (take n (drop (1 * n) l) ++ take n (drop (2 * n) l))
      ≡ take (n * 3) l
three_parts n l =
    let zeroth : 0 * n ≡ 0 = omega arith in
    let one : 1 * n ≡ n = omega arith in
    let two : 2 * n ≡ n + n = omega arith in
    let all : n * 3 ≡ n + (n + n) = omega arith in
    rw (zeroth, one, two, all)
      (ap (λ r. take n l ++ r)
          (ap (λ r. take n (drop n l) ++ take n r) (drop-drop n n l) ∙ take-drop n n (drop n l))
        ∙ take-drop n (n + n) l)

-- The buckets of a bus lie in the storage side by side: whatever the storage holds, its front is
-- what the three buckets take from it, one behind the other, so that no two share a cell.
pub record SideBySide (cfg : MsgBusCfg) (es : List MsgBusEntry) (ps : List ℕ) : Type 0 where
  pub entries :
      (init_queue cfg es ps 0).entries
        ++ ((init_queue cfg es ps 1).entries ++ (init_queue cfg es ps 2).entries)
      ≡ take (cfg.queue_cap_per_prio * 3) es
  pub payloads :
      (init_queue cfg es ps 0).payloads
        ++ ((init_queue cfg es ps 1).payloads ++ (init_queue cfg es ps 2).payloads)
      ≡ take (cfg.queue_cap_per_prio * 3 * cfg.max_payload_bytes) ps

init_queue-SideBySide :
    (cfg : MsgBusCfg) (es : List MsgBusEntry) (ps : List ℕ) → SideBySide cfg es ps
unfolding init_queue
init_queue-SideBySide cfg es ps = record {
  entries = three_parts cfg.queue_cap_per_prio es;
  payloads =
      let cap : ℕ = cfg.queue_cap_per_prio in
      let m : ℕ = cfg.max_payload_bytes in
      let at : (p : ℕ) → p * cap * m ≡ p * (cap * m) = λ p. grind arith in
      let all : cap * 3 * m ≡ cap * m * 3 = grind arith in
      rw (at 0, at 1, at 2, all) (three_parts (cap * m) ps);
}

init_queue_lem :
    (cfg : MsgBusCfg) (es : List MsgBusEntry) (ps : List ℕ) (p te tp : ℕ)
    → 0 < cfg.queue_cap_per_prio
    → cfg.queue_cap_per_prio < 2 ^ 64
    → p * cfg.queue_cap_per_prio + cfg.queue_cap_per_prio ≤ te
    → p * cfg.queue_cap_per_prio * cfg.max_payload_bytes
        + cfg.queue_cap_per_prio * cfg.max_payload_bytes
      ≤ tp
    → IsQueue (init_queue cfg (zeroed te zero_entry es) (zeroed tp 0 ps) p)
      × (contents (init_queue cfg (zeroed te zero_entry es) (zeroed tp 0 ps) p) ≡ [])
unfolding init_queue
init_queue_lem cfg es ps p te tp pos small he hp =
    let cap : ℕ = cfg.queue_cap_per_prio in
    let entries = slice_zeroed te (p * cap) cap zero_entry (drop te es) he in
    let payloads =
      slice_zeroed tp (p * cap * cfg.max_payload_bytes) (cap * cfg.max_payload_bytes) 0 (drop tp ps)
        hp in
    (
      record {
        entries_size = rw entries (length-replicate cap zero_entry);
        payloads_size = rw payloads (length-replicate (cap * cfg.max_payload_bytes) 0);
        cap_pos = pos;
        cap_small = small;
        head_in = pos;
        tail_at = omega arith;
        count_le = omega arith;
        lens = rw entries (
            All-replicate (λ (e : MsgBusEntry). e.len ≤ cfg.max_payload_bytes) cap zero_entry
              (omega arith));
      },
      contents_empty (init_queue cfg (zeroed te zero_entry es) (zeroed tp 0 ps) p) refl,
    )

-- A configuration that names storage for three buckets, in sizes that fit `size_t`.
pub record IsCfg (cfg : MsgBusCfg) (entries : List MsgBusEntry) (payloads : List ℕ) : Type 0 where
  pub cap_pos : 0 < cfg.queue_cap_per_prio
  pub payload_pos : 0 < cfg.max_payload_bytes
  pub entry_storage : cfg.entry_storage ≡ some entries
  pub payload_storage : cfg.payload_storage ≡ some payloads
  pub entry_room : cfg.queue_cap_per_prio * 3 * entry_bytes ≤ cfg.entry_storage_bytes
  pub payload_room : cfg.queue_cap_per_prio * 3 * cfg.max_payload_bytes ≤ cfg.payload_storage_bytes
  pub entry_fits : cfg.entry_storage_bytes < 2 ^ 64
  pub payload_fits : cfg.payload_storage_bytes < 2 ^ 64

-- The storage after the part for three buckets was zeroed.
abbrev pub cleared_entries : MsgBusCfg → List MsgBusEntry → List MsgBusEntry
cleared_entries cfg es = let n = cfg.queue_cap_per_prio * 3 in replicate n zero_entry ++ drop n es

abbrev pub cleared_payloads : MsgBusCfg → List ℕ → List ℕ
cleared_payloads cfg ps =
    let n = cfg.queue_cap_per_prio * 3 * cfg.max_payload_bytes in replicate n 0 ++ drop n ps

module _ (cfg : MsgBusCfg) (entries : List MsgBusEntry) (payloads : List ℕ)
    (c : IsCfg cfg entries payloads) where
  total : ℕ
  total = size (cfg.queue_cap_per_prio * prio_count)

  bucket : ℕ → MsgBusQueue
  bucket =
      init_queue cfg (zeroed total zero_entry entries)
        (zeroed (size (total * cfg.max_payload_bytes)) 0 payloads)

  bucket_lem : (p : ℕ) → p < prio_count → IsQueue (bucket p) × (contents (bucket p) ≡ [])
  unfolding bucket total
  bucket_lem p lt =
      let cap : ℕ = cfg.queue_cap_per_prio in
      let m : ℕ = cfg.max_payload_bytes in
      let t : size (cap * prio_count) ≡ cap * 3 = omega (arith, c.entry_room, c.entry_fits) in
      let n : size (size (cap * prio_count) * m) ≡ cap * 3 * m =
        rw t (omega (arith, c.payload_room, c.payload_fits)) in
      let es : p * cap + cap ≤ cap * 3 = grind arith in
      let ps : p * cap * m + cap * m ≤ cap * 3 * m = grind (arith, es) in
      init_queue_lem cfg entries payloads p _ _ c.cap_pos
        (omega (arith, c.entry_room, c.entry_fits)) (rw t es) (rw n ps)

  fresh : MsgBus
  fresh = record {
    queues = bucket 0 ∷ bucket 1 ∷ bucket 2 ∷ [];
    regs = replicate reg_cap zero_reg;
    reg_count = 0;
    initialised = true;
  }

  each_fresh : (p : ℕ) → p < prio_count → queue fresh p ≡ bucket p
  unfolding fresh
  each_fresh zero h = refl
  each_fresh (suc zero) h = refl
  each_fresh (suc (suc zero)) h = refl
  each_fresh (suc (suc (suc p))) h = absurd (omega arith)

  -- `msgbus_init`, of a configuration with a capacity and a payload size above 0 and with storage for
  -- three buckets, in sizes that fit `size_t`, returns a well-formed bus with no message and no
  -- registration. Its three buckets are cut by `init_queue` from the storage, which was zeroed as far
  -- as they need it, and lie there side by side: whatever a storage holds, what `init_queue` takes
  -- from it for the buckets 0, 1 and 2 is, in that order, its front, so that no two buckets share a
  -- cell.
  pub msgbus_init-IsBus :
      (bus : MsgBus) × (msgbus_init cfg ≡ ok bus)
      × IsBus bus
      × ((p : ℕ) → p < prio_count → contents (queue bus p) ≡ [])
      × (bus.reg_count ≡ 0)
      × ((p : ℕ)
          → p < prio_count
          → queue bus p
            ≡ init_queue cfg (cleared_entries cfg entries) (cleared_payloads cfg payloads) p)
      × ((es : List MsgBusEntry) (ps : List ℕ) → SideBySide cfg es ps)
  unfolding msgbus_init fresh bucket total
  msgbus_init-IsBus =
      let room_e : ltb cfg.entry_storage_bytes
            (size (size (cfg.queue_cap_per_prio * prio_count) * entry_bytes))
          ≡ false =
        ground (arith, c.entry_room, c.entry_fits) in
      let t : size (cfg.queue_cap_per_prio * prio_count) ≡ cfg.queue_cap_per_prio * 3 =
        omega (arith, c.entry_room, c.entry_fits) in
      let room_p : ltb cfg.payload_storage_bytes
            (size (size (cfg.queue_cap_per_prio * prio_count) * cfg.max_payload_bytes))
          ≡ false =
        rw t (ground (arith, c.payload_room, c.payload_fits)) in
      let n : size (size (cfg.queue_cap_per_prio * prio_count) * cfg.max_payload_bytes)
          ≡ cfg.queue_cap_per_prio * 3 * cfg.max_payload_bytes =
        rw t (omega (arith, c.payload_room, c.payload_fits)) in
      let caps : (cfg.queue_cap_per_prio == 0 || cfg.max_payload_bytes == 0) ≡ false =
        ground (arith, c.cap_pos, c.payload_pos) in
      (
        fresh,
        rw (caps, c.entry_storage, c.payload_storage, room_e, room_p) refl,
        record {
          ready = refl;
          three = refl;
          each = λ p lt. rw (each_fresh p lt) (bucket_lem p lt).0;
          table = refl;
          regs_le = omega arith;
        },
        λ p lt. rw (each_fresh p lt) (bucket_lem p lt).1,
        refl,
        λ p lt.
            each_fresh p lt
            ∙ ap₂ (λ a b. init_queue cfg (zeroed a zero_entry entries) (zeroed b 0 payloads) p) t n,
        init_queue-SideBySide cfg,
      )

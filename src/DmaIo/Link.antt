-- ===== src/DmaIo/Link.antt =====
-- A channel from end to end, the way it finds the next frame behind bytes that are none, and what
-- its buffers hold.
use tetra_bs.Prelude.{
  lt-or-le, einval, ℕ, zero, suc, ◌+◌, ◌-◌, ◌^◌, ◌≤◌, ◌<◌, ◌≡◌, ◌⊎◌, inl, inr, refl, sym, ap, ◌∙◌,
  Bool, true, false, Option, some, none, List, [], ◌∷◌, ◌++◌, append-nil, take, drop, length, map,
  replicate, length-append, length-take, length-drop, ◌==◌, if◌then◌else◌, ok, ebadf, ebadmsg,
  enospc, arith, All, Bool-cases,
}
use tetra_bs.DmaIo.{
  chan_count, DmaChanState, header_bytes, max_payload, reasm_cap, frame_magic_is_known, be32_load,
  more, frame, failed, reasm_try_extract, reasm_read_one, u64, Written, dma_send_frame, Round,
  timeout, interrupted, poll_failed, hung_up, ready, read_failed, Received, got, nothing, refused,
  recv_loop, dma_recv_frame, received, is_more,
}
use tetra_bs.DmaIo.Frames.{frame_bytes, extract_garbage, size_lem}
use tetra_bs.DmaIo.Stream.{flatten, dma_send_frame_lem, dma_recv_frame_lem}

-- What one call sent, another receives: if a send succeeds and its bytes reach an open channel with
-- an empty staging buffer, split into reads in any way, then a call on that channel with room for the payload that
-- waits hands over that payload and leaves the staging buffer empty.
pub dma_recv_frame-send :
    (s r : DmaChanState) (ch rx cap : ℕ) (ws : List Written) (buf : List ℕ) (chunks : List (List ℕ))
    (last : List ℕ) (rs : List Round)
    → (dma_send_frame s ch ws buf).2 ≡ ok tt
    → length buf ≤ cap
    → rx < chan_count
    → r.opened ≡ true
    → r.reasm ≡ []
    → All (λ c. 0 < length c) chunks
    → 0 < length last
    → flatten chunks ++ last ≡ (dma_send_frame s ch ws buf).1
    → dma_recv_frame rx (map ready chunks ++ ready last ∷ rs) false r cap ≡ (
      record r {
        reasm = [];
        frames_recv_ok = u64 (r.frames_recv_ok + 1);
        bytes_recv = u64 (r.bytes_recv + length buf);
      },
      some (got buf),
    )
dma_recv_frame-send s r ch rx cap ws buf chunks last rs done room index opened empty filled end
      split =
    let (tx, fits, sent) = dma_send_frame_lem s ch ws buf done in
    let wire : flatten chunks ++ last ≡ frame_bytes ch buf = split ∙ ap (λ x. x.1) sent in
    let at : r.reasm ++ (flatten chunks ++ last) ≡ frame_bytes ch buf ++ [] =
      ap (λ l. l ++ (flatten chunks ++ last)) empty ∙ wire ∙ sym (append-nil _) in
    let size = size_lem ch tx buf [] fits in
    dma_recv_frame_lem ch cap buf [] rs tx fits room (omega (arith, size)) rx chunks last r index
      opened filled at
      (omega (
        arith,
        size,
        ap (length {A = ℕ}) wire,
        ap (length {A = ℕ}) (append-nil (frame_bytes ch buf)),
        length-append (flatten chunks) last,
        ap (λ l. length (l ++ flatten chunks)) empty,
      ))

-- Bytes in front of `f` at none of which a known magic starts
abbrev pub Garbage : List ℕ → List ℕ → Type 0
Garbage [] f = Unit {0}
Garbage (b ∷ g) f = (frame_magic_is_known (be32_load (b ∷ (g ++ f))) ≡ false) × Garbage g f

-- Calls of `dma_recv_frame` one after the other that read nothing new, and their results
abbrev pub recv_calls : ℕ → ℕ → DmaChanState → ℕ → DmaChanState × List (Option Received)
recv_calls zero rx s cap = (s, [])
recv_calls (suc n) rx s cap =
    let (s', x) = dma_recv_frame rx [] true s cap in
    let (s'', xs) = recv_calls n rx s' cap in (s'', x ∷ xs)

recv_garbage :
    (rx : ℕ) (s : DmaChanState) (cap : ℕ)
    → rx < chan_count
    → s.opened ≡ true
    → header_bytes ≤ length s.reasm
    → frame_magic_is_known (be32_load s.reasm) ≡ false
    → dma_recv_frame rx [] true s cap ≡ (
      record s { reasm = drop 1 s.reasm; drop_bad_magic = u64 (s.drop_bad_magic + 1) },
      some (refused ebadmsg),
    )
unfolding dma_recv_frame
recv_garbage rx s cap index opened n bad = rw (extract_garbage s cap n bad) (ground arith)

-- Resynchronisation: on an open channel, staged bytes at none of which one of the known magics starts
-- (a known magic with a bad length is not among them), with at least the 8 bytes of a header staged
-- behind them, cost one refused call each, among calls that read nothing new: EBADMSG, and one more
-- in the counter of bad magics. Then what stands behind them is at the front of the staging buffer.
pub recv_calls-Garbage :
    (g f : List ℕ) (rx : ℕ) (s : DmaChanState) (cap : ℕ)
    → rx < chan_count
    → s.opened ≡ true
    → s.drop_bad_magic < 2 ^ 64
    → header_bytes ≤ length f
    → Garbage g f
    → s.reasm ≡ g ++ f
    → recv_calls (length g) rx s cap ≡ (
      record s { reasm = f; drop_bad_magic = u64 (s.drop_bad_magic + length g) },
      replicate (length g) (some (refused ebadmsg)),
    )
recv_calls-Garbage [] f rx s cap index opened word n h at =
    let same : s.drop_bad_magic ≡ u64 (s.drop_bad_magic + 0) = omega arith in
    λ t. (record s { reasm = at t; drop_bad_magic = same t }, [])
recv_calls-Garbage (b ∷ g) f rx s cap index opened word n h at =
    let s1 : DmaChanState = record s {
      reasm = drop 1 s.reasm;
      drop_bad_magic = u64 (s.drop_bad_magic + 1);
    } in
    let bad = ap (λ r. frame_magic_is_known (be32_load r)) at ∙ h.0 in
    let one =
      recv_garbage rx s cap index opened (omega (arith, ap (length {A = ℕ}) at, length-append g f))
        bad in
    let rest = recv_calls-Garbage g f rx s1 cap index opened (omega arith) n h.1 (ap (drop 1) at) in
    let count : u64 (u64 (s.drop_bad_magic + 1) + length g)
        ≡ u64 (s.drop_bad_magic + suc (length g)) =
      omega arith in
    ap (λ q. let (s'', xs) = recv_calls (length g) rx q.0 cap in (s'', q.1 ∷ xs)) one
    ∙ ap (λ q. (q.0, some (refused ebadmsg) ∷ q.1)) rest
    ∙ (λ t. (
      record s { reasm = f; drop_bad_magic = count t },
      some (refused ebadmsg) ∷ replicate (length g) (some (refused ebadmsg)),
    ))

extract_outcomes :
    (s : DmaChanState) (cap n : ℕ)
    → be32_load (drop 4 s.reasm) ≡ n
    → (reasm_try_extract s cap ≡ (s, more))
      ⊎ (reasm_try_extract s cap ≡ (
        record s { reasm = drop 1 s.reasm; drop_bad_magic = u64 (s.drop_bad_magic + 1) },
        failed ebadmsg,
      ))
      ⊎ (reasm_try_extract s cap ≡ (
        record s { reasm = drop 8 s.reasm; drop_bad_length = u64 (s.drop_bad_length + 1) },
        failed ebadmsg,
      ))
      ⊎ (reasm_try_extract s cap ≡ (s, failed enospc))
      ⊎ ((n ≤ cap)
          × (n ≤ max_payload)
          × (reasm_try_extract s cap ≡ (
            record s {
              reasm = drop (8 + n) s.reasm;
              frames_recv_ok = u64 (s.frames_recv_ok + 1);
              bytes_recv = u64 (s.bytes_recv + n);
            },
            frame (take n (drop 8 s.reasm)),
          )))
unfolding reasm_try_extract
extract_outcomes s cap n e = rw e (ground arith)

-- the promise of a call's result to a buffer of `cap` bytes
abbrev pub Fits : ℕ → Option Received → Type 0
Fits cap (some (got p)) = (length p ≤ cap) × (length p ≤ max_payload)
Fits cap (some nothing) = Unit {0}
Fits cap (some (refused e)) = Unit {0}
Fits cap none = Unit {0}

extract_bounds :
    (s : DmaChanState) (cap : ℕ)
    → (length (reasm_try_extract s cap).0.reasm ≤ length s.reasm)
      × Fits cap (some (received (reasm_try_extract s cap).1 nothing))
extract_bounds s cap = elim (extract_outcomes s cap _ refl) [
  | inl e ↦ rw e (omega arith, tt)
  | inr (inl e) ↦ rw e (omega (arith, length-drop 1 s.reasm), tt)
  | inr (inr (inl e)) ↦ rw e (omega (arith, length-drop 8 s.reasm), tt)
  | inr (inr (inr (inl e))) ↦ rw e (omega arith, tt)
  | inr (inr (inr (inr (small, limit, e)))) ↦
      let n = be32_load (drop 4 s.reasm) in
      rw e (
        omega (arith, length-drop (8 + n) s.reasm),
        (
          omega (arith, length-take n (drop 8 s.reasm)),
          omega (arith, length-take n (drop 8 s.reasm)),
        ),
      )
]

reasm_read_one_bound :
    (s : DmaChanState) (bytes : List ℕ)
    → length s.reasm ≤ reasm_cap
    → length (reasm_read_one s bytes).reasm ≤ reasm_cap
unfolding reasm_read_one
reasm_read_one_bound s bytes h = omega (
  arith,
  length-append s.reasm (take (reasm_cap - length s.reasm) bytes),
  length-take (reasm_cap - length s.reasm) bytes,
)

recv_loop_bounds :
    (rs : List Round) (once : Bool) (s : DmaChanState) (cap : ℕ)
    → length s.reasm ≤ reasm_cap
    → (length (recv_loop rs once s cap).0.reasm ≤ reasm_cap) × Fits cap (recv_loop rs once s cap).1
unfolding recv_loop
recv_loop_bounds [] once s cap h = (h, tt)
recv_loop_bounds (timeout ∷ rs) once s cap h = (h, tt)
recv_loop_bounds (interrupted ∷ rs) once s cap h = recv_loop_bounds rs once s cap h
recv_loop_bounds (poll_failed e ∷ rs) once s cap h = (h, tt)
recv_loop_bounds (hung_up ∷ rs) once s cap h = (h, tt)
recv_loop_bounds (read_failed e ∷ rs) once s cap h = (h, tt)
recv_loop_bounds (ready bytes ∷ rs) once s cap h =
    let s1 = reasm_read_one s bytes in
    let x = reasm_try_extract s1 cap in
    let staged = reasm_read_one_bound s bytes h in
    let one = extract_bounds s1 cap in
    let idle = recv_loop_bounds rs once s cap h in
    let rest = recv_loop_bounds rs once x.0 cap (omega (arith, one.0, staged)) in
    elim (Bool-cases (length s1.reasm == length s.reasm)) [
      | inl still ↦ rw still (by_once once s _ (h, tt) idle)
      | inr moved ↦ rw moved (elim (Bool-cases (is_more x.1)) [
        | inl again ↦ rw again (by_once once x.0 _ (omega (arith, one.0, staged), tt) rest)
        | inr done ↦ rw done (omega (arith, one.0, staged), one.1)
      ])
    ]
  where
    by_once :
        (b : Bool) (t : DmaChanState) (r : DmaChanState × Option Received)
        → (length t.reasm ≤ reasm_cap) × Unit {0}
        → (length r.0.reasm ≤ reasm_cap) × Fits cap r.1
        → let q = if b then (t, some nothing) else r in
          (length q.0.reasm ≤ reasm_cap) × Fits cap q.1
    by_once true t r a c = (a.0, tt)
    by_once false t r a c = c

recv_no_channel :
    (rx : ℕ) (rs : List Round) (once : Bool) (s : DmaChanState) (cap : ℕ)
    → chan_count ≤ rx
    → dma_recv_frame rx rs once s cap ≡ (s, some (refused einval))
unfolding dma_recv_frame
recv_no_channel rx rs once s cap e = ground arith

recv_closed :
    (rx : ℕ) (rs : List Round) (once : Bool) (s : DmaChanState) (cap : ℕ)
    → rx < chan_count
    → s.opened ≡ false
    → dma_recv_frame rx rs once s cap ≡ (s, some (refused ebadf))
unfolding dma_recv_frame
recv_closed rx rs once s cap index e = ground arith

recv_opened :
    (rx : ℕ) (rs : List Round) (once : Bool) (s : DmaChanState) (cap : ℕ)
    → rx < chan_count
    → s.opened ≡ true
    → let x = reasm_try_extract s cap in
      dma_recv_frame rx rs once s cap
      ≡ (if is_more x.1 then recv_loop rs once x.0 cap else (x.0, some (received x.1 nothing)))
unfolding dma_recv_frame
recv_opened rx rs once s cap index e = ground arith

-- Whatever the pipe does, and whatever channel is named, a call never stages more than the buffer holds, and a frame that it
-- hands over fits the caller's buffer and the limit on payloads.
pub dma_recv_frame_bounds :
    (rx : ℕ) (rs : List Round) (once : Bool) (s : DmaChanState) (cap : ℕ)
    → length s.reasm ≤ reasm_cap
    → (length (dma_recv_frame rx rs once s cap).0.reasm ≤ reasm_cap)
      × Fits cap (dma_recv_frame rx rs once s cap).1
dma_recv_frame_bounds rx rs once s cap h =
    let x = reasm_try_extract s cap in
    let one = extract_bounds s cap in
    let rest = recv_loop_bounds rs once x.0 cap (omega (arith, one.0)) in
    elim (lt-or-le rx chan_count) [
      | inr out ↦ rw (recv_no_channel rx rs once s cap out) (h, tt)
      | inl index ↦ elim (Bool-cases s.opened) [
        | inr shut ↦ rw (recv_closed rx rs once s cap index shut) (h, tt)
        | inl opened ↦
            rw (recv_opened rx rs once s cap index opened) (elim (Bool-cases (is_more x.1)) [
              | inl again ↦ rw again rest
              | inr done ↦ rw done (omega (arith, one.0), one.1)
            ])
      ]
    ]

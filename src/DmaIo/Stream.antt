-- ===== src/DmaIo/Stream.antt =====
-- The byte stream of a channel: what `dma_send_frame` writes into it, however `write` splits it, and
-- what `dma_recv_frame` reads out of it, however `read` splits it.
use tetra_bs.Prelude.{
  map, ℕ, zero, suc, ◌+◌, ◌-◌, ◌≤◌, ◌<◌, ◌≡◌, ◌≢◌, ◌⊎◌, inl, inr, refl, sym, ap, ◌∙◌, true, false,
  some, List, [], ◌∷◌, ◌++◌, append-nil, append_assoc, take, drop, length, length-append,
  length-drop, take-length_append, ◌==◌, Result, ok, err, Errno, eio, arith, All,
}
use tetra_bs.DmaIo.{
  chan_count, DmaChanState, header_bytes, max_payload, reasm_cap, frame_header, more, frame,
  reasm_try_extract, reasm_read_one, u64, Written, wrote, interrupted, write_failed, write_all,
  send_bytes, dma_send_frame, Round, ready, got, recv_loop, dma_recv_frame,
}
use tetra_bs.DmaIo.Frames.{frame_bytes, reasm_try_extract_frame, reasm_try_extract_part, size_lem}

take-append_drop : (n : ℕ) (l : List ℕ) → take n l ++ drop n l ≡ l
take-append_drop zero l = refl
take-append_drop (suc n) [] = refl
take-append_drop (suc n) (a ∷ l) = ap (λ r. a ∷ r) (take-append_drop n l)

-- The loop of writes puts the whole buffer into the pipe if it succeeds, and otherwise a part of
-- it from the front.
pub write_all_lem :
    (ws : List Written) (buf : List ℕ)
    → (((write_all ws buf).2 ≡ ok tt) × ((write_all ws buf).0 ≡ buf))
      ⊎ ((e : Errno) × (left : List ℕ) × ((write_all ws buf).2 ≡ err e)
          × ((write_all ws buf).0 ++ left ≡ buf))
unfolding write_all
write_all_lem ws [] = inl (refl, refl)
write_all_lem [] (b ∷ bs) = inr (eio, b ∷ bs, refl, refl)
write_all_lem (interrupted ∷ ws) (b ∷ bs) = write_all_lem ws (b ∷ bs)
write_all_lem (write_failed e ∷ ws) (b ∷ bs) = inr (e, b ∷ bs, refl, refl)
write_all_lem (wrote n ∷ ws) (b ∷ bs) = elim (write_all_lem ws (drop n (b ∷ bs))) [
  | inl (done, all) ↦ inl (done, ap (λ r. take n (b ∷ bs) ++ r) all ∙ take-append_drop n (b ∷ bs))
  | inr (e, left, bad, part) ↦ inr (
    e,
    left,
    bad,
    append_assoc (take n (b ∷ bs)) _ left
        ∙ ap (λ r. take n (b ∷ bs) ++ r) part
        ∙ take-append_drop n (b ∷ bs),
  )
]

-- What the loops of a send come to: the whole of the header and the payload, and the counters
-- moved on; or an error, a part of them from the front, and the state as it was.
send_bytes_lem :
    (s : DmaChanState) (ws : List Written) (hdr buf : List ℕ)
    → (send_bytes s ws hdr buf ≡ (
      record s {
        frames_send_ok = u64 (s.frames_send_ok + 1);
        bytes_send = u64 (s.bytes_send + length buf);
      },
      hdr ++ buf,
      ok tt,
    ))
      ⊎ ((e : Errno) × (out : List ℕ) × (left : List ℕ) × (send_bytes s ws hdr buf
            ≡ (s, out, err e))
          × (out ++ left ≡ hdr ++ buf))
unfolding send_bytes
send_bytes_lem s ws hdr buf = elim (write_all_lem ws hdr) [
  | inr (e, left, bad, part) ↦ inr (
    e,
    (write_all ws hdr).0,
    left ++ buf,
    rw (bad, send_bytes) refl,
    sym (append_assoc _ left buf) ∙ ap (λ r. r ++ buf) part,
  )
  | inl (done, all) ↦ elim (write_all_lem (write_all ws hdr).1 buf) [
    | inr (e, left, bad, part) ↦ inr (
      e,
      (write_all ws hdr).0 ++ (write_all (write_all ws hdr).1 buf).0,
      left,
      rw (done, bad, send_bytes) refl,
      append_assoc _ _ left ∙ (λ t. all t ++ part t),
    )
    | inl (done', all') ↦ inl (
        rw (done, done', send_bytes)
          (λ t. (
            record s {
              frames_send_ok = u64 (s.frames_send_ok + 1);
              bytes_send = u64 (s.bytes_send + length buf);
            },
            all t ++ all' t,
            ok tt,
          )))
  ]
]

send_guards :
    (s : DmaChanState) (ch : ℕ) (ws : List Written) (buf : List ℕ)
    → (dma_send_frame s ch ws buf).2 ≡ ok tt
    → ((ch ≡ 1) ⊎ (ch ≡ 3))
      × (length buf ≤ max_payload)
      × (dma_send_frame s ch ws buf ≡ send_bytes s ws (frame_header ch (length buf)) buf)
unfolding dma_send_frame
send_guards s ch ws buf done = ground arith

ok-ne-err : (e : Errno) → ◌≢◌ {A = Result (Unit {0})} (ok tt) (err e)
ok-ne-err e p = cc

-- A send that succeeds was on a transmitting channel with a payload within the limit, it put the
-- whole frame into the pipe, and it counted the frame and its bytes.
pub dma_send_frame_lem :
    (s : DmaChanState) (ch : ℕ) (ws : List Written) (buf : List ℕ)
    → (dma_send_frame s ch ws buf).2 ≡ ok tt
    → ((ch ≡ 1) ⊎ (ch ≡ 3))
      × (length buf ≤ max_payload)
      × (dma_send_frame s ch ws buf ≡ (
        record s {
          frames_send_ok = u64 (s.frames_send_ok + 1);
          bytes_send = u64 (s.bytes_send + length buf);
        },
        frame_bytes ch buf,
        ok tt,
      ))
dma_send_frame_lem s ch ws buf done =
    let (tx, fits, e) = send_guards s ch ws buf done in
    elim (send_bytes_lem s ws (frame_header ch (length buf)) buf) [
      | inl sent ↦ (tx, fits, e ∙ sent)
      | inr (errno, out, left, bad, part) ↦
          absurd (ok-ne-err errno (sym done ∙ ap (λ r. r.2) (e ∙ bad)))
    ]

take_all : (n : ℕ) (l : List ℕ) → length l ≤ n → take n l ≡ l
take_all zero [] h = refl
take_all zero (a ∷ l) h = absurd (omega arith)
take_all (suc n) [] h = refl
take_all (suc n) (a ∷ l) h = ap (λ r. a ∷ r) (take_all n l (omega arith))

take-append : (n : ℕ) (l x : List ℕ) → n ≤ length l → take n (l ++ x) ≡ take n l
take-append zero l x h = refl
take-append (suc n) [] x h = absurd (omega arith)
take-append (suc n) (a ∷ l) x h = ap (λ r. a ∷ r) (take-append n l x (omega arith))

-- Of two ways to split a list, the shorter front is a front of the longer one.
shorter_front :
    (a t f r : List ℕ) → a ++ t ≡ f ++ r → length a ≤ length f → a ++ drop (length a) f ≡ f
shorter_front a t f r e le =
    ap (λ l. l ++ drop (length a) f)
      (sym (take-length_append a t) ∙ ap (take (length a)) e ∙ take-append (length a) f r le)
    ∙ take-append_drop (length a) f

abbrev pub flatten : List (List ℕ) → List ℕ
flatten [] = []
flatten (c ∷ cs) = c ++ flatten cs

recv_enters :
    (rx : ℕ) (rs : List Round) (s : DmaChanState) (cap : ℕ)
    → rx < chan_count
    → s.opened ≡ true
    → reasm_try_extract s cap ≡ (s, more)
    → dma_recv_frame rx rs false s cap ≡ recv_loop rs false s cap
unfolding dma_recv_frame
recv_enters rx rs s cap index opened e = rw e (ground arith)

-- One read that finds bytes, for a state that the buffer has room for.
module _ (s : DmaChanState) (c : List ℕ) (cap : ℕ) (rs : List Round)
    (room : length (s.reasm ++ c) ≤ reasm_cap) (some_bytes : 0 < length c) where
  reasm_read_one_lem : reasm_read_one s c ≡ record s { reasm = s.reasm ++ c }
  unfolding reasm_read_one
  reasm_read_one_lem =
      let all : take (reasm_cap - length s.reasm) c ≡ c =
        take_all _ c (omega (arith, length-append s.reasm c)) in
      λ t. record s { reasm = s.reasm ++ all t }

  grows : (length (s.reasm ++ c) == length s.reasm) ≡ false
  grows = ground (arith, length-append s.reasm c)

  loop_more :
      reasm_try_extract (record s { reasm = s.reasm ++ c }) cap
        ≡ (record s { reasm = s.reasm ++ c }, more)
      → recv_loop (ready c ∷ rs) false s cap
        ≡ recv_loop rs false (record s { reasm = s.reasm ++ c }) cap
  unfolding recv_loop
  loop_more e = rw (reasm_read_one_lem, e, grows) refl

  loop_frame :
      (s' : DmaChanState) (p : List ℕ)
      → reasm_try_extract (record s { reasm = s.reasm ++ c }) cap ≡ (s', frame p)
      → recv_loop (ready c ∷ rs) false s cap ≡ (s', some (got p))
  unfolding recv_loop
  loop_frame s' p e = rw (reasm_read_one_lem, e, grows) refl

module _ (ch cap : ℕ) (p rest : List ℕ) (rs : List Round) (tx : (ch ≡ 1) ⊎ (ch ≡ 3))
    (fits : length p ≤ max_payload) (room : length p ≤ cap)
    (staging : length (frame_bytes ch p ++ rest) ≤ reasm_cap) where
  size : length (frame_bytes ch p) ≡ header_bytes + length p
  size =
      omega (arith, size_lem ch tx p [] fits, ap (length {A = ℕ}) (append-nil (frame_bytes ch p)))

  -- The loop, from reads that each end before the frame does, to one that brings its end.
  recv_loop_frame :
      (chunks : List (List ℕ)) (last : List ℕ) (s : DmaChanState)
      → All (λ c. 0 < length c) chunks
      → s.reasm ++ (flatten chunks ++ last) ≡ frame_bytes ch p ++ rest
      → length (s.reasm ++ flatten chunks) < header_bytes + length p
      → recv_loop (map ready chunks ++ ready last ∷ rs) false s cap ≡ (
        record s {
          reasm = rest;
          frames_recv_ok = u64 (s.frames_recv_ok + 1);
          bytes_recv = u64 (s.bytes_recv + length p);
        },
        some (got p),
      )
  recv_loop_frame [] last s filled at short =
      let total = ap (length {A = ℕ}) at in
      loop_frame s last cap rs (omega arith)
        (omega (
          arith,
          size,
          length-append s.reasm last,
          length-append (frame_bytes ch p) rest,
          ap (length {A = ℕ}) (append-nil s.reasm),
        ))
        _ p
        (reasm_try_extract_frame ch p rest (record s { reasm = s.reasm ++ last }) cap tx fits room
          at)
  recv_loop_frame (c ∷ chunks) last s filled at short =
      let s1 : DmaChanState = record s { reasm = s.reasm ++ c } in
      let at1 : (s.reasm ++ c) ++ (flatten chunks ++ last) ≡ frame_bytes ch p ++ rest =
        append_assoc s.reasm c _
        ∙ ap (λ r. s.reasm ++ r) (sym (append_assoc c (flatten chunks) last))
        ∙ at in
      let short1 : length ((s.reasm ++ c) ++ flatten chunks) < header_bytes + length p =
        omega (arith, ap (length {A = ℕ}) (append_assoc s.reasm c (flatten chunks))) in
      let below : length (s.reasm ++ c) < header_bytes + length p =
        omega (arith, length-append (s.reasm ++ c) (flatten chunks)) in
      let part =
        reasm_try_extract_part ch p (drop (length (s.reasm ++ c)) (frame_bytes ch p)) s1 cap tx fits
          (omega (arith, size, length-drop (length (s.reasm ++ c)) (frame_bytes ch p)))
          (shorter_front (s.reasm ++ c) (flatten chunks ++ last) (frame_bytes ch p) rest at1
            (omega (arith, size))) in
      loop_more s c cap (map ready chunks ++ ready last ∷ rs)
        (omega (arith, size, length-append (frame_bytes ch p) rest)) filled.0 part
      ∙ recv_loop_frame chunks last s1 filled.1 at1 short1

  -- Reassembly of a frame with the magic of channel 1 or 3 (TMAS or TMDC, not TMAR), whose payload is
  -- within the limit on payloads and fits the caller's buffer, when the frame and the bytes that come
  -- with it fit the staging buffer together: on an open channel whose staging buffer holds a part of
  -- the frame or nothing, a call that waits hands over the frame's payload, however reads of at
  -- least one byte each split the frame, once the read that brings its last byte is done; the bytes
  -- behind the frame stay staged.
  pub dma_recv_frame_lem :
      (rx : ℕ) (chunks : List (List ℕ)) (last : List ℕ) (s : DmaChanState)
      → rx < chan_count
      → s.opened ≡ true
      → All (λ c. 0 < length c) chunks
      → s.reasm ++ (flatten chunks ++ last) ≡ frame_bytes ch p ++ rest
      → length (s.reasm ++ flatten chunks) < header_bytes + length p
      → dma_recv_frame rx (map ready chunks ++ ready last ∷ rs) false s cap ≡ (
        record s {
          reasm = rest;
          frames_recv_ok = u64 (s.frames_recv_ok + 1);
          bytes_recv = u64 (s.bytes_recv + length p);
        },
        some (got p),
      )
  dma_recv_frame_lem rx chunks last s index opened filled at short =
      let part =
        reasm_try_extract_part ch p (drop (length s.reasm) (frame_bytes ch p)) s cap tx fits
          (omega (
            arith,
            size,
            length-drop (length s.reasm) (frame_bytes ch p),
            length-append s.reasm (flatten chunks),
          ))
          (shorter_front s.reasm (flatten chunks ++ last) (frame_bytes ch p) rest at
            (omega (arith, size, length-append s.reasm (flatten chunks)))) in
      recv_enters rx (map ready chunks ++ ready last ∷ rs) s cap index opened part
      ∙ recv_loop_frame chunks last s filled at short

-- ===== src/DmaIo/Tests.antt =====
-- The theorems about sw/dma_io at concrete inputs.
use tetra_bs.Prelude.{
  ℕ, ◌+◌, ◌≤◌, ◌≡◌, ◌⊎◌, inl, refl, sym, ap, true, false, some, List, [], ◌∷◌, ◌++◌, length,
  replicate, map, ok, ebadmsg, arith,
}
use tetra_bs.DmaIo.{
  DmaChanState, reasm_cap, max_payload, u64, Written, wrote, interrupted, write_all, be32_load,
  be32_store, send_bytes, dma_send_frame, ready, timeout, got, refused, dma_recv_frame,
}
use tetra_bs.DmaIo.Frames.{frame_bytes}
use tetra_bs.DmaIo.Stream.{dma_send_frame_lem, dma_recv_frame_lem}
use tetra_bs.DmaIo.Link.{
  dma_recv_frame-send, recv_calls, recv_calls-Garbage, Fits, dma_recv_frame_bounds,
}

abbrev chan : List ℕ → DmaChanState
chan bytes = record {
  reasm = bytes;
  opened = true;
  frames_recv_ok = 0;
  frames_send_ok = 0;
  bytes_recv = 0;
  bytes_send = 0;
  drop_bad_magic = 0;
  drop_bad_length = 0;
}

-- 'T' 'M' 'A' 'S', a length of 2 and two bytes
abbrev tmas_frame : List ℕ
tmas_frame = 0x54 ∷ 0x4d ∷ 0x41 ∷ 0x53 ∷ 0 ∷ 0 ∷ 0 ∷ 2 ∷ 7 ∷ 9 ∷ []

abbrev writes : List Written
writes = wrote 3 ∷ interrupted ∷ wrote 5 ∷ wrote 2 ∷ []

sent :
    dma_send_frame (chan []) 1 writes (7 ∷ 9 ∷ [])
    ≡ (record (chan []) { frames_send_ok = 1; bytes_send = 2 }, tmas_frame, ok tt)
unfolding dma_send_frame send_bytes write_all be32_store
sent = refl

sent_fine : (dma_send_frame (chan []) 1 writes (7 ∷ 9 ∷ [])).2 ≡ ok tt
sent_fine = ap (λ r. r.2) sent

dma_send_frame_lem_example :
    ((◌≡◌ {A = ℕ} 1 1) ⊎ (◌≡◌ {A = ℕ} 1 3))
    × (2 ≤ max_payload)
    × (dma_send_frame (chan []) 1 writes (7 ∷ 9 ∷ []) ≡ (
      record (chan []) { frames_send_ok = u64 (0 + 1); bytes_send = u64 (0 + 2) },
      frame_bytes 1 (7 ∷ 9 ∷ []),
      ok tt,
    ))
dma_send_frame_lem_example = dma_send_frame_lem (chan []) 1 writes (7 ∷ 9 ∷ []) sent_fine

abbrev first_reads : List (List ℕ)
first_reads = (0x54 ∷ 0x4d ∷ 0x41 ∷ []) ∷ (0x53 ∷ 0 ∷ 0 ∷ 0 ∷ 2 ∷ []) ∷ []

dma_recv_frame-send_example :
    dma_recv_frame 0 (map ready first_reads ++ ready (7 ∷ 9 ∷ []) ∷ []) false (chan []) 16 ≡ (
      record (chan []) { frames_recv_ok = u64 (0 + 1); bytes_recv = u64 (0 + 2) },
      some (got (7 ∷ 9 ∷ [])),
    )
dma_recv_frame-send_example =
    dma_recv_frame-send (chan []) (chan []) 1 0 16 writes (7 ∷ 9 ∷ []) first_reads (7 ∷ 9 ∷ []) []
      sent_fine (omega arith) (omega arith) refl refl (omega arith) (omega arith)
      (sym (ap (λ r. r.1) sent))

tmas_frame_lem : tmas_frame ++ (1 ∷ []) ≡ frame_bytes 1 (7 ∷ 9 ∷ []) ++ (1 ∷ [])
unfolding be32_store
tmas_frame_lem = refl

-- The buffer holds the first byte of the frame, and the last read brings one of the next frame.
dma_recv_frame_lem_example :
    dma_recv_frame 0
      (map ready ((0x4d ∷ 0x41 ∷ []) ∷ [])
        ++ ready (0x53 ∷ 0 ∷ 0 ∷ 0 ∷ 2 ∷ 7 ∷ 9 ∷ 1 ∷ []) ∷ timeout ∷ [])
      false
      (chan (0x54 ∷ []))
      16
    ≡ (
      record (chan (1 ∷ [])) { frames_recv_ok = u64 (0 + 1); bytes_recv = u64 (0 + 2) },
      some (got (7 ∷ 9 ∷ [])),
    )
unfolding be32_store
dma_recv_frame_lem_example =
    dma_recv_frame_lem 1 16 (7 ∷ 9 ∷ []) (1 ∷ []) (timeout ∷ []) (inl refl) (omega arith)
      (omega arith) (omega arith) 0 ((0x4d ∷ 0x41 ∷ []) ∷ [])
      (0x53 ∷ 0 ∷ 0 ∷ 0 ∷ 2 ∷ 7 ∷ 9 ∷ 1 ∷ []) (chan (0x54 ∷ [])) (omega arith) refl (omega arith)
      tmas_frame_lem (omega arith)

-- Two bytes of noise before the frame
recv_calls-Garbage_example : recv_calls 2 0 (chan (0 ∷ 0x54 ∷ tmas_frame)) 16 ≡ (
  record (chan tmas_frame) { drop_bad_magic = u64 (0 + 2) },
  replicate 2 (some (refused ebadmsg)),
)
unfolding be32_load
recv_calls-Garbage_example =
    recv_calls-Garbage (0 ∷ 0x54 ∷ []) tmas_frame 0 (chan (0 ∷ 0x54 ∷ tmas_frame)) 16 (omega arith)
      refl (omega arith) (omega arith) (refl, (refl, tt)) refl

dma_recv_frame_bounds_example :
    (length (dma_recv_frame 0 (ready tmas_frame ∷ []) true (chan []) 16).0.reasm ≤ reasm_cap)
    × Fits 16 (dma_recv_frame 0 (ready tmas_frame ∷ []) true (chan []) 16).1
dma_recv_frame_bounds_example =
    dma_recv_frame_bounds 0 (ready tmas_frame ∷ []) true (chan []) 16 (omega arith)

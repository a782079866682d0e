-- ===== src/DmaIo/Frames.antt =====
-- One frame in the staging buffer: what it is parsed as, whole, in part, and behind other bytes.
use tetra_bs.Prelude.{
  ℕ, zero, suc, ◌+◌, ◌%◌, ◌^◌, ◌≤◌, ◌<◌, ◌≡◌, ◌⊎◌, inl, inr, refl, sym, ap, ◌∙◌, true, false, List,
  [], ◌∷◌, ◌++◌, append_assoc, take, drop, length, length-append, length-drop, append-nil,
  take-length_append, drop-length_append, drop-drop, ok, ebadmsg, arith, lt-or-le,
}
use tetra_bs.DmaIo.{
  DmaChanState, header_bytes, max_payload, tx_magic, be32_load, be32_store, frame_magic_is_known,
  frame_parse_header, frame_header, more, frame, failed, reasm_try_extract, u64,
}

-- the bytes of a frame on the wire
abbrev pub frame_bytes : ℕ → List ℕ → List ℕ
frame_bytes ch p = frame_header ch (length p) ++ p

-- A big-endian word is read as it was written.
pub be32_load-be32_store :
    (v : ℕ) (rest : List ℕ) → v < 2 ^ 32 → be32_load (be32_store v ++ rest) ≡ v
unfolding be32_load be32_store
be32_load-be32_store v rest h = omega arith

length-be32_store : (v : ℕ) → length (be32_store v) ≡ 4
unfolding be32_store
length-be32_store v = refl

drop-be32_store : (v : ℕ) (rest : List ℕ) → drop 4 (be32_store v ++ rest) ≡ rest
unfolding be32_store
drop-be32_store v rest = refl

module _ (ch : ℕ) (tx : (ch ≡ 1) ⊎ (ch ≡ 3)) where
  tx_magic_known : (tx_magic ch < 2 ^ 32) × (frame_magic_is_known (tx_magic ch) ≡ true)
  tx_magic_known = ground (arith, tx)

  module _ (p rest : List ℕ) (fits : length p ≤ max_payload) where
    magic_lem : be32_load (frame_bytes ch p ++ rest) ≡ tx_magic ch
    magic_lem =
        ap be32_load (
          append_assoc (frame_header ch (length p)) p rest
          ∙ append_assoc (be32_store (tx_magic ch)) (be32_store (length p % 2 ^ 32)) (p ++ rest))
        ∙ be32_load-be32_store (tx_magic ch) _ tx_magic_known.0

    tail_lem : drop 4 (frame_bytes ch p ++ rest) ≡ be32_store (length p % 2 ^ 32) ++ (p ++ rest)
    tail_lem =
        ap (drop 4) (
          append_assoc (frame_header ch (length p)) p rest
          ∙ append_assoc (be32_store (tx_magic ch)) (be32_store (length p % 2 ^ 32)) (p ++ rest))
        ∙ drop-be32_store (tx_magic ch) _

    length_lem : be32_load (drop 4 (frame_bytes ch p ++ rest)) ≡ length p
    length_lem =
        ap be32_load tail_lem
        ∙ be32_load-be32_store (length p % 2 ^ 32) _ (omega arith)
        ∙ omega arith

    pub size_lem : length (frame_bytes ch p ++ rest) ≡ header_bytes + length p + length rest
    size_lem = omega (
      arith,
      length-append (frame_bytes ch p) rest,
      length-append (frame_header ch (length p)) p,
      length-append (be32_store (tx_magic ch)) (be32_store (length p % 2 ^ 32)),
      length-be32_store (tx_magic ch),
      length-be32_store (length p % 2 ^ 32),
    )

    payload_lem : drop header_bytes (frame_bytes ch p ++ rest) ≡ p ++ rest
    unfolding be32_store
    payload_lem = refl

    -- The header of a frame is parsed as the channel's magic and the payload's length.
    pub frame_parse_header_lem :
        frame_parse_header (frame_bytes ch p ++ rest) ≡ ok (tx_magic ch, length p)
    unfolding frame_parse_header
    frame_parse_header_lem =
        rw (magic_lem, length_lem, tx_magic_known.1, size_lem) (ground (arith, tx))

-- The branches of `reasm_try_extract`, for a state whose header is known.
module _ (s : DmaChanState) (cap n : ℕ) (word : be32_load (drop 4 s.reasm) ≡ n) where
  extract_frame :
      frame_magic_is_known (be32_load s.reasm) ≡ true
      → n ≤ max_payload
      → n ≤ cap
      → header_bytes + n ≤ length s.reasm
      → reasm_try_extract s cap ≡ (
        record s {
          reasm = drop (header_bytes + n) s.reasm;
          frames_recv_ok = u64 (s.frames_recv_ok + 1);
          bytes_recv = u64 (s.bytes_recv + n);
        },
        frame (take n (drop header_bytes s.reasm)),
      )
  unfolding reasm_try_extract
  extract_frame known small room whole = rw (word, known) (ground arith)

  extract_part :
      frame_magic_is_known (be32_load s.reasm) ≡ true
      → n ≤ max_payload
      → length s.reasm < header_bytes + n
      → reasm_try_extract s cap ≡ (s, more)
  unfolding reasm_try_extract
  extract_part known small part = rw (word, known) (ground arith)

extract_few :
    (s : DmaChanState) (cap : ℕ)
    → length s.reasm < header_bytes
    → reasm_try_extract s cap ≡ (s, more)
unfolding reasm_try_extract
extract_few s cap few = ground arith

pub extract_garbage :
    (s : DmaChanState) (cap : ℕ)
    → header_bytes ≤ length s.reasm
    → frame_magic_is_known (be32_load s.reasm) ≡ false
    → reasm_try_extract s cap ≡ (
      record s { reasm = drop 1 s.reasm; drop_bad_magic = u64 (s.drop_bad_magic + 1) },
      failed ebadmsg,
    )
unfolding reasm_try_extract
extract_garbage s cap n bad = rw bad (ground arith)

be32_load-append : (p x : List ℕ) → 4 ≤ length p → be32_load (p ++ x) ≡ be32_load p
unfolding be32_load
be32_load-append [] x h = absurd (omega arith)
be32_load-append (a ∷ []) x h = absurd (omega arith)
be32_load-append (a ∷ b ∷ []) x h = absurd (omega arith)
be32_load-append (a ∷ b ∷ c ∷ []) x h = absurd (omega arith)
be32_load-append (a ∷ b ∷ c ∷ d ∷ p) x h = refl

pub drop-append : (n : ℕ) (p x : List ℕ) → n ≤ length p → drop n (p ++ x) ≡ drop n p ++ x
drop-append zero p x h = refl
drop-append (suc n) [] x h = absurd (omega arith)
drop-append (suc n) (a ∷ p) x h = drop-append n p x (omega arith)

-- A frame of a transmitting channel that stands whole at the front of the staging buffer, and whose
-- payload fits the caller's buffer, is handed over as its payload; what follows it stays.
pub reasm_try_extract_frame :
    (ch : ℕ) (p rest : List ℕ) (s : DmaChanState) (cap : ℕ)
    → (ch ≡ 1) ⊎ (ch ≡ 3)
    → length p ≤ max_payload
    → length p ≤ cap
    → s.reasm ≡ frame_bytes ch p ++ rest
    → reasm_try_extract s cap ≡ (
      record s {
        reasm = rest;
        frames_recv_ok = u64 (s.frames_recv_ok + 1);
        bytes_recv = u64 (s.bytes_recv + length p);
      },
      frame p,
    )
reasm_try_extract_frame ch p rest s cap tx fits room at =
    let known =
      ap (λ r. frame_magic_is_known (be32_load r)) at
      ∙ ap frame_magic_is_known (magic_lem ch tx p rest fits)
      ∙ (tx_magic_known ch tx).1 in
    let word = ap (λ r. be32_load (drop 4 r)) at ∙ length_lem ch tx p rest fits in
    let behind : drop header_bytes s.reasm ≡ p ++ rest =
      ap (drop header_bytes) at ∙ payload_lem ch tx p rest fits in
    let past : drop (header_bytes + length p) s.reasm ≡ rest =
      drop-drop header_bytes (length p) s.reasm
      ∙ ap (drop (length p)) behind
      ∙ drop-length_append p rest in
    let body : take (length p) (drop header_bytes s.reasm) ≡ p =
      ap (take (length p)) behind ∙ take-length_append p rest in
    extract_frame s cap (length p) word known fits room
      (omega (arith, ap (length {A = ℕ}) at, size_lem ch tx p rest fits))
    ∙ (λ t. (
      record s {
        reasm = past t;
        frames_recv_ok = u64 (s.frames_recv_ok + 1);
        bytes_recv = u64 (s.bytes_recv + length p);
      },
      frame (body t),
    ))

-- A proper prefix of a frame is kept as it is: no part of a frame is handed over.
pub reasm_try_extract_part :
    (ch : ℕ) (p missing : List ℕ) (s : DmaChanState) (cap : ℕ)
    → (ch ≡ 1) ⊎ (ch ≡ 3)
    → length p ≤ max_payload
    → 0 < length missing
    → s.reasm ++ missing ≡ frame_bytes ch p
    → reasm_try_extract s cap ≡ (s, more)
reasm_try_extract_part ch p missing s cap tx fits lacks at =
    let whole = at ∙ sym (append-nil (frame_bytes ch p)) in
    let size : length s.reasm < header_bytes + length p =
      omega (
        arith,
        ap (length {A = ℕ}) whole,
        size_lem ch tx p [] fits,
        length-append s.reasm missing,
      ) in
    elim (lt-or-le (length s.reasm) header_bytes) [
      | inl few ↦ extract_few s cap few
      | inr enough ↦
          let known =
            ap frame_magic_is_known (sym (be32_load-append s.reasm missing (omega arith)))
            ∙ ap (λ r. frame_magic_is_known (be32_load r)) whole
            ∙ ap frame_magic_is_known (magic_lem ch tx p [] fits)
            ∙ (tx_magic_known ch tx).1 in
          let word =
            sym (be32_load-append (drop 4 s.reasm) missing (omega (arith, length-drop 4 s.reasm)))
            ∙ ap be32_load (sym (drop-append 4 s.reasm missing (omega arith)))
            ∙ ap (λ r. be32_load (drop 4 r)) whole
            ∙ length_lem ch tx p [] fits in
          extract_part s cap (length p) word known fits size
    ]

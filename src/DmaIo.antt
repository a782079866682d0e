-- ===== src/DmaIo.antt =====
-- The framing of the DMA channels: sw/dma_io/dma_io.c in its pipe build (without
-- HAVE_XILINX_DMA), with the constants of sw/dma_io/include/tetra/dma_io.h. The staging buffer is
-- the list of its first `reasm_used` bytes. What the pipe does is a list of outcomes.
pub mod Frames
pub mod Stream
pub mod Link
mod Tests
use tetra_bs.Prelude.{
  ℕ, zero, suc, ◌+◌, ◌-◌, ◌*◌, ◌/◌, ◌%◌, ◌^◌, Bool, true, false, not, ◌||◌, Option, none, some,
  List, [], ◌∷◌, ◌++◌, get_or, set, take, drop, length, replicate, ltb, leb, ◌==◌, if◌then◌else◌,
  Result, ok, err, Errno, einval, ebadmsg, ebadf, emsgsize, enospc, eio,
}

-- FRAME_MAGIC_TMAS, FRAME_MAGIC_TMAR and FRAME_MAGIC_TMDC
abbrev pub magic_tmas : ℕ
magic_tmas = 0x544D4153

abbrev pub magic_tmar : ℕ
magic_tmar = 0x544D4152

abbrev pub magic_tmdc : ℕ
magic_tmdc = 0x544D4443

abbrev pub header_bytes : ℕ
header_bytes = 8

abbrev pub max_payload : ℕ
max_payload = 4096

-- DMA_REASM_CAP_BYTES
abbrev pub reasm_cap : ℕ
reasm_cap = header_bytes + max_payload

abbrev pub chan_count : ℕ
chan_count = 4

abbrev pub dma_chan_is_rx : ℕ → Bool
dma_chan_is_rx ch = ch == 0 || ch == 2

-- `TX_MAGIC[ch]`
abbrev pub tx_magic : ℕ → ℕ
tx_magic ch = if ch == 1 then magic_tmas else if ch == 3 then magic_tmdc else 0

pub record DmaChanState : Type 0 where
  pub reasm : List ℕ
  pub opened : Bool
  pub frames_recv_ok : ℕ
  pub frames_send_ok : ℕ
  pub bytes_recv : ℕ
  pub bytes_send : ℕ
  pub drop_bad_magic : ℕ
  pub drop_bad_length : ℕ

-- The shifts of disjoint bytes are joined by `|`, which adds them.
unfoldable pub be32_load : List ℕ → ℕ
be32_load p = get_or p 0 0 * 2 ^ 24 + get_or p 1 0 * 2 ^ 16 + get_or p 2 0 * 2 ^ 8 + get_or p 3 0

unfoldable pub be32_store : ℕ → List ℕ
be32_store v = v / 2 ^ 24 % 256 ∷ v / 2 ^ 16 % 256 ∷ v / 2 ^ 8 % 256 ∷ v % 256 ∷ []

abbrev pub frame_magic_is_known : ℕ → Bool
frame_magic_is_known magic = magic == magic_tmas || (magic == magic_tmar || magic == magic_tmdc)

-- The magic and the payload's length. `buf` is the `len` bytes at hand.
unfoldable pub frame_parse_header : List ℕ → Result (ℕ × ℕ)
frame_parse_header buf =
    let payload_len = be32_load (drop 4 buf) in
    if ltb (length buf) header_bytes
    then err ebadmsg
    else if not (frame_magic_is_known (be32_load buf))
    then err ebadmsg
    else if ltb max_payload payload_len
    then err ebadmsg
    else if ltb (length buf - header_bytes) payload_len
    then err ebadmsg
    else ok (be32_load buf, payload_len)

abbrev pub u64 : ℕ → ℕ
u64 n = n % 2 ^ 64

-- The outcome of `reasm_try_extract`: 0 is `more`, 1 is `frame`, an error is `failed`.
pub data Extract : Type 0 where
  more : Extract
  frame : List ℕ → Extract
  failed : Errno → Extract

unfoldable pub reasm_try_extract : DmaChanState → ℕ → DmaChanState × Extract
reasm_try_extract s cap =
    let plen = be32_load (drop 4 s.reasm) in
    let total = header_bytes + plen in
    if ltb (length s.reasm) header_bytes
    then (s, more)
    else if not (frame_magic_is_known (be32_load s.reasm))
    then (
      record s { reasm = drop 1 s.reasm; drop_bad_magic = u64 (s.drop_bad_magic + 1) },
      failed ebadmsg,
    )
    else if ltb max_payload plen
    then (
      record s { reasm = drop header_bytes s.reasm; drop_bad_length = u64 (s.drop_bad_length + 1) },
      failed ebadmsg,
    )
    else if ltb (length s.reasm) total
    then (s, more)
    else if ltb cap plen
    then (s, failed enospc)
    else (
      record s {
        reasm = drop total s.reasm;
        frames_recv_ok = u64 (s.frames_recv_ok + 1);
        bytes_recv = u64 (s.bytes_recv + plen);
      },
      frame (take plen (drop header_bytes s.reasm)),
    )

-- One `write` of the rest of a buffer: it takes some of the bytes, is interrupted, or fails.
pub data Written : Type 0 where
  wrote : ℕ → Written
  interrupted : Written
  write_failed : Errno → Written

-- The loop `while (off < len)`: what went into the pipe, the outcomes left and the result. It is
-- `err eio` where the outcomes given end first; `write` never takes more than it is handed.
unfoldable pub write_all : List Written → List ℕ → List ℕ × List Written × Result (Unit {0})
write_all ws [] = ([], ws, ok tt)
write_all [] (b ∷ bs) = ([], [], err eio)
write_all (wrote n ∷ ws) (b ∷ bs) =
    let (out, left, rc) = write_all ws (drop n (b ∷ bs)) in (take n (b ∷ bs) ++ out, left, rc)
write_all (interrupted ∷ ws) (b ∷ bs) = write_all ws (b ∷ bs)
write_all (write_failed e ∷ ws) (b ∷ bs) = ([], ws, err e)

-- The header that `dma_send_frame` writes before a payload of `len` bytes
abbrev pub frame_header : ℕ → ℕ → List ℕ
frame_header ch len = be32_store (tx_magic ch) ++ be32_store (len % 2 ^ 32)

-- The two loops of `dma_send_frame` and the counters behind them
unfoldable pub send_bytes :
    DmaChanState → List Written → List ℕ → List ℕ → DmaChanState × List ℕ × Result (Unit {0})
send_bytes s ws hdr buf =
    let (out, ws', rc) = write_all ws hdr in
    let (body, ws'', rc') = write_all ws' buf in
    elim rc [
      | err e ↦ (s, out, err e)
      | ok _ ↦ elim rc' [
        | err e ↦ (s, out ++ body, err e)
        | ok _ ↦ (
          record s {
            frames_send_ok = u64 (s.frames_send_ok + 1);
            bytes_send = u64 (s.bytes_send + length buf);
          },
          out ++ body,
          ok tt,
        )
      ]
    ]

-- The channel's state, the bytes that went into its pipe and the result.
unfoldable pub dma_send_frame :
    DmaChanState → ℕ → List Written → List ℕ → DmaChanState × List ℕ × Result (Unit {0})
dma_send_frame s ch ws buf =
    if leb chan_count ch
    then (s, [], err einval)
    else if dma_chan_is_rx ch
    then (s, [], err einval)
    else if ltb max_payload (length buf)
    then (s, [], err emsgsize)
    else if not s.opened
    then (s, [], err ebadf)
    else send_bytes s ws (frame_header ch (length buf)) buf

-- One round of the loop of `dma_recv_frame`: what `poll` and then `read` came to. `ready` hands
-- over the bytes that `read` returned, none of them for EAGAIN, EINTR or the end of the pipe.
pub data Round : Type 0 where
  timeout : Round
  interrupted : Round
  poll_failed : Errno → Round
  hung_up : Round
  ready : List ℕ → Round
  read_failed : Errno → Round

-- The result: a frame, nothing before the time was up, or an error. C returns 0 for a frame without
-- payload and for nothing alike.
pub data Received : Type 0 where
  got : List ℕ → Received
  nothing : Received
  refused : Errno → Received

-- `reasm_read_one`: `read` is asked for no more than what the staging buffer has room for.
unfoldable pub reasm_read_one : DmaChanState → List ℕ → DmaChanState
reasm_read_one s bytes = record s { reasm = s.reasm ++ take (reasm_cap - length s.reasm) bytes }

abbrev pub received : Extract → Received → Received
received (frame p) r = got p
received (failed e) r = refused e
received more r = r

abbrev pub is_more : Extract → Bool
is_more more = true
is_more (frame p) = false
is_more (failed e) = false

-- The loop: its rounds, and `once` for `timeout_ms == 0`. A call that waits on finds no end of
-- the rounds; where the list ends the call still waits, and `none` is returned.
unfoldable pub recv_loop : List Round → Bool → DmaChanState → ℕ → DmaChanState × Option Received
recv_loop [] once s cap = (s, none)
recv_loop (timeout ∷ rs) once s cap = (s, some nothing)
recv_loop (interrupted ∷ rs) once s cap = recv_loop rs once s cap
recv_loop (poll_failed e ∷ rs) once s cap = (s, some (refused e))
recv_loop (hung_up ∷ rs) once s cap = (s, some nothing)
recv_loop (read_failed e ∷ rs) once s cap = (s, some (refused e))
recv_loop (ready bytes ∷ rs) once s cap =
    let s1 = reasm_read_one s bytes in
    let (s', x) = reasm_try_extract s1 cap in
    let idle = recv_loop rs once s cap in
    let rest = recv_loop rs once s' cap in
    if length s1.reasm == length s.reasm
    then (if once then (s, some nothing) else idle)
    else if is_more x
    then (if once then (s', some nothing) else rest)
    else (s', some (received x nothing))

-- `ch` is the index of the channel, `s` its state.
unfoldable pub dma_recv_frame :
    ℕ → List Round → Bool → DmaChanState → ℕ → DmaChanState × Option Received
dma_recv_frame ch rounds once s cap =
    let (s', x) = reasm_try_extract s cap in
    if leb chan_count ch
    then (s, some (refused einval))
    else if not s.opened
    then (s, some (refused ebadf))
    else if is_more x
    then recv_loop rounds once s' cap
    else (s', some (received x nothing))

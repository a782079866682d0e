-- ===== src/Llc/Pdu.antt =====
-- The LLC messages of sw/llc/llc_pdu.c and the tests on their types of
-- sw/llc/include/tetra/llc.h. A type is the number that the enumeration gives it.
pub mod Window
pub mod Layout
pub mod Body
pub mod Encoding
pub mod RoundTrip
use tetra_bs.Prelude.{
  ℕ, zero, suc, ◌+◌, ◌-◌, ◌*◌, ◌/◌, ◌%◌, ◌^◌, bit_and, bit_xor, Bool, true, false, not, ◌&&◌, ◌||◌,
  List, [], ◌∷◌, ◌++◌, get_or, drop, ltb, leb, ◌==◌, if◌then◌else◌, einval, eproto,
}
use tetra_bs.Core.BitBuffer.{BitBuffer, sub_size, bb_pos_bits, bb_remaining}
use tetra_bs.Core.BitBuffer.Codec.{BitIo, return, ◌>>=◌, ◌>>◌, refuse_if, put_bits, get_bits, look}
use tetra_bs.Llc.{LlcPdu, body_max_bytes}

abbrev pub al_setup : ℕ
al_setup = 8

unfoldable pub llc_pdu_type_is_valid : ℕ → Bool
llc_pdu_type_is_valid v =
    v == 0 || v == 1 || v == 2 || v == 3 || v == 4 || v == 5 || v == 6 || v == 7 || v == al_setup

unfoldable pub llc_pdu_type_has_fcs : ℕ → Bool
llc_pdu_type_has_fcs t = not (bit_and t 4 == 0) && ltb t 8

unfoldable pub llc_pdu_type_has_nr : ℕ → Bool
llc_pdu_type_has_nr t = t == 0 || t == 4 || t == 3 || t == 7

unfoldable pub llc_pdu_type_has_ns : ℕ → Bool
llc_pdu_type_has_ns t = t == 0 || t == 4 || t == 1 || t == 5

-- The bit `i` of `buf`, the first byte's highest bit first.
abbrev pub nth_bit : List ℕ → ℕ → ℕ
nth_bit buf i = bit_and (get_or buf (i / 8) 0 / 2 ^ (7 - i % 8)) 1

-- One round of the loops that compute the checksum.
abbrev pub crc_step : ℕ → ℕ → ℕ
crc_step bit crc =
    let feedback = bit_and (bit_xor bit (bit_and crc 1)) 1 in
    if feedback == 0 then crc / 2 else bit_xor (crc / 2) 0xEDB88320

-- `n` rounds, from bit `i` on
unfoldable pub crc_bits : List ℕ → ℕ → ℕ → ℕ → ℕ
crc_bits buf i zero crc = crc
crc_bits buf i (suc n) crc = crc_bits buf (i + 1) n (crc_step (nth_bit buf i) crc)

unfoldable pub llc_crc32 : List ℕ → ℕ → ℕ
llc_crc32 buf len =
    if len == 0
    then bit_xor 0xFFFFFFFF 0xFFFFFFFF
    else bit_xor (crc_bits buf 0 len 0xFFFFFFFF) 0xFFFFFFFF

unfoldable pub crc32_over_bb_window : List ℕ → ℕ → ℕ → ℕ
crc32_over_bb_window buf start end =
    if leb end start
    then bit_xor 0xFFFFFFFF 0xFFFFFFFF
    else bit_xor (crc_bits buf start (end - start) 0xFFFFFFFF) 0xFFFFFFFF

-- The loop of `put_body` and what follows it, with the bytes from `body[byte_idx]` on. The array has
-- room for all the bits, so the last clause is not reached with bits that remain.
unfoldable pub put_body : List ℕ → ℕ → BitIo (Unit {0})
put_body (b ∷ bs) remaining =
    let rest = put_body bs (remaining - 8) in
    if ltb remaining 8
    then (if ltb 0 remaining
        then put_bits (b / 2 ^ (8 - remaining) % 2 ^ remaining) remaining
        else return tt)
    else (put_bits b 8 >> rest)
put_body [] remaining = return tt

-- The bytes that `get_body` fills in, for `bytes` rounds: one for each byte that is begun.
unfoldable pub get_bytes : ℕ → ℕ → BitIo (List ℕ)
get_bytes zero remaining = return []
get_bytes (suc k) remaining =
    let rest = get_bytes k (remaining - 8) in
    if ltb remaining 8
    then (get_bits remaining >>= λ v. return (v % 2 ^ remaining * 2 ^ (8 - remaining) % 256 ∷ []))
    else (get_bits 8 >>= λ v. rest >>= λ bs. return (v % 256 ∷ bs))

unfoldable pub get_body : List ℕ → ℕ → BitIo (List ℕ)
get_body body len = do
  bytes ← get_bytes ((len + 7) / 8) len
  return (bytes ++ drop ((len + 7) / 8) body)

abbrev pub when : Bool → BitIo (Unit {0}) → BitIo (Unit {0})
when true m = m
when false m = return tt

-- `bb_pos_bits(bb) + bb->start`
abbrev pub here : BitBuffer → ℕ
here bb = (bb_pos_bits bb + bb.start) % 2 ^ 64

-- All of a message but its checksum.
unfoldable pub put_head : LlcPdu → BitIo (Unit {0})
put_head p = do
  put_bits (p.pdu_type % 16) 4
  when (llc_pdu_type_has_nr p.pdu_type) (put_bits (p.nr % 2) 1)
  when (llc_pdu_type_has_ns p.pdu_type) (put_bits (p.ns % 2) 1)
  when (ltb 0 p.body_len_bits) (put_body p.body p.body_len_bits)

unfoldable pub put_fcs : ℕ → BitIo (Unit {0})
put_fcs start = do
  end ← look here
  buffer ← look (λ bb. bb.buffer)
  put_bits (crc32_over_bb_window buffer start end) 32

unfoldable pub llc_pdu_encode : LlcPdu → BitIo ℕ
llc_pdu_encode p = do
  refuse_if (not (llc_pdu_type_is_valid (p.pdu_type % 256))) einval
  refuse_if (ltb (body_max_bytes * 8) p.body_len_bits) einval
  refuse_if (p.pdu_type == al_setup && not (p.body_len_bits == 0)) einval
  start ← look here
  put_head p
  when (llc_pdu_type_has_fcs p.pdu_type) (put_fcs start)
  end ← look here
  return (sub_size end start)

abbrev pub flag_bits : Bool → ℕ
flag_bits true = 1
flag_bits false = 0

-- A bit that is there by the type of the message.
unfoldable pub get_flag : Bool → BitIo ℕ
get_flag true = get_bits 1
get_flag false = return 0

unfoldable pub get_payload : List ℕ → ℕ → BitIo (List ℕ)
get_payload body len =
    if ltb 0 len
    then (do remaining ← look bb_remaining; refuse_if (ltb remaining len) eproto; get_body body len)
    else return body

unfoldable pub get_fcs : ℕ → LlcPdu → BitIo LlcPdu
get_fcs start p = do
  remaining ← look bb_remaining
  refuse_if (ltb remaining 32) eproto
  pre_fcs ← look here
  buffer ← look (λ bb. bb.buffer)
  got ← get_bits 32
  return (record p { fcs = got; fcs_valid = got == crc32_over_bb_window buffer start pre_fcs })

-- What follows the type of a message that is no AL-SETUP. The length of the body is the caller's.
unfoldable pub get_rest : ℕ → ℕ → LlcPdu → BitIo LlcPdu
get_rest start t out = do
  remaining ← look bb_remaining
  refuse_if (ltb remaining (flag_bits (llc_pdu_type_has_nr t) + flag_bits (llc_pdu_type_has_ns t)))
      eproto
  nr ← get_flag (llc_pdu_type_has_nr t)
  ns ← get_flag (llc_pdu_type_has_ns t)
  body ← get_payload out.body out.body_len_bits
  let p : LlcPdu = record {
    pdu_type = t;
    nr = nr;
    ns = ns;
    body_len_bits = out.body_len_bits;
    body = body;
    fcs = 0;
    fcs_valid = false;
  }
  if llc_pdu_type_has_fcs t then get_fcs start p else return p

unfoldable pub llc_pdu_decode : LlcPdu → BitIo LlcPdu
llc_pdu_decode out = do
  refuse_if (ltb (body_max_bytes * 8) out.body_len_bits) einval
  start ← look here
  remaining ← look bb_remaining
  refuse_if (ltb remaining 4) eproto
  t ← get_bits 4
  refuse_if (not (llc_pdu_type_is_valid t)) eproto
  if t == al_setup
      then return (record out {
        pdu_type = t;
        nr = 0;
        ns = 0;
        fcs = 0;
        fcs_valid = false;
        body_len_bits = 0;
      })
      else get_rest start t out

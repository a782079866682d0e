-- ===== src/Cmce/Pdu/Broadcast.antt =====
-- The body of D-NWRK-BROADCAST: `cmce_pdu_encode_d_nwrk_broadcast` and its decoder of
-- sw/cmce/cmce_pdu.c.
pub mod Reading
use tetra_bs.Prelude.{
  ℕ, ◌+◌, ◌*◌, ◌/◌, ◌%◌, ◌^◌, ◌≤◌, ◌<◌, ◌≡◌, refl, ap, ◌∙◌, subst, Bool, true, false, ltb, bit_or,
  List, [], ◌∷◌, ◌++◌, einval, eproto, enotsup, arith,
}
use tetra_bs.Bits.{bit_or-shl}
use tetra_bs.Core.BitBuffer.{BitBuffer, bb_pos_bits, sub_size}
use tetra_bs.Core.BitBuffer.Cursor.{IsValid, HasRoom}
use tetra_bs.Core.BitBuffer.Codec.{
  done, BitIo, return, ◌>>=◌, ◌>>◌, refuse_if, put_bits, get_bits, look, Field, width,
}
use tetra_bs.Core.BitBuffer.Codec.Fields.{
  Fields, Fields-append, width-append, Reads, get_then, refuse_then, look_then, return-Reads,
  Reads-then, Reads-last,
}
use tetra_bs.Core.BitBuffer.Codec.Runs.{
  Emits, Emits-append, put_then, put_alone, return-Emits, refuse-Emits, refuse_within,
  measured-Emitted, rewound, rewound-IsValid, read_back,
}
use tetra_bs.Cmce.{nwrk_broadcast}
use tetra_bs.Cmce.Message.{CmcePdu, bit_of, is_set}

unfoldable pub put_network_time : Bool → CmcePdu → BitIo (Unit {0})
put_network_time true p = do
  put_bits (p.nwrk_tetra_network_time / 2 ^ 24 % 2 ^ 24) 24
  put_bits (p.nwrk_tetra_network_time % 2 ^ 24) 24
put_network_time false p = return tt

-- Neighbour cells themselves are not written: a count above 0 is refused behind the count.
unfoldable pub put_neighbours : Bool → CmcePdu → BitIo (Unit {0})
put_neighbours true p = do
  put_bits (p.nwrk_num_ca_neighbour_cells % 8) 3
  refuse_if (ltb 0 p.nwrk_num_ca_neighbour_cells) enotsup
put_neighbours false p = return tt

unfoldable pub put_optionals : Bool → CmcePdu → BitIo (Unit {0})
put_optionals true p = do
  put_bits (bit_of p.nwrk_p_tetra_network_time) 1
  put_network_time p.nwrk_p_tetra_network_time p
  put_bits (bit_of p.nwrk_p_num_ca_neighbour_cells) 1
  put_neighbours p.nwrk_p_num_ca_neighbour_cells p
put_optionals false p = return tt

unfoldable pub put_broadcast : CmcePdu → BitIo (Unit {0})
put_broadcast p = do
  put_bits p.nwrk_cell_re_select_parameters 16
  put_bits p.nwrk_cell_load_ca 2
  put_bits (bit_of p.optionals_present) 1
  put_optionals p.optionals_present p

unfoldable pub cmce_pdu_encode_d_nwrk_broadcast : CmcePdu → BitIo ℕ
cmce_pdu_encode_d_nwrk_broadcast p = do
  refuse_if (ltb 3 p.nwrk_cell_load_ca) einval
  refuse_if (ltb 7 p.nwrk_num_ca_neighbour_cells) einval
  start ← look bb_pos_bits
  put_broadcast p
  end ← look bb_pos_bits
  return (sub_size end start)

unfoldable pub get_network_time : Bool → ℕ → CmcePdu → BitIo CmcePdu
get_network_time true len p = do
  refuse_if (ltb len 69) eproto
  hi ← get_bits 24
  lo ← get_bits 24
  return (record p {
    nwrk_p_tetra_network_time = true;
    nwrk_tetra_network_time = bit_or (hi * 2 ^ 24) lo;
  })
get_network_time false len p = return p

unfoldable pub get_neighbours : Bool → CmcePdu → BitIo CmcePdu
get_neighbours true p = do
  count ← get_bits 3
  return (record p { nwrk_p_num_ca_neighbour_cells = true; nwrk_num_ca_neighbour_cells = count })
get_neighbours false p = return p

unfoldable pub get_optionals : Bool → ℕ → CmcePdu → BitIo CmcePdu
get_optionals true len p = do
  refuse_if (ltb len 21) eproto
  has_time ← get_bits 1
  p' ← get_network_time (is_set has_time) len p
  has_count ← get_bits 1
  get_neighbours (is_set has_count) p'
get_optionals false len p = return p

-- `out` may hold a header that was decoded before. The length returned is in the result.
unfoldable pub cmce_pdu_decode_d_nwrk_broadcast : CmcePdu → ℕ → BitIo CmcePdu
cmce_pdu_decode_d_nwrk_broadcast out len = do
  refuse_if (ltb len 19) eproto
  start ← look bb_pos_bits
  parameters ← get_bits 16
  load ← get_bits 2
  optionals ← get_bits 1
  p ← get_optionals (is_set optionals) len (record out {
    pdu_type = nwrk_broadcast;
    nwrk_cell_re_select_parameters = parameters;
    nwrk_cell_load_ca = load;
    optionals_present = is_set optionals;
    nwrk_p_tetra_network_time = false;
    nwrk_tetra_network_time = 0;
    nwrk_p_num_ca_neighbour_cells = false;
    nwrk_num_ca_neighbour_cells = 0;
  })
  end ← look bb_pos_bits
  return (record p { encoded_len_bits = sub_size end start % 2 ^ 16 })

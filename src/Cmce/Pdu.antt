-- ===== src/Cmce/Pdu.antt =====
-- `cmce_pdu_encode` and `cmce_pdu_decode` of sw/cmce/cmce_pdu.c. An `uplink` of false is the direction `CmceDir_Downlink`. What a failed decoder leaves in its output is not kept.
pub mod Setups
pub mod Control
pub mod Layout
pub mod Carried
pub mod Readers
pub mod RoundTrip
pub mod Broadcast
pub mod Total
use tetra_bs.Prelude.{
  ℕ, ◌+◌, ◌*◌, ◌/◌, ◌%◌, ◌^◌, Bool, true, false, not, ◌||◌, ltb, ◌==◌, if◌then◌else◌, Errno, einval,
  eproto, enotsup,
}
use tetra_bs.Core.BitBuffer.{bb_pos_bits, sub_size}
use tetra_bs.Core.BitBuffer.Codec.{
  Step, BitIo, return, ◌>>=◌, ◌>>◌, refuse_if, put_bits, get_bits, look,
}
use tetra_bs.Cmce.{
  CmcePduType, setup, call_proceeding, connect, tx_demand, release, nwrk_broadcast, unknown,
}
use tetra_bs.Cmce.Message.{CmcePdu, zero_pdu, bit_of, is_set, mask_24, put_pdu_type}
use tetra_bs.Cmce.Pdu.Setups.{encode_d_setup, decode_d_setup, encode_u_setup, decode_u_setup}
use tetra_bs.Cmce.Pdu.Control.{
  encode_d_call_proceeding, decode_d_call_proceeding, encode_d_connect, decode_d_connect,
  encode_d_tx_granted, decode_d_tx_granted, encode_u_tx_demand, decode_u_tx_demand, encode_release,
  decode_release,
}

abbrev pub refuse : {A : Type 0} → Errno → BitIo A
refuse e bb = Step.fails e bb

-- The `switch` of `cmce_pdu_encode`.
unfoldable pub encode_by : CmcePduType → Bool → CmcePdu → BitIo (Unit {0})
encode_by setup uplink p = if uplink then encode_u_setup p else encode_d_setup p
encode_by call_proceeding uplink p = if uplink then refuse einval else encode_d_call_proceeding p
encode_by connect uplink p = if uplink then refuse einval else encode_d_connect p
encode_by tx_demand uplink p = if uplink then encode_u_tx_demand p else refuse einval
encode_by CmcePduType.tx_granted uplink p = if uplink then refuse einval else encode_d_tx_granted p
encode_by release uplink p = encode_release p
encode_by nwrk_broadcast uplink p = refuse einval
encode_by unknown uplink p = refuse einval

-- The number returned is that of the bits written.
unfoldable pub cmce_pdu_encode : CmcePdu → Bool → BitIo ℕ
cmce_pdu_encode p uplink = do
  start ← look bb_pos_bits
  encode_by p.pdu_type uplink p
  end ← look bb_pos_bits
  return (sub_size end start)

-- The `switch` of `cmce_pdu_decode`, over the code of the type.
unfoldable pub decode_by : ℕ → Bool → ℕ → BitIo CmcePdu
decode_by raw uplink len =
    if raw == 7
    then (if uplink then decode_u_setup len else decode_d_setup len)
    else if raw == 1
    then (if uplink then refuse eproto else decode_d_call_proceeding len)
    else if raw == 2
    then (if uplink then refuse eproto else decode_d_connect len)
    else if raw == 10
    then (if uplink then decode_u_tx_demand len else refuse eproto)
    else if raw == 11
    then (if uplink then refuse eproto else decode_d_tx_granted len)
    else if raw == 6
    then decode_release len
    else refuse eproto

unfoldable pub cmce_pdu_decode : Bool → ℕ → BitIo CmcePdu
cmce_pdu_decode uplink len = do
  refuse_if (ltb len 5) eproto
  raw ← get_bits 5
  p ← decode_by raw uplink len
  return (record p { encoded_len_bits = len })

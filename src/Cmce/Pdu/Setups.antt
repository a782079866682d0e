-- ===== src/Cmce/Pdu/Setups.antt =====
-- D-SETUP and U-SETUP of sw/cmce/cmce_pdu.c.
use tetra_bs.Prelude.{ℕ, ◌%◌, ◌||◌, ltb, ◌==◌, if◌then◌else◌, einval, eproto}
use tetra_bs.Core.BitBuffer.{bb_remaining}
use tetra_bs.Core.BitBuffer.Codec.{BitIo, return, ◌>>=◌, ◌>>◌, refuse_if, put_bits, get_bits, look}
use tetra_bs.Cmce.{setup}
use tetra_bs.Cmce.Message.{CmcePdu, zero_pdu, bit_of, is_set, mask_24, put_pdu_type}

unfoldable pub encode_d_setup : CmcePdu → BitIo (Unit {0})
encode_d_setup p = do
  refuse_if (ltb 0x3fff p.call_identifier) einval
  refuse_if (ltb 0xf p.call_time_out) einval
  refuse_if (ltb 0xf p.call_priority) einval
  refuse_if (ltb 3 p.transmission_grant) einval
  put_pdu_type 7
  put_bits p.call_identifier 14
  put_bits p.call_time_out 4
  put_bits (p.hook_method_selection % 2) 1
  put_bits (p.simplex_duplex_selection % 2) 1
  put_bits p.basic_service_information 8
  put_bits p.transmission_grant 2
  put_bits (p.transmission_request_permission % 2) 1
  put_bits p.call_priority 4
  put_bits (bit_of p.optionals_present) 1
  return tt

unfoldable pub decode_d_setup : ℕ → BitIo CmcePdu
decode_d_setup len = do
  refuse_if (ltb len 41) eproto
  call_identifier ← get_bits 14
  call_time_out ← get_bits 4
  hook_method_selection ← get_bits 1
  simplex_duplex_selection ← get_bits 1
  basic_service_information ← get_bits 8
  transmission_grant ← get_bits 2
  transmission_request_permission ← get_bits 1
  call_priority ← get_bits 4
  optionals ← get_bits 1
  return (record zero_pdu {
    pdu_type = setup;
    call_identifier = call_identifier;
    call_time_out = call_time_out;
    hook_method_selection = hook_method_selection;
    simplex_duplex_selection = simplex_duplex_selection;
    basic_service_information = basic_service_information;
    transmission_grant = transmission_grant;
    transmission_request_permission = transmission_request_permission;
    call_priority = call_priority;
    optionals_present = is_set optionals;
  })

-- The `switch` of `encode_u_setup` over the type of the called party: 0 is Sna, 1 Ssi, 2 Tsi.
unfoldable pub put_called_party : CmcePdu → BitIo (Unit {0})
put_called_party p =
    if p.called_party_type_identifier == 0
    then put_bits p.called_party_short_number_address 8
    else if p.called_party_type_identifier == 1 || p.called_party_type_identifier == 2
    then put_bits (mask_24 p.called_party_address_ssi) 24
    else return tt

unfoldable pub encode_u_setup : CmcePdu → BitIo (Unit {0})
encode_u_setup p = do
  refuse_if (ltb 0xf p.area_selection) einval
  refuse_if (ltb 0xf p.call_priority) einval
  refuse_if (ltb 3 p.clir_control) einval
  put_pdu_type 7
  put_bits p.area_selection 4
  put_bits (p.hook_method_selection % 2) 1
  put_bits (p.simplex_duplex_selection % 2) 1
  put_bits p.basic_service_information 8
  put_bits (p.request_to_transmit_send_data % 2) 1
  put_bits p.call_priority 4
  put_bits p.clir_control 2
  put_bits (p.called_party_type_identifier % 4) 2
  put_called_party p
  put_bits (bit_of p.optionals_present) 1
  return tt

unfoldable pub get_short_number : CmcePdu → BitIo CmcePdu
get_short_number p = do
  remaining ← look bb_remaining
  refuse_if (ltb remaining 9) eproto
  number ← get_bits 8
  return (record p { called_party_short_number_address = number })

unfoldable pub get_address : CmcePdu → BitIo CmcePdu
get_address p = do
  remaining ← look bb_remaining
  refuse_if (ltb remaining 25) eproto
  ssi ← get_bits 24
  return (record p { called_party_address_ssi = mask_24 ssi })

-- The `switch` of `decode_u_setup`.
unfoldable pub get_called_party : CmcePdu → BitIo CmcePdu
get_called_party p =
    if p.called_party_type_identifier == 0
    then get_short_number p
    else if p.called_party_type_identifier == 1 || p.called_party_type_identifier == 2
    then get_address p
    else return p

unfoldable pub decode_u_setup : ℕ → BitIo CmcePdu
decode_u_setup len = do
  refuse_if (ltb len 30) eproto
  area_selection ← get_bits 4
  hook_method_selection ← get_bits 1
  simplex_duplex_selection ← get_bits 1
  basic_service_information ← get_bits 8
  request_to_transmit_send_data ← get_bits 1
  call_priority ← get_bits 4
  clir_control ← get_bits 2
  called_party_type_identifier ← get_bits 2
  p ← get_called_party (record zero_pdu {
    pdu_type = setup;
    area_selection = area_selection;
    hook_method_selection = hook_method_selection;
    simplex_duplex_selection = simplex_duplex_selection;
    basic_service_information = basic_service_information;
    request_to_transmit_send_data = request_to_transmit_send_data;
    call_priority = call_priority;
    clir_control = clir_control;
    called_party_type_identifier = called_party_type_identifier;
  })
  optionals ← get_bits 1
  return (record p { optionals_present = is_set optionals })

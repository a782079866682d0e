-- ===== src/Cmce/Pdu/Control.antt =====
-- D-CALL-PROCEEDING, D-CONNECT, D-TX-GRANTED, U-TX-DEMAND and U/D-RELEASE of sw/cmce/cmce_pdu.c.
use tetra_bs.Prelude.{ℕ, ◌%◌, ltb, einval, eproto}
use tetra_bs.Core.BitBuffer.Codec.{BitIo, return, ◌>>=◌, ◌>>◌, refuse_if, put_bits, get_bits}
use tetra_bs.Cmce.{CmcePduType, call_proceeding, connect, tx_demand, release}
use tetra_bs.Cmce.Message.{CmcePdu, zero_pdu, bit_of, is_set, put_pdu_type}

unfoldable pub encode_d_call_proceeding : CmcePdu → BitIo (Unit {0})
encode_d_call_proceeding p = do
  refuse_if (ltb 0x3fff p.call_identifier) einval
  refuse_if (ltb 7 p.call_time_out_set_up_phase) einval
  put_pdu_type 1
  put_bits p.call_identifier 14
  put_bits p.call_time_out_set_up_phase 3
  put_bits (p.hook_method_selection % 2) 1
  put_bits (p.simplex_duplex_selection % 2) 1
  put_bits (bit_of p.optionals_present) 1
  return tt

unfoldable pub decode_d_call_proceeding : ℕ → BitIo CmcePdu
decode_d_call_proceeding len = do
  refuse_if (ltb len 25) eproto
  call_identifier ← get_bits 14
  call_time_out_set_up_phase ← get_bits 3
  hook_method_selection ← get_bits 1
  simplex_duplex_selection ← get_bits 1
  optionals ← get_bits 1
  return (record zero_pdu {
    pdu_type = call_proceeding;
    call_identifier = call_identifier;
    call_time_out_set_up_phase = call_time_out_set_up_phase;
    hook_method_selection = hook_method_selection;
    simplex_duplex_selection = simplex_duplex_selection;
    optionals_present = is_set optionals;
  })

unfoldable pub encode_d_connect : CmcePdu → BitIo (Unit {0})
encode_d_connect p = do
  refuse_if (ltb 0x3fff p.call_identifier) einval
  refuse_if (ltb 0xf p.call_time_out) einval
  refuse_if (ltb 3 p.transmission_grant) einval
  put_pdu_type 2
  put_bits p.call_identifier 14
  put_bits p.call_time_out 4
  put_bits (p.hook_method_selection % 2) 1
  put_bits (p.simplex_duplex_selection % 2) 1
  put_bits p.transmission_grant 2
  put_bits (p.transmission_request_permission % 2) 1
  put_bits (p.call_ownership % 2) 1
  put_bits (bit_of p.optionals_present) 1
  return tt

unfoldable pub decode_d_connect : ℕ → BitIo CmcePdu
decode_d_connect len = do
  refuse_if (ltb len 30) eproto
  call_identifier ← get_bits 14
  call_time_out ← get_bits 4
  hook_method_selection ← get_bits 1
  simplex_duplex_selection ← get_bits 1
  transmission_grant ← get_bits 2
  transmission_request_permission ← get_bits 1
  call_ownership ← get_bits 1
  optionals ← get_bits 1
  return (record zero_pdu {
    pdu_type = connect;
    call_identifier = call_identifier;
    call_time_out = call_time_out;
    hook_method_selection = hook_method_selection;
    simplex_duplex_selection = simplex_duplex_selection;
    transmission_grant = transmission_grant;
    transmission_request_permission = transmission_request_permission;
    call_ownership = call_ownership;
    optionals_present = is_set optionals;
  })

unfoldable pub encode_d_tx_granted : CmcePdu → BitIo (Unit {0})
encode_d_tx_granted p = do
  refuse_if (ltb 0x3fff p.call_identifier) einval
  refuse_if (ltb 3 p.transmission_grant) einval
  put_pdu_type 11
  put_bits p.call_identifier 14
  put_bits p.transmission_grant 2
  put_bits (p.transmission_request_permission % 2) 1
  put_bits (p.encryption_control % 2) 1
  put_bits 0 1
  put_bits (bit_of p.optionals_present) 1
  return tt

unfoldable pub decode_d_tx_granted : ℕ → BitIo CmcePdu
decode_d_tx_granted len = do
  refuse_if (ltb len 25) eproto
  call_identifier ← get_bits 14
  transmission_grant ← get_bits 2
  transmission_request_permission ← get_bits 1
  encryption_control ← get_bits 1
  _ ← get_bits 1
  optionals ← get_bits 1
  return (record zero_pdu {
    pdu_type = CmcePduType.tx_granted;
    call_identifier = call_identifier;
    transmission_grant = transmission_grant;
    transmission_request_permission = transmission_request_permission;
    encryption_control = encryption_control;
    optionals_present = is_set optionals;
  })

unfoldable pub encode_u_tx_demand : CmcePdu → BitIo (Unit {0})
encode_u_tx_demand p = do
  refuse_if (ltb 0x3fff p.call_identifier) einval
  refuse_if (ltb 3 p.tx_demand_priority) einval
  put_pdu_type 10
  put_bits p.call_identifier 14
  put_bits p.tx_demand_priority 2
  put_bits (p.encryption_control % 2) 1
  put_bits 0 1
  put_bits (bit_of p.optionals_present) 1
  return tt

unfoldable pub decode_u_tx_demand : ℕ → BitIo CmcePdu
decode_u_tx_demand len = do
  refuse_if (ltb len 24) eproto
  call_identifier ← get_bits 14
  tx_demand_priority ← get_bits 2
  encryption_control ← get_bits 1
  _ ← get_bits 1
  optionals ← get_bits 1
  return (record zero_pdu {
    pdu_type = tx_demand;
    call_identifier = call_identifier;
    tx_demand_priority = tx_demand_priority;
    encryption_control = encryption_control;
    optionals_present = is_set optionals;
  })

unfoldable pub encode_release : CmcePdu → BitIo (Unit {0})
encode_release p = do
  refuse_if (ltb 0x3fff p.call_identifier) einval
  refuse_if (ltb 0x1f p.disconnect_cause) einval
  put_pdu_type 6
  put_bits p.call_identifier 14
  put_bits p.disconnect_cause 5
  put_bits (bit_of p.optionals_present) 1
  return tt

unfoldable pub decode_release : ℕ → BitIo CmcePdu
decode_release len = do
  refuse_if (ltb len 25) eproto
  call_identifier ← get_bits 14
  disconnect_cause ← get_bits 5
  optionals ← get_bits 1
  return (record zero_pdu {
    pdu_type = release;
    call_identifier = call_identifier;
    disconnect_cause = disconnect_cause;
    optionals_present = is_set optionals;
  })

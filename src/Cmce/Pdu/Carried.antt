-- ===== src/Cmce/Pdu/Carried.antt =====
-- What of a message of sw/cmce/cmce_pdu.c its type carries.
use tetra_bs.Prelude.{◌%◌, ◌<◌, Bool, true, false, ◌==◌, if◌then◌else◌}
use tetra_bs.Cmce.{
  CmcePduType, setup, call_proceeding, connect, tx_demand, release, nwrk_broadcast, unknown,
}
use tetra_bs.Cmce.Message.{CmcePdu, zero_pdu, mask_24}

abbrev pub with_called_party : CmcePdu → CmcePdu → CmcePdu
with_called_party p q =
    if p.called_party_type_identifier == 0
    then record q { called_party_short_number_address = p.called_party_short_number_address }
    else record q { called_party_address_ssi = mask_24 p.called_party_address_ssi }

-- What of a message its type carries: the other fields are zero, and flags keep their lowest bit.
abbrev pub carried : CmcePduType → Bool → CmcePdu → CmcePdu
carried setup true p = with_called_party p (record zero_pdu {
  pdu_type = setup;
  area_selection = p.area_selection;
  hook_method_selection = p.hook_method_selection % 2;
  simplex_duplex_selection = p.simplex_duplex_selection % 2;
  basic_service_information = p.basic_service_information;
  request_to_transmit_send_data = p.request_to_transmit_send_data % 2;
  call_priority = p.call_priority;
  clir_control = p.clir_control;
  called_party_type_identifier = p.called_party_type_identifier;
  optionals_present = p.optionals_present;
})
carried setup false p = record zero_pdu {
  pdu_type = setup;
  call_identifier = p.call_identifier;
  call_time_out = p.call_time_out;
  hook_method_selection = p.hook_method_selection % 2;
  simplex_duplex_selection = p.simplex_duplex_selection % 2;
  basic_service_information = p.basic_service_information;
  transmission_grant = p.transmission_grant;
  transmission_request_permission = p.transmission_request_permission % 2;
  call_priority = p.call_priority;
  optionals_present = p.optionals_present;
}
carried call_proceeding uplink p = record zero_pdu {
  pdu_type = call_proceeding;
  call_identifier = p.call_identifier;
  call_time_out_set_up_phase = p.call_time_out_set_up_phase;
  hook_method_selection = p.hook_method_selection % 2;
  simplex_duplex_selection = p.simplex_duplex_selection % 2;
  optionals_present = p.optionals_present;
}
carried connect uplink p = record zero_pdu {
  pdu_type = connect;
  call_identifier = p.call_identifier;
  call_time_out = p.call_time_out;
  hook_method_selection = p.hook_method_selection % 2;
  simplex_duplex_selection = p.simplex_duplex_selection % 2;
  transmission_grant = p.transmission_grant;
  transmission_request_permission = p.transmission_request_permission % 2;
  call_ownership = p.call_ownership % 2;
  optionals_present = p.optionals_present;
}
carried tx_demand uplink p = record zero_pdu {
  pdu_type = tx_demand;
  call_identifier = p.call_identifier;
  tx_demand_priority = p.tx_demand_priority;
  encryption_control = p.encryption_control % 2;
  optionals_present = p.optionals_present;
}
carried CmcePduType.tx_granted uplink p = record zero_pdu {
  pdu_type = CmcePduType.tx_granted;
  call_identifier = p.call_identifier;
  transmission_grant = p.transmission_grant;
  transmission_request_permission = p.transmission_request_permission % 2;
  encryption_control = p.encryption_control % 2;
  optionals_present = p.optionals_present;
}
carried release uplink p = record zero_pdu {
  pdu_type = release;
  call_identifier = p.call_identifier;
  disconnect_cause = p.disconnect_cause;
  optionals_present = p.optionals_present;
}
carried nwrk_broadcast uplink p = zero_pdu
carried unknown uplink p = zero_pdu

-- A U-SETUP that names the called party, by a short number or an address.
abbrev pub NamesParty : CmcePduType → Bool → CmcePdu → Type 0
NamesParty setup true p = p.called_party_type_identifier < 3
NamesParty t uplink p = Unit

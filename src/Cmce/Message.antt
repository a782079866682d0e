-- ===== src/Cmce/Message.antt =====
-- `CmcePdu` of sw/cmce/include/tetra/cmce.h, and `put_pdu_type` of sw/cmce/cmce_pdu.c.
use tetra_bs.Prelude.{ℕ, ◌%◌, ◌^◌, Bool, true, false, not, ltb, ◌==◌, einval}
use tetra_bs.Core.BitBuffer.Codec.{BitIo, ◌>>◌, refuse_if, put_bits}
use tetra_bs.Cmce.{CmcePduType, unknown}

pub record CmcePdu : Type 0 where
  pub pdu_type : CmcePduType
  pub call_identifier : ℕ
  pub call_time_out : ℕ
  pub call_time_out_set_up_phase : ℕ
  pub hook_method_selection : ℕ
  pub simplex_duplex_selection : ℕ
  pub basic_service_information : ℕ
  pub transmission_grant : ℕ
  pub transmission_request_permission : ℕ
  pub call_priority : ℕ
  pub call_ownership : ℕ
  pub area_selection : ℕ
  pub request_to_transmit_send_data : ℕ
  pub clir_control : ℕ
  pub called_party_type_identifier : ℕ
  pub called_party_address_ssi : ℕ
  pub called_party_short_number_address : ℕ
  pub tx_demand_priority : ℕ
  pub encryption_control : ℕ
  pub disconnect_cause : ℕ
  pub nwrk_cell_re_select_parameters : ℕ
  pub nwrk_cell_load_ca : ℕ
  pub optionals_present : Bool
  pub nwrk_p_tetra_network_time : Bool
  pub nwrk_tetra_network_time : ℕ
  pub nwrk_p_num_ca_neighbour_cells : Bool
  pub nwrk_num_ca_neighbour_cells : ℕ
  pub encoded_len_bits : ℕ

-- `memset(out, 0, sizeof(*out))`. No type of message has the code 0: `unknown` stands for it.
abbrev pub zero_pdu : CmcePdu
zero_pdu = record {
  pdu_type = unknown;
  call_identifier = 0;
  call_time_out = 0;
  call_time_out_set_up_phase = 0;
  hook_method_selection = 0;
  simplex_duplex_selection = 0;
  basic_service_information = 0;
  transmission_grant = 0;
  transmission_request_permission = 0;
  call_priority = 0;
  call_ownership = 0;
  area_selection = 0;
  request_to_transmit_send_data = 0;
  clir_control = 0;
  called_party_type_identifier = 0;
  called_party_address_ssi = 0;
  called_party_short_number_address = 0;
  tx_demand_priority = 0;
  encryption_control = 0;
  disconnect_cause = 0;
  nwrk_cell_re_select_parameters = 0;
  nwrk_cell_load_ca = 0;
  optionals_present = false;
  nwrk_p_tetra_network_time = false;
  nwrk_tetra_network_time = 0;
  nwrk_p_num_ca_neighbour_cells = false;
  nwrk_num_ca_neighbour_cells = 0;
  encoded_len_bits = 0;
}

-- `flag ? 1u : 0u`, and `bits != 0`
abbrev pub bit_of : Bool → ℕ
bit_of true = 1
bit_of false = 0

abbrev pub is_set : ℕ → Bool
is_set n = not (n == 0)

-- TETRA_SSI_MASK_24
abbrev pub mask_24 : ℕ → ℕ
mask_24 n = n % 2 ^ 24

unfoldable pub put_pdu_type : ℕ → BitIo (Unit {0})
put_pdu_type v = do refuse_if (ltb 0x1f v) einval; put_bits v 5

-- ===== src/Cmce/Pdu/Layout.antt =====
-- The layouts of the messages of sw/cmce/cmce_pdu.c, as the tables at the top of that file give
-- them, and that the encoders write them.
use tetra_bs.Prelude.{
  ℕ, ◌%◌, ◌^◌, ◌<◌, ◌≡◌, ◌∙◌, Bool, true, false, ◌||◌, ◌==◌, if◌then◌else◌, List, [], ◌∷◌, ◌++◌,
  Bool-cases, inl, inr, arith,
}
use tetra_bs.Core.BitBuffer.{BitBuffer}
use tetra_bs.Core.BitBuffer.Codec.{BitIo, ◌>>=◌, put_bits, Field}
use tetra_bs.Core.BitBuffer.Codec.Fields.{Fields, Fields-append}
use tetra_bs.Core.BitBuffer.Codec.Runs.{
  Emits, Emits-append, >>=_cong, refuse_within, put_then, put_alone, return-Emits,
}
use tetra_bs.Cmce.{
  CmcePduType, setup, call_proceeding, connect, tx_demand, release, nwrk_broadcast, unknown,
}
use tetra_bs.Cmce.Message.{CmcePdu, bit_of, mask_24, put_pdu_type}
use tetra_bs.Cmce.Pdu.Setups.{encode_d_setup, encode_u_setup, put_called_party}
use tetra_bs.Cmce.Pdu.Control.{
  encode_d_call_proceeding, encode_d_connect, encode_d_tx_granted, encode_u_tx_demand,
  encode_release,
}
use tetra_bs.Cmce.Pdu.{encode_by}

abbrev pub called_party : CmcePdu → List Field
called_party p =
    if p.called_party_type_identifier == 0
    then (8, p.called_party_short_number_address) ∷ []
    else if p.called_party_type_identifier == 1 || p.called_party_type_identifier == 2
    then (24, mask_24 p.called_party_address_ssi) ∷ []
    else []

abbrev pub o_bit : CmcePdu → List Field
o_bit p = (1, bit_of p.optionals_present) ∷ []

abbrev pub d_setup : CmcePdu → List Field
d_setup p =
    (14, p.call_identifier)
    ∷ (4, p.call_time_out)
    ∷ (1, p.hook_method_selection % 2)
    ∷ (1, p.simplex_duplex_selection % 2)
    ∷ (8, p.basic_service_information)
    ∷ (2, p.transmission_grant)
    ∷ (1, p.transmission_request_permission % 2)
    ∷ (4, p.call_priority)
    ∷ o_bit p

abbrev pub u_setup : CmcePdu → List Field
u_setup p =
    (4, p.area_selection)
    ∷ (1, p.hook_method_selection % 2)
    ∷ (1, p.simplex_duplex_selection % 2)
    ∷ (8, p.basic_service_information)
    ∷ (1, p.request_to_transmit_send_data % 2)
    ∷ (4, p.call_priority)
    ∷ (2, p.clir_control)
    ∷ (2, p.called_party_type_identifier % 4)
    ∷ (called_party p ++ o_bit p)

abbrev pub d_call_proceeding : CmcePdu → List Field
d_call_proceeding p =
    (14, p.call_identifier)
    ∷ (3, p.call_time_out_set_up_phase)
    ∷ (1, p.hook_method_selection % 2)
    ∷ (1, p.simplex_duplex_selection % 2)
    ∷ o_bit p

abbrev pub d_connect : CmcePdu → List Field
d_connect p =
    (14, p.call_identifier)
    ∷ (4, p.call_time_out)
    ∷ (1, p.hook_method_selection % 2)
    ∷ (1, p.simplex_duplex_selection % 2)
    ∷ (2, p.transmission_grant)
    ∷ (1, p.transmission_request_permission % 2)
    ∷ (1, p.call_ownership % 2)
    ∷ o_bit p

abbrev pub d_tx_granted : CmcePdu → List Field
d_tx_granted p =
    (14, p.call_identifier)
    ∷ (2, p.transmission_grant)
    ∷ (1, p.transmission_request_permission % 2)
    ∷ (1, p.encryption_control % 2)
    ∷ (1, 0)
    ∷ o_bit p

abbrev pub u_tx_demand : CmcePdu → List Field
u_tx_demand p =
    (14, p.call_identifier)
    ∷ (2, p.tx_demand_priority)
    ∷ (1, p.encryption_control % 2)
    ∷ (1, 0)
    ∷ o_bit p

abbrev pub release_fields : CmcePdu → List Field
release_fields p = (14, p.call_identifier) ∷ (5, p.disconnect_cause) ∷ o_bit p

-- The whole message, by its type and direction.
abbrev pub layout : CmcePduType → Bool → CmcePdu → List Field
layout setup true p = (5, 7) ∷ u_setup p
layout setup false p = (5, 7) ∷ d_setup p
layout call_proceeding uplink p = (5, 1) ∷ d_call_proceeding p
layout connect uplink p = (5, 2) ∷ d_connect p
layout tx_demand uplink p = (5, 10) ∷ u_tx_demand p
layout CmcePduType.tx_granted uplink p = (5, 11) ∷ d_tx_granted p
layout release uplink p = (5, 6) ∷ release_fields p
layout nwrk_broadcast uplink p = []
layout unknown uplink p = []

-- The fields of a message lie within their widths; a type that has none in this direction is no
-- message.
abbrev pub IsEncodable : CmcePduType → Bool → CmcePdu → Type 0
IsEncodable setup true p =
    (p.area_selection < 16)
    × (p.call_priority < 16)
    × (p.clir_control < 4)
    × (p.basic_service_information < 256)
    × (p.called_party_short_number_address < 256)
IsEncodable setup false p =
    (p.call_identifier < 2 ^ 14)
    × (p.call_time_out < 16)
    × (p.call_priority < 16)
    × (p.transmission_grant < 4)
    × (p.basic_service_information < 256)
IsEncodable call_proceeding false p =
    (p.call_identifier < 2 ^ 14) × (p.call_time_out_set_up_phase < 8)
IsEncodable connect false p =
    (p.call_identifier < 2 ^ 14) × (p.call_time_out < 16) × (p.transmission_grant < 4)
IsEncodable tx_demand true p = (p.call_identifier < 2 ^ 14) × (p.tx_demand_priority < 4)
IsEncodable CmcePduType.tx_granted false p =
    (p.call_identifier < 2 ^ 14) × (p.transmission_grant < 4)
IsEncodable release uplink p = (p.call_identifier < 2 ^ 14) × (p.disconnect_cause < 32)
IsEncodable t uplink p = ⊥

bit_of-lt : (b : Bool) → bit_of b < 2
bit_of-lt true = omega arith
bit_of-lt false = omega arith

o_bit-Fields : (p : CmcePdu) → Fields (o_bit p)
o_bit-Fields p = ((omega arith, omega arith, bit_of-lt p.optionals_present), tt)

put_pdu_type_then :
    (v : ℕ) (next : Unit {0} → BitIo (Unit {0})) (bb : BitBuffer)
    → v < 32
    → (put_pdu_type v >>= next) bb ≡ (put_bits v 5 >>= next) bb
unfolding put_pdu_type
put_pdu_type_then v next bb h =
    >>=_cong (put_pdu_type v) (put_bits v 5) next bb (refuse_within _ _ bb (omega arith))

module _ (p : CmcePdu) where
  d_setup-Emits : IsEncodable setup false p → Emits (encode_d_setup p) (layout setup false p)
  unfolding encode_d_setup
  d_setup-Emits (a, b, c, d, _) = record {
    same = λ bb.
        refuse_within _ _ bb (omega arith)
        ∙ refuse_within _ _ bb (omega arith)
        ∙ refuse_within _ _ bb (omega arith)
        ∙ refuse_within _ _ bb (omega arith)
        ∙ put_pdu_type_then 7 _ bb (omega arith);
  }

  called_party-Emits : Emits (put_called_party p) (called_party p)
  unfolding put_called_party
  called_party-Emits = elim (Bool-cases (p.called_party_type_identifier == 0)) [
    | inl sna ↦ rw sna (put_alone 8 p.called_party_short_number_address)
    | inr other ↦
        elim (Bool-cases
          (p.called_party_type_identifier == 1 || p.called_party_type_identifier == 2)) [
            | inl address ↦ rw (other, address) (put_alone 24 (mask_24 p.called_party_address_ssi))
            | inr neither ↦ rw (other, neither) return-Emits
          ]
  ]

  u_setup-Emits : IsEncodable setup true p → Emits (encode_u_setup p) (layout setup true p)
  unfolding encode_u_setup
  u_setup-Emits (a, b, c, _, _) = record {
    same = λ bb.
        refuse_within _ _ bb (omega arith)
        ∙ refuse_within _ _ bb (omega arith)
        ∙ refuse_within _ _ bb (omega arith)
        ∙ put_pdu_type_then 7 _ bb (omega arith)
        ∙ (put_then _ _ (
              put_then _ _ (
                put_then _ _ (
                  put_then _ _ (
                    put_then _ _ (
                      put_then _ _ (
                        put_then _ _ (
                          put_then _ _ (
                            put_then _ _ (
                              Emits-append called_party-Emits
                                (put_then _ _ return-Emits))))))))))).same
            bb;
  }

  d_call_proceeding-Emits :
      IsEncodable call_proceeding false p
      → Emits (encode_d_call_proceeding p) (layout call_proceeding false p)
  unfolding encode_d_call_proceeding
  d_call_proceeding-Emits (a, b) = record {
    same = λ bb.
        refuse_within _ _ bb (omega arith)
        ∙ refuse_within _ _ bb (omega arith)
        ∙ put_pdu_type_then 1 _ bb (omega arith);
  }

  d_connect-Emits :
      IsEncodable connect false p → Emits (encode_d_connect p) (layout connect false p)
  unfolding encode_d_connect
  d_connect-Emits (a, b, c) = record {
    same = λ bb.
        refuse_within _ _ bb (omega arith)
        ∙ refuse_within _ _ bb (omega arith)
        ∙ refuse_within _ _ bb (omega arith)
        ∙ put_pdu_type_then 2 _ bb (omega arith);
  }

  d_tx_granted-Emits :
      IsEncodable CmcePduType.tx_granted false p
      → Emits (encode_d_tx_granted p) (layout CmcePduType.tx_granted false p)
  unfolding encode_d_tx_granted
  d_tx_granted-Emits (a, b) = record {
    same = λ bb.
        refuse_within _ _ bb (omega arith)
        ∙ refuse_within _ _ bb (omega arith)
        ∙ put_pdu_type_then 11 _ bb (omega arith);
  }

  u_tx_demand-Emits :
      IsEncodable tx_demand true p → Emits (encode_u_tx_demand p) (layout tx_demand true p)
  unfolding encode_u_tx_demand
  u_tx_demand-Emits (a, b) = record {
    same = λ bb.
        refuse_within _ _ bb (omega arith)
        ∙ refuse_within _ _ bb (omega arith)
        ∙ put_pdu_type_then 10 _ bb (omega arith);
  }

  release-Emits :
      (u : Bool) → IsEncodable release u p → Emits (encode_release p) (layout release u p)
  unfolding encode_release
  release-Emits u (a, b) = record {
    same = λ bb.
        refuse_within _ _ bb (omega arith)
        ∙ refuse_within _ _ bb (omega arith)
        ∙ put_pdu_type_then 6 _ bb (omega arith);
  }

-- The encoder writes the layout.
pub encode_by-Emits :
    (t : CmcePduType) (u : Bool) (p : CmcePdu)
    → IsEncodable t u p
    → Emits (encode_by t u p) (layout t u p)
unfolding encode_by
encode_by-Emits setup true p h = u_setup-Emits p h
encode_by-Emits setup false p h = d_setup-Emits p h
encode_by-Emits call_proceeding false p h = d_call_proceeding-Emits p h
encode_by-Emits connect false p h = d_connect-Emits p h
encode_by-Emits tx_demand true p h = u_tx_demand-Emits p h
encode_by-Emits CmcePduType.tx_granted false p h = d_tx_granted-Emits p h
encode_by-Emits release u p h = release-Emits p u h
encode_by-Emits call_proceeding true p h = elim h [ ]
encode_by-Emits connect true p h = elim h [ ]
encode_by-Emits tx_demand false p h = elim h [ ]
encode_by-Emits CmcePduType.tx_granted true p h = elim h [ ]
encode_by-Emits nwrk_broadcast u p h = elim h [ ]
encode_by-Emits unknown u p h = elim h [ ]

-- Every field fits its width.
called_party-Fields :
    (p : CmcePdu) → p.called_party_short_number_address < 256 → Fields (called_party p)
called_party-Fields p h = elim (Bool-cases (p.called_party_type_identifier == 0)) [
  | inl sna ↦ rw sna ((omega arith, omega arith, h), tt)
  | inr other ↦
      elim (Bool-cases
        (p.called_party_type_identifier == 1 || p.called_party_type_identifier == 2)) [
          | inl address ↦ rw (other, address) ((omega arith, omega arith, omega arith), tt)
          | inr neither ↦ rw (other, neither) tt
        ]
]

pub layout-Fields :
    (t : CmcePduType) (u : Bool) (p : CmcePdu) → IsEncodable t u p → Fields (layout t u p)
layout-Fields setup true p (area, priority, clir, service, number) =
    let tail =
      Fields-append (called_party p) (o_bit p) (called_party-Fields p number) (o_bit-Fields p) in
    (
      omega arith,
      (
        omega arith,
        (
          omega arith,
          (
            omega arith,
            (omega arith, (omega arith, (omega arith, (omega arith, (omega arith, tail))))),
          ),
        ),
      ),
    )
layout-Fields setup false p h = omega (arith, bit_of-lt p.optionals_present)
layout-Fields call_proceeding false p h = omega (arith, bit_of-lt p.optionals_present)
layout-Fields connect false p h = omega (arith, bit_of-lt p.optionals_present)
layout-Fields tx_demand true p h = omega (arith, bit_of-lt p.optionals_present)
layout-Fields CmcePduType.tx_granted false p h = omega (arith, bit_of-lt p.optionals_present)
layout-Fields release u p h = omega (arith, bit_of-lt p.optionals_present)
layout-Fields call_proceeding true p h = elim h [ ]
layout-Fields connect true p h = elim h [ ]
layout-Fields tx_demand false p h = elim h [ ]
layout-Fields CmcePduType.tx_granted true p h = elim h [ ]
layout-Fields nwrk_broadcast u p h = elim h [ ]
layout-Fields unknown u p h = elim h [ ]

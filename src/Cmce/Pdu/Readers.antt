-- ===== src/Cmce/Pdu/Readers.antt =====
-- That each decoder of sw/cmce/cmce_pdu.c reads its layout.
use tetra_bs.Prelude.{
  ℕ, ◌+◌, ◌%◌, ◌<◌, ◌≡◌, refl, ap, ◌∙◌, subst, Bool, true, false, ◌||◌, ltb, ◌==◌, List, [], ◌∷◌,
  ◌++◌, Bool-cases, inl, inr, arith,
}
use tetra_bs.Core.BitBuffer.{BitBuffer}
use tetra_bs.Core.BitBuffer.Codec.{BitIo, Field}
use tetra_bs.Core.BitBuffer.Codec.Fields.{
  Reads, get_then, refuse_then, return-Reads, Reads-then, remaining_then,
}
use tetra_bs.Cmce.{CmcePduType, setup, call_proceeding, connect, tx_demand, release}
use tetra_bs.Cmce.Message.{CmcePdu, zero_pdu, bit_of, is_set, mask_24}
use tetra_bs.Cmce.Pdu.Setups.{
  decode_d_setup, decode_u_setup, get_short_number, get_address, get_called_party,
}
use tetra_bs.Cmce.Pdu.Control.{
  decode_d_call_proceeding, decode_d_connect, decode_d_tx_granted, decode_u_tx_demand,
  decode_release,
}
use tetra_bs.Cmce.Pdu.Layout.{
  called_party, o_bit, d_setup, u_setup, d_call_proceeding, d_connect, d_tx_granted, u_tx_demand,
  release_fields,
}
use tetra_bs.Cmce.Pdu.Carried.{with_called_party, carried}

is_set-bit_of : (b : Bool) → is_set (bit_of b) ≡ b
is_set-bit_of true = refl
is_set-bit_of false = refl

module _ {m : BitIo CmcePdu} {bb : BitBuffer} {fs : List Field} {k : ℕ} (q : CmcePdu) where
  with_o_bit :
      Reads m bb fs k (record q { optionals_present = is_set (bit_of q.optionals_present) })
      → Reads m bb fs k q
  with_o_bit r =
      subst (λ b. Reads m bb fs k (record q { optionals_present = b }))
        (is_set-bit_of q.optionals_present) r

module _ (bb : BitBuffer) (p : CmcePdu) (k : ℕ) where
  pub d_setup-Reads : Reads (decode_d_setup 41) bb (d_setup p) k (carried setup false p)
  unfolding decode_d_setup
  d_setup-Reads = with_o_bit (carried setup false p) (
      refuse_then _ _ refl (
        get_then _ (
          get_then _ (
            get_then _ (
              get_then _
                (get_then _ (get_then _ (get_then _ (get_then _ (get_then _ return-Reads))))))))))

  pub d_call_proceeding-Reads :
      Reads
        (decode_d_call_proceeding 25)
        bb
        (d_call_proceeding p)
        k
        (carried call_proceeding false p)
  unfolding decode_d_call_proceeding
  d_call_proceeding-Reads = with_o_bit (carried call_proceeding false p) (
      refuse_then _ _ refl
        (get_then _ (get_then _ (get_then _ (get_then _ (get_then _ return-Reads))))))

  pub d_connect-Reads : Reads (decode_d_connect 30) bb (d_connect p) k (carried connect false p)
  unfolding decode_d_connect
  d_connect-Reads = with_o_bit (carried connect false p) (
      refuse_then _ _ refl (
        get_then _ (
          get_then _ (
            get_then _
              (get_then _ (get_then _ (get_then _ (get_then _ (get_then _ return-Reads)))))))))

  pub d_tx_granted-Reads :
      Reads (decode_d_tx_granted 25) bb (d_tx_granted p) k (carried CmcePduType.tx_granted false p)
  unfolding decode_d_tx_granted
  d_tx_granted-Reads = with_o_bit (carried CmcePduType.tx_granted false p) (
      refuse_then _ _ refl
        (get_then _ (get_then _ (get_then _ (get_then _ (get_then _ (get_then _ return-Reads)))))))

  pub u_tx_demand-Reads :
      Reads (decode_u_tx_demand 24) bb (u_tx_demand p) k (carried tx_demand true p)
  unfolding decode_u_tx_demand
  u_tx_demand-Reads = with_o_bit (carried tx_demand true p) (
      refuse_then _ _ refl
        (get_then _ (get_then _ (get_then _ (get_then _ (get_then _ return-Reads))))))

  pub release-Reads : Reads (decode_release 25) bb (release_fields p) k (carried release true p)
  unfolding decode_release
  release-Reads =
      with_o_bit (carried release true p)
        (refuse_then _ _ refl (get_then _ (get_then _ (get_then _ return-Reads))))

module _ (bb : BitBuffer) (q : CmcePdu) (k : ℕ) where
  short_number-Reads :
      (v : ℕ)
      → Reads
          (get_short_number q)
          bb
          ((8, v) ∷ [])
          (1 + k)
          (record q { called_party_short_number_address = v })
  unfolding get_short_number
  short_number-Reads v =
      remaining_then _ 9 (omega arith) (λ r h. refuse_then _ _ h (get_then _ return-Reads))

  address-Reads :
      (v : ℕ)
      → Reads
          (get_address q)
          bb
          ((24, mask_24 v) ∷ [])
          (1 + k)
          (record q { called_party_address_ssi = mask_24 v })
  unfolding get_address
  address-Reads v =
      let twice : mask_24 (mask_24 v) ≡ mask_24 v = omega arith in
      subst
        (λ a.
          Reads (get_address q) bb ((24, mask_24 v) ∷ []) (1 + k)
            (record q { called_party_address_ssi = a }))
        twice
        (remaining_then _ 25 (omega arith) (λ r h. refuse_then _ _ h (get_then _ return-Reads)))

  called_party-Reads :
      (p : CmcePdu)
      → q.called_party_type_identifier ≡ p.called_party_type_identifier
      → p.called_party_type_identifier < 3
      → Reads (get_called_party q) bb (called_party p) (1 + k) (with_called_party p q)
  unfolding get_called_party
  called_party-Reads p e h = elim (Bool-cases (p.called_party_type_identifier == 0)) [
    | inl sna ↦
        let sna' : (q.called_party_type_identifier == 0) ≡ true = ground arith in
        simp (sna, sna') (short_number-Reads p.called_party_short_number_address)
    | inr other ↦
        let other' : (q.called_party_type_identifier == 0) ≡ false = ground arith in
        let address : (p.called_party_type_identifier == 1 || p.called_party_type_identifier == 2)
            ≡ true =
          ground arith in
        let address' : (q.called_party_type_identifier == 1 || q.called_party_type_identifier == 2)
            ≡ true =
          ground arith in
        simp (other, other', address, address') (address-Reads p.called_party_address_ssi)
  ]

with_called_party-o_bit :
    (p q : CmcePdu) (b : Bool)
    → record (with_called_party p q) { optionals_present = b }
      ≡ with_called_party p (record q { optionals_present = b })
with_called_party-o_bit p q b = elim (Bool-cases (p.called_party_type_identifier == 0)) [
  | inl sna ↦ simp sna refl
  | inr other ↦ simp other refl
]

-- The head of U-SETUP, before the type of the called party.
abbrev head : CmcePdu → CmcePdu
head p = record zero_pdu {
  pdu_type = setup;
  area_selection = p.area_selection;
  hook_method_selection = p.hook_method_selection % 2;
  simplex_duplex_selection = p.simplex_duplex_selection % 2;
  basic_service_information = p.basic_service_information;
  request_to_transmit_send_data = p.request_to_transmit_send_data % 2;
  call_priority = p.call_priority;
  clir_control = p.clir_control;
}

abbrev u_setup_with : CmcePdu → ℕ → List Field
u_setup_with p party =
    (4, p.area_selection)
    ∷ (1, p.hook_method_selection % 2)
    ∷ (1, p.simplex_duplex_selection % 2)
    ∷ (8, p.basic_service_information)
    ∷ (1, p.request_to_transmit_send_data % 2)
    ∷ (4, p.call_priority)
    ∷ (2, p.clir_control)
    ∷ (2, party)
    ∷ (called_party p ++ o_bit p)

pub u_setup-Reads :
    (bb : BitBuffer) (p : CmcePdu) (k len : ℕ)
    → ltb len 30 ≡ false
    → p.called_party_type_identifier < 3
    → Reads (decode_u_setup len) bb (u_setup p) k (carried setup true p)
unfolding decode_u_setup
u_setup-Reads bb p k len long h =
    let party : ℕ = p.called_party_type_identifier in
    let known : party ≡ party % 4 = omega arith in
    let q : CmcePdu = record (head p) { called_party_type_identifier = party } in
    let read : Reads (decode_u_setup len) bb (u_setup_with p party) k
        (record (with_called_party p q) {
          optionals_present = is_set (bit_of p.optionals_present);
        }) =
      refuse_then _ _ long (
        get_then _ (
          get_then _ (
            get_then _ (
              get_then _ (
                get_then _ (
                  get_then _ (
                    get_then _ (
                      get_then _ (
                        Reads-then _ (called_party-Reads _ q k p refl h)
                          (get_then _ return-Reads)))))))))) in
    subst (λ n. Reads (decode_u_setup len) bb (u_setup_with p n) k (carried setup true p)) known
      (subst (Reads (decode_u_setup len) bb (u_setup_with p party) k)
        (with_called_party-o_bit p q (is_set (bit_of p.optionals_present))
          ∙ ap (λ b. with_called_party p (record q { optionals_present = b }))
              (is_set-bit_of p.optionals_present))
        read)

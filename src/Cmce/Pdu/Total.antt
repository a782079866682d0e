-- ===== src/Cmce/Pdu/Total.antt =====
-- The decoder of sw/cmce/cmce_pdu.c on whatever a buffer holds.
use tetra_bs.Prelude.{ℕ, ◌^◌, ◌≤◌, ◌<◌, ◌≡◌, refl, Bool, true, false, ◌||◌, ◌==◌, eproto, arith}
use tetra_bs.Core.BitBuffer.Codec.{BitIo, return, ◌>>=◌, get_bits}
use tetra_bs.Core.BitBuffer.Codec.Ends.{
  Ends, bind-Ends, return-Ends, refuse-Ends, get-Ends, look-Ends, if-Ends, fails-Ends,
}
use tetra_bs.Cmce.{setup}
use tetra_bs.Cmce.Message.{CmcePdu, mask_24}
use tetra_bs.Cmce.Pdu.Setups.{
  decode_d_setup, decode_u_setup, get_short_number, get_address, get_called_party,
}
use tetra_bs.Cmce.Pdu.Control.{
  decode_d_call_proceeding, decode_d_connect, decode_d_tx_granted, decode_u_tx_demand,
  decode_release,
}
use tetra_bs.Cmce.Pdu.{decode_by, cmce_pdu_decode}

-- A decoded message: its identifier has 14 bits, and a U-SETUP has the identifier 0, as the message
-- has no such field.
abbrev pub IsDecoded : Bool → CmcePdu → Type 0
IsDecoded u p =
    (p.call_identifier < 2 ^ 14) × (u ≡ true → p.pdu_type ≡ setup → p.call_identifier ≡ 0)

bits_get :
    {P : CmcePdu → Type 0} (n : ℕ) (next : ℕ → BitIo CmcePdu)
    → 1 ≤ n
    → n ≤ 32
    → ((v : ℕ) → Ends (next v) P)
    → Ends (get_bits n >>= next) P
bits_get {P} n next lo hi k = get-Ends P n next lo hi (λ v h. k v)

abbrev NoIdentifier : CmcePdu → Type 0
NoIdentifier p = p.call_identifier ≡ 0

short_number-Ends : (q : CmcePdu) → NoIdentifier q → Ends (get_short_number q) NoIdentifier
unfolding get_short_number
short_number-Ends q e = look-Ends NoIdentifier _ _ λ r. refuse-Ends _ _ _ _ (
    bits_get 8 _ (omega arith) (omega arith)
      λ v. return-Ends NoIdentifier (record q { called_party_short_number_address = v }) e)

address-Ends : (q : CmcePdu) → NoIdentifier q → Ends (get_address q) NoIdentifier
unfolding get_address
address-Ends q e = look-Ends NoIdentifier _ _ λ r. refuse-Ends _ _ _ _ (
    bits_get 24 _ (omega arith) (omega arith)
      λ v. return-Ends NoIdentifier (record q { called_party_address_ssi = mask_24 v }) e)

called_party-Ends : (q : CmcePdu) → NoIdentifier q → Ends (get_called_party q) NoIdentifier
unfolding get_called_party
called_party-Ends q e =
    if-Ends NoIdentifier (q.called_party_type_identifier == 0) (get_short_number q) _
      (short_number-Ends q e)
      (if-Ends NoIdentifier
        (q.called_party_type_identifier == 1 || q.called_party_type_identifier == 2) (get_address q)
        (return q) (address-Ends q e) (return-Ends NoIdentifier q e))

decode_u_setup-Ends : (len : ℕ) (u : Bool) → Ends (decode_u_setup len) (IsDecoded u)
unfolding decode_u_setup
decode_u_setup-Ends len u = refuse-Ends _ _ _ _ (
    bits_get 4 _ (omega arith) (omega arith) λ a. bits_get 1 _ (omega arith) (omega arith) λ b.
      bits_get 1 _ (omega arith) (omega arith) λ c. bits_get 8 _ (omega arith) (omega arith) λ d.
        bits_get 1 _ (omega arith) (omega arith) λ e. bits_get 4 _ (omega arith) (omega arith) λ f.
          bits_get 2 _ (omega arith) (omega arith) λ g.
            bits_get 2 _ (omega arith) (omega arith) λ h.
              bind-Ends _ NoIdentifier _ _ (called_party-Ends _ refl) λ p e0.
                bits_get 1 _ (omega arith) (omega arith)
                  λ o. return-Ends _ _ (omega arith, λ _ _. e0))

decode_d_call_proceeding-Ends :
    (len : ℕ) (u : Bool) → Ends (decode_d_call_proceeding len) (IsDecoded u)
unfolding decode_d_call_proceeding
decode_d_call_proceeding-Ends len u = refuse-Ends _ _ _ _ (
    get-Ends _ 14 _ (omega arith) (omega arith) λ id lt.
      bits_get 3 _ (omega arith) (omega arith) λ _. bits_get 1 _ (omega arith) (omega arith) λ _.
        bits_get 1 _ (omega arith) (omega arith)
          λ _. bits_get 1 _ (omega arith) (omega arith) λ _. return-Ends _ _ (lt, λ _ e. cc))

decode_d_connect-Ends : (len : ℕ) (u : Bool) → Ends (decode_d_connect len) (IsDecoded u)
unfolding decode_d_connect
decode_d_connect-Ends len u = refuse-Ends _ _ _ _ (
    get-Ends _ 14 _ (omega arith) (omega arith) λ id lt.
      bits_get 4 _ (omega arith) (omega arith) λ _. bits_get 1 _ (omega arith) (omega arith) λ _.
        bits_get 1 _ (omega arith) (omega arith) λ _. bits_get 2 _ (omega arith) (omega arith) λ _.
          bits_get 1 _ (omega arith) (omega arith) λ _.
            bits_get 1 _ (omega arith) (omega arith)
              λ _. bits_get 1 _ (omega arith) (omega arith) λ _. return-Ends _ _ (lt, λ _ e. cc))

decode_d_tx_granted-Ends : (len : ℕ) (u : Bool) → Ends (decode_d_tx_granted len) (IsDecoded u)
unfolding decode_d_tx_granted
decode_d_tx_granted-Ends len u = refuse-Ends _ _ _ _ (
    get-Ends _ 14 _ (omega arith) (omega arith) λ id lt.
      bits_get 2 _ (omega arith) (omega arith) λ _. bits_get 1 _ (omega arith) (omega arith) λ _.
        bits_get 1 _ (omega arith) (omega arith) λ _.
          bits_get 1 _ (omega arith) (omega arith)
            λ _. bits_get 1 _ (omega arith) (omega arith) λ _. return-Ends _ _ (lt, λ _ e. cc))

decode_u_tx_demand-Ends : (len : ℕ) (u : Bool) → Ends (decode_u_tx_demand len) (IsDecoded u)
unfolding decode_u_tx_demand
decode_u_tx_demand-Ends len u = refuse-Ends _ _ _ _ (
    get-Ends _ 14 _ (omega arith) (omega arith) λ id lt.
      bits_get 2 _ (omega arith) (omega arith) λ _. bits_get 1 _ (omega arith) (omega arith) λ _.
        bits_get 1 _ (omega arith) (omega arith)
          λ _. bits_get 1 _ (omega arith) (omega arith) λ _. return-Ends _ _ (lt, λ _ e. cc))

decode_release-Ends : (len : ℕ) (u : Bool) → Ends (decode_release len) (IsDecoded u)
unfolding decode_release
decode_release-Ends len u = refuse-Ends _ _ _ _ (
    get-Ends _ 14 _ (omega arith) (omega arith) λ id lt.
      bits_get 5 _ (omega arith) (omega arith)
        λ _. bits_get 1 _ (omega arith) (omega arith) λ _. return-Ends _ _ (lt, λ _ e. cc))

decode_d_setup-Ends : (len : ℕ) → Ends (decode_d_setup len) (IsDecoded false)
unfolding decode_d_setup
decode_d_setup-Ends len = refuse-Ends _ _ _ _ (
    get-Ends _ 14 _ (omega arith) (omega arith) λ id lt.
      bits_get 4 _ (omega arith) (omega arith) λ _. bits_get 1 _ (omega arith) (omega arith) λ _.
        bits_get 1 _ (omega arith) (omega arith) λ _. bits_get 8 _ (omega arith) (omega arith) λ _.
          bits_get 2 _ (omega arith) (omega arith) λ _.
            bits_get 1 _ (omega arith) (omega arith) λ _.
              bits_get 4 _ (omega arith) (omega arith)
                λ _. bits_get 1 _ (omega arith) (omega arith) λ _. return-Ends _ _ (lt, λ up _. cc))

decode_by-Ends : (raw : ℕ) (u : Bool) (len : ℕ) → Ends (decode_by raw u len) (IsDecoded u)
unfolding decode_by
decode_by-Ends raw true len = if-Ends _ (raw == 7) _ _ (decode_u_setup-Ends len true) (
    if-Ends _ (raw == 1) _ _ (fails-Ends _ eproto) (
      if-Ends _ (raw == 2) _ _ (fails-Ends _ eproto) (
        if-Ends _ (raw == 10) _ _ (decode_u_tx_demand-Ends len true) (
          if-Ends _ (raw == 11) _ _ (fails-Ends _ eproto)
            (if-Ends _ (raw == 6) _ _ (decode_release-Ends len true) (fails-Ends _ eproto))))))
decode_by-Ends raw false len = if-Ends _ (raw == 7) _ _ (decode_d_setup-Ends len) (
    if-Ends _ (raw == 1) _ _ (decode_d_call_proceeding-Ends len false) (
      if-Ends _ (raw == 2) _ _ (decode_d_connect-Ends len false) (
        if-Ends _ (raw == 10) _ _ (fails-Ends _ eproto) (
          if-Ends _ (raw == 11) _ _ (decode_d_tx_granted-Ends len false)
            (if-Ends _ (raw == 6) _ _ (decode_release-Ends len false) (fails-Ends _ eproto))))))

-- On every valid buffer, with any number of bits announced, the decoder returns a message or an
-- error and fails no assertion. The call identifier of a message has 14 bits, and that of a message
-- that came as a U-SETUP is 0.
pub cmce_pdu_decode-Ends : (u : Bool) (len : ℕ) → Ends (cmce_pdu_decode u len) (IsDecoded u)
unfolding cmce_pdu_decode
cmce_pdu_decode-Ends u len = refuse-Ends _ _ _ _ (
    bits_get 5 _ (omega arith) (omega arith)
      λ raw. bind-Ends _ (IsDecoded u) _ _ (decode_by-Ends raw u len) λ p h. return-Ends _ _ h)

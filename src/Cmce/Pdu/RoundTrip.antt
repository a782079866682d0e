-- ===== src/Cmce/Pdu/RoundTrip.antt =====
-- What the decoders of sw/cmce/cmce_pdu.c make of the encoders' output.
use tetra_bs.Prelude.{
  ℕ, ◌≤◌, ◌<◌, ◌≡◌, refl, Bool, true, false, ◌||◌, ◌==◌, Bool-cases, inl, inr, arith,
}
use tetra_bs.Core.BitBuffer.{BitBuffer}
use tetra_bs.Core.BitBuffer.Cursor.{IsValid, HasRoom}
use tetra_bs.Core.BitBuffer.Codec.{done, width}
use tetra_bs.Core.BitBuffer.Codec.Fields.{Emitted, Reads, get_then, refuse_then, Reads-map}
use tetra_bs.Core.BitBuffer.Codec.Runs.{measured-Emitted, rewound, read_back}
use tetra_bs.Cmce.{
  CmcePduType, setup, call_proceeding, connect, tx_demand, release, nwrk_broadcast, unknown,
}
use tetra_bs.Cmce.Message.{CmcePdu}
use tetra_bs.Cmce.Pdu.{encode_by, cmce_pdu_encode, decode_by, cmce_pdu_decode}
use tetra_bs.Cmce.Pdu.Layout.{layout, IsEncodable, encode_by-Emits, layout-Fields}
use tetra_bs.Cmce.Pdu.Carried.{carried, NamesParty}
use tetra_bs.Cmce.Pdu.Readers.{
  d_setup-Reads, d_call_proceeding-Reads, d_connect-Reads, d_tx_granted-Reads, u_tx_demand-Reads,
  release-Reads, u_setup-Reads,
}

-- The number of bits of a message.
abbrev pub bits : Bool → CmcePdu → ℕ
bits u p = width (layout p.pdu_type u p)

abbrev with_len : ℕ → CmcePdu → CmcePdu
with_len n p = record p { encoded_len_bits = n }

u_setup-width :
    (p : CmcePdu) → p.called_party_type_identifier < 3 → 30 ≤ width (layout setup true p)
u_setup-width p h = elim (Bool-cases (p.called_party_type_identifier == 0)) [
  | inl sna ↦ rw sna (omega arith)
  | inr other ↦
      let address : (p.called_party_type_identifier == 1 || p.called_party_type_identifier == 2)
          ≡ true =
        ground arith in
      rw (other, address) (omega arith)
]

decode_u-Reads :
    (p : CmcePdu) (bb : BitBuffer) (n : ℕ)
    → 30 ≤ n
    → p.called_party_type_identifier < 3
    → Reads (cmce_pdu_decode true n) bb (layout setup true p) 0 (with_len n (carried setup true p))
unfolding cmce_pdu_decode decode_by
decode_u-Reads p bb n long named =
    refuse_then _ _ (ground arith)
      (get_then _ (Reads-map (with_len n) (u_setup-Reads _ p 0 n (ground arith) named)))

decode-Reads :
    (t : CmcePduType) (u : Bool) (p : CmcePdu) (bb : BitBuffer)
    → IsEncodable t u p
    → NamesParty t u p
    → Reads
        (cmce_pdu_decode u (width (layout t u p)))
        bb
        (layout t u p)
        0
        (with_len (width (layout t u p)) (carried t u p))
unfolding cmce_pdu_decode decode_by
decode-Reads setup true p bb h named =
    decode_u-Reads p bb (width (layout setup true p)) (u_setup-width p named) named
decode-Reads setup false p bb h named =
    refuse_then _ _ refl (get_then _ (Reads-map (with_len 41) (d_setup-Reads _ p 0)))
decode-Reads call_proceeding false p bb h named =
    refuse_then _ _ refl (get_then _ (Reads-map (with_len 25) (d_call_proceeding-Reads _ p 0)))
decode-Reads connect false p bb h named =
    refuse_then _ _ refl (get_then _ (Reads-map (with_len 30) (d_connect-Reads _ p 0)))
decode-Reads tx_demand true p bb h named =
    refuse_then _ _ refl (get_then _ (Reads-map (with_len 24) (u_tx_demand-Reads _ p 0)))
decode-Reads CmcePduType.tx_granted false p bb h named =
    refuse_then _ _ refl (get_then _ (Reads-map (with_len 25) (d_tx_granted-Reads _ p 0)))
decode-Reads release u p bb h named =
    refuse_then _ _ refl (get_then _ (Reads-map (with_len 25) (release-Reads _ p 0)))
decode-Reads call_proceeding true p bb h named = elim h [ ]
decode-Reads connect true p bb h named = elim h [ ]
decode-Reads tx_demand false p bb h named = elim h [ ]
decode-Reads CmcePduType.tx_granted true p bb h named = elim h [ ]
decode-Reads nwrk_broadcast u p bb h named = elim h [ ]
decode-Reads unknown u p bb h named = elim h [ ]

-- On a valid buffer with room for the message, encoding a message whose fields lie within their
-- widths ends well, returns the number of bits of its layout, and leaves exactly the fields of the
-- layout under the old cursor, with all that is before it unchanged.
pub cmce_pdu_encode-Emitted :
    (p : CmcePdu) (u : Bool) (bb : BitBuffer)
    → IsValid bb
    → IsEncodable p.pdu_type u p
    → HasRoom bb (bits u p)
    → (bb' : BitBuffer) × (cmce_pdu_encode p u bb ≡ done (bits u p) bb')
      × Emitted bb (layout p.pdu_type u p) bb'
unfolding cmce_pdu_encode
cmce_pdu_encode-Emitted p u bb valid ok room =
    measured-Emitted (encode_by p.pdu_type u p) bb (encode_by-Emits p.pdu_type u p ok) valid
      (layout-Fields p.pdu_type u p ok) room

-- A message whose fields lie within their widths, and that names its called party if it is a
-- U-SETUP, is encoded where there is room, and decoding the bits written, from where they begin,
-- ends well: it gives what the type of the message carries and the number of bits, and leaves the
-- buffer as the encoder did.
pub decode-encode :
    (p : CmcePdu) (u : Bool) (bb : BitBuffer)
    → IsValid bb
    → IsEncodable p.pdu_type u p
    → NamesParty p.pdu_type u p
    → HasRoom bb (bits u p)
    → (bb' : BitBuffer) × (cmce_pdu_encode p u bb ≡ done (bits u p) bb')
      × (cmce_pdu_decode u (bits u p) (rewound bb' bb.pos)
          ≡ done (record (carried p.pdu_type u p) { encoded_len_bits = bits u p }) bb')
decode-encode p u bb valid ok named room =
    let (bb', e, h) = cmce_pdu_encode-Emitted p u bb valid ok room in
    (
      bb',
      e,
      read_back bb bb' (layout p.pdu_type u p) valid h
          (decode-Reads p.pdu_type u p (rewound bb' bb.pos) ok named),
    )

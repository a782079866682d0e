-- ===== src/Cmce/Pdu/Broadcast/Reading.antt =====
-- The layout of the network broadcast of sw/cmce/cmce_pdu.c, and that the decoder reads what the
-- encoder writes.
use tetra_bs.Prelude.{
  ℕ, ◌+◌, ◌*◌, ◌/◌, ◌%◌, ◌^◌, ◌≤◌, ◌<◌, ◌≡◌, refl, ap, ◌∙◌, subst, Bool, true, false, bit_or, List,
  [], ◌∷◌, ◌++◌, arith,
}
use tetra_bs.Bits.{bit_or-shl}
use tetra_bs.Core.BitBuffer.{BitBuffer, bb_pos_bits, sub_size}
use tetra_bs.Core.BitBuffer.Cursor.{IsValid, HasRoom}
use tetra_bs.Core.BitBuffer.Codec.{done, return, ◌>>=◌, look, Field, width}
use tetra_bs.Core.BitBuffer.Codec.Fields.{
  Fields, Fields-append, width-append, Reads, get_then, refuse_then, look_then, return-Reads,
  Reads-then, Reads-last,
}
use tetra_bs.Core.BitBuffer.Codec.Runs.{
  Emits, Emits-append, put_then, put_alone, return-Emits, refuse-Emits, refuse_within,
  measured-Emitted, rewound, rewound-IsValid, read_back,
}
use tetra_bs.Cmce.{nwrk_broadcast}
use tetra_bs.Cmce.Message.{CmcePdu, bit_of, is_set}
use tetra_bs.Cmce.Pdu.Broadcast.{
  put_network_time, put_neighbours, put_optionals, put_broadcast, cmce_pdu_encode_d_nwrk_broadcast,
  get_network_time, get_neighbours, get_optionals, cmce_pdu_decode_d_nwrk_broadcast,
}

abbrev network_time : Bool → CmcePdu → List Field
network_time true p =
    (24, p.nwrk_tetra_network_time / 2 ^ 24 % 2 ^ 24)
    ∷ (24, p.nwrk_tetra_network_time % 2 ^ 24)
    ∷ []
network_time false p = []

abbrev neighbours : Bool → List Field
neighbours true = (3, 0) ∷ []
neighbours false = []

abbrev optionals : Bool → CmcePdu → List Field
optionals true p =
    (1, bit_of p.nwrk_p_tetra_network_time)
    ∷ (network_time p.nwrk_p_tetra_network_time p
        ++ ((1, bit_of p.nwrk_p_num_ca_neighbour_cells)
            ∷ neighbours p.nwrk_p_num_ca_neighbour_cells))
optionals false p = []

-- The body, for a message without neighbour cells.
abbrev pub broadcast : CmcePdu → List Field
broadcast p =
    (16, p.nwrk_cell_re_select_parameters)
    ∷ (2, p.nwrk_cell_load_ca)
    ∷ (1, bit_of p.optionals_present)
    ∷ optionals p.optionals_present p

module _ (p : CmcePdu) where
  network_time-Emits : (b : Bool) → Emits (put_network_time b p) (network_time b p)
  unfolding put_network_time
  network_time-Emits true = put_then _ 24 (put_alone 24 _)
  network_time-Emits false = return-Emits

  neighbours-Emits :
      (b : Bool) → p.nwrk_num_ca_neighbour_cells ≡ 0 → Emits (put_neighbours b p) (neighbours b)
  unfolding put_neighbours
  neighbours-Emits true h =
      let none_left : p.nwrk_num_ca_neighbour_cells % 8 ≡ 0 = omega arith in
      subst (λ v. Emits (put_neighbours true p) ((3, v) ∷ [])) none_left
        (put_then _ 3 (refuse-Emits _ (omega arith)))
  neighbours-Emits false h = return-Emits

  optionals-Emits :
      (b : Bool) → p.nwrk_num_ca_neighbour_cells ≡ 0 → Emits (put_optionals b p) (optionals b p)
  unfolding put_optionals
  optionals-Emits true h = put_then _ 1 (
      Emits-append (network_time-Emits p.nwrk_p_tetra_network_time)
        (put_then _ 1 (neighbours-Emits p.nwrk_p_num_ca_neighbour_cells h)))
  optionals-Emits false h = return-Emits

  broadcast-Emits : p.nwrk_num_ca_neighbour_cells ≡ 0 → Emits (put_broadcast p) (broadcast p)
  unfolding put_broadcast
  broadcast-Emits h =
      put_then _ 16 (put_then _ 2 (put_then _ 1 (optionals-Emits p.optionals_present h)))

bit_of-lt : (b : Bool) → bit_of b < 2
bit_of-lt true = omega arith
bit_of-lt false = omega arith

network_time-Fields : (b : Bool) (p : CmcePdu) → Fields (network_time b p)
network_time-Fields true p = omega arith
network_time-Fields false p = tt

optionals-Fields : (b : Bool) (p : CmcePdu) → Fields (optionals b p)
optionals-Fields true p = (
  (omega arith, omega arith, bit_of-lt p.nwrk_p_tetra_network_time),
  Fields-append (network_time p.nwrk_p_tetra_network_time p)
      ((1, bit_of p.nwrk_p_num_ca_neighbour_cells) ∷ neighbours p.nwrk_p_num_ca_neighbour_cells)
      (network_time-Fields p.nwrk_p_tetra_network_time p)
      (
        (omega arith, omega arith, bit_of-lt p.nwrk_p_num_ca_neighbour_cells),
        neighbours-Fields p.nwrk_p_num_ca_neighbour_cells,
      ),
)
  where
    neighbours-Fields : (b : Bool) → Fields (neighbours b)
    neighbours-Fields true = omega arith
    neighbours-Fields false = tt
optionals-Fields false p = tt

-- What of a message the decoder adds to `out`.
abbrev with_neighbours : Bool → CmcePdu → CmcePdu
with_neighbours true q = record q {
  nwrk_p_num_ca_neighbour_cells = true;
  nwrk_num_ca_neighbour_cells = 0;
}
with_neighbours false q = q

abbrev with_network_time : Bool → CmcePdu → CmcePdu → CmcePdu
with_network_time true p q = record q {
  nwrk_p_tetra_network_time = true;
  nwrk_tetra_network_time = p.nwrk_tetra_network_time;
}
with_network_time false p q = q

abbrev with_optionals : Bool → CmcePdu → CmcePdu → CmcePdu
with_optionals true p q =
    with_neighbours p.nwrk_p_num_ca_neighbour_cells
      (with_network_time p.nwrk_p_tetra_network_time p q)
with_optionals false p q = q

abbrev carried_with : CmcePdu → CmcePdu → Bool → CmcePdu
carried_with out p o_bit = with_optionals p.optionals_present p (record out {
  pdu_type = nwrk_broadcast;
  nwrk_cell_re_select_parameters = p.nwrk_cell_re_select_parameters;
  nwrk_cell_load_ca = p.nwrk_cell_load_ca;
  optionals_present = o_bit;
  nwrk_p_tetra_network_time = false;
  nwrk_tetra_network_time = 0;
  nwrk_p_num_ca_neighbour_cells = false;
  nwrk_num_ca_neighbour_cells = 0;
})

abbrev pub broadcast_carried : CmcePdu → CmcePdu → CmcePdu
broadcast_carried out p = carried_with out p p.optionals_present

is_set-bit_of : (b : Bool) → is_set (bit_of b) ≡ b
is_set-bit_of true = refl
is_set-bit_of false = refl

module _ (p : CmcePdu) where
  network_time-Reads :
      (b : Bool) (bb : BitBuffer) (len k : ℕ) (q : CmcePdu)
      → p.nwrk_tetra_network_time < 2 ^ 48
      → width (network_time b p) + 21 ≤ len
      → Reads
          (get_network_time (is_set (bit_of b)) len q)
          bb
          (network_time b p)
          k
          (with_network_time b p q)
  unfolding get_network_time
  network_time-Reads true bb len k q h long =
      let t : ℕ = p.nwrk_tetra_network_time in
      let whole : bit_or (t / 2 ^ 24 % 2 ^ 24 * 2 ^ 24) (t % 2 ^ 24) ≡ t =
        omega (arith, bit_or-shl 24 (t / 2 ^ 24 % 2 ^ 24) (t % 2 ^ 24) (omega arith)) in
      subst
        (λ t.
          Reads (get_network_time true len q) bb (network_time true p) k
            (record q { nwrk_p_tetra_network_time = true; nwrk_tetra_network_time = t }))
        whole (refuse_then _ _ (ground arith) (get_then _ (get_then _ return-Reads)))
  network_time-Reads false bb len k q h long = return-Reads

  neighbours-Reads :
      (b : Bool) (bb : BitBuffer) (k : ℕ) (q : CmcePdu)
      → Reads (get_neighbours (is_set (bit_of b)) q) bb (neighbours b) k (with_neighbours b q)
  unfolding get_neighbours
  neighbours-Reads true bb k q = get_then _ return-Reads
  neighbours-Reads false bb k q = return-Reads

  optionals-Reads :
      (b : Bool) (bb : BitBuffer) (len k : ℕ) (q : CmcePdu)
      → p.nwrk_tetra_network_time < 2 ^ 48
      → 19 + width (optionals b p) ≤ len
      → Reads (get_optionals (is_set (bit_of b)) len q) bb (optionals b p) k (with_optionals b p q)
  unfolding get_optionals
  optionals-Reads true bb len k q h long =
      let fits : width (network_time p.nwrk_p_tetra_network_time p) + 21 ≤ len = omega (
        arith,
        long,
        width-append (network_time p.nwrk_p_tetra_network_time p) (
            (1, bit_of p.nwrk_p_num_ca_neighbour_cells)
            ∷ neighbours p.nwrk_p_num_ca_neighbour_cells),
      ) in
      refuse_then _ _ (ground arith) (
        get_then _ (
          Reads-then _ (network_time-Reads p.nwrk_p_tetra_network_time _ len _ q h fits)
            (get_then _ (neighbours-Reads p.nwrk_p_num_ca_neighbour_cells _ k _))))
  optionals-Reads false bb len k q h long = return-Reads

-- A broadcast without neighbour cells whose fields lie within their widths.
abbrev pub IsBroadcast : CmcePdu → Type 0
IsBroadcast p =
    (p.nwrk_cell_re_select_parameters < 2 ^ 16)
    × (p.nwrk_cell_load_ca < 4)
    × (p.nwrk_num_ca_neighbour_cells ≡ 0)
    × (p.nwrk_tetra_network_time < 2 ^ 48)

module _ (bb : BitBuffer) (p : CmcePdu) (len : ℕ) (f : ℕ → ℕ) where
  optionals_then :
      (b : Bool) (q : CmcePdu)
      → p.nwrk_tetra_network_time < 2 ^ 48
      → 19 + width (optionals b p) ≤ len
      → Reads
          (do
            p' ← get_optionals (is_set (bit_of b)) len q
            end ← look bb_pos_bits
            return (record p' { encoded_len_bits = f end }))
          bb
          (optionals b p)
          0
          (record (with_optionals b p q) {
            encoded_len_bits = f (bb_pos_bits (record bb { pos = bb.pos + width (optionals b p) }));
          })
  optionals_then b q h long =
      Reads-last _ (optionals-Reads p b bb len 0 q h long) (look_then _ _ return-Reads)

-- The number of bits that the decoder counts.
abbrev counted : BitBuffer → CmcePdu → ℕ
counted bb p =
    sub_size
      (bb_pos_bits
        (record bb { pos = bb.pos + 16 + 2 + 1 + width (optionals p.optionals_present p) }))
      (bb_pos_bits bb)
    % 2 ^ 16

decode-Reads :
    (out p : CmcePdu) (bb : BitBuffer)
    → IsBroadcast p
    → Reads
        (cmce_pdu_decode_d_nwrk_broadcast out (width (broadcast p)))
        bb
        (broadcast p)
        0
        (record (broadcast_carried out p) { encoded_len_bits = counted bb p })
unfolding cmce_pdu_decode_d_nwrk_broadcast
decode-Reads out p bb (a, b, c, d) =
    subst
      (λ o.
        Reads (cmce_pdu_decode_d_nwrk_broadcast out (width (broadcast p))) bb (broadcast p) 0
          (record (carried_with out p o) { encoded_len_bits = counted bb p }))
      (is_set-bit_of p.optionals_present)
      (refuse_then _ _ (ground arith) (
        look_then _ _ (
          get_then _ (
            get_then _ (
              get_then _ (
                optionals_then _ p (width (broadcast p)) _ p.optionals_present _ d
                  (omega arith)))))))

optionals-width : (b : Bool) (p : CmcePdu) → width (optionals b p) ≤ 53
optionals-width true p = omega (
  arith,
  width-append (network_time p.nwrk_p_tetra_network_time p)
      ((1, bit_of p.nwrk_p_num_ca_neighbour_cells) ∷ neighbours p.nwrk_p_num_ca_neighbour_cells),
  network_time-width p.nwrk_p_tetra_network_time,
  neighbours-width p.nwrk_p_num_ca_neighbour_cells,
)
  where
    network_time-width : (b : Bool) → width (network_time b p) ≤ 48
    network_time-width true = omega arith
    network_time-width false = omega arith

    neighbours-width : (b : Bool) → width (neighbours b) ≤ 3
    neighbours-width true = omega arith
    neighbours-width false = omega arith
optionals-width false p = omega arith

counted_lem :
    (bb : BitBuffer) (p : CmcePdu)
    → IsValid bb
    → bb.pos + width (broadcast p) ≤ bb.end
    → counted bb p ≡ width (broadcast p)
unfolding bb_pos_bits
counted_lem bb p v fits =
    omega (arith, v.start_le, v.end_le, v.addressable, optionals-width p.optionals_present p)

-- A network broadcast without neighbour cells whose fields lie within their widths is encoded where
-- there is room, and decoding the bits written ends well: beside what `out` held before, it gives
-- the parameters, the load, and each optional element that the message has, with the number of
-- bits read, which is the number of bits written. The optional elements are encoded, where the comment
-- in cmce.h has the encoder refuse a message that has any.
pub decode-encode_broadcast :
    (p out : CmcePdu) (bb : BitBuffer)
    → IsValid bb
    → IsBroadcast p
    → HasRoom bb (width (broadcast p))
    → (bb' : BitBuffer) × (cmce_pdu_encode_d_nwrk_broadcast p bb ≡ done (width (broadcast p)) bb')
      × (cmce_pdu_decode_d_nwrk_broadcast out (width (broadcast p)) (rewound bb' bb.pos)
          ≡ done (record (broadcast_carried out p) { encoded_len_bits = width (broadcast p) }) bb')
unfolding cmce_pdu_encode_d_nwrk_broadcast
decode-encode_broadcast p out bb valid (a, b, c, d) room =
    let fit : Fields (broadcast p) = (
      (omega arith, omega arith, a),
      (
        (omega arith, omega arith, b),
        (
          (omega arith, omega arith, bit_of-lt p.optionals_present),
          optionals-Fields p.optionals_present p,
        ),
      ),
    ) in
    let (bb', e, h) = measured-Emitted (put_broadcast p) bb (broadcast-Emits p c) valid fit room in
    (
      bb',
      refuse_within _ _ bb (omega arith) ∙ refuse_within _ _ bb (omega arith) ∙ e,
      read_back bb bb' (broadcast p) valid h (decode-Reads out p (rewound bb' bb.pos) (a, b, c, d))
          ∙ ap (λ n. done (record (broadcast_carried out p) { encoded_len_bits = n }) bb')
              (counted_lem (rewound bb' bb.pos) p (rewound-IsValid bb bb' (broadcast p) valid h)
                (omega (arith, h.moved, h.valid.pos_le))),
    )

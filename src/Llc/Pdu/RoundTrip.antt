-- ===== src/Llc/Pdu/RoundTrip.antt =====
-- What `llc_pdu_decode` of sw/llc/llc_pdu.c makes of what `llc_pdu_encode` wrote.
use tetra_bs.Prelude.{
  ℕ, ◌+◌, ◌-◌, ◌*◌, ◌/◌, ◌%◌, ◌≤◌, ◌≡◌, refl, sym, ap, ◌∙◌, subst, Bool, true, false, not,
  Bool-cases, inl, inr, ltb, ◌==◌, List, [], ◌∷◌, ◌++◌, drop, length, if◌then◌else◌, arith,
}
use tetra_bs.Core.BitBuffer.{BitBuffer}
use tetra_bs.Core.BitBuffer.Spec.{IsBytes}
use tetra_bs.Core.BitBuffer.Cursor.{IsValid, HasRoom}
use tetra_bs.Core.BitBuffer.Codec.{done, return, Field, width}
use tetra_bs.Core.BitBuffer.Codec.Fields.{
  Reads, get_then, get_alone, refuse_then, look_then, remaining_then, return-Reads, Reads-then,
  Reads-cong, width-append, advanced,
}
use tetra_bs.Core.BitBuffer.Codec.Runs.{rewound, rewound-IsValid, read_back}
use tetra_bs.Llc.{LlcPdu}
use tetra_bs.Llc.Pdu.{
  al_setup, llc_pdu_type_has_nr, llc_pdu_type_has_ns, llc_pdu_type_has_fcs, crc32_over_bb_window,
  here, flag_bits, get_flag, get_payload, get_fcs, get_rest, llc_pdu_encode, llc_pdu_decode,
}
use tetra_bs.Llc.Pdu.Body.{body_fields, cleared, width-body_fields, get_body-Reads}
use tetra_bs.Llc.Pdu.Layout.{
  flag_field, fcs_field, fields, head_bits, total, IsLlcPdu, width-flag_field, width-fields,
}
use tetra_bs.Llc.Pdu.Encoding.{here_lem, Encoded, llc_pdu_encode-Encoded}

abbrev flag_of : Bool → ℕ → ℕ
flag_of true v = v % 2
flag_of false v = 0

-- What of a message arrives, in a receiver's structure `out`: the numbers that its type has, and the
-- bits of its body.
abbrev pub received : LlcPdu → LlcPdu → ℕ → LlcPdu
received out p crc = record {
  pdu_type = p.pdu_type;
  nr = flag_of (llc_pdu_type_has_nr p.pdu_type) p.nr;
  ns = flag_of (llc_pdu_type_has_ns p.pdu_type) p.ns;
  body_len_bits = p.body_len_bits;
  body = cleared p.body p.body_len_bits ++ drop ((p.body_len_bits + 7) / 8) out.body;
  fcs = if llc_pdu_type_has_fcs p.pdu_type then crc else 0;
  fcs_valid = llc_pdu_type_has_fcs p.pdu_type;
}

get_flag-Reads :
    (b : Bool) (v k : ℕ) (bb : BitBuffer) → Reads (get_flag b) bb (flag_field b v) k (flag_of b v)
unfolding get_flag
get_flag-Reads true v k bb = get_alone
get_flag-Reads false v k bb = return-Reads

get_fcs-Reads :
    (start crc k : ℕ) (p : LlcPdu) (bb : BitBuffer)
    → crc ≡ crc32_over_bb_window bb.buffer start (here bb)
    → Reads (get_fcs start p) bb ((32, crc) ∷ []) k (record p { fcs = crc; fcs_valid = true })
unfolding get_fcs
get_fcs-Reads start crc k p bb e =
    let equal : (crc == crc32_over_bb_window bb.buffer start (here bb)) ≡ true = ground arith in
    Reads-cong (ap (λ b. record p { fcs = crc; fcs_valid = b }) equal) (
      remaining_then _ 32 (omega arith) (λ r enough.
        refuse_then _ _ enough (look_then _ _ (look_then _ _ (get_then _ return-Reads)))))

get_payload_none :
    (old bs : List ℕ) (k : ℕ) (bb : BitBuffer)
    → Reads (get_payload old 0) bb (body_fields bs 0) k (cleared bs 0 ++ drop ((0 + 7) / 8) old)
unfolding get_payload body_fields cleared
get_payload_none old [] k bb = return-Reads
get_payload_none old (b ∷ bs) k bb = return-Reads

get_payload-Reads :
    (old bs : List ℕ) (n k : ℕ) (bb : BitBuffer)
    → IsBytes bs
    → n ≤ length bs * 8
    → Reads (get_payload old n) bb (body_fields bs n) k (cleared bs n ++ drop ((n + 7) / 8) old)
unfolding get_payload
get_payload-Reads old bs n k bb bytes room = elim (Bool-cases (ltb 0 n)) [
  | inl some ↦ rw some (
      remaining_then _ n (omega (arith, width-body_fields bs n room))
        (λ r enough. refuse_then _ _ enough (get_body-Reads old bs n k bb bytes room)))
  | inr none ↦
      let nothing : n ≡ 0 = ground arith in
      subst
        (λ m.
          Reads (get_payload old m) bb (body_fields bs m) k
            (cleared bs m ++ drop ((m + 7) / 8) old))
        (sym nothing) (get_payload_none old bs k bb)
]

-- The checksum, where the type has one
abbrev checked : Bool → ℕ → LlcPdu → LlcPdu
checked b crc q = record q { fcs = if b then crc else 0; fcs_valid = b }

fcs_part-Reads :
    (b : Bool) (start crc k : ℕ) (q : LlcPdu) (bb : BitBuffer)
    → (b ≡ true → crc ≡ crc32_over_bb_window bb.buffer start (here bb))
    → Reads
        (if b then get_fcs start (checked false 0 q) else return (checked false 0 q))
        bb
        (fcs_field b crc)
        k
        (checked b crc q)
fcs_part-Reads true start crc k q bb check =
    get_fcs-Reads start crc k (checked false 0 q) bb (check refl)
fcs_part-Reads false start crc k q bb check = return-Reads

abbrev sized : LlcPdu → LlcPdu → LlcPdu
sized out p = record out { body_len_bits = p.body_len_bits }

-- What follows the type, read from behind it.
get_rest-Reads :
    (start crc : ℕ) (out p : LlcPdu) (bb : BitBuffer)
    → IsLlcPdu p
    → (llc_pdu_type_has_fcs p.pdu_type ≡ true
        → crc
          ≡ crc32_over_bb_window bb.buffer start
              (here (record bb { pos = bb.pos + (head_bits p - 4) })))
    → Reads
        (get_rest start p.pdu_type (sized out p))
        bb
        (flag_field (llc_pdu_type_has_nr p.pdu_type) p.nr
          ++ (flag_field (llc_pdu_type_has_ns p.pdu_type) p.ns
              ++ (body_fields p.body p.body_len_bits
                  ++ fcs_field (llc_pdu_type_has_fcs p.pdu_type) crc)))
        0
        (received out p crc)
unfolding get_rest
get_rest-Reads start crc out p bb h check =
    remaining_then _
      (flag_bits (llc_pdu_type_has_nr p.pdu_type) + flag_bits (llc_pdu_type_has_ns p.pdu_type)) fits
      (λ r enough. refuse_then _ _ enough (
        Reads-then _ (get_flag-Reads (llc_pdu_type_has_nr p.pdu_type) p.nr _ _) (
          Reads-then _ (get_flag-Reads (llc_pdu_type_has_ns p.pdu_type) p.ns _ _) (
            Reads-then _ (get_payload-Reads out.body p.body p.body_len_bits _ _ h.bytes room) (
              fcs_part-Reads (llc_pdu_type_has_fcs p.pdu_type) start crc 0 (received out p crc) _
                (λ has.
                  check has
                  ∙ ap (λ q. crc32_over_bb_window bb.buffer start (here (record bb { pos = q })))
                      at))))))
  where
    nr : List Field
    nr = flag_field (llc_pdu_type_has_nr p.pdu_type) p.nr

    ns : List Field
    ns = flag_field (llc_pdu_type_has_ns p.pdu_type) p.ns

    body : List Field
    body = body_fields p.body p.body_len_bits

    tail : List Field
    tail = fcs_field (llc_pdu_type_has_fcs p.pdu_type) crc

    room : p.body_len_bits ≤ length p.body * 8
    room = omega (arith, h.fits, h.whole)

    w_nr : width nr ≡ flag_bits (llc_pdu_type_has_nr p.pdu_type)
    w_nr = width-flag_field (llc_pdu_type_has_nr p.pdu_type) p.nr

    w_ns : width ns ≡ flag_bits (llc_pdu_type_has_ns p.pdu_type)
    w_ns = width-flag_field (llc_pdu_type_has_ns p.pdu_type) p.ns

    fits :
        flag_bits (llc_pdu_type_has_nr p.pdu_type) + flag_bits (llc_pdu_type_has_ns p.pdu_type)
        ≤ width (nr ++ (ns ++ (body ++ tail))) + 0
    fits =
        omega (
          arith,
          w_nr,
          w_ns,
          width-append nr (ns ++ (body ++ tail)),
          width-append ns (body ++ tail),
        )

    at : bb.pos + (head_bits p - 4) ≡ bb.pos + width nr + width ns + width body
    at = omega (arith, w_nr, w_ns, width-body_fields p.body p.body_len_bits room)

abbrev behind_type : LlcPdu → ℕ → List Field
behind_type p crc =
    flag_field (llc_pdu_type_has_nr p.pdu_type) p.nr
    ++ (flag_field (llc_pdu_type_has_ns p.pdu_type) p.ns
        ++ (body_fields p.body p.body_len_bits ++ fcs_field (llc_pdu_type_has_fcs p.pdu_type) crc))

abbrev wrapper : LlcPdu → ℕ → LlcPdu
wrapper out t = record out {
  pdu_type = t;
  nr = 0;
  ns = 0;
  fcs = 0;
  fcs_valid = false;
  body_len_bits = 0;
}

-- `p` as a message of the type `t` with `n` bits of body
abbrev retyped : LlcPdu → ℕ → ℕ → LlcPdu
retyped p t n = record p { pdu_type = t; body_len_bits = n }

-- An AL-SETUP ends behind its type.
wrapper_body-Reads :
    (out p : LlcPdu) (crc : ℕ) (bb : BitBuffer) (bs : List ℕ)
    → Reads
        (return (wrapper out al_setup))
        bb
        (behind_type (record p { pdu_type = al_setup; body_len_bits = 0; body = bs }) crc)
        0
        (received out (record p { pdu_type = al_setup; body_len_bits = 0; body = bs }) crc)
unfolding llc_pdu_type_has_nr llc_pdu_type_has_ns llc_pdu_type_has_fcs body_fields cleared
wrapper_body-Reads out p crc bb [] = return-Reads
wrapper_body-Reads out p crc bb (b ∷ bs) = return-Reads

wrapper-Reads :
    (out p : LlcPdu) (crc : ℕ) (bb : BitBuffer)
    → p.pdu_type ≡ al_setup
    → p.body_len_bits ≡ 0
    → Reads (return (wrapper out p.pdu_type)) bb (behind_type p crc) 0 (received out p crc)
wrapper-Reads out p crc bb type none =
    subst
      (λ n.
        Reads (return (wrapper out p.pdu_type)) bb (behind_type (retyped p p.pdu_type n) crc) 0
          (received out (retyped p p.pdu_type n) crc))
      (sym none)
      (subst
        (λ t.
          Reads (return (wrapper out t)) bb (behind_type (retyped p t 0) crc) 0
            (received out (retyped p t 0) crc))
        (sym type) (wrapper_body-Reads out p crc bb p.body))

decode-Reads :
    (out p : LlcPdu) (crc : ℕ) (bb : BitBuffer)
    → IsLlcPdu p
    → (llc_pdu_type_has_fcs p.pdu_type ≡ true
        → crc
          ≡ crc32_over_bb_window bb.buffer
              (here bb)
              (here (record bb { pos = bb.pos + 4 + (head_bits p - 4) })))
    → Reads
        (llc_pdu_decode (sized out p))
        bb
        (fields p (fcs_field (llc_pdu_type_has_fcs p.pdu_type) crc))
        0
        (received out p crc)
unfolding llc_pdu_decode
decode-Reads out p crc bb h check = refuse_then _ _ (ground (arith, h.fits)) (
    look_then _ _ (
      remaining_then _ 4 (omega arith)
        (λ r enough. refuse_then _ _ enough (get_then _ (refuse_then _ _ (ap not h.known) rest)))))
  where
    bb1 : BitBuffer
    bb1 = record bb { pos = bb.pos + 4 }

    rest :
        Reads
          (if p.pdu_type == al_setup
            then return (wrapper (sized out p) p.pdu_type)
            else get_rest (here bb) p.pdu_type (sized out p))
          bb1
          (behind_type p crc)
          0
          (received out p crc)
    rest = elim (Bool-cases (p.pdu_type == al_setup)) [
      | inl setup ↦
          let type : p.pdu_type ≡ al_setup = ground arith in
          rw setup (wrapper-Reads (sized out p) p crc bb1 type (h.bare type))
      | inr other ↦ rw other (get_rest-Reads (here bb) crc out p bb1 h check)
    ]

-- The checksum that the decoder computes, from where it starts
checksum_seen :
    (p : LlcPdu) (bb bb' : BitBuffer) (crc : ℕ)
    → IsLlcPdu p
    → IsValid bb
    → Encoded p bb bb' crc
    → llc_pdu_type_has_fcs p.pdu_type ≡ true
    → crc
      ≡ crc32_over_bb_window bb'.buffer
          (here (rewound bb' bb.pos))
          (here (record bb' { pos = bb.pos + 4 + (head_bits p - 4) }))
checksum_seen p bb bb' crc h valid enc has =
    let tail = fcs_field (llc_pdu_type_has_fcs p.pdu_type) crc in
    let back = rewound-IsValid bb bb' (fields p tail) valid enc.emitted in
    let length_head : 4 + (head_bits p - 4) ≡ head_bits p = omega arith in
    let end : bb.pos + 4 + (head_bits p - 4) ≡ bb.pos + head_bits p = omega arith in
    let inside : bb.pos + head_bits p ≤ bb'.end =
      omega (arith, enc.emitted.moved, enc.emitted.valid.pos_le, width-fields p tail h) in
    let stop : here (record bb' { pos = bb.pos + 4 + (head_bits p - 4) }) ≡ bb.pos + head_bits p =
      ap (λ q. here (record bb' { pos = q })) end
      ∙ here_lem _ (advanced (rewound bb' bb.pos) (head_bits p) back inside) in
    enc.checksum has
    ∙ ap (λ s. crc32_over_bb_window bb'.buffer s (bb.pos + head_bits p))
        (sym (here_lem (rewound bb' bb.pos) back))
    ∙ ap (λ s. crc32_over_bb_window bb'.buffer (here (rewound bb' bb.pos)) s) (sym stop)

-- A message that can be sent is encoded where there is room, and decoding the bits written, from
-- where they begin and into any structure that has the right length of the body set, ends well: the
-- type, the numbers of the type and the bits of the body arrive, and a checksum is found valid.
pub llc_pdu_decode-llc_pdu_encode :
    (p out : LlcPdu) (bb : BitBuffer)
    → IsLlcPdu p
    → IsValid bb
    → HasRoom bb (total p)
    → (bb' : BitBuffer) × (crc : ℕ) × (llc_pdu_encode p bb ≡ done (total p) bb')
      × (llc_pdu_decode (record out { body_len_bits = p.body_len_bits }) (rewound bb' bb.pos)
          ≡ done (received out p crc) bb')
llc_pdu_decode-llc_pdu_encode p out bb h valid room =
    let (bb', crc, e, enc) = llc_pdu_encode-Encoded p bb h valid room in
    (
      bb',
      crc,
      e,
      read_back bb bb' (fields p (fcs_field (llc_pdu_type_has_fcs p.pdu_type) crc)) valid
          enc.emitted
          (decode-Reads out p crc (rewound bb' bb.pos) h (checksum_seen p bb bb' crc h valid enc)),
    )

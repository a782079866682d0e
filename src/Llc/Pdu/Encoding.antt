-- ===== src/Llc/Pdu/Encoding.antt =====
-- What `llc_pdu_encode` of sw/llc/llc_pdu.c writes.
use tetra_bs.Prelude.{
  ℕ, ◌+◌, ◌*◌, ◌%◌, ◌≡◌, refl, sym, ap, ◌∙◌, subst, Bool, true, false, not, ◌&&◌, Bool-cases, inl,
  inr, ◌==◌, List, [], ◌∷◌, arith,
}
use native.Mathlib.Nat.{mod-eq_of_lt}
use tetra_bs.Core.BitBuffer.{BitBuffer, sub_size, bb_pos_bits}
use tetra_bs.Core.BitBuffer.Cursor.{IsValid, HasRoom}
use tetra_bs.Core.BitBuffer.Codec.{done, return, put_bits, look, Field, width}
use tetra_bs.Core.BitBuffer.Codec.Fields.{Emitted, >>=-done}
use tetra_bs.Core.BitBuffer.Codec.Runs.{run-Emitted, put_alone, refuse_passed, refuse_within}
use tetra_bs.Core.BitBuffer.Codec.Joins.{Emitted-append, room_behind, room_before}
use tetra_bs.Llc.{LlcPdu}
use tetra_bs.Llc.Pdu.{
  al_setup, llc_pdu_type_is_valid, llc_pdu_type_has_fcs, crc32_over_bb_window, when, here,
  flag_bits, put_head, put_fcs, llc_pdu_encode,
}
use tetra_bs.Llc.Pdu.Window.{crc32_over_bb_window-cong, crc32_over_bb_window-lt}
use tetra_bs.Llc.Pdu.Layout.{
  fcs_field, fields, head_bits, total, IsLlcPdu, width-head, width-fields, fields-append,
  fields-Fields, put_head-Emits,
}

pub here_lem : (bb : BitBuffer) → IsValid bb → here bb ≡ bb.pos
unfolding bb_pos_bits
here_lem bb v = omega (arith, v.start_le, v.pos_le, v.end_le, v.addressable)

-- What an encoded message is: the fields of the layout, the last of which, where the type has one,
-- is the checksum of all the bits before it.
pub record Encoded (p : LlcPdu) (bb bb' : BitBuffer) (crc : ℕ) : Type 0 where
  pub emitted : Emitted bb (fields p (fcs_field (llc_pdu_type_has_fcs p.pdu_type) crc)) bb'
  pub checksum :
      llc_pdu_type_has_fcs p.pdu_type ≡ true
      → crc ≡ crc32_over_bb_window bb'.buffer bb.pos (bb.pos + head_bits p)

nothing_behind :
    {b : Bool} → b ≡ false → (start : ℕ) (bb : BitBuffer) → when b (put_fcs start) bb ≡ done tt bb
unfolding return
nothing_behind {b} none start bb = rw none refl

put_fcs-done :
    (start : ℕ) (bb : BitBuffer)
    → put_fcs start bb ≡ put_bits (crc32_over_bb_window bb.buffer start (here bb)) 32 bb
unfolding put_fcs look
put_fcs-done start bb = >>=-done (look here) _ bb refl ∙ >>=-done (look (λ b. b.buffer)) _ bb refl

pub width-fcs_field : (b : Bool) (crc : ℕ) → width (fcs_field b crc) ≡ 32 * flag_bits b
width-fcs_field true crc = refl
width-fcs_field false crc = refl

module _ (p : LlcPdu) (bb : BitBuffer) (ok_p : IsLlcPdu p) (valid : IsValid bb) where
  -- The checksum behind a head that is written.
  fcs_written :
      (b1 : BitBuffer)
      → llc_pdu_type_has_fcs p.pdu_type ≡ true
      → Emitted bb (fields p []) b1
      → HasRoom bb (head_bits p + 32)
      → (bb' : BitBuffer) × (crc : ℕ) × (put_fcs (here bb) b1 ≡ done tt bb') × Encoded p bb bb' crc
  fcs_written b1 has h room =
      let crc = crc32_over_bb_window b1.buffer (here bb) (here b1) in
      let w : width (fields p []) ≡ head_bits p = width-head p ok_p in
      let (b2, e, k) =
        run-Emitted (put_bits crc 32) b1 ((32, crc) ∷ []) ((put_alone 32 crc).same b1) h.valid
          ((omega arith, omega arith, crc32_over_bb_window-lt b1.buffer (here bb) (here b1)), tt)
          (room_behind bb b1 (fields p []) 32 h (subst (λ n. HasRoom bb (n + 32)) (sym w) room)) in
      let at : here b1 ≡ bb.pos + head_bits p = here_lem b1 h.valid ∙ omega (arith, h.moved, w) in
      (
        b2,
        crc,
        put_fcs-done (here bb) b1 ∙ e,
        record {
          emitted = rw has (
              subst (λ fs. Emitted bb fs b2) (fields-append p ((32, crc) ∷ []))
                (Emitted-append bb b1 b2 (fields p []) ((32, crc) ∷ []) h k));
          checksum = λ _.
              ap (λ s. crc32_over_bb_window b1.buffer s (here b1)) (here_lem bb valid)
              ∙ ap (λ s. crc32_over_bb_window b1.buffer bb.pos s) at
              ∙ crc32_over_bb_window-cong b1.buffer b2.buffer bb.pos (bb.pos + head_bits p)
                  (λ q lo hi. sym (k.before q 1 (omega (arith, h.moved, w))));
        },
      )

  -- The head, and behind it whatever `llc_pdu_encode` puts there.
  head_then :
      (b1 b2 : BitBuffer)
      → put_head p bb ≡ done tt b1
      → when (llc_pdu_type_has_fcs p.pdu_type) (put_fcs (here bb)) b1 ≡ done tt b2
      → llc_pdu_encode p bb ≡ done (sub_size (here b2) (here bb)) b2
  unfolding llc_pdu_encode look return
  head_then b1 b2 e1 e2 =
      let known : not (llc_pdu_type_is_valid (p.pdu_type % 256)) ≡ false =
        ap (λ t. not (llc_pdu_type_is_valid t)) (mod-eq_of_lt (omega (arith, ok_p.small)))
        ∙ ap not ok_p.known in
      let bare : (p.pdu_type == al_setup && not (p.body_len_bits == 0)) ≡ false =
        ground (arith, ok_p.bare) in
      refuse_passed _ _ bb known
      ∙ refuse_within _ _ bb ok_p.fits
      ∙ refuse_passed _ _ bb bare
      ∙ >>=-done (look here) _ bb refl
      ∙ >>=-done (put_head p) _ bb e1
      ∙ >>=-done (when (llc_pdu_type_has_fcs p.pdu_type) (put_fcs (here bb))) _ b1 e2
      ∙ >>=-done (look here) _ b2 refl

  counted :
      (b2 : BitBuffer) (fs : List Field)
      → Emitted bb fs b2
      → sub_size (here b2) (here bb) ≡ width fs
  counted b2 fs h = omega (
    arith,
    here_lem bb valid,
    here_lem b2 h.valid,
    h.moved,
    h.valid.pos_le,
    h.valid.end_le,
    h.valid.addressable,
  )

  finished :
      (b1 b2 : BitBuffer) (crc : ℕ)
      → put_head p bb ≡ done tt b1
      → when (llc_pdu_type_has_fcs p.pdu_type) (put_fcs (here bb)) b1 ≡ done tt b2
      → Encoded p bb b2 crc
      → llc_pdu_encode p bb ≡ done (total p) b2
  finished b1 b2 crc e1 e2 enc =
      let tail = fcs_field (llc_pdu_type_has_fcs p.pdu_type) crc in
      let n : sub_size (here b2) (here bb) ≡ total p =
        counted b2 (fields p tail) enc.emitted
        ∙ width-fields p tail ok_p
        ∙ ap (λ k. head_bits p + k) (width-fcs_field (llc_pdu_type_has_fcs p.pdu_type) crc) in
      head_then b1 b2 e1 e2 ∙ ap (λ k. done k b2) n

-- On a valid buffer with room, a message that can be sent is encoded: the number of its bits is
-- returned, and the fields of its layout stand under the old cursor, the checksum over the bits
-- before it included.
pub llc_pdu_encode-Encoded :
    (p : LlcPdu) (bb : BitBuffer)
    → IsLlcPdu p
    → IsValid bb
    → HasRoom bb (total p)
    → (bb' : BitBuffer) × (crc : ℕ) × (llc_pdu_encode p bb ≡ done (total p) bb')
      × Encoded p bb bb' crc
llc_pdu_encode-Encoded p bb ok_p valid room =
    let w : width (fields p []) ≡ head_bits p = width-head p ok_p in
    let head_room : HasRoom bb (width (fields p [])) =
      subst (HasRoom bb) (sym w)
        (room_before bb (head_bits p) (32 * flag_bits (llc_pdu_type_has_fcs p.pdu_type)) room) in
    let (b1, e1, h) =
      run-Emitted (put_head p) bb (fields p []) ((put_head-Emits p ok_p).same bb) valid
        (fields-Fields p [] ok_p tt) head_room in
    elim (Bool-cases (llc_pdu_type_has_fcs p.pdu_type)) [
      | inl has ↦
          let (b2, crc, e2, enc) =
            fcs_written p bb ok_p valid b1 has h
              (subst (λ b. HasRoom bb (head_bits p + 32 * flag_bits b)) has room) in
          let e2' : when (llc_pdu_type_has_fcs p.pdu_type) (put_fcs (here bb)) b1 ≡ done tt b2 =
            rw has e2 in
          (b2, crc, finished p bb ok_p valid b1 b2 crc e1 e2' enc, enc)
      | inr none ↦
          let e2 : when (llc_pdu_type_has_fcs p.pdu_type) (put_fcs (here bb)) b1 ≡ done tt b1 =
            nothing_behind none (here bb) b1 in
          let enc : Encoded p bb b1 0 = record {
            emitted = rw none h;
            checksum = λ has. absurd (ground arith);
          } in
          (b1, 0, finished p bb ok_p valid b1 b1 0 e1 e2 enc, enc)
    ]

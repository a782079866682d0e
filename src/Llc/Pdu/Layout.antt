-- ===== src/Llc/Pdu/Layout.antt =====
-- The layout of the messages of sw/llc/llc_pdu.c, as the comment at the top of that file gives it,
-- and that the head of a message is written in it.
use tetra_bs.Prelude.{
  ℕ, ◌+◌, ◌*◌, ◌%◌, ◌≤◌, ◌<◌, ◌≡◌, refl, sym, ap, ◌∙◌, subst, Bool, true, false, Bool-cases, inl,
  inr, ltb, List, [], ◌∷◌, ◌++◌, append-nil, append_assoc, length, arith,
}
use native.Mathlib.Nat.{mod-eq_of_lt}
use tetra_bs.Core.BitBuffer.Spec.{IsBytes}
use tetra_bs.Core.BitBuffer.Codec.{put_bits, Field, width}
use tetra_bs.Core.BitBuffer.Codec.Fields.{Fields, Fields-append, width-append}
use tetra_bs.Core.BitBuffer.Codec.Runs.{Emits, Emits-append, put_then, put_alone, return-Emits}
use tetra_bs.Llc.{LlcPdu, body_max_bytes}
use tetra_bs.Llc.Pdu.{
  al_setup, llc_pdu_type_is_valid, llc_pdu_type_has_nr, llc_pdu_type_has_ns, llc_pdu_type_has_fcs,
  put_body, when, put_head, flag_bits,
}
use tetra_bs.Llc.Pdu.Body.{body_fields, put_body-Emits, body_fields-Fields, width-body_fields}

abbrev pub flag_field : Bool → ℕ → List Field
flag_field true v = (1, v % 2) ∷ []
flag_field false v = []

abbrev pub fcs_field : Bool → ℕ → List Field
fcs_field true crc = (32, crc) ∷ []
fcs_field false crc = []

-- The type, the numbers that the type has, the body and then `tail`.
abbrev pub fields : LlcPdu → List Field → List Field
fields p tail =
    (4, p.pdu_type)
    ∷ (flag_field (llc_pdu_type_has_nr p.pdu_type) p.nr
        ++ (flag_field (llc_pdu_type_has_ns p.pdu_type) p.ns
            ++ (body_fields p.body p.body_len_bits ++ tail)))

-- The bits of a message before its checksum, and all of them.
abbrev pub head_bits : LlcPdu → ℕ
head_bits p =
    4
    + flag_bits (llc_pdu_type_has_nr p.pdu_type)
    + flag_bits (llc_pdu_type_has_ns p.pdu_type)
    + p.body_len_bits

abbrev pub total : LlcPdu → ℕ
total p = head_bits p + 32 * flag_bits (llc_pdu_type_has_fcs p.pdu_type)

-- A message that can be sent.
pub record IsLlcPdu (p : LlcPdu) : Type 0 where
  pub known : llc_pdu_type_is_valid p.pdu_type ≡ true
  pub small : p.pdu_type < 16
  pub fits : p.body_len_bits ≤ 256
  pub bytes : IsBytes p.body
  pub whole : length p.body ≡ body_max_bytes
  pub bare : p.pdu_type ≡ al_setup → p.body_len_bits ≡ 0

pub width-flag_field : (b : Bool) (v : ℕ) → width (flag_field b v) ≡ flag_bits b
width-flag_field true v = refl
width-flag_field false v = refl

pub width-fields :
    (p : LlcPdu) (tail : List Field) → IsLlcPdu p → width (fields p tail) ≡ head_bits p + width tail
width-fields p tail h =
    let nr = flag_field (llc_pdu_type_has_nr p.pdu_type) p.nr in
    let ns = flag_field (llc_pdu_type_has_ns p.pdu_type) p.ns in
    let body = body_fields p.body p.body_len_bits in
    let e : width body ≡ p.body_len_bits =
      width-body_fields p.body p.body_len_bits (omega (arith, h.fits, h.whole)) in
    omega (
      arith,
      e,
      width-flag_field (llc_pdu_type_has_nr p.pdu_type) p.nr,
      width-flag_field (llc_pdu_type_has_ns p.pdu_type) p.ns,
      width-append nr (ns ++ (body ++ tail)),
      width-append ns (body ++ tail),
      width-append body tail,
    )

pub width-head : (p : LlcPdu) → IsLlcPdu p → width (fields p []) ≡ head_bits p
width-head p h = omega (arith, width-fields p [] h)

pub fields-append : (p : LlcPdu) (tail : List Field) → fields p [] ++ tail ≡ fields p tail
fields-append p tail =
    let nr = flag_field (llc_pdu_type_has_nr p.pdu_type) p.nr in
    let ns = flag_field (llc_pdu_type_has_ns p.pdu_type) p.ns in
    let body = body_fields p.body p.body_len_bits in
    ap (λ fs. (4, p.pdu_type) ∷ fs)
      (append_assoc nr (ns ++ (body ++ [])) tail
        ∙ ap (λ fs. nr ++ fs)
            (append_assoc ns (body ++ []) tail ∙ ap (λ fs. ns ++ fs) (append_assoc body [] tail)))

flag_field-Fields : (b : Bool) (v : ℕ) → Fields (flag_field b v)
flag_field-Fields true v = ((omega arith, omega arith, omega arith), tt)
flag_field-Fields false v = tt

pub fields-Fields :
    (p : LlcPdu) (tail : List Field) → IsLlcPdu p → Fields tail → Fields (fields p tail)
fields-Fields p tail h k =
    let nr = flag_field (llc_pdu_type_has_nr p.pdu_type) p.nr in
    let ns = flag_field (llc_pdu_type_has_ns p.pdu_type) p.ns in
    let body = body_fields p.body p.body_len_bits in
    let rest = Fields-append body tail (body_fields-Fields p.body p.body_len_bits h.bytes) k in
    (
      (omega arith, omega arith, h.small),
      Fields-append nr (ns ++ (body ++ tail))
          (flag_field-Fields (llc_pdu_type_has_nr p.pdu_type) p.nr)
          (Fields-append ns (body ++ tail) (flag_field-Fields (llc_pdu_type_has_ns p.pdu_type) p.ns)
            rest),
    )

flag-Emits : (b : Bool) (v : ℕ) → Emits (when b (put_bits (v % 2) 1)) (flag_field b v)
flag-Emits true v = put_alone 1 (v % 2)
flag-Emits false v = return-Emits

pub body_fields-zero : (bs : List ℕ) → body_fields bs 0 ≡ []
unfolding body_fields
body_fields-zero [] = refl
body_fields-zero (b ∷ bs) = refl

payload-Emits : (bs : List ℕ) (n : ℕ) → Emits (when (ltb 0 n) (put_body bs n)) (body_fields bs n)
payload-Emits bs n = elim (Bool-cases (ltb 0 n)) [
  | inl some ↦ rw some (put_body-Emits bs n)
  | inr none ↦
      let nothing : n ≡ 0 = ground arith in
      let no_field : body_fields bs n ≡ [] = ap (body_fields bs) nothing ∙ body_fields-zero bs in
      rw (none, no_field) return-Emits
]

-- All but the checksum is written in the layout.
pub put_head-Emits : (p : LlcPdu) → IsLlcPdu p → Emits (put_head p) (fields p [])
unfolding put_head
put_head-Emits p h =
    let nr = flag_field (llc_pdu_type_has_nr p.pdu_type) p.nr in
    let ns = flag_field (llc_pdu_type_has_ns p.pdu_type) p.ns in
    let body = body_fields p.body p.body_len_bits in
    let raw : Emits (put_head p) ((4, p.pdu_type % 16) ∷ (nr ++ (ns ++ body))) =
      put_then (p.pdu_type % 16) 4 (
        Emits-append (flag-Emits (llc_pdu_type_has_nr p.pdu_type) p.nr) (
          Emits-append (flag-Emits (llc_pdu_type_has_ns p.pdu_type) p.ns)
            (payload-Emits p.body p.body_len_bits))) in
    subst (Emits (put_head p))
      (ap (λ t. (4, t) ∷ (nr ++ (ns ++ body))) (mod-eq_of_lt h.small)
        ∙ ap (λ b. (4, p.pdu_type) ∷ (nr ++ (ns ++ b))) (sym (append-nil body)))
      raw

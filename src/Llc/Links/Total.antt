-- ===== src/Llc/Links/Total.antt =====
-- That no indication makes sw/llc/llc.c fail an assertion of the bit buffer.
use tetra_bs.Prelude.{
  ℕ, zero, suc, ◌+◌, ◌-◌, ◌*◌, ◌/◌, ◌^◌, ◌≤◌, ◌<◌, ◌≡◌, refl, sym, subst, Bool, true, false, not,
  ◌&&◌, ◌||◌, Bool-cases, inl, inr, Option, none, some, List, [], take, length, length-take,
  All-take, ltb, ◌==◌, Result, arith,
}
use tetra_bs.Core.BitBuffer.{BitBuffer, bb_init, bb_remaining}
use tetra_bs.Core.BitBuffer.Spec.{IsBytes}
use tetra_bs.Core.BitBuffer.Cursor.{IsValid}
use tetra_bs.Core.BitBuffer.Codec.{Step, done, fails, aborts, get_bits, seek_bits}
use tetra_bs.Core.BitBuffer.Codec.Ends.{
  Ends, Outcome, bind-Ends, return-Ends, refuse-Ends, get-Ends, look-Ends, if-Ends, bits-Ends,
  weaken-Ends, rewind-Ends,
}
use tetra_bs.Llc.{TetraAddress, LlcPdu, TleLayout}
use tetra_bs.Llc.Links.{
  TmaUnitdata, TmaLayout, LlcWorld, endpoint_at, llc_endpoint_lookup, is_data, llc_send_bl_ack,
}
use tetra_bs.Llc.Links.Intake.{
  peek_type, decode_sized, receive, accept, llc_handle_tma_unitdata_ind, count_llc_rx,
}
use tetra_bs.Llc.Links.Answering.{IsStack, ack_encoded, acked}
use tetra_bs.Llc.Links.Receive.{receive_new, receive_old}
use tetra_bs.Llc.Pdu.{
  al_setup, llc_pdu_type_has_nr, llc_pdu_type_has_ns, llc_pdu_type_has_fcs, here, get_bytes,
  get_body, get_flag, get_payload, get_fcs, get_rest, llc_pdu_decode,
}

-- Any result
abbrev pub Any : {A : Type 0} → A → Type 0
Any a = Unit

get_bytes-Ends : (k n : ℕ) → n ≤ 8 * k → 8 * k < n + 8 → Ends (get_bytes k n) Any
unfolding get_bytes
get_bytes-Ends zero n hi lo = return-Ends Any [] tt
get_bytes-Ends (suc k) n hi lo = elim (Bool-cases (ltb n 8)) [
  | inl last ↦ rw last (get-Ends Any n _ (omega arith) (ground arith) (λ v h. return-Ends Any _ tt))
  | inr more ↦ rw more (
      get-Ends Any 8 _ (omega arith) (omega arith) (λ v h.
        bind-Ends Any Any (get_bytes k (n - 8)) _
          (get_bytes-Ends k (n - 8) (ground arith) (ground arith)) (λ bs _. return-Ends Any _ tt)))
]

get_body-Ends : (old : List ℕ) (n : ℕ) → Ends (get_body old n) Any
unfolding get_body
get_body-Ends old n =
    bind-Ends Any Any (get_bytes ((n + 7) / 8) n) _
      (get_bytes-Ends ((n + 7) / 8) n (omega arith) (omega arith)) (λ bs _. return-Ends Any _ tt)

get_flag-Ends : (b : Bool) → Ends (get_flag b) Any
unfolding get_flag
get_flag-Ends true =
    weaken-Ends (λ v. v < 2 ^ 1) Any (get_bits 1) (bits-Ends 1 (omega arith) (omega arith))
      (λ v h. tt)
get_flag-Ends false = return-Ends Any 0 tt

get_payload-Ends : (old : List ℕ) (n : ℕ) → Ends (get_payload old n) Any
unfolding get_payload
get_payload-Ends old n =
    if-Ends Any (ltb 0 n) _ _
      (look-Ends Any bb_remaining _ (λ r. refuse-Ends Any _ _ _ (get_body-Ends old n)))
      (return-Ends Any old tt)

get_fcs-Ends : (start : ℕ) (p : LlcPdu) → Ends (get_fcs start p) Any
unfolding get_fcs
get_fcs-Ends start p = look-Ends Any bb_remaining _ (λ r. refuse-Ends Any _ _ _ (
    look-Ends Any here _ (λ pre.
      look-Ends Any (λ bb. bb.buffer) _
        (λ buf. get-Ends Any 32 _ (omega arith) (omega arith) (λ v h. return-Ends Any _ tt)))))

get_rest-Ends : (start t : ℕ) (out : LlcPdu) → Ends (get_rest start t out) Any
unfolding get_rest
get_rest-Ends start t out = look-Ends Any bb_remaining _ (λ r. refuse-Ends Any _ _ _ (
    bind-Ends Any Any (get_flag (llc_pdu_type_has_nr t)) _ (get_flag-Ends (llc_pdu_type_has_nr t))
      (λ nr _.
        bind-Ends Any Any (get_flag (llc_pdu_type_has_ns t)) _
          (get_flag-Ends (llc_pdu_type_has_ns t))
          (λ ns _.
            bind-Ends Any Any (get_payload out.body out.body_len_bits) _
              (get_payload-Ends out.body out.body_len_bits)
              (λ body _.
                if-Ends Any (llc_pdu_type_has_fcs t)
                  (get_fcs start (record out {
                    pdu_type = t;
                    nr = nr;
                    ns = ns;
                    body = body;
                    fcs = 0;
                    fcs_valid = false;
                  }))
                  _ (get_fcs-Ends start _) (return-Ends Any _ tt))))))

-- Decoding fails no assertion, whatever the buffer holds.
pub llc_pdu_decode-Ends : (out : LlcPdu) → Ends (llc_pdu_decode out) Any
unfolding llc_pdu_decode
llc_pdu_decode-Ends out = refuse-Ends Any _ _ _ (
    look-Ends Any here _ (λ start. look-Ends Any bb_remaining _ (λ r. refuse-Ends Any _ _ _ (
      get-Ends Any 4 _ (omega arith) (omega arith) (λ t h. refuse-Ends Any _ _ _ (
        if-Ends Any (t == al_setup) _ (get_rest start t out) (return-Ends Any _ tt)
          (get_rest-Ends start t out)))))))

peek_type-Ends : Ends peek_type Any
unfolding peek_type
peek_type-Ends = look-Ends Any bb_remaining _ (λ r.
    refuse-Ends Any _ _ _
      (get-Ends Any 4 _ (omega arith) (omega arith) (λ t h. return-Ends Any _ tt)))

decode_sized-Ends : (t len : ℕ) → Ends (decode_sized t len) Any
unfolding decode_sized
decode_sized-Ends t len = refuse-Ends Any _ _ _ (
    refuse-Ends Any _ _ _
      (bind-Ends Any Any (seek_bits 0) _ rewind-Ends (λ u _. llc_pdu_decode-Ends _)))

-- The function returns.
abbrev pub Returns : Option (LlcWorld × Result (Unit {0})) → Type 0
Returns none = ⊥
Returns (some st) = Unit

module _ (tma : TmaLayout) (tle : TleLayout) where
  send_bl_ack-Returns :
      (w : LlcWorld) (endpoint : ℕ) (addr : TetraAddress) (stack : List ℕ)
      → IsStack stack
      → Returns (llc_send_bl_ack tma tle w endpoint addr stack)
  unfolding llc_send_bl_ack
  send_bl_ack-Returns w endpoint addr stack h = by_slot (llc_endpoint_lookup w.llc endpoint).1 refl
    where
      by_slot :
          (slot : Option ℕ)
          → (llc_endpoint_lookup w.llc endpoint).1 ≡ slot
          → Returns (llc_send_bl_ack tma tle w endpoint addr stack)
      by_slot none e = rw (e, llc_send_bl_ack) tt
      by_slot (some i) e =
          let (bytes, e2) =
            ack_encoded (endpoint_at (llc_endpoint_lookup w.llc endpoint).0 i).nr_expected stack
              h in
          rw (e, e2, llc_send_bl_ack) tt

  acked-Returns :
      (w : LlcWorld) (ind : TmaUnitdata) (stack : List ℕ)
      → IsStack stack
      → Returns (acked tma tle w ind stack)
  acked-Returns w ind stack h =
      by_ack (llc_send_bl_ack tma tle w ind.endpoint ind.addr stack) refl
        (send_bl_ack-Returns w ind.endpoint ind.addr stack h)
    where
      by_ack :
          (r : Option (LlcWorld × Result (Unit {0})))
          → llc_send_bl_ack tma tle w ind.endpoint ind.addr stack ≡ r
          → Returns r
          → Returns (acked tma tle w ind stack)
      by_ack none e k = absurd k
      by_ack (some st) e k = rw (e, acked) tt

  receive-Returns :
      (w : LlcWorld) (ind : TmaUnitdata) (p : LlcPdu) (i : ℕ) (stack : List ℕ)
      → IsStack stack
      → Returns (receive tma tle w ind p i stack)
  unfolding receive
  receive-Returns w ind p i stack h = elim (Bool-cases (is_data p.pdu_type)) [
    | inl is_new ↦ elim (Bool-cases (p.ns == (endpoint_at w.llc i).nr_expected)) [
      | inl inseq ↦
          subst Returns (sym (receive_new tma tle w ind p i stack is_new (ground arith)))
            (acked-Returns _ ind stack h)
      | inr stale ↦
          subst Returns
            (sym (receive_old tma tle w ind p i stack is_new (λ e. absurd (ground arith))))
            (acked-Returns w ind stack h)
    ]
    | inr other ↦ elim (Bool-cases (p.pdu_type == 3 || p.pdu_type == 7)) [
      | inl is_ack ↦
          elim (Bool-cases
            ((endpoint_at w.llc i).awaiting_ack && p.nr == (endpoint_at w.llc i).ns_send)) [
              | inl heard ↦ simp (other, is_ack, heard, receive) tt
              | inr stray ↦ simp (other, is_ack, stray, receive) tt
            ]
      | inr stateless ↦ simp (other, stateless, receive) tt
    ]
  ]

  accept-Returns :
      (w : LlcWorld) (ind : TmaUnitdata) (p : LlcPdu) (stack : List ℕ)
      → IsStack stack
      → Returns (accept tma tle w ind p stack)
  unfolding accept
  accept-Returns w ind p stack h =
      elim (Bool-cases (llc_pdu_type_has_fcs p.pdu_type && not p.fcs_valid)) [
        | inl broken ↦ simp (broken, accept) tt
        | inr whole ↦ by_slot whole (llc_endpoint_lookup (count_llc_rx w).llc ind.endpoint).1 refl
      ]
    where
      by_slot :
          (llc_pdu_type_has_fcs p.pdu_type && not p.fcs_valid) ≡ false
          → (slot : Option ℕ) → (llc_endpoint_lookup (count_llc_rx w).llc ind.endpoint).1 ≡ slot
          → Returns (accept tma tle w ind p stack)
      by_slot whole none e = simp (whole, e, accept) tt
      by_slot whole (some i) e = simp (whole, e, accept) (receive-Returns _ ind p i stack h)

  -- The SDU of an indication is an array of 64 bytes.
  abbrev pub IsSdu : TmaUnitdata → Type 0
  IsSdu ind = IsBytes ind.sdu_bits × (length ind.sdu_bits ≡ 64)

  sdu-IsValid :
      (ind : TmaUnitdata)
      → IsSdu ind
      → ind.sdu_len_bits ≤ 512
      → IsValid (bb_init (take ((ind.sdu_len_bits + 7) / 8) ind.sdu_bits) ind.sdu_len_bits)
  unfolding bb_init
  sdu-IsValid ind (bytes, long) h = record {
    bytes = All-take (λ b. b < 256) ((ind.sdu_len_bits + 7) / 8) ind.sdu_bits bytes;
    start_le = omega arith;
    pos_le = omega arith;
    end_le = omega arith;
    memory = omega (arith, length-take ((ind.sdu_len_bits + 7) / 8) ind.sdu_bits);
    addressable = omega arith;
  }

  -- Whatever bits an indication brings, in whatever state the entity is, its handling fails no
  -- assertion: it returns a state and a result.
  pub llc_handle_tma_unitdata_ind-Returns :
      (w : LlcWorld) (ind : TmaUnitdata) (stack : List ℕ)
      → IsSdu ind
      → IsStack stack
      → Returns (llc_handle_tma_unitdata_ind tma tle w ind stack)
  unfolding llc_handle_tma_unitdata_ind
  llc_handle_tma_unitdata_ind-Returns w ind stack sdu h =
      elim (Bool-cases (ind.sdu_len_bits == 0 || ltb 512 ind.sdu_len_bits)) [
        | inl bad ↦ simp (bad, llc_handle_tma_unitdata_ind) tt
        | inr good ↦
            by_type good (peek_type buffer) refl
              (peek_type-Ends.run buffer (sdu-IsValid ind sdu (ground arith)))
      ]
    where
      buffer : BitBuffer
      buffer = bb_init (take ((ind.sdu_len_bits + 7) / 8) ind.sdu_bits) ind.sdu_len_bits

      Good : Type 0
      Good = (ind.sdu_len_bits == 0 || ltb 512 ind.sdu_len_bits) ≡ false

      by_decode :
          Good
          → (t : ℕ) (bb : BitBuffer) → peek_type buffer ≡ done (some t) bb
          → (r : Step LlcPdu) → decode_sized t ind.sdu_len_bits bb ≡ r
          → Outcome Any r
          → Returns (llc_handle_tma_unitdata_ind tma tle w ind stack)
      by_decode good t bb e aborts e2 k = absurd k
      by_decode good t bb e (fails n bb2) e2 k = simp (good, e, e2, llc_handle_tma_unitdata_ind) tt
      by_decode good t bb e (done p bb2) e2 k =
          simp (good, e, e2, llc_handle_tma_unitdata_ind) (accept-Returns w ind p stack h)

      by_type :
          Good
          → (r : Step (Option ℕ)) → peek_type buffer ≡ r
          → Outcome Any r
          → Returns (llc_handle_tma_unitdata_ind tma tle w ind stack)
      by_type good aborts e k = absurd k
      by_type good (fails n bb) e k = simp (good, e, llc_handle_tma_unitdata_ind) tt
      by_type good (done none bb) e k = simp (good, e, llc_handle_tma_unitdata_ind) tt
      by_type good (done (some t) bb) e k =
          by_decode good t bb e (decode_sized t ind.sdu_len_bits bb) refl
            ((decode_sized-Ends t ind.sdu_len_bits).run bb k.1)

-- ===== src/Llc/Links/Receive.antt =====
-- Stop and wait in sw/llc/llc.c: what becomes of a data message, and of its retransmission.
use tetra_bs.Prelude.{
  ◌^◌, ℕ, zero, suc, ◌+◌, ◌-◌, ◌%◌, bit_xor, ◌<◌, ◌≡◌, ◌≢◌, refl, ap, ◌∙◌, true, false, ◌&&◌,
  Bool-cases, inl, inr, some, List, [], ◌∷◌, get_or, set, length, get_or-set_self, ◌==◌, ok, arith,
}
use tetra_bs.Core.Sap.{prio_normal, tma_sap, tle_sap}
use tetra_bs.Core.MsgBus.{msgbus_post}
use tetra_bs.Llc.{LlcPdu, TleLayout}
use tetra_bs.Llc.Links.{
  LlcEndpoint, zero_endpoint, TmaUnitdata, TmaLayout, LlcWorld, endpoint_at, endpoint_find,
  with_endpoint, is_data, llc_post_to_mle,
}
use tetra_bs.Llc.Links.Intake.{receive}
use tetra_bs.Llc.Links.Answering.{IsStack, IsAnswered, acked, acked_found}

endpoint_find_lt :
    (es : List LlcEndpoint) (k id i : ℕ)
    → endpoint_find es k id ≡ some i
    → (j : ℕ) × (i ≡ k + j) × (j < length es)
unfolding endpoint_find
endpoint_find_lt [] k id i h = absurd (ground arith)
endpoint_find_lt (e ∷ es) k id i h = elim (Bool-cases (e.in_use && e.id == id)) [
  | inl here ↦ (0, ground arith, omega arith)
  | inr there ↦
      let (j, at, lt) = endpoint_find_lt es (k + 1) id i (ground arith) in
      (suc j, omega arith, omega arith)
]

-- An endpoint that keeps its name is found where it was.
endpoint_find-set :
    (es : List LlcEndpoint) (k id i : ℕ) (s : LlcEndpoint)
    → s.in_use ≡ (get_or es i zero_endpoint).in_use
    → s.id ≡ (get_or es i zero_endpoint).id
    → endpoint_find (set es i s) k id ≡ endpoint_find es k id
unfolding endpoint_find
endpoint_find-set [] k id i s used name = refl
endpoint_find-set (e ∷ es) k id zero s used name = rw (used, name) refl
endpoint_find-set (e ∷ es) k id (suc i) s used name =
    rw (endpoint_find-set es (k + 1) id i s used name) refl

flip_lem : (n : ℕ) → n < 2 → bit_xor n 1 % 256 ≡ 1 - n
flip_lem zero h = refl
flip_lem (suc zero) h = refl
flip_lem (suc (suc n)) h = absurd (omega arith)

-- The endpoint after a message in sequence.
abbrev pub advanced_endpoint : LlcEndpoint → LlcEndpoint
advanced_endpoint e = record e { nr_expected = 1 - e.nr_expected }

module _ (tma : TmaLayout) (tle : TleLayout) where
  module _ (w : LlcWorld) (ind : TmaUnitdata) (p : LlcPdu) (i : ℕ) (stack : List ℕ)
      (is_data_p : is_data p.pdu_type ≡ true) where
    pub receive_new :
        p.ns ≡ (endpoint_at w.llc i).nr_expected
        → receive tma tle w ind p i stack
          ≡ acked tma tle
              (llc_post_to_mle tma tle
                (with_endpoint w i (
                  let e = endpoint_at w.llc i in
                  record e { nr_expected = bit_xor e.nr_expected 1 % 256 }))
                (record { endpoint = ind.endpoint; addr = ind.addr; pdu = p })).0
              ind
              stack
    unfolding receive
    receive_new e =
        let expected : (p.ns == (endpoint_at w.llc i).nr_expected) ≡ true = ground arith in
        simp (is_data_p, expected, receive)

    pub receive_old :
        p.ns ≢ (endpoint_at w.llc i).nr_expected
        → receive tma tle w ind p i stack ≡ acked tma tle w ind stack
    unfolding receive
    receive_old ne =
        let other : (p.ns == (endpoint_at w.llc i).nr_expected) ≡ false = ground arith in
        simp (is_data_p, other, receive)

  -- The world after a message in sequence: the endpoint is advanced, and the message was posted, from
  -- TmaSap to TleSap on TleSap, to a bus that may have no room for it.
  abbrev pub delivered : LlcWorld → TmaUnitdata → LlcPdu → ℕ → LlcWorld
  delivered w ind p i =
      let (bus, rc) = msgbus_post w.bus prio_normal (record {
        src = tma_sap;
        dest = tle_sap;
        sap = tle_sap;
        len = tle.size % 2 ^ 16;
        payload = some (tle.bytes (record { endpoint = ind.endpoint; addr = ind.addr; pdu = p }));
      }) in
      record w {
        llc = record w.llc {
          endpoints = set w.llc.endpoints i (advanced_endpoint (endpoint_at w.llc i));
        };
        bus = bus;
      }

  delivered_lem :
      (w : LlcWorld) (ind : TmaUnitdata) (p : LlcPdu) (i : ℕ)
      → (llc_post_to_mle tma tle
          (with_endpoint w i (advanced_endpoint (endpoint_at w.llc i)))
          (record { endpoint = ind.endpoint; addr = ind.addr; pdu = p })).0
        ≡ delivered w ind p i
  unfolding llc_post_to_mle
  delivered_lem w ind p i = refl

  -- A data message in sequence, with the number 0 or 1, on an endpoint of the table: it is posted to the bus for TleSap, which
  -- may refuse it for want of room without a change in what follows; the endpoint then expects the
  -- other number, and nothing else in the table has changed; and a BL-ACK with that other number is
  -- posted for the MAC, encoded into 8 bytes of any content. If the same message comes again, whenever the table is as it was left, a
  -- BL-ACK with the same number is posted, and nothing but that: the message is not posted, and the
  -- table stays. A post of a BL-ACK may be refused as well, and then is not counted.
  pub receive_once :
      (w again : LlcWorld) (ind : TmaUnitdata) (p : LlcPdu) (i : ℕ) (stack : List ℕ)
      → is_data p.pdu_type ≡ true
      → endpoint_find w.llc.endpoints 0 ind.endpoint ≡ some i
      → IsStack stack
      → p.ns ≡ (endpoint_at w.llc i).nr_expected
      → p.ns < 2
      → again.llc.endpoints ≡ set w.llc.endpoints i (advanced_endpoint (endpoint_at w.llc i))
      → (st after : LlcWorld) × (receive tma tle w ind p i stack ≡ some (st, ok tt))
        × IsAnswered tma tle (delivered w ind p i) ind (1 - p.ns) stack st
        × (st.llc.endpoints ≡ set w.llc.endpoints i (advanced_endpoint (endpoint_at w.llc i)))
        × (receive tma tle again ind p i stack ≡ some (after, ok tt))
        × IsAnswered tma tle again ind (1 - p.ns) stack after
        × (after.llc.endpoints ≡ again.llc.endpoints)
  receive_once w again ind p i stack is_new found h inseq small table =
      let first = delivered w ind p i in
      let (st, e, kept, answered) =
        acked_found tma tle first ind i (1 - p.ns) stack (there first refl) (now first refl) h in
      let (after, e2, same, answered2) =
        acked_found tma tle again ind i (1 - p.ns) stack (there again table) (now again table) h in
      (
        st,
        after,
        receive_new w ind p i stack is_new inseq
            ∙ ap (λ n. acked tma tle (handed n) ind stack) (flip_lem expected (omega arith))
            ∙ ap (λ m. acked tma tle m ind stack) (delivered_lem w ind p i)
            ∙ e,
        answered,
        kept,
        receive_old again ind p i stack is_new (stale again table) ∙ e2,
        answered2,
        same,
      )
    where
      flipped : List LlcEndpoint
      flipped = set w.llc.endpoints i (advanced_endpoint (endpoint_at w.llc i))

      still : endpoint_find flipped 0 ind.endpoint ≡ some i
      still =
          endpoint_find-set w.llc.endpoints 0 ind.endpoint i
            (advanced_endpoint (endpoint_at w.llc i)) refl refl
          ∙ found

      there :
          (m : LlcWorld)
          → m.llc.endpoints ≡ flipped
          → endpoint_find m.llc.endpoints 0 ind.endpoint ≡ some i
      there m same = ap (λ es. endpoint_find es 0 ind.endpoint) same ∙ still

      expected : ℕ
      expected = (endpoint_at w.llc i).nr_expected

      handed : ℕ → LlcWorld
      handed n =
          (llc_post_to_mle tma tle
            (with_endpoint w i (let e = endpoint_at w.llc i in record e { nr_expected = n }))
            (record { endpoint = ind.endpoint; addr = ind.addr; pdu = p })).0

      now :
          (m : LlcWorld) → m.llc.endpoints ≡ flipped → (endpoint_at m.llc i).nr_expected ≡ 1 - p.ns
      now m same =
          let (j, at, lt) = endpoint_find_lt w.llc.endpoints 0 ind.endpoint i found in
          let next : (endpoint_at m.llc i).nr_expected ≡ 1 - expected =
            ap (λ es. (get_or es i zero_endpoint).nr_expected) same
            ∙ ap (λ s. s.nr_expected)
                (get_or-set_self w.llc.endpoints i (advanced_endpoint (endpoint_at w.llc i))
                  zero_endpoint (omega arith)) in
          omega arith

      stale : (m : LlcWorld) → m.llc.endpoints ≡ flipped → p.ns ≢ (endpoint_at m.llc i).nr_expected
      stale m same e = omega (arith, now m same)

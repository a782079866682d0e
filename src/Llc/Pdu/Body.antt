-- ===== src/Llc/Pdu/Body.antt =====
-- The body of a message of sw/llc/llc_pdu.c: `put_body` writes its bits, `get_body` reads them back
-- with the rest of the last byte cleared.
use tetra_bs.Prelude.{
  ℕ, zero, suc, ◌+◌, ◌-◌, ◌*◌, ◌/◌, ◌%◌, ◌^◌, ◌≤◌, ◌<◌, ◌≡◌, ap, Bool-cases, inl, inr, ltb, List,
  [], ◌∷◌, ◌++◌, drop, length, if◌then◌else◌, arith,
}
use native.Mathlib.Nat.{mod-lt, mod-eq_of_lt, one-le-pow}
use tetra_bs.Core.BitBuffer.{BitBuffer}
use tetra_bs.Core.BitBuffer.Spec.{IsBytes}
use tetra_bs.Core.BitBuffer.Codec.{Field, width}
use tetra_bs.Core.BitBuffer.Codec.Fields.{
  Fields, Reads, get_then, Reads-cong, return-Reads, Reads-map,
}
use tetra_bs.Core.BitBuffer.Codec.Runs.{Emits, put_then, put_alone, return-Emits}
use tetra_bs.Llc.Pdu.{put_body, get_bytes, get_body}

-- Whole bytes, then the highest bits of the next one.
unfoldable pub body_fields : List ℕ → ℕ → List Field
body_fields (b ∷ bs) n =
    let rest = body_fields bs (n - 8) in
    if ltb n 8 then (if ltb 0 n then (n, b / 2 ^ (8 - n) % 2 ^ n) ∷ [] else []) else (8, b) ∷ rest
body_fields [] n = []

-- The bytes of the first `n` bits; the bits behind them in their last byte are zero.
unfoldable pub cleared : List ℕ → ℕ → List ℕ
cleared (b ∷ bs) n =
    let rest = cleared bs (n - 8) in
    if ltb n 8 then (if ltb 0 n then b / 2 ^ (8 - n) * 2 ^ (8 - n) ∷ [] else []) else b ∷ rest
cleared [] n = []

pub put_body-Emits : (bs : List ℕ) (n : ℕ) → Emits (put_body bs n) (body_fields bs n)
unfolding put_body body_fields
put_body-Emits [] n = return-Emits
put_body-Emits (b ∷ bs) n = elim (Bool-cases (ltb n 8)) [
  | inr more ↦ rw more (put_then b 8 (put_body-Emits bs (n - 8)))
  | inl last ↦ elim (Bool-cases (ltb 0 n)) [
    | inl some ↦ rw (last, some) (put_alone n (b / 2 ^ (8 - n) % 2 ^ n))
    | inr none ↦ rw (last, none) return-Emits
  ]
]

pub body_fields-Fields : (bs : List ℕ) (n : ℕ) → IsBytes bs → Fields (body_fields bs n)
unfolding body_fields
body_fields-Fields [] n h = tt
body_fields-Fields (b ∷ bs) n h = elim (Bool-cases (ltb n 8)) [
  | inr more ↦ rw more ((omega arith, omega arith, h.0), body_fields-Fields bs (n - 8) h.1)
  | inl last ↦ elim (Bool-cases (ltb 0 n)) [
    | inl some ↦
        rw (last, some)
          (
            (ground arith, ground arith, mod-lt (b / 2 ^ (8 - n)) (one-le-pow n 2 (omega arith))),
            tt,
          )
    | inr none ↦ rw (last, none) tt
  ]
]

pub width-body_fields : (bs : List ℕ) (n : ℕ) → n ≤ length bs * 8 → width (body_fields bs n) ≡ n
unfolding body_fields
width-body_fields [] n h = omega arith
width-body_fields (b ∷ bs) n h = elim (Bool-cases (ltb n 8)) [
  | inr more ↦ rw more (ground (arith, width-body_fields bs (n - 8)))
  | inl last ↦ elim (Bool-cases (ltb 0 n)) [
    | inl some ↦ rw (last, some) (omega arith)
    | inr none ↦ rw (last, none) (ground arith)
  ]
]

-- The last byte as it is read
last_byte :
    (n b : ℕ)
    → 1 ≤ n
    → n < 8
    → b < 256
    → b / 2 ^ (8 - n) % 2 ^ n % 2 ^ n * 2 ^ (8 - n) % 256 ≡ b / 2 ^ (8 - n) * 2 ^ (8 - n)
last_byte zero b lo hi h = absurd (omega arith)
last_byte (suc zero) b lo hi h = omega arith
last_byte (suc (suc zero)) b lo hi h = omega arith
last_byte (suc (suc (suc zero))) b lo hi h = omega arith
last_byte (suc (suc (suc (suc zero)))) b lo hi h = omega arith
last_byte (suc (suc (suc (suc (suc zero))))) b lo hi h = omega arith
last_byte (suc (suc (suc (suc (suc (suc zero)))))) b lo hi h = omega arith
last_byte (suc (suc (suc (suc (suc (suc (suc zero))))))) b lo hi h = omega arith
last_byte (suc (suc (suc (suc (suc (suc (suc (suc n)))))))) b lo hi h = absurd (omega arith)

pub get_bytes-Reads :
    (bs : List ℕ) (n k : ℕ) (bb : BitBuffer)
    → IsBytes bs
    → n ≤ length bs * 8
    → Reads (get_bytes ((n + 7) / 8) n) bb (body_fields bs n) k (cleared bs n)
unfolding get_bytes body_fields cleared
get_bytes-Reads [] n k bb h room =
    let rounds : (n + 7) / 8 ≡ 0 = omega arith in rw rounds return-Reads
get_bytes-Reads (b ∷ bs) n k bb h room = elim (Bool-cases (ltb n 8)) [
  | inr more ↦
      let rounds : (n + 7) / 8 ≡ suc ((n - 8 + 7) / 8) = ground arith in
      rw (rounds, more)
        (Reads-cong (ap (λ x. x ∷ cleared bs (n - 8)) (mod-eq_of_lt h.0)) (
          get_then _
            (Reads-map (λ bs'. b % 256 ∷ bs') (get_bytes-Reads bs (n - 8) k _ h.1 (omega arith)))))
  | inl last ↦ elim (Bool-cases (ltb 0 n)) [
    | inl some ↦
        let rounds : (n + 7) / 8 ≡ suc 0 = ground arith in
        rw (rounds, last, some)
          (Reads-cong (ap (λ x. x ∷ []) (last_byte n b (ground arith) (ground arith) h.0))
            (get_then _ return-Reads))
    | inr none ↦ let rounds : (n + 7) / 8 ≡ 0 = ground arith in rw (rounds, last, none) return-Reads
  ]
]

-- Reading a body back: behind the bytes that hold its bits the array is as it was.
pub get_body-Reads :
    (old bs : List ℕ) (n k : ℕ) (bb : BitBuffer)
    → IsBytes bs
    → n ≤ length bs * 8
    → Reads (get_body old n) bb (body_fields bs n) k (cleared bs n ++ drop ((n + 7) / 8) old)
unfolding get_body
get_body-Reads old bs n k bb h room =
    Reads-map (λ bytes. bytes ++ drop ((n + 7) / 8) old) (get_bytes-Reads bs n k bb h room)

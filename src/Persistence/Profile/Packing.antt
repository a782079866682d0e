-- ===== src/Persistence/Profile/Packing.antt =====
-- `profile_pack` and `profile_unpack` are inverse to one another.
use tetra_bs.Prelude.{
  ℕ, ◌+◌, ◌*◌, ◌/◌, ◌%◌, ◌^◌, ◌<◌, ◌≡◌, refl, ◌∙◌, ap, bit_and, bit_or, Bool, true, false, not,
  ◌==◌, arith,
}
use tetra_bs.Bits.{bit_or-shl, bit_and-mask}
use tetra_bs.Persistence.Profile.{Profile, bit, profile_pack, profile_unpack}

-- `v |= y` where `v` has no bit below `j` and `y` no other.
or_sum : (j x v y : ℕ) → v ≡ x * 2 ^ j → y < 2 ^ j → bit_or v y ≡ v + y
or_sum j x v y e h = rw e (bit_or-shl j x y h)

-- The fields side by side.
pub fields_sum : ℕ → ℕ → ℕ → ℕ → ℕ → ℕ → ℕ → ℕ → ℕ → ℕ → ℕ
fields_sum a b c d e f g h i j =
    a * 2 ^ 24
    + b * 2 ^ 16
    + c * 2 ^ 12
    + d * 2 ^ 9
    + e * 2 ^ 7
    + f * 2 ^ 4
    + g * 8
    + h * 4
    + i * 2
    + j

or_fields :
    (a b c d e f g h i j : ℕ)
    → a < 256
    → b < 256
    → c < 16
    → d < 8
    → e < 4
    → f < 8
    → g < 2
    → h < 2
    → i < 2
    → j < 2
    → bit_or
        (bit_or
          (bit_or
            (bit_or
              (bit_or
                (bit_or
                  (bit_or
                    (bit_or (bit_or (bit_or 0 (a * 2 ^ 24)) (b * 2 ^ 16)) (c * 2 ^ 12))
                    (d * 2 ^ 9))
                  (e * 2 ^ 7))
                (f * 2 ^ 4))
              (g * 2 ^ 3))
            (h * 2 ^ 2))
          (i * 2 ^ 1))
        j
      ≡ fields_sum a b c d e f g h i j
unfolding fields_sum
or_fields a b c d e f g h i j ha hb hc hd he hf hg hh hi hj =
    let s1 = or_sum 32 0 0 (a * 2 ^ 24) refl (omega arith) in
    let s2 = or_sum 24 a (0 + a * 2 ^ 24) (b * 2 ^ 16) (omega arith) (omega arith) in
    let s3 =
      or_sum 16 (a * 256 + b) (0 + a * 2 ^ 24 + b * 2 ^ 16) (c * 2 ^ 12) (omega arith)
        (omega arith) in
    let v3 : ℕ = 0 + a * 2 ^ 24 + b * 2 ^ 16 + c * 2 ^ 12 in
    let s4 = or_sum 12 (a * 4096 + b * 16 + c) v3 (d * 2 ^ 9) (omega arith) (omega arith) in
    let s5 =
      or_sum 9 (a * 32768 + b * 128 + c * 8 + d) (v3 + d * 2 ^ 9) (e * 2 ^ 7) (omega arith)
        (omega arith) in
    let s6 =
      or_sum 7 (a * 131072 + b * 512 + c * 32 + d * 4 + e) (v3 + d * 2 ^ 9 + e * 2 ^ 7) (f * 2 ^ 4)
        (omega arith) (omega arith) in
    let v6 : ℕ = v3 + d * 2 ^ 9 + e * 2 ^ 7 + f * 2 ^ 4 in
    let x6 : ℕ = a * 1048576 + b * 4096 + c * 256 + d * 32 + e * 8 + f in
    let s7 = or_sum 4 x6 v6 (g * 2 ^ 3) (omega arith) (omega arith) in
    let s8 = or_sum 3 (x6 * 2 + g) (v6 + g * 2 ^ 3) (h * 2 ^ 2) (omega arith) (omega arith) in
    let s9 =
      or_sum 2 (x6 * 4 + g * 2 + h) (v6 + g * 2 ^ 3 + h * 2 ^ 2) (i * 2 ^ 1) (omega arith)
        (omega arith) in
    let s10 =
      or_sum 1 (x6 * 8 + g * 4 + h * 2 + i) (v6 + g * 2 ^ 3 + h * 2 ^ 2 + i * 2 ^ 1) j (omega arith)
        (omega arith) in
    rw (s1, s2, s3, s4, s5, s6, s7, s8, s9, s10) (omega arith)

bit-lt : (b : Bool) → bit b < 2
bit-lt true = omega arith
bit-lt false = omega arith

-- The packed word of any profile: each field by its mask.
pub profile_pack-sum :
    (p : Profile)
    → profile_pack p
      ≡ fields_sum
          (p.max_call_duration % 256)
          (p.hangtime % 256)
          (p.priority % 16)
          (p.gila_class % 8)
          (p.gila_lifetime % 4)
          (p.reserved3 % 8)
          (bit p.permit_voice)
          (bit p.permit_data)
          (bit p.permit_reg)
          (bit p.valid)
unfolding profile_pack
profile_pack-sum p =
    rw
      (
        bit_and-mask 8 p.max_call_duration,
        bit_and-mask 8 p.hangtime,
        bit_and-mask 4 p.priority,
        bit_and-mask 3 p.gila_class,
        bit_and-mask 2 p.gila_lifetime,
        bit_and-mask 3 p.reserved3,
      )
      (or_fields _ _ _ _ _ _ _ _ _ _ (omega arith) (omega arith) (omega arith) (omega arith)
        (omega arith) (omega arith) (bit-lt p.permit_voice) (bit-lt p.permit_data)
        (bit-lt p.permit_reg) (bit-lt p.valid))

-- The widths that db.h gives the fields.
pub record IsProfile (p : Profile) : Type 0 where
  pub max_call_duration : p.max_call_duration < 256
  pub hangtime : p.hangtime < 256
  pub priority : p.priority < 16
  pub gila_class : p.gila_class < 8
  pub gila_lifetime : p.gila_lifetime < 4
  pub reserved3 : p.reserved3 < 8

pub profile_pack-lt : (p : Profile) → IsProfile p → profile_pack p < 2 ^ 32
unfolding fields_sum
profile_pack-lt p v = omega (
  arith,
  profile_pack-sum p,
  bit-lt p.permit_voice,
  bit-lt p.permit_data,
  bit-lt p.permit_reg,
  bit-lt p.valid,
)

bit-flag : (b : Bool) → not (bit b == 0) ≡ b
bit-flag true = refl
bit-flag false = refl

-- The word of the fields, taken apart.
unpack_fields :
    (a b c d e f : ℕ) (g h i j : Bool)
    → a < 256
    → b < 256
    → c < 16
    → d < 8
    → e < 4
    → f < 8
    → profile_unpack (fields_sum a b c d e f (bit g) (bit h) (bit i) (bit j)) ≡ record {
      max_call_duration = a;
      hangtime = b;
      priority = c;
      gila_class = d;
      gila_lifetime = e;
      reserved3 = f;
      permit_voice = g;
      permit_data = h;
      permit_reg = i;
      valid = j;
    }
unfolding profile_unpack fields_sum
unpack_fields a b c d e f g h i j ha hb hc hd he hf =
    let s : ℕ = fields_sum a b c d e f (bit g) (bit h) (bit i) (bit j) in
    let lg = bit-lt g in
    let lh = bit-lt h in
    let li = bit-lt i in
    let lj = bit-lt j in
    let ea : bit_and (s / 2 ^ 24) 0xff ≡ a =
      bit_and-mask 8 (s / 2 ^ 24) ∙ omega (arith, lg, lh, li, lj) in
    let eb : bit_and (s / 2 ^ 16) 0xff ≡ b =
      bit_and-mask 8 (s / 2 ^ 16) ∙ omega (arith, lg, lh, li, lj) in
    let ec : bit_and (s / 2 ^ 12) 0x0f ≡ c =
      bit_and-mask 4 (s / 2 ^ 12) ∙ omega (arith, lg, lh, li, lj) in
    let ed : bit_and (s / 2 ^ 9) 0x07 ≡ d =
      bit_and-mask 3 (s / 2 ^ 9) ∙ omega (arith, lg, lh, li, lj) in
    let ee : bit_and (s / 2 ^ 7) 0x03 ≡ e =
      bit_and-mask 2 (s / 2 ^ 7) ∙ omega (arith, lg, lh, li, lj) in
    let ef : bit_and (s / 2 ^ 4) 0x07 ≡ f =
      bit_and-mask 3 (s / 2 ^ 4) ∙ omega (arith, lg, lh, li, lj) in
    let eg : bit_and (s / 2 ^ 3) 1 ≡ bit g =
      bit_and-mask 1 (s / 2 ^ 3) ∙ omega (arith, lg, lh, li, lj) in
    let eh : bit_and (s / 2 ^ 2) 1 ≡ bit h =
      bit_and-mask 1 (s / 2 ^ 2) ∙ omega (arith, lg, lh, li, lj) in
    let ei : bit_and (s / 2 ^ 1) 1 ≡ bit i =
      bit_and-mask 1 (s / 2 ^ 1) ∙ omega (arith, lg, lh, li, lj) in
    let ej : bit_and s 1 ≡ bit j = bit_and-mask 1 s ∙ omega (arith, lg, lh, li, lj) in
    let flag : (n : ℕ) (b : Bool) → n ≡ bit b → not (n == 0) ≡ b =
      λ n b q. ap (λ t. not (t == 0)) q ∙ bit-flag b in
    λ t. record {
      max_call_duration = ea t;
      hangtime = eb t;
      priority = ec t;
      gila_class = ed t;
      gila_lifetime = ee t;
      reserved3 = ef t;
      permit_voice = flag _ g eg t;
      permit_data = flag _ h eh t;
      permit_reg = flag _ i ei t;
      valid = flag _ j ej t;
    }

-- A profile whose fields have their widths survives packing.
pub unpack-pack : (p : Profile) → IsProfile p → profile_unpack (profile_pack p) ≡ p
unpack-pack p v =
    let m1 : p.max_call_duration % 256 ≡ p.max_call_duration = omega arith in
    let m2 : p.hangtime % 256 ≡ p.hangtime = omega arith in
    let m3 : p.priority % 16 ≡ p.priority = omega arith in
    let m4 : p.gila_class % 8 ≡ p.gila_class = omega arith in
    let m5 : p.gila_lifetime % 4 ≡ p.gila_lifetime = omega arith in
    let m6 : p.reserved3 % 8 ≡ p.reserved3 = omega arith in
    ap profile_unpack (
      profile_pack-sum p ∙ (λ i.
        fields_sum (m1 i) (m2 i) (m3 i) (m4 i) (m5 i) (m6 i) (bit p.permit_voice)
          (bit p.permit_data) (bit p.permit_reg) (bit p.valid)))
    ∙ unpack_fields p.max_call_duration p.hangtime p.priority p.gila_class p.gila_lifetime
        p.reserved3 p.permit_voice p.permit_data p.permit_reg p.valid v.max_call_duration v.hangtime
        v.priority v.gila_class v.gila_lifetime v.reserved3

flag-bit : (n : ℕ) → n < 2 → bit (not (n == 0)) ≡ n
flag-bit n h = ground arith

-- Every 32-bit word is the packing of what it unpacks to, and that has the widths of db.h.
pub pack-unpack :
    (w : ℕ) → w < 2 ^ 32 → (profile_pack (profile_unpack w) ≡ w) × IsProfile (profile_unpack w)
unfolding profile_unpack fields_sum
pack-unpack w h =
    let e3 = bit_and-mask 1 (w / 2 ^ 3) in
    let e2 = bit_and-mask 1 (w / 2 ^ 2) in
    let e1 = bit_and-mask 1 (w / 2 ^ 1) in
    let e0 = bit_and-mask 1 w in
    (
      profile_pack-sum (profile_unpack w)
          ∙ omega (
            arith,
            bit_and-mask 8 (w / 2 ^ 24),
            bit_and-mask 8 (w / 2 ^ 16),
            bit_and-mask 4 (w / 2 ^ 12),
            bit_and-mask 3 (w / 2 ^ 9),
            bit_and-mask 2 (w / 2 ^ 7),
            bit_and-mask 3 (w / 2 ^ 4),
            e3,
            e2,
            e1,
            e0,
            flag-bit (bit_and (w / 2 ^ 3) 1) (omega (arith, e3)),
            flag-bit (bit_and (w / 2 ^ 2) 1) (omega (arith, e2)),
            flag-bit (bit_and (w / 2 ^ 1) 1) (omega (arith, e1)),
            flag-bit (bit_and w 1) (omega (arith, e0)),
          ),
      record {
        max_call_duration = omega (arith, bit_and-mask 8 (w / 2 ^ 24));
        hangtime = omega (arith, bit_and-mask 8 (w / 2 ^ 16));
        priority = omega (arith, bit_and-mask 4 (w / 2 ^ 12));
        gila_class = omega (arith, bit_and-mask 3 (w / 2 ^ 9));
        gila_lifetime = omega (arith, bit_and-mask 2 (w / 2 ^ 7));
        reserved3 = omega (arith, bit_and-mask 3 (w / 2 ^ 4));
      },
    )

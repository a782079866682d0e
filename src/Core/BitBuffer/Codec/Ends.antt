-- ===== src/Core/BitBuffer/Codec/Ends.antt =====
-- What a reader does on any valid buffer, whatever it holds: it returns or refuses, and never fails
-- an assertion.
use tetra_bs.Prelude.{
  ℕ, ◌+◌, ◌≡◌, ◌^◌, ◌≤◌, ◌<◌, refl, sym, subst, inl, inr, Bool, true, false, Errno, if◌then◌else◌,
  Bool-cases, leb, arith,
}
use native.Mathlib.Nat.{one-le-pow}
use tetra_bs.Core.BitBuffer.{BitBuffer, bb_seek_bits}
use tetra_bs.Core.BitBuffer.Spec.{field-lt}
use tetra_bs.Core.BitBuffer.Cursor.{IsValid, bb_get_bits_lem}
use tetra_bs.Core.BitBuffer.Codec.{
  Step, done, fails, aborts, BitIo, return, after, ◌>>=◌, refuse_if, get_bits, seek_bits, look,
}
use tetra_bs.Core.BitBuffer.Codec.Fields.{advanced}

abbrev pub Outcome : {A : Type 0} → (A → Type 0) → Step A → Type 0
Outcome P (done a bb) = P a × IsValid bb
Outcome P (fails e bb) = Unit
Outcome P aborts = ⊥

pub record Ends {A : Type 0} (m : BitIo A) (P : A → Type 0) : Type 0 where
  pub run : (bb : BitBuffer) → IsValid bb → Outcome P (m bb)

after-Outcome :
    {A B : Type 0} (Q : A → Type 0) (P : B → Type 0) (r : Step A) (next : A → BitIo B)
    → Outcome Q r
    → ((a : A) → Q a → Ends (next a) P)
    → Outcome P (after r next)
after-Outcome Q P (done a bb) next h k = (k a h.0).run bb h.1
after-Outcome Q P (fails e bb) next h k = tt
after-Outcome Q P aborts next h k = h

get_bits-Outcome :
    (bb : BitBuffer) (n : ℕ)
    → IsValid bb
    → 1 ≤ n
    → n ≤ 32
    → Outcome (λ v. v < 2 ^ n) (get_bits n bb)
unfolding get_bits
get_bits-Outcome bb n v lo hi = elim (bb_get_bits_lem bb n v lo hi) [
  | inl (fits, e) ↦ rw (e, get_bits) (field-lt bb.buffer bb.pos n, advanced bb n v fits)
  | inr (over, e) ↦ rw (e, get_bits) (one-le-pow n 2 (omega arith), v)
]

pub bits-Ends : (n : ℕ) → 1 ≤ n → n ≤ 32 → Ends (get_bits n) (λ v. v < 2 ^ n)
bits-Ends n lo hi = record { run = λ bb v. get_bits-Outcome bb n v lo hi }

Outcome_weaken :
    {A : Type 0} (P Q : A → Type 0) (r : Step A) → ((a : A) → P a → Q a) → Outcome P r → Outcome Q r
Outcome_weaken P Q (done a bb) k h = (k a h.0, h.1)
Outcome_weaken P Q (fails e bb) k h = tt
Outcome_weaken P Q aborts k h = h

pub weaken-Ends :
    {A : Type 0} (P Q : A → Type 0) (m : BitIo A) → Ends m P → ((a : A) → P a → Q a) → Ends m Q
weaken-Ends P Q m h k = record { run = λ bb v. Outcome_weaken P Q (m bb) k (h.run bb v) }

rewind_done :
    (bb : BitBuffer) → IsValid bb → seek_bits 0 bb ≡ done tt (record bb { pos = bb.start + 0 })
unfolding seek_bits bb_seek_bits
rewind_done bb v =
    let inside : leb (bb.start + 0) bb.end ≡ true = ground (arith, v.start_le, v.pos_le) in
    rw (inside, seek_bits, bb_seek_bits) refl

-- Setting the cursor to the start of the window is always possible.
pub rewind-Ends : Ends (seek_bits 0) (λ u. Unit)
rewind-Ends = record {
  run = λ bb v. subst (Outcome (λ u. Unit)) (sym (rewind_done bb v)) (
    tt,
    record {
      bytes = v.bytes;
      start_le = omega arith;
      pos_le = omega (arith, v.start_le, v.pos_le);
      end_le = v.end_le;
      memory = v.memory;
      addressable = v.addressable;
    },
  );
}

module _ {B : Type 0} (P : B → Type 0) where
  pub bind-Ends :
      {A : Type 0} (Q : A → Type 0) (m : BitIo A) (next : A → BitIo B)
      → Ends m Q
      → ((a : A) → Q a → Ends (next a) P)
      → Ends (m >>= next) P
  unfolding ◌>>=◌
  bind-Ends Q m next h k = record { run = λ bb v. after-Outcome Q P (m bb) next (h.run bb v) k }

  pub return-Ends : (b : B) → P b → Ends (return b) P
  unfolding return
  return-Ends b p = record { run = λ bb v. (p, v) }

  pub refuse-Ends :
      (bad : Bool) (e : Errno) (next : Unit {0} → BitIo B)
      → Ends (next tt) P
      → Ends (refuse_if bad e >>= next) P
  unfolding refuse_if ◌>>=◌
  refuse-Ends bad e next h = record {
    run = λ bb v. elim (Bool-cases bad) [
      | inl is_bad ↦ rw is_bad tt
      | inr good ↦ rw good (h.run bb v)
    ];
  }

  pub get-Ends :
      (n : ℕ) (next : ℕ → BitIo B)
      → 1 ≤ n
      → n ≤ 32
      → ((v : ℕ) → v < 2 ^ n → Ends (next v) P)
      → Ends (get_bits n >>= next) P
  get-Ends n next lo hi k =
      bind-Ends (λ v. v < 2 ^ n) (get_bits n) next
        (record { run = λ bb v. get_bits-Outcome bb n v lo hi }) k

  pub look-Ends :
      {A : Type 0} (f : BitBuffer → A) (next : A → BitIo B)
      → ((a : A) → Ends (next a) P)
      → Ends (look f >>= next) P
  unfolding look ◌>>=◌
  look-Ends f next k = record { run = λ bb v. (k (f bb)).run bb v }

  pub if-Ends : (b : Bool) (m n : BitIo B) → Ends m P → Ends n P → Ends (if b then m else n) P
  if-Ends true m n h k = h
  if-Ends false m n h k = k

  pub fails-Ends : (e : Errno) → Ends (λ bb. fails e bb) P
  fails-Ends e = record { run = λ bb v. tt }

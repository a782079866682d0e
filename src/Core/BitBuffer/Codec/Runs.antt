-- ===== src/Core/BitBuffer/Codec/Runs.antt =====
-- Encoders as runs of puts: what one writes, how much, and that it can be read back.
use tetra_bs.Prelude.{
  ℕ, ◌≤◌, ◌≡◌, refl, sym, ap, ◌∙◌, Bool, true, false, List, [], ◌∷◌, ◌++◌, Errno, ltb, arith,
}
use tetra_bs.Core.BitBuffer.{BitBuffer, sub_size, bb_pos_bits}
use tetra_bs.Core.BitBuffer.Cursor.{IsValid, HasRoom}
use tetra_bs.Core.BitBuffer.Codec.{
  Step, done, fails, aborts, BitIo, return, after, ◌>>=◌, ◌>>◌, refuse_if, put_bits, look, Field,
  emit, width,
}
use tetra_bs.Core.BitBuffer.Codec.Fields.{Fields, Emitted, emit-Emitted, >>=-done, Reads}

-- `m` does on every buffer what the puts of the fields do.
pub record Emits (m : BitIo (Unit {0})) (fs : List Field) : Type 0 where
  pub same : (bb : BitBuffer) → m bb ≡ emit fs bb

pub >>=_cong :
    {A B : Type 0} (m n : BitIo A) (next : A → BitIo B) (bb : BitBuffer)
    → m bb ≡ n bb
    → (m >>= next) bb ≡ (n >>= next) bb
unfolding ◌>>=◌
>>=_cong m n next bb e = rw (e, ◌>>=◌) refl

after_assoc :
    {A B C : Type 0} (r : Step A) (k : A → BitIo B) (l : B → BitIo C)
    → after (after r k) l ≡ after r (λ a. k a >>= l)
unfolding ◌>>=◌
after_assoc (done a bb) k l = refl
after_assoc (fails e bb) k l = refl
after_assoc aborts k l = refl

>>=_assoc :
    {A B C : Type 0} (m : BitIo A) (k : A → BitIo B) (l : B → BitIo C) (bb : BitBuffer)
    → ((m >>= k) >>= l) bb ≡ (m >>= λ a. k a >>= l) bb
unfolding ◌>>=◌
>>=_assoc m k l bb = after_assoc (m bb) k l

pub refuse_passed :
    {A : Type 0} {bad : Bool} (e : Errno) (next : Unit {0} → BitIo A) (bb : BitBuffer)
    → bad ≡ false
    → (refuse_if bad e >>= next) bb ≡ next tt bb
unfolding refuse_if
refuse_passed {bad} e next bb good = >>=-done (refuse_if bad e) next bb (rw good refl)

pub refuse_failed :
    {A : Type 0} {bad : Bool} (e : Errno) (next : Unit {0} → BitIo A) (bb : BitBuffer)
    → bad ≡ true
    → (refuse_if bad e >>= next) bb ≡ fails e bb
unfolding refuse_if ◌>>=◌
refuse_failed {bad} e next bb is_bad = rw is_bad refl

after_next :
    {A B : Type 0} (r : Step A) (k l : A → BitIo B)
    → ((a : A) (bb : BitBuffer) → k a bb ≡ l a bb)
    → after r k ≡ after r l
after_next (done a bb) k l e = e a bb
after_next (fails x bb) k l e = refl
after_next aborts k l e = refl

emit-append : (fs gs : List Field) (bb : BitBuffer) → (emit fs >> emit gs) bb ≡ emit (fs ++ gs) bb
unfolding return ◌>>=◌
emit-append [] gs bb = refl
emit-append ((n, v) ∷ fs) gs bb =
    >>=_assoc (put_bits v n) (λ _. emit fs) (λ _. emit gs) bb
    ∙ after_next (put_bits v n bb) (λ _. emit fs >> emit gs) (λ _. emit (fs ++ gs))
        (λ _ b. emit-append fs gs b)

-- One run of puts after another.
pub Emits-append :
    {m k : BitIo (Unit {0})} {fs gs : List Field}
    → Emits m fs
    → Emits k gs
    → Emits (m >> k) (fs ++ gs)
unfolding ◌>>=◌
Emits-append {m} {k} {fs} {gs} p q = record {
  same = λ bb.
      >>=_cong m (emit fs) (λ _. k) bb (p.same bb)
      ∙ after_next (emit fs bb) (λ _. k) (λ _. emit gs) (λ _ b. q.same b)
      ∙ emit-append fs gs bb;
}

-- A run from a valid buffer with room.
pub run-Emitted :
    (m : BitIo (Unit {0})) (bb : BitBuffer) (fs : List Field)
    → m bb ≡ emit fs bb
    → IsValid bb
    → Fields fs
    → HasRoom bb (width fs)
    → (bb' : BitBuffer) × (m bb ≡ done tt bb') × Emitted bb fs bb'
run-Emitted m bb fs same valid ok room =
    let (bb', e, h) = emit-Emitted bb fs valid ok room in (bb', same ∙ e, h)

moved_by :
    (bb bb' : BitBuffer) (fs : List Field)
    → IsValid bb
    → Emitted bb fs bb'
    → sub_size (bb_pos_bits bb') (bb_pos_bits bb) ≡ width fs
unfolding bb_pos_bits
moved_by bb bb' fs v h = omega (
  arith, v.start_le, v.pos_le, v.end_le, v.addressable, h.moved, h.start, h.valid.pos_le,
  h.valid.end_le, h.valid.addressable,
)

-- The cursor set back to where the fields begin.
abbrev pub rewound : BitBuffer → ℕ → BitBuffer
rewound bb pos = record bb { pos = pos }

pub rewound-IsValid :
    (bb bb' : BitBuffer) (fs : List Field)
    → IsValid bb
    → Emitted bb fs bb'
    → IsValid (rewound bb' bb.pos)
rewound-IsValid bb bb' fs v h = record {
  bytes = h.valid.bytes;
  start_le = omega (arith, v.start_le, h.start);
  pos_le = omega (arith, h.moved, h.valid.pos_le);
  end_le = h.valid.end_le;
  memory = h.valid.memory;
  addressable = h.valid.addressable;
}

-- What was written, read from where it begins.
pub read_back :
    {A : Type 0} {m : BitIo A} {a : A} (bb bb' : BitBuffer) (fs : List Field)
    → IsValid bb
    → Emitted bb fs bb'
    → Reads m (rewound bb' bb.pos) fs 0 a
    → m (rewound bb' bb.pos) ≡ done a bb'
read_back {a} bb bb' fs v h r =
    r.run (rewound-IsValid bb bb' fs v h) h.carries (omega (arith, h.moved, h.valid.pos_le))
    ∙ ap (λ p. done a (record bb' { pos = p })) (sym h.moved)

-- `if (v > k) return -e;` where `v` is within its bound
pub refuse_within :
    {A : Type 0} {k v : ℕ} (e : Errno) (next : Unit {0} → BitIo A) (bb : BitBuffer)
    → v ≤ k
    → (refuse_if (ltb k v) e >>= next) bb ≡ next tt bb
refuse_within {k} {v} e next bb h = refuse_passed e next bb (ground arith)

pub put_then :
    (v n : ℕ) {m : BitIo (Unit {0})} {fs : List Field}
    → Emits m fs
    → Emits (put_bits v n >> m) ((n, v) ∷ fs)
unfolding ◌>>=◌
put_then v n {m} {fs} rest = record {
  same = λ bb. after_next (put_bits v n bb) (λ _. m) (λ _. emit fs) (λ _ b. rest.same b);
}

pub return-Emits : Emits (return tt) []
return-Emits = record { same = λ bb. refl }

after-return : (r : Step (Unit {0})) → after r (λ _. return tt) ≡ r
unfolding return
after-return (done a bb) = refl
after-return (fails e bb) = refl
after-return aborts = refl

pub put_alone : (n v : ℕ) → Emits (put_bits v n) ((n, v) ∷ [])
unfolding ◌>>=◌ return
put_alone n v = record { same = λ bb. sym (after-return (put_bits v n bb)) }

-- An encoder that returns the number of bits it wrote.
pub measured-Emitted :
    (m : BitIo (Unit {0})) (bb : BitBuffer) {fs : List Field}
    → Emits m fs
    → IsValid bb
    → Fields fs
    → HasRoom bb (width fs)
    → (bb' : BitBuffer) × ((do
      start ← look bb_pos_bits
      m
      end ← look bb_pos_bits
      return (sub_size end start))
          bb
        ≡ done (width fs) bb')
      × Emitted bb fs bb'
unfolding look return
measured-Emitted m bb {fs} emits valid ok room =
    let (bb', e, h) = run-Emitted m bb fs (emits.same bb) valid ok room in
    (
      bb',
      >>=-done (look bb_pos_bits) _ bb refl
          ∙ >>=-done m _ bb e
          ∙ >>=-done (look bb_pos_bits) _ bb' refl
          ∙ ap (λ n. done n bb') (moved_by bb bb' fs valid h),
      h,
    )

-- A refusal behind a put that does not come.
pub refuse-Emits : {k v : ℕ} (e : Errno) → v ≤ k → Emits (refuse_if (ltb k v) e) []
unfolding refuse_if return
refuse-Emits {k} {v} e h = record {
  same = λ bb. let within : ltb k v ≡ false = ground arith in rw within refl;
}

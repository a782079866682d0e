-- ===== src/Core/BitBuffer/Codec/Fields.antt =====
-- What a run of puts leaves in a valid buffer, and what a run of gets reads there.
use native.Mathlib.Nat.{add_assoc, add-zero}
use tetra_bs.Prelude.{
  ℕ, ◌+◌, ◌-◌, ◌^◌, ◌≤◌, ◌<◌, max, ltb, ◌≡◌, inl, inr, refl, sym, ap, ◌∙◌, subst, Bool, false, some,
  List, [], ◌∷◌, ◌++◌, append-nil, length, Errno, arith,
}
use tetra_bs.Core.BitBuffer.{BitBuffer, bb_put_bits, bb_remaining}
use tetra_bs.Core.BitBuffer.Spec.{field}
use tetra_bs.Core.BitBuffer.Cursor.{IsValid, HasRoom, Put, bb_put_bits-Put, bb_get_bits_lem}
use tetra_bs.Core.BitBuffer.Codec.{
  done, BitIo, return, ◌>>=◌, refuse_if, put_bits, get_bits, look, Field, emit, width,
}

-- A field that `bb_put_bits` takes.
abbrev pub IsField : Field → Type 0
IsField (n, v) = (1 ≤ n) × (n ≤ 32) × (v < 2 ^ n)

abbrev pub Fields : List Field → Type 0
Fields [] = Unit
Fields (f ∷ fs) = IsField f × Fields fs

-- The fields stand in a buffer from a position on.
abbrev pub Carries : List ℕ → ℕ → List Field → Type 0
Carries buf p [] = Unit
Carries buf p ((n, v) ∷ fs) = ((1 ≤ n) × (n ≤ 32) × (field buf p n ≡ v)) × Carries buf (p + n) fs

pub width-append : (fs gs : List Field) → width (fs ++ gs) ≡ width fs + width gs
width-append [] gs = omega arith
width-append ((n, v) ∷ fs) gs = omega (arith, width-append fs gs)

pub Fields-append : (fs gs : List Field) → Fields fs → Fields gs → Fields (fs ++ gs)
Fields-append [] gs h k = k
Fields-append (f ∷ fs) gs h k = (h.0, Fields-append fs gs h.1 k)

-- What writing fields makes of a buffer.
pub record Emitted (bb : BitBuffer) (fs : List Field) (bb' : BitBuffer) : Type 0 where
  pub valid : IsValid bb'
  pub carries : Carries bb'.buffer bb.pos fs
  pub before : (p k : ℕ) → p + k ≤ bb.pos → field bb'.buffer p k ≡ field bb.buffer p k
  pub moved : bb'.pos ≡ bb.pos + width fs
  pub start : bb'.start ≡ bb.start
  pub end : bb'.end ≡ max bb.end (bb.pos + width fs)
  pub cap : bb'.cap_bits ≡ bb.cap_bits
  pub size : length bb'.buffer ≡ length bb.buffer
  pub flag : bb'.autoexpand ≡ bb.autoexpand

put_bits-done :
    (bb : BitBuffer) (v n : ℕ) {bb' : BitBuffer}
    → bb_put_bits bb v n ≡ some bb'
    → put_bits v n bb ≡ done tt bb'
unfolding put_bits
put_bits-done bb v n e = rw (e, put_bits) refl

pub >>=-done :
    {A B : Type 0} (m : BitIo A) (next : A → BitIo B) (bb : BitBuffer) {a : A} {bb' : BitBuffer}
    → m bb ≡ done a bb'
    → (m >>= next) bb ≡ next a bb'
unfolding ◌>>=◌
>>=-done m next bb e = rw (e, ◌>>=◌) refl

room_head : (bb : BitBuffer) (n k : ℕ) → HasRoom bb (n + k) → HasRoom bb n
room_head bb n k (inl h) = inl (omega arith)
room_head bb n k (inr (g, h)) = inr (g, omega arith)

module _ (bb : BitBuffer) (v n : ℕ) (b1 : BitBuffer) (put : Put bb v n b1) where
  room_tail : (k : ℕ) → HasRoom bb (n + k) → HasRoom b1 k
  room_tail k (inl h) = inl (omega (arith, put.moved, put.window))
  room_tail k (inr (g, h)) = inr (put.flag ∙ g, omega (arith, put.moved, put.window))

  Emitted-cons :
      (fs : List Field) (b2 : BitBuffer)
      → 1 ≤ n
      → n ≤ 32
      → Emitted b1 fs b2
      → Emitted bb ((n, v) ∷ fs) b2
  Emitted-cons fs b2 lo hi rest = record {
    valid = rest.valid;
    carries = (
      (lo, hi, rest.before bb.pos n (omega (arith, put.moved)) ∙ put.value),
      subst (λ p. Carries b2.buffer p fs) put.moved rest.carries,
    );
    before = λ p k h. rest.before p k (omega (arith, put.moved, h)) ∙ put.before p k h;
    moved = omega (arith, rest.moved, put.moved);
    start = rest.start ∙ put.window.0;
    end = omega (arith, rest.end, put.window, put.moved);
    cap = rest.cap ∙ put.window.2;
    size = rest.size ∙ put.size;
    flag = rest.flag ∙ put.flag;
  }

-- Where the fields fit, writing them ends well.
pub emit-Emitted :
    (bb : BitBuffer) (fs : List Field)
    → IsValid bb
    → Fields fs
    → HasRoom bb (width fs)
    → (bb' : BitBuffer) × (emit fs bb ≡ done tt bb') × Emitted bb fs bb'
unfolding return
emit-Emitted bb [] valid ok room = (
  bb,
  refl,
  record {
    valid = valid;
    carries = tt;
    before = λ p k h. refl;
    moved = omega arith;
    start = refl;
    end = omega (arith, valid.pos_le);
    cap = refl;
    size = refl;
    flag = refl;
  },
)
emit-Emitted bb ((n, v) ∷ fs) valid ok room =
    let (b1, e1, put) =
      bb_put_bits-Put bb v n valid ok.0.0 ok.0.1 ok.0.2 (room_head bb n (width fs) room) in
    let (b2, e2, rest) =
      emit-Emitted b1 fs put.valid ok.1 (room_tail bb v n b1 put (width fs) room) in
    (
      b2,
      >>=-done (put_bits v n) (λ _. emit fs) bb (put_bits-done bb v n e1) ∙ e2,
      Emitted-cons bb v n b1 put fs b2 ok.0.0 ok.0.1 rest,
    )

-- A reader of fields at a buffer: where they stand in the window with `k` more bits behind them, it
-- returns `a`, the cursor behind the fields.
pub record Reads {A : Type 0} (m : BitIo A) (bb : BitBuffer) (fs : List Field) (k : ℕ) (a : A)
    : Type 0 where
  pub run :
      IsValid bb
      → Carries bb.buffer bb.pos fs
      → bb.pos + width fs + k ≤ bb.end
      → m bb ≡ done a (record bb { pos = bb.pos + width fs })

pub advanced :
    (bb : BitBuffer) (n : ℕ)
    → IsValid bb
    → bb.pos + n ≤ bb.end
    → IsValid (record bb { pos = bb.pos + n })
advanced bb n v h = record {
  bytes = v.bytes;
  start_le = omega (arith, v.start_le);
  pos_le = h;
  end_le = v.end_le;
  memory = v.memory;
  addressable = v.addressable;
}

get_bits-done :
    (bb : BitBuffer) (n v : ℕ)
    → IsValid bb
    → (1 ≤ n) × (n ≤ 32) × (field bb.buffer bb.pos n ≡ v)
    → bb.pos + n ≤ bb.end
    → get_bits n bb ≡ done v (record bb { pos = bb.pos + n })
unfolding get_bits
get_bits-done bb n v valid (lo, hi, e) fits = elim (bb_get_bits_lem bb n valid lo hi) [
  | inl (_, got) ↦ rw (got, get_bits) (ap (λ x. done x (record bb { pos = bb.pos + n })) e)
  | inr (over, _) ↦ absurd (omega arith)
]

pub get_alone : {n v : ℕ} {bb : BitBuffer} {k : ℕ} → Reads (get_bits n) bb ((n, v) ∷ []) k v
get_alone {n} {v} {bb} {k} = record {
  run = λ valid carries fits.
      get_bits-done bb n v valid carries.0 (omega arith)
      ∙ ap (λ p. done v (record bb { pos = p })) (omega arith);
}

module _ {A : Type 0} {bb : BitBuffer} {fs : List Field} {k : ℕ} {a : A} where
  pub get_then :
      {n v : ℕ} (next : ℕ → BitIo A)
      → Reads (next v) (record bb { pos = bb.pos + n }) fs k a
      → Reads (get_bits n >>= next) bb ((n, v) ∷ fs) k a
  get_then {n} {v} next rest = record {
    run = λ valid carries fits.
        let inside : bb.pos + n ≤ bb.end = omega arith in
        >>=-done (get_bits n) next bb (get_bits-done bb n v valid carries.0 inside)
        ∙ rest.run (advanced bb n valid inside) carries.1 (omega arith)
        ∙ ap (λ p. done a (record bb { pos = p })) (add_assoc bb.pos n (width fs));
  }

  pub refuse_then :
      {bad : Bool} (e : Errno) (next : Unit {0} → BitIo A)
      → bad ≡ false
      → Reads (next tt) bb fs k a
      → Reads (refuse_if bad e >>= next) bb fs k a
  unfolding refuse_if
  refuse_then {bad} e next good rest = record {
    run = λ valid carries fits.
        >>=-done (refuse_if bad e) next bb (rw good refl) ∙ rest.run valid carries fits;
  }

  pub look_then :
      {B : Type 0} (f : BitBuffer → B) (next : B → BitIo A)
      → Reads (next (f bb)) bb fs k a
      → Reads (look f >>= next) bb fs k a
  unfolding look
  look_then f next rest = record {
    run = λ valid carries fits. >>=-done (look f) next bb refl ∙ rest.run valid carries fits;
  }

pub return-Reads : {A : Type 0} {bb : BitBuffer} {k : ℕ} {a : A} → Reads (return a) bb [] k a
unfolding return
return-Reads {bb} {a} = record {
  run = λ valid carries fits. ap (λ p. done a (record bb { pos = p })) (omega arith);
}

-- The result by another name.
pub Reads-cong :
    {A : Type 0} {m : BitIo A} {bb : BitBuffer} {fs : List Field} {k : ℕ} {a b : A}
    → a ≡ b
    → Reads m bb fs k a
    → Reads m bb fs k b
Reads-cong {m} {bb} {fs} {k} e r = subst (λ x. Reads m bb fs k x) e r

pub Carries-append :
    (buf : List ℕ) (p : ℕ) (fs gs : List Field)
    → Carries buf p (fs ++ gs)
    → Carries buf p fs × Carries buf (p + width fs) gs
Carries-append buf p [] gs h = (tt, rw add-zero h)
Carries-append buf p ((n, v) ∷ fs) gs h =
    let (l, r) = Carries-append buf (p + n) fs gs h.1 in
    ((h.0, l), subst (λ q. Carries buf q gs) (add_assoc p n (width fs)) r)

advanced_twice :
    (bb : BitBuffer) (n k m : ℕ)
    → n + k ≡ m
    → record bb { pos = bb.pos + n + k } ≡ record bb { pos = bb.pos + m }
advanced_twice bb n k m e = ap (λ p. record bb { pos = p }) (omega arith)

-- One reader after another.
pub Reads-then :
    {A B : Type 0} {m : BitIo A} (next : A → BitIo B) {bb : BitBuffer} {fs gs : List Field} {k : ℕ}
    {a : A} {b : B}
    → Reads m bb fs (width gs + k) a
    → Reads (next a) (record bb { pos = bb.pos + width fs }) gs k b
    → Reads (m >>= next) bb (fs ++ gs) k b
Reads-then {m} next {bb} {fs} {gs} {k} {a} {b} first rest = record {
  run = λ valid carries fits.
      let (c1, c2) = Carries-append bb.buffer bb.pos fs gs carries in
      let w : width (fs ++ gs) ≡ width fs + width gs = width-append fs gs in
      >>=-done m next bb (first.run valid c1 (omega arith))
      ∙ rest.run (advanced bb (width fs) valid (omega arith)) c2 (omega arith)
      ∙ ap (done b) (advanced_twice bb (width fs) (width gs) (width (fs ++ gs)) (sym w));
}

remaining_lem : (bb : BitBuffer) → IsValid bb → bb_remaining bb ≡ bb.end - bb.pos
unfolding bb_remaining
remaining_lem bb v = omega (arith, v.pos_le, v.end_le, v.addressable)

-- A look at the number of bits that remain, where at least `n` do.
pub remaining_then :
    {A : Type 0} (next : ℕ → BitIo A) {bb : BitBuffer} {fs : List Field} {k : ℕ} {a : A} (n : ℕ)
    → n ≤ width fs + k
    → ((r : ℕ) → ltb r n ≡ false → Reads (next r) bb fs k a)
    → Reads (look bb_remaining >>= next) bb fs k a
unfolding look
remaining_then next {bb} {fs} {k} n enough rest = record {
  run = λ valid carries fits.
      let more : n ≤ bb_remaining bb = omega (arith, remaining_lem bb valid) in
      >>=-done (look bb_remaining) next bb refl
      ∙ (rest (bb_remaining bb) (ground arith)).run valid carries fits;
}

-- A reader whose result is put into another form.
pub Reads-map :
    {A B : Type 0} {m : BitIo A} (f : A → B) {bb : BitBuffer} {fs : List Field} {k : ℕ} {a : A}
    → Reads m bb fs k a
    → Reads (m >>= λ x. return (f x)) bb fs k (f a)
unfolding return
Reads-map {m} f {bb} r = record {
  run = λ valid carries fits. >>=-done m (λ x. return (f x)) bb (r.run valid carries fits);
}

-- A reader, and then looks at the buffer only.
pub Reads-last :
    {A B : Type 0} {m : BitIo A} (next : A → BitIo B) {bb : BitBuffer} {fs : List Field} {k : ℕ}
    {a : A} {b : B}
    → Reads m bb fs k a
    → Reads (next a) (record bb { pos = bb.pos + width fs }) [] k b
    → Reads (m >>= next) bb fs k b
Reads-last {m} next {bb} {fs} {k} {a} {b} first rest =
    subst (λ gs. Reads (m >>= next) bb gs k b) (append-nil fs)
      (Reads-then next (subst (λ n. Reads m bb fs n a) (omega arith) first) rest)

-- ===== src/Core/BitBuffer/Codec/Joins.antt =====
-- One run of puts after another, as one run.
use tetra_bs.Prelude.{ℕ, ◌+◌, ◌≤◌, ◌≡◌, inl, inr, sym, ◌∙◌, subst, List, [], ◌∷◌, ◌++◌, arith}
use native.Mathlib.Nat.{add_assoc, add-zero}
use tetra_bs.Core.BitBuffer.{BitBuffer}
use tetra_bs.Core.BitBuffer.Spec.{field}
use tetra_bs.Core.BitBuffer.Cursor.{HasRoom}
use tetra_bs.Core.BitBuffer.Codec.{Field, width}
use tetra_bs.Core.BitBuffer.Codec.Fields.{Carries, Emitted, width-append}

Carries-keep :
    (a b : List ℕ) (p : ℕ) (fs : List Field)
    → ((q n : ℕ) → q + n ≤ p + width fs → field b q n ≡ field a q n)
    → Carries a p fs
    → Carries b p fs
Carries-keep a b p [] same h = tt
Carries-keep a b p ((n, v) ∷ fs) same h = (
  (h.0.0, h.0.1, same p n (omega arith) ∙ h.0.2),
  Carries-keep a b (p + n) fs (λ q m le. same q m (omega arith)) h.1,
)

Carries-join :
    (buf : List ℕ) (p : ℕ) (fs gs : List Field)
    → Carries buf p fs
    → Carries buf (p + width fs) gs
    → Carries buf p (fs ++ gs)
Carries-join buf p [] gs h k = subst (λ q. Carries buf q gs) (add-zero p) k
Carries-join buf p ((n, v) ∷ fs) gs h k = (
  h.0,
  Carries-join buf (p + n) fs gs h.1
      (subst (λ q. Carries buf q gs) (sym (add_assoc p n (width fs))) k),
)

pub Emitted-append :
    (a b c : BitBuffer) (fs gs : List Field)
    → Emitted a fs b
    → Emitted b gs c
    → Emitted a (fs ++ gs) c
Emitted-append a b c fs gs h k = record {
  valid = k.valid;
  carries =
      Carries-join c.buffer a.pos fs gs
        (Carries-keep b.buffer c.buffer a.pos fs (λ q n le. k.before q n (omega (arith, h.moved)))
          h.carries)
        (subst (λ p. Carries c.buffer p gs) h.moved k.carries);
  before = λ q n le. k.before q n (omega (arith, h.moved)) ∙ h.before q n le;
  moved = omega (arith, h.moved, k.moved, width-append fs gs);
  start = k.start ∙ h.start;
  end = omega (arith, h.moved, h.end, k.end, width-append fs gs);
  cap = k.cap ∙ h.cap;
  size = k.size ∙ h.size;
  flag = k.flag ∙ h.flag;
}

-- Room for two runs is room for the second behind the first.
pub room_behind :
    (a b : BitBuffer) (fs : List Field) (k : ℕ)
    → Emitted a fs b
    → HasRoom a (width fs + k)
    → HasRoom b k
room_behind a b fs k h (inl room) = inl (omega (arith, h.moved, h.end))
room_behind a b fs k h (inr (grows, room)) = inr (h.flag ∙ grows, omega (arith, h.moved, h.cap))

pub room_before : (a : BitBuffer) (n k : ℕ) → HasRoom a (n + k) → HasRoom a n
room_before a n k (inl room) = inl (omega arith)
room_before a n k (inr (grows, room)) = inr (grows, omega arith)

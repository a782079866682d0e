-- ===== src/Core/Memory.antt =====
-- `memcpy` into and out of a region of bytes.
use tetra_bs.Prelude.{
  ℕ, zero, suc, ◌+◌, ◌≤◌, ◌<◌, ◌≡◌, refl, ap, ap₂, ◌∙◌, List, [], ◌∷◌, length, get_or, set,
  length-set, get_or-set_self, get_or-set_ne, arith, ◌⊎◌, inl,
}

-- `n` bytes from offset `off` on.
abbrev pub load : List ℕ → ℕ → ℕ → List ℕ
load mem off zero = []
load mem off (suc n) = get_or mem off 0 ∷ load mem (suc off) n

-- The bytes `bs` at offset `off`.
abbrev pub store : List ℕ → ℕ → List ℕ → List ℕ
store mem off [] = mem
store mem off (b ∷ bs) = store (set mem off b) (suc off) bs

pub length-store : (mem : List ℕ) (off : ℕ) (bs : List ℕ) → length (store mem off bs) ≡ length mem
length-store mem off [] = refl
length-store mem off (b ∷ bs) = length-store (set mem off b) (suc off) bs ∙ length-set mem off b

pub length-load : (mem : List ℕ) (off n : ℕ) → length (load mem off n) ≡ n
length-load mem off zero = refl
length-load mem off (suc n) = ap suc (length-load mem (suc off) n)

-- A byte outside the copied range is as it was.
pub store_outside :
    (mem : List ℕ) (off : ℕ) (bs : List ℕ) (i : ℕ)
    → (i < off) ⊎ (off + length bs ≤ i)
    → get_or (store mem off bs) i 0 ≡ get_or mem i 0
store_outside mem off [] i h = refl
store_outside mem off (b ∷ bs) i h =
    store_outside (set mem off b) (suc off) bs i (grind arith)
    ∙ get_or-set_ne mem {i = off} {j = i} b 0 (grind arith)

-- What was stored is what is loaded.
pub load-store :
    (mem : List ℕ) (off : ℕ) (bs : List ℕ)
    → off + length bs ≤ length mem
    → load (store mem off bs) off (length bs) ≡ bs
load-store mem off [] h = refl
load-store mem off (b ∷ bs) h =
    ap₂ ◌∷◌
      (store_outside (set mem off b) (suc off) bs off (inl (omega arith))
        ∙ get_or-set_self mem off b 0 (omega arith))
      (load-store (set mem off b) (suc off) bs (omega (arith, length-set mem off b)))

-- A load of other bytes does not see the store.
pub load-store_apart :
    (mem : List ℕ) (off : ℕ) (bs : List ℕ) (p n : ℕ)
    → (p + n ≤ off) ⊎ (off + length bs ≤ p)
    → load (store mem off bs) p n ≡ load mem p n
load-store_apart mem off bs p zero h = refl
load-store_apart mem off bs p (suc n) h =
    ap₂ ◌∷◌ (store_outside mem off bs p (grind arith))
      (load-store_apart mem off bs (suc p) n (grind arith))

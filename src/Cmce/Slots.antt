-- ===== src/Cmce/Slots.antt =====
-- The allocation of a call slot.
use tetra_bs.Prelude.{
  ℕ, zero, suc, ◌+◌, ◌<◌, ◌≡◌, ◌≢◌, ◌⊎◌, inl, inr, refl, sym, ap, ◌∙◌, subst, true, false, ◌&&◌,
  Option, some, none, List, [], ◌∷◌, get_or, set, length, get_or-set_self, get_or-set_ne, ◌==◌,
  arith, Bool-cases,
}
use tetra_bs.Llc.{TetraAddress}
use tetra_bs.Cmce.{
  CmceCallSlot, Cmce, zero_slot, slot, drop_counted, new_slot, lookup_from, free_from,
  cmce_call_lookup, cmce_call_alloc,
}

-- The loop of the allocation finds the first free slot, if there is one.
free_from_lem :
    (cs : List CmceCallSlot) (i : ℕ)
    → ((free_from cs i ≡ none) × ((j : ℕ) → j < length cs → (get_or cs j zero_slot).in_use ≡ true))
      ⊎ ((j : ℕ) × (free_from cs i ≡ some (i + j))
          × (j < length cs)
          × ((get_or cs j zero_slot).in_use ≡ false))
unfolding free_from
free_from_lem [] i = inl (refl, λ j h. absurd (omega arith))
free_from_lem (c ∷ cs) i = elim (Bool-cases c.in_use) [
  | inr free ↦ inr (0, ground arith, omega arith, free)
  | inl used ↦ elim (free_from_lem cs (i + 1)) [
    | inl (nil, full) ↦ inl (ground arith, all_used full used)
    | inr (j, at, lt, free) ↦ inr (suc j, ground arith, omega arith, free)
  ]
]
  where
    all_used :
        ((j : ℕ) → j < length cs → (get_or cs j zero_slot).in_use ≡ true)
        → c.in_use ≡ true
        → (j : ℕ) → j < length (c ∷ cs)
        → (get_or (c ∷ cs) j zero_slot).in_use ≡ true
    all_used full used zero h = used
    all_used full used (suc j) h = full j (omega arith)

-- An identifier that no call had is found where it is stored.
lookup_from-set :
    (cs : List CmceCallSlot) (i j : ℕ) (s : CmceCallSlot)
    → lookup_from cs i s.call_identifier ≡ none
    → s.in_use ≡ true
    → j < length cs
    → lookup_from (set cs j s) i s.call_identifier ≡ some (i + j)
unfolding lookup_from
lookup_from-set [] i j s h used lt = absurd (omega arith)
lookup_from-set (c ∷ cs) i zero s h used lt =
    let same : (s.call_identifier == s.call_identifier) ≡ true = ground arith in
    rw (used, same) (ap some (omega arith))
lookup_from-set (c ∷ cs) i (suc j) s h used lt =
    elim (Bool-cases (c.in_use && c.call_identifier == s.call_identifier)) [
      | inl here ↦ absurd (ground arith)
      | inr there ↦
          rw there (
            lookup_from-set cs (i + 1) j s (ground arith) used (omega arith)
            ∙ ap some (omega arith))
    ]

some-ne_none : {i : ℕ} → some i ≢ none
some-ne_none e = cc

module _ (cmce : Cmce) (id : ℕ) (peer : Option TetraAddress) (endpoint : ℕ) where
  alloc_taken :
      {i : ℕ}
      → cmce_call_lookup cmce id ≡ some i
      → cmce_call_alloc cmce id peer endpoint
        ≡ (record cmce { stats = drop_counted cmce.stats }, none)
  unfolding cmce_call_alloc
  alloc_taken e = rw (e, cmce_call_alloc) refl

  alloc_full :
      cmce_call_lookup cmce id ≡ none
      → free_from cmce.calls 0 ≡ none
      → cmce_call_alloc cmce id peer endpoint ≡ (cmce, none)
  unfolding cmce_call_alloc
  alloc_full e nil = rw (e, cmce_call_alloc) (rw (nil, cmce_call_alloc) refl)

  alloc_free :
      {i : ℕ}
      → cmce_call_lookup cmce id ≡ none
      → free_from cmce.calls 0 ≡ some i
      → cmce_call_alloc cmce id peer endpoint
        ≡ (record cmce { calls = set cmce.calls i (new_slot id peer endpoint) }, some i)
  unfolding cmce_call_alloc
  alloc_free e at = rw (e, cmce_call_alloc) (rw (at, cmce_call_alloc) refl)

lookup_new :
    (cmce : Cmce) (id j : ℕ) (peer : Option TetraAddress) (endpoint : ℕ)
    → cmce_call_lookup cmce id ≡ none
    → j < length cmce.calls
    → cmce_call_lookup (record cmce { calls = set cmce.calls j (new_slot id peer endpoint) }) id
      ≡ some j
unfolding cmce_call_lookup
lookup_new cmce id j peer endpoint e lt =
    lookup_from-set cmce.calls 0 j (new_slot id peer endpoint) e refl lt ∙ ap some (omega arith)

-- What an allocation has done.
abbrev pub Allocated : Cmce → ℕ → Option TetraAddress → ℕ → Cmce → Option ℕ → Type 0
Allocated cmce id peer endpoint c none =
    ((cmce_call_lookup cmce id ≢ none) × (c ≡ record cmce { stats = drop_counted cmce.stats }))
    ⊎ (((j : ℕ) → j < length cmce.calls → (slot cmce j).in_use ≡ true) × (c ≡ cmce))
Allocated cmce id peer endpoint c (some i) =
    (cmce_call_lookup cmce id ≡ none)
    × ((slot cmce i).in_use ≡ false)
    × (slot c i ≡ new_slot id peer endpoint)
    × (cmce_call_lookup c id ≡ some i)
    × ((j : ℕ) → i ≢ j → slot c j ≡ slot cmce j)

-- An allocation that returns a slot got an identifier that no call had, filled a slot that was
-- free and changed no other, and a lookup of the identifier then finds this slot. One that returns
-- NULL either got the identifier of a call and counted a drop, or found every slot in use and
-- changed nothing.
pub cmce_call_alloc_lem :
    (cmce : Cmce) (id : ℕ) (peer : Option TetraAddress) (endpoint : ℕ)
    → Allocated cmce id peer endpoint
        (cmce_call_alloc cmce id peer endpoint).0
        (cmce_call_alloc cmce id peer endpoint).1
cmce_call_alloc_lem cmce id peer endpoint = by_lookup (cmce_call_lookup cmce id) refl
  where
    Done : Cmce × Option ℕ → Type 0
    Done r = Allocated cmce id peer endpoint r.0 r.1

    by_lookup :
        (r : Option ℕ) → cmce_call_lookup cmce id ≡ r → Done (cmce_call_alloc cmce id peer endpoint)
    by_lookup (some i) e =
        subst Done (sym (alloc_taken cmce id peer endpoint e))
          (inl ((λ nil. some-ne_none (sym e ∙ nil)), refl))
    by_lookup none e = elim (free_from_lem cmce.calls 0) [
      | inl (nil, full) ↦
          subst Done (sym (alloc_full cmce id peer endpoint e nil)) (inr (full, refl))
      | inr (j, at, lt, free) ↦
          subst Done (sym (alloc_free cmce id peer endpoint e (at ∙ ap some (omega arith)))) (
            e,
            free,
            get_or-set_self cmce.calls j (new_slot id peer endpoint) zero_slot lt,
            lookup_new cmce id j peer endpoint e lt,
            λ k ne. get_or-set_ne cmce.calls (new_slot id peer endpoint) zero_slot ne,
          )
    ]

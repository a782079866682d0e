-- ===== src/Cmce/Handling/Shrinks.antt =====
-- What the state machine of sw/cmce/cmce_fsm.c and the lookup of sw/cmce/cmce.c leave of the table
-- of calls.
use tetra_bs.Prelude.{
  ℕ, zero, suc, ◌+◌, ◌≡◌, ◌≢◌, inl, inr, refl, sym, ◌∙◌, subst, Bool, true, some, none, List, [],
  ◌∷◌, get_or, set, Bool-cases, arith,
}
use tetra_bs.Cmce.{
  CmcePduType, CmceCallSlot, CmceStats, Cmce, zero_slot, slot, fsm_switch, cmce_fsm_apply,
  lookup_from, cmce_call_lookup,
}

-- A slot that is in use was in use, for the same call.
abbrev pub Was : CmceCallSlot → CmceCallSlot → Type 0
Was new old = new.in_use ≡ true → (old.in_use ≡ true) × (new.call_identifier ≡ old.call_identifier)

-- Every call of `c` is one of `cmce`, in the same slot.
abbrev pub Shrinks : Cmce → Cmce → Type 0
Shrinks cmce c = (j : ℕ) → Was (slot c j) (slot cmce j)

pub Shrinks-trans : (a b c : Cmce) → Shrinks a b → Shrinks b c → Shrinks a c
Shrinks-trans a b c h k j used =
    let (used', same) = k j used in let (used'', same') = h j used' in (used'', same ∙ same')

Was-refl : (s : CmceCallSlot) → Was s s
Was-refl s used = (used, refl)

pub same_calls : (cmce c : Cmce) → c.calls ≡ cmce.calls → Shrinks cmce c
same_calls cmce c e j =
    subst (λ cs. Was (get_or cs j zero_slot) (slot cmce j)) (sym e) (Was-refl (slot cmce j))

set-Was :
    (cs : List CmceCallSlot) (i : ℕ) (s : CmceCallSlot)
    → Was s (get_or cs i zero_slot)
    → (j : ℕ) → Was (get_or (set cs i s) j zero_slot) (get_or cs j zero_slot)
set-Was [] i s w j = Was-refl zero_slot
set-Was (c ∷ cs) zero s w zero = w
set-Was (c ∷ cs) zero s w (suc j) = Was-refl (get_or cs j zero_slot)
set-Was (c ∷ cs) (suc i) s w zero = Was-refl c
set-Was (c ∷ cs) (suc i) s w (suc j) = set-Was cs i s w j

fsm_switch-Was :
    (st : CmceStats) (s : CmceCallSlot) (t : CmcePduType) (u : Bool) → Was (fsm_switch st s t u).1 s
unfolding fsm_switch
fsm_switch-Was st s t u = ground arith

-- A message to a call opens no other call.
pub cmce_fsm_apply-Shrinks :
    (cmce : Cmce) (i : ℕ) (t : CmcePduType) (u : Bool)
    → Shrinks cmce (cmce_fsm_apply cmce (some i) t u).0
unfolding cmce_fsm_apply
cmce_fsm_apply-Shrinks cmce i t u = elim (Bool-cases (slot cmce i).in_use) [
  | inl live ↦ rw live (set-Was cmce.calls i _ (fsm_switch-Was cmce.stats (slot cmce i) t u))
  | inr free ↦ rw free (λ j. Was-refl (slot cmce j))
]

-- An identifier that the lookup does not find is that of no call.
lookup_from-none :
    (cs : List CmceCallSlot) (i id : ℕ)
    → lookup_from cs i id ≡ none
    → (j : ℕ) → (get_or cs j zero_slot).in_use ≡ true
    → (get_or cs j zero_slot).call_identifier ≢ id
unfolding lookup_from
lookup_from-none [] i id h j used e = cc
lookup_from-none (c ∷ cs) i id h zero used e = ground arith
lookup_from-none (c ∷ cs) i id h (suc j) used e =
    lookup_from-none cs (i + 1) id (ground arith) j used e

pub cmce_call_lookup-none :
    (cmce : Cmce) (id : ℕ)
    → cmce_call_lookup cmce id ≡ none
    → (j : ℕ) → (slot cmce j).in_use ≡ true
    → (slot cmce j).call_identifier ≢ id
unfolding cmce_call_lookup
cmce_call_lookup-none cmce id = lookup_from-none cmce.calls 0 id

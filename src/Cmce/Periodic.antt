-- ===== src/Cmce/Periodic.antt =====
-- When the network broadcast is due.
use tetra_bs.Prelude.{
  ℕ, ◌+◌, ◌-◌, ◌%◌, ◌^◌, ◌<◌, ◌≤◌, ◌≡◌, ◌⊎◌, inl, inr, refl, true, false, leb, ◌==◌, arith,
  Bool-cases,
}
use tetra_bs.Cmce.{Cmce, size, cmce_nwrk_bcast_tick}

-- The elapsed time is computed right across the wrap-around of the counter.
elapsed : (last d : ℕ) → last < 2 ^ 64 → d < 2 ^ 64 → size (size (last + d) + 2 ^ 64 - last) ≡ d
elapsed last d l h = omega arith

-- `d` multiframes after a broadcast, with `d` below 2 ^ 64 and the counter of multiframes modulo
-- 2 ^ 64, the timer of an initialised entity with a period fires if and only if the period has
-- passed. When it fires it stores the time and changes nothing else; else it changes nothing. The
-- last broadcast is not at time zero, which stands for none.
pub cmce_nwrk_bcast_tick_lem :
    (cmce : Cmce) (d : ℕ)
    → cmce.initialised ≡ true
    → 0 < cmce.cfg.nwrk_bcast_period_multiframes
    → 0 < cmce.last_bcast_tick_mf
    → cmce.last_bcast_tick_mf < 2 ^ 64
    → d < 2 ^ 64
    → let now = (cmce.last_bcast_tick_mf + d) % 2 ^ 64 in
      ((cmce.cfg.nwrk_bcast_period_multiframes ≤ d)
        × (cmce_nwrk_bcast_tick cmce now ≡ (record cmce { last_bcast_tick_mf = now }, true)))
      ⊎ ((d < cmce.cfg.nwrk_bcast_period_multiframes)
          × (cmce_nwrk_bcast_tick cmce now ≡ (cmce, false)))
unfolding cmce_nwrk_bcast_tick
cmce_nwrk_bcast_tick_lem cmce d init p l0 l h =
    let some_period : (cmce.cfg.nwrk_bcast_period_multiframes == 0) ≡ false = ground arith in
    let some_last : (cmce.last_bcast_tick_mf == 0) ≡ false = ground arith in
    elim (Bool-cases (leb cmce.cfg.nwrk_bcast_period_multiframes d)) [
      | inl due ↦ inl (
        ground arith,
        rw (init, some_period, some_last, elapsed cmce.last_bcast_tick_mf d l h, due) refl,
      )
      | inr early ↦ inr (
        ground arith,
        rw (init, some_period, some_last, elapsed cmce.last_bcast_tick_mf d l h, early) refl,
      )
    ]

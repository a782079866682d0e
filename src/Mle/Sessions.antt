-- ===== src/Mle/Sessions.antt =====
-- The table of sessions: no terminal has two, and a lookup finds what an allocation made.
use tetra_bs.Prelude.{
  ℕ, zero, suc, ◌+◌, ◌^◌, ◌<◌, ◌≡◌, ◌≢◌, ◌⊎◌, inl, inr, refl, sym, ap, ◌∙◌, subst, true, false,
  ◌&&◌, Option, none, some, List, [], ◌∷◌, get_or, set, length, length-set, get_or-set_self,
  get_or-set_ne, ◌==◌, arith, Bool-cases,
}
use tetra_bs.Mle.{
  Mle, MleSession, zero_session, session, session_max, mask_24, lookup_from, free_from,
  fresh_session, mle_session_lookup, mle_session_alloc, put_session,
}

-- The session at an index belongs to a terminal.
abbrev pub Holds : List MleSession → ℕ → ℕ → Type 0
Holds ss i issi =
    (i < length ss)
    × ((get_or ss i zero_session).in_use ≡ true)
    × ((get_or ss i zero_session).issi ≡ issi)

pub record IsTable (ss : List MleSession) : Type 0 where
  pub size : length ss ≡ session_max
  pub masked : (i : ℕ) → (get_or ss i zero_session).issi < 2 ^ 24
  pub unique : (i j issi : ℕ) → Holds ss i issi → Holds ss j issi → i ≡ j

true-ne-false : true ≢ false
true-ne-false e = cc

-- What the loop of the lookup finds: the first session of the terminal, if there is one.
pub lookup_from_lem :
    (ss : List MleSession) (i issi : ℕ)
    → ((lookup_from ss i issi ≡ none) × ((j : ℕ) → ¬ Holds ss j issi))
      ⊎ ((j : ℕ) × (lookup_from ss i issi ≡ some (i + j)) × Holds ss j issi)
unfolding lookup_from
lookup_from_lem [] i issi = inl (refl, λ j h. omega arith)
lookup_from_lem (s ∷ ss) i issi = elim (Bool-cases (s.in_use && s.issi == issi)) [
  | inl here ↦ inr (0, rw here (ap some (omega arith)), (omega arith, ground arith, ground arith))
  | inr there ↦ elim (lookup_from_lem ss (i + 1) issi) [
    | inl (nil, no_one) ↦ inl (rw there nil, other no_one there)
    | inr (j, at, holds) ↦
        inr
          (suc j, rw there (at ∙ ap some (omega arith)), (omega (arith, holds.0), holds.1, holds.2))
  ]
]
  where
    other :
        ((j : ℕ) → ¬ Holds ss j issi)
        → (s.in_use && s.issi == issi) ≡ false
        → (j : ℕ) → ¬ Holds (s ∷ ss) j issi
    other no_one there zero h = ground (arith, h.1, h.2)
    other no_one there (suc j) h = no_one j (omega (arith, h.0), h.1, h.2)

free_from_lem :
    (ss : List MleSession) (i : ℕ)
    → ((free_from ss i ≡ none)
        × ((j : ℕ) → j < length ss → (get_or ss j zero_session).in_use ≡ true))
      ⊎ ((j : ℕ) × (free_from ss i ≡ some (i + j))
          × (j < length ss)
          × ((get_or ss j zero_session).in_use ≡ false))
unfolding free_from
free_from_lem [] i = inl (refl, λ j h. absurd (omega arith))
free_from_lem (s ∷ ss) i = elim (Bool-cases s.in_use) [
  | inr free ↦ inr (0, ground arith, omega arith, free)
  | inl used ↦ elim (free_from_lem ss (i + 1)) [
    | inl (nil, full) ↦ inl (ground arith, all_used full used)
    | inr (j, at, lt, free) ↦ inr (suc j, ground (arith), omega arith, free)
  ]
]
  where
    all_used :
        ((j : ℕ) → j < length ss → (get_or ss j zero_session).in_use ≡ true)
        → s.in_use ≡ true
        → (j : ℕ) → j < length (s ∷ ss)
        → (get_or (s ∷ ss) j zero_session).in_use ≡ true
    all_used full used zero h = used
    all_used full used (suc j) h = full j (omega arith)

-- A lookup in a table finds the one session that a terminal has, and nothing else.
pub lookup-Holds :
    (ss : List MleSession) (i issi : ℕ)
    → IsTable ss
    → Holds ss i issi
    → lookup_from ss 0 issi ≡ some i
lookup-Holds ss i issi v holds = elim (lookup_from_lem ss 0 issi) [
  | inl (nil, no_one) ↦ absurd (no_one i holds)
  | inr (j, at, there) ↦ at ∙ ap some (omega (arith, v.unique i j issi holds there))
]

lookup-none :
    (ss : List MleSession) (issi : ℕ) → ((j : ℕ) → ¬ Holds ss j issi) → lookup_from ss 0 issi ≡ none
lookup-none ss issi no_one = elim (lookup_from_lem ss 0 issi) [
  | inl (nil, _) ↦ nil
  | inr (j, at, there) ↦ absurd (no_one j there)
]

-- Filling a free slot.
module _ (ss : List MleSession) (j : ℕ) (s : MleSession) (lt : j < length ss) where
  Holds-set_self : s.in_use ≡ true → Holds (set ss j s) j s.issi
  Holds-set_self used =
      let at = get_or-set_self ss j s zero_session lt in
      (omega (arith, length-set ss j s), ap (λ x. x.in_use) at ∙ used, ap (λ x. x.issi) at)

  Holds-set :
      (k issi : ℕ) → Holds (set ss j s) k issi → ((k ≡ j) × (issi ≡ s.issi)) ⊎ Holds ss k issi
  Holds-set k issi h = elim (Bool-cases (k == j)) [
    | inl same ↦
        let at : k ≡ j = ground arith in
        inl (
          at,
          sym h.2
              ∙ ap (λ x. (get_or (set ss j s) x zero_session).issi) at
              ∙ ap (λ x. x.issi) (get_or-set_self ss j s zero_session lt),
        )
    | inr other ↦
        let same = get_or-set_ne ss {i = j} {j = k} s zero_session (λ e. ground arith) in
        inr (
          omega (arith, h.0, length-set ss j s),
          sym (ap (λ x. x.in_use) same) ∙ h.1,
          sym (ap (λ x. x.issi) same) ∙ h.2,
        )
  ]

  Holds-set_kept :
      (get_or ss j zero_session).in_use ≡ false
      → (k issi : ℕ) → Holds ss k issi
      → Holds (set ss j s) k issi
  Holds-set_kept free k issi h = elim (Bool-cases (k == j)) [
    | inl same ↦
        let at : k ≡ j = ground arith in
        absurd (true-ne-false (sym h.1 ∙ ap (λ x. (get_or ss x zero_session).in_use) at ∙ free))
    | inr other ↦
        let same = get_or-set_ne ss {i = j} {j = k} s zero_session (λ e. ground arith) in
        (
          omega (arith, h.0, length-set ss j s),
          ap (λ x. x.in_use) same ∙ h.1,
          ap (λ x. x.issi) same ∙ h.2,
        )
  ]

  set-IsTable :
      IsTable ss → s.issi < 2 ^ 24 → ((k : ℕ) → ¬ Holds ss k s.issi) → IsTable (set ss j s)
  set-IsTable v small no_one = record {
    size = length-set ss j s ∙ v.size;
    masked = λ k. elim (Bool-cases (k == j)) [
      | inl same ↦
          let at : k ≡ j = ground arith in rw (at, get_or-set_self ss j s zero_session lt) small
      | inr other ↦
          rw (get_or-set_ne ss {i = j} {j = k} s zero_session (λ e. ground arith)) (v.masked k)
    ];
    unique = λ a b issi ha hb. elim (Holds-set a issi ha) [
      | inl (a_new, e) ↦ elim (Holds-set b issi hb) [
        | inl (b_new, _) ↦ a_new ∙ sym b_new
        | inr old ↦ absurd (no_one b (subst (Holds ss b) e old))
      ]
      | inr old_a ↦ elim (Holds-set b issi hb) [
        | inl (b_new, e) ↦ absurd (no_one a (subst (Holds ss a) e old_a))
        | inr old_b ↦ v.unique a b issi old_a old_b
      ]
    ];
  }

-- What an allocation for a terminal makes of the table.
pub record Allocated (mle : Mle) (issi : ℕ) (mle' : Mle) (r : Option ℕ) : Type 0 where
  pub table : IsTable mle'.sessions
  pub found :
      (i : ℕ)
      → r ≡ some i
      → (mle_session_lookup mle' issi ≡ some i) × Holds mle'.sessions i (mask_24 issi)
  pub full : r ≡ none → (mle' ≡ mle) × ((i : ℕ) → i < session_max → (session mle i).in_use ≡ true)
  pub fresh :
      (i : ℕ)
      → mle_session_lookup mle issi ≡ none
      → r ≡ some i
      → session mle' i ≡ fresh_session mle (mask_24 issi)
  pub others :
      (other : ℕ)
      → mask_24 other ≢ mask_24 issi
      → mle_session_lookup mle' other ≡ mle_session_lookup mle other

alloc_found :
    (mle : Mle) (issi i : ℕ)
    → mle_session_lookup mle issi ≡ some i
    → mle_session_alloc mle issi ≡ (mle, some i)
unfolding mle_session_alloc
alloc_found mle issi i e = rw (e, mle_session_alloc) refl

alloc_full :
    (mle : Mle) (issi : ℕ)
    → mle_session_lookup mle issi ≡ none
    → free_from mle.sessions 0 ≡ none
    → mle_session_alloc mle issi ≡ (mle, none)
unfolding mle_session_alloc
alloc_full mle issi e f = rw (e, mle_session_alloc) (rw (f, mle_session_alloc) refl)

alloc_new :
    (mle : Mle) (issi j : ℕ)
    → mle_session_lookup mle issi ≡ none
    → free_from mle.sessions 0 ≡ some j
    → mle_session_alloc mle issi ≡ (put_session mle j (fresh_session mle (mask_24 issi)), some j)
unfolding mle_session_alloc
alloc_new mle issi j e f = rw (e, mle_session_alloc) (rw (f, mle_session_alloc) refl)

-- The lookups of all other terminals are as they were.
others_kept :
    (ss : List MleSession) (j : ℕ) (s : MleSession) (other : ℕ)
    → IsTable ss
    → IsTable (set ss j s)
    → j < length ss
    → (get_or ss j zero_session).in_use ≡ false
    → other ≢ s.issi
    → lookup_from (set ss j s) 0 other ≡ lookup_from ss 0 other
others_kept ss j s other v v' lt free ne = elim (lookup_from_lem ss 0 other) [
  | inr (k, at, holds) ↦
      lookup-Holds (set ss j s) k other v' (Holds-set_kept ss j s lt free k other holds)
      ∙ sym (lookup-Holds ss k other v holds)
  | inl (nil, no_one) ↦
      lookup-none (set ss j s) other (λ k h. elim (Holds-set ss j s lt k other h) [
        | inl (_, e) ↦ absurd (ne e)
        | inr old ↦ absurd (no_one k old)
      ])
      ∙ sym nil
]

some-injective : (i j : ℕ) → some i ≡ some j → i ≡ j
some-injective i j e = cc

none-ne-some : (i : ℕ) → none ≢ some i
none-ne-some i e = cc

-- An allocation keeps the table well-formed. The session that it returns is the terminal's, and a
-- lookup finds it from then on; it is a fresh one if the terminal had none. Without a result the
-- table is full and nothing changed. What every other terminal has is as before.
pub mle_session_alloc_lem :
    (mle : Mle) (issi : ℕ)
    → IsTable mle.sessions
    → Allocated mle issi (mle_session_alloc mle issi).0 (mle_session_alloc mle issi).1
unfolding mle_session_lookup
mle_session_alloc_lem mle issi v = elim (lookup_from_lem mle.sessions 0 (mask_24 issi)) [
  | inr (i, at, holds) ↦
      let here = lookup-Holds mle.sessions i (mask_24 issi) v holds in
      rw (alloc_found mle issi i here) (record {
        table = v;
        found = λ k e. (
          here ∙ e,
          subst (λ x. Holds mle.sessions x (mask_24 issi)) (some-injective i k e) holds,
        );
        full = λ e. absurd (none-ne-some i (sym e));
        fresh = λ k unknown e. absurd (none-ne-some i (sym unknown ∙ here));
        others = λ other ne. refl;
      })
  | inl (nil, no_one) ↦ elim (free_from_lem mle.sessions 0) [
    | inl (no_free, all) ↦ rw (alloc_full mle issi nil no_free) (record {
      table = v;
      found = λ k e. absurd (none-ne-some k e);
      full = λ e. (refl, λ i lt. all i (omega (arith, v.size)));
      fresh = λ k unknown e. absurd (none-ne-some k e);
      others = λ other ne. refl;
    })
    | inr (j, at, lt, free) ↦
        let s = fresh_session mle (mask_24 issi) in
        let v' = set-IsTable mle.sessions j s lt v (omega arith) no_one in
        let holds = Holds-set_self mle.sessions j s lt refl in
        let found_at : free_from mle.sessions 0 ≡ some j = at ∙ ap some (omega arith) in
        rw (alloc_new mle issi j nil found_at) (record {
          table = v';
          found = λ k e.
              let same = some-injective j k e in
              (
                lookup-Holds (set mle.sessions j s) j (mask_24 issi) v' holds ∙ e,
                subst (λ x. Holds (set mle.sessions j s) x (mask_24 issi)) same holds,
              );
          full = λ e. absurd (none-ne-some j (sym e));
          fresh = λ k unknown e.
              ap (λ x. get_or (set mle.sessions j s) x zero_session) (sym (some-injective j k e))
              ∙ get_or-set_self mle.sessions j s zero_session lt;
          others = λ other ne. others_kept mle.sessions j s (mask_24 other) v v' lt free ne;
        })
  ]
]

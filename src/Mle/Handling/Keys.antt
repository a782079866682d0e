-- ===== src/Mle/Handling/Keys.antt =====
-- The handlers of the MLE write into sessions, but never into whose they are.
use tetra_bs.Prelude.{
  ℕ, ◌<◌, ◌≡◌, inl, inr, refl, sym, ap, ◌∙◌, Bool, false, Option, none, some, List, get_or, set,
  length, length-set, get_or-set_self, get_or-set_ne, Result, ok, err, ◌==◌, arith, Bool-cases,
}
use tetra_bs.Persistence.Profile.{Profile}
use tetra_bs.Persistence.Db.{Entity, SubscriberDb, db_lookup_entity, db_get_entity, db_get_profile}
use tetra_bs.Mle.{
  Mle, MleSession, zero_session, refresh_session_from_db, maybe_auto_enroll, with_entity,
  with_profile,
}
use tetra_bs.Mle.Sessions.{IsTable, Holds}

-- Two tables whose sessions are in use for the same terminals.
pub record SameKeys (a b : List MleSession) : Type 0 where
  pub size : length b ≡ length a
  pub in_use : (k : ℕ) → (get_or b k zero_session).in_use ≡ (get_or a k zero_session).in_use
  pub issi : (k : ℕ) → (get_or b k zero_session).issi ≡ (get_or a k zero_session).issi

pub SameKeys-refl : (a : List MleSession) → SameKeys a a
SameKeys-refl a = record { size = refl; in_use = λ k. refl; issi = λ k. refl }

pub SameKeys-trans : (a b c : List MleSession) → SameKeys a b → SameKeys b c → SameKeys a c
SameKeys-trans a b c g h = record {
  size = h.size ∙ g.size;
  in_use = λ k. h.in_use k ∙ g.in_use k;
  issi = λ k. h.issi k ∙ g.issi k;
}

pub SameKeys-set :
    (ss : List MleSession) (i : ℕ) (s : MleSession)
    → i < length ss
    → s.in_use ≡ (get_or ss i zero_session).in_use
    → s.issi ≡ (get_or ss i zero_session).issi
    → SameKeys ss (set ss i s)
SameKeys-set ss i s lt used key = record {
  size = length-set ss i s;
  in_use = λ k. elim (Bool-cases (k == i)) [
    | inl same ↦
        let at : k ≡ i = ground arith in rw (at, get_or-set_self ss i s zero_session lt) used
    | inr other ↦
        ap (λ x. x.in_use) (get_or-set_ne ss {i = i} {j = k} s zero_session (λ e. ground arith))
  ];
  issi = λ k. elim (Bool-cases (k == i)) [
    | inl same ↦
        let at : k ≡ i = ground arith in rw (at, get_or-set_self ss i s zero_session lt) key
    | inr other ↦
        ap (λ x. x.issi) (get_or-set_ne ss {i = i} {j = k} s zero_session (λ e. ground arith))
  ];
}

pub Holds-SameKeys :
    (a b : List MleSession) (k issi : ℕ) → SameKeys a b → Holds b k issi → Holds a k issi
Holds-SameKeys a b k issi same h =
    (omega (arith, h.0, same.size), sym (same.in_use k) ∙ h.1, sym (same.issi k) ∙ h.2)

pub IsTable-SameKeys : (a b : List MleSession) → SameKeys a b → IsTable a → IsTable b
IsTable-SameKeys a b same v = record {
  size = same.size ∙ v.size;
  masked = λ k. omega (arith, same.issi k, v.masked k);
  unique = λ i j issi h g.
      v.unique i j issi (Holds-SameKeys a b i issi same h) (Holds-SameKeys a b j issi same g);
}

-- The refresh from the database writes the two GILA fields only.
pub record Refreshed (s t : MleSession) : Type 0 where
  pub in_use : t.in_use ≡ s.in_use
  pub issi : t.issi ≡ s.issi
  pub endpoint : t.endpoint ≡ s.endpoint
  pub state : t.state ≡ s.state

Refreshed-refl : (s : MleSession) → Refreshed s s
Refreshed-refl s = record { in_use = refl; issi = refl; endpoint = refl; state = refl }

with_profile-Refreshed : (s : MleSession) (r : Result Profile) → Refreshed s (with_profile s r).0
with_profile-Refreshed s (err e) = Refreshed-refl s
with_profile-Refreshed s (ok p) = elim (Bool-cases p.valid) [
  | inl e ↦ rw e (record { in_use = refl; issi = refl; endpoint = refl; state = refl })
  | inr e ↦ rw e (Refreshed-refl s)
]

with_entity-Refreshed :
    (db : SubscriberDb) (s : MleSession) (r : Result Entity) → Refreshed s (with_entity db s r).0
with_entity-Refreshed db s (err e) = Refreshed-refl s
with_entity-Refreshed db s (ok x) = elim (Bool-cases x.valid) [
  | inl e ↦ rw e (with_profile-Refreshed s (db_get_profile db x.profile_id))
  | inr e ↦ rw e (Refreshed-refl s)
]

pub refresh_session_from_db-Refreshed :
    (db : Option SubscriberDb) (s : MleSession) → Refreshed s (refresh_session_from_db db s).0
unfolding refresh_session_from_db
refresh_session_from_db-Refreshed none s = Refreshed-refl s
refresh_session_from_db-Refreshed (some db) s = by_lookup (db_lookup_entity db s.issi)
  where
    by_lookup :
        (r : Result ℕ)
        → Refreshed s
            (elim r as (λ _. MleSession × Bool) [
              | err e ↦ (s, false)
              | ok idx ↦ with_entity db s (db_get_entity db idx)
            ]).0
    by_lookup (err e) = Refreshed-refl s
    by_lookup (ok idx) = with_entity-Refreshed db s (db_get_entity db idx)

-- The enrolment leaves the sessions alone.
pub maybe_auto_enroll_sessions :
    (mle : Mle) (issi : ℕ) → (maybe_auto_enroll mle issi).0.sessions ≡ mle.sessions
unfolding maybe_auto_enroll
maybe_auto_enroll_sessions mle issi = ground arith

-- ===== src/Mle/Enrolment.antt =====
-- The enrolment of unknown terminals in the subscriber database: `maybe_auto_enroll`.
use tetra_bs.Prelude.{
  ℕ, zero, suc, ◌+◌, ◌%◌, ◌^◌, ◌≤◌, ◌<◌, ◌≡◌, ◌⊎◌, inl, inr, refl, ap, ◌∙◌, Bool, true, false, some,
  get_or, set, get_or-set_self, Result, ok, err, enoent, leb, arith, Bool-cases,
}
use tetra_bs.Persistence.Db.{
  Entity, SubscriberDb, zero_entity, entity_count, profile_count, db_get_entity, db_put_entity,
  db_lookup_entity,
}
use tetra_bs.Persistence.Db.Tables.{
  IsDb, IsEntity, put_entity_result, db_put_entity-IsDb, db_lookup_entity_lem,
}
use tetra_bs.Mle.{
  Mle, mask_24, enroll_from, enrolled_entity, enroll_in, maybe_auto_enroll, count_lookup_failed,
}

abbrev pub IsFull : SubscriberDb → Type 0
IsFull db = (j : ℕ) → j < entity_count → (get_or db.entities j zero_entity).valid ≡ true

db_get_entity_inside :
    (db : SubscriberDb) (i : ℕ)
    → IsDb db
    → i < entity_count
    → db_get_entity db i ≡ ok (get_or db.entities i zero_entity)
unfolding db_get_entity
db_get_entity_inside db i v lt = ground (arith, v.opened)

-- The loop puts the entity at the first index that holds no valid one, if there is such an index.
enroll_from_lem :
    (fuel i : ℕ) (db : SubscriberDb) (e : Entity)
    → IsDb db
    → i + fuel ≡ entity_count
    → ((enroll_from fuel i db e ≡ (db, false))
        × ((j : ℕ) → i ≤ j → j < entity_count → (get_or db.entities j zero_entity).valid ≡ true))
      ⊎ ((j : ℕ) × (j < entity_count)
          × ((get_or db.entities j zero_entity).valid ≡ false)
          × (enroll_from fuel i db e ≡ ((db_put_entity db j e).0, true)))
unfolding enroll_from
enroll_from_lem zero i db e v n = inl (refl, λ j lo hi. absurd (omega arith))
enroll_from_lem (suc fuel) i db e v n =
    let got = db_get_entity_inside db i v (omega arith) in
    elim (Bool-cases (get_or db.entities i zero_entity).valid) [
      | inr free ↦ inr (i, omega arith, free, rw (got, enroll_from) (rw free refl))
      | inl used ↦
          let skip : enroll_from (suc fuel) i db e ≡ enroll_from fuel (i + 1) db e =
            rw (got, enroll_from) (rw used refl) in
          elim (enroll_from_lem fuel (i + 1) db e v (omega arith)) [
            | inl (nil, full) ↦ inl (skip ∙ nil, all_used full used)
            | inr (j, lt, free, put) ↦ inr (j, lt, free, skip ∙ put)
          ]
    ]
  where
    all_used :
        ((j : ℕ) → i + 1 ≤ j → j < entity_count → (get_or db.entities j zero_entity).valid ≡ true)
        → (get_or db.entities i zero_entity).valid ≡ true
        → (j : ℕ) → i ≤ j
        → j < entity_count
        → (get_or db.entities j zero_entity).valid ≡ true
    all_used full used j lo hi = elim (Bool-cases (leb j i)) [
      | inl low ↦ let at : j ≡ i = ground arith in rw at used
      | inr high ↦ full j (ground arith) hi
    ]

-- A valid entity that was put stands in its slot, and is found by its number.
lookup_put :
    (db : SubscriberDb) (j : ℕ) (e : Entity)
    → IsDb db
    → IsEntity e
    → e.valid ≡ true
    → j < entity_count
    → ((db_put_entity db j e).0 ≡ record db { entities = set db.entities j e })
      × (idx : ℕ) × (db_lookup_entity (db_put_entity db j e).0 e.entity_id ≡ ok idx)
lookup_put db j e v good valid lt = elim (put_entity_result db j e v.opened) [
  | inr (bad, _) ↦ absurd (bad (lt, good))
  | inl (_, _, done) ↦
      let at : (db_put_entity db j e).0.entities ≡ set db.entities j e =
        ap (λ r. r.0.entities) done in
      let slot : get_or (db_put_entity db j e).0.entities j zero_entity ≡ e =
        ap (λ l. get_or l j zero_entity) at
        ∙ get_or-set_self db.entities j e zero_entity (omega (arith, v.entities)) in
      elim (db_lookup_entity_lem (db_put_entity db j e).0 e.entity_id
        (db_put_entity-IsDb db j e v)) [
          | inl (i, found, _, _, _, _) ↦ (ap (λ r. r.0) done, i, found)
          | inr (_, nowhere) ↦
              absurd (nowhere j (ap (λ x. x.valid) slot ∙ valid) (ap (λ x. x.entity_id) slot))
        ]
]

-- The entity that stands for an unknown terminal: the low 24 bits of its number, type 0 and the
-- default profile.
abbrev pub newcomer : ℕ → ℕ → Entity
newcomer issi profile = record {
  entity_id = issi % 2 ^ 24;
  entity_type = 0;
  profile_id = profile;
  reserved34 = 0;
  valid = true;
}

-- `db'` is `db` with the terminal put into a slot that held no valid entity.
abbrev pub PutIntoFree : SubscriberDb → ℕ → ℕ → SubscriberDb → Type 0
PutIntoFree db issi profile db' =
    (j : ℕ) × (j < entity_count)
    × ((get_or db.entities j zero_entity).valid ≡ false)
    × (db' ≡ record db { entities = set db.entities j (newcomer issi profile) })

-- What the enrolment of a terminal comes to. It was known: nothing changed. Or it was unknown,
-- unknown terminals are accepted and a slot was free: it was put there, and is found from now on.
-- Or it was unknown, and unknown terminals are refused or the table is full: nothing changed.
pub record Enrolled (mle : Mle) (db : SubscriberDb) (issi : ℕ) (mle' : Mle) (r : Bool)
    : Type 0 where
  pub db' : SubscriberDb
  pub here : mle'.db ≡ some db'
  pub valid : IsDb db'
  pub sessions : mle'.sessions ≡ mle.sessions
  pub outcome :
      ((r ≡ true) × (db' ≡ db) × ((idx : ℕ) × (db_lookup_entity db (mask_24 issi) ≡ ok idx)))
      ⊎ ((r ≡ true)
          × (db_lookup_entity db (mask_24 issi) ≡ err enoent)
          × (mle.cfg.accept_unknown ≡ true)
          × PutIntoFree db issi mle.cfg.default_profile_id db'
          × ((idx : ℕ) × (db_lookup_entity db' (mask_24 issi) ≡ ok idx)))
      ⊎ ((r ≡ false)
          × (db' ≡ db)
          × (db_lookup_entity db (mask_24 issi) ≡ err enoent)
          × ((mle.cfg.accept_unknown ≡ false) ⊎ IsFull db))

enroll_at :
    (mle : Mle) (db : SubscriberDb) (issi : ℕ) (r : Result ℕ)
    → mle.db ≡ some db
    → db_lookup_entity db (mask_24 issi) ≡ r
    → maybe_auto_enroll mle issi ≡ enroll_in mle db issi r
unfolding maybe_auto_enroll
enroll_at mle db issi r e f = ground (arith, e, f)

refused_at :
    (mle : Mle) (db : SubscriberDb) (issi : ℕ)
    → mle.cfg.accept_unknown ≡ false
    → enroll_in mle db issi (err enoent) ≡ (count_lookup_failed mle, false)
refused_at mle db issi e = ground (arith, e)

accepted_at :
    (mle : Mle) (db : SubscriberDb) (issi : ℕ) (r : SubscriberDb × Bool)
    → mle.cfg.accept_unknown ≡ true
    → enroll_from entity_count 0 db (enrolled_entity mle.cfg issi) ≡ r
    → enroll_in mle db issi (err enoent) ≡ (record mle { db = some r.0 }, r.1)
accepted_at mle db issi r e f = ground (arith, e, f)

-- With a well-formed database and a default profile that exists, the enrolment keeps the database
-- well-formed and the sessions as they are. A terminal that is in the database gets true and changes
-- nothing. One that is not, while unknown terminals are accepted and a slot holds no valid entity,
-- gets true; the entity with its 24-bit number, type 0 and the default profile is put into such a
-- slot, nothing else of the database changes, and the number is found from then on. One that is
-- not, while unknown terminals are refused or every slot holds a valid entity, gets false and
-- changes nothing in the database.
pub maybe_auto_enroll_lem :
    (mle : Mle) (db : SubscriberDb) (issi : ℕ)
    → mle.db ≡ some db
    → IsDb db
    → mle.cfg.default_profile_id < profile_count
    → Enrolled mle db issi (maybe_auto_enroll mle issi).0 (maybe_auto_enroll mle issi).1
maybe_auto_enroll_lem mle db issi at v small = elim (db_lookup_entity_lem db (mask_24 issi) v) [
  | inl (idx, known, _, _, _, _) ↦ rw (enroll_at mle db issi _ at known) (record {
    db' = db;
    here = at;
    valid = v;
    sessions = refl;
    outcome = inl (refl, refl, (idx, known));
  })
  | inr (unknown, _) ↦
      rw (enroll_at mle db issi _ at unknown) (elim (Bool-cases mle.cfg.accept_unknown) [
        | inr no_one ↦ rw (refused_at mle db issi no_one) (record {
          db' = db;
          here = at;
          valid = v;
          sessions = refl;
          outcome = inr (inr (refl, refl, unknown, inl no_one));
        })
        | inl all ↦
            let e = enrolled_entity mle.cfg issi in
            let good : IsEntity e = record {
              id = omega arith;
              kind = omega arith;
              profile = small;
            } in
            elim (enroll_from_lem entity_count 0 db e v refl) [
              | inl (nil, full) ↦ rw (accepted_at mle db issi _ all nil) (record {
                db' = db;
                here = refl;
                valid = v;
                sessions = refl;
                outcome = inr (inr (refl, refl, unknown, inr (λ j lt. full j (omega arith) lt)));
              })
              | inr (j, lt, free, put) ↦
                  let (done, idx, found) = lookup_put db j e v good refl lt in
                  rw (accepted_at mle db issi _ all put) (record {
                    db' = (db_put_entity db j e).0;
                    here = refl;
                    valid = db_put_entity-IsDb db j e v;
                    sessions = refl;
                    outcome = inr (inl (refl, unknown, all, (j, lt, free, done), (idx, found)));
                  })
            ]
      ])
]

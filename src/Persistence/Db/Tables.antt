-- ===== src/Persistence/Db/Tables.antt =====
-- The tables of an open database, and what the accessors keep and return.
use tetra_bs.Prelude.{
  ℕ, zero, suc, ◌+◌, ◌≤◌, ◌<◌, ◌≡◌, ◌≢◌, ◌⊎◌, inl, inr, refl, sym, ◌∙◌, true, false, ◌&&◌, none,
  some, List, [], ◌∷◌, get_or, set, length, length-set, get_or-set_self, get_or-set_ne, ◌==◌, ok,
  err, einval, eperm, enoent, arith, Bool-cases, Option-cases, All, All-set, All-replicate,
}
use tetra_bs.Persistence.Profile.{Profile}
use tetra_bs.Persistence.Db.{
  Entity, SubscriberDb, zero_profile, zero_entity, profile0, profile_count, entity_count,
  db_init_empty, db_get_profile, db_put_profile, db_get_entity, db_put_entity, db_lookup_entity,
  lookup_from,
}

-- The limits that `db_put_entity` checks.
pub record IsEntity (e : Entity) : Type 0 where
  pub id : e.entity_id < 0x1000000
  pub kind : e.entity_type ≤ 1
  pub profile : e.profile_id < profile_count

pub record IsDb (db : SubscriberDb) : Type 0 where
  pub opened : db.opened ≡ true
  pub profiles : length db.profiles ≡ profile_count
  pub entities : length db.entities ≡ entity_count
  pub guard : get_or db.profiles 0 zero_profile ≡ profile0
  pub each : All IsEntity db.entities

pub db_init_empty-IsDb : IsDb db_init_empty
unfolding db_init_empty
db_init_empty-IsDb = record {
  opened = refl;
  profiles = refl;
  entities = refl;
  guard = refl;
  each =
      All-replicate IsEntity entity_count zero_entity
        (record { id = omega arith; kind = omega arith; profile = omega arith });
}

put_profile_result :
    (db : SubscriberDb) (id : ℕ) (p : Profile)
    → db.opened ≡ true
    → ((id ≢ 0)
        × (id < profile_count)
        × (db_put_profile db id p ≡ (record db { profiles = set db.profiles id p }, ok tt)))
      ⊎ ((id ≡ 0) × (db_put_profile db id p ≡ (db, err eperm)))
      ⊎ ((profile_count ≤ id) × (db_put_profile db id p ≡ (db, err einval)))
unfolding db_put_profile
put_profile_result db id p o = ground arith

pub put_entity_result :
    (db : SubscriberDb) (idx : ℕ) (e : Entity)
    → db.opened ≡ true
    → ((idx < entity_count)
        × IsEntity e
        × (db_put_entity db idx e ≡ (record db { entities = set db.entities idx e }, ok tt)))
      ⊎ (¬ ((idx < entity_count) × IsEntity e) × (db_put_entity db idx e ≡ (db, err einval)))
unfolding db_put_entity
put_entity_result db idx e o = ground arith

put_profile_cases :
    (db : SubscriberDb) (id : ℕ) (p : Profile)
    → ((db_put_profile db id p).0 ≡ db)
      ⊎ ((id ≢ 0) × ((db_put_profile db id p).0 ≡ record db { profiles = set db.profiles id p }))
unfolding db_put_profile
put_profile_cases db id p = ground arith

-- Whatever is put under whatever number, the database stays well-formed; in particular profile 0
-- keeps its value.
pub db_put_profile-IsDb :
    (db : SubscriberDb) (id : ℕ) (p : Profile) → IsDb db → IsDb (db_put_profile db id p).0
db_put_profile-IsDb db id p v = elim (put_profile_cases db id p) [
  | inl same ↦ rw same v
  | inr (ne, e) ↦ rw e (record {
    opened = v.opened;
    profiles = length-set db.profiles id p ∙ v.profiles;
    entities = v.entities;
    guard = get_or-set_ne db.profiles {i = id} {j = 0} p zero_profile ne ∙ v.guard;
    each = v.each;
  })
]

put_entity_cases :
    (db : SubscriberDb) (idx : ℕ) (e : Entity)
    → ((db_put_entity db idx e).0 ≡ db)
      ⊎ (IsEntity e × ((db_put_entity db idx e).0 ≡ record db { entities = set db.entities idx e }))
unfolding db_put_entity
put_entity_cases db idx e = ground arith

-- Whatever is put at whatever index, the database stays well-formed: every entity respects the
-- limits of its fields.
pub db_put_entity-IsDb :
    (db : SubscriberDb) (idx : ℕ) (e : Entity) → IsDb db → IsDb (db_put_entity db idx e).0
db_put_entity-IsDb db idx e v = elim (put_entity_cases db idx e) [
  | inl same ↦ rw same v
  | inr (good, at) ↦ rw at (record {
    opened = v.opened;
    profiles = v.profiles;
    entities = length-set db.entities idx e ∙ v.entities;
    guard = v.guard;
    each = All-set IsEntity db.entities idx e v.each good;
  })
]

-- A profile other than 0 that is put is got back, and no other profile changes; profile 0 and the
-- numbers from 6 on are refused with -EPERM and -EINVAL, and nothing changes.
pub get-put_profile :
    (db : SubscriberDb) (id : ℕ) (p : Profile)
    → IsDb db
    → let (db', rc) = db_put_profile db id p in
      ((id ≢ 0)
        × (id < profile_count)
        × (rc ≡ ok tt)
        × (db_get_profile db' id ≡ ok p)
        × ((j : ℕ) → j ≢ id → db_get_profile db' j ≡ db_get_profile db j)
        × (db'.entities ≡ db.entities))
      ⊎ ((id ≡ 0) × (rc ≡ err eperm) × (db' ≡ db))
      ⊎ ((profile_count ≤ id) × (rc ≡ err einval) × (db' ≡ db))
unfolding db_get_profile
get-put_profile db id p v = elim (put_profile_result db id p v.opened) [
  | inl (ne, lt, e) ↦ rw e (
      inl (
        ne,
        lt,
        refl,
        ground (
          arith,
          v.opened,
          get_or-set_self db.profiles id p zero_profile (omega (arith, v.profiles)),
        ),
        λ j other.
            ground (
              arith,
              get_or-set_ne db.profiles {i = id} {j = j} p zero_profile (λ s. other (sym s)),
            ),
        refl,
      ))
  | inr (inl (z, e)) ↦ rw e (inr (inl (z, refl, refl)))
  | inr (inr (big, e)) ↦ rw e (inr (inr (big, refl, refl)))
]

-- An entity within the limits that is put at an index below 256 is got back, and no other index
-- changes; any other put is refused with -EINVAL and changes nothing.
pub get-put_entity :
    (db : SubscriberDb) (idx : ℕ) (e : Entity)
    → IsDb db
    → let (db', rc) = db_put_entity db idx e in
      ((idx < entity_count)
        × IsEntity e
        × (rc ≡ ok tt)
        × (db_get_entity db' idx ≡ ok e)
        × ((j : ℕ) → j ≢ idx → db_get_entity db' j ≡ db_get_entity db j)
        × (db'.profiles ≡ db.profiles))
      ⊎ (¬ ((idx < entity_count) × IsEntity e) × (rc ≡ err einval) × (db' ≡ db))
unfolding db_get_entity
get-put_entity db idx e v = elim (put_entity_result db idx e v.opened) [
  | inl (lt, good, done) ↦ rw done (
      inl (
        lt,
        good,
        refl,
        ground (
          arith,
          v.opened,
          get_or-set_self db.entities idx e zero_entity (omega (arith, v.entities)),
        ),
        λ j other.
            ground (
              arith,
              get_or-set_ne db.entities {i = idx} {j = j} e zero_entity (λ s. other (sym s)),
            ),
        refl,
      ))
  | inr (bad, refused) ↦ rw refused (inr (bad, refl, refl))
]

-- `lookup_from` finds the first valid entity of that number.
lookup_from-some :
    (es : List Entity) (i id : ℕ) {r : ℕ}
    → lookup_from es i id ≡ some r
    → (k : ℕ) × (r ≡ i + k)
      × (k < length es)
      × ((get_or es k zero_entity).valid ≡ true)
      × ((get_or es k zero_entity).entity_id ≡ id)
      × ((j : ℕ)
          → j < k
          → (get_or es j zero_entity).valid ≡ true
          → (get_or es j zero_entity).entity_id ≢ id)
unfolding lookup_from
lookup_from-some [] i id e = cc
lookup_from-some (x ∷ es) i id e = elim (Bool-cases (x.valid && x.entity_id == id)) [
  | inl hit ↦
      (0, ground arith, omega arith, ground arith, ground arith, λ j lt. absurd (omega arith))
  | inr miss ↦
      let (k, at, lt, ok_valid, same, before) = lookup_from-some es (i + 1) id (rw miss at e) in
      (suc k, omega arith, omega arith, ok_valid, same, later x es k miss before)
]
  where
    later :
        (x : Entity) (es : List Entity) (k : ℕ)
        → (x.valid && x.entity_id == id) ≡ false
        → ((j : ℕ)
            → j < k
            → (get_or es j zero_entity).valid ≡ true
            → (get_or es j zero_entity).entity_id ≢ id)
        → (j : ℕ) → j < suc k
        → (get_or (x ∷ es) j zero_entity).valid ≡ true
        → (get_or (x ∷ es) j zero_entity).entity_id ≢ id
    later x es k miss before zero lt good = ground arith
    later x es k miss before (suc j) lt good = before j (omega arith) good

lookup_from-none :
    (es : List Entity) (i id : ℕ)
    → lookup_from es i id ≡ none
    → (j : ℕ) → (get_or es j zero_entity).valid ≡ true
    → (get_or es j zero_entity).entity_id ≢ id
unfolding lookup_from
lookup_from-none [] i id e j good = cc
lookup_from-none (x ∷ es) i id e zero good = ground arith
lookup_from-none (x ∷ es) i id e (suc j) good = lookup_from-none es (i + 1) id (ground arith) j good

-- A lookup returns the first index that holds a valid entity of that number, and -ENOENT exactly
-- when there is none.
pub db_lookup_entity_lem :
    (db : SubscriberDb) (id : ℕ)
    → IsDb db
    → ((i : ℕ) × (db_lookup_entity db id ≡ ok i)
        × (i < entity_count)
        × ((get_or db.entities i zero_entity).valid ≡ true)
        × ((get_or db.entities i zero_entity).entity_id ≡ id)
        × ((j : ℕ)
            → j < i
            → (get_or db.entities j zero_entity).valid ≡ true
            → (get_or db.entities j zero_entity).entity_id ≢ id))
      ⊎ ((db_lookup_entity db id ≡ err enoent)
          × ((j : ℕ)
              → (get_or db.entities j zero_entity).valid ≡ true
              → (get_or db.entities j zero_entity).entity_id ≢ id))
unfolding db_lookup_entity
db_lookup_entity_lem db id v = elim (Option-cases (lookup_from db.entities 0 id)) [
  | inl missing ↦ inr (ground arith, lookup_from-none db.entities 0 id missing)
  | inr (r, found) ↦
      let (k, at, lt, good, same, before) = lookup_from-some db.entities 0 id found in
      inl (k, ground arith, omega (arith, v.entities), good, same, before)
]

-- ===== src/Persistence/Db.antt =====
-- `Entity` and `SubscriberDb` of sw/persistence/include/tetra/db.h, and the accessors of
-- sw/persistence/src/db.c. The path of the database is in `StoredDb` of Store.
pub mod Tables
use tetra_bs.Prelude.{
  ℕ, zero, suc, ◌+◌, ◌-◌, Bool, true, false, not, ◌&&◌, ◌||◌, Option, none, some, List, [], ◌∷◌,
  get_or, set, replicate, ltb, leb, ◌==◌, if◌then◌else◌, Result, ok, err, einval, eperm, enoent,
}
use tetra_bs.Persistence.Profile.{Profile, profile_unpack, profile0_bits}

abbrev pub profile_count : ℕ
profile_count = 6

abbrev pub entity_count : ℕ
entity_count = 256

pub record Entity : Type 0 where
  pub entity_id : ℕ
  pub entity_type : ℕ
  pub profile_id : ℕ
  pub reserved34 : ℕ
  pub valid : Bool

pub record SubscriberDb : Type 0 where
  pub profiles : List Profile
  pub entities : List Entity
  pub opened : Bool

abbrev pub zero_profile : Profile
zero_profile = record {
  max_call_duration = 0;
  hangtime = 0;
  priority = 0;
  gila_class = 0;
  gila_lifetime = 0;
  reserved3 = 0;
  permit_voice = false;
  permit_data = false;
  permit_reg = false;
  valid = false;
}

abbrev pub zero_entity : Entity
zero_entity = record {
  entity_id = 0;
  entity_type = 0;
  profile_id = 0;
  reserved34 = 0;
  valid = false;
}

abbrev pub profile0 : Profile
profile0 = profile_unpack profile0_bits

-- `memset(db, 0, sizeof(*db))`
unfoldable pub db_zero : SubscriberDb
db_zero = record {
  profiles = replicate profile_count zero_profile;
  entities = replicate entity_count zero_entity;
  opened = false;
}

unfoldable pub db_init_empty : SubscriberDb
db_init_empty = record {
  profiles = set (replicate profile_count zero_profile) 0 profile0;
  entities = replicate entity_count zero_entity;
  opened = true;
}

unfoldable pub db_get_profile : SubscriberDb → ℕ → Result Profile
db_get_profile db id =
    if not db.opened
    then err einval
    else if leb profile_count id
    then err einval
    else ok (get_or db.profiles id zero_profile)

unfoldable pub db_put_profile : SubscriberDb → ℕ → Profile → SubscriberDb × Result (Unit {0})
db_put_profile db id p =
    if not db.opened
    then (db, err einval)
    else if leb profile_count id
    then (db, err einval)
    else if id == 0
    then (db, err eperm)
    else (record db { profiles = set db.profiles id p }, ok tt)

unfoldable pub db_get_entity : SubscriberDb → ℕ → Result Entity
db_get_entity db idx =
    if not db.opened
    then err einval
    else if leb entity_count idx
    then err einval
    else ok (get_or db.entities idx zero_entity)

-- `(e->entity_id & ~0x00FFFFFF) != 0` on 32 bits: a bit from 24 on is set.
unfoldable pub db_put_entity : SubscriberDb → ℕ → Entity → SubscriberDb × Result (Unit {0})
db_put_entity db idx e =
    if not db.opened
    then (db, err einval)
    else if leb entity_count idx
    then (db, err einval)
    else if leb profile_count e.profile_id
    then (db, err einval)
    else if ltb 1 e.entity_type
    then (db, err einval)
    else if leb 0x1000000 e.entity_id
    then (db, err einval)
    else (record db { entities = set db.entities idx e }, ok tt)

-- The loop of `db_lookup_entity`, from index `i` on.
unfoldable pub lookup_from : List Entity → ℕ → ℕ → Option ℕ
lookup_from [] i entity_id = none
lookup_from (e ∷ es) i entity_id =
    let rest = lookup_from es (i + 1) entity_id in
    if e.valid && e.entity_id == entity_id then some i else rest

unfoldable pub db_lookup_entity : SubscriberDb → ℕ → Result ℕ
unfolding lookup_from
db_lookup_entity db entity_id =
    if not db.opened
    then err einval
    else elim (lookup_from db.entities 0 entity_id) [ none ↦ err enoent | some i ↦ ok i ]

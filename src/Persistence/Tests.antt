-- ===== src/Persistence/Tests.antt =====
-- The theorems about sw/persistence at concrete inputs.
mod Saving
use Prim.Native.String.{String}
use tetra_bs.Prelude.{
  ℕ, ◌^◌, ◌<◌, ◌≡◌, ◌≢◌, ◌≤◌, ◌⊎◌, refl, ap, Bool, true, false, Option, some, none, List, [], ◌∷◌,
  get_elem?, get_or, replicate, All, All-replicate, ok, err, einval, eperm, enoent, arith,
}
use tetra_bs.Persistence.Profile.{Profile, profile_pack, profile_unpack}
use tetra_bs.Persistence.Profile.Packing.{IsProfile, unpack-pack, pack-unpack}
use tetra_bs.Persistence.Db.{
  Entity, SubscriberDb, zero_profile, zero_entity, profile0, profile_count, entity_count,
  db_get_profile, db_put_profile, db_get_entity, db_put_entity, db_lookup_entity,
}
use tetra_bs.Persistence.Db.Tables.{
  IsEntity, IsDb, db_put_profile-IsDb, db_put_entity-IsDb, get-put_profile, get-put_entity,
  db_lookup_entity_lem,
}
use tetra_bs.Persistence.Json.{ℤ, member, Jansson, db_load_json, db_dump_json}
use tetra_bs.Persistence.Json.Load.{IsStored}
use tetra_bs.Persistence.Json.RoundTrip.{IsSavable, load-dump, load-dump_negative}

abbrev short_calls : Profile
short_calls = record {
  max_call_duration = 60;
  hangtime = 5;
  priority = 3;
  gila_class = 4;
  gila_lifetime = 1;
  reserved3 = 0;
  permit_voice = true;
  permit_data = false;
  permit_reg = true;
  valid = true;
}

abbrev long_calls : Profile
long_calls = record short_calls { max_call_duration = 200 }

short_calls-IsProfile : IsProfile short_calls
short_calls-IsProfile = record {
  max_call_duration = omega arith;
  hangtime = omega arith;
  priority = omega arith;
  gila_class = omega arith;
  gila_lifetime = omega arith;
  reserved3 = omega arith;
}

long_calls-IsProfile : IsProfile long_calls
long_calls-IsProfile = record {
  max_call_duration = omega arith;
  hangtime = omega arith;
  priority = omega arith;
  gila_class = omega arith;
  gila_lifetime = omega arith;
  reserved3 = omega arith;
}

abbrev radio : Entity
radio = record { entity_id = 0x1234; entity_type = 0; profile_id = 2; reserved34 = 7; valid = true }

abbrev pub demo_db : SubscriberDb
demo_db = record {
  profiles = profile0 ∷ short_calls ∷ replicate 4 zero_profile;
  entities = radio ∷ replicate 255 zero_entity;
  opened = true;
}

radio-IsEntity : IsEntity radio
radio-IsEntity = record { id = omega arith; kind = omega arith; profile = omega arith }

zero_entity-IsEntity : IsEntity zero_entity
zero_entity-IsEntity = record { id = omega arith; kind = omega arith; profile = omega arith }

pub demo_db-IsDb : IsDb demo_db
demo_db-IsDb = record {
  opened = refl;
  profiles = refl;
  entities = refl;
  guard = refl;
  each = (radio-IsEntity, All-replicate IsEntity 255 zero_entity zero_entity-IsEntity);
}

db_put_profile-IsDb_example : IsDb (db_put_profile demo_db 0 long_calls).0
db_put_profile-IsDb_example = db_put_profile-IsDb demo_db 0 long_calls demo_db-IsDb

get-put_entity_example :
    let (db', rc) = db_put_entity demo_db 9 radio in
    ((9 < entity_count)
      × IsEntity radio
      × (rc ≡ ok tt)
      × (db_get_entity db' 9 ≡ ok radio)
      × ((j : ℕ) → j ≢ 9 → db_get_entity db' j ≡ db_get_entity demo_db j)
      × (db'.profiles ≡ demo_db.profiles))
    ⊎ (¬ ((9 < entity_count) × IsEntity radio) × (rc ≡ err einval) × (db' ≡ demo_db))
get-put_entity_example = get-put_entity demo_db 9 radio demo_db-IsDb

db_lookup_entity_lem_example :
    ((i : ℕ) × (db_lookup_entity demo_db 0x1234 ≡ ok i)
      × (i < entity_count)
      × ((get_or demo_db.entities i zero_entity).valid ≡ true)
      × ((get_or demo_db.entities i zero_entity).entity_id ≡ 0x1234)
      × ((j : ℕ)
          → j < i
          → (get_or demo_db.entities j zero_entity).valid ≡ true
          → (get_or demo_db.entities j zero_entity).entity_id ≢ 0x1234))
    ⊎ ((db_lookup_entity demo_db 0x1234 ≡ err enoent)
        × ((j : ℕ)
            → (get_or demo_db.entities j zero_entity).valid ≡ true
            → (get_or demo_db.entities j zero_entity).entity_id ≢ 0x1234))
db_lookup_entity_lem_example = db_lookup_entity_lem demo_db 0x1234 demo_db-IsDb

-- A JSON library: values as trees, texts as values.
mutual
  data Json : Type 0 where
    obj : Members → Json
    arr : Elements → Json
    int : ℤ → Json
    bool : Bool → Json

  data Members : Type 0 where
    no_member : Members
    with_member : String → Json → Members → Members

  data Elements : Type 0 where
    no_element : Elements
    with_element : Json → Elements → Elements

abbrev members : List (String × Json) → Members
members [] = no_member
members ((k, v) ∷ m) = with_member k v (members m)

abbrev member_list : Members → List (String × Json)
member_list no_member = []
member_list (with_member k v m) = (k, v) ∷ member_list m

abbrev elements_of : List Json → Elements
elements_of [] = no_element
elements_of (j ∷ l) = with_element j (elements_of l)

abbrev element_list : Elements → List Json
element_list no_element = []
element_list (with_element j l) = j ∷ element_list l

member_list-members : (m : List (String × Json)) → member_list (members m) ≡ m
member_list-members [] = refl
member_list-members ((k, v) ∷ m) = ap (λ l. (k, v) ∷ l) (member_list-members m)

element_list-elements_of : (l : List Json) → element_list (elements_of l) ≡ l
element_list-elements_of [] = refl
element_list-elements_of (j ∷ l) = ap (λ r. j ∷ r) (element_list-elements_of l)

abbrev tree_is_object : Json → Bool
tree_is_object (obj m) = true
tree_is_object (arr l) = false
tree_is_object (int i) = false
tree_is_object (bool b) = false

abbrev tree_get : Json → String → Option Json
tree_get (obj m) k = member (member_list m) k
tree_get (arr l) k = none
tree_get (int i) k = none
tree_get (bool b) k = none

abbrev tree_elements : Json → Option (List Json)
tree_elements (obj m) = none
tree_elements (arr l) = some (element_list l)
tree_elements (int i) = none
tree_elements (bool b) = none

abbrev tree_integer : Json → Option ℤ
tree_integer (obj m) = none
tree_integer (arr l) = none
tree_integer (int i) = some i
tree_integer (bool b) = none

abbrev tree_boolean : Json → Option Bool
tree_boolean (obj m) = none
tree_boolean (arr l) = none
tree_boolean (int i) = none
tree_boolean (bool b) = some b

abbrev trees : Jansson
trees = record {
  J = Json;
  Symbol = Json;
  object = λ m. obj (members m);
  array = λ l. arr (elements_of l);
  integer = int;
  boolean = bool;
  is_object = tree_is_object;
  object_get = tree_get;
  elements = tree_elements;
  integer_value = tree_integer;
  boolean_value = tree_boolean;
  dumps = λ j. j ∷ [];
  load_text = λ text. get_elem? text 0;
  is_object-object = λ m. refl;
  object_get-object = λ m k. ap (λ l. member l k) (member_list-members m);
  elements-array = λ l. ap some (element_list-elements_of l);
  integer_value-integer = λ i h. refl;
  boolean_value-boolean = λ b. refl;
  load_text-dumps = λ j. refl;
}

zero_profile-IsProfile : IsProfile zero_profile
zero_profile-IsProfile = record {
  max_call_duration = omega arith;
  hangtime = omega arith;
  priority = omega arith;
  gila_class = omega arith;
  gila_lifetime = omega arith;
  reserved3 = omega arith;
}

profile0-IsProfile : IsProfile profile0
unfolding profile_unpack
profile0-IsProfile = record {
  max_call_duration = omega arith;
  hangtime = omega arith;
  priority = omega arith;
  gila_class = omega arith;
  gila_lifetime = omega arith;
  reserved3 = omega arith;
}

demo-IsSavable : All IsSavable demo_db.profiles
unfolding profile_pack profile_unpack
demo-IsSavable =
    let zero_savable : IsSavable zero_profile = record {
      widths = zero_profile-IsProfile;
      sign = omega arith;
    } in
    (
      record { widths = profile0-IsProfile; sign = omega arith },
      (
        record { widths = short_calls-IsProfile; sign = omega arith },
        All-replicate IsSavable 4 zero_profile zero_savable,
      ),
    )

demo-IsStored : All IsStored demo_db.entities
demo-IsStored = (
  record { limits = radio-IsEntity; reserve = omega arith },
  All-replicate IsStored 255 zero_entity
      (record { limits = zero_entity-IsEntity; reserve = omega arith }),
)

load-dump_example : db_load_json trees (db_dump_json trees demo_db) ≡ ok demo_db
load-dump_example = load-dump trees demo_db demo_db-IsDb demo-IsSavable demo-IsStored

-- A database whose profile 1 allows long calls
abbrev long_db : SubscriberDb
long_db = record demo_db { profiles = profile0 ∷ long_calls ∷ replicate 4 zero_profile }

long_db-IsDb : IsDb long_db
long_db-IsDb = record {
  opened = refl;
  profiles = refl;
  entities = refl;
  guard = refl;
  each = demo_db-IsDb.each;
}

long_word : 2 ^ 31 ≤ profile_pack (get_or long_db.profiles 1 zero_profile)
unfolding profile_pack
long_word = omega arith

long_widths : All IsProfile long_db.profiles
long_widths = (
  profile0-IsProfile,
  (long_calls-IsProfile, All-replicate IsProfile 4 zero_profile zero_profile-IsProfile),
)

load-dump_negative_example : db_load_json trees (db_dump_json trees long_db) ≡ err einval
load-dump_negative_example =
    load-dump_negative trees long_db 1 long_db-IsDb long_widths (omega arith) (omega arith)
      long_word

-- ===== src/Persistence/Json/Load.antt =====
-- What one dumped profile or entity loads as.
use Prim.Native.String.{String}
use tetra_bs.Prelude.{
  ℕ, ◌-◌, ◌^◌, ◌≤◌, ◌<◌, ◌≡◌, ◌≢◌, refl, ◌∙◌, ap, Bool, false, some, List, set, ◌==◌, if◌then◌else◌,
  ok, err, einval, arith,
}
use tetra_bs.Persistence.Profile.{Profile, profile_pack}
use tetra_bs.Persistence.Profile.Packing.{IsProfile, unpack-pack}
use tetra_bs.Persistence.Db.{Entity, SubscriberDb, profile_count, entity_count}
use tetra_bs.Persistence.Db.Tables.{IsEntity}
use tetra_bs.Persistence.Json.{
  ℤ, pos, negsuc, member, Jansson, to_int, to_json_int, json_get_uint, json_get_bool, load_profile,
  load_entity, dump_profile, dump_entity,
}

-- An entity as the database should hold it: within the limits, and 34 bits of reserve.
pub record IsStored (e : Entity) : Type 0 where
  pub limits : IsEntity e
  pub reserve : e.reserved34 < 2 ^ 34

module _ (lib : Jansson) where
  open lib use {
    J, object, array, integer, boolean, is_object, object_get, elements, integer_value,
    boolean_value, is_object-object, object_get-object, integer_value-integer,
    boolean_value-boolean,
  }

  pub get_uint :
      (m : List (String × J)) (key : String) (z : ℤ) (n limit : ℕ)
      → member m key ≡ some (integer z)
      → z ≡ pos n
      → n ≤ limit
      → n < 2 ^ 63
      → json_get_uint lib (object m) key limit ≡ ok n
  unfolding json_get_uint
  get_uint m key z n limit here nat le small =
      rw (object_get-object m key, here, nat, json_get_uint)
        (rw (integer_value-integer (pos n) small) (ground arith))

  -- A negative number is refused.
  pub get_uint_negative :
      (m : List (String × J)) (key : String) (z : ℤ) (n limit : ℕ)
      → member m key ≡ some (integer z)
      → z ≡ negsuc n
      → n < 2 ^ 63
      → json_get_uint lib (object m) key limit ≡ err einval
  unfolding json_get_uint
  get_uint_negative m key z n limit here neg small =
      rw (object_get-object m key, here, neg, json_get_uint)
        (rw (integer_value-integer (negsuc n) small) refl)

  get_bool :
      (m : List (String × J)) (key : String) (b : Bool)
      → member m key ≡ some (boolean b)
      → json_get_bool lib (object m) key ≡ ok b
  unfolding json_get_bool
  get_bool m key b here =
      rw (object_get-object m key, here, json_get_bool) (rw (boolean_value-boolean b) refl)

  pub to_int_small : (n : ℕ) → n < 2 ^ 31 → to_int n ≡ pos n
  to_int_small n h = ground arith

  -- A dumped profile other than 0 loads as itself, if its word is below 2 ^ 31.
  pub load_profile-dump :
      (db : SubscriberDb) (i : ℕ) (p : Profile)
      → i ≢ 0
      → i < profile_count
      → IsProfile p
      → profile_pack p < 2 ^ 31
      → load_profile lib db (dump_profile lib i p)
        ≡ ok (record db { profiles = set db.profiles i p })
  unfolding load_profile dump_profile
  load_profile-dump db i p ne lt v small =
      let word : (if i == 0 then 0x88f else profile_pack p) ≡ profile_pack p = ground arith in
      let nz : (i == 0) ≡ false = ground arith in
      rw
        (
          is_object-object _,
          get_uint _ "id" (to_int i) i (profile_count - 1) refl (to_int_small i (omega arith))
              (omega arith) (omega arith),
          get_uint _ "bits" (to_int (if i == 0 then 0x88f else profile_pack p)) (profile_pack p)
              0xffff_ffff refl (ap to_int word ∙ to_int_small _ small) (omega arith) (omega arith),
          nz,
          unpack-pack p v,
        )
        refl

  pub load_entity-dump :
      (db : SubscriberDb) (i : ℕ) (e : Entity)
      → i < entity_count
      → IsStored e
      → load_entity lib db (dump_entity lib i e) ≡ ok (record db { entities = set db.entities i e })
  unfolding load_entity dump_entity
  load_entity-dump db i e lt v =
      let reserve : to_json_int e.reserved34 ≡ pos e.reserved34 = ground (arith, v.reserve) in
      rw
        (
          is_object-object _,
          get_uint _ "idx" (to_int i) i (entity_count - 1) refl (to_int_small i (omega arith))
              (omega arith) (omega arith),
          get_uint _ "entity_id" (pos e.entity_id) e.entity_id 0xff_ffff refl refl
              (omega (arith, v.limits)) (omega (arith, v.limits)),
          get_uint _ "entity_type" (to_int e.entity_type) e.entity_type 1 refl
              (to_int_small _ (omega (arith, v.limits))) (omega (arith, v.limits))
              (omega (arith, v.limits)),
          get_uint _ "profile_id" (to_int e.profile_id) e.profile_id (profile_count - 1) refl
              (to_int_small _ (omega (arith, v.limits))) (omega (arith, v.limits))
              (omega (arith, v.limits)),
          get_uint _ "reserved" (to_json_int e.reserved34) e.reserved34 (2 ^ 34 - 1) refl reserve
              (omega (arith, v.reserve)) (omega (arith, v.reserve)),
          get_bool _ "valid" e.valid refl,
        )
        refl

  -- A profile whose word has bit 31 set is written as a negative number, and refused.
  pub load_profile_negative :
      (db : SubscriberDb) (i : ℕ) (p : Profile)
      → i ≢ 0
      → i < profile_count
      → 2 ^ 31 ≤ profile_pack p
      → profile_pack p < 2 ^ 32
      → load_profile lib db (dump_profile lib i p) ≡ err einval
  unfolding load_profile dump_profile
  load_profile_negative db i p ne lt large word32 =
      let word : (if i == 0 then 0x88f else profile_pack p) ≡ profile_pack p = ground arith in
      let neg : to_int (profile_pack p) ≡ negsuc (2 ^ 32 - 1 - profile_pack p) = ground arith in
      rw
        (
          is_object-object _,
          get_uint _ "id" (to_int i) i (profile_count - 1) refl (to_int_small i (omega arith))
              (omega arith) (omega arith),
          get_uint_negative _ "bits" (to_int (if i == 0 then 0x88f else profile_pack p))
              (2 ^ 32 - 1 - profile_pack p) 0xffff_ffff refl (ap to_int word ∙ neg) (omega arith),
        )
        refl

  -- Profile 0 of the file is skipped.
  pub load_profile_zero :
      (db : SubscriberDb) (p : Profile) → load_profile lib db (dump_profile lib 0 p) ≡ ok db
  unfolding load_profile dump_profile
  load_profile_zero db p =
      rw
        (
          is_object-object _,
          get_uint _ "id" (pos 0) 0 (profile_count - 1) refl refl (omega arith) (omega arith),
          get_uint _ "bits" (pos 0x88f) 0x88f 0xffff_ffff refl refl (omega arith) (omega arith),
        )
        refl

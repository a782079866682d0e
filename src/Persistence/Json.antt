-- ===== src/Persistence/Json.antt =====
-- The JSON form of the subscriber database: `json_get_uint`, `json_get_bool`, `db_load_json` and
-- `db_dump_json` of sw/persistence/src/db.c. The JSON library (jansson) is a parameter; that its
-- allocations succeed is taken for granted.
pub mod Load
pub mod RoundTrip
use Prim.Native.String.{String}
use text.Mathlib.Text.{◌==◌ as str_eq}
use tetra_bs.Prelude.{
  ℕ, zero, suc, ◌+◌, ◌-◌, ◌^◌, ◌<◌, ◌≡◌, Bool, true, false, not, ◌&&◌, Option, none, some, List, [],
  ◌∷◌, set, ltb, ◌==◌, if◌then◌else◌, Result, ok, err, einval, ◌>>=◌, ◌>>◌, fail_if,
}
use tetra_bs.Persistence.Profile.{Profile, profile_pack, profile_unpack, profile0_bits}
use tetra_bs.Persistence.Db.{Entity, SubscriberDb, profile_count, entity_count, db_init_empty}

-- `json_int_t`; `negsuc n` is -(n + 1).
pub data ℤ : Type 0 where
  pos : ℕ → ℤ
  negsuc : ℕ → ℤ

abbrev pub Int64 : ℤ → Type 0
Int64 (pos n) = n < 2 ^ 63
Int64 (negsuc n) = n < 2 ^ 63

-- the first value under a key
abbrev pub member {ℓ} : {A : Type ℓ} → List (String × A) → String → Option A
member [] k = none
member ((j, v) ∷ m) k = if str_eq j k then some v else member m k

-- What the code relies on of jansson: the accessors return what the constructors were given, and
-- a text that was dumped loads as what was dumped.
pub record Jansson : Type 1 where
  pub J : Type 0
  pub Symbol : Type 0
  pub object : List (String × J) → J
  pub array : List J → J
  pub integer : ℤ → J
  pub boolean : Bool → J
  pub is_object : J → Bool
  pub object_get : J → String → Option J
  pub elements : J → Option (List J)
  pub integer_value : J → Option ℤ
  pub boolean_value : J → Option Bool
  pub dumps : J → List Symbol
  pub load_text : List Symbol → Option J
  pub is_object-object : (m : List (String × J)) → is_object (object m) ≡ true
  pub object_get-object :
      (m : List (String × J)) (k : String) → object_get (object m) k ≡ member m k
  pub elements-array : (l : List J) → elements (array l) ≡ some l
  pub integer_value-integer : (i : ℤ) → Int64 i → integer_value (integer i) ≡ some i
  pub boolean_value-boolean : (b : Bool) → boolean_value (boolean b) ≡ some b
  pub load_text-dumps : (j : J) → load_text (dumps j) ≡ some j

-- `(int) bits` of an `uint32_t`
abbrev pub to_int : ℕ → ℤ
to_int n = if ltb n (2 ^ 31) then pos n else negsuc (2 ^ 32 - 1 - n)

-- `(json_int_t) n` of an `uint64_t`
abbrev pub to_json_int : ℕ → ℤ
to_json_int n = if ltb n (2 ^ 63) then pos n else negsuc (2 ^ 64 - 1 - n)

abbrev pub is_empty_slot : Entity → Bool
is_empty_slot e =
    not e.valid
    && (e.entity_id == 0 && (e.reserved34 == 0 && (e.profile_id == 0 && e.entity_type == 0)))

module _ (lib : Jansson) where
  open lib use {
    J, object, array, integer, boolean, is_object, object_get, elements, integer_value,
    boolean_value,
  }

  abbrev uint_of : Option ℤ → ℕ → Result ℕ
  uint_of none limit = err einval
  uint_of (some (negsuc n)) limit = err einval
  uint_of (some (pos n)) limit = if ltb limit n then err einval else ok n

  unfoldable pub json_get_uint : J → String → ℕ → Result ℕ
  json_get_uint obj key limit = elim (object_get obj key) [
    | none ↦ err einval
    | some v ↦ uint_of (integer_value v) limit
  ]

  unfoldable pub json_get_bool : J → String → Result Bool
  json_get_bool obj key = elim (object_get obj key) [
    | none ↦ err einval
    | some v ↦ elim (boolean_value v) [ none ↦ err einval | some b ↦ ok b ]
  ]

  -- One round of the loop over the profiles; profile 0 is never read from the file.
  unfoldable pub load_profile : SubscriberDb → J → Result SubscriberDb
  load_profile db item = do
    fail_if (not (is_object item)) einval
    id ← json_get_uint item "id" (profile_count - 1)
    bits ← json_get_uint item "bits" 0xffff_ffff
    ok (if id == 0 then db else record db { profiles = set db.profiles id (profile_unpack bits) })

  -- One round of the loop over the entities.
  unfoldable pub load_entity : SubscriberDb → J → Result SubscriberDb
  load_entity db item = do
    fail_if (not (is_object item)) einval
    idx ← json_get_uint item "idx" (entity_count - 1)
    entity_id ← json_get_uint item "entity_id" 0xff_ffff
    entity_type ← json_get_uint item "entity_type" 1
    profile_id ← json_get_uint item "profile_id" (profile_count - 1)
    reserved34 ← json_get_uint item "reserved" (2 ^ 34 - 1)
    valid ← json_get_bool item "valid"
    ok (record db {
      entities = set db.entities idx (record {
        entity_id = entity_id;
        entity_type = entity_type;
        profile_id = profile_id;
        reserved34 = reserved34;
        valid = valid;
      });
    })

  -- `json_array_foreach` with a body that may return early
  unfoldable pub load_each :
      (SubscriberDb → J → Result SubscriberDb) → SubscriberDb → List J → Result SubscriberDb
  load_each f db [] = ok db
  load_each f db (item ∷ items) = elim (f db item) [
    | ok db' ↦ load_each f db' items
    | err e ↦ err e
  ]

  abbrev pub array_at : J → String → Result (List J)
  array_at root key = elim (object_get root key) [
    | none ↦ err einval
    | some v ↦ elim (elements v) [ none ↦ err einval | some l ↦ ok l ]
  ]

  -- On an error the caller clears the database, so the partly filled one is not returned.
  unfoldable pub db_load_json : J → Result SubscriberDb
  db_load_json root = do
    fail_if (not (is_object root)) einval
    version ← json_get_uint root "version" 1
    fail_if (not (version == 1)) einval
    profiles ← array_at root "profiles"
    entities ← array_at root "entities"
    db ← load_each load_profile db_init_empty profiles
    load_each load_entity db entities

  unfoldable pub dump_profile : ℕ → Profile → J
  dump_profile i p = object (
      ("id", integer (to_int i))
      ∷ ("bits", integer (to_int (if i == 0 then profile0_bits else profile_pack p)))
      ∷ [])

  unfoldable pub dump_profiles : ℕ → List Profile → List J
  dump_profiles i [] = []
  dump_profiles i (p ∷ ps) = dump_profile i p ∷ dump_profiles (i + 1) ps

  unfoldable pub dump_entity : ℕ → Entity → J
  dump_entity i e = object (
      ("idx", integer (to_int i))
      ∷ ("entity_id", integer (pos e.entity_id))
      ∷ ("entity_type", integer (to_int e.entity_type))
      ∷ ("profile_id", integer (to_int e.profile_id))
      ∷ ("reserved", integer (to_json_int e.reserved34))
      ∷ ("valid", boolean e.valid)
      ∷ [])

  -- Empty slots are left out.
  unfoldable pub dump_entities : ℕ → List Entity → List J
  dump_entities i [] = []
  dump_entities i (e ∷ es) =
      let rest = dump_entities (i + 1) es in
      if is_empty_slot e then rest else dump_entity i e ∷ rest

  unfoldable pub db_dump_json : SubscriberDb → J
  db_dump_json db = object (
      ("version", integer (pos 1))
      ∷ ("profiles", array (dump_profiles 0 db.profiles))
      ∷ ("entities", array (dump_entities 0 db.entities))
      ∷ [])

-- ===== src/Persistence/Json/RoundTrip.antt =====
-- A database that is saved loads as itself, unless a profile's word has bit 31 set: then what was
-- saved is refused.
use Prim.Native.String.{String}
use tetra_bs.Prelude.{
  ℕ, zero, suc, ◌+◌, ◌^◌, ◌≤◌, ◌<◌, ◌≡◌, refl, sym, ◌∙◌, ap, true, some, List, [], ◌∷◌, ◌++◌,
  append_assoc, set, get_or, replicate, length, length-append, drop, subst, Result, Errno, ok, err,
  einval, ◌>>=◌, arith, All, Bool-cases, lt-or-le, inl, inr,
}
use tetra_bs.Persistence.Profile.{Profile, profile_pack}
use tetra_bs.Persistence.Profile.Packing.{IsProfile, profile_pack-lt}
use tetra_bs.Persistence.Db.{
  Entity, SubscriberDb, zero_profile, zero_entity, profile0, profile_count, entity_count,
  db_init_empty,
}
use tetra_bs.Persistence.Db.Tables.{IsDb}
use tetra_bs.Persistence.Json.{
  pos, member, Jansson, load_profile, load_entity, load_each, array_at, dump_profiles,
  dump_entities, is_empty_slot, db_load_json, db_dump_json,
}
use tetra_bs.Persistence.Json.Load.{
  IsStored, load_profile-dump, load_profile_zero, load_profile_negative, load_entity-dump, get_uint,
}

-- Replacing the element behind a prefix.
set-append :
    {A : Type 0} (pre : List A) (z : A) (zs : List A) (i : ℕ) (x : A)
    → i ≡ length pre
    → set (pre ++ z ∷ zs) i x ≡ (pre ++ (x ∷ [])) ++ zs
set-append [] z zs i x e = rw e refl
set-append (y ∷ pre) z zs i x e = rw e (ap (λ l. y ∷ l) (set-append pre z zs (length pre) x refl))

-- A profile that can be saved: its fields have their widths, and bit 31 of its word is clear.
pub record IsSavable (p : Profile) : Type 0 where
  pub widths : IsProfile p
  pub sign : profile_pack p < 2 ^ 31

-- An empty slot of the table is the zero entity.
empty_slot_lem : (x : Entity) → is_empty_slot x ≡ true → x ≡ zero_entity
empty_slot_lem x h = ground arith

module _ (lib : Jansson) where
  get_array :
      (m : List (String × lib.J)) (key : String) (l : List lib.J)
      → member m key ≡ some (lib.array l)
      → array_at lib (lib.object m) key ≡ ok l
  get_array m key l here =
      rw (lib.object_get-object m key, here, array_at) (rw (lib.elements-array l) refl)

  load_each-ok :
      (f : SubscriberDb → lib.J → Result SubscriberDb) (db next : SubscriberDb) (item : lib.J)
      (items : List lib.J)
      → f db item ≡ ok next
      → load_each lib f db (item ∷ items) ≡ load_each lib f next items
  unfolding load_each
  load_each-ok f db next item items e = rw (e, load_each) refl

  load_each-err :
      (f : SubscriberDb → lib.J → Result SubscriberDb) (db : SubscriberDb) (item : lib.J)
      (items : List lib.J) {e : Errno}
      → f db item ≡ err e
      → load_each lib f db (item ∷ items) ≡ err e
  unfolding load_each
  load_each-err f db item items h = rw (h, load_each) refl

  load_profiles :
      (ps zs pre : List Profile) (db : SubscriberDb) (i : ℕ)
      → All IsSavable ps
      → length zs ≡ length ps
      → i ≡ length pre
      → 0 < i
      → i + length ps ≤ profile_count
      → db.profiles ≡ pre ++ zs
      → load_each lib (load_profile lib) db (dump_profiles lib i ps)
        ≡ ok (record db { profiles = pre ++ ps })
  unfolding load_each dump_profiles
  load_profiles [] [] pre db i h n e lo hi at = λ t. ok (record db { profiles = at t })
  load_profiles [] (z ∷ zs) pre db i h n e lo hi at = absurd (omega arith)
  load_profiles (p ∷ ps) [] pre db i h n e lo hi at = absurd (omega arith)
  load_profiles (p ∷ ps) (z ∷ zs) pre db i h n e lo hi at =
      let next : SubscriberDb = record db { profiles = set db.profiles i p } in
      let one = load_profile-dump lib db i p (omega arith) (omega arith) h.0.widths h.0.sign in
      let table : next.profiles ≡ (pre ++ (p ∷ [])) ++ zs =
        ap (λ l. set l i p) at ∙ set-append pre z zs i p e in
      let len : i + 1 ≡ length (pre ++ (p ∷ [])) = omega (arith, length-append pre (p ∷ [])) in
      let rest =
        load_profiles ps zs (pre ++ (p ∷ [])) next (i + 1) h.1 (omega arith) len (omega arith)
          (omega arith) table in
      load_each-ok (load_profile lib) db next _ _ one
      ∙ rest
      ∙ (λ t. ok (record db { profiles = append_assoc pre (p ∷ []) ps t }))

  load_entities :
      (es zs pre : List Entity) (db : SubscriberDb) (i : ℕ)
      → All IsStored es
      → zs ≡ replicate (length es) zero_entity
      → i ≡ length pre
      → i + length es ≤ entity_count
      → db.entities ≡ pre ++ zs
      → load_each lib (load_entity lib) db (dump_entities lib i es)
        ≡ ok (record db { entities = pre ++ es })
  unfolding load_each dump_entities
  load_entities [] zs pre db i h n e hi at =
      λ t. ok (record db { entities = (at ∙ ap (λ l. pre ++ l) n) t })
  load_entities (x ∷ es) zs pre db i h n e hi at =
      let zs' = replicate (length es) zero_entity in
      let next : SubscriberDb = record db { entities = set db.entities i x } in
      let len : i + 1 ≡ length (pre ++ (x ∷ [])) = omega (arith, length-append pre (x ∷ [])) in
      let table : db.entities ≡ pre ++ (zero_entity ∷ zs') = at ∙ ap (λ l. pre ++ l) n in
      elim (Bool-cases (is_empty_slot x)) [
        | inl skip ↦
            let whole : db.entities ≡ (pre ++ (x ∷ [])) ++ zs' =
              table
              ∙ ap (λ z. pre ++ (z ∷ zs')) (sym (empty_slot_lem x skip))
              ∙ sym (append_assoc pre (x ∷ []) zs') in
            rw skip (
              load_entities es zs' (pre ++ (x ∷ [])) db (i + 1) h.1 refl len (omega arith) whole
              ∙ (λ t. ok (record db { entities = append_assoc pre (x ∷ []) es t })))
        | inr kept ↦
            let whole : next.entities ≡ (pre ++ (x ∷ [])) ++ zs' =
              ap (λ l. set l i x) table ∙ set-append pre zero_entity zs' i x e in
            rw kept (
              load_each-ok (load_entity lib) db next _ _
                (load_entity-dump lib db i x (omega arith) h.0)
              ∙ load_entities es zs' (pre ++ (x ∷ [])) next (i + 1) h.1 refl len (omega arith) whole
              ∙ (λ t. ok (record db { entities = append_assoc pre (x ∷ []) es t })))
      ]

  load_profiles_negative :
      (ps : List Profile) (db : SubscriberDb) (i j : ℕ)
      → All IsProfile ps
      → 0 < i
      → i + length ps ≤ profile_count
      → j < length ps
      → 2 ^ 31 ≤ profile_pack (get_or ps j zero_profile)
      → load_each lib (load_profile lib) db (dump_profiles lib i ps) ≡ err einval
  unfolding dump_profiles
  load_profiles_negative [] db i j h lo hi lt big = absurd (omega arith)
  load_profiles_negative (p ∷ ps) db i j h lo hi lt big =
      elim (lt-or-le (profile_pack p) (2 ^ 31)) [
        | inl small ↦
            load_each-ok (load_profile lib) db (record db { profiles = set db.profiles i p }) _ _
              (load_profile-dump lib db i p (omega arith) (omega arith) h.0 small)
            ∙ later j lt big small (λ k.
              load_profiles_negative ps (record db { profiles = set db.profiles i p }) (i + 1) k h.1
                (omega arith) (omega arith))
        | inr large ↦ load_each-err (load_profile lib) db _ _ (
            load_profile_negative lib db i p (omega arith) (omega arith) large
              (profile_pack-lt p h.0))
      ]
    where
      later :
          (j : ℕ)
          → j < length (p ∷ ps)
          → 2 ^ 31 ≤ profile_pack (get_or (p ∷ ps) j zero_profile)
          → profile_pack p < 2 ^ 31
          → ((k : ℕ)
              → k < length ps
              → 2 ^ 31 ≤ profile_pack (get_or ps k zero_profile)
              → load_each lib
                  (load_profile lib)
                  (record db { profiles = set db.profiles i p })
                  (dump_profiles lib (i + 1) ps)
                ≡ err einval)
          → load_each lib
              (load_profile lib)
              (record db { profiles = set db.profiles i p })
              (dump_profiles lib (i + 1) ps)
            ≡ err einval
      later zero lt big small rest = absurd (omega arith)
      later (suc j) lt big small rest = rest j (omega arith) big

  -- What the loader finds at the top of a dumped database.
  db_load_json_lem :
      (db : SubscriberDb)
      → db_load_json lib (db_dump_json lib db) ≡ (
          load_each lib (load_profile lib) db_init_empty (dump_profiles lib 0 db.profiles)
          >>= λ db'. load_each lib (load_entity lib) db' (dump_entities lib 0 db.entities))
  unfolding db_load_json db_dump_json
  db_load_json_lem db =
      rw
        (
          lib.is_object-object _,
          get_uint lib _ "version" (pos 1) 1 1 refl refl (omega arith) (omega arith),
          get_array _ "profiles" (dump_profiles lib 0 db.profiles) refl,
          get_array _ "entities" (dump_entities lib 0 db.entities) refl,
        )
        refl

  -- the table of profiles behind profile 0
  profiles_lem : (db : SubscriberDb) → IsDb db → db.profiles ≡ profile0 ∷ drop 1 db.profiles
  profiles_lem db v = headed db.profiles v.profiles v.guard
    where
      headed :
          (l : List Profile)
          → length l ≡ profile_count
          → get_or l 0 zero_profile ≡ profile0
          → l ≡ profile0 ∷ drop 1 l
      headed [] n g = absurd (omega arith)
      headed (p ∷ ps) n g = λ t. g t ∷ ps

  -- Saving and loading: a database in use, whose profiles have their widths and a word with bit 31
  -- clear and whose entities are within their limits, is dumped to a JSON value that loads as
  -- that database.
  pub load-dump :
      (db : SubscriberDb)
      → IsDb db
      → All IsSavable db.profiles
      → All IsStored db.entities
      → db_load_json lib (db_dump_json lib db) ≡ ok db
  unfolding db_init_empty dump_profiles
  load-dump db v ps es =
      let rest : List Profile = drop 1 db.profiles in
      let split : db.profiles ≡ profile0 ∷ rest = profiles_lem db v in
      let n : length rest + 1 ≡ profile_count =
        omega (arith, ap (length {A = Profile}) split, v.profiles) in
      let safe : All IsSavable (profile0 ∷ rest) = subst (All IsSavable) split ps in
      let db1 : SubscriberDb = record db_init_empty { profiles = profile0 ∷ rest } in
      let e1 : load_each lib (load_profile lib) db_init_empty (dump_profiles lib 0 db.profiles)
          ≡ ok db1 =
        ap (λ l. load_each lib (load_profile lib) db_init_empty (dump_profiles lib 0 l)) split
        ∙ load_each-ok (load_profile lib) db_init_empty db_init_empty _ _
            (load_profile_zero lib db_init_empty profile0)
        ∙ load_profiles rest (replicate 5 zero_profile) (profile0 ∷ []) db_init_empty 1 safe.1
            (omega arith) refl (omega arith) (omega arith) refl in
      let e2 : load_each lib (load_entity lib) db1 (dump_entities lib 0 db.entities)
          ≡ ok (record db1 { entities = db.entities }) =
        load_entities db.entities (replicate entity_count zero_entity) [] db1 0 es
          (ap (λ k. replicate k zero_entity) (sym v.entities)) refl (omega (arith, v.entities))
          refl in
      let same : db ≡ record db1 { entities = db.entities } =
        λ t. record { profiles = split t; entities = db.entities; opened = v.opened t } in
      db_load_json_lem db
      ∙ ap
          (λ r.
            r >>= (λ db'. load_each lib (load_entity lib) db' (dump_entities lib 0 db.entities)))
          e1
      ∙ e2
      ∙ ap ok (sym same)

  -- The gap of the round trip: if the word of any profile but 0 has bit 31 set (a call duration of
  -- 128 or more), the dump of a database in use is refused by the loader.
  pub load-dump_negative :
      (db : SubscriberDb) (i : ℕ)
      → IsDb db
      → All IsProfile db.profiles
      → 0 < i
      → i < profile_count
      → 2 ^ 31 ≤ profile_pack (get_or db.profiles i zero_profile)
      → db_load_json lib (db_dump_json lib db) ≡ err einval
  unfolding dump_profiles
  load-dump_negative db zero v ps lo hi big = absurd (omega arith)
  load-dump_negative db (suc i) v ps lo hi big =
      let rest : List Profile = drop 1 db.profiles in
      let split : db.profiles ≡ profile0 ∷ rest = profiles_lem db v in
      let n : length rest + 1 ≡ profile_count =
        omega (arith, ap (length {A = Profile}) split, v.profiles) in
      let safe : All IsProfile (profile0 ∷ rest) = subst (All IsProfile) split ps in
      let word : profile_pack (get_or db.profiles (suc i) zero_profile)
          ≡ profile_pack (get_or rest i zero_profile) =
        ap (λ l. profile_pack (get_or l (suc i) zero_profile)) split in
      let e1 : load_each lib (load_profile lib) db_init_empty (dump_profiles lib 0 db.profiles)
          ≡ err einval =
        ap (λ l. load_each lib (load_profile lib) db_init_empty (dump_profiles lib 0 l)) split
        ∙ load_each-ok (load_profile lib) db_init_empty db_init_empty _ _
            (load_profile_zero lib db_init_empty profile0)
        ∙ load_profiles_negative rest db_init_empty 1 i safe.1 (omega arith) (omega arith)
            (omega arith) (omega arith) in
      db_load_json_lem db
      ∙ ap
          (λ r.
            r >>= (λ db'. load_each lib (load_entity lib) db' (dump_entities lib 0 db.entities)))
          e1

-- ===== src/Persistence/Store/Reopen.antt =====
-- A database that was saved opens again.
use tetra_bs.Prelude.{
  ◌+◌, ◌<◌, ◌≡◌, refl, sym, ap, ◌∙◌, subst, true, false, not, ◌||◌, Option, some, none, List, [],
  ◌∷◌, set, get_or, All, leb, ◌==◌, if◌then◌else◌, Result, ok, err, einval, Errno, arith,
}
use tetra_bs.Persistence.Db.{SubscriberDb, zero_profile}
use tetra_bs.Persistence.Profile.{Profile}
use tetra_bs.Persistence.Db.Tables.{IsDb}
use tetra_bs.Persistence.Json.{Jansson, db_load_json, db_dump_json}
use tetra_bs.Persistence.Json.Load.{IsStored}
use tetra_bs.Persistence.Json.RoundTrip.{IsSavable, load-dump}
use tetra_bs.Persistence.Store.{
  path_max, Files, Disk, SaveCalls, StoredDb, with_profile0, load_file, cleanup_stale_tmp,
  atomic_write_text, db_open, db_atomic_save,
}
use tetra_bs.Persistence.Store.Atomic.{Saved, atomic_write_text-Saved}

abbrev Outcome : Type 0
Outcome = Option (Result (Unit {0}))

abbrev success : Outcome
success = some (ok tt)

none-ne-ok : ¬ Path Outcome none success
none-ne-ok e = cc

err-ne-ok : (x : Errno) → ¬ Path Outcome (some (err x)) success
err-ne-ok x e = cc

module _ {ℓ} {A : Type ℓ} where
  Saved-ok :
      (old : Option (List A)) (text : List A) (r : Disk A × Option (Result (Unit {0})))
      → Saved old text r
      → r.1 ≡ some (ok tt)
      → r.0.files ≡ record { primary = some text; tmp = none }
  Saved-ok old text (d, none) h e = absurd (none-ne-ok e)
  Saved-ok old text (d, some (err x)) h e = absurd (err-ne-ok x e)
  Saved-ok old text (d, some (ok done)) h e = h.0

set-get_or : (ps : List Profile) → set ps 0 (get_or ps 0 zero_profile) ≡ ps
set-get_or [] = refl
set-get_or (p ∷ ps) = refl

module _ (lib : Jansson) where
  open lib use {Symbol, dumps, load_text-dumps}

  with_profile0_lem : (db : SubscriberDb) → IsDb db → with_profile0 lib db ≡ db
  with_profile0_lem db v =
      ap (λ ps. record db { profiles = ps })
        (ap (λ p. set db.profiles 0 p) (sym v.guard) ∙ set-get_or db.profiles)

  load_file_lem :
      (s : StoredDb)
      → IsDb s.db
      → db_load_json lib (db_dump_json lib s.db) ≡ ok s.db
      → load_file lib s.path (dumps (db_dump_json lib s.db)) ≡ (s, ok tt)
  load_file_lem s v e =
      rw (load_text-dumps (db_dump_json lib s.db), load_file)
        (rw (e, load_file)
          (ap (λ db. (record { path = s.path; db = db }, ok tt)) (with_profile0_lem s.db v)))

  -- What a save leaves.
  abbrev saved_files : StoredDb → Files Symbol
  saved_files s = record { primary = some (dumps (db_dump_json lib s.db)); tmp = none }

  clean :
      (c : SaveCalls) (log : List (Files Symbol)) (s : StoredDb)
      → leb (path_max + 8) (s.path + 4) ≡ false
      → cleanup_stale_tmp c (record { files = saved_files s; log = log }) s.path
        ≡ record { files = saved_files s; log = log }
  unfolding cleanup_stale_tmp
  clean c log s fits = rw fits refl

  db_open_lem :
      (c : SaveCalls) (log : List (Files Symbol)) (before s : StoredDb)
      → 0 < s.path
      → s.path < path_max
      → IsDb s.db
      → db_load_json lib (db_dump_json lib s.db) ≡ ok s.db
      → let d : Disk Symbol = record { files = saved_files s; log = log } in
        db_open lib c d before s.path ≡ ((d, s), ok tt)
  unfolding db_open
  db_open_lem c log before s lo hi v e =
      let fits : leb (path_max + 8) (s.path + 4) ≡ false = ground arith in
      let some_path : (s.path == 0) ≡ false = ground arith in
      let short : leb path_max s.path ≡ false = ground arith in
      rw (some_path, short, clean c log s fits)
        (rw (clean c log s fits) (
          ap (λ r. ((record { files = saved_files s; log = log }, r.0), r.1))
            (load_file_lem s v e)))

  save_text :
      (c : SaveCalls) (d : Disk Symbol) (s : StoredDb)
      → s.db.opened ≡ true
      → 0 < s.path
      → db_atomic_save lib c d s ≡ atomic_write_text c d s.path (dumps (db_dump_json lib s.db))
  unfolding db_atomic_save
  save_text c d s o lo =
      let some_path : (s.path == 0) ≡ false = ground arith in
      let write : Disk Symbol × Outcome =
        atomic_write_text c d s.path (dumps (db_dump_json lib s.db)) in
      ap (λ b. if not b || s.path == 0 then (d, some (err einval)) else write) o
      ∙ ap (λ b. if b then (d, some (err einval)) else write) some_path

  -- A database in use that can be loaded from its dump, under a path of a length allowed, is saved
  -- on a disk; if the save succeeds, opening the path on the disk that it left gives the same
  -- database, changes nothing on the disk and succeeds, whatever was in memory before.
  pub open-save :
      (c c' : SaveCalls) (f : Files Symbol) (before s : StoredDb)
      → 0 < s.path
      → s.path < path_max
      → IsDb s.db
      → All IsSavable s.db.profiles
      → All IsStored s.db.entities
      → let r = db_atomic_save lib c (record { files = f; log = [] }) s in
        r.1 ≡ some (ok tt) → db_open lib c' r.0 before s.path ≡ ((r.0, s), ok tt)
  open-save c c' f before s lo hi v ps es success =
      let text : List Symbol = dumps (db_dump_json lib s.db) in
      let write : Disk Symbol × Outcome =
        atomic_write_text c (record { files = f; log = [] }) s.path text in
      let same : db_atomic_save lib c (record { files = f; log = [] }) s ≡ write =
        save_text c (record { files = f; log = [] }) s v.opened lo in
      let files : write.0.files ≡ saved_files s =
        Saved-ok f.primary text write (atomic_write_text-Saved c f s.path text)
          (ap (λ r. r.1) (sym same) ∙ success) in
      subst (λ r. db_open lib c' r.0 before s.path ≡ ((r.0, s), ok tt)) (sym same)
        (subst
          (λ x.
            let d : Disk Symbol = record { files = x; log = write.0.log } in
            db_open lib c' d before s.path ≡ ((d, s), ok tt))
          (sym files) (db_open_lem c' write.0.log before s lo hi v (load-dump lib s.db v ps es)))

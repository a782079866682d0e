-- ===== src/Persistence/Store.antt =====
-- The database in a file: `atomic_write_text`, `cleanup_stale_tmp`, `db_open` and `db_atomic_save` of
-- sw/persistence/src/db.c. The two files that they touch are the database and its neighbour with
-- the suffix .tmp; the results of the system calls are given in advance.
pub mod Atomic
pub mod Reopen
use tetra_bs.Prelude.{
  ℕ, ◌+◌, Bool, true, false, not, ◌||◌, Option, none, some, List, [], ◌∷◌, ◌++◌, length, take, drop,
  set, leb, ◌==◌, if◌then◌else◌, Result, ok, err, einval, eio,
}
use tetra_bs.Persistence.Profile.{Profile}
use tetra_bs.Persistence.Db.{SubscriberDb, profile0, db_zero, db_init_empty}
use tetra_bs.Persistence.Json.{Jansson, db_load_json, db_dump_json}

abbrev pub path_max : ℕ
path_max = 256

-- What the disk holds.
pub record Files {ℓ} (A : Type ℓ) : Type ℓ where
  pub primary : Option (List A)
  pub tmp : Option (List A)

-- With every earlier content, the latest first: what a crash may leave
pub record Disk {ℓ} (A : Type ℓ) : Type ℓ where
  pub files : Files A
  pub log : List (Files A)

-- A `write` fails, or takes a number of bytes.
pub data WriteResult : Type 0 where
  failed : WriteResult
  wrote : ℕ → WriteResult

-- Which system calls succeed.
pub record SaveCalls : Type 0 where
  pub opens : Bool
  pub writes : List WriteResult
  pub fsyncs : Bool
  pub closes : Bool
  pub renames : Bool
  pub unlinks : Bool

module _ {ℓ} {A : Type ℓ} where
  abbrev pub change : Disk A → Files A → Disk A
  change d f = record { files = f; log = d.files ∷ d.log }

  abbrev pub set_tmp : Disk A → Option (List A) → Disk A
  set_tmp d text = change d (record d.files { tmp = text })

  abbrev pub unlink_tmp : SaveCalls → Disk A → Disk A
  unlink_tmp c d = if c.unlinks then set_tmp d none else d

  abbrev pub append_tmp : Disk A → List A → Disk A
  append_tmp d more = set_tmp d (elim d.files.tmp [ none ↦ none | some old ↦ some (old ++ more) ])

  -- The loop over `write`: `rest` is the text from `written` on. The flag says whether all was
  -- written; no flag, that the results given have run out.
  unfoldable pub write_text : List WriteResult → Disk A → List A → Disk A × Option Bool
  write_text ws d [] = (d, some true)
  write_text [] d (a ∷ rest) = (d, none)
  write_text (failed ∷ ws) d (a ∷ rest) = (d, some false)
  write_text (wrote n ∷ ws) d (a ∷ rest) =
      write_text ws (append_tmp d (take n (a ∷ rest))) (drop n (a ∷ rest))

  -- What follows the loop: fsync, close and rename. What was written is on the disk at once, so that
  -- fsync has no effect but its error.
  unfoldable pub commit : SaveCalls → Disk A → Disk A × Result (Unit {0})
  commit c d =
      if not c.fsyncs
      then (unlink_tmp c d, err eio)
      else if not c.closes
      then (unlink_tmp c d, err eio)
      else if not c.renames
      then (unlink_tmp c d, err eio)
      else (change d (record { primary = d.files.tmp; tmp = none }), ok tt)

  -- The end of a save, by what the loop over `write` came to.
  unfoldable pub finish : SaveCalls → Disk A × Option Bool → Disk A × Option (Result (Unit {0}))
  finish c (d, none) = (d, none)
  finish c (d, some false) = (unlink_tmp c d, some (err eio))
  finish c (d, some true) = ((commit c d).0, some (commit c d).1)

  -- The path stands for its length.
  unfoldable pub atomic_write_text :
      SaveCalls → Disk A → ℕ → List A → Disk A × Option (Result (Unit {0}))
  atomic_write_text c d path text =
      if leb (path_max + 8) (path + 4)
      then (d, some (err einval))
      else if not c.opens
      then (d, some (err eio))
      else finish c (write_text c.writes (set_tmp d (some [])) text)

  unfoldable pub cleanup_stale_tmp : SaveCalls → Disk A → ℕ → Disk A
  cleanup_stale_tmp c d path =
      if leb (path_max + 8) (path + 4)
      then d
      else elim d.files.tmp [ none ↦ d | some text ↦ unlink_tmp c d ]

-- The database and the length of its path.
pub record StoredDb : Type 0 where
  pub path : ℕ
  pub db : SubscriberDb

module _ (lib : Jansson) where
  open lib use {J, Symbol, dumps, load_text}

  abbrev pub with_profile0 : SubscriberDb → SubscriberDb
  with_profile0 db = record db { profiles = set db.profiles 0 profile0 }

  abbrev pub load_file : ℕ → List Symbol → StoredDb × Result (Unit {0})
  load_file path text = elim (load_text text) [
    | none ↦ (record { path = path; db = db_zero }, err eio)
    | some root ↦ elim (db_load_json lib root) [
      | err e ↦ (record { path = 0; db = db_zero }, err e)
      | ok db ↦ (record { path = path; db = with_profile0 db }, ok tt)
    ]
  ]

  unfoldable pub db_open :
      SaveCalls → Disk Symbol → StoredDb → ℕ → (Disk Symbol × StoredDb) × Result (Unit {0})
  db_open c d old path =
      let d' = cleanup_stale_tmp c d path in
      if path == 0 || leb path_max path then ((d, old), err einval) else elim d'.files.primary [
        | none ↦ ((d', record { path = path; db = db_init_empty }), ok tt)
        | some text ↦ let (db, r) = load_file path text in ((d', db), r)
      ]

  unfoldable pub db_atomic_save :
      SaveCalls → Disk Symbol → StoredDb → Disk Symbol × Option (Result (Unit {0}))
  db_atomic_save c d s =
      if not s.db.opened || s.path == 0
      then (d, some (err einval))
      else atomic_write_text c d s.path (dumps (db_dump_json lib s.db))

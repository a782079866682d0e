-- ===== src/Persistence/Tests/Saving.antt =====
-- The theorems about the database in a file at concrete inputs.
use tetra_bs.Prelude.{ℕ, ◌≡◌, refl, true, Option, some, none, List, [], ◌∷◌, Result, ok, arith}
use tetra_bs.Persistence.Tests.{Json, demo_db, demo_db-IsDb, demo-IsSavable, demo-IsStored, trees}
use tetra_bs.Persistence.Store.{
  Files, Disk, wrote, failed, SaveCalls, StoredDb, atomic_write_text, write_text, finish, commit,
  db_open, db_atomic_save,
}
use tetra_bs.Persistence.Store.Atomic.{Saved, atomic_write_text-Saved, atomic_write_text-ok}
use tetra_bs.Persistence.Store.Reopen.{open-save}

abbrev calls : SaveCalls
calls = record {
  opens = true;
  writes = wrote 1 ∷ wrote 2 ∷ wrote 1 ∷ [];
  fsyncs = true;
  closes = true;
  renames = true;
  unlinks = true;
}

-- The disk gets full.
abbrev full_calls : SaveCalls
full_calls = record calls { writes = wrote 1 ∷ failed ∷ [] }

abbrev files : Files ℕ
files = record { primary = some (7 ∷ []); tmp = some (8 ∷ 8 ∷ []) }

abbrev text : List ℕ
text = 1 ∷ 2 ∷ 3 ∷ []

atomic_write_text-Saved_example :
    Saved files.primary text
      (atomic_write_text full_calls (record { files = files; log = [] }) 12 text)
atomic_write_text-Saved_example = atomic_write_text-Saved full_calls files 12 text

atomic_write_text-ok_example :
    (atomic_write_text calls (record { files = files; log = [] }) 12 text).1 ≡ some (ok tt)
atomic_write_text-ok_example =
    atomic_write_text-ok calls (record { files = files; log = [] }) 12 text (omega arith) refl refl
      refl refl ((0, refl), ((1, refl), ((0, refl), tt))) (omega arith)

abbrev no_files : Files Json
no_files = record { primary = none; tmp = none }

abbrev stored : StoredDb
stored = record { path = 12; db = demo_db }

abbrev after_save : Disk Json × Option (Result (Unit {0}))
after_save = db_atomic_save trees calls (record { files = no_files; log = [] }) stored

after_save-ok : after_save.1 ≡ some (ok tt)
unfolding db_atomic_save atomic_write_text write_text finish commit
after_save-ok = refl

open-save_example : db_open trees calls after_save.0 stored 12 ≡ ((after_save.0, stored), ok tt)
open-save_example =
    open-save trees calls calls no_files stored stored (omega arith) (omega arith) demo_db-IsDb
      demo-IsSavable demo-IsStored after_save-ok

-- ===== src/Persistence/Store/Atomic.antt =====
-- A save is atomic: whatever fails, and wherever a crash interrupts it, the database file holds the
-- old text or the new one.
use tetra_bs.Prelude.{
  ℕ, zero, suc, ◌+◌, ◌<◌, ◌≡◌, ◌≢◌, ◌⊎◌, inl, inr, refl, sym, ap, ◌∙◌, subst, Bool, true, false,
  not, Option, some, none, List, [], ◌∷◌, ◌++◌, take, drop, append-nil, append_assoc, length,
  length-drop, ◌≤◌, All, leb, if◌then◌else◌, Result, ok, err, einval, eio, arith, Bool-cases,
}
use tetra_bs.Persistence.Store.{
  path_max, Files, Disk, WriteResult, failed, wrote, SaveCalls, set_tmp, unlink_tmp, append_tmp,
  write_text, commit, finish, atomic_write_text,
}

none-ne-some : {b : Bool} → none ≢ some b
none-ne-some e = cc

false-ne-true : some false ≢ some true
false-ne-true e = cc

module _ {ℓ} {A : Type ℓ} (old : Option (List A)) (text : List A) where
  -- The database file holds the old text or the new one.
  abbrev pub IsWhole : Files A → Type ℓ
  IsWhole f = (f.primary ≡ old) ⊎ (f.primary ≡ some text)

  -- Still the old text, and never anything but one of the two.
  abbrev pub IsUntouched : Disk A → Type ℓ
  IsUntouched d = (d.files.primary ≡ old) × All IsWhole d.log

  set_tmp-IsUntouched :
      (d : Disk A) (t : Option (List A)) → IsUntouched d → IsUntouched (set_tmp d t)
  set_tmp-IsUntouched d t (e, h) = (e, (inl e, h))

  unlink_tmp-IsUntouched :
      (c : SaveCalls) (d : Disk A) → IsUntouched d → IsUntouched (unlink_tmp c d)
  unlink_tmp-IsUntouched c d h = elim (Bool-cases c.unlinks) [
    | inl done ↦ rw done (set_tmp-IsUntouched d none h)
    | inr stays ↦ rw stays h
  ]

  append_tmp-IsUntouched :
      (d : Disk A) (more : List A) → IsUntouched d → IsUntouched (append_tmp d more)
  append_tmp-IsUntouched d more (e, h) = (e, (inl e, h))

  take-drop : (n : ℕ) (xs : List A) → take n xs ++ drop n xs ≡ xs
  take-drop zero xs = refl
  take-drop (suc n) [] = refl
  take-drop (suc n) (x ∷ xs) = ap (λ l. x ∷ l) (take-drop n xs)

  -- What the loop over `write` makes: if all was written, the neighbour holds the text.
  abbrev Wrote : Disk A × Option Bool → Type ℓ
  Wrote r = IsUntouched r.0 × (r.1 ≡ some true → r.0.files.tmp ≡ some text)

  write_text_lem :
      (ws : List WriteResult) (d : Disk A) (before rest : List A)
      → IsUntouched d
      → d.files.tmp ≡ some before
      → before ++ rest ≡ text
      → Wrote (write_text ws d rest)
  unfolding write_text
  write_text_lem ws d before [] h e all = (h, λ _. e ∙ ap some (sym (append-nil before) ∙ all))
  write_text_lem [] d before (a ∷ rest) h e all = (h, λ stop. absurd (none-ne-some stop))
  write_text_lem (failed ∷ ws) d before (a ∷ rest) h e all =
      (h, λ stop. absurd (false-ne-true stop))
  write_text_lem (wrote n ∷ ws) d before (a ∷ rest) h e all =
      write_text_lem ws (append_tmp d (take n (a ∷ rest))) (before ++ take n (a ∷ rest))
        (drop n (a ∷ rest)) (append_tmp-IsUntouched d (take n (a ∷ rest)) h) (rw e refl)
        (append_assoc before (take n (a ∷ rest)) (drop n (a ∷ rest))
          ∙ ap (λ l. before ++ l) (take-drop n (a ∷ rest))
          ∙ all)

  -- What a save leaves: without a result, or with an error, the old text; else the new one and no
  -- neighbour.
  abbrev pub Saved : Disk A × Option (Result (Unit {0})) → Type ℓ
  Saved (d, none) = IsUntouched d
  Saved (d, some (err e)) = IsUntouched d
  Saved (d, some (ok done)) =
      (d.files ≡ record { primary = some text; tmp = none }) × All IsWhole d.log

  commit_lem :
      (c : SaveCalls) (d : Disk A)
      → IsUntouched d
      → d.files.tmp ≡ some text
      → Saved ((commit c d).0, some (commit c d).1)
  unfolding commit
  commit_lem c d h e = elim (Bool-cases c.fsyncs) [
    | inr fails ↦ rw fails (unlink_tmp-IsUntouched c d h)
    | inl synced ↦ elim (Bool-cases c.closes) [
      | inr fails ↦ rw (synced, fails) (unlink_tmp-IsUntouched c d h)
      | inl closed ↦ elim (Bool-cases c.renames) [
        | inr fails ↦ rw (synced, closed, fails) (unlink_tmp-IsUntouched c d h)
        | inl renamed ↦
            rw (synced, closed, renamed)
              ((λ t. record { primary = e t; tmp = none }), (inl h.0, h.1))
      ]
    ]
  ]

  finish_lem : (c : SaveCalls) (r : Disk A × Option Bool) → Wrote r → Saved (finish c r)
  unfolding finish
  finish_lem c (d, none) (h, e) = h
  finish_lem c (d, some false) (h, e) = unlink_tmp-IsUntouched c d h
  finish_lem c (d, some true) (h, e) = commit_lem c d h (e refl)

module _ {ℓ} {A : Type ℓ} (c : SaveCalls) (d : Disk A) (path : ℕ) (text : List A) where
  too_long :
      leb (path_max + 8) (path + 4) ≡ true
      → atomic_write_text c d path text ≡ (d, some (err einval))
  unfolding atomic_write_text
  too_long long = rw long refl

  not_opened :
      leb (path_max + 8) (path + 4) ≡ false
      → c.opens ≡ false
      → atomic_write_text c d path text ≡ (d, some (err eio))
  unfolding atomic_write_text
  not_opened fits fails = rw (fits, fails) refl

  opened_lem :
      leb (path_max + 8) (path + 4) ≡ false
      → c.opens ≡ true
      → atomic_write_text c d path text ≡ finish c (write_text c.writes (set_tmp d (some [])) text)
  unfolding atomic_write_text
  opened_lem fits opened = rw fits (
      ap
        (λ b.
          if not b
          then (d, some (err eio))
          else finish c (write_text c.writes (set_tmp d (some [])) text))
        opened)

-- Whatever the system calls do, every content of the disk during a save has the old text or the
-- whole new one as the database. After success it is the new one and the neighbour is gone; after
-- an error, or if the save was cut off while it wrote, it is still the old one.
pub atomic_write_text-Saved {ℓ} :
    {A : Type ℓ} (c : SaveCalls) (f : Files A) (path : ℕ) (text : List A)
    → Saved f.primary text (atomic_write_text c (record { files = f; log = [] }) path text)
atomic_write_text-Saved {A = A} c f path text = elim (Bool-cases (leb (path_max + 8) (path + 4))) [
  | inl long ↦ rw (too_long c (record { files = f; log = [] }) path text long) (refl, tt)
  | inr fits ↦ elim (Bool-cases c.opens) [
    | inr fails ↦ rw (not_opened c (record { files = f; log = [] }) path text fits fails) (refl, tt)
    | inl opened ↦
        let d : Disk A = record { files = record f { tmp = some [] }; log = f ∷ [] } in
        subst (Saved f.primary text)
          (sym (opened_lem c (record { files = f; log = [] }) path text fits opened))
          (finish_lem f.primary text c (write_text c.writes d text)
            (write_text_lem f.primary text c.writes d [] text (refl, (inl refl, tt)) refl refl))
  ]
]

-- Each write takes something.
abbrev pub Progresses : List WriteResult → Type 0
Progresses = All (λ w. (n : ℕ) × (w ≡ wrote (suc n)))

module _ {ℓ} {A : Type ℓ} where
  shorter :
      (n : ℕ) (a : A) (rest : List A) (m : ℕ)
      → length (a ∷ rest) ≤ suc m
      → length (drop (suc n) (a ∷ rest)) ≤ m
  shorter n a rest m h = omega (arith, length-drop n rest, h)

  write_text-all :
      (ws : List WriteResult) (d : Disk A) (rest : List A)
      → Progresses ws
      → length rest ≤ length ws
      → (write_text ws d rest).1 ≡ some true
  unfolding write_text
  write_text-all ws d [] p h = refl
  write_text-all [] d (a ∷ rest) p h = absurd (omega arith)
  write_text-all (w ∷ ws) d (a ∷ rest) ((n, e), p) h = rw e (
      write_text-all ws (append_tmp d (take (suc n) (a ∷ rest))) (drop (suc n) (a ∷ rest)) p
        (shorter n a rest (length ws) h))

  finish-ok :
      (c : SaveCalls) (r : Disk A × Option Bool)
      → c.fsyncs ≡ true
      → c.closes ≡ true
      → c.renames ≡ true
      → r.1 ≡ some true
      → (finish c r).1 ≡ some (ok tt)
  unfolding finish commit
  finish-ok c (d, none) f k n e = absurd (none-ne-some e)
  finish-ok c (d, some false) f k n e = absurd (false-ne-true e)
  finish-ok c (d, some true) f k n e = rw (f, k, n) refl

-- A save ends: if no call fails and each of the writes takes at least one byte, as many writes as
-- the text has bytes are enough for success, for a path that is not too long.
pub atomic_write_text-ok {ℓ} :
    {A : Type ℓ} (c : SaveCalls) (d : Disk A) (path : ℕ) (text : List A)
    → path < path_max
    → c.opens ≡ true
    → c.fsyncs ≡ true
    → c.closes ≡ true
    → c.renames ≡ true
    → Progresses c.writes
    → length text ≤ length c.writes
    → (atomic_write_text c d path text).1 ≡ some (ok tt)
atomic_write_text-ok c d path text short o f k n p enough =
    let before = set_tmp d (some []) in
    ap (λ r. r.1) (opened_lem c d path text (ground arith) o)
    ∙ finish-ok c (write_text c.writes before text) f k n
        (write_text-all c.writes before text p enough)

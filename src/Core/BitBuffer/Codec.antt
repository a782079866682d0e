-- ===== src/Core/BitBuffer/Codec.antt =====
-- How the codecs of sw/llc, sw/mm and sw/cmce use a `BitBuffer`: a run of puts or gets with early
-- returns, and what such a run writes or reads as a list of fields.
pub mod Fields
pub mod Runs
pub mod Joins
pub mod Ends
use tetra_bs.Prelude.{
  ℕ, ◌+◌, ◌%◌, ◌/◌, ◌*◌, ◌^◌, Bool, true, false, Option, none, some, List, [], ◌∷◌, if◌then◌else◌,
  Errno,
}
use tetra_bs.Core.BitBuffer.{
  BitBuffer, bb_put_bits, bb_get_bits, bb_remaining, bb_pos_bits, bb_seek_bits,
}

-- A function on a bit buffer returns, returns a negated errno, or fails an assertion.
pub data Step (A : Type 0) : Type 0 where
  done : A → BitBuffer → Step A
  fails : Errno → BitBuffer → Step A
  aborts : Step A

abbrev pub BitIo : Type 0 → Type 0
BitIo A = BitBuffer → Step A

unfoldable pub return : {A : Type 0} → A → BitIo A
return a bb = done a bb

abbrev pub after : {A B : Type 0} → Step A → (A → BitIo B) → Step B
after (done a bb) next = next a bb
after (fails e bb) next = fails e bb
after aborts next = aborts

infixl 5 ◌>>=◌ ◌>>◌
unfoldable pub ◌>>=◌ : {A B : Type 0} → BitIo A → (A → BitIo B) → BitIo B
◌>>=◌ m next bb = after (m bb) next

abbrev pub ◌>>◌ : {B : Type 0} → BitIo (Unit {0}) → BitIo B → BitIo B
m >> k = m >>= λ _. k

-- `if (bad) return -e;`
unfoldable pub refuse_if : Bool → Errno → BitIo (Unit {0})
refuse_if bad e bb = if bad then fails e bb else done tt bb

unfoldable pub put_bits : ℕ → ℕ → BitIo (Unit {0})
put_bits v n bb = elim (bb_put_bits bb v n) [ none ↦ aborts | some bb' ↦ done tt bb' ]

unfoldable pub get_bits : ℕ → BitIo ℕ
get_bits n bb = elim (bb_get_bits bb n) [ none ↦ aborts | some (v, bb') ↦ done v bb' ]

unfoldable pub seek_bits : ℕ → BitIo (Unit {0})
seek_bits pos bb = elim (bb_seek_bits bb pos) [ none ↦ aborts | some bb' ↦ done tt bb' ]

-- A look at the buffer that changes nothing.
unfoldable pub look : {A : Type 0} → (BitBuffer → A) → BitIo A
look f bb = done (f bb) bb

-- A field's width and its value
abbrev pub Field : Type 0
Field = ℕ × ℕ

-- The run of puts that writes fields.
abbrev pub emit : List Field → BitIo (Unit {0})
emit [] = return tt
emit ((n, v) ∷ fs) = do put_bits v n; emit fs

abbrev pub width : List Field → ℕ
width [] = 0
width ((n, v) ∷ fs) = n + width fs

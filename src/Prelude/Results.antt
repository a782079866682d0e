-- ===== src/Prelude/Results.antt =====
-- The C functions return 0 or a count, or a negated errno: a result here.

use mathlib.Core.Bool.{Bool, true, false}

-- The errno values that the sources return, without their sign.
pub data Errno : Type 0 where
  einval enospc e2big eproto enoent eperm ebusy ebadmsg emsgsize ebadf eio enotsup : Errno

pub data Result {ℓ} (A : Type ℓ) : Type ℓ where
  ok : A → Result A
  err : Errno → Result A

infixl 5 ◌>>◌ ◌>>=◌
abbrev pub ◌>>=◌ {ℓ κ} : {A : Type ℓ} {B : Type κ} → Result A → (A → Result B) → Result B
err e >>= next = err e
ok x >>= next = next x

abbrev pub ◌>>◌ {κ} : {B : Type κ} → Result (Unit {0}) → Result B → Result B
err e >> next = err e
ok x >> next = next

-- `if (bad) return -e;`
abbrev pub fail_if : Bool → Errno → Result (Unit {0})
fail_if true e = err e
fail_if false e = ok tt

abbrev pub is_ok {ℓ} : {A : Type ℓ} → Result A → Bool
is_ok (ok a) = true
is_ok (err e) = false

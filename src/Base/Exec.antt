-- ===== src/Base/Exec.antt =====
-- Methods that change an object and may fail: what was written before an error stays written, so
-- the new state comes back beside the error too.
pub mod Keeps
pub mod Fails
use podplane.Base.Tests.{if◌then◌else◌}
use mathlib.Core.Bool.{Bool}
use podplane.Base.Errors.{Error, Result, ok, err}

abbrev pub Exec : Type 0 → Type 0 → Type 0
Exec S A = S → Result A × S

unfoldable pub pure : {S A : Type 0} → A → Exec S A
pure a s = (ok a, s)

unfoldable pub lift : {S A : Type 0} → Result A → Exec S A
lift r s = (r, s)

unfoldable pub gets : {S A : Type 0} → (S → A) → Exec S A
gets f s = (ok (f s), s)

unfoldable pub modify : {S : Type 0} → (S → S) → Exec S (Unit {0})
modify f s = (ok tt, f s)

-- `if bad { return e }`
unfoldable pub fail_if : {S : Type 0} → Bool → Error → Exec S (Unit {0})
fail_if bad e s = (if bad then err e else ok tt, s)

abbrev pub continue : {S A B : Type 0} → Result A → (A → Exec S B) → Exec S B
continue (ok a) f s = f a s
continue (err e) f s = (err e, s)

infixl 5 ◌>>=◌ ◌>>◌
-- Opening this opens the other actions too.
unfoldable pub ◌>>=◌ : {S A B : Type 0} → Exec S A → (A → Exec S B) → Exec S B
unfolding pure lift gets modify fail_if
◌>>=◌ m f s = let r = m s in continue r.0 f r.1

abbrev pub ◌>>◌ : {S A B : Type 0} → Exec S A → Exec S B → Exec S B
m >> n = m >>= λ _. n

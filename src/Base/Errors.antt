-- ===== src/Base/Errors.antt =====
-- Go's `error` results. A message is kept as its format and its arguments: `errorf` is
-- `fmt.Errorf` with no error among the arguments, `wrapf` the same with a last argument `%w`.
use Prim.Native.String.{String}
use mathlib.Core.Path.{◌≡◌, refl}
use mathlib.Core.Logic.{◌⊎◌, inl, inr}
use mathlib.Core.Bool.{Bool, true, false}
use mathlib.Core.List.{List}
use podplane.Base.Ints.{ℤ}

pub data Arg : Type 0 where
  str : String → Arg
  int : ℤ → Arg

pub data Error : Type 0 where
  errorf : String → List Arg → Error
  wrapf : String → List Arg → Error → Error

-- `(T, error)`; a plain `error` is `Result (Unit {0})`, with `nil` as `ok tt`.
pub data Result {ℓ} (A : Type ℓ) : Type ℓ where
  ok : A → Result A
  err : Error → Result A

abbrev pub Checked : Type 0
Checked = Result (Unit {0})

-- The rest of a function behind a call, skipped when the call returned an error.
infixl 5 ◌>>◌
abbrev pub ◌>>◌ {ℓ} : {A : Type ℓ} → Checked → Result A → Result A
err e >> rest = err e
ok _ >> rest = rest

infixl 5 ◌>>=◌
abbrev pub ◌>>=◌ {ℓ ι} : {A : Type ℓ} {B : Type ι} → Result A → (A → Result B) → Result B
err e >>= rest = err e
ok value >>= rest = rest value

-- `if bad { return e }`
abbrev pub reject : Bool → Error → Checked
reject true e = err e
reject false e = ok tt

-- `if err := m; err != nil { return fmt.Errorf(format, args..., err) }`
abbrev pub wrapped {ℓ} : {A : Type ℓ} → String → List Arg → Result A → Result A
wrapped format args (ok a) = ok a
wrapped format args (err e) = err (wrapf format args e)

-- Accepted: the error is nil.
abbrev pub Accepts : Checked → Type 0
Accepts r = r ≡ ok tt

pub Checked-cases : (r : Checked) → Accepts r ⊎ ((e : Error) × (r ≡ err e))
Checked-cases (ok tt) = inl refl
Checked-cases (err e) = inr (e, refl)

-- A chain of checks that is accepted, taken apart from the front.
pub bind-ok {ℓ ι} :
    {A : Type ℓ} {B : Type ι} (first : Result A) (rest : A → Result B) {b : B}
    → (first >>= rest) ≡ ok b
    → (value : A) × (first ≡ ok value) × (rest value ≡ ok b)
bind-ok (err e) rest h = cc
bind-ok (ok value) rest h = (value, refl, h)

pub then-ok {ℓ} :
    {B : Type ℓ} (m : Checked) (k : Result B) {b : B} → (m >> k) ≡ ok b → Accepts m × (k ≡ ok b)
then-ok (ok tt) k h = (refl, h)
then-ok (err e) k h = cc

pub reject-ok {ℓ} :
    {B : Type ℓ} (bad : Bool) (e : Error) (k : Result B) {b : B}
    → (reject bad e >> k) ≡ ok b
    → (bad ≡ false) × (k ≡ ok b)
reject-ok true e k h = cc
reject-ok false e k h = (refl, h)

-- The last check of a chain.
pub accepted : (bad : Bool) (e : Error) → Accepts (reject bad e) → bad ≡ false
accepted true e h = cc
accepted false e h = refl

pub wrapped-ok {ℓ} :
    {A : Type ℓ} (format : String) (args : List Arg) (m : Result A) {a : A}
    → wrapped format args m ≡ ok a
    → m ≡ ok a
wrapped-ok format args (ok a) h = h
wrapped-ok format args (err e) h = cc

pub ok-injective {ℓ} : {A : Type ℓ} {a b : A} → Path (Result A) (ok a) (ok b) → a ≡ b
ok-injective h = cc

pub Result-cases {ℓ} :
    {A : Type ℓ} (r : Result A) → ((a : A) × (r ≡ ok a)) ⊎ ((e : Error) × (r ≡ err e))
Result-cases (ok a) = inl (a, refl)
Result-cases (err e) = inr (e, refl)

abbrev pub map_ok {ℓ κ} : {A : Type ℓ} {B : Type κ} → (A → B) → Result A → Result B
map_ok f (ok a) = ok (f a)
map_ok f (err e) = err e

-- ===== src/Base/Exec/Keeps.antt =====
-- A part of the state that an action leaves alone, one rule for each way to build an action; and
-- what a chain of actions that succeeds has done.
use mathlib.Core.Path.{◌≡◌, refl, ◌∙◌, ap, subst}
use mathlib.Core.Bool.{Bool, true, false}
use native.Mathlib.Omega.{arith}
use podplane.Base.Tests.{if◌then◌else◌}
use podplane.Base.Errors.{Error, Result, ok, err}
use podplane.Base.Exec.{Exec, pure, lift, gets, modify, fail_if, continue, ◌>>=◌, ◌>>◌}

-- `m` leaves what `view` shows as it was, whether it succeeds or fails.
pub record Keeps {S V A : Type 0} (view : S → V) (m : Exec S A) : Type 0 where
  pub at : (s : S) → view (m s).1 ≡ view s

module _ {S V : Type 0} {view : S → V} where
  pub Keeps-modify : (f : S → S) → ((s : S) → view (f s) ≡ view s) → Keeps view (modify f)
  unfolding modify
  Keeps-modify f h = record { at = h }

  pub Keeps-fail_if : (bad : Bool) (e : Error) → Keeps view (fail_if bad e)
  unfolding fail_if
  Keeps-fail_if bad e = record { at = λ s. refl }

module _ {S V A : Type 0} {view : S → V} where
  pub Keeps-pure : (a : A) → Keeps view (pure a)
  unfolding pure
  Keeps-pure a = record { at = λ s. refl }

  pub Keeps-lift : (r : Result A) → Keeps view (lift r)
  unfolding lift
  Keeps-lift r = record { at = λ s. refl }

  pub Keeps-gets : (f : S → A) → Keeps view (gets f)
  unfolding gets
  Keeps-gets f = record { at = λ s. refl }

  pub Keeps-if :
      (b : Bool) (m n : Exec S A) → Keeps view m → Keeps view n → Keeps view (if b then m else n)
  Keeps-if true m n km kn = km
  Keeps-if false m n km kn = kn

module _ {S V A B : Type 0} {view : S → V} where
  Keeps-continue :
      (r : Result A) (f : A → Exec S B) (s : S)
      → ((a : A) → Keeps view (f a))
      → view (continue r f s).1 ≡ view s
  Keeps-continue (ok a) f s k = (k a).at s
  Keeps-continue (err e) f s k = refl

  pub Keeps-bind :
      (m : Exec S A) (f : A → Exec S B)
      → Keeps view m
      → ((a : A) → Keeps view (f a))
      → Keeps view (m >>= f)
  unfolding ◌>>=◌
  Keeps-bind m f km kf = record { at = λ s. Keeps-continue (m s).0 f (m s).1 kf ∙ km.at s }

pub ruleset keeps_rules =
    (Keeps-modify, Keeps-fail_if, Keeps-pure, Keeps-lift, Keeps-gets, Keeps-if, Keeps-bind)

module _ {S A B : Type 0} where
  continue-ok :
      (r : Result A) (f : A → Exec S B) (s : S) {b : B}
      → (continue r f s).0 ≡ ok b
      → (a : A) × (r ≡ ok a) × ((f a s).0 ≡ ok b) × (continue r f s ≡ f a s)
  continue-ok (ok a) f s h = (a, refl, h, refl)
  continue-ok (err e) f s h = cc

  -- A chain that succeeds: its first action succeeded, and the rest ran from the state after it.
  pub bind-ok :
      (m : Exec S A) (f : A → Exec S B) (s : S) {b : B}
      → ((m >>= f) s).0 ≡ ok b
      → (a : A) × ((m s).0 ≡ ok a) × ((f a (m s).1).0 ≡ ok b) × ((m >>= f) s ≡ f a (m s).1)
  unfolding ◌>>=◌
  bind-ok m f s h = continue-ok (m s).0 f (m s).1 h

  pub run-bind :
      (m : Exec S A) (f : A → Exec S B) (s s' : S) (a : A) → m s ≡ (ok a, s') → (m >>= f) s ≡ f a s'
  unfolding ◌>>=◌
  run-bind m f s s' a h = ap (λ (r : Result A × S). continue r.0 f r.1) h

  pub lift-bind :
      (r : Result A) (a : A) (f : A → Exec S B) (s : S) → r ≡ ok a → (lift r >>= f) s ≡ f a s
  unfolding ◌>>=◌
  lift-bind r a f s h = ap (λ (q : Result A). continue q f s) h

  pub gets-bind : (g : S → A) (f : A → Exec S B) (s : S) → (gets g >>= f) s ≡ f (g s) s
  unfolding ◌>>=◌
  gets-bind g f s = refl

module _ {S B : Type 0} where
  pub fail_if-ok :
      (bad : Bool) (e : Error) (m : Exec S B) (s : S) {b : B}
      → ((fail_if bad e >> m) s).0 ≡ ok b
      → (bad ≡ false) × ((m s).0 ≡ ok b) × ((fail_if bad e >> m) s ≡ m s)
  unfolding ◌>>=◌
  fail_if-ok true e m s h = absurd (ground arith)
  fail_if-ok false e m s h = (refl, h, refl)

module _ {S A B : Type 0} where
  pub lift-ok :
      (r : Result A) (f : A → Exec S B) (s : S) {b : B}
      → ((lift r >>= f) s).0 ≡ ok b
      → (a : A) × (r ≡ ok a) × ((f a s).0 ≡ ok b) × ((lift r >>= f) s ≡ f a s)
  unfolding ◌>>=◌
  lift-ok (ok a) f s h = (a, refl, h, refl)
  lift-ok (err e) f s h = absurd (ground arith)

  -- After an action that changes nothing, the rest runs from the same state.
  pub read-ok :
      (m : Exec S A) (f : A → Exec S B) (s : S) {b : B}
      → (m s).1 ≡ s
      → ((m >>= f) s).0 ≡ ok b
      → (a : A) × ((m s).0 ≡ ok a) × ((f a s).0 ≡ ok b) × ((m >>= f) s ≡ f a s)
  read-ok m f s {b} same h =
      let (a, found, done, run) = bind-ok m f s h in
      (a, found, subst (λ t. (f a t).0 ≡ ok b) same done, run ∙ ap (f a) same)

module _ {S A : Type 0} where
  pub modify-pure : (f : S → S) (a : A) (s : S) → (modify f >> pure a) s ≡ (ok a, f s)
  unfolding ◌>>=◌ modify pure
  modify-pure f a s = refl

-- ===== src/Base/Exec/Fails.antt =====
-- A part of the state that an action leaves alone when it fails.
use mathlib.Core.Path.{◌≡◌, refl, ◌∙◌}
use native.Mathlib.Omega.{arith}
use podplane.Base.Errors.{Error, Result, ok, err}
use podplane.Base.Exec.{Exec, pure, modify, continue, ◌>>=◌, ◌>>◌}
use podplane.Base.Exec.Keeps.{Keeps}

pub record FailKeeps {S V A : Type 0} (view : S → V) (m : Exec S A) : Type 0 where
  pub at : (s : S) (e : Error) → (m s).0 ≡ err e → view (m s).1 ≡ view s

module _ {S V A B : Type 0} {view : S → V} where
  continue-FailKeeps :
      (r : Result A) (f : A → Exec S B) (s : S) (e : Error)
      → ((a : A) → FailKeeps view (f a))
      → (continue r f s).0 ≡ err e
      → view (continue r f s).1 ≡ view s
  continue-FailKeeps (ok a) f s e h failed = (h a).at s e failed
  continue-FailKeeps (err x) f s e h failed = refl

  -- What comes in front has to leave it alone in either case.
  pub FailKeeps-bind :
      (m : Exec S A) (f : A → Exec S B)
      → Keeps view m
      → ((a : A) → FailKeeps view (f a))
      → FailKeeps view (m >>= f)
  unfolding ◌>>=◌
  FailKeeps-bind m f km kf = record {
    at = λ s e failed. continue-FailKeeps (m s).0 f (m s).1 e kf failed ∙ km.at s;
  }

module _ {S V A : Type 0} {view : S → V} where
  -- A last step that cannot fail.
  pub FailKeeps-modify : (f : S → S) (a : A) → FailKeeps view (modify f >> pure a)
  unfolding ◌>>=◌ modify pure
  FailKeeps-modify f a = record { at = λ s e failed. absurd (ground arith) }

-- ===== src/Base/Assoc.antt =====
-- Go's maps with string keys: an association list, in the order in which `range` visits it.
use podplane.Base.Tests.{if◌then◌else◌, is_some}
use Prim.Native.String.{String}
use mathlib.Core.Path.{◌≡◌, refl}
use mathlib.Core.Bool.{Bool}
use mathlib.Core.Option.{Option, none, some}
use mathlib.Core.List.{List, [], ◌∷◌}
use native.Mathlib.Omega.{arith}
use text.Mathlib.Text.{◌==◌ as ◌=ˢ◌}
use text.Mathlib.TextEquality.{eq_iff}

abbrev pub Assoc {ℓ} : Type ℓ → Type ℓ
Assoc V = List (String × V)

module _ {ℓ} {V : Type ℓ} where
  -- `v, ok := m[name]`
  unfoldable pub lookup : String → Assoc V → Option V
  lookup name [] = none
  lookup name ((other, v) ∷ m) = if other =ˢ name then some v else lookup name m

  abbrev pub has_key : Assoc V → String → Bool
  has_key m k = is_some (lookup k m)

  -- `m[k] = v`
  unfoldable pub insert : String → V → Assoc V → Assoc V
  insert k v [] = (k, v) ∷ []
  insert k v ((j, w) ∷ m) = if j =ˢ k then (k, v) ∷ m else (j, w) ∷ insert k v m

  -- `delete(m, k)`
  unfoldable pub without : String → Assoc V → Assoc V
  without k [] = []
  without k ((j, w) ∷ m) = let rest = without k m in if j =ˢ k then rest else (j, w) ∷ rest

  pub lookup-insert :
      (set name : String) (v : V) (m : Assoc V)
      → lookup name (insert set v m) ≡ (if set =ˢ name then some v else lookup name m)
  unfolding lookup insert
  lookup-insert set name v [] = refl
  lookup-insert set name v ((other, w) ∷ m) =
      ground
        (arith, lookup-insert set name v m, eq_iff other set, eq_iff other name, eq_iff set name)

  pub lookup-without :
      (k j : String) (m : Assoc V) → lookup j (without k m) ≡ (if k =ˢ j then none else lookup j m)
  unfolding lookup without
  lookup-without k j [] = ground arith
  lookup-without k j ((i, w) ∷ m) =
      ground (arith, lookup-without k j m, eq_iff i k, eq_iff i j, eq_iff k j)

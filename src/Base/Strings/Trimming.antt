-- ===== src/Base/Strings/Trimming.antt =====
-- strings.TrimFunc, applied again to what it returned.
use Prim.Native.Nat.{ℕ}
use Prim.Native.Char.{Char, code}
use Prim.Native.String.{String, [], ◌∷◌}
use mathlib.Core.Path.{◌≡◌, refl, ◌∙◌, ap}
use mathlib.Core.Bool.{Bool, true, false}
use mathlib.Core.Logic.{inl, inr}
use podplane.Base.Tests.{Bool-cases}
use podplane.Base.Strings.{trim_left, trim_right, trim, keep_right, every}

module _ (p : ℕ → Bool) where
  trim_right-keep :
      (c : Char) (s : String)
      → trim_right p s ≡ s
      → trim_right p (keep_right (p (code c)) c s) ≡ keep_right (p (code c)) c s
  unfolding trim_right
  trim_right-keep c [] h = elim (Bool-cases (p (code c))) [
    | inl space ↦ rw space refl
    | inr other ↦ rw (other, trim_right) (rw other refl)
  ]
  trim_right-keep c (d ∷ s) h = ap (keep_right (p (code c)) c) h

  pub trim_right_idem : (s : String) → trim_right p (trim_right p s) ≡ trim_right p s
  unfolding trim_right
  trim_right_idem [] = refl
  trim_right_idem (c ∷ s) = trim_right-keep c (trim_right p s) (trim_right_idem s)

  keep_right-starts :
      (c : Char) (s : String)
      → p (code c) ≡ false
      → trim_left p (keep_right (p (code c)) c s) ≡ keep_right (p (code c)) c s
  unfolding trim_left
  keep_right-starts c [] h = rw h (rw h refl)
  keep_right-starts c (d ∷ s) h = rw h refl

  trim_left-trim : (s : String) → trim_left p (trim p s) ≡ trim p s
  unfolding trim_left trim_right
  trim_left-trim [] = refl
  trim_left-trim (c ∷ s) = elim (Bool-cases (p (code c))) [
    | inl space ↦ rw space (trim_left-trim s)
    | inr other ↦ rw other (keep_right-starts c (trim_right p s) other)
  ]

  pub trim_idem : (s : String) → trim p (trim p s) ≡ trim p s
  trim_idem s = ap (trim_right p) (trim_left-trim s) ∙ trim_right_idem (trim_left p s)

keep_right-empty :
    (b : Bool) (c : Char) (t : String) → keep_right b c t ≡ [] → (b ≡ true) × (t ≡ [])
keep_right-empty true c [] h = (refl, refl)
keep_right-empty false c [] h = cc
keep_right-empty b c (d ∷ t) h = cc

module _ (p : ℕ → Bool) where
  trim_right-empty : (s : String) → trim_right p s ≡ [] → every p s ≡ true
  unfolding trim_right
  trim_right-empty [] h = refl
  trim_right-empty (c ∷ s) h =
      let (first, rest) = keep_right-empty (p (code c)) c (trim_right p s) h in
      rw first (trim_right-empty s rest)

  trim_left-every : (s : String) → every p (trim_left p s) ≡ true → every p s ≡ true
  unfolding trim_left
  trim_left-every [] h = refl
  trim_left-every (c ∷ s) h = elim (Bool-cases (p (code c))) [
    | inl in_set ↦ rw in_set (trim_left-every s (rw in_set at h))
    | inr out ↦ rw out at h
  ]

  -- Nothing is left only of a text with no other characters.
  pub trim-empty : (s : String) → trim p s ≡ [] → every p s ≡ true
  trim-empty s h = trim_left-every s (trim_right-empty (trim_left p s) h)

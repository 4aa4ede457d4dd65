-- ===== src/Base/Lists.antt =====
-- Go's slices and `range` loops over them.
use Prim.Native.Nat.{ℕ, suc, ◌+◌}
use Prim.Native.String.{String}
use mathlib.Core.Path.{◌≡◌, refl}
use mathlib.Core.Logic.{◌↔◌, ◌⊎◌, inl, inr}
use mathlib.Core.Bool.{Bool, true, false, ◌||◌, ◌&&◌}
use mathlib.Core.List.{List, [], ◌∷◌, ◌++◌}
use native.Mathlib.Omega.{arith}
use text.Mathlib.Text.{◌==◌ as ◌=ˢ◌}
use podplane.Base.Tests.{if◌then◌else◌, Bool-cases}
use podplane.Base.Errors.{ok, Checked, ◌>>◌, Accepts, then-ok}

module _ {ℓ} {A : Type ℓ} where
  abbrev pub length : List A → ℕ
  length [] = 0
  length (x ∷ xs) = suc (length xs)

  pub length-append : (xs ys : List A) → length (xs ++ ys) ≡ length xs + length ys
  length-append [] ys = omega arith
  length-append (x ∷ xs) ys = ground (arith, length-append xs ys)

  abbrev pub is_empty : List A → Bool
  is_empty [] = true
  is_empty (x ∷ xs) = false

  abbrev pub any : (A → Bool) → List A → Bool
  any p [] = false
  any p (x ∷ xs) = p x || any p xs

  abbrev pub all : (A → Bool) → List A → Bool
  all p [] = true
  all p (x ∷ xs) = p x && all p xs

  -- `for _, x := range xs { if err := f(x); err != nil { return err } }`
  abbrev pub for_each : (A → Checked) → List A → Checked
  for_each f [] = ok tt
  for_each f (x ∷ xs) = f x >> for_each f xs

  -- The same with the index, from `i` on.
  abbrev pub for_index : (ℕ → A → Checked) → ℕ → List A → Checked
  for_index f i [] = ok tt
  for_index f i (x ∷ xs) = f i x >> for_index f (i + 1) xs

module _ {ℓ κ} {A : Type ℓ} (P : A → Type κ) where
  abbrev pub All : List A → Type κ
  All [] = Unit
  All (x ∷ xs) = P x × All xs

-- One of the items has the property, as data: which item, and why.
module _ {ℓ κ} {A : Type ℓ} (P : A → Type κ) where
  pub data Any : List A → Type (ℓ ⊔ κ) where
    here : {x : A} {xs : List A} → P x → Any (x ∷ xs)
    there : {x : A} {xs : List A} → Any xs → Any (x ∷ xs)

-- Insertion sort, for the functions of package slices and package sort that sort.
module _ {ℓ} {A : Type ℓ} (le : A → A → Bool) where
  unfoldable pub insert_sorted : A → List A → List A
  insert_sorted x [] = x ∷ []
  insert_sorted x (y ∷ ys) =
      let rest = insert_sorted x ys in if le x y then x ∷ y ∷ ys else y ∷ rest

  unfoldable pub sort : List A → List A
  sort [] = []
  sort (x ∷ xs) = insert_sorted x (sort xs)

-- `slices.Contains` on strings.
abbrev pub contains : List String → String → Bool
contains xs s = any (λ x. x =ˢ s) xs

pub List-cases {ℓ} :
    {A : Type ℓ} (xs : List A) → (xs ≡ []) ⊎ ((y : A) × (ys : List A) × (xs ≡ y ∷ ys))
List-cases [] = inl refl
List-cases (x ∷ xs) = inr (x, xs, refl)

module _ {ℓ} {A : Type ℓ} where
  -- A loop of checks is accepted exactly when each check is.
  pub for_each-ok :
      (f : A → Checked) (xs : List A) → Accepts (for_each f xs) → All (λ x. Accepts (f x)) xs
  for_each-ok f [] h = tt
  for_each-ok f (x ∷ xs) h =
      let (first, rest) = then-ok (f x) (for_each f xs) h in (first, for_each-ok f xs rest)

  pub for_each_of_All :
      (f : A → Checked) (xs : List A) → All (λ x. Accepts (f x)) xs → Accepts (for_each f xs)
  for_each_of_All f [] h = refl
  for_each_of_All f (x ∷ xs) (first, rest) = rw first (for_each_of_All f xs rest)

  pub for_index-ok :
      (f : ℕ → A → Checked) (i : ℕ) (xs : List A)
      → Accepts (for_index f i xs)
      → All (λ x. (j : ℕ) × Accepts (f j x)) xs
  for_index-ok f i [] h = tt
  for_index-ok f i (x ∷ xs) h =
      let (first, rest) = then-ok (f i x) (for_index f (i + 1) xs) h in
      ((i, first), for_index-ok f (i + 1) xs rest)

module _ {ℓ κ ι} {A : Type ℓ} {P : A → Type κ} {Q : A → Type ι} where
  pub All-map : (xs : List A) → ((x : A) → P x → Q x) → All P xs → All Q xs
  All-map [] f h = tt
  All-map (x ∷ xs) f (p, ps) = (f x p, All-map xs f ps)

module _ {ℓ κ} {A : Type ℓ} (P : A → Type κ) (le : A → A → Bool) where
  pub All-insert_sorted : (x : A) (xs : List A) → All P (insert_sorted le x xs) ↔ (P x × All P xs)
  unfolding insert_sorted
  All-insert_sorted x [] = (λ h. h, λ h. h)
  All-insert_sorted x (y ∷ ys) = elim (Bool-cases (le x y)) [
    | inl low ↦ rw low (λ h. h, λ h. h)
    | inr high ↦ rw high (ground (arith, All-insert_sorted x ys))
  ]

  -- A sorted list has the items of the list.
  pub All-sort : (xs : List A) → All P (sort le xs) ↔ All P xs
  unfolding sort
  All-sort [] = (λ h. h, λ h. h)
  All-sort (x ∷ xs) =
      let (from, to) = All-insert_sorted x (sort le xs) in
      let (out, back) = All-sort xs in
      (λ h. let (px, pxs) = from h in (px, out pxs), λ h. to (h.0, back h.1))

-- ===== src/FakeVault/Handler/StorePaths.antt =====
-- What the store's CleanPath makes of a path that the handler has let through.
use Prim.Native.Char.{Char}
use Prim.Native.String.{String, [], ◌∷◌, ◌++◌ as ◌<>◌}
use Prim.Native.String.append
use podplane.Base.{true, ◌≡◌, ◌⊎◌, inl, inr, refl, sym, ap, ◌∙◌, subst, arith, Option-cases}
use podplane.Base.Strings.{
  cut_prefix, has_prefix, trim, trim_left, trim_right, trim_prefix, is_space, is_slash,
}
use podplane.Base.Strings.Prefixes.{trim_right-append, append-cut_prefix}
use podplane.FakeVault.Paths.{clean_path}

-- What is left of a text without white space and then slashes at its end.
abbrev pub kept : String → String
kept rest = trim_right is_slash (trim_right is_space rest)

-- The path that was let through begins with the scope. So does the path that the store uses, with
-- what is kept of the rest behind it, unless the rest is only white space and slashes.
abbrev pub StaysIn : String → String → Type 0
StaysIn scope clean =
    (rest : String) × (clean ≡ scope <> rest)
    × ((kept rest ≡ "") ⊎ (clean_path ("/" <> clean) ≡ scope <> kept rest))

String-cases : (s : String) → (s ≡ "") ⊎ ((d : Char) × (r : String) × (s ≡ d ∷ r))
String-cases [] = inl refl
String-cases (d ∷ r) = inr (d, r, refl)

abbrev slash : Char
slash = "/"

abbrev first : Char
first = "s"

-- The cleaning of a text that begins as a path below "secret/" does.
clean_path-below :
    (a : String) (b : String)
    → trim_right is_space (slash ∷ b) ≡ slash ∷ (first ∷ a)
    → clean_path (slash ∷ b) ≡ trim_right is_slash (first ∷ a)
unfolding clean_path trim_left cut_prefix
clean_path-below a b h = ap (λ t. trim is_slash (trim_prefix (trim_prefix t "/") "v1/")) h

clean_path-kept :
    (a rest : String) (d e : Char) (r q : String)
    → trim_right is_space rest ≡ d ∷ r
    → trim_right is_slash (d ∷ r) ≡ e ∷ q
    → clean_path ("/" <> ((first ∷ a) <> rest)) ≡ (first ∷ a) <> (e ∷ q)
clean_path-kept a rest d e r q spaces slashes =
    let front : "/" <> ((first ∷ a) <> rest) ≡ slash ∷ ((first ∷ a) <> rest) =
      append.cons slash [] ((first ∷ a) <> rest)
      ∙ ap (λ t. slash ∷ t) (append.nil ((first ∷ a) <> rest)) in
    let whole : trim_right is_space ((slash ∷ (first ∷ a)) <> rest)
        ≡ (slash ∷ (first ∷ a)) <> (d ∷ r) =
      trim_right-append is_space (slash ∷ (first ∷ a)) rest d r spaces in
    let split : (slash ∷ (first ∷ a)) <> (d ∷ r) ≡ slash ∷ (first ∷ (a <> (d ∷ r))) =
      append.cons slash (first ∷ a) (d ∷ r) ∙ ap (λ t. slash ∷ t) (append.cons first a (d ∷ r)) in
    let trimmed : trim_right is_space (slash ∷ ((first ∷ a) <> rest))
        ≡ slash ∷ (first ∷ (a <> (d ∷ r))) =
      ap (trim_right is_space) (sym (append.cons slash (first ∷ a) rest)) ∙ whole ∙ split in
    ap clean_path front
    ∙ clean_path-below (a <> (d ∷ r)) ((first ∷ a) <> rest) trimmed
    ∙ ap (trim_right is_slash) (sym (append.cons first a (d ∷ r)))
    ∙ trim_right-append is_slash (first ∷ a) (d ∷ r) e q slashes

stays :
    (a rest : String)
    → (kept rest ≡ "") ⊎ (clean_path ("/" <> ((first ∷ a) <> rest)) ≡ (first ∷ a) <> kept rest)
unfolding trim_right
stays a rest = elim (String-cases (trim_right is_space rest)) [
  | inl none_left ↦ inl (ap (trim_right is_slash) none_left)
  | inr (d, r, spaces) ↦ elim (String-cases (trim_right is_slash (d ∷ r))) [
    | inl none_left ↦ inl (ap (trim_right is_slash) spaces ∙ none_left)
    | inr (e, q, slashes) ↦ inr (
        clean_path-kept a rest d e r q spaces slashes
        ∙ ap (λ t. (first ∷ a) <> t) (sym (ap (trim_right is_slash) spaces ∙ slashes)))
  ]
]

pub has_prefix-StaysIn :
    (scope below clean : String)
    → scope ≡ "secret/data/" <> below
    → has_prefix clean scope ≡ true
    → StaysIn scope clean
has_prefix-StaysIn scope below clean starts h = elim (Option-cases (cut_prefix clean scope)) [
  | inl missing ↦ absurd (ground arith)
  | inr (rest, found) ↦
      let split = append-cut_prefix clean scope rest found in
      let scope_starts : scope ≡ first ∷ ("ecret/data/" <> below) =
        starts ∙ append.cons first "ecret/data/" below in
      (
        rest,
        split,
        subst (λ c. (kept rest ≡ "") ⊎ (clean_path ("/" <> c) ≡ scope <> kept rest)) (sym split)
            (subst (λ t. (kept rest ≡ "") ⊎ (clean_path ("/" <> (t <> rest)) ≡ t <> kept rest))
              (sym scope_starts) (stays ("ecret/data/" <> below) rest)),
      )
]

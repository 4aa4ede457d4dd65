-- ===== src/Base/Strings/Prefixes.antt =====
-- What strings.CutPrefix and strings.TrimRightFunc do to texts put together.
use Prim.Native.Nat.{ℕ}
use Prim.Native.Char.{Char, code}
use Prim.Native.String.{String, [], ◌∷◌, ◌++◌ as ◌<>◌}
use Prim.Native.String.append
use text.Mathlib.TextEquality.{Char-path}
use podplane.Base.{
  Bool, true, ◌≡◌, refl, sym, ap, ◌∙◌, arith, ◌==◌, Option, some, inl, inr, Bool-cases,
}
use podplane.Base.Strings.{cut_prefix, trim_right, keep_right}

keep_right-filled :
    (b : Bool) (c : Char) (a : String) (d : Char) (r : String)
    → keep_right b c (a <> (d ∷ r)) ≡ c ∷ (a <> (d ∷ r))
keep_right-filled b c [] d r = rw (append.nil (d ∷ r)) refl
keep_right-filled b c (e ∷ a) d r = rw (append.cons e a (d ∷ r)) refl

-- Where something is left of the end, the trimming stops there.
pub trim_right-append :
    (p : ℕ → Bool) (a b : String) (d : Char) (r : String)
    → trim_right p b ≡ d ∷ r
    → trim_right p (a <> b) ≡ a <> (d ∷ r)
unfolding trim_right
trim_right-append p [] b d r h = rw (append.nil b, append.nil (d ∷ r)) h
trim_right-append p (c ∷ a) b d r h =
    rw (append.cons c a b, append.cons c a (d ∷ r))
      (ap (keep_right (p (code c)) c) (trim_right-append p a b d r h)
        ∙ keep_right-filled (p (code c)) c a d r)

some-injective : {a b : String} → Path (Option String) (some a) (some b) → a ≡ b
some-injective h = cc

eq_of_test : (m n : ℕ) → (m == n) ≡ true → m ≡ n
eq_of_test m n h = ground arith

pub append-cut_prefix : (s p t : String) → cut_prefix s p ≡ some t → s ≡ p <> t
unfolding cut_prefix
append-cut_prefix s [] t h = some-injective h ∙ sym (append.nil t)
append-cut_prefix [] (d ∷ p) t h = absurd (ground arith)
append-cut_prefix (c ∷ s) (d ∷ p) t h = elim (Bool-cases (code c == code d)) [
  | inl same ↦
      let rest : cut_prefix s p ≡ some t = rw same at h in
      let tail = append-cut_prefix s p t rest in
      let head = Char-path c d (eq_of_test (code c) (code d) same) in
      ap (λ e. e ∷ s) head ∙ (ap (λ u. d ∷ u) tail ∙ sym (append.cons d p t))
  | inr other ↦ absurd (ground arith)
]

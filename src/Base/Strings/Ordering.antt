-- ===== src/Base/Strings/Ordering.antt =====
-- The order of texts, as Go's comparison operators on strings have it.
use Prim.Native.Char.{code}
use Prim.Native.String.{String, [], ◌∷◌}
use mathlib.Core.Path.{◌≡◌, refl, ap, ◌∙◌}
use mathlib.Core.Bool.{true, false}
use native.Mathlib.Omega.{arith}
use text.Mathlib.TextEquality.{Char-path}
use podplane.Base.Strings.{string_le}

pub string_le_trans :
    (a b c : String) → string_le a b ≡ true → string_le b c ≡ true → string_le a c ≡ true
unfolding string_le
string_le_trans [] b c h k = refl
string_le_trans (x ∷ a) [] c h k = absurd (ground arith)
string_le_trans (x ∷ a) (y ∷ b) [] h k = absurd (ground arith)
string_le_trans (x ∷ a) (y ∷ b) (z ∷ c) h k = ground (arith, string_le_trans a b c)

pub string_le_antisym : (a b : String) → string_le a b ≡ true → string_le b a ≡ true → a ≡ b
unfolding string_le
string_le_antisym [] [] h k = refl
string_le_antisym [] (y ∷ b) h k = absurd (ground arith)
string_le_antisym (x ∷ a) [] h k = absurd (ground arith)
string_le_antisym (x ∷ a) (y ∷ b) h k =
    let heads : code x ≡ code y = ground arith in
    let tails : (string_le a b ≡ true) × (string_le b a ≡ true) = ground arith in
    ap (λ c. c ∷ a) (Char-path x y heads) ∙ ap (λ s. y ∷ s) (string_le_antisym a b tails.0 tails.1)

pub string_le_total : (a b : String) → string_le a b ≡ false → string_le b a ≡ true
unfolding string_le
string_le_total [] b h = absurd (ground arith)
string_le_total (x ∷ a) [] h = refl
string_le_total (x ∷ a) (y ∷ b) h = ground (arith, string_le_total a b)

-- ===== src/FakeVault/Tests/Encodings.antt =====
-- Texts, numbers and lists written as lists of numbers, and read back: what the concrete codec of
-- the tests is made of.
use Prim.Native.Nat.{compare, Ordering}
use Prim.Native.Char.{Char, char, code, nul, IsScalar, IsLt}
use Prim.Native.String.{[] as []ˢ, ◌∷◌ as ◌∷ˢ◌}
use podplane.Base.{
  ℕ, zero, suc, ℤ, pos, negsuc, String, Bool, true, false, List, [], ◌∷◌, Option, none, some, ◌≡◌,
  refl, length,
}
use text.Mathlib.TextEquality.{Char-path}

-- A way of writing values in front of a list of numbers, and of reading them back.
pub record Encoding (A : Type 0) : Type 0 where
  pub put : A → List ℕ → List ℕ
  pub get : List ℕ → Option (A × List ℕ)
  pub get-put : (a : A) (rest : List ℕ) → get (put a rest) ≡ some (a, rest)

abbrev get_number : List ℕ → Option (ℕ × List ℕ)
get_number [] = none
get_number (n ∷ rest) = some (n, rest)

abbrev pub number : Encoding ℕ
number = record { put = λ n rest. n ∷ rest; get = get_number; get-put = λ n rest. refl }

abbrev then_get :
    {A B : Type 0} → Option (A × List ℕ) → (A → List ℕ → Option (B × List ℕ)) → Option (B × List ℕ)
then_get none f = none
then_get (some (a, rest)) f = f a rest

abbrev done : {A B : Type 0} → (A → B) → Option (A × List ℕ) → Option (B × List ℕ)
done f none = none
done f (some (a, rest)) = some (f a, rest)

abbrev pub both : {A B : Type 0} → Encoding A → Encoding B → Encoding (A × B)
both x y = record {
  put = λ (a, b) rest. x.put a (y.put b rest);
  get = λ rest. then_get (x.get rest) (λ a left. done (λ b. (a, b)) (y.get left));
  get-put = λ (a, b) rest. rw (x.get-put a (y.put b rest), y.get-put b rest) refl;
}

-- Values that are made of values that can be written.
abbrev pub through :
    {A B : Type 0}
    → (to : B → A) (from : A → B) → ((b : B) → from (to b) ≡ b)
    → Encoding A
    → Encoding B
through to from same x = record {
  put = λ b rest. x.put (to b) rest;
  get = λ rest. done from (x.get rest);
  get-put = λ b rest. rw (x.get-put (to b) rest, same b) refl;
}

module _ {A : Type 0} (x : Encoding A) where
  abbrev put_items : List A → List ℕ → List ℕ
  put_items [] rest = rest
  put_items (a ∷ items) rest = x.put a (put_items items rest)

  abbrev get_items : ℕ → List ℕ → Option (List A × List ℕ)
  get_items zero rest = some ([], rest)
  get_items (suc n) rest =
      then_get (x.get rest) (λ a left. done (λ items. a ∷ items) (get_items n left))

  abbrev get_items-put_items :
      (items : List A) (rest : List ℕ)
      → get_items (length items) (put_items items rest) ≡ some (items, rest)
  get_items-put_items [] rest = refl
  get_items-put_items (a ∷ items) rest =
      rw (x.get-put a (put_items items rest), get_items-put_items items rest) refl

  abbrev pub list : Encoding (List A)
  list = record {
    put = λ items rest. length items ∷ put_items items rest;
    get = λ rest. then_get (get_number rest) get_items;
    get-put = get_items-put_items;
  }

abbrev bool_code : Bool → ℕ
bool_code true = 1
bool_code false = 0

abbrev bool_of : ℕ → Bool
bool_of zero = false
bool_of (suc n) = true

abbrev bool_of_code : (b : Bool) → bool_of (bool_code b) ≡ b
bool_of_code true = refl
bool_of_code false = refl

abbrev pub bool : Encoding Bool
bool = through bool_code bool_of bool_of_code number

abbrev int_code : ℤ → Bool × ℕ
int_code (pos n) = (true, n)
int_code (negsuc n) = (false, n)

abbrev int_of : Bool × ℕ → ℤ
int_of (true, n) = pos n
int_of (false, n) = negsuc n

abbrev int_of_code : (z : ℤ) → int_of (int_code z) ≡ z
int_of_code (pos n) = refl
int_of_code (negsuc n) = refl

abbrev pub int : Encoding ℤ
int = through int_code int_of int_of_code (both bool number)

-- What `IsScalar` says of the three comparisons that it makes.
abbrev InPlanes : Ordering → Ordering → Type 0
InPlanes Ordering.lt o = IsLt o
InPlanes Ordering.eq _ = ⊥
InPlanes Ordering.gt _ = ⊥

abbrev Scalar : Ordering → Ordering → Ordering → Type 0
Scalar Ordering.lt _ _ = Unit
Scalar Ordering.eq o p = InPlanes o p
Scalar Ordering.gt o p = InPlanes o p

abbrev in_planes? : (o p : Ordering) → Option (InPlanes o p)
in_planes? Ordering.lt Ordering.lt = some tt
in_planes? Ordering.lt Ordering.eq = none
in_planes? Ordering.lt Ordering.gt = none
in_planes? Ordering.eq p = none
in_planes? Ordering.gt p = none

abbrev scalar? : (o p q : Ordering) → Option (Scalar o p q)
scalar? Ordering.lt p q = some tt
scalar? Ordering.eq p q = in_planes? p q
scalar? Ordering.gt p q = in_planes? p q

abbrev in_planes?-some :
    (o p : Ordering) (x : InPlanes o p) → (y : InPlanes o p) × (in_planes? o p ≡ some y)
in_planes?-some Ordering.lt Ordering.lt x = (tt, refl)
in_planes?-some Ordering.lt Ordering.eq x = absurd x
in_planes?-some Ordering.lt Ordering.gt x = absurd x
in_planes?-some Ordering.eq p x = absurd x
in_planes?-some Ordering.gt p x = absurd x

abbrev scalar?-some :
    (o p q : Ordering) (x : Scalar o p q) → (y : Scalar o p q) × (scalar? o p q ≡ some y)
scalar?-some Ordering.lt p q x = (tt, refl)
scalar?-some Ordering.eq p q x = in_planes?-some p q x
scalar?-some Ordering.gt p q x = in_planes?-some p q x

abbrev char_with : (n : ℕ) → Option (IsScalar n) → Char
char_with n none = nul
char_with n (some p) = char n p

abbrev char_of : ℕ → Char
char_of n = char_with n (scalar? (compare n 55296) (compare 57343 n) (compare n 1114112))

abbrev char_of_code : (c : Char) → char_of (code c) ≡ c
char_of_code (char n p) =
    let (y, found) = scalar?-some (compare n 55296) (compare 57343 n) (compare n 1114112) p in
    rw found (Char-path (char n y) (char n p) refl)

abbrev codes : String → List ℕ
codes []ˢ = []
codes (c ∷ˢ s) = code c ∷ codes s

abbrev of_codes : List ℕ → String
of_codes [] = []ˢ
of_codes (n ∷ ns) = char_of n ∷ˢ of_codes ns

abbrev of_codes-codes : (s : String) → of_codes (codes s) ≡ s
of_codes-codes []ˢ = refl
of_codes-codes (c ∷ˢ s) = rw (char_of_code c, of_codes-codes s) refl

abbrev pub words : Encoding String
words = through codes of_codes of_codes-codes (list number)

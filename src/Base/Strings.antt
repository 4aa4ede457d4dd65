-- ===== src/Base/Strings.antt =====
-- The functions of Go's package strings that the program calls. Characters are read as code
-- points, as Go's `range` over a string does.
pub mod Trimming
pub mod Prefixes
pub mod Ordering
use Prim.Native.Nat.{ℕ, zero, suc, ◌/◌, ◌%◌}
use Prim.Native.Char.{Char, code}
use Prim.Native.String.{String, [], ◌∷◌, ◌++◌ as ◌<>◌}
use mathlib.Core.Bool.{Bool, true, false, ◌&&◌, ◌||◌}
use mathlib.Core.Option.{Option, none, some}
use mathlib.Core.List.{List, [], ◌∷◌}
use text.Mathlib.Text.{◌==◌ as ◌=ˢ◌}
use podplane.Base.Tests.{ltb, leb, ◌==◌, if◌then◌else◌, is_some}

-- unicode.IsSpace
abbrev pub is_space : ℕ → Bool
is_space c =
    c == 0x20
    || (leb 9 c && leb c 13)
    || c == 0x85
    || c == 0xa0
    || c == 0x1680
    || (leb 0x2000 c && leb c 0x200a)
    || c == 0x2028
    || c == 0x2029
    || c == 0x202f
    || c == 0x205f
    || c == 0x3000

-- strings.TrimLeftFunc
unfoldable pub trim_left : (ℕ → Bool) → String → String
trim_left p [] = []
trim_left p (c ∷ s) = if p (code c) then trim_left p s else c ∷ s

-- A character in front of what is left of the text behind it.
abbrev pub keep_right : Bool → Char → String → String
keep_right dropped c [] = if dropped then [] else c ∷ []
keep_right dropped c (d ∷ s) = c ∷ d ∷ s

-- strings.TrimRightFunc
unfoldable pub trim_right : (ℕ → Bool) → String → String
trim_right p [] = []
trim_right p (c ∷ s) = keep_right (p (code c)) c (trim_right p s)

-- strings.TrimFunc
abbrev pub trim : (ℕ → Bool) → String → String
trim p s = trim_right p (trim_left p s)

-- strings.TrimSpace
abbrev pub trim_space : String → String
trim_space s = trim is_space s

abbrev pub is_slash : ℕ → Bool
is_slash c = c == b'/'

-- strings.CutPrefix
unfoldable pub cut_prefix : String → String → Option String
cut_prefix s [] = some s
cut_prefix [] (d ∷ p) = none
cut_prefix (c ∷ s) (d ∷ p) = if code c == code d then cut_prefix s p else none

-- strings.HasPrefix
abbrev pub has_prefix : String → String → Bool
has_prefix s p = is_some (cut_prefix s p)

abbrev or_whole : String → Option String → String
or_whole s none = s
or_whole s (some t) = t

-- strings.TrimPrefix
abbrev pub trim_prefix : String → String → String
trim_prefix s p = or_whole s (cut_prefix s p)

-- Some character satisfies the test: strings.ContainsAny, with the test for the set.
unfoldable pub contains_any : (ℕ → Bool) → String → Bool
contains_any p [] = false
contains_any p (c ∷ s) = p (code c) || contains_any p s

abbrev pub every : (ℕ → Bool) → String → Bool
every p [] = true
every p (c ∷ s) = p (code c) && every p s

abbrev onto_first : Char → List String → List String
onto_first c [] = (c ∷ []) ∷ []
onto_first c (w ∷ ws) = (c ∷ w) ∷ ws

-- strings.Split by one character; there is always at least one part.
unfoldable pub split : ℕ → String → List String
split sep [] = [] ∷ []
split sep (c ∷ s) = if code c == sep then [] ∷ split sep s else onto_first c (split sep s)

-- strings.HasSuffix
unfoldable pub has_suffix : String → String → Bool
has_suffix [] p = p =ˢ []
has_suffix (c ∷ s) p = c ∷ s =ˢ p || has_suffix s p

-- strings.Contains
unfoldable pub contains : String → String → Bool
contains [] p = p =ˢ []
contains (c ∷ s) p = has_prefix (c ∷ s) p || contains s p

abbrev behind : Char → Option (String × String) → Option (String × String)
behind c none = none
behind c (some (before, after)) = some (c ∷ before, after)

-- strings.Cut at the first slash; `none` if there is none.
unfoldable pub cut_slash : String → Option (String × String)
cut_slash [] = none
cut_slash (c ∷ s) = if is_slash (code c) then some ([], s) else behind c (cut_slash s)

-- `s <= t`: the code points are compared, which is the order of the UTF-8 bytes.
unfoldable pub string_le : String → String → Bool
string_le [] t = true
string_le (c ∷ s) [] = false
string_le (c ∷ s) (d ∷ t) = ltb (code c) (code d) || (code c == code d && string_le s t)

-- strings.Join
unfoldable pub join : String → List String → String
join sep [] = []
join sep (s ∷ []) = s
join sep (s ∷ t ∷ ss) = (s <> sep) <> join sep (t ∷ ss)

abbrev digit : ℕ → String
digit n =
    if n == 0
    then "0"
    else (if n == 1
        then "1"
        else (if n == 2
            then "2"
            else (if n == 3
                then "3"
                else (if n == 4
                    then "4"
                    else (if n == 5
                        then "5"
                        else (if n == 6
                            then "6"
                            else (if n == 7 then "7" else (if n == 8 then "8" else "9"))))))))

-- At most so many digits.
unfoldable decimal_digits : ℕ → ℕ → String
decimal_digits zero n = ""
decimal_digits (suc digits) n =
    let before = decimal_digits digits (n / 10) in
    if ltb n 10 then digit n else before <> digit (n % 10)

-- `%d` of a number that is not negative.
unfoldable pub decimal : ℕ → String
unfolding decimal_digits
decimal n = decimal_digits (suc n) n

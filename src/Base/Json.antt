-- ===== src/Base/Json.antt =====
-- Values of Go's encoding/json in an `any`: a `map[string]any` by its entries, a float64 as a mantissa
-- and an exponent of 2.
use Prim.Native.String.{String}
use mathlib.Core.Bool.{Bool}
use text.Mathlib.Text.{◌==◌ as ◌=ˢ◌}
use podplane.Base.Tests.{if◌then◌else◌}
use podplane.Base.Ints.{ℤ}

mutual
  pub data Json : Type 0 where
    null : Json
    bool : Bool → Json
    number : ℤ → ℤ → Json
    string : String → Json
    array : Items → Json
    object : Fields → Json

  pub data Items : Type 0 where
    nil : Items
    cons : Json → Items → Items

  pub data Fields : Type 0 where
    end : Fields
    field : String → Json → Fields → Fields

-- `m[name]`; a missing key reads as nil, which is `null`'s value too.
unfoldable pub get : String → Fields → Json
get name end = null
get name (field other value rest) = if other =ˢ name then value else get name rest

-- `m[name] = value`
unfoldable pub set : String → Json → Fields → Fields
set name value end = field name value end
set name value (field other old rest) =
    if other =ˢ name then field name value rest else field other old (set name value rest)

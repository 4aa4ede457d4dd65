-- ===== src/ClusterDelete/Shards.antt =====
-- delete.go: zeroShardConfig on the document that was parsed.
pub mod Laws
use podplane.Base.{
  ℕ, pos, ◌=ℤ◌, Bool, true, false, not, ◌||◌, ◌=ˢ◌, List, [], ◌∷◌, if◌then◌else◌, Result, ok, err,
  ◌>>=◌, wrapped,
}
use podplane.Base.Json.{Json, Fields, number, object, end, field, get, set}

abbrev pub zero_number : Json
zero_number = number (pos 0) (pos 0)

-- `value == float64(0)`, which negative zero is too.
abbrev pub is_zero : Json → Bool
is_zero (number mantissa exponent) = mantissa =ℤ pos 0
is_zero _ = false

-- The body of the inner loop on one group, and whether it changed it.
abbrev zero_size : Fields → Json
zero_size fields =
    object (if is_zero (get "size" fields) then fields else set "size" zero_number fields)

abbrev pub zero_group : Json → Json
zero_group (object fields) = zero_size fields
zero_group other = other

abbrev pub changes_group : Json → Bool
changes_group (object fields) = not (is_zero (get "size" fields))
changes_group _ = false

-- The inner loop.
unfoldable pub zero_groups : Fields → Fields
zero_groups end = end
zero_groups (field name group rest) = field name (zero_group group) (zero_groups rest)

unfoldable pub changes_groups : Fields → Bool
changes_groups end = false
changes_groups (field name group rest) = changes_group group || changes_groups rest

abbrev pub zero_tenant : Json → Json
zero_tenant (object groups) = object (zero_groups groups)
zero_tenant other = other

abbrev pub changes_tenant : Json → Bool
changes_tenant (object groups) = changes_groups groups
changes_tenant _ = false

-- The outer loop.
unfoldable pub zero_tenants : Fields → Fields
zero_tenants end = end
zero_tenants (field name tenant rest) = field name (zero_tenant tenant) (zero_tenants rest)

unfoldable pub changes_tenants : Fields → Bool
changes_tenants end = false
changes_tenants (field name tenant rest) = changes_tenant tenant || changes_tenants rest

abbrev pub zero_all : Json → Json
zero_all (object tenants) = object (zero_tenants tenants)
zero_all other = other

abbrev pub changes_all : Json → Bool
changes_all (object tenants) = changes_tenants tenants
changes_all _ = false

-- The document after the loops: the maps below "groups" are changed in place.
unfoldable pub zero_document : Fields → Fields
zero_document end = end
zero_document (field name value rest) =
    if name =ˢ "groups"
    then field name (zero_all value) rest
    else field name value (zero_document rest)

unfoldable pub changes_document : Fields → Bool
changes_document doc = changes_all (get "groups" doc)

-- encoding/json on documents of a shard's configuration.
pub record DocumentCodec : Type 0 where
  pub unmarshal : List ℕ → Result Fields
  pub marshal_indent : Fields → Result (List ℕ)

-- zeroShardConfig
unfoldable pub zero_shard_config : DocumentCodec → List ℕ → Result (List ℕ × Bool)
zero_shard_config c raw = do
  doc ← wrapped "parse shard config: %w" [] (c.unmarshal raw)
  if changes_document doc
      then (do
        next ← wrapped "marshal shard config: %w" [] (c.marshal_indent (zero_document doc))
        ok (next, true))
      else ok (raw, false)

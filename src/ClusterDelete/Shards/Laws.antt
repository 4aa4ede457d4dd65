-- ===== src/ClusterDelete/Shards/Laws.antt =====
-- A shard's configuration after zeroShardConfig.
use podplane.Base.{
  ℕ, Bool, true, false, ◌=ˢ◌, String, List, [], ◌≡◌, ◌↔◌, ◌⊎◌, refl, arith, eq_iff, if◌then◌else◌,
  Result, ok, err, ◌>>=◌, bind-ok, wrapped, wrapped-ok, Bool-cases, inl, inr,
}
use podplane.Base.Json.{
  Json, Fields, null, bool, number, string, array, object, end, field, get, set,
}
use podplane.ClusterDelete.Shards.{
  zero_number, is_zero, zero_group, changes_group, zero_groups, changes_groups, zero_tenant,
  changes_tenant, zero_tenants, changes_tenants, zero_all, changes_all, zero_document,
  changes_document, DocumentCodec, zero_shard_config,
}

-- A group, if it is one, has size 0.
abbrev pub IsEmptyGroup : Json → Type 0
IsEmptyGroup (object fields) = is_zero (get "size" fields) ≡ true
IsEmptyGroup _ = Unit

abbrev pub Groups : Fields → Type 0
Groups end = Unit
Groups (field name group rest) = IsEmptyGroup group × Groups rest

abbrev pub IsEmptyTenant : Json → Type 0
IsEmptyTenant (object groups) = Groups groups
IsEmptyTenant _ = Unit

abbrev pub Tenants : Fields → Type 0
Tenants end = Unit
Tenants (field name tenant rest) = IsEmptyTenant tenant × Tenants rest

abbrev IsEmptyMap : Json → Type 0
IsEmptyMap (object tenants) = Tenants tenants
IsEmptyMap _ = Unit

-- Every group of every tenant has size 0.
abbrev pub IsScaledDown : Fields → Type 0
IsScaledDown doc = IsEmptyMap (get "groups" doc)

pub get-set :
    (name other : String) (value : Json) (fields : Fields)
    → get name (set other value fields) ≡ (if other =ˢ name then value else get name fields)
unfolding get set
get-set name other value end = refl
get-set name other value (field key old rest) =
    ground
      (arith, eq_iff key other, eq_iff key name, eq_iff other name, get-set name other value rest)

size-set : (fields : Fields) → is_zero (get "size" (set "size" zero_number fields)) ≡ true
size-set fields = rw (get-set "size" "size" zero_number fields) refl

zero_group-IsEmptyGroup : (group : Json) → IsEmptyGroup (zero_group group)
zero_group-IsEmptyGroup null = tt
zero_group-IsEmptyGroup (bool b) = tt
zero_group-IsEmptyGroup (number m e) = tt
zero_group-IsEmptyGroup (string s) = tt
zero_group-IsEmptyGroup (array items) = tt
zero_group-IsEmptyGroup (object fields) = elim (Bool-cases (is_zero (get "size" fields))) [
  | inl done ↦ rw done done
  | inr more ↦ rw more (size-set fields)
]

zero_groups-Groups : (groups : Fields) → Groups (zero_groups groups)
unfolding zero_groups
zero_groups-Groups end = tt
zero_groups-Groups (field name group rest) =
    (zero_group-IsEmptyGroup group, zero_groups-Groups rest)

zero_tenant-IsEmptyTenant : (tenant : Json) → IsEmptyTenant (zero_tenant tenant)
zero_tenant-IsEmptyTenant null = tt
zero_tenant-IsEmptyTenant (bool b) = tt
zero_tenant-IsEmptyTenant (number m e) = tt
zero_tenant-IsEmptyTenant (string s) = tt
zero_tenant-IsEmptyTenant (array items) = tt
zero_tenant-IsEmptyTenant (object groups) = zero_groups-Groups groups

zero_tenants-Tenants : (tenants : Fields) → Tenants (zero_tenants tenants)
unfolding zero_tenants
zero_tenants-Tenants end = tt
zero_tenants-Tenants (field name tenant rest) =
    (zero_tenant-IsEmptyTenant tenant, zero_tenants-Tenants rest)

zero_all-IsEmptyMap : (value : Json) → IsEmptyMap (zero_all value)
zero_all-IsEmptyMap null = tt
zero_all-IsEmptyMap (bool b) = tt
zero_all-IsEmptyMap (number m e) = tt
zero_all-IsEmptyMap (string s) = tt
zero_all-IsEmptyMap (array items) = tt
zero_all-IsEmptyMap (object tenants) = zero_tenants-Tenants tenants

-- Only the value of "groups" changes.
pub get-zero_document :
    (name : String) (doc : Fields)
    → get name (zero_document doc)
      ≡ (if "groups" =ˢ name then zero_all (get name doc) else get name doc)
unfolding get zero_document
get-zero_document name end = ground arith
get-zero_document name (field key value rest) =
    ground (
      arith,
      eq_iff key "groups",
      eq_iff key name,
      eq_iff "groups" name,
      get-zero_document name rest,
    )

pub zero_document-IsScaledDown : (doc : Fields) → IsScaledDown (zero_document doc)
zero_document-IsScaledDown doc =
    rw (get-zero_document "groups" doc) (zero_all-IsEmptyMap (get "groups" doc))

-- The loops report a change exactly when some group has another size.
changes_group_iff : (group : Json) → (changes_group group ≡ false) ↔ IsEmptyGroup group
changes_group_iff null = ground arith
changes_group_iff (bool b) = ground arith
changes_group_iff (number m e) = ground arith
changes_group_iff (string s) = ground arith
changes_group_iff (array items) = ground arith
changes_group_iff (object fields) = ground arith

changes_groups_iff : (groups : Fields) → (changes_groups groups ≡ false) ↔ Groups groups
unfolding changes_groups
changes_groups_iff end = ground arith
changes_groups_iff (field name group rest) =
    ground (arith, changes_group_iff group, changes_groups_iff rest)

changes_tenant_iff : (tenant : Json) → (changes_tenant tenant ≡ false) ↔ IsEmptyTenant tenant
changes_tenant_iff null = ground arith
changes_tenant_iff (bool b) = ground arith
changes_tenant_iff (number m e) = ground arith
changes_tenant_iff (string s) = ground arith
changes_tenant_iff (array items) = ground arith
changes_tenant_iff (object groups) = changes_groups_iff groups

changes_tenants_iff : (tenants : Fields) → (changes_tenants tenants ≡ false) ↔ Tenants tenants
unfolding changes_tenants
changes_tenants_iff end = ground arith
changes_tenants_iff (field name tenant rest) =
    ground (arith, changes_tenant_iff tenant, changes_tenants_iff rest)

changes_all_iff : (value : Json) → (changes_all value ≡ false) ↔ IsEmptyMap value
changes_all_iff null = ground arith
changes_all_iff (bool b) = ground arith
changes_all_iff (number m e) = ground arith
changes_all_iff (string s) = ground arith
changes_all_iff (array items) = ground arith
changes_all_iff (object tenants) = changes_tenants_iff tenants

pub changes_document_iff : (doc : Fields) → (changes_document doc ≡ false) ↔ IsScaledDown doc
unfolding changes_document
changes_document_iff doc = changes_all_iff (get "groups" doc)

outcome :
    (changes : Bool) (m : Result (List ℕ)) (raw next : List ℕ) (changed : Bool)
    → (if changes
        then ◌>>=◌ {B = List ℕ × Bool}
            (wrapped "marshal shard config: %w" [] m)
            (λ written. ok (written, true))
        else ok (raw, false))
      ≡ ok (next, changed)
    → ((changes ≡ false) × (changed ≡ false) × (next ≡ raw)) ⊎ ((changed ≡ true) × (m ≡ ok next))
outcome false m raw next changed h = inl (refl, cc, cc)
outcome true (err e) raw next changed h = absurd (ground arith)
outcome true (ok written) raw next changed h = inr (cc, cc)

module _ (c : DocumentCodec) where
  -- If zeroShardConfig succeeds, the contents were a document; either no change is reported,
  -- the contents are returned as they were and every group of every tenant in the document has
  -- size 0, or a change is reported, and what is returned is the encoding of the document that
  -- the loops leave, in which every group of every tenant has size 0.
  pub zero_shard_config-IsScaledDown :
      (raw next : List ℕ) (changed : Bool)
      → zero_shard_config c raw ≡ ok (next, changed)
      → (doc : Fields) × (c.unmarshal raw ≡ ok doc)
        × (((changed ≡ false) × (next ≡ raw) × IsScaledDown doc)
            ⊎ ((changed ≡ true)
                × (c.marshal_indent (zero_document doc) ≡ ok next)
                × IsScaledDown (zero_document doc)))
  unfolding zero_shard_config
  zero_shard_config-IsScaledDown raw next changed h =
      let (doc, parsed, rest) =
        bind-ok (wrapped "parse shard config: %w" [] (c.unmarshal raw)) _ h in
      (
        doc,
        wrapped-ok _ _ (c.unmarshal raw) parsed,
        elim (outcome (changes_document doc) (c.marshal_indent (zero_document doc)) raw next changed
            rest) [
              | inl (same, kept, left) ↦ inl (kept, left, (changes_document_iff doc).0 same)
              | inr (did, written) ↦ inr (did, written, zero_document-IsScaledDown doc)
            ],
      )

  -- With a codec that reads back what zeroShardConfig has it write, what zeroShardConfig
  -- returns is left alone by zeroShardConfig, with no change reported.
  pub zero_shard_config-zero_shard_config :
      ((raw next : List ℕ) (doc : Fields)
        → c.unmarshal raw ≡ ok doc
        → c.marshal_indent (zero_document doc) ≡ ok next
        → c.unmarshal next ≡ ok (zero_document doc))
      → (raw next : List ℕ) (changed : Bool) → zero_shard_config c raw ≡ ok (next, changed)
      → zero_shard_config c next ≡ ok (next, false)
  unfolding zero_shard_config
  zero_shard_config-zero_shard_config reads raw next changed h =
      let (doc, parsed, outcomes) = zero_shard_config-IsScaledDown raw next changed h in
      elim outcomes [
        | inl (kept, left, down) ↦
            (rw left (rw parsed (rw ((changes_document_iff doc).1 down) refl)))
        | inr (did, written, down) ↦
            (rw (reads raw next doc parsed written)
              (rw ((changes_document_iff (zero_document doc)).1 down) refl))
      ]

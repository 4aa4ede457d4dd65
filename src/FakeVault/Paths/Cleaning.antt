-- ===== src/FakeVault/Paths/Cleaning.antt =====
-- What a cleaned cluster ID and a cleaned path are like.
use podplane.Base.{
  String, false, ◌≡◌, ok, any, bind-ok, reject-ok, ok-injective, ◌∙◌, ◌=ˢ◌, subst, ◌||◌, ap,
}
use podplane.Base.Strings.{trim_space, is_space, contains_any, split}
use podplane.Base.Strings.Trimming.{trim_idem}
use podplane.FakeVault.Paths.{
  clean_cluster_id, clean_cluster_path, clean_path, is_separator, bad_segment,
}

-- A directory name: none of "", "." and "..", no separator in it, and no space at its ends.
pub record IsName (id : String) : Type 0 where
  pub trimmed : trim_space id ≡ id
  pub nonempty : (id =ˢ "") ≡ false
  pub plain : (id =ˢ "." || id =ˢ ".." || contains_any is_separator id) ≡ false

pub clean_cluster_id-IsName : (given id : String) → clean_cluster_id given ≡ ok id → IsName id
unfolding clean_cluster_id
clean_cluster_id-IsName given id h =
    let (nonempty, h₁) = reject-ok _ _ _ h in
    let (plain, h₂) = reject-ok _ _ _ h₁ in
    subst IsName (ok-injective h₂)
      (record { trimmed = trim_idem is_space given; nonempty = nonempty; plain = plain })

pub clean_cluster_id_of_IsName : (id : String) → IsName id → clean_cluster_id id ≡ ok id
unfolding clean_cluster_id
clean_cluster_id_of_IsName id n = rw (n.trimmed, n.nonempty, n.plain)

-- A cluster ID that was cleaned is accepted as it is, and cleaned to itself.
pub clean_cluster_id_idem :
    (given id : String) → clean_cluster_id given ≡ ok id → clean_cluster_id id ≡ ok id
clean_cluster_id_idem given id h =
    clean_cluster_id_of_IsName id (clean_cluster_id-IsName given id h)

-- A path whose parts are all names that stay below their directory.
pub record IsClean (path : String) : Type 0 where
  pub nonempty : (path =ˢ "") ≡ false
  pub segments : any bad_segment (split b'/' path) ≡ false

pub clean_cluster_path-IsClean :
    (given raw id path : String)
    → clean_cluster_path given raw ≡ ok (id, path)
    → (clean_cluster_id given ≡ ok id) × (clean_path raw ≡ path) × IsClean path
unfolding clean_cluster_path
clean_cluster_path-IsClean given raw id path h =
    let (id', clean, h₀) = bind-ok _ _ h in
    let (nonempty, h₁) = reject-ok _ _ _ h₀ in
    let (segments, h₂) = reject-ok _ _ _ h₁ in
    let same = ok-injective h₂ in
    let same_path : clean_path raw ≡ path = ap (λ (p : String × String). p.1) same in
    (
      clean ∙ ap (λ (p : String × String). ok p.0) same,
      same_path,
      subst IsClean same_path (record { nonempty = nonempty; segments = segments }),
    )

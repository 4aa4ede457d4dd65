-- ===== src/FakeVault/Secrets.antt =====
-- store.go: what a run of setSecret that reports success has done.
use podplane.Base.{
  ℤ, String, Option, ok, ◌≡◌, arith, Bool, true, Result, ◌∙◌, ap, sym, not-false, Result-cases,
  Bool-cases, inl, inr, subst, is_empty, not,
}
use podplane.Base.Assoc.{insert}
use podplane.Base.Exec.{◌>>=◌, pure}
use podplane.Base.Exec.Keeps.{bind-ok, fail_if-ok, lift-ok, read-ok}
use podplane.FakeVault.Paths.{clean_cluster_id, clean_cluster_path, secret_file_path}
use podplane.FakeVault.Paths.Cleaning.{
  clean_cluster_path-IsClean, clean_cluster_id-IsName, clean_cluster_id_of_IsName,
}
use podplane.FakeVault.Types.{Bytes, Values, SecretFile, FileStore, Codec, World}
use podplane.FakeVault.Store.{read_file, vault_key}
use podplane.FakeVault.Operations.{
  all_utf8, current_version, version_after, matches, sealed_file, write_sealed, seal_and_write,
  write_if_matched, set_clean, set_secret_at,
}
use podplane.FakeVault.Files.{write_file-ok, vault_key-Keeps-disk, read_file-Keeps, Disk}
use podplane.FakeVault.Keys.{Holds, FillsKey, vault_key-Holds}

module _ (c : Codec) (w : World) where
  -- A write that went through: the file that it found, the key and the nonce that it used, and the
  -- store that it left.
  pub record Saved (id path : String) (values : Values) (current : Option SecretFile)
      (s s' : FileStore) : Type 0 where
    pub key : Bytes
    pub nonce : Bytes
    pub drawn : w.random_nonce ≡ ok nonce
    pub held : Holds s' id key
    pub cipher : c.new_cipher key ≡ ok tt
    pub root : s'.root ≡ s.root
    pub files :
        s'.files
        ≡ insert
            (secret_file_path s.root id path)
            (c.marshal_file (sealed_file c w key nonce path values (version_after current)))
            s.files

  write_sealed-ok :
      (id path : String) (values : Values) (current : Option SecretFile) (key : Bytes)
      (s : FileStore)
      → (write_sealed c w id path values current key s).0 ≡ ok true
      → (nonce : Bytes) × (w.random_nonce ≡ ok nonce)
        × (c.new_cipher key ≡ ok tt)
        × ((write_sealed c w id path values current key s).1 ≡ record s {
          files =
              insert
                (secret_file_path s.root id path)
                (c.marshal_file (sealed_file c w key nonce path values (version_after current)))
                s.files;
          temporaries = (write_sealed c w id path values current key s).1.temporaries;
        })
  unfolding write_sealed ◌>>=◌
  write_sealed-ok id path values current key s h = elim (Result-cases w.random_nonce) [
    | inl (nonce, fine) ↦
        let file = sealed_file c w key nonce path values (version_after current) in
        (nonce, fine, ground arith, ground (arith, write_file-ok c w id path file s))
    | inr (e, failed) ↦ absurd (ground arith)
  ]

  seal_and_write-Saved :
      (id path : String) (values : Values) (current : Option SecretFile) (s : FileStore)
      → FillsKey w
      → clean_cluster_id id ≡ ok id
      → (seal_and_write c w id path values current s).0 ≡ ok true
      → Saved id path values current s (seal_and_write c w id path values current s).1
  unfolding seal_and_write
  seal_and_write-Saved id path values current s fills clean h =
      let (key, h₁, h', e₁) =
        bind-ok (vault_key c w id) (write_sealed c w id path values current) s h in
      let t = (vault_key c w id s).1 in
      let (nonce, drawn, cipher, after) = write_sealed-ok id path values current key t h' in
      let held = vault_key-Holds c w id id s key fills clean h₁ in
      let same = (vault_key-Keeps-disk c w id).at s in
      let bytes = c.marshal_file (sealed_file c w key nonce path values (version_after current)) in
      subst (Saved id path values current s)
        (sym (ap (λ (r : Result Bool × FileStore). r.1) e₁ ∙ after))
        (record {
          key = key;
          nonce = nonce;
          drawn = drawn;
          held = record { cached = held.cached; nonempty = held.nonempty };
          cipher = cipher;
          root = ap (λ (d : Disk). d.root) same;
          files = ap (λ (d : Disk). insert (secret_file_path d.root id path) bytes d.files) same;
        })

  -- A write that reports success: the ID and the path that it cleaned, the file that it found, and
  -- that this file had the version asked for.
  pub record Written (cluster raw : String) (values : Values) (version : Option ℤ)
      (s s' : FileStore) : Type 0 where
    pub id : String
    pub path : String
    pub clean : clean_cluster_path cluster raw ≡ ok (id, path)
    pub text : all_utf8 c values ≡ true
    pub current : Option SecretFile
    pub found : (read_file c w id path s).0 ≡ ok current
    pub matched : matches version (current_version current) ≡ true
    pub saved : Saved id path values current s s'

  write_if_matched-ok :
      (id path : String) (values : Values) (version : Option ℤ) (current : Option SecretFile)
      (s : FileStore)
      → (write_if_matched c w id path values version current s).0 ≡ ok true
      → (matches version (current_version current) ≡ true)
        × (write_if_matched c w id path values version current s
            ≡ seal_and_write c w id path values current s)
  unfolding write_if_matched pure
  write_if_matched-ok id path values version current s h =
      elim (Bool-cases (matches version (current_version current))) [
        | inl same ↦ (same, rw same)
        | inr other ↦ absurd (ground arith)
      ]

  set_clean-ok :
      (id path : String) (values : Values) (version : Option ℤ) (s : FileStore)
      → (set_clean c w id path values version s).0 ≡ ok true
      → (all_utf8 c values ≡ true)
        × ((current : Option SecretFile) × ((read_file c w id path s).0 ≡ ok current)
            × ((write_if_matched c w id path values version current s).0 ≡ ok true)
            × (set_clean c w id path values version s
                ≡ write_if_matched c w id path values version current s))
  unfolding set_clean
  set_clean-ok id path values version s h =
      let (_, h₁, e₁) = fail_if-ok (is_empty values) _ _ s h in
      let (text, h₂, e₂) = fail_if-ok (not (all_utf8 c values)) _ _ s h₁ in
      let (current, found, h₃, e₃) =
        read-ok (read_file c w id path) (write_if_matched c w id path values version) s
          ((read_file-Keeps c w {view = λ t. t} id path).at s) h₂ in
      (not-false _ text, (current, found, h₃, e₁ ∙ (e₂ ∙ e₃)))

  pub set_secret_at-Written :
      (cluster raw : String) (values : Values) (version : Option ℤ) (s : FileStore)
      → FillsKey w
      → (set_secret_at c w cluster raw values version s).0 ≡ ok true
      → Written cluster raw values version s (set_secret_at c w cluster raw values version s).1
  unfolding set_secret_at
  set_secret_at-Written cluster raw values version s fills h =
      let ((id, path), clean, h₁, e₁) =
        lift-ok (clean_cluster_path cluster raw) (λ p. set_clean c w p.0 p.1 values version) s h in
      let (text, (current, found, h₂, e₂)) = set_clean-ok id path values version s h₁ in
      let (matched, e₃) = write_if_matched-ok id path values version current s h₂ in
      let h₃ : (seal_and_write c w id path values current s).0 ≡ ok true = rw (← e₃) h₂ in
      let name =
        clean_cluster_id-IsName cluster id
          (clean_cluster_path-IsClean cluster raw id path clean).0 in
      let saved =
        seal_and_write-Saved id path values current s fills (clean_cluster_id_of_IsName id name)
          h₃ in
      subst (Written cluster raw values version s)
        (sym (ap (λ (r : Result Bool × FileStore). r.1) (e₁ ∙ (e₂ ∙ e₃))))
        (record {
          id = id;
          path = path;
          clean = clean;
          text = text;
          current = current;
          found = found;
          matched = matched;
          saved = saved;
        })

  pub set_secret_at-run :
      (cluster raw : String) (values : Values) (version : Option ℤ) (s s' : FileStore)
      → FillsKey w
      → set_secret_at c w cluster raw values version s ≡ (ok true, s')
      → Written cluster raw values version s s'
  set_secret_at-run cluster raw values version s s' fills run =
      subst (Written cluster raw values version s) (ap (λ (r : Result Bool × FileStore). r.1) run) (
        set_secret_at-Written cluster raw values version s fills
          (ap (λ (r : Result Bool × FileStore). r.0) run))

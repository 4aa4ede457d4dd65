-- ===== src/FakeVault/Operations.antt =====
-- store.go: the exported operations of FileStore, over the helpers of `Store`.
use podplane.Base.{
  ℕ, ℤ, pos, Bool, true, false, not, ◌&&◌, String, ◌=ℤ◌, [], ◌∷◌, all, is_empty, if◌then◌else◌,
  Option, none, some, errorf, str, wrapped, ◌=ˢ◌, ◌<>◌,
}
use podplane.Base.Assoc.{Assoc, without}
use podplane.Base.Exec.{Exec, ◌>>=◌, ◌>>◌, pure, lift, modify, fail_if}
use podplane.Base.Strings.{has_prefix}
use podplane.FakeVault.Paths.{
  clean_cluster_id, clean_cluster_path, vault_key_name, secret_file_path, cluster_dir,
}
use podplane.FakeVault.Types.{Bytes, Values, SecretFile, FileStore, Codec, World}
use podplane.FakeVault.Store.{
  attempt, algorithm, effective_version, next_version, sorted_keys, read_file, write_file,
  vault_key,
}

-- The version that a write finds: 0 where there is no file.
abbrev pub current_version : Option SecretFile → ℕ
current_version none = 0
current_version (some file) = effective_version file.version

abbrev pub version_after : Option SecretFile → ℤ
version_after none = pos 1
version_after (some file) = next_version (effective_version file.version)

abbrev pub matches : Option ℤ → ℕ → Bool
matches none n = true
matches (some v) n = v =ℤ pos n

abbrev pub all_utf8 : Codec → Values → Bool
all_utf8 c = all (λ (e : Bytes × Bytes). c.valid_utf8 e.0 && c.valid_utf8 e.1)

module _ (c : Codec) (w : World) where
  -- The file that `setSecret` writes.
  abbrev pub sealed_file : Bytes → Bytes → String → Values → ℤ → SecretFile
  sealed_file key nonce path values version = record {
    version = version;
    algorithm = algorithm;
    nonce = c.encode64 nonce;
    ciphertext = c.encode64 (c.seal key nonce (c.marshal_values values) path);
    keys = sorted_keys values;
    archived = false;
    updated_at = w.now;
  }

  -- setSecret once it has the key.
  unfoldable pub write_sealed :
      String → String → Values → Option SecretFile → Bytes → Exec FileStore Bool
  write_sealed id path values current key = do
    nonce ← lift (wrapped "create fakevault nonce: %w" [] w.random_nonce)
    lift (wrapped "create fakevault cipher: %w" [] (c.new_cipher key))
    write_file c w id path (sealed_file key nonce path values (version_after current))
    pure true

  -- setSecret from the point where the version has matched.
  unfoldable pub seal_and_write : String → String → Values → Option SecretFile → Exec FileStore Bool
  seal_and_write id path values current = do
    key ← vault_key c w id
    write_sealed id path values current key

  -- setSecret once the file is read.
  unfoldable pub write_if_matched :
      String → String → Values → Option ℤ → Option SecretFile → Exec FileStore Bool
  write_if_matched id path values version current =
      if matches version (current_version current)
      then seal_and_write id path values current
      else pure false

  -- setSecret with a cleaned ID and path.
  unfoldable pub set_clean : String → String → Values → Option ℤ → Exec FileStore Bool
  set_clean id path values version = do
    fail_if (is_empty values) (errorf "at least one key=value pair is required" [])
    fail_if (not (all_utf8 c values)) (errorf "secret keys and values must be valid UTF-8 text" [])
    current ← read_file c w id path
    write_if_matched id path values version current

  -- setSecret
  unfoldable pub set_secret_at : String → String → Values → Option ℤ → Exec FileStore Bool
  set_secret_at cluster raw values version = do
    clean ← lift (clean_cluster_path cluster raw)
    set_clean clean.0 clean.1 values version

  -- SetSecret
  unfoldable pub set_secret : String → String → Values → Exec FileStore (Unit {0})
  set_secret cluster path values = do set_secret_at cluster path values none; pure tt

  -- CreateSecret
  unfoldable pub create_secret : String → String → Values → Exec FileStore Bool
  create_secret cluster path values = set_secret_at cluster path values (some (pos 0))

  -- CompareAndSetSecret
  unfoldable pub compare_and_set_secret : String → String → ℤ → Values → Exec FileStore Bool
  compare_and_set_secret cluster path version values =
      set_secret_at cluster path values (some version)

  -- decrypt
  unfoldable pub decrypt : String → String → SecretFile → Exec FileStore Values
  decrypt id path file = do
    fail_if (not (file.algorithm =ˢ algorithm))
        (errorf "unsupported fakevault secret algorithm %q" (str file.algorithm ∷ []))
    key ← vault_key c w id
    nonce ← lift (wrapped "decode fakevault nonce: %w" [] (c.decode64 file.nonce))
    ciphertext ← lift (wrapped "decode fakevault ciphertext: %w" [] (c.decode64 file.ciphertext))
    lift (wrapped "create fakevault cipher: %w" [] (c.new_cipher key))
    plaintext ←
        lift (wrapped "decrypt fakevault secret: %w" [] (c.open_sealed key nonce ciphertext path))
    lift (wrapped "decode fakevault secret %q: %w" (str path ∷ []) (c.unmarshal_values plaintext))

  -- GetSecret from the file that was read: an archived secret reads as absent.
  unfoldable pub reveal : String → String → Option SecretFile → Exec FileStore (Option Values)
  reveal id path none = pure none
  reveal id path (some file) =
      if file.archived then pure none else (do values ← decrypt id path file; pure (some values))

  -- GetSecret
  unfoldable pub get_secret : String → String → Exec FileStore (Option Values)
  get_secret cluster raw = do
    clean ← lift (clean_cluster_path cluster raw)
    file ← read_file c w clean.0 clean.1
    reveal clean.0 clean.1 file

  -- setArchived from the file that was read.
  unfoldable pub rewrite_archived :
      String → String → Bool → Option SecretFile → Exec FileStore (Unit {0})
  rewrite_archived id path archived none = pure tt
  rewrite_archived id path archived (some file) =
      write_file c w id path (record file { archived = archived; updated_at = w.now })

  -- setArchived
  unfoldable pub set_archived : String → String → Bool → Exec FileStore (Unit {0})
  set_archived cluster raw archived = do
    clean ← lift (clean_cluster_path cluster raw)
    file ← read_file c w clean.0 clean.1
    rewrite_archived clean.0 clean.1 archived file

  -- ArchiveSecret
  unfoldable pub archive_secret : String → String → Exec FileStore (Unit {0})
  archive_secret cluster path = set_archived cluster path true

  -- RestoreSecret
  unfoldable pub restore_secret : String → String → Exec FileStore (Unit {0})
  restore_secret cluster path = set_archived cluster path false

  -- DeleteSecret with a cleaned ID and path.
  unfoldable pub remove_secret : String → String → Exec FileStore (Unit {0})
  remove_secret id path = do
    attempt "delete fakevault secret file: %w" w.remove_file
    modify
        (λ (s : FileStore). record s { files = without (secret_file_path s.root id path) s.files })

  -- DeleteSecret
  unfoldable pub delete_secret : String → String → Exec FileStore (Unit {0})
  delete_secret cluster raw = do
    clean ← lift (clean_cluster_path cluster raw)
    remove_secret clean.0 clean.1

  -- os.RemoveAll of a directory: the files below it, but for those that survive a failure.
  abbrev remove_below : String → Bool → Assoc Bytes → Assoc Bytes
  remove_below dir failed [] = []
  remove_below dir failed ((name, bytes) ∷ files) =
      let rest = remove_below dir failed files in
      if has_prefix name (dir <> "/") && not (failed && w.survives name)
      then rest
      else (name, bytes) ∷ rest

  abbrev is_fault {ℓ} : {A : Type ℓ} → Option A → Bool
  is_fault none = false
  is_fault (some e) = true

  -- DeleteCluster
  unfoldable pub delete_cluster : String → Exec FileStore (Unit {0})
  delete_cluster given = do
    id ← lift (clean_cluster_id given)
    modify (λ (s : FileStore). record s {
      files = remove_below (cluster_dir s.root id) (is_fault w.remove_all) s.files;
      temporaries = remove_below (cluster_dir s.root id) (is_fault w.remove_all) s.temporaries;
    })
    attempt "remove fakevault cluster data: %w" w.remove_all
    attempt "delete fakevault key: %w" w.keyring_delete
    modify (λ (s : FileStore). record s {
      keyring = without (vault_key_name id) s.keyring;
      keys = without id s.keys;
    })

  -- Unlock
  unfoldable pub unlock : String → Exec FileStore (Unit {0})
  unlock cluster = do vault_key c w cluster; pure tt

-- ===== src/FakeVault/Store.antt =====
-- store.go: the operations of FileStore. Each runs under the store's mutex, so calls do not
-- interleave. A call of json.Marshal on these types cannot fail, and its error return is left out.
use podplane.Base.{
  ℕ, zero, suc, ◌+◌, ◌-◌, ◌^◌, ℤ, pos, negsuc, Bool, true, false, not, String, ◌=ˢ◌, ◌==◌, List, [],
  ◌∷◌, length, if◌then◌else◌, Option, none, some, Error, errorf, wrapf, str, int, Result, ok, err,
  wrapped, map_ok, leb,
}
use podplane.Base.Assoc.{Assoc, lookup, insert, without}
use podplane.Base.Exec.{Exec, ◌>>=◌, ◌>>◌, pure, lift, gets, modify, fail_if}
use podplane.FakeVault.Paths.{clean_cluster_id, vault_key_name, secret_file_path}
use podplane.FakeVault.Types.{Bytes, Values, VaultKeyFile, SecretFile, FileStore, Codec, World}

abbrev faulted : String → Option Error → Result (Unit {0})
faulted format none = ok tt
faulted format (some e) = err (wrapf format [] e)

-- `if err != nil { return fmt.Errorf(format, err) }`
abbrev pub attempt : String → Option Error → Exec FileStore (Unit {0})
attempt format fault = lift (faulted format fault)

-- The error of an action, wrapped.
unfoldable pub relabel : String → Exec FileStore (Unit {0}) → Exec FileStore (Unit {0})
relabel format m s = let r = m s in (wrapped format [] r.0, r.1)

-- `defer func() { … }()` before an action, which leaves the action's error alone.
unfoldable pub deferred :
    (FileStore → FileStore) → Exec FileStore (Unit {0}) → Exec FileStore (Unit {0})
deferred last m s = let r = m s in (r.0, last r.1)

abbrev pub algorithm : String
algorithm = "aes-256-gcm"

abbrev pub vault_key_size : ℕ
vault_key_size = 32

-- A version that is not positive counts as 1.
abbrev pub effective_version : ℤ → ℕ
effective_version (pos zero) = 1
effective_version (pos (suc n)) = suc n
effective_version (negsuc n) = 1

-- `currentVersion + 1` in Go's 64-bit int.
abbrev pub next_version : ℕ → ℤ
next_version n = if n == 2 ^ 63 - 1 then negsuc (2 ^ 63 - 1) else pos (n + 1)

-- The order of sort.Strings.
abbrev pub bytes_le : Bytes → Bytes → Bool
bytes_le [] _ = true
bytes_le (a ∷ s) [] = false
bytes_le (a ∷ s) (b ∷ t) = if a == b then bytes_le s t else leb a b

abbrev pub insert_sorted : Bytes → List Bytes → List Bytes
insert_sorted k [] = k ∷ []
insert_sorted k (j ∷ ks) = if bytes_le k j then k ∷ j ∷ ks else j ∷ insert_sorted k ks

-- sortedKeys
unfoldable pub sorted_keys : Values → List Bytes
sorted_keys [] = []
sorted_keys ((k, v) ∷ values) = insert_sorted k (sorted_keys values)

abbrev pub cache_key : String → Bytes → FileStore → FileStore
cache_key id key s = record s { keys = insert id key s.keys }

abbrev pub write_keyring : String → Bytes → FileStore → FileStore
write_keyring item bytes s = record s { keyring = insert item bytes s.keyring }

-- A missing entry of a Go map, or of the keyring, reads as no bytes.
abbrev pub bytes_at : String → Assoc Bytes → Bytes
bytes_at k m = elim (lookup k m) [ none ↦ [] | some bytes ↦ bytes ]

unfoldable pub cached_or : Bytes → Exec FileStore Bytes → Exec FileStore Bytes
cached_or [] rest = rest
cached_or (b ∷ key) rest = pure (b ∷ key)

module _ (c : Codec) (w : World) where
  abbrev pub decode_file : Option Bytes → Result (Option SecretFile)
  decode_file none = ok none
  decode_file (some bytes) =
      map_ok some (wrapped "decode fakevault secret file: %w" [] (c.unmarshal_file bytes))

  -- readFile: `none` if there is no such file.
  unfoldable pub read_file : String → String → Exec FileStore (Option SecretFile)
  read_file id path = do
    bytes ← gets (λ s. lookup (secret_file_path s.root id path) s.files)
    attempt "read fakevault secret file: %w" w.read_file
    lift (decode_file bytes)

  abbrev pub put_temporary : Bytes → FileStore → FileStore
  put_temporary bytes s = record s {
    temporaries = insert w.write_file.temporary bytes s.temporaries;
  }

  abbrev pub removed : Option Error → FileStore → FileStore
  removed none s = record s { temporaries = without w.write_file.temporary s.temporaries }
  removed (some e) s = s

  -- What the temporary file has after the write.
  abbrev pub temporary_content : Option Error → Bytes → Bytes
  temporary_content none bytes = bytes
  temporary_content (some e) bytes = w.write_file.partial

  -- writeFileAtomic once the temporary file is there: a failure after the rename leaves the new
  -- content in place.
  unfoldable pub install : String → Bytes → Exec FileStore (Unit {0})
  install name bytes = do
    attempt "set temporary file permissions: %w" w.write_file.chmod
    modify (put_temporary (temporary_content w.write_file.write bytes))
    attempt "write temporary file: %w" w.write_file.write
    attempt "sync temporary file: %w" w.write_file.sync
    attempt "close temporary file: %w" w.write_file.close
    attempt "install file: %w" w.write_file.rename
    modify (λ s. record s {
      files = insert name bytes s.files;
      temporaries = without w.write_file.temporary s.temporaries;
    })
    attempt "open parent directory: %w" w.write_file.open_directory
    attempt "sync parent directory: %w" w.write_file.sync_directory

  -- writeFileAtomic
  unfoldable pub write_file_atomic : String → Bytes → Exec FileStore (Unit {0})
  write_file_atomic name bytes = do
    attempt "create parent directory: %w" w.write_file.mkdir
    attempt "create temporary file: %w" w.write_file.create_temp
    modify (put_temporary [])
    deferred (removed w.write_file.remove) (install name bytes)

  -- writeFile
  unfoldable pub write_file : String → String → SecretFile → Exec FileStore (Unit {0})
  write_file id path file = do
    name ← gets (λ s. secret_file_path s.root id path)
    relabel "write fakevault secret file: %w" (write_file_atomic name (c.marshal_file file))

  abbrev key_file : Bytes → VaultKeyFile
  key_file key = record { version = pos 1; algorithm = algorithm; key = c.encode64 key }

  -- vaultKey where the keyring holds no key yet.
  unfoldable pub create_key : String → Exec FileStore Bytes
  create_key id = do
    key ← lift (wrapped "create fakevault key: %w" [] w.random_key)
    attempt "write fakevault key: %w" w.keyring_write
    modify (write_keyring (vault_key_name id) (c.marshal_key (key_file key)))
    modify (cache_key id key)
    pure key

  -- vaultKey where the keyring holds a key.
  unfoldable pub load_key : String → Bytes → Exec FileStore Bytes
  load_key id bytes = do
    payload ← lift (wrapped "decode fakevault key: %w" [] (c.unmarshal_key bytes))
    fail_if (not (payload.algorithm =ˢ algorithm))
        (errorf "unsupported fakevault key algorithm %q" (str payload.algorithm ∷ []))
    key ← lift (wrapped "decode fakevault key bytes: %w" [] (c.decode64 payload.key))
    fail_if (not (length key == vault_key_size)) (
        errorf "fakevault key has %d bytes, want %d"
          (int (pos (length key)) ∷ int (pos vault_key_size) ∷ []))
    modify (cache_key id key)
    pure key

  -- vaultKey with a cleaned ID, past the cache.
  unfoldable pub keyring_key : String → Bytes → Exec FileStore Bytes
  keyring_key id [] = create_key id
  keyring_key id (b ∷ bytes) = load_key id (b ∷ bytes)

  -- vaultKey where the key is not in memory.
  unfoldable pub fetch_key : String → Exec FileStore Bytes
  fetch_key id = do
    attempt "read fakevault key: %w" w.keyring_read
    bytes ← gets (λ s. bytes_at (vault_key_name id) s.keyring)
    keyring_key id bytes

  -- vaultKey with a cleaned ID.
  unfoldable pub ensure_key : String → Exec FileStore Bytes
  ensure_key id = do cached ← gets (λ s. bytes_at id s.keys); cached_or cached (fetch_key id)

  -- vaultKey
  unfoldable pub vault_key : String → Exec FileStore Bytes
  vault_key given = do id ← lift (clean_cluster_id given); ensure_key id

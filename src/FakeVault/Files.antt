-- ===== src/FakeVault/Files.antt =====
-- What the helpers of FileStore leave alone, and what a write does.
use podplane.Base.{String, List, [], ◌∷◌, Option, none, ok, Error, ◌≡◌, arith}
use podplane.Base.Assoc.{insert}
use podplane.Base.Exec.{Exec, ◌>>=◌}
use podplane.Base.Exec.Keeps.{Keeps, Keeps-lift, keeps_rules}
use podplane.FakeVault.Paths.{secret_file_path}
use podplane.FakeVault.Types.{Bytes, SecretFile, FileStore, Codec, World}
use podplane.FakeVault.Store.{
  attempt, read_file, write_file, write_file_atomic, vault_key, create_key, load_key, keyring_key,
  cached_or, relabel, ensure_key, fetch_key, install, deferred,
}

pub attempt-Keeps :
    {V : Type 0} {view : FileStore → V} (format : String) (fault : Option Error)
    → Keeps view (attempt format fault)
attempt-Keeps format fault = Keeps-lift _

pub ruleset store_rules = (keeps_rules, attempt-Keeps)

-- The root and the files, temporary ones too, which a call for a key leaves alone.
pub record Disk : Type 0 where
  pub root : String
  pub files : List (String × Bytes)
  pub temporaries : List (String × Bytes)

abbrev pub disk : FileStore → Disk
disk s = record { root = s.root; files = s.files; temporaries = s.temporaries }

pub cached_or-Keeps :
    {V : Type 0} {view : FileStore → V} (cached : Bytes) (rest : Exec FileStore Bytes)
    → Keeps view rest
    → Keeps view (cached_or cached rest)
unfolding cached_or
cached_or-Keeps [] rest k = k
cached_or-Keeps (b ∷ key) rest k = search keeps_rules

module _ (c : Codec) (w : World) where
  create_key-Keeps-disk : (id : String) → Keeps disk (create_key c w id)
  unfolding create_key
  create_key-Keeps-disk id = search store_rules depth 12

  load_key-Keeps-disk : (id : String) (bytes : Bytes) → Keeps disk (load_key c w id bytes)
  unfolding load_key
  load_key-Keeps-disk id bytes = search store_rules depth 12

  keyring_key-Keeps-disk : (id : String) (bytes : Bytes) → Keeps disk (keyring_key c w id bytes)
  unfolding keyring_key
  keyring_key-Keeps-disk id [] = create_key-Keeps-disk id
  keyring_key-Keeps-disk id (b ∷ bytes) = load_key-Keeps-disk id (b ∷ bytes)

  pub vault_key-Keeps-disk : (given : String) → Keeps disk (vault_key c w given)
  unfolding vault_key ensure_key fetch_key
  vault_key-Keeps-disk given =
      search (store_rules, cached_or-Keeps, keyring_key-Keeps-disk) depth 12

  pub read_file-Keeps :
      {V : Type 0} {view : FileStore → V} (id path : String) → Keeps view (read_file c w id path)
  unfolding read_file
  read_file-Keeps id path = search store_rules

  -- A write that reports success: only the one file and the temporary files have changed.
  pub write_file-ok :
      (id path : String) (file : SecretFile) (s : FileStore)
      → (write_file c w id path file s).0 ≡ ok tt
      → (write_file c w id path file s).1 ≡ record s {
        files = insert (secret_file_path s.root id path) (c.marshal_file file) s.files;
        temporaries = (write_file c w id path file s).1.temporaries;
      }
  unfolding write_file write_file_atomic install deferred relabel ◌>>=◌
  write_file-ok id path file s h = ground arith

  -- The directory can be synced after the rename.
  abbrev pub SyncsDirectory : Type 0
  SyncsDirectory = (w.write_file.open_directory ≡ none) × (w.write_file.sync_directory ≡ none)
